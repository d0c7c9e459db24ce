-- ===== src/Worker/Enqueue.antt =====
-- io.c: __enqueue_io_req and enqueue_writeback_io_req.
pub mod Search
pub mod Insert
pub mod Laws
use nvmevirt_hybrid.Prelude.{
  ℕ, zero, suc, ◌+◌, ◌-◌, ◌%◌, Bool, true, false, ◌||◌, not, List, [], ◌∷◌, get_elem?, set, length,
  ltb, leb, ◌==◌, if◌then◌else◌, u32_mod,
}
use nvmevirt_hybrid.Prelude.Run.{
  Run, ok, fault, out_of_bounds, out_of_fuel, divide_by_zero, ◌>>=◌, ◌>>◌, or_fault, nvmev_assert,
}
use nvmevirt_hybrid.Worker.{ProcEntry, ProcInfo, nil, entry_at, put_entry, set_next, set_prev}

-- The arguments of the two functions, with the command's id and the answer's status.
pub record IoRequest : Type 0 where
  pub sqid : ℕ
  pub cqid : ℕ
  pub sq_entry : ℕ
  pub command_id : ℕ
  pub status : ℕ
  pub nsecs_start : ℕ
  pub nsecs_target : ℕ

pub record WritebackRequest : Type 0 where
  pub sqid : ℕ
  pub nsecs_target : ℕ
  pub write_buffer : ℕ
  pub buffs_to_release : ℕ

-- The assignments to the entry: what they do not name stays as an earlier request left it. `now` is
-- local_clock().
unfoldable pub fill_io : ℕ → IoRequest → ProcEntry → ProcEntry
fill_io now r e = record e {
  sqid = r.sqid;
  cqid = r.cqid;
  sq_entry = r.sq_entry;
  command_id = r.command_id;
  nsecs_start = r.nsecs_start;
  nsecs_enqueue = now;
  nsecs_target = r.nsecs_target;
  status = r.status;
  is_completed = false;
  is_copied = false;
  prev = nil;
  next = nil;
  writeback_cmd = false;
}

-- It reads the clock twice.
unfoldable pub fill_writeback : ℕ → ℕ → WritebackRequest → ProcEntry → ProcEntry
fill_writeback now now1 r e = record e {
  sqid = r.sqid;
  nsecs_start = now;
  nsecs_enqueue = now1;
  nsecs_target = r.nsecs_target;
  is_completed = false;
  is_copied = true;
  prev = nil;
  next = nil;
  writeback_cmd = true;
  buffs_to_release = r.buffs_to_release;
  write_buffer = r.write_buffer;
}

-- The search from the end for an entry that is due, or that ends no later than `target`.
unfoldable pub search_back : ℕ → ProcInfo → ℕ → ℕ → Run ℕ
search_back zero pi target curr = fault out_of_fuel
search_back (suc fuel) pi target curr = elim (curr == nil) [
  | true ↦ ok nil
  | false ↦ entry_at pi curr >>= λ e.
      let rest = search_back fuel pi target e.prev in
      if leb e.nsecs_target pi.proc_io_nsecs || leb e.nsecs_target target then ok curr else rest
]

-- The three ways to link `entry`, behind `curr`.
unfoldable pub link_entry : ProcInfo → ℕ → ℕ → Run ProcInfo
link_entry pi entry curr =
    if curr == nil
    then (do
      p1 ← set_prev pi pi.io_seq entry
      p2 ← set_next p1 entry p1.io_seq
      ok (record p2 { io_seq = entry }))
    else (entry_at pi curr >>= λ c.
        if c.next == nil
        then (do
          p1 ← set_prev pi entry curr
          set_next (record p1 { io_seq_end = entry }) curr entry)
        else (do
          p1 ← set_prev pi entry curr
          c1 ← entry_at p1 curr
          p2 ← set_next p1 entry c1.next
          e ← entry_at p2 entry
          p3 ← set_prev p2 e.next entry
          set_next p3 curr entry))

-- The list has at most as many entries as the table.
unfoldable pub insert_entry : ProcInfo → ℕ → ℕ → Run ProcInfo
unfolding search_back link_entry
insert_entry pi entry target =
    if pi.io_seq == nil
    then ok (record pi { io_seq = entry; io_seq_end = entry })
    else (search_back (suc (length pi.proc_table)) pi target pi.io_seq_end >>= λ curr.
        link_entry pi entry curr)

module _ (nr_max : ℕ) where
  -- Both functions from `entry = pi->free_seq` on: whether the request was taken.
  unfoldable pub enqueue : (ProcEntry → ProcEntry) → ProcInfo → Run (ProcInfo × Bool)
  unfolding insert_entry
  enqueue fill pi = do
    let entry = pi.free_seq
    e ← entry_at pi entry
    if leb nr_max e.next
        then ok (pi, false)
        else (nvmev_assert (ltb e.next nr_max)
            >> (insert_entry (put_entry (record pi { free_seq = e.next }) entry (fill e)) entry
                  (fill e).nsecs_target
                >>= λ p. ok (p, true)))

  unfoldable pub enqueue_io_req : ℕ → IoRequest → ProcInfo → Run (ProcInfo × Bool)
  unfolding enqueue fill_io
  enqueue_io_req now r pi = enqueue (fill_io now r) pi

  unfoldable pub enqueue_writeback_io_req :
      ℕ → ℕ → WritebackRequest → ProcInfo → Run (ProcInfo × Bool)
  unfolding enqueue fill_writeback
  enqueue_writeback_io_req now now1 r pi = enqueue (fill_writeback now now1 r) pi

-- The workers, and whose turn it is.
pub record Workers : Type 0 where
  pub proc_info : List ProcInfo
  pub proc_turn : ℕ

-- __get_io_worker. `by_sq` stands for the macro CONFIG_NVMEV_IO_WORKER_BY_SQ.
unfoldable pub get_io_worker : Bool → Workers → ℕ → Run ℕ
get_io_worker by_sq w sqid =
    if by_sq
    then (if length w.proc_info == 0
        then fault divide_by_zero
        else ok (((sqid + u32_mod - 1) % u32_mod) % length w.proc_info))
    else ok w.proc_turn

-- The functions with the choice of the worker; a request that is not taken leaves the turn alone.
unfoldable pub dispatch : Bool → (ProcInfo → Run (ProcInfo × Bool)) → Workers → ℕ → Run Workers
unfolding get_io_worker
dispatch by_sq put w sqid = do
  turn ← get_io_worker by_sq w sqid
  pi ← or_fault (get_elem? w.proc_info turn) out_of_bounds
  (p, taken) ← put pi
  let next = (turn + 1) % u32_mod
  ok (record {
    proc_info = set w.proc_info turn p;
    proc_turn = if taken then (if next == length w.proc_info then 0 else next) else w.proc_turn;
  })
