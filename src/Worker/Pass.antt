-- ===== src/Worker/Pass.antt =====
-- io.c: the body of nvmev_kthread_io, in the builds whose SSD is not the key-value prototype.
pub mod Visit
pub mod Whole
pub mod Cursor
pub mod Thread
pub mod Round
pub mod Interleaving
use nvmevirt_hybrid.Prelude.{
  ℕ, zero, suc, ◌+◌, Bool, true, false, Option, none, some, List, [], ◌∷◌, ◌++◌, get_elem?, set,
  length, leb, ◌==◌, if◌then◌else◌,
}
use nvmevirt_hybrid.Prelude.Run.{Run, ok, fault, out_of_bounds, out_of_fuel, ◌>>=◌, or_fault}
use nvmevirt_hybrid.Worker.{ProcEntry, ProcInfo, nil, entry_at, put_entry}
use nvmevirt_hybrid.Worker.Completion.{Cqes, post}

-- What a worker has other parts do, in order: __do_perform_io (or its version for DMA) on a submission
-- queue's entry, and buffer_release of a number of bytes.
pub data Job : Type 0 where
  perform_io : ℕ → ℕ → Job
  release_buffer : ℕ → ℕ → Job

pub record WorkerState : Type 0 where
  pub pi : ProcInfo
  pub cqes : Cqes
  pub jobs : List Job

abbrev pub marked : ProcEntry → ProcEntry
marked e = record e { is_copied = true }

abbrev pub finished : ProcEntry → ProcEntry
finished e = record e { is_completed = true }

-- The two steps for an entry that is not complete: the copy, and the completion.
unfoldable pub copy : ProcEntry → WorkerState → WorkerState
copy e w =
    if e.is_copied
    then w
    else if e.writeback_cmd
    then w
    else record w { jobs = w.jobs ++ perform_io e.sqid e.sq_entry ∷ [] }

unfoldable pub complete : ProcEntry → WorkerState → Run WorkerState
unfolding post
complete e w =
    if e.writeback_cmd
    then ok (record w { jobs = w.jobs ++ release_buffer e.write_buffer e.buffs_to_release ∷ [] })
    else (post e w.cqes >>= λ cqes. ok (record w { cqes = cqes }))

-- One round of the inner loop at time `curr_nsecs`, and the next entry.
unfoldable pub visit : ℕ → ℕ → WorkerState → Run (WorkerState × ℕ)
unfolding copy complete
visit curr_nsecs curr w0 = do
  pe ← entry_at w0.pi curr
  let pi = record w0.pi { proc_io_nsecs = curr_nsecs }
  let w = record w0 { pi = pi }
  if pe.is_completed
      then ok (w, pe.next)
      else (let w1 = copy pe w in
          if leb pe.nsecs_target curr_nsecs
          then (complete (marked pe) w1 >>= λ w2.
              ok (record w2 { pi = put_entry pi curr (finished (marked pe)) }, pe.next))
          else ok (record w1 { pi = put_entry pi curr (marked pe) }, pe.next))

-- The inner loop: the `n`-th reading of the clock is at the `n`-th round.
module _ (clock : ℕ → ℕ) where
  unfoldable pub pass : ℕ → ℕ → WorkerState → ℕ → Run WorkerState
  unfolding visit
  pass zero n w curr = fault out_of_fuel
  pass (suc fuel) n w curr = elim (curr == nil) [
    | true ↦ ok w
    | false ↦ visit (clock n) curr w >>= λ (w1, next). pass fuel (suc n) w1 next
  ]
