-- ===== src/Worker/Doorbell.antt =====
-- io.c: nvmev_proc_io_sq and nvmev_proc_io_cq, which answer the host's writes to a doorbell.
pub mod Laws
pub mod Landing
use nvmevirt_hybrid.Prelude.{
  ℕ, zero, suc, ◌+◌, ◌-◌, ◌*◌, ◌%◌, max, Bool, true, false, Option, none, some, List, [], ◌∷◌,
  get_elem?, set, length, ltb, leb, ◌==◌, if◌then◌else◌, u32_mod, u64_mod,
}
use nvmevirt_hybrid.Prelude.Run.{
  Run, ok, fault, out_of_bounds, null_dereference, out_of_fuel, divide_by_zero, ◌>>=◌, or_fault,
}
use nvmevirt_hybrid.Worker.{nil}

-- struct nvmev_sq_stat
pub record SqStat : Type 0 where
  pub nr_dispatched : ℕ
  pub nr_dispatch : ℕ
  pub nr_in_flight : ℕ
  pub max_nr_in_flight : ℕ
  pub total_io : ℕ

abbrev pub u32_add : ℕ → ℕ → ℕ
u32_add a b = (a + b) % u32_mod

-- max_t(int, a, b): a number from 2^31 on is negative.
abbrev pub int_max : ℕ → ℕ → ℕ
int_max a b = if ltb ((b + 2147483648) % u32_mod) ((a + 2147483648) % u32_mod) then a else b

-- The counts behind a command of `io_size` bytes.
unfoldable pub dispatched : ℕ → SqStat → SqStat
dispatched io_size s = record s {
  nr_dispatched = u32_add s.nr_dispatched 1;
  nr_in_flight = u32_add s.nr_in_flight 1;
  total_io = (s.total_io + io_size) % u64_mod;
}

-- The entries between the doorbell's old and new value.
unfoldable pub num_proc : ℕ → ℕ → ℕ → ℕ
num_proc size new_db old_db = if ltb new_db old_db then new_db + size - old_db else new_db - old_db

-- `proc_io` stands for __nvmev_proc_io on the queue's entry: the device behind it, and the size of the
-- command, or nothing if the command was refused.
module _ {D : Type 0} (proc_io : D → ℕ → Run (D × Option ℕ)) (size : ℕ) where
  -- The loop of nvmev_proc_io_sq, with `n` entries to go: the device, the counts and `seq`.
  unfoldable pub sq_rounds : ℕ → D → SqStat → ℕ → ℕ → Run (D × SqStat × ℕ)
  sq_rounds zero dev s entry seq = ok (dev, s, seq)
  sq_rounds (suc n) dev s entry seq = proc_io dev entry >>= λ (dev1, taken). elim taken [
    | none ↦ ok (dev1, s, seq)
    | some io_size ↦
        sq_rounds n dev1 (dispatched io_size s) (if entry + 1 == size then 0 else entry + 1)
          (seq + 1)
  ]

  -- The new value of the doorbell that the dispatcher keeps.
  unfoldable pub proc_io_sq : D → SqStat → ℕ → ℕ → Run (D × SqStat × ℕ)
  unfolding sq_rounds num_proc dispatched
  proc_io_sq dev s new_db old_db =
      sq_rounds (num_proc size new_db old_db) dev s old_db 0 >>= λ (dev1, s1, seq).
      let s2 = record s1 {
        nr_dispatch = u32_add s1.nr_dispatch 1;
        max_nr_in_flight = int_max s1.max_nr_in_flight s1.nr_in_flight;
      } in
      if size == 0 then fault divide_by_zero else ok (dev1, s2, (old_db + seq) % size)

  -- nvmev_proc_io_sq as a whole: a queue that is not there leaves its doorbell as it was.
  unfoldable pub nvmev_proc_io_sq : D → Option SqStat → ℕ → ℕ → Run (D × Option SqStat × ℕ)
  unfolding proc_io_sq
  nvmev_proc_io_sq dev none new_db old_db = ok (dev, none, old_db)
  nvmev_proc_io_sq dev (some s) new_db old_db =
      proc_io_sq dev s new_db old_db >>= λ (dev1, s1, latest_db). ok (dev1, some s1, latest_db)

-- The submission queues' counts of commands in flight, by number; `sq_ids` are the numbers in the
-- completion queue's entries.
unfoldable pub lands : List ℕ → ℕ → Run (List ℕ)
lands in_flight sq_id = or_fault (get_elem? in_flight sq_id) null_dereference >>= λ n.
    ok (set in_flight sq_id ((n + u32_mod - 1) % u32_mod))

-- The loop of nvmev_proc_io_cq: past the queue's end, `i` becomes -1 and then 0.
unfoldable pub cq_rounds : ℕ → List ℕ → ℕ → List ℕ → ℕ → Run (List ℕ)
unfolding lands
cq_rounds zero sq_ids new_db in_flight i = fault out_of_fuel
cq_rounds (suc fuel) sq_ids new_db in_flight i = elim (i == new_db) [
  | true ↦ ok in_flight
  | false ↦
      let wrapped = cq_rounds fuel sq_ids new_db in_flight 0 in
      if leb (length sq_ids) i
      then wrapped
      else (or_fault (get_elem? sq_ids i) out_of_bounds >>= λ id.
          lands in_flight id >>= λ counts. cq_rounds fuel sq_ids new_db counts (i + 1))
]

-- nvmev_proc_io_cq, with the queue's `cq_tail`. The doorbells are below 2^31.
unfoldable pub nvmev_proc_io_cq : ℕ → List ℕ → ℕ → ℕ → List ℕ → Run (List ℕ × ℕ)
unfolding cq_rounds
nvmev_proc_io_cq fuel sq_ids new_db old_db in_flight =
    cq_rounds fuel sq_ids new_db in_flight old_db >>= λ counts.
    ok (counts, if new_db == nil then length sq_ids - 1 else (new_db + u32_mod - 1) % u32_mod)
