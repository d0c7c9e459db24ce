-- ===== src/Worker.antt =====
-- io.c: the I/O workers. Each has a table of requests, through which two lists run: the free entries,
-- and the requests in the order in which they end.
pub mod Enqueue
pub mod Reclaim
pub mod Pass
pub mod Index
pub mod Chain
pub mod Queues
pub mod Completion
pub mod Order
pub mod Init
pub mod Doorbell
pub mod Dispatch
pub mod Perform
use nvmevirt_hybrid.Prelude.{
  ℕ, zero, suc, ◌+◌, ◌-◌, Bool, true, false, List, [], ◌∷◌, get_elem?, set, ◌==◌, if◌then◌else◌,
  u32_mod,
}
use nvmevirt_hybrid.Prelude.Run.{Run, ok, out_of_bounds, ◌>>=◌, or_fault}

-- An `unsigned int` that is -1: no entry.
abbrev pub nil : ℕ
nil = 4294967295

-- struct nvmev_proc_table, without the times that only PERF_DEBUG sets. A pointer to a write buffer is
-- the buffer's number.
pub record ProcEntry : Type 0 where
  pub sqid : ℕ
  pub cqid : ℕ
  pub sq_entry : ℕ
  pub command_id : ℕ
  pub nsecs_start : ℕ
  pub nsecs_target : ℕ
  pub nsecs_enqueue : ℕ
  pub is_copied : Bool
  pub is_completed : Bool
  pub status : ℕ
  pub result0 : ℕ
  pub result1 : ℕ
  pub writeback_cmd : Bool
  pub write_buffer : ℕ
  pub buffs_to_release : ℕ
  pub next : ℕ
  pub prev : ℕ

-- struct nvmev_proc_info
pub record ProcInfo : Type 0 where
  pub proc_table : List ProcEntry
  pub free_seq : ℕ
  pub free_seq_end : ℕ
  pub io_seq : ℕ
  pub io_seq_end : ℕ
  pub proc_io_nsecs : ℕ

abbrev pub entry_at : ProcInfo → ℕ → Run ProcEntry
entry_at pi i = or_fault (get_elem? pi.proc_table i) out_of_bounds

abbrev pub put_entry : ProcInfo → ℕ → ProcEntry → ProcInfo
put_entry pi i e = record pi { proc_table = set pi.proc_table i e }

abbrev pub with_next : ProcEntry → ℕ → ProcEntry
with_next e n = record e { next = n }

abbrev pub with_prev : ProcEntry → ℕ → ProcEntry
with_prev e p = record e { prev = p }

-- An assignment to the link of an entry.
abbrev pub set_next : ProcInfo → ℕ → ℕ → Run ProcInfo
set_next pi i n = entry_at pi i >>= λ e. ok (put_entry pi i (with_next e n))

abbrev pub set_prev : ProcInfo → ℕ → ℕ → Run ProcInfo
set_prev pi i p = entry_at pi i >>= λ e. ok (put_entry pi i (with_prev e p))

-- An entry of the memory that kzalloc returns.
abbrev pub zero_entry : ProcEntry
zero_entry = record {
  sqid = 0;
  cqid = 0;
  sq_entry = 0;
  command_id = 0;
  nsecs_start = 0;
  nsecs_target = 0;
  nsecs_enqueue = 0;
  is_copied = false;
  is_completed = false;
  status = 0;
  result0 = 0;
  result1 = 0;
  writeback_cmd = false;
  write_buffer = 0;
  buffs_to_release = 0;
  next = 0;
  prev = 0;
}

-- The loop of NVMEV_IO_PROC_INIT over the entries, with `n` to go, from entry `i` on. The last entry's
-- link is written behind the loop.
unfoldable pub init_entries : ℕ → ℕ → List ProcEntry
init_entries zero i = []
init_entries (suc n) i =
    record zero_entry { next = if n == 0 then nil else i + 1; prev = if i == 0 then nil else i - 1 }
    ∷ init_entries n (i + 1)

-- What NVMEV_IO_PROC_INIT makes of one worker, for NR_MAX_PARALLEL_IO = `nr_max`.
unfoldable pub init_proc_info : ℕ → ProcInfo
unfolding init_entries
init_proc_info nr_max = record {
  proc_table = init_entries nr_max 0;
  free_seq = 0;
  free_seq_end = nr_max - 1;
  io_seq = nil;
  io_seq_end = nil;
  proc_io_nsecs = 0;
}
