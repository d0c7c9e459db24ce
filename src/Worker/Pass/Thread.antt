-- ===== src/Worker/Pass/Thread.antt =====
-- io.c: a worker's thread and the dispatcher's calls, in any order. Each step is one call of the
-- dispatcher, or one round of the worker's loop.
use nvmevirt_hybrid.Prelude.{ℕ, ◌≤◌, ◌≡◌, ◌≢◌, Bool, true, false, List, [], ◌∷◌, ◌++◌}
use nvmevirt_hybrid.Prelude.Run.{ok}
use nvmevirt_hybrid.Worker.{ProcEntry, ProcInfo, nil, init_proc_info}
use nvmevirt_hybrid.Worker.Queues.{Queues}
use nvmevirt_hybrid.Worker.Enqueue.{
  IoRequest, WritebackRequest, enqueue_io_req, enqueue_writeback_io_req,
}
use nvmevirt_hybrid.Worker.Order.{All, InOrder}
use nvmevirt_hybrid.Worker.Reclaim.{reclaim}
use nvmevirt_hybrid.Worker.Completion.{Cqes}
use nvmevirt_hybrid.Worker.Completion.Ring.{Ready}
use nvmevirt_hybrid.Worker.Pass.{WorkerState, visit}
use nvmevirt_hybrid.Worker.Pass.Visit.{CanComplete}
use nvmevirt_hybrid.Worker.Pass.Cursor.{Stands}
use nvmevirt_hybrid.Worker.Index.{Item}

-- A worker, and the entry that it stands on.
pub record Thread : Type 0 where
  pub w : WorkerState
  pub curr : ℕ

abbrev pub put_pi : Thread → ProcInfo → Thread
put_pi s pi = record s { w = record s.w { pi = pi } }

-- `now` is a reading of the clock, which does not go back.
pub data Step (nr_max : ℕ) (s : Thread) : Thread → Type 0 where
  takes_io :
      (now : ℕ) (r : IoRequest) (pi : ProcInfo) (taken : Bool)
      → Ready s.w.cqes r.cqid
      → enqueue_io_req nr_max now r s.w.pi ≡ ok (pi, taken)
      → Step nr_max s (put_pi s pi)
  takes_writeback :
      (now now1 : ℕ) (r : WritebackRequest) (pi : ProcInfo) (taken : Bool)
      → enqueue_writeback_io_req nr_max now now1 r s.w.pi ≡ ok (pi, taken)
      → Step nr_max s (put_pi s pi)
  reclaims : (pi : ProcInfo) → reclaim s.w.pi ≡ ok pi → Step nr_max s (put_pi s pi)
  starts : s.curr ≡ nil → Step nr_max s (record s { curr = s.w.pi.io_seq })
  visits :
      (now : ℕ) (w : WorkerState) (next : ℕ)
      → s.curr ≢ nil
      → s.w.pi.proc_io_nsecs ≤ now
      → visit now s.curr s.w ≡ ok (w, next)
      → Step nr_max s (record { w = w; curr = next })

pub data Reach (nr_max : ℕ) (s : Thread) : Thread → Type 0 where
  here : Reach nr_max s s
  next : (t u : Thread) → Reach nr_max s t → Step nr_max t u → Reach nr_max s u

-- A request can be completed, and has not been before its time.
pub record IsFair (now : ℕ) (cqes : Cqes) (d : ProcEntry) : Type 0 where
  pub can : CanComplete cqes d
  pub due : d.is_completed ≡ true → d.nsecs_target ≤ now

pub record IsSafe (nr_max : ℕ) (s : Thread) : Type 0 where
  pub io : List Item
  pub free : List ℕ
  pub queues : Queues nr_max s.w.pi io free
  pub order : InOrder s.w.pi.proc_io_nsecs io
  pub fair : All (IsFair s.w.pi.proc_io_nsecs s.w.cqes) io
  pub stands : Stands s.w.pi.proc_table s.curr io (free ++ s.w.pi.free_seq_end ∷ [])

pub true_ne_false : true ≢ false
true_ne_false h = cc

-- The worker behind NVMEV_IO_PROC_INIT.
abbrev pub first_thread : ℕ → Cqes → Thread
first_thread nr_max cqes = record {
  w = record { pi = init_proc_info nr_max; cqes = cqes; jobs = [] };
  curr = nil;
}
