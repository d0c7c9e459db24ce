-- ===== src/Worker/Dispatch.antt =====
-- io.c: __nvmev_proc_io, which takes one command from a submission queue to the device and to a worker.
pub mod Laws
use nvmevirt_hybrid.Prelude.{
  ℕ, zero, suc, ◌+◌, ◌*◌, ◌<◌, ◌≡◌, Bool, Option, none, some, List, [], ◌∷◌,
}
use nvmevirt_hybrid.Prelude.Run.{Run, ok, ◌>>=◌}
use nvmevirt_hybrid.Worker.{ProcInfo}
use nvmevirt_hybrid.Worker.Enqueue.{IoRequest, Workers, enqueue_io_req, dispatch}
use nvmevirt_hybrid.Worker.Reclaim.{reclaim_completed_reqs}

-- What the function reads of the command, and struct nvmev_result.
pub record SqCommand : Type 0 where
  pub sqid : ℕ
  pub cqid : ℕ
  pub sq_entry : ℕ
  pub command_id : ℕ
  pub length : ℕ

pub record Answer : Type 0 where
  pub status : ℕ
  pub nsecs_target : ℕ

-- `proc_io_cmd` stands for the namespace's handler at a time, which may give the workers writeback
-- requests; nothing is its answer if it returns false.
module _ {D : Type 0} (nr_max : ℕ) (by_sq : Bool)
    (proc_io_cmd : D → Workers → SqCommand → ℕ → Run (D × Workers × Option Answer)) where
  -- `nsecs_start` is the reading of __get_wallclock, `now` that of local_clock. With the device, the
  -- command's size in bytes.
  unfoldable pub nvmev_proc_io : ℕ → ℕ → D → Workers → SqCommand → Run (D × Workers × Option ℕ)
  unfolding dispatch reclaim_completed_reqs
  nvmev_proc_io nsecs_start now dev ws cmd =
      proc_io_cmd dev ws cmd nsecs_start >>= λ (dev1, ws1, answer). elim answer [
        | none ↦ ok (dev1, ws1, none)
        | some ret ↦ do
          let req : IoRequest = record {
            sqid = cmd.sqid;
            cqid = cmd.cqid;
            sq_entry = cmd.sq_entry;
            command_id = cmd.command_id;
            status = ret.status;
            nsecs_start = nsecs_start;
            nsecs_target = ret.nsecs_target;
          }
          ws2 ← dispatch by_sq (enqueue_io_req nr_max now req) ws1 cmd.sqid
          pis ← reclaim_completed_reqs ws2.proc_info
          ok (dev1, record ws2 { proc_info = pis }, some ((cmd.length + 1) * 512))
      ]

  -- The handler that nvmev_proc_io_sq calls: `command` reads a queue's entry, and the two clocks are read
  -- once for each command.
  unfoldable pub sq_handler :
      (ℕ → ℕ) → (ℕ → ℕ) → (ℕ → SqCommand) → D × Workers × ℕ → ℕ → Run ((D × Workers × ℕ) × Option ℕ)
  unfolding nvmev_proc_io
  sq_handler wallclock local_clock command (dev, ws, n) sq_entry =
      nvmev_proc_io (wallclock n) (local_clock n) dev ws (command sq_entry)
      >>= λ (dev1, ws1, io_size). ok ((dev1, ws1, suc n), io_size)
