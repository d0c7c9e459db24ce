-- ===== src/Zns/Dispatch.antt =====
-- zns_ftl.c: zns_proc_nvme_io_cmd, which hands a command to its handler.
pub mod Reach
use nvmevirt_hybrid.Prelude.{ℕ, ◌==◌, Bool, true, false, if◌then◌else◌, Option, none, some}
use nvmevirt_hybrid.Prelude.Run.{Run, ok, ◌>>=◌, ◌>>◌, nvmev_assert}
use nvmevirt_hybrid.Zns.{ZnsFtl, Status}
use nvmevirt_hybrid.Zns.MgmtSend.{ZoneMgmtSend, zns_zmgmt_send}
use nvmevirt_hybrid.Zns.Write.{RwCommand, WriteOutcome}
use nvmevirt_hybrid.Zns.Zrwa.{zns_write}
use nvmevirt_hybrid.Zns.Read.{zns_read, zns_flush}
use nvmevirt_hybrid.Zns.Report.{ZoneMgmtRecv, zns_zmgmt_recv}

-- The opcodes of the switch with what their handlers read of the command. Writes and appends are one
-- case; `other_cmd` stands for every other opcode.
pub data IoCommand : Type 0 where
  write_cmd read_cmd : RwCommand → IoCommand
  flush_cmd other_cmd : IoCommand
  zone_mgmt_send_cmd : ZoneMgmtSend → IoCommand
  zone_mgmt_recv_cmd : ZoneMgmtRecv → IoCommand

-- The state, the handler's result, and the status and the time that it has written, if it has.
pub record IoOutcome : Type 0 where
  pub ftl : ZnsFtl
  pub done : Bool
  pub answer : Option (Status × ℕ)

module _ (cpu_clock : ℕ → ℕ) where
  -- The `switch`; `now` is what local_clock gives to a flush.
  unfoldable pub handle : IoCommand → ZnsFtl → ℕ → ℕ → Run IoOutcome
  handle (write_cmd cmd) z nsecs_start now = do
    w ← zns_write cpu_clock z cmd
    ok (record {
      ftl = w.ftl;
      done = w.done;
      answer = if w.done then some (w.status, w.nsecs_target) else none;
    })
  handle (read_cmd cmd) z nsecs_start now = do
    (y, status, t) ← zns_read cpu_clock z cmd
    ok (record { ftl = y; done = true; answer = some (status, t) })
  handle flush_cmd z nsecs_start now =
      let (y, status, t) = zns_flush cpu_clock z now in
      ok (record { ftl = y; done = true; answer = some (status, t) })
  handle (zone_mgmt_send_cmd cmd) z nsecs_start now = do
    (y, status, t) ← zns_zmgmt_send z cmd nsecs_start
    ok (record { ftl = y; done = true; answer = some (status, t) })
  handle (zone_mgmt_recv_cmd cmd) z nsecs_start now = do
    (report, status, t) ← zns_zmgmt_recv z cmd nsecs_start
    ok (record { ftl = z; done = true; answer = some (status, t) })
  handle other_cmd z nsecs_start now = ok (record { ftl = z; done = true; answer = none })

  -- `is_zns` is `ns->csi == NVME_CSI_ZNS`.
  unfoldable pub zns_proc_nvme_io_cmd : Bool → ℕ → ZnsFtl → IoCommand → ℕ → ℕ → Run IoOutcome
  zns_proc_nvme_io_cmd is_zns nr_parts z cmd nsecs_start now = do
    nvmev_assert is_zns
    nvmev_assert (nr_parts == 1)
    handle cmd z nsecs_start now
