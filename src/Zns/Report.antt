-- ===== src/Zns/Report.antt =====
-- zns_mgmt_recv.c: the zone report. The copy into the host's pages, `__prp_transfer_data`, is left
-- out; the report is the result.
use nvmevirt_hybrid.Prelude.{
  ℕ, zero, suc, ◌+◌, ◌-◌, ◌*◌, ◌/◌, ◌%◌, Bool, true, false, not, Option, none, some, List, [], ◌∷◌,
  ◌==◌, if◌then◌else◌, u32_mod, u64_mod,
}
use nvmevirt_hybrid.Prelude.Run.{Run, ok, ◌>>=◌}
use nvmevirt_hybrid.Zns.{
  ZnsFtl, ZoneDescriptor, Status, success, invalid_field, zone_desc, lba_to_zone,
}

-- What the code reads of `struct nvme_zone_mgmt_recv`.
pub record ZoneMgmtRecv : Type 0 where
  pub slba : ℕ
  pub nr_dw : ℕ
  pub zra : ℕ
  pub zra_specific_field : ℕ
  pub partial_report : Bool

pub record ZoneReport : Type 0 where
  pub nr_zones : ℕ
  pub zd : List ZoneDescriptor

-- memcpy of `n` descriptors from `zid` on
unfoldable pub copy_descs : ℕ → ZnsFtl → ℕ → Run (List ZoneDescriptor)
copy_descs zero z zid = ok []
copy_descs (suc n) z zid = do d ← zone_desc z zid; rest ← copy_descs n z (zid + 1); ok (d ∷ rest)

-- A descriptor has 64 bytes.
unfoldable pub nr_zone_to_report : ZnsFtl → ZoneMgmtRecv → ℕ
nr_zone_to_report z cmd =
    if not cmd.partial_report
    then (z.zp.nr_zones + u64_mod - lba_to_zone z cmd.slba) % u64_mod
    else ((((cmd.nr_dw + 1) % u32_mod) * 4) / 64 + u64_mod - 1) % u64_mod

unfoldable pub fill_zone_report : ZnsFtl → ZoneMgmtRecv → Run ZoneReport
fill_zone_report z cmd = do
  zd ← copy_descs (nr_zone_to_report z cmd) z (lba_to_zone z cmd.slba)
  ok (record { nr_zones = nr_zone_to_report z cmd; zd = zd })

-- A start past the last zone is logged only.
unfoldable pub check_zmgmt_rcv_option_supported : ZoneMgmtRecv → Bool
check_zmgmt_rcv_option_supported cmd =
    if not (cmd.zra == 0) then false else if not (cmd.zra_specific_field == 0) then false else true

-- The report handed to the host, if any, the status and the time of completion.
unfoldable pub zns_zmgmt_recv : ZnsFtl → ZoneMgmtRecv → ℕ → Run (Option ZoneReport × Status × ℕ)
zns_zmgmt_recv z cmd nsecs_start =
    if check_zmgmt_rcv_option_supported cmd
    then (do report ← fill_zone_report z cmd; ok (some report, success, nsecs_start))
    else ok (none, invalid_field, nsecs_start)
