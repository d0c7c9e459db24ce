-- ===== src/Tests/Zones.antt =====
-- Examples on the zoned namespace.
use nvmevirt_hybrid.Prelude.{some, ◌+◌, ◌≡◌, refl, ◌⊎◌, inr, arith, true, false, [], ◌∷◌}
use nvmevirt_hybrid.Prelude.Run.{ok}
use nvmevirt_hybrid.Ssd.Device.{InDevice}
use nvmevirt_hybrid.Zns.{
  ZnsFtl, closed, success, change_zone_state, release_zone_resource, zns_init_ftl, lba_to_zone,
  zone_to_slba,
}
use nvmevirt_hybrid.Zns.Accounts.{Accounted, IsExact}
use nvmevirt_hybrid.Zns.Dispatch.{zone_mgmt_send_cmd, handle, zns_proc_nvme_io_cmd}
use nvmevirt_hybrid.Zns.Dispatch.Reach.{Reach, start, next, Reach-Accounted}
use nvmevirt_hybrid.Zns.Zrwa.{zns_write}
use nvmevirt_hybrid.Zns.Zrwa.Keeps.{zns_write-keeps}
use nvmevirt_hybrid.Zns.{lpn_to_zone, lba_to_lpn}
use nvmevirt_hybrid.Prelude.{◌↔◌, ◌≢◌, ℕ}
use nvmevirt_hybrid.Ssd.{Ssd}
use nvmevirt_hybrid.Ssd.Device.{Kept}
use nvmevirt_hybrid.Zns.{Status, offline, opened_impl}
use nvmevirt_hybrid.Zns.Write.{put_ssd}
use nvmevirt_hybrid.Zns.Read.{zns_read}
use nvmevirt_hybrid.Zns.Read.Laws.{zns_read_total}
use nvmevirt_hybrid.Zns.Init.{zns_init_ftl-Accounted, lba_to_zone-zone_to_slba}
use nvmevirt_hybrid.Zns.MgmtSend.{
  close_zone, ZoneMgmtSend, zns_zmgmt_send, zmgmt_send, zmgmt_send_close_zone, close_switch,
  zmgmt_send_reset_zone,
}
use nvmevirt_hybrid.Zns.MgmtSend.Keeps.{zns_zmgmt_send-keeps}
use nvmevirt_hybrid.Zns.MgmtSend.Reset.{IsReset, zmgmt_send_reset_zone-IsReset}
use nvmevirt_hybrid.Zns.Write.{
  RwCommand, WriteOutcome, check_boundary_error, lpn_to_ppa, zone_write,
}
use nvmevirt_hybrid.Zns.Write.Laws.{Written, Refused}
use nvmevirt_hybrid.Zns.Write.Effect.{zone_write-keeps}
use nvmevirt_hybrid.Zns.Write.Total.{lpn_to_ppa-InDevice}
use nvmevirt_hybrid.Zns.Write.Returns.{zone_write_total, zone_write_success}
use nvmevirt_hybrid.Tests.{
  some_params, some_ssd, some_ssd-IsDevice, some_zp, some_params-IsGeometry, half_written,
  unwritten, two_zones, two_zones-Accounted, some_clock,
}

abbrev close_zone_0 : ZoneMgmtSend
close_zone_0 = record { select_all = false; zsa = close_zone; zsaso = false; slba = 0 }

abbrev one_closed : ZnsFtl
one_closed = record two_zones {
  open_info = record { acquired_cnt = 0; total_cnt = 2 };
  zone_descs = record half_written { state = closed } ∷ unwritten ∷ [];
}

closes : zns_zmgmt_send two_zones close_zone_0 55 ≡ ok (one_closed, success, 55)
unfolding zns_zmgmt_send zmgmt_send zmgmt_send_close_zone close_switch change_zone_state
    release_zone_resource lba_to_zone
closes = refl

zns_zmgmt_send-keeps_example : Accounted one_closed × (IsExact two_zones → IsExact one_closed)
zns_zmgmt_send-keeps_example =
    zns_zmgmt_send-keeps two_zones close_zone_0 55 one_closed success 55 two_zones-Accounted closes

-- Four sectors at the write pointer of zone 0.
abbrev some_write : RwCommand
some_write = record {
  is_append = false;
  slba = 8;
  length = 3;
  fua = false;
  sq_id = 1;
  nsecs_start = 55;
}

in_zone_0 : lba_to_zone two_zones some_write.slba ≡ 0
unfolding lba_to_zone
in_zone_0 = refl

zone_write_total_example :
    (r : WriteOutcome) × (zone_write some_clock two_zones some_write ≡ ok r)
    × (Written two_zones (lba_to_zone two_zones 8) half_written 4 8 r ⊎ Refused two_zones r)
zone_write_total_example =
    zone_write_total some_clock two_zones some_write half_written two_zones.ssd.write_buffer
      (rw in_zone_0 refl) refl two_zones-Accounted (some_ssd-IsDevice, some_params-IsGeometry) refl

within_zone_0 : check_boundary_error two_zones 8 4 ≡ true
unfolding check_boundary_error lba_to_zone
within_zone_0 = refl

zone_write_success_example :
    (r : WriteOutcome) × (zone_write some_clock two_zones some_write ≡ ok r)
    × (r.done ≡ true)
    × (r.status ≡ success)
zone_write_success_example =
    zone_write_success some_clock two_zones some_write half_written two_zones.ssd.write_buffer
      (rw in_zone_0 refl) refl two_zones-Accounted (some_ssd-IsDevice, some_params-IsGeometry) refl
      refl refl refl within_zone_0 (omega arith) (omega arith)

-- The outcome of the write above.
written :
    (r : WriteOutcome) × (zone_write some_clock two_zones some_write ≡ ok r)
    × (r.done ≡ true)
    × (r.status ≡ success)
written =
    zone_write_success some_clock two_zones some_write half_written two_zones.ssd.write_buffer
      (rw in_zone_0 refl) refl two_zones-Accounted (some_ssd-IsDevice, some_params-IsGeometry) refl
      refl refl refl within_zone_0 (omega arith) (omega arith)

zone_write-keeps_example : Accounted written.0.ftl × (IsExact two_zones → IsExact written.0.ftl)
zone_write-keeps_example =
    zone_write-keeps some_clock two_zones some_write half_written written.0 (rw in_zone_0 refl)
      two_zones-Accounted refl written.1

zmgmt_send_reset_zone-IsReset_example :
    (y : ZnsFtl) × (zmgmt_send_reset_zone two_zones 0 ≡ ok (y, success))
    × IsReset two_zones 0 half_written y
zmgmt_send_reset_zone-IsReset_example =
    zmgmt_send_reset_zone-IsReset two_zones 0 half_written refl refl
      (inr (record { size = 8192; remaining = 0 }, refl))

lpn_to_ppa-InDevice_example : InDevice some_params (lpn_to_ppa two_zones 3)
lpn_to_ppa-InDevice_example = lpn_to_ppa-InDevice two_zones some_params-IsGeometry 3

zns_init_ftl-Accounted_example :
    Accounted (zns_init_ftl some_zp some_ssd (λ a. 7))
    × IsExact (zns_init_ftl some_zp some_ssd (λ a. 7))
zns_init_ftl-Accounted_example = zns_init_ftl-Accounted some_zp some_ssd (λ a. 7) (omega arith)

lba_to_zone-zone_to_slba_example : lba_to_zone two_zones (zone_to_slba two_zones 1 + 5) ≡ 1
lba_to_zone-zone_to_slba_example =
    lba_to_zone-zone_to_slba two_zones 1 5 (omega arith) (omega arith)

closes_as_command :
    zns_proc_nvme_io_cmd some_clock true 1 two_zones (zone_mgmt_send_cmd close_zone_0) 55 0
    ≡ ok (record { ftl = one_closed; done = true; answer = some (success, 55) })
unfolding zns_proc_nvme_io_cmd handle
closes_as_command = rw closes refl

zone_0_closed : Reach some_clock two_zones one_closed
zone_0_closed =
    next two_zones (zone_mgmt_send_cmd close_zone_0) 55 0
      (record { ftl = one_closed; done = true; answer = some (success, 55) }) start tt
      closes_as_command

Reach-Accounted_example : Accounted one_closed
Reach-Accounted_example =
    Reach-Accounted some_clock two_zones one_closed two_zones-Accounted zone_0_closed

some_write_aligned : lpn_to_zone two_zones (lba_to_lpn two_zones 8) ≡ lba_to_zone two_zones 8
unfolding lpn_to_zone lba_to_lpn lba_to_zone
some_write_aligned = refl

written_in_zone : zns_write some_clock two_zones some_write ≡ ok written.0
unfolding zns_write
written_in_zone = rw (some_write_aligned, in_zone_0) written.1

zns_write-keeps_example : Accounted written.0.ftl
zns_write-keeps_example =
    zns_write-keeps some_clock two_zones some_write written.0 some_write_aligned two_zones-Accounted
      written_in_zone

abbrev some_read_cmd : RwCommand
some_read_cmd = record {
  is_append = false;
  slba = 3;
  length = 7;
  fua = false;
  sq_id = 1;
  nsecs_start = 55;
}

some_read_zone : lpn_to_zone two_zones (lba_to_lpn two_zones 3) ≡ 0
unfolding lpn_to_zone lba_to_lpn
some_read_zone = refl

zns_read_total_example :
    (ssd : Ssd) × (st : Status) × (t : ℕ) × (zns_read some_clock two_zones some_read_cmd
      ≡ ok (put_ssd two_zones ssd, st, t))
    × Kept some_ssd ssd
    × ((st ≡ success) ↔ ((opened_impl ≢ offline) × (check_boundary_error two_zones 3 8 ≡ true)))
zns_read_total_example =
    zns_read_total some_clock two_zones some_read_cmd half_written
      (some_ssd-IsDevice, some_params-IsGeometry) (omega arith) (omega arith)
      (rw some_read_zone refl)
