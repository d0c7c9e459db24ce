-- ===== src/Zns/Zrwa.antt =====
-- zns_read_write.c: `__zns_write_zrwa`, the write path of a zone with a valid ZRWA (zone random write
-- area), and zns_write, which chooses between the two.
pub mod Laws
pub mod Pointer
pub mod Keeps
use nvmevirt_hybrid.Prelude.{
  ℕ, zero, suc, ◌+◌, ◌-◌, ◌*◌, ◌/◌, ◌%◌, min, Bool, true, false, not, ◌||◌, [], get_elem?, ltb, leb,
  ◌==◌, if◌then◌else◌, u32_mod, u64_mod,
}
use nvmevirt_hybrid.Prelude.Run.{
  Run, ok, fault, out_of_bounds, bug_on, divide_by_zero, out_of_fuel, ◌>>=◌, or_fault,
}
use nvmevirt_hybrid.Buffer.{buffer_allocate}
use nvmevirt_hybrid.Ssd.{ssd_advance_write_buffer}
use nvmevirt_hybrid.Zns.{
  ZnsFtl, ZoneState, empty, opened_impl, opened_expl, closed, read_only, full, offline,
  ZoneDescriptor, open_zone, success, err_boundary, err_full, err_read_only, err_offline,
  invalid_write, no_open_zone, acquire_zone_resource, zone_desc, change_zone_state, lba_to_zone,
  zone_to_elba, lpn_to_zone, lba_to_lpn,
}
use nvmevirt_hybrid.Zns.Write.{
  RwCommand, WriteOutcome, zrwa_buffer, nr_lbas_from_rw_cmd, lba_to_byte, check_boundary_error,
  increase_write_ptr, lpn_to_ppa, Step, go_on, out, read_buffer, put_buffer, put_ssd, Flushed,
  flush_oneshot, completion, rejected, zone_write,
}

abbrev pub zrwa_impl_start : ZnsFtl → ZoneDescriptor → ℕ
zrwa_impl_start z d = (d.wp + z.zp.lbas_per_zrwa) % u64_mod

-- `2 * lbas_per_zrwa` has 32 bits
abbrev pub zrwa_impl_end : ZnsFtl → ZoneDescriptor → ℕ
zrwa_impl_end z d = (d.wp + (2 * z.zp.lbas_per_zrwa) % u32_mod + u64_mod - 1) % u64_mod

-- the case CLOSED or EMPTY
unfoldable pub zrwa_closed : ZnsFtl → ℕ → ZoneDescriptor → Run Step
unfolding acquire_zone_resource change_zone_state buffer_allocate
zrwa_closed z zid d =
    let (z1, got) = acquire_zone_resource z open_zone in
    if not got then ok (out z1 no_open_zone) else do
      b ← read_buffer z1 (zrwa_buffer zid)
      let (b1, allocated) = buffer_allocate b z.zp.zrwa_size
      if allocated == 0
          then fault bug_on
          else ok (go_on (change_zone_state (put_buffer z1 (zrwa_buffer zid) b1) zid d opened_impl))

unfoldable pub zrwa_switch : ZoneState → ZnsFtl → ℕ → ZoneDescriptor → Run Step
unfolding zrwa_closed
zrwa_switch closed z zid d = zrwa_closed z zid d
zrwa_switch empty z zid d = zrwa_closed z zid d
zrwa_switch opened_impl z zid d = ok (go_on z)
zrwa_switch opened_expl z zid d = ok (go_on z)
zrwa_switch full z zid d = ok (out z err_full)
zrwa_switch read_only z zid d = ok (out z err_read_only)
zrwa_switch offline z zid d = ok (out z err_offline)

unfoldable pub zrwa_checked : ZnsFtl → ℕ → ZoneDescriptor → ℕ → ℕ → Run Step
zrwa_checked z zid d slba nr_lba =
    let elba = (slba + nr_lba + u64_mod - 1) % u64_mod in
    if not (lba_to_byte nr_lba % z.ssd.sp.write_unit_size == 0)
    then ok (out z invalid_write)
    else if not (check_boundary_error z slba nr_lba)
    then ok (out z err_boundary)
    else if ltb slba d.wp || ltb (zrwa_impl_end z d) elba
    then ok (out z invalid_write)
    else zrwa_switch d.state z zid d

-- `nr_lbas_flush`: how far the write pointer moves
unfoldable pub nr_lbas_flush : ZnsFtl → ℕ → ZoneDescriptor → ℕ → Run ℕ
nr_lbas_flush z zid d elba =
    let fg = z.zp.lbas_per_zrwafg in
    if leb (zrwa_impl_start z d) elba
    then (if fg == 0
        then fault divide_by_zero
        else ok (((((elba - zrwa_impl_start z d + 1 + fg - 1) % u64_mod) / fg) * fg) % u64_mod))
    else if elba == zone_to_elba z zid
    then ok ((elba + u64_mod - d.wp + 1) % u64_mod)
    else ok 0

module _ (cpu_clock : ℕ → ℕ) where
  -- The loop over the pages that leave the ZRWA, with fuel.
  unfoldable pub zrwa_pages : ℕ → ZnsFtl → ℕ → ℕ → ℕ → ℕ → ℕ → Flushed → Run Flushed
  zrwa_pages zero z zid sq_id stime remaining lpn f = fault out_of_fuel
  zrwa_pages (suc fuel) z zid sq_id stime remaining lpn f =
      let oneshot = z.ssd.sp.pgs_per_oneshotpg in
      let pg_off = (lpn_to_ppa z lpn).pg % oneshot in
      let pgs = min remaining (oneshot - pg_off) in
      let rest =
        λ (g : Flushed). zrwa_pages fuel z zid sq_id stime (remaining - pgs) (lpn + pgs) g in
      let flushed =
        flush_oneshot cpu_clock z sq_id (zrwa_buffer zid) stime lpn (oneshot * z.ssd.sp.pgsz) f in
      if remaining == 0 then ok f else if pg_off + pgs == oneshot then flushed >>= rest else rest f

  -- The transfer and the flash, behind the flush.
  unfoldable pub zrwa_transfer : ZnsFtl → ℕ → RwCommand → ℕ → ℕ → Run WriteOutcome
  zrwa_transfer z zid cmd prev_wp flush = do
    let nr_lba = nr_lbas_from_rw_cmd cmd
    let remaining = flush / z.ssd.sp.secs_per_pg
    (ssd1, xfer) ← ssd_advance_write_buffer cpu_clock z.ssd cmd.nsecs_start (lba_to_byte nr_lba)
    f ←
        zrwa_pages (remaining + 1) z zid cmd.sq_id xfer remaining (lba_to_lpn z prev_wp)
          (record { ssd = ssd1; nsecs_latest = xfer; writebacks = [] })
    ok (record {
      ftl = put_ssd z f.ssd;
      done = true;
      slba = cmd.slba;
      status = success;
      nsecs_target = completion z cmd xfer f.nsecs_latest;
      writebacks = f.writebacks;
    })

  -- Behind the switch; a flush that finds no room in the buffer gives up with the zone open.
  unfoldable pub zrwa_open : ZnsFtl → ℕ → RwCommand → ZoneDescriptor → Run WriteOutcome
  zrwa_open z zid cmd d = do
    let nr_lba = nr_lbas_from_rw_cmd cmd
    let elba = (cmd.slba + nr_lba + u64_mod - 1) % u64_mod
    flush ← nr_lbas_flush z zid d elba
    if flush == 0 then zrwa_transfer z zid cmd d.wp flush else do
      b ← read_buffer z (zrwa_buffer zid)
      let (b1, allocated) = buffer_allocate b (lba_to_byte flush)
      let z1 = put_buffer z (zrwa_buffer zid) b1
      if allocated == 0
          then ok (record (rejected z1 cmd cmd.slba success) { done = false })
          else do z2 ← increase_write_ptr z1 zid flush; zrwa_transfer z2 zid cmd d.wp flush

  abbrev pub zrwa_step : Step → ℕ → RwCommand → ZoneDescriptor → Run WriteOutcome
  zrwa_step (go_on z) zid cmd d = zrwa_open z zid cmd d
  zrwa_step (out z status) zid cmd d = ok (rejected z cmd cmd.slba status)

  unfoldable pub zone_write_zrwa : ZnsFtl → RwCommand → Run WriteOutcome
  zone_write_zrwa z cmd = do
    let zid = lba_to_zone z cmd.slba
    d ← zone_desc z zid
    s ← zrwa_checked z zid d cmd.slba (nr_lbas_from_rw_cmd cmd)
    zrwa_step s zid cmd d

  unfoldable pub zns_write : ZnsFtl → RwCommand → Run WriteOutcome
  zns_write z cmd = do
    d ← zone_desc z (lpn_to_zone z (lba_to_lpn z cmd.slba))
    if not d.zrwav then zone_write cpu_clock z cmd else zone_write_zrwa z cmd
