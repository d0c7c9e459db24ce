-- ===== src/Zns/Write.antt =====
-- zns_read_write.c: the write path of a zone without a ZRWA, `__zns_write`. The calls of
-- enqueue_writeback_io_req are collected in order; the divisors that the device's configuration fixes
-- (write_unit_size, pgs_per_oneshotpg, dies_per_zone, nchs, tt_luns) are positive there.
pub mod Guards
pub mod Pointer
pub mod Laws
pub mod Effect
pub mod Total
pub mod Returns
use nvmevirt_hybrid.Prelude.{
  ℕ, zero, suc, ◌+◌, ◌-◌, ◌*◌, ◌/◌, ◌%◌, min, max, Bool, true, false, not, ◌&&◌, ◌||◌, Option, none,
  some, List, [], ◌∷◌, ◌++◌, get_elem?, set, ltb, leb, ◌==◌, if◌then◌else◌, u32_mod, u64_mod,
}
use nvmevirt_hybrid.Prelude.Run.{Run, ok, fault, out_of_bounds, out_of_fuel, ◌>>=◌, or_fault}
use nvmevirt_hybrid.Buffer.{Buffer, buffer_allocate}
use nvmevirt_hybrid.Ssd.{Ssd, Ppa, NandCmd, nand_write, ssd_advance_nand, ssd_advance_write_buffer}
use nvmevirt_hybrid.Zns.{
  ZnsFtl, ZoneState, empty, opened_impl, opened_expl, closed, read_only, full, offline,
  ZoneDescriptor, active_zone, open_zone, zrwa_zone, Status, success, err_boundary, err_full,
  err_read_only, err_offline, invalid_write, no_active_zone, no_open_zone, is_zone_resource_full,
  acquire_zone_resource, release_zone_resource, zone_desc, put_desc, change_zone_state, lba_to_zone,
  zone_to_slba, lpn_to_zone, zone_to_slpn, zone_to_elpn, die_to_channel, die_to_lun, lba_to_lpn,
}

-- What the code reads of `struct nvme_rw_command` and `struct nvmev_request`.
pub record RwCommand : Type 0 where
  pub is_append : Bool
  pub slba : ℕ
  pub length : ℕ
  pub fua : Bool
  pub sq_id : ℕ
  pub nsecs_start : ℕ

pub data BufferRef : Type 0 where
  device_buffer : BufferRef
  zone_buffer zrwa_buffer : ℕ → BufferRef

-- A call of enqueue_writeback_io_req.
pub record Writeback : Type 0 where
  pub sq_id : ℕ
  pub nsecs_target : ℕ
  pub buffer : BufferRef
  pub buffs_to_release : ℕ

-- What a write leaves: the state, the function's result, the command's `slba` (an append sets it, and
-- it is `ret->result` too), the status and the time of completion. The last two are not written if
-- the result is false.
pub record WriteOutcome : Type 0 where
  pub ftl : ZnsFtl
  pub done : Bool
  pub slba : ℕ
  pub status : Status
  pub nsecs_target : ℕ
  pub writebacks : List Writeback

abbrev pub nr_lbas_from_rw_cmd : RwCommand → ℕ
nr_lbas_from_rw_cmd cmd = cmd.length + 1

abbrev pub lba_to_byte : ℕ → ℕ
lba_to_byte lba = (lba * 512) % u64_mod

-- `__check_boundary_error`: true if the first and the last sector lie in one zone
unfoldable pub check_boundary_error : ZnsFtl → ℕ → ℕ → Bool
check_boundary_error z slba nr_lba =
    lba_to_zone z slba == lba_to_zone z ((slba + nr_lba + u64_mod - 1) % u64_mod)

-- `__increase_write_ptr`; its `nr_lba` has 32 bits
unfoldable pub increase_write_ptr : ZnsFtl → ℕ → ℕ → Run ZnsFtl
unfolding release_zone_resource change_zone_state
increase_write_ptr z zid nr_lba = do
  d ← zone_desc z zid
  let e = record d { wp = (d.wp + nr_lba % u32_mod) % u64_mod }
  let z1 = put_desc z zid e
  if e.wp == (zone_to_slba z zid + d.zone_capacity) % u64_mod
      then ok (
          change_zone_state (release_zone_resource (release_zone_resource z1 open_zone) active_zone)
            zid e full)
      else ok z1

-- `__lpn_to_ppa`
unfoldable pub lpn_to_ppa : ZnsFtl → ℕ → Ppa
unfolding die_to_channel die_to_lun
lpn_to_ppa z lpn =
    let spp = z.ssd.sp in
    let zone = lpn_to_zone z lpn in
    let off = (lpn + u64_mod - zone_to_slpn z zone) % u64_mod in
    let sdie = (((zone * z.zp.dies_per_zone) % u64_mod) % spp.tt_luns) % u32_mod in
    let die = (sdie + (off / spp.pgs_per_oneshotpg) % z.zp.dies_per_zone) % u32_mod in
    record {
      pg = (off % spp.pgs_per_oneshotpg) % 65536;
      blk = 0;
      pl = 0;
      lun = die_to_lun z die % 256;
      ch = die_to_channel z die % 256;
      rsv = 0;
    }

-- How a write's `switch` over the state goes on: with the zone open, or to `out` with a status.
pub data Step : Type 0 where
  go_on : ZnsFtl → Step
  out : ZnsFtl → Status → Step

unfoldable pub write_closed : ZnsFtl → ℕ → ZoneDescriptor → Step
unfolding acquire_zone_resource change_zone_state
write_closed z zid d =
    let (z1, got) = acquire_zone_resource z open_zone in
    if not got then out z1 no_open_zone else go_on (change_zone_state z1 zid d opened_impl)

-- The cases FULL and READ_ONLY set their status and fall through.
unfoldable pub write_switch : ZoneState → ZnsFtl → ℕ → ZoneDescriptor → ℕ → Step
unfolding write_closed is_zone_resource_full acquire_zone_resource
write_switch empty z zid d slba =
    if not (slba == d.zslba)
    then out z invalid_write
    else if is_zone_resource_full z active_zone
    then out z no_active_zone
    else if is_zone_resource_full z open_zone
    then out z no_open_zone
    else write_closed (acquire_zone_resource z active_zone).0 zid d
write_switch closed z zid d slba = write_closed z zid d
write_switch opened_impl z zid d slba = go_on z
write_switch opened_expl z zid d slba = go_on z
write_switch full z zid d slba = out z err_offline
write_switch read_only z zid d slba = out z err_offline
write_switch offline z zid d slba = out z err_offline

-- The checks before the switch.
unfoldable pub write_checked : ZnsFtl → ℕ → ZoneDescriptor → ℕ → ℕ → Step
write_checked z zid d slba nr_lba =
    if not (lba_to_byte nr_lba % z.ssd.sp.write_unit_size == 0)
    then out z invalid_write
    else if not (check_boundary_error z slba nr_lba)
    then out z err_boundary
    else if not (slba == d.wp)
    then out z invalid_write
    else write_switch d.state z zid d slba

-- The buffer that a write to zone `zid` goes through, read and written.
abbrev pub write_buffer_ref : ZnsFtl → ℕ → BufferRef
write_buffer_ref z zid = if z.zp.zone_wb_size == 0 then device_buffer else zone_buffer zid

abbrev pub read_buffer : ZnsFtl → BufferRef → Run Buffer
read_buffer z device_buffer = ok z.ssd.write_buffer
read_buffer z (zone_buffer i) = or_fault (get_elem? z.zone_write_buffer i) out_of_bounds
read_buffer z (zrwa_buffer i) = or_fault (get_elem? z.zwra_buffer i) out_of_bounds

abbrev pub put_ssd : ZnsFtl → Ssd → ZnsFtl
put_ssd z ssd = record z { ssd = ssd }

abbrev pub put_buffer : ZnsFtl → BufferRef → Buffer → ZnsFtl
put_buffer z device_buffer b = record z { ssd = record (z.ssd) { write_buffer = b } }
put_buffer z (zone_buffer i) b = record z { zone_write_buffer = set z.zone_write_buffer i b }
put_buffer z (zrwa_buffer i) b = record z { zwra_buffer = set z.zwra_buffer i b }

-- What the flash loops change: the device, the latest completion and the writebacks.
pub record Flushed : Type 0 where
  pub ssd : Ssd
  pub nsecs_latest : ℕ
  pub writebacks : List Writeback

-- NAND_WRITE of a whole one-shot page
abbrev pub oneshot_write : ZnsFtl → Ppa → ℕ → NandCmd
oneshot_write z ppa stime = record {
  cmd = nand_write;
  xfer_size = z.ssd.sp.pgs_per_oneshotpg * z.ssd.sp.pgsz;
  stime = stime;
  interleave_pci_dma = false;
  ppa = ppa;
}

-- the bytes behind a zone's last whole one-shot page
abbrev pub unaligned_space : ZnsFtl → ℕ
unaligned_space z = z.zp.zone_size % (z.ssd.sp.pgs_per_oneshotpg * z.ssd.sp.pgsz)

abbrev pub bufs_to_release : ZnsFtl → Bool → ℕ
bufs_to_release z at_end =
    if at_end && not (unaligned_space z == 0)
    then unaligned_space z
    else z.ssd.sp.pgs_per_oneshotpg * z.ssd.sp.pgsz

-- `out:`, with the times of the transfer and of the flash
abbrev pub completion : ZnsFtl → RwCommand → ℕ → ℕ → ℕ
completion z cmd nsecs_xfer_completed nsecs_latest =
    if cmd.fua || not z.ssd.sp.write_early_completion then nsecs_latest else nsecs_xfer_completed

abbrev pub rejected : ZnsFtl → RwCommand → ℕ → Status → WriteOutcome
rejected z cmd slba status = record {
  ftl = z;
  done = true;
  slba = slba;
  status = status;
  nsecs_target = cmd.nsecs_start;
  writebacks = [];
}

module _ (cpu_clock : ℕ → ℕ) where
  -- One NAND write and the writeback that it will give its buffer space back by.
  unfoldable pub flush_oneshot : ZnsFtl → ℕ → BufferRef → ℕ → ℕ → ℕ → Flushed → Run Flushed
  flush_oneshot z sq_id ref stime lpn bytes f = do
    (ssd, nsecs_completed) ←
        ssd_advance_nand cpu_clock f.ssd (oneshot_write z (lpn_to_ppa z lpn) stime)
    ok (record {
      ssd = ssd;
      nsecs_latest = max nsecs_completed f.nsecs_latest;
      writebacks =
          f.writebacks
          ++ (record {
            sq_id = sq_id;
            nsecs_target = nsecs_completed;
            buffer = ref;
            buffs_to_release = bytes;
          }
              ∷ []);
    })

  -- The loop from `lpn` to `elpn`, with fuel.
  unfoldable pub write_pages : ℕ → ZnsFtl → ℕ → ℕ → BufferRef → ℕ → ℕ → ℕ → Flushed → Run Flushed
  write_pages zero z zid sq_id ref stime elpn lpn f = fault out_of_fuel
  write_pages (suc fuel) z zid sq_id ref stime elpn lpn f =
      let oneshot = z.ssd.sp.pgs_per_oneshotpg in
      let pg_off = (lpn_to_ppa z lpn).pg % oneshot in
      let pgs = min (elpn - lpn + 1) (oneshot - pg_off) in
      let at_end = (lpn + pgs + u64_mod - 1) % u64_mod == zone_to_elpn z zid in
      let rest = λ (g : Flushed). write_pages fuel z zid sq_id ref stime elpn (lpn + pgs) g in
      let flushed = flush_oneshot z sq_id ref stime lpn (bufs_to_release z at_end) f in
      if ltb elpn lpn
      then ok f
      else if (pg_off + pgs == oneshot) || at_end
      then flushed >>= rest
      else rest f

  -- Behind the switch: the write pointer, the transfer and the flash.
  unfoldable pub write_open : ZnsFtl → ℕ → RwCommand → ℕ → BufferRef → Run WriteOutcome
  write_open z0 zid cmd slba ref = do
    let nr_lba = nr_lbas_from_rw_cmd cmd
    let slpn = lba_to_lpn z0 slba
    let elpn = lba_to_lpn z0 ((slba + nr_lba + u64_mod - 1) % u64_mod)
    z ← increase_write_ptr z0 zid nr_lba
    (ssd1, xfer) ← ssd_advance_write_buffer cpu_clock z.ssd cmd.nsecs_start (lba_to_byte nr_lba)
    f ←
        write_pages (elpn - slpn + 2) z zid cmd.sq_id ref xfer elpn slpn
          (record { ssd = ssd1; nsecs_latest = xfer; writebacks = [] })
    ok (record {
      ftl = put_ssd z f.ssd;
      done = true;
      slba = slba;
      status = success;
      nsecs_target = completion z cmd xfer f.nsecs_latest;
      writebacks = f.writebacks;
    })

  abbrev pub write_step : Step → ℕ → RwCommand → ℕ → BufferRef → Run WriteOutcome
  write_step (go_on z) zid cmd slba ref = write_open z zid cmd slba ref
  write_step (out z status) zid cmd slba ref = ok (rejected z cmd slba status)

  unfoldable pub zone_write : ZnsFtl → RwCommand → Run WriteOutcome
  zone_write z cmd = do
    let zid = lba_to_zone z cmd.slba
    let nr_lba = nr_lbas_from_rw_cmd cmd
    d ← zone_desc z zid
    let slba = if cmd.is_append then d.wp else cmd.slba
    let ref = write_buffer_ref z zid
    b ← read_buffer z ref
    let (b1, allocated) = buffer_allocate b (lba_to_byte nr_lba)
    if ltb allocated (lba_to_byte nr_lba)
        then ok (record (rejected (put_buffer z ref b1) cmd slba success) { done = false })
        else write_step (write_checked (put_buffer z ref b1) zid d slba nr_lba) zid cmd slba ref
