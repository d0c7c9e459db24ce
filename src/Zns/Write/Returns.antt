-- ===== src/Zns/Write/Returns.antt =====
-- zns_read_write.c: running `__zns_write` as a whole on a device in order.
use nvmevirt_hybrid.Prelude.{
  ℕ, ◌+◌, ◌-◌, ◌%◌, ◌≤◌, ◌<◌, ◌≡◌, refl, ◌∙◌, ◌⊎◌, inl, inr, arith, true, false, some, [],
  Bool-cases, get_elem?, get_elem?-set_self, get_elem?-lt-length, ltb, ◌==◌, if◌then◌else◌, ==-refl,
  ltb-false, u32_mod, u64_mod,
}
use nvmevirt_hybrid.Prelude.Run.{ok}
use nvmevirt_hybrid.Buffer.{Buffer, buffer_allocate}
use nvmevirt_hybrid.Buffer.Laws.{buffer_allocate-fits}
use nvmevirt_hybrid.Ssd.Device.{ssd_advance_write_buffer_total, IsDevice}
use nvmevirt_hybrid.Zns.{
  ZnsFtl, ZoneState, opened_impl, opened_expl, ZoneDescriptor, success, lba_to_zone, lba_to_lpn,
}
use nvmevirt_hybrid.Zns.Accounts.{is_open_state, is_open, Accounted, MovesAt-Accounted}
use nvmevirt_hybrid.Zns.Write.{
  RwCommand, BufferRef, device_buffer, zone_buffer, zrwa_buffer, WriteOutcome, nr_lbas_from_rw_cmd,
  lba_to_byte, Step, go_on, out, check_boundary_error, write_switch, write_checked,
  write_buffer_ref, read_buffer, put_ssd, put_buffer, completion, write_open, write_step, rejected,
  zone_write,
}
use nvmevirt_hybrid.Zns.Write.Guards.{StepOk, write_checked-ok}
use nvmevirt_hybrid.Zns.Write.Pointer.{increase_write_ptr_lem}
use nvmevirt_hybrid.Zns.Write.Laws.{SameZones-keeps, put_buffer-SameZones, Written, Refused}
use nvmevirt_hybrid.Zns.Write.Effect.{zone_write-effect}
use nvmevirt_hybrid.Zns.Write.Total.{IsGeometry, write_pages_total}

-- The device and its zones' layout are in order.
abbrev pub IsReady : ZnsFtl → Type 0
IsReady z = IsDevice z.ssd × IsGeometry z.zp z.ssd.sp

put_buffer-IsReady :
    (z : ZnsFtl) (ref : BufferRef) (b : Buffer) → IsReady z → IsReady (put_buffer z ref b)
put_buffer-IsReady z device_buffer b (v, g) =
    (record { nchs_eq = v.nchs_eq; channels = v.channels; pcie = v.pcie; xfer_pos = v.xfer_pos }, g)
put_buffer-IsReady z (zone_buffer i) b v = v
put_buffer-IsReady z (zrwa_buffer i) b v = v

write_switch-open :
    (s : ZoneState) (z : ZnsFtl) (zid : ℕ) (d : ZoneDescriptor) (slba : ℕ)
    → is_open_state s ≡ true
    → write_switch s z zid d slba ≡ go_on z
unfolding write_switch
write_switch-open opened_impl z zid d slba o = refl
write_switch-open opened_expl z zid d slba o = refl
write_switch-open _ z zid d slba o = cc

write_checked-open :
    (z : ZnsFtl) (zid : ℕ) (d : ZoneDescriptor) (slba nr_lba : ℕ)
    → is_open d ≡ true
    → slba ≡ d.wp
    → lba_to_byte nr_lba % z.ssd.sp.write_unit_size ≡ 0
    → check_boundary_error z slba nr_lba ≡ true
    → write_checked z zid d slba nr_lba ≡ go_on z
unfolding write_checked
write_checked-open z zid d slba nr_lba o here whole within =
    let first : (lba_to_byte nr_lba % z.ssd.sp.write_unit_size == 0) ≡ true = rw whole refl in
    let third : (slba == d.wp) ≡ true = rw here (==-refl d.wp) in
    rw (first, within, third) (write_switch-open d.state z zid d slba o)

module _ (cpu_clock : ℕ → ℕ) where
  write_open_total :
      (z : ZnsFtl) (zid : ℕ) (d : ZoneDescriptor) (cmd : RwCommand) (slba : ℕ) (ref : BufferRef)
      → get_elem? z.zone_descs zid ≡ some d
      → Accounted z
      → IsReady z
      → is_open d ≡ true
      → d.zrwav ≡ false
      → (r : WriteOutcome) × (write_open cpu_clock z zid cmd slba ref ≡ ok r)
        × (r.done ≡ true)
        × (r.status ≡ success)
  unfolding write_open
  write_open_total z zid d cmd slba ref at v (device, geometry) o w =
      let nr_lba = nr_lbas_from_rw_cmd cmd in
      let slpn = lba_to_lpn z slba in
      let elpn = lba_to_lpn z ((slba + nr_lba + u64_mod - 1) % u64_mod) in
      let a = increase_write_ptr_lem z zid d nr_lba at v o w in
      let y = a.after in
      let (ssd1, xfer, buffered, k) =
        ssd_advance_write_buffer_total cpu_clock y.ssd cmd.nsecs_start (lba_to_byte nr_lba)
          (rw a.same_ssd device) in
      let (f, flushed, k1) =
        write_pages_total y (rw (a.same_zp, a.same_ssd) geometry) cpu_clock (elpn - slpn + 2) zid
          cmd.sq_id ref xfer elpn slpn (record { ssd = ssd1; nsecs_latest = xfer; writebacks = [] })
          k (omega arith) in
      (
        record {
          ftl = put_ssd y f.ssd;
          done = true;
          slba = slba;
          status = success;
          nsecs_target = completion y cmd xfer f.nsecs_latest;
          writebacks = f.writebacks;
        },
        rw (a.runs, buffered, flushed) refl,
        refl,
        refl,
      )

  write_step_total :
      (z : ZnsFtl) (zid : ℕ) (d : ZoneDescriptor) (cmd : RwCommand) (slba : ℕ) (ref : BufferRef)
      → get_elem? z.zone_descs zid ≡ some d
      → Accounted z
      → IsReady z
      → d.zrwav ≡ false
      → (s : Step) → StepOk z zid d s
      → (r : WriteOutcome) × (write_step cpu_clock s zid cmd slba ref ≡ ok r)
  write_step_total z zid d cmd slba ref at v ready w (go_on y) n =
      let at_y : get_elem? y.zone_descs zid ≡ some n.entry =
        rw n.descs (
          get_elem?-set_self z.zone_descs zid n.entry
            (get_elem?-lt-length z.zone_descs zid d at)) in
      let (r, runs, done, status) =
        write_open_total y zid n.entry cmd slba ref at_y (MovesAt-Accounted z zid d y n.moves v)
          (rw (n.same_ssd, n.same_zp) ready) n.opened (n.same_zrwav ∙ w) in
      (r, runs)
  write_step_total z zid d cmd slba ref at v ready w (out y st) n = (rejected y cmd slba st, refl)

  zone_write_runs :
      (z : ZnsFtl) (cmd : RwCommand) (d : ZoneDescriptor) (b : Buffer)
      → get_elem? z.zone_descs (lba_to_zone z cmd.slba) ≡ some d
      → read_buffer z (write_buffer_ref z (lba_to_zone z cmd.slba)) ≡ ok b
      → Accounted z
      → IsReady z
      → d.zrwav ≡ false
      → (r : WriteOutcome) × (zone_write cpu_clock z cmd ≡ ok r)
  unfolding zone_write
  zone_write_runs z cmd d b at read v ready w =
      let zid = lba_to_zone z cmd.slba in
      let ref = write_buffer_ref z zid in
      let nr_lba = nr_lbas_from_rw_cmd cmd in
      let bytes = lba_to_byte nr_lba in
      let slba = if cmd.is_append then d.wp else cmd.slba in
      let z1 = put_buffer z ref (buffer_allocate b bytes).0 in
      let same = put_buffer-SameZones z ref (buffer_allocate b bytes).0 in
      let (kept, exact) = SameZones-keeps z z1 same v in
      let at1 : get_elem? z1.zone_descs zid ≡ some d = rw same.descs at in
      elim (Bool-cases (ltb (buffer_allocate b bytes).1 bytes)) [
        | inl short ↦
            (record (rejected z1 cmd slba success) { done = false }, rw (at, read, short) refl)
        | inr room ↦
            let (r, runs) =
              write_step_total z1 zid d cmd slba ref at1 kept
                (put_buffer-IsReady z ref (buffer_allocate b bytes).0 ready) w
                (write_checked z1 zid d slba nr_lba)
                (write_checked-ok z1 zid d at1 kept slba nr_lba) in
            (r, rw (at, read, room) runs)
      ]

  -- A write to an existing zone without a ZRWA returns, if the zones' counts and the device are in
  -- order, and its write buffer exists: no array is left and no loop runs on. It either succeeds, and
  -- then has written the zone at its write pointer, or leaves all zones alone.
  pub zone_write_total :
      (z : ZnsFtl) (cmd : RwCommand) (d : ZoneDescriptor) (b : Buffer)
      → get_elem? z.zone_descs (lba_to_zone z cmd.slba) ≡ some d
      → read_buffer z (write_buffer_ref z (lba_to_zone z cmd.slba)) ≡ ok b
      → Accounted z
      → IsReady z
      → d.zrwav ≡ false
      → (r : WriteOutcome) × (zone_write cpu_clock z cmd ≡ ok r)
        × (Written z
              (lba_to_zone z cmd.slba)
              d
              (nr_lbas_from_rw_cmd cmd)
              (if cmd.is_append then d.wp else cmd.slba)
              r
            ⊎ Refused z r)
  zone_write_total z cmd d b at read v ready w =
      let (r, runs) = zone_write_runs z cmd d b at read v ready w in
      (r, runs, zone_write-effect cpu_clock z cmd d r at v w runs)

  put_buffer-check :
      (z : ZnsFtl) (ref : BufferRef) (b : Buffer) (slba nr_lba : ℕ)
      → (check_boundary_error (put_buffer z ref b) slba nr_lba ≡ check_boundary_error z slba nr_lba)
        × ((put_buffer z ref b).ssd.sp ≡ z.ssd.sp)
  unfolding check_boundary_error lba_to_zone
  put_buffer-check z device_buffer b slba nr_lba = (refl, refl)
  put_buffer-check z (zone_buffer i) b slba nr_lba = (refl, refl)
  put_buffer-check z (zrwa_buffer i) b slba nr_lba = (refl, refl)

  -- A write at the write pointer of an open zone without a ZRWA, in whole write units, within the zone
  -- and no larger than the free space of its buffer, succeeds, if the zones' counts and the device are
  -- in order.
  pub zone_write_success :
      (z : ZnsFtl) (cmd : RwCommand) (d : ZoneDescriptor) (b : Buffer)
      → get_elem? z.zone_descs (lba_to_zone z cmd.slba) ≡ some d
      → read_buffer z (write_buffer_ref z (lba_to_zone z cmd.slba)) ≡ ok b
      → Accounted z
      → IsReady z
      → d.zrwav ≡ false
      → is_open d ≡ true
      → (if cmd.is_append then d.wp else cmd.slba) ≡ d.wp
      → lba_to_byte (nr_lbas_from_rw_cmd cmd) % z.ssd.sp.write_unit_size ≡ 0
      → check_boundary_error z d.wp (nr_lbas_from_rw_cmd cmd) ≡ true
      → lba_to_byte (nr_lbas_from_rw_cmd cmd) ≤ b.remaining
      → lba_to_byte (nr_lbas_from_rw_cmd cmd) < u32_mod
      → (r : WriteOutcome) × (zone_write cpu_clock z cmd ≡ ok r)
        × (r.done ≡ true)
        × (r.status ≡ success)
  unfolding zone_write
  zone_write_success z cmd d b at read v ready w o here whole within fits small =
      let zid = lba_to_zone z cmd.slba in
      let ref = write_buffer_ref z zid in
      let nr_lba = nr_lbas_from_rw_cmd cmd in
      let bytes = lba_to_byte nr_lba in
      let b1 = (buffer_allocate b bytes).0 in
      let z1 = put_buffer z ref b1 in
      let same = put_buffer-SameZones z ref b1 in
      let (check, sp) = put_buffer-check z ref b1 d.wp nr_lba in
      let at1 : get_elem? z1.zone_descs zid ≡ some d = rw same.descs at in
      let goes : write_checked z1 zid d d.wp nr_lba ≡ go_on z1 =
        write_checked-open z1 zid d d.wp nr_lba o refl (rw sp whole) (check ∙ within) in
      let (r, runs, done, status) =
        write_open_total z1 zid d cmd d.wp ref at1 (SameZones-keeps z z1 same v).0
          (put_buffer-IsReady z ref b1 ready) o w in
      let given = buffer_allocate-fits b bytes fits small in
      let enough : ltb (buffer_allocate b bytes).1 bytes ≡ false =
        ltb-false _ bytes (omega arith) in
      (r, rw (at, read, enough, here, goes) runs, done, status)
