-- ===== src/Zns/Write/Laws.antt =====
-- zns_read_write.c: what `__zns_write` does to the zones behind its checks.
use nvmevirt_hybrid.Prelude.{
  ℕ, ◌+◌, ◌-◌, ◌%◌, ◌≡◌, ◌≢◌, refl, sym, ap, ◌∙◌, true, false, [], some, get_elem?, set, set-set,
  get_elem?-set_self, get_elem?-lt-length, u64_mod,
}
use nvmevirt_hybrid.Prelude.Run.{ok, >>=-eq-ok, ok-injective}
use nvmevirt_hybrid.Buffer.{Buffer}
use nvmevirt_hybrid.Ssd.{Ssd, ssd_advance_write_buffer}
use nvmevirt_hybrid.Zns.{ZnsFtl, full, ZoneDescriptor, success, zone_to_slba, lba_to_lpn}
use nvmevirt_hybrid.Zns.Accounts.{
  is_open, Accounted, IsExact, Moves-Accounted, Moves-IsExact, MovesAt-Accounted, MovesAt-IsExact,
}
use nvmevirt_hybrid.Zns.Write.{
  RwCommand, BufferRef, device_buffer, zone_buffer, zrwa_buffer, WriteOutcome, nr_lbas_from_rw_cmd,
  lba_to_byte, increase_write_ptr, put_ssd, put_buffer, write_pages, write_open,
}
use nvmevirt_hybrid.Zns.Write.Guards.{Entered}
use nvmevirt_hybrid.Zns.Write.Pointer.{
  next_wp, ends_zone, advanced, increase_write_ptr_lem, wp-advanced, advanced-full, advanced-open,
}

-- Neither the zones nor the resource counts differ.
pub record SameZones (z y : ZnsFtl) : Type 0 where
  pub descs : y.zone_descs ≡ z.zone_descs
  pub active : y.active_info ≡ z.active_info
  pub opened : y.open_info ≡ z.open_info
  pub zrwa : y.zrwa_info ≡ z.zrwa_info

pub SameZones-keeps :
    (z y : ZnsFtl) → SameZones z y → Accounted z → Accounted y × (IsExact z → IsExact y)
SameZones-keeps z y s v = (
  record {
    open_eq = rw (s.opened, s.descs) v.open_eq;
    active_eq = rw (s.active, s.descs) v.active_eq;
    zrwa_ge = rw (s.zrwa, s.descs) v.zrwa_ge;
    open_in = rw s.opened v.open_in;
    active_in = rw s.active v.active_in;
    zrwa_in = rw s.zrwa v.zrwa_in;
    plain = rw s.descs v.plain;
  },
  λ x. rw (s.zrwa, s.descs) x,
)

-- A buffer's change is not one of the zones.
pub put_buffer-SameZones :
    (z : ZnsFtl) (ref : BufferRef) (b : Buffer) → SameZones z (put_buffer z ref b)
put_buffer-SameZones z device_buffer b = record {
  descs = refl;
  active = refl;
  opened = refl;
  zrwa = refl;
}
put_buffer-SameZones z (zone_buffer i) b = record {
  descs = refl;
  active = refl;
  opened = refl;
  zrwa = refl;
}
put_buffer-SameZones z (zrwa_buffer i) b = record {
  descs = refl;
  active = refl;
  opened = refl;
  zrwa = refl;
}

pub put_buffer-zone_to_slba :
    (z : ZnsFtl) (ref : BufferRef) (b : Buffer) (zid : ℕ)
    → zone_to_slba (put_buffer z ref b) zid ≡ zone_to_slba z zid
unfolding zone_to_slba
put_buffer-zone_to_slba z device_buffer b zid = refl
put_buffer-zone_to_slba z (zone_buffer i) b zid = refl
put_buffer-zone_to_slba z (zrwa_buffer i) b zid = refl

-- A write of `nr_lba` sectors has been taken: zone `zid`, `d` before, is written from its write
-- pointer on, and is full if that has come to the zone's end, open if not.
pub record Written (z : ZnsFtl) (zid : ℕ) (d : ZoneDescriptor) (nr_lba slba : ℕ) (r : WriteOutcome)
    : Type 0 where
  pub entry : ZoneDescriptor
  pub status : r.status ≡ success
  pub at_wp : slba ≡ d.wp
  pub slba_eq : r.slba ≡ slba
  pub descs : r.ftl.zone_descs ≡ set z.zone_descs zid entry
  pub wp : entry.wp ≡ next_wp d nr_lba
  pub fills : ends_zone z zid d nr_lba ≡ true → entry.state ≡ full
  pub stays : ends_zone z zid d nr_lba ≡ false → is_open entry ≡ true

-- A refused write leaves the zones alone.
pub record Refused (z : ZnsFtl) (r : WriteOutcome) : Type 0 where
  pub same : SameZones z r.ftl
  pub no_success : r.done ≡ true → r.status ≢ success

module _ (cpu_clock : ℕ → ℕ) where
  -- Behind the switch, a write that returns has moved the write pointer.
  write_open-inv :
      (z : ZnsFtl) (zid : ℕ) (cmd : RwCommand) (slba : ℕ) (ref : BufferRef) (r : WriteOutcome)
      → write_open cpu_clock z zid cmd slba ref ≡ ok r
      → (y : ZnsFtl) × (ssd : Ssd) × (increase_write_ptr z zid (nr_lbas_from_rw_cmd cmd) ≡ ok y)
        × (r.ftl ≡ put_ssd y ssd)
        × (r.status ≡ success)
        × (r.slba ≡ slba)
  unfolding write_open
  write_open-inv z zid cmd slba ref r h =
      let (y, moved, h1) = >>=-eq-ok (increase_write_ptr z zid (nr_lbas_from_rw_cmd cmd)) _ r h in
      let ((ssd1, xfer), buffered, h2) =
        >>=-eq-ok
          (ssd_advance_write_buffer cpu_clock y.ssd cmd.nsecs_start
            (lba_to_byte (nr_lbas_from_rw_cmd cmd)))
          _ r h1 in
      let elpn = lba_to_lpn z ((slba + nr_lbas_from_rw_cmd cmd + u64_mod - 1) % u64_mod) in
      let slpn = lba_to_lpn z slba in
      let (f, flushed, h3) =
        >>=-eq-ok
          (write_pages cpu_clock (elpn - slpn + 2) y zid cmd.sq_id ref xfer elpn slpn
            (record { ssd = ssd1; nsecs_latest = xfer; writebacks = [] }))
          _ r h2 in
      let e = ok-injective h3 in
      (
        y,
        f.ssd,
        moved,
        ap (λ (o : WriteOutcome). o.ftl) (sym e),
        ap (λ (o : WriteOutcome). o.status) (sym e),
        ap (λ (o : WriteOutcome). o.slba) (sym e),
      )

  -- A write that goes on behind the checks.
  pub step-Written :
      (z y : ZnsFtl) (zid : ℕ) (d : ZoneDescriptor) (cmd : RwCommand) (slba : ℕ) (ref : BufferRef)
      (r : WriteOutcome)
      → get_elem? z.zone_descs zid ≡ some d
      → Accounted z
      → d.zrwav ≡ false
      → slba ≡ d.wp
      → Entered z zid d y
      → write_open cpu_clock y zid cmd slba ref ≡ ok r
      → Written z zid d (nr_lbas_from_rw_cmd cmd) slba r
        × Accounted r.ftl
        × (IsExact z → IsExact r.ftl)
  unfolding zone_to_slba
  step-Written z y zid d cmd slba ref r at v w here n h =
      let nr_lba = nr_lbas_from_rw_cmd cmd in
      let vy = MovesAt-Accounted z zid d y n.moves v in
      let at_y : get_elem? y.zone_descs zid ≡ some n.entry =
        rw n.descs (
          get_elem?-set_self z.zone_descs zid n.entry
            (get_elem?-lt-length z.zone_descs zid d at)) in
      let a = increase_write_ptr_lem y zid n.entry nr_lba at_y vy n.opened (n.same_zrwav ∙ w) in
      let (x, ssd, moved, ftl, status, slba_eq) = write_open-inv y zid cmd slba ref r h in
      let same : a.after ≡ x = ok-injective (sym a.runs ∙ moved) in
      let vx : Accounted x =
        rw (← same)
          (Moves-Accounted y zid n.entry (advanced y zid n.entry nr_lba) a.after a.moves vy) in
      let ends : ends_zone y zid n.entry nr_lba ≡ ends_zone z zid d nr_lba =
        rw (n.same_wp, n.same_capacity, n.same_ssd, n.same_zp) refl in
      let next : next_wp n.entry nr_lba ≡ next_wp d nr_lba = rw n.same_wp refl in
      let again = set-set z.zone_descs zid n.entry (advanced y zid n.entry nr_lba) in
      let descs_x : x.zone_descs ≡ set z.zone_descs zid (advanced y zid n.entry nr_lba) =
        rw (← same) (a.moves.descs ∙ rw n.descs again) in
      (
        record {
          entry = advanced y zid n.entry nr_lba;
          status = status;
          at_wp = here;
          slba_eq = slba_eq;
          descs = rw ftl descs_x;
          wp = wp-advanced y zid n.entry nr_lba ∙ next;
          fills = λ e. advanced-full y zid n.entry nr_lba (ends ∙ e);
          stays = λ e. advanced-open y zid n.entry nr_lba (ends ∙ e) n.opened;
        },
        rw ftl
            (SameZones-keeps x (put_ssd x ssd)
              (record { descs = refl; active = refl; opened = refl; zrwa = refl }) vx).0,
        λ exact. rw ftl (
            rw (← same) (
              Moves-IsExact y zid n.entry (advanced y zid n.entry nr_lba) a.after a.moves
                (MovesAt-IsExact z zid d y n.moves exact))),
      )
