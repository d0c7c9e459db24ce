-- ===== src/Zns/Zrwa/Laws.antt =====
-- zns_read_write.c: the end of a zone with a ZRWA: what zns_write does to the ZRWA resource.
use nvmevirt_hybrid.Prelude.{
  ℕ, ◌+◌, ◌-◌, ◌/◌, ◌%◌, ◌≡◌, refl, ap, ◌∙◌, sym, arith, true, false, ◌||◌, some, [], inl, inr,
  get_elem?, set, ltb, ◌==◌, Bool-cases, bit, count, count-set, set-set, set_self,
  get_elem?-set_self, get_elem?-lt-length, some_injective, u64_mod,
}
use nvmevirt_hybrid.Prelude.Run.{ok, fault, bug_on, >>=-eq-ok, ok-injective}
use nvmevirt_hybrid.Buffer.{buffer_allocate}
use nvmevirt_hybrid.Ssd.{ssd_advance_write_buffer}
use nvmevirt_hybrid.Zns.{
  ZnsFtl, ZoneState, empty, opened_impl, opened_expl, closed, full, read_only, offline,
  ZoneDescriptor, lba_to_zone, lpn_to_zone, lba_to_lpn, zone_desc, acquire_zone_resource,
  release_zone_resource, change_zone_state,
}
use nvmevirt_hybrid.Zns.Accounts.{holds_zrwa}
use nvmevirt_hybrid.Zns.Write.{
  RwCommand, zrwa_buffer, WriteOutcome, nr_lbas_from_rw_cmd, lba_to_byte, Step, go_on, out,
  check_boundary_error, increase_write_ptr, read_buffer, put_buffer, put_ssd,
}
use nvmevirt_hybrid.Zns.Write.Laws.{SameZones, put_buffer-SameZones}
use nvmevirt_hybrid.Zns.Write.Pointer.{next_wp, ends_zone}
use nvmevirt_hybrid.Zns.Zrwa.{
  zrwa_closed, zrwa_switch, zrwa_checked, zrwa_impl_end, nr_lbas_flush, zrwa_pages, zrwa_transfer,
  zrwa_open, zrwa_step, zone_write_zrwa, zns_write,
}

-- The ZRWA resources are as they were, and no zone but `zid` has changed.
record Leaves (z : ZnsFtl) (zid : ℕ) (y : ZnsFtl) : Type 0 where
  zrwa : y.zrwa_info ≡ z.zrwa_info
  desc : ZoneDescriptor
  descs : y.zone_descs ≡ set z.zone_descs zid desc

Leaves-trans : (z x y : ZnsFtl) (zid : ℕ) → Leaves z zid x → Leaves x zid y → Leaves z zid y
Leaves-trans z x y zid a b = record {
  zrwa = b.zrwa ∙ a.zrwa;
  desc = b.desc;
  descs = b.descs ∙ ap (λ ds. set ds zid b.desc) a.descs ∙ set-set z.zone_descs zid a.desc b.desc;
}

StepLeaves : ZnsFtl → ℕ → Step → Type 0
StepLeaves z zid (go_on y) = Leaves z zid y
StepLeaves z zid (out y status) = Leaves z zid y

module _ (z : ZnsFtl) (zid : ℕ) (d : ZoneDescriptor)
    (at : get_elem? z.zone_descs zid ≡ some d) where
  Leaves-same : (y : ZnsFtl) → SameZones z y → Leaves z zid y
  Leaves-same y s = record {
    zrwa = s.zrwa;
    desc = d;
    descs = s.descs ∙ sym (set_self z.zone_descs zid d at);
  }

  Leaves-refl : Leaves z zid z
  Leaves-refl = Leaves-same z (record { descs = refl; active = refl; opened = refl; zrwa = refl })

  zrwa_closed-StepLeaves : (t : Step) → zrwa_closed z zid d ≡ ok t → StepLeaves z zid t
  unfolding zrwa_closed StepLeaves acquire_zone_resource change_zone_state
  zrwa_closed-StepLeaves t runs =
      elim (Bool-cases (ltb z.open_info.acquired_cnt z.open_info.total_cnt)) [
        | inr none_left ↦ let same = ok-injective (rw none_left at runs) in rw (← same) Leaves-refl
        | inl room ↦
            let (b, read, h1) =
              >>=-eq-ok (read_buffer z (zrwa_buffer zid)) _ (t) (rw room at runs) in
            elim (Bool-cases ((buffer_allocate b z.zp.zrwa_size).1 == 0)) [
              | inl none_given ↦ let impossible : fault bug_on ≡ ok t = rw none_given at h1 in cc
              | inr given ↦
                  let same = ok-injective (rw given at h1) in
                  rw (← same)
                    (record { zrwa = refl; desc = record d { state = opened_impl }; descs = refl })
            ]
      ]

  zrwa_switch-StepLeaves :
      (s : ZoneState) (t : Step) → zrwa_switch s z zid d ≡ ok t → StepLeaves z zid t
  unfolding zrwa_switch StepLeaves
  zrwa_switch-StepLeaves closed t runs = zrwa_closed-StepLeaves t runs
  zrwa_switch-StepLeaves empty t runs = zrwa_closed-StepLeaves t runs
  zrwa_switch-StepLeaves opened_impl t runs =
      let same = ok-injective runs in rw (← same) Leaves-refl
  zrwa_switch-StepLeaves opened_expl t runs =
      let same = ok-injective runs in rw (← same) Leaves-refl
  zrwa_switch-StepLeaves full t runs = let same = ok-injective runs in rw (← same) Leaves-refl
  zrwa_switch-StepLeaves read_only t runs = let same = ok-injective runs in rw (← same) Leaves-refl
  zrwa_switch-StepLeaves offline t runs = let same = ok-injective runs in rw (← same) Leaves-refl

  zrwa_checked-StepLeaves :
      (slba nr_lba : ℕ) (t : Step) → zrwa_checked z zid d slba nr_lba ≡ ok t → StepLeaves z zid t
  unfolding zrwa_checked StepLeaves
  zrwa_checked-StepLeaves slba nr_lba t runs =
      let elba = (slba + nr_lba + u64_mod - 1) % u64_mod in
      elim (Bool-cases (lba_to_byte nr_lba % z.ssd.sp.write_unit_size == 0)) [
        | inr partial ↦ let same = ok-injective (rw partial at runs) in rw (← same) Leaves-refl
        | inl whole ↦ elim (Bool-cases (check_boundary_error z slba nr_lba)) [
          | inr across ↦
              let same = ok-injective (rw (whole, across) at runs) in rw (← same) Leaves-refl
          | inl within ↦ elim (Bool-cases (ltb slba d.wp || ltb (zrwa_impl_end z d) elba)) [
            | inl outside ↦
                let same = ok-injective (rw (whole, within, outside) at runs) in
                rw (← same) Leaves-refl
            | inr inside ↦ zrwa_switch-StepLeaves d.state t (rw (whole, within, inside) at runs)
          ]
        ]
      ]

increase_write_ptr-Leaves :
    (z y : ZnsFtl) (zid nr_lba : ℕ) → increase_write_ptr z zid nr_lba ≡ ok y → Leaves z zid y
unfolding increase_write_ptr release_zone_resource change_zone_state
increase_write_ptr-Leaves z y zid nr_lba runs =
    let (d, at, h) = >>=-eq-ok (zone_desc z zid) _ y runs in
    let e = record d { wp = next_wp d nr_lba } in
    elim (Bool-cases (ends_zone z zid d nr_lba)) [
      | inl ends ↦
          let same = ok-injective (rw ends at h) in
          rw (← same) (record {
            zrwa = refl;
            desc = record e { state = full };
            descs = set-set z.zone_descs zid e (record e { state = full });
          })
      | inr more ↦
          let same = ok-injective (rw more at h) in
          rw (← same) (record { zrwa = refl; desc = e; descs = refl })
    ]

Leaves-SameZones : (z x y : ZnsFtl) (zid : ℕ) → Leaves z zid x → SameZones x y → Leaves z zid y
Leaves-SameZones z x y zid a s = record {
  zrwa = s.zrwa ∙ a.zrwa;
  desc = a.desc;
  descs = s.descs ∙ a.descs;
}

module _ (cpu_clock : ℕ → ℕ) (z0 : ZnsFtl) (zid : ℕ) (cmd : RwCommand) (r : WriteOutcome) where
  zrwa_transfer-Leaves :
      (z : ZnsFtl) (prev_wp flush : ℕ)
      → Leaves z0 zid z
      → zrwa_transfer cpu_clock z zid cmd prev_wp flush ≡ ok r
      → Leaves z0 zid r.ftl
  unfolding zrwa_transfer
  zrwa_transfer-Leaves z prev_wp flush v runs =
      let ((ssd1, xfer), buffered, h1) =
        >>=-eq-ok
          (ssd_advance_write_buffer cpu_clock z.ssd cmd.nsecs_start
            (lba_to_byte (nr_lbas_from_rw_cmd cmd)))
          _ r runs in
      let remaining = flush / z.ssd.sp.secs_per_pg in
      let (f, flushed, h2) =
        >>=-eq-ok
          (zrwa_pages cpu_clock (remaining + 1) z zid cmd.sq_id xfer remaining
            (lba_to_lpn z prev_wp) (record { ssd = ssd1; nsecs_latest = xfer; writebacks = [] }))
          _ r h1 in
      let same = ok-injective h2 in
      rw (← same) (
        Leaves-SameZones z0 z (put_ssd z f.ssd) zid v
          (record { descs = refl; active = refl; opened = refl; zrwa = refl }))

  zrwa_open-Leaves :
      (z : ZnsFtl) (d : ZoneDescriptor)
      → Leaves z0 zid z
      → zrwa_open cpu_clock z zid cmd d ≡ ok r
      → Leaves z0 zid r.ftl
  unfolding zrwa_open
  zrwa_open-Leaves z d v runs =
      let elba = (cmd.slba + nr_lbas_from_rw_cmd cmd + u64_mod - 1) % u64_mod in
      let (flush, counted, h1) = >>=-eq-ok (nr_lbas_flush z zid d elba) _ r runs in
      elim (Bool-cases (flush == 0)) [
        | inl none_due ↦ zrwa_transfer-Leaves z d.wp flush v (rw none_due at h1)
        | inr due ↦
            let (b, read, h2) = >>=-eq-ok (read_buffer z (zrwa_buffer zid)) _ r (rw due at h1) in
            let given = buffer_allocate b (lba_to_byte flush) in
            let z1 = put_buffer z (zrwa_buffer zid) given.0 in
            let v1 =
              Leaves-SameZones z0 z z1 zid v (put_buffer-SameZones z (zrwa_buffer zid) given.0) in
            elim (Bool-cases (given.1 == 0)) [
              | inl none_given ↦ let done = ok-injective (rw none_given at h2) in rw (← done) v1
              | inr some_given ↦
                  let (y, moved, h3) =
                    >>=-eq-ok (increase_write_ptr z1 zid flush) _ r (rw some_given at h2) in
                  zrwa_transfer-Leaves y d.wp flush
                    (Leaves-trans z0 z1 y zid v1 (increase_write_ptr-Leaves z1 y zid flush moved))
                    h3
            ]
      ]

  zrwa_step-Leaves :
      (t : Step) (d : ZoneDescriptor)
      → StepLeaves z0 zid t
      → zrwa_step cpu_clock t zid cmd d ≡ ok r
      → Leaves z0 zid r.ftl
  unfolding StepLeaves
  zrwa_step-Leaves (go_on y) d v runs = zrwa_open-Leaves y d v runs
  zrwa_step-Leaves (out y st) d v runs = let same = ok-injective runs in rw (← same) v

holds_zrwa-zrwav : (d : ZoneDescriptor) → holds_zrwa d ≡ true → d.zrwav ≡ true
holds_zrwa-zrwav d h = ground (arith, h)

full-holds_zrwa : (e : ZoneDescriptor) → e.state ≡ full → holds_zrwa e ≡ false
full-holds_zrwa e h = simp h

zone_write_zrwa-Leaves :
    (cpu_clock : ℕ → ℕ) (z : ZnsFtl) (cmd : RwCommand) (d : ZoneDescriptor) (r : WriteOutcome)
    → get_elem? z.zone_descs (lba_to_zone z cmd.slba) ≡ some d
    → zone_write_zrwa cpu_clock z cmd ≡ ok r
    → Leaves z (lba_to_zone z cmd.slba) r.ftl
unfolding zone_write_zrwa
zone_write_zrwa-Leaves cpu_clock z cmd d r at runs =
    let zid = lba_to_zone z cmd.slba in
    let (t, checked, h1) =
      >>=-eq-ok (zrwa_checked z zid d cmd.slba (nr_lbas_from_rw_cmd cmd)) _ r (rw at at runs) in
    zrwa_step-Leaves cpu_clock z zid cmd r t d
      (zrwa_checked-StepLeaves z zid d at cmd.slba (nr_lbas_from_rw_cmd cmd) t checked) h1

zns_write-Leaves :
    (cpu_clock : ℕ → ℕ) (z : ZnsFtl) (cmd : RwCommand) (d : ZoneDescriptor) (r : WriteOutcome)
    → lpn_to_zone z (lba_to_lpn z cmd.slba) ≡ lba_to_zone z cmd.slba
    → get_elem? z.zone_descs (lba_to_zone z cmd.slba) ≡ some d
    → d.zrwav ≡ true
    → zns_write cpu_clock z cmd ≡ ok r
    → Leaves z (lba_to_zone z cmd.slba) r.ftl
unfolding zns_write
zns_write-Leaves cpu_clock z cmd d r same at w runs =
    zone_write_zrwa-Leaves cpu_clock z cmd d r at (rw (same, at, w) at runs)

-- If a write or an append whose first page and first sector lie in one zone returns, its zone was active
-- and had a ZRWA, and the zone is full behind it, then one zone less holds a ZRWA resource, but the
-- count of acquired ZRWA resources is as it was.
pub zns_write-zrwa :
    (cpu_clock : ℕ → ℕ) (z : ZnsFtl) (cmd : RwCommand) (d e : ZoneDescriptor) (r : WriteOutcome)
    → lpn_to_zone z (lba_to_lpn z cmd.slba) ≡ lba_to_zone z cmd.slba
    → get_elem? z.zone_descs (lba_to_zone z cmd.slba) ≡ some d
    → holds_zrwa d ≡ true
    → zns_write cpu_clock z cmd ≡ ok r
    → get_elem? r.ftl.zone_descs (lba_to_zone z cmd.slba) ≡ some e
    → e.state ≡ full
    → (r.ftl.zrwa_info.acquired_cnt ≡ z.zrwa_info.acquired_cnt)
      × (count holds_zrwa r.ftl.zone_descs + 1 ≡ count holds_zrwa z.zone_descs)
zns_write-zrwa cpu_clock z cmd d e r same at w runs behind is_full =
    let zid = lba_to_zone z cmd.slba in
    let v = zns_write-Leaves cpu_clock z cmd d r same at (holds_zrwa-zrwav d w) runs in
    let found : get_elem? r.ftl.zone_descs zid ≡ some v.desc =
      ap (λ ds. get_elem? ds zid) v.descs
      ∙ get_elem?-set_self z.zone_descs zid v.desc (get_elem?-lt-length z.zone_descs zid d at) in
    let now : v.desc ≡ e = some_injective (sym found ∙ behind) in
    let not_held : holds_zrwa v.desc ≡ false = rw now (full-holds_zrwa e is_full) in
    (
      ap (λ i. i.acquired_cnt) v.zrwa,
      ap (λ ds. count holds_zrwa ds + 1) v.descs
          ∙ omega (arith, one_less z zid d v.desc at w not_held),
    )
  where
    one_less :
        (z : ZnsFtl) (zid : ℕ) (d e : ZoneDescriptor)
        → get_elem? z.zone_descs zid ≡ some d
        → holds_zrwa d ≡ true
        → holds_zrwa e ≡ false
        → count holds_zrwa (set z.zone_descs zid e) + 1 ≡ count holds_zrwa z.zone_descs
    one_less z zid d e at w not_held =
        let trade = count-set holds_zrwa z.zone_descs zid d e at in
        let b1 : bit (holds_zrwa d) ≡ 1 = rw w refl in
        let b0 : bit (holds_zrwa e) ≡ 0 = rw not_held refl in omega (arith, trade, b1, b0)
