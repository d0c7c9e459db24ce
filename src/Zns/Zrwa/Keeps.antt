-- ===== src/Zns/Zrwa/Keeps.antt =====
-- zns_read_write.c: zns_write and the resource counts, with and without a ZRWA.
use nvmevirt_hybrid.Prelude.{
  ℕ, ◌+◌, ◌-◌, ◌/◌, ◌%◌, ◌≡◌, refl, arith, true, ◌||◌, some, [], inl, inr, get_elem?, ltb, ◌==◌,
  Bool-cases, Option-cases, get_elem?-set_self, get_elem?-lt-length, u32_mod, u64_mod,
}
use nvmevirt_hybrid.Prelude.Run.{ok, fault, bug_on, out_of_bounds, >>=-eq-ok, ok-injective}
use nvmevirt_hybrid.Buffer.{Buffer, buffer_allocate}
use nvmevirt_hybrid.Ssd.{ssd_advance_write_buffer}
use nvmevirt_hybrid.Zns.{
  ZnsFtl, ZoneState, empty, opened_impl, opened_expl, closed, full, read_only, offline,
  ZoneDescriptor, lba_to_zone, lpn_to_zone, lba_to_lpn, acquire_zone_resource, change_zone_state,
}
use nvmevirt_hybrid.Zns.Accounts.{is_open, Accounted, Moves-Accounted}
use nvmevirt_hybrid.Zns.MgmtSend.Laws.{held}
use nvmevirt_hybrid.Zns.Write.{
  RwCommand, zrwa_buffer, WriteOutcome, nr_lbas_from_rw_cmd, lba_to_byte, Step, go_on, out,
  check_boundary_error, increase_write_ptr, read_buffer, put_buffer, put_ssd,
}
use nvmevirt_hybrid.Zns.Write.Laws.{SameZones-keeps, put_buffer-SameZones}
use nvmevirt_hybrid.Zns.Write.Effect.{zone_write-keeps}
use nvmevirt_hybrid.Zns.Zrwa.{
  zrwa_closed, zrwa_switch, zrwa_checked, zrwa_impl_end, nr_lbas_flush, zrwa_pages, zrwa_transfer,
  zrwa_open, zrwa_step, zone_write_zrwa, zns_write,
}
use nvmevirt_hybrid.Zns.Zrwa.Pointer.{increase_write_ptr-Accounted}

-- What a step leaves: counts in order, and an open zone if the write goes on.
StepKept : ℕ → Step → Type 0
StepKept zid (go_on y) =
    Accounted y
    × ((e : ZoneDescriptor) × (get_elem? y.zone_descs zid ≡ some e) × (is_open e ≡ true))
StepKept zid (out y status) = Accounted y

module _ (z : ZnsFtl) (zid : ℕ) (d : ZoneDescriptor) (at : get_elem? z.zone_descs zid ≡ some d)
    (v : Accounted z) (w : d.zrwav ≡ true) where
  -- a closed zone opened implicitly, and space taken from its buffer
  opened :
      (b1 : Buffer)
      → d.state ≡ closed
      → ltb z.open_info.acquired_cnt z.open_info.total_cnt ≡ true
      → StepKept zid (
          go_on (
            change_zone_state
              (put_buffer
                (record z {
                  open_info = record {
                    acquired_cnt = (z.open_info.acquired_cnt + 1) % u32_mod;
                    total_cnt = z.open_info.total_cnt;
                  };
                })
                (zrwa_buffer zid)
                b1)
              zid
              d
              opened_impl))
  unfolding StepKept change_zone_state
  opened b1 e room =
      let e1 = record d { state = opened_impl } in
      (
        Moves-Accounted z zid d e1 _ (ground (arith, at, held z zid d at v)) v,
        (
          e1,
          get_elem?-set_self z.zone_descs zid e1 (get_elem?-lt-length z.zone_descs zid d at),
          refl,
        ),
      )

  zrwa_closed-StepKept : d.state ≡ closed → (t : Step) → zrwa_closed z zid d ≡ ok t → StepKept zid t
  unfolding zrwa_closed StepKept acquire_zone_resource change_zone_state
  zrwa_closed-StepKept e t runs =
      elim (Bool-cases (ltb z.open_info.acquired_cnt z.open_info.total_cnt)) [
        | inr none_left ↦ let same = ok-injective (rw none_left at runs) in rw (← same) v
        | inl room ↦
            let (b, read, h1) =
              >>=-eq-ok (read_buffer z (zrwa_buffer zid)) _ (t) (rw room at runs) in
            let b1 = (buffer_allocate b z.zp.zrwa_size).0 in
            elim (Bool-cases ((buffer_allocate b z.zp.zrwa_size).1 == 0)) [
              | inl none_given ↦ let impossible : fault bug_on ≡ ok t = rw none_given at h1 in cc
              | inr given ↦
                  let same = ok-injective (rw given at h1) in rw (← same) (opened b1 e room)
            ]
      ]

  zrwa_switch-StepKept :
      (s : ZoneState) → d.state ≡ s → (t : Step) → zrwa_switch s z zid d ≡ ok t → StepKept zid t
  unfolding zrwa_switch StepKept
  zrwa_switch-StepKept closed e t runs = zrwa_closed-StepKept e t runs
  zrwa_switch-StepKept empty e t runs = let plain = v.plain zid d at e in cc
  zrwa_switch-StepKept opened_impl e t runs =
      let same = ok-injective runs in rw (← same) (v, (d, at, rw e refl))
  zrwa_switch-StepKept opened_expl e t runs =
      let same = ok-injective runs in rw (← same) (v, (d, at, rw e refl))
  zrwa_switch-StepKept full e t runs = let same = ok-injective runs in rw (← same) v
  zrwa_switch-StepKept read_only e t runs = let same = ok-injective runs in rw (← same) v
  zrwa_switch-StepKept offline e t runs = let same = ok-injective runs in rw (← same) v

  zrwa_checked-StepKept :
      (slba nr_lba : ℕ) (t : Step) → zrwa_checked z zid d slba nr_lba ≡ ok t → StepKept zid t
  unfolding zrwa_checked StepKept
  zrwa_checked-StepKept slba nr_lba t runs =
      let elba = (slba + nr_lba + u64_mod - 1) % u64_mod in
      elim (Bool-cases (lba_to_byte nr_lba % z.ssd.sp.write_unit_size == 0)) [
        | inr partial ↦ let same = ok-injective (rw partial at runs) in rw (← same) v
        | inl whole ↦ elim (Bool-cases (check_boundary_error z slba nr_lba)) [
          | inr across ↦ let same = ok-injective (rw (whole, across) at runs) in rw (← same) v
          | inl within ↦ elim (Bool-cases (ltb slba d.wp || ltb (zrwa_impl_end z d) elba)) [
            | inl outside ↦
                let same = ok-injective (rw (whole, within, outside) at runs) in rw (← same) v
            | inr inside ↦ zrwa_switch-StepKept d.state refl t (rw (whole, within, inside) at runs)
          ]
        ]
      ]

module _ (cpu_clock : ℕ → ℕ) where
  zrwa_transfer-Accounted :
      (z : ZnsFtl) (zid : ℕ) (cmd : RwCommand) (prev_wp flush : ℕ) (r : WriteOutcome)
      → Accounted z
      → zrwa_transfer cpu_clock z zid cmd prev_wp flush ≡ ok r
      → Accounted r.ftl
  unfolding zrwa_transfer
  zrwa_transfer-Accounted z zid cmd prev_wp flush r v runs =
      let ((ssd1, xfer), buffered, h1) =
        >>=-eq-ok
          (ssd_advance_write_buffer cpu_clock z.ssd cmd.nsecs_start
            (lba_to_byte (nr_lbas_from_rw_cmd cmd)))
          _ r runs in
      let remaining = flush / z.ssd.sp.secs_per_pg in
      let (f, flushed, h2) =
        >>=-eq-ok
          (zrwa_pages cpu_clock (remaining + 1) z zid cmd.sq_id xfer remaining
            (lba_to_lpn z prev_wp) (record { ssd = ssd1; nsecs_latest = xfer; writebacks = [] }))
          _ r h1 in
      let same = ok-injective h2 in
      rw (← same)
        (SameZones-keeps z (put_ssd z f.ssd)
          (record { descs = refl; active = refl; opened = refl; zrwa = refl }) v).0

  zrwa_open-Accounted :
      (z : ZnsFtl) (zid : ℕ) (e : ZoneDescriptor) (cmd : RwCommand) (d : ZoneDescriptor)
      (r : WriteOutcome)
      → get_elem? z.zone_descs zid ≡ some e
      → is_open e ≡ true
      → Accounted z
      → zrwa_open cpu_clock z zid cmd d ≡ ok r
      → Accounted r.ftl
  unfolding zrwa_open
  zrwa_open-Accounted z zid e cmd d r at o v runs =
      let elba = (cmd.slba + nr_lbas_from_rw_cmd cmd + u64_mod - 1) % u64_mod in
      let (flush, counted, h1) = >>=-eq-ok (nr_lbas_flush z zid d elba) _ r runs in
      elim (Bool-cases (flush == 0)) [
        | inl none_due ↦ zrwa_transfer-Accounted z zid cmd d.wp flush r v (rw none_due at h1)
        | inr due ↦
            let (b, read, h2) = >>=-eq-ok (read_buffer z (zrwa_buffer zid)) _ r (rw due at h1) in
            let given = buffer_allocate b (lba_to_byte flush) in
            let z1 = put_buffer z (zrwa_buffer zid) given.0 in
            let same = put_buffer-SameZones z (zrwa_buffer zid) given.0 in
            let v1 = (SameZones-keeps z z1 same v).0 in
            elim (Bool-cases (given.1 == 0)) [
              | inl none_given ↦ let done = ok-injective (rw none_given at h2) in rw (← done) v1
              | inr some_given ↦
                  let (y, moved, h3) =
                    >>=-eq-ok (increase_write_ptr z1 zid flush) _ r (rw some_given at h2) in
                  zrwa_transfer-Accounted y zid cmd d.wp flush r
                    (increase_write_ptr-Accounted z1 zid e flush at v1 o y moved) h3
            ]
      ]

  zrwa_step-Accounted :
      (t : Step) (zid : ℕ) (cmd : RwCommand) (d : ZoneDescriptor) (r : WriteOutcome)
      → StepKept zid t
      → zrwa_step cpu_clock t zid cmd d ≡ ok r
      → Accounted r.ftl
  unfolding StepKept
  zrwa_step-Accounted (go_on y) zid cmd d r (v, (e, at, o)) runs =
      zrwa_open-Accounted y zid e cmd d r at o v runs
  zrwa_step-Accounted (out y st) zid cmd d r v runs = let same = ok-injective runs in rw (← same) v

  zone_write_zrwa-Accounted :
      (z : ZnsFtl) (cmd : RwCommand) (d : ZoneDescriptor) (r : WriteOutcome)
      → get_elem? z.zone_descs (lba_to_zone z cmd.slba) ≡ some d
      → d.zrwav ≡ true
      → Accounted z
      → zone_write_zrwa cpu_clock z cmd ≡ ok r
      → Accounted r.ftl
  unfolding zone_write_zrwa
  zone_write_zrwa-Accounted z cmd d r at w v runs =
      let zid = lba_to_zone z cmd.slba in
      let (t, checked, h1) =
        >>=-eq-ok (zrwa_checked z zid d cmd.slba (nr_lbas_from_rw_cmd cmd)) _ r (rw at at runs) in
      zrwa_step-Accounted t zid cmd d r
        (zrwa_checked-StepKept z zid d at v w cmd.slba (nr_lbas_from_rw_cmd cmd) t checked) h1

  -- A write or an append that returns keeps the counts of active and open zones equal to the numbers
  -- of zones in those states, whether its zone has a ZRWA or not, if the first page and the first
  -- sector of the command lie in one zone.
  pub zns_write-keeps :
      (z : ZnsFtl) (cmd : RwCommand) (r : WriteOutcome)
      → lpn_to_zone z (lba_to_lpn z cmd.slba) ≡ lba_to_zone z cmd.slba
      → Accounted z
      → zns_write cpu_clock z cmd ≡ ok r
      → Accounted r.ftl
  unfolding zns_write
  zns_write-keeps z cmd r same v runs =
      elim (Option-cases (get_elem? z.zone_descs (lba_to_zone z cmd.slba))) [
        | inl missing ↦
            let impossible : fault out_of_bounds ≡ ok r = rw (same, missing) at runs in cc
        | inr (d, at) ↦ elim (Bool-cases d.zrwav) [
          | inl zrwa ↦ zone_write_zrwa-Accounted z cmd d r at zrwa v (rw (same, at, zrwa) at runs)
          | inr plain ↦
              (zone_write-keeps cpu_clock z cmd d r at v plain (rw (same, at, plain) at runs)).0
        ]
      ]
