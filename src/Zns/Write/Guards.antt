-- ===== src/Zns/Write/Guards.antt =====
-- zns_read_write.c: how a write enters its zone: the checks before the switch over the state, and the switch.
use nvmevirt_hybrid.Prelude.{
  ℕ, ◌%◌, ◌≡◌, ◌≢◌, refl, sym, inl, inr, arith, true, some, get_elem?, set, ltb, ◌==◌, set_self,
  Bool-cases,
}
use nvmevirt_hybrid.Zns.{
  ZnsFtl, ZoneState, empty, opened_impl, opened_expl, closed, read_only, full, offline,
  ZoneDescriptor, acquire_zone_resource, active_zone, success,
}
use nvmevirt_hybrid.Zns.Accounts.{is_open, Accounted, MovesAt}
use nvmevirt_hybrid.Zns.MgmtSend.Laws.{held, avail}
use nvmevirt_hybrid.Zns.Write.{
  Step, go_on, out, write_closed, write_switch, write_checked, check_boundary_error, lba_to_byte,
}

-- Zone `zid` is open in `y`, as `e`; nothing else of it has changed.
pub record Entered (z : ZnsFtl) (zid : ℕ) (d : ZoneDescriptor) (y : ZnsFtl) : Type 0 where
  pub entry : ZoneDescriptor
  pub moves : MovesAt z zid d y
  pub descs : y.zone_descs ≡ set z.zone_descs zid entry
  pub opened : is_open entry ≡ true
  pub same_wp : entry.wp ≡ d.wp
  pub same_zrwav : entry.zrwav ≡ d.zrwav
  pub same_capacity : entry.zone_capacity ≡ d.zone_capacity
  pub same_zslba : entry.zslba ≡ d.zslba
  pub same_ssd : y.ssd ≡ z.ssd
  pub same_zp : y.zp ≡ z.zp

-- What a step says of the zone: it is entered, or nothing has happened.
abbrev pub StepOk : ZnsFtl → ℕ → ZoneDescriptor → Step → Type 0
StepOk z zid d (go_on y) = Entered z zid d y
StepOk z zid d (out y status) = (y ≡ z) × (status ≢ success)

module _ (z : ZnsFtl) (zid : ℕ) (d : ZoneDescriptor) (at : get_elem? z.zone_descs zid ≡ some d)
    (v : Accounted z) where
  stay : is_open d ≡ true → Entered z zid d z
  stay o = record {
    entry = d;
    moves = inl refl;
    descs = sym (set_self z.zone_descs zid d at);
    opened = o;
    same_wp = refl;
    same_zrwav = refl;
    same_capacity = refl;
    same_zslba = refl;
    same_ssd = refl;
    same_zp = refl;
  }

  -- an empty zone, with room for an active and an open zone
  write_open_empty :
      d.state ≡ empty
      → ltb z.active_info.acquired_cnt z.active_info.total_cnt ≡ true
      → ltb z.open_info.acquired_cnt z.open_info.total_cnt ≡ true
      → StepOk z zid d (write_closed (acquire_zone_resource z active_zone).0 zid d)
  unfolding write_closed acquire_zone_resource
  write_open_empty e a o =
      rw (a, o)
        (record {
          entry = record d { state = opened_impl };
          moves = inr (
            record d { state = opened_impl },
            ground (arith, at, held z zid d at v, v.plain zid d),
          );
          descs = refl;
          opened = refl;
          same_wp = refl;
          same_zrwav = refl;
          same_capacity = refl;
          same_zslba = refl;
          same_ssd = refl;
          same_zp = refl;
        })

  write_switch-ok :
      (s : ZoneState) (slba : ℕ) → d.state ≡ s → StepOk z zid d (write_switch s z zid d slba)
  unfolding write_switch
  write_switch-ok empty slba e = elim (Bool-cases (slba == d.zslba)) [
    | inr behind ↦ rw behind (refl, λ h. cc)
    | inl start ↦ elim (Bool-cases (z.active_info.acquired_cnt == z.active_info.total_cnt)) [
      | inl full_active ↦ rw (start, full_active) (refl, λ h. cc)
      | inr room_active ↦ elim (Bool-cases (z.open_info.acquired_cnt == z.open_info.total_cnt)) [
        | inl full_open ↦ rw (start, room_active, full_open) (refl, λ h. cc)
        | inr room_open ↦
            rw (start, room_active, room_open)
              (write_open_empty e (avail z.active_info v.active_in.0 room_active)
                (avail z.open_info v.open_in.0 room_open))
      ]
    ]
  ]
  write_switch-ok closed slba e =
      elim (Bool-cases (ltb z.open_info.acquired_cnt z.open_info.total_cnt)) [
        | inl room ↦ rw room (record {
          entry = record d { state = opened_impl };
          moves = inr (record d { state = opened_impl }, ground (arith, at, held z zid d at v));
          descs = refl;
          opened = refl;
          same_wp = refl;
          same_zrwav = refl;
          same_capacity = refl;
          same_zslba = refl;
          same_ssd = refl;
          same_zp = refl;
        })
        | inr none_left ↦ rw none_left (refl, λ h. cc)
      ]
  write_switch-ok opened_impl slba e = stay (ground arith)
  write_switch-ok opened_expl slba e = stay (ground arith)
  write_switch-ok full slba e = (refl, λ h. cc)
  write_switch-ok read_only slba e = (refl, λ h. cc)
  write_switch-ok offline slba e = (refl, λ h. cc)

  -- The checks before the switch: what goes on is at the write pointer, within one zone.
  pub write_checked-ok : (slba nr_lba : ℕ) → StepOk z zid d (write_checked z zid d slba nr_lba)
  unfolding write_checked
  write_checked-ok slba nr_lba =
      elim (Bool-cases (lba_to_byte nr_lba % z.ssd.sp.write_unit_size == 0)) [
        | inr partial ↦ rw partial (refl, λ h. cc)
        | inl whole ↦ elim (Bool-cases (check_boundary_error z slba nr_lba)) [
          | inr across ↦ rw (whole, across) (refl, λ h. cc)
          | inl within ↦ elim (Bool-cases (slba == d.wp)) [
            | inr behind ↦ rw (whole, within, behind) (refl, λ h. cc)
            | inl here ↦ rw (whole, within, here) (write_switch-ok d.state slba refl)
          ]
        ]
      ]

  -- What goes on is a write at the write pointer.
  pub write_checked-at_wp :
      (slba nr_lba : ℕ) (y : ZnsFtl) → write_checked z zid d slba nr_lba ≡ go_on y → slba ≡ d.wp
  unfolding write_checked
  write_checked-at_wp slba nr_lba y h = ground arith
