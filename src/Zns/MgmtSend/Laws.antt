-- ===== src/Zns/MgmtSend/Laws.antt =====
-- zns_mgmt_send.c: what each management command does to its zone and to the resource counts.
use nvmevirt_hybrid.Prelude.{
  ℕ, ◌+◌, ◌%◌, ◌≤◌, ◌≡◌, refl, inl, inr, arith, Bool, true, false, some, get_elem?, bit, ltb,
  set-set, ◌==◌, Bool-cases, u64_mod,
}
use nvmevirt_hybrid.Prelude.Run.{ok}
use nvmevirt_hybrid.Zns.{
  ZnsFtl, ZoneState, empty, opened_impl, opened_expl, closed, read_only, full, offline,
  ZoneDescriptor, ResourceInfo, Status, zone_to_slba,
}
use nvmevirt_hybrid.Zns.Accounts.{
  is_open, is_active, holds_zrwa, Accounted, Moves, MovesAt, count-pos,
}
use nvmevirt_hybrid.Zns.MgmtSend.{
  close_switch, finish_switch, open_checked, open_switch, reset_switch, offline_switch, zone_filled,
  flush_full, flush_switch,
}

pub avail :
    (r : ResourceInfo)
    → r.acquired_cnt ≤ r.total_cnt
    → (r.acquired_cnt == r.total_cnt) ≡ false
    → ltb r.acquired_cnt r.total_cnt ≡ true
avail r h e = ground arith

module _ (z : ZnsFtl) (zid : ℕ) (d : ZoneDescriptor) (at : get_elem? z.zone_descs zid ≡ some d)
    (v : Accounted z) where
  -- A zone's own units are among those acquired.
  pub held :
      (bit (is_open d) ≤ z.open_info.acquired_cnt)
      × (bit (is_active d) ≤ z.active_info.acquired_cnt)
      × (bit (holds_zrwa d) ≤ z.zrwa_info.acquired_cnt)
  held = omega (
    arith,
    count-pos is_open z.zone_descs zid d at,
    count-pos is_active z.zone_descs zid d at,
    count-pos holds_zrwa z.zone_descs zid d at,
    v.open_eq,
    v.active_eq,
    v.zrwa_ge,
  )

  pub close-MovesAt : (s : ZoneState) → d.state ≡ s → MovesAt z zid d (close_switch s z zid d).0
  unfolding close_switch
  close-MovesAt opened_impl e = inr (record d { state = closed }, ground (arith, at, held))
  close-MovesAt opened_expl e = inr (record d { state = closed }, ground (arith, at, held))
  close-MovesAt _ e = inl refl

  pub finish-MovesAt : (s : ZoneState) → d.state ≡ s → MovesAt z zid d (finish_switch s z zid d).0
  unfolding finish_switch
  finish-MovesAt opened_impl e = inr (record d { state = full }, ground (arith, at, held))
  finish-MovesAt opened_expl e = inr (record d { state = full }, ground (arith, at, held))
  finish-MovesAt closed e = inr (record d { state = full }, ground (arith, at, held))
  finish-MovesAt empty e = inr (record d { state = full }, ground (arith, at, held))
  finish-MovesAt _ e = inl refl

  pub offline-MovesAt : (s : ZoneState) → d.state ≡ s → MovesAt z zid d (offline_switch s z zid d).0
  unfolding offline_switch
  offline-MovesAt read_only e = inr (record d { state = offline }, ground (arith, at, held))
  offline-MovesAt _ e = inl refl

  -- an empty zone, with room for an active and an open zone
  open_empty-MovesAt :
      (zrwa : Bool)
      → d.state ≡ empty
      → ltb z.active_info.acquired_cnt z.active_info.total_cnt ≡ true
      → ltb z.open_info.acquired_cnt z.open_info.total_cnt ≡ true
      → MovesAt z zid d (open_checked z zid d zrwa).0
  unfolding open_checked
  open_empty-MovesAt false e a o =
      rw (a, o) (inr (record d { state = opened_expl }, ground (arith, at, held, v.plain zid d)))
  open_empty-MovesAt true e a o =
      elim (Bool-cases (z.zrwa_info.acquired_cnt == z.zrwa_info.total_cnt)) [
        | inl full_zrwa ↦ rw full_zrwa (inl refl)
        | inr room ↦
            let again =
              set-set z.zone_descs zid (record d { zrwav = true })
                (record d { state = opened_expl; zrwav = true }) in
            rw (room, avail z.zrwa_info v.zrwa_in.0 room, a, o)
              (inr (
                record d { state = opened_expl; zrwav = true },
                ground (arith, at, held, again, v.plain zid d),
              ))
      ]

  pub open-MovesAt :
      (s : ZoneState) (zrwa : Bool) → d.state ≡ s → MovesAt z zid d (open_switch s z zid d zrwa).0
  unfolding open_switch
  open-MovesAt empty zrwa e =
      elim (Bool-cases (z.active_info.acquired_cnt == z.active_info.total_cnt)) [
        | inl full_active ↦ rw full_active (inl refl)
        | inr room_active ↦ elim (Bool-cases (z.open_info.acquired_cnt == z.open_info.total_cnt)) [
          | inl full_open ↦ rw (room_active, full_open) (inl refl)
          | inr room_open ↦
              rw (room_active, room_open)
                (open_empty-MovesAt zrwa e (avail z.active_info v.active_in.0 room_active)
                  (avail z.open_info v.open_in.0 room_open))
        ]
      ]
  open-MovesAt closed zrwa e =
      elim (Bool-cases (ltb z.open_info.acquired_cnt z.open_info.total_cnt)) [
        | inl room ↦ rw room (inr (record d { state = opened_expl }, ground (arith, at, held)))
        | inr none_left ↦ rw none_left (inl refl)
      ]
  open-MovesAt opened_impl zrwa e = inr (record d { state = opened_expl }, ground (arith, at, held))
  open-MovesAt _ zrwa e = inl refl

  pub reset-MovesAt :
      (s : ZoneState)
      → d.state ≡ s
      → (y : ZnsFtl) (st : Status) → reset_switch s z zid d ≡ ok (y, st)
      → MovesAt z zid d y
  unfolding reset_switch
  reset-MovesAt opened_impl e y st r =
      inr (record d { state = empty; wp = d.zslba; zrwav = false }, ground (arith, at, held))
  reset-MovesAt opened_expl e y st r =
      inr (record d { state = empty; wp = d.zslba; zrwav = false }, ground (arith, at, held))
  reset-MovesAt closed e y st r =
      inr (record d { state = empty; wp = d.zslba; zrwav = false }, ground (arith, at, held))
  reset-MovesAt full e y st r =
      inr (record d { state = empty; wp = d.zslba; zrwav = false }, ground (arith, at, held))
  reset-MovesAt empty e y st r = inr (
    record d { state = empty; wp = d.zslba; zrwav = false },
    ground (arith, at, held, v.plain zid d),
  )
  reset-MovesAt _ e y st r = inl (ground arith)

  filled :
      (wp : ℕ) (was_open : Bool)
      → is_open d ≡ was_open
      → is_active d ≡ true
      → d.zrwav ≡ true
      → Moves z zid d
          (record d { state = full; wp = wp })
          (zone_filled z zid (record d { wp = wp }) was_open)
  unfolding zone_filled
  filled wp true o a w =
      let again =
        set-set z.zone_descs zid (record d { wp = wp }) (record d { state = full; wp = wp }) in
      ground (arith, at, held, again)
  filled wp false o a w =
      let again =
        set-set z.zone_descs zid (record d { wp = wp }) (record d { state = full; wp = wp }) in
      ground (arith, at, held, again)

  flush_full-MovesAt :
      (wp : ℕ) (was_open : Bool)
      → is_open d ≡ was_open
      → is_active d ≡ true
      → d.zrwav ≡ true
      → MovesAt z zid d (flush_full z zid (record d { wp = wp }) was_open)
  unfolding flush_full
  flush_full-MovesAt wp was_open o a w =
      elim (Bool-cases (wp == (zone_to_slba z zid + d.zone_capacity) % u64_mod)) [
        | inl ends ↦ inr (record d { state = full; wp = wp }, rw ends (filled wp was_open o a w))
        | inr on ↦ inr (record d { wp = wp }, rw on (ground (arith, at, held, o, a, w)))
      ]

  pub flush-MovesAt :
      (s : ZoneState) (slba : ℕ)
      → d.state ≡ s
      → d.zrwav ≡ true
      → MovesAt z zid d (flush_switch s z zid d slba).0
  unfolding flush_switch
  flush-MovesAt opened_expl slba e w =
      flush_full-MovesAt ((slba + 1) % u64_mod) true (ground arith) (ground arith) w
  flush-MovesAt opened_impl slba e w =
      flush_full-MovesAt ((slba + 1) % u64_mod) true (ground arith) (ground arith) w
  flush-MovesAt closed slba e w =
      flush_full-MovesAt ((slba + 1) % u64_mod) false (ground arith) (ground arith) w
  flush-MovesAt _ slba e w = inl refl
