-- ===== src/Zns/MgmtSend/Reset.antt =====
-- zns_mgmt_send.c: what a zone reset leaves: `__zmgmt_send_reset_zone` and `__reset_zone`.
use nvmevirt_hybrid.Prelude.{
  ℕ, ◌+◌, ◌*◌, ◌≤◌, ◌<◌, ◌≡◌, refl, ◌∙◌, ◌⊎◌, inl, inr, arith, Bool, true, false, some, get_elem?,
  set, ◌==◌, Bool-cases, get_elem?-set_self, get_elem?-lt-length, leb-false, ltb-false, le→leb,
  lt→ltb,
}
use nvmevirt_hybrid.Prelude.Run.{ok}
use nvmevirt_hybrid.Buffer.{Buffer, buffer_refill}
use nvmevirt_hybrid.Zns.{
  ZnsFtl, ZoneState, empty, opened_impl, opened_expl, closed, read_only, full, offline,
  ZoneDescriptor, success, ResourceType, active_zone, open_zone, zrwa_zone, put_desc,
  release_zone_resource,
}
use nvmevirt_hybrid.Zns.MgmtSend.{
  zero_zone, reset_zone, reset_full, reset_closed, reset_switch, zmgmt_send_reset_zone,
}

-- The states from which a zone can be reset.
abbrev pub can_reset : ZoneState → Bool
can_reset read_only = false
can_reset offline = false
can_reset _ = true

-- Zone `zid` is as new in `y`: empty, at its start, without a ZRWA, with its memory zeroed and its
-- ZRWA's buffer free, and the other zones and their memory are as in `z`.
pub record IsReset (z : ZnsFtl) (zid : ℕ) (d : ZoneDescriptor) (y : ZnsFtl) : Type 0 where
  pub descs :
      y.zone_descs ≡ set z.zone_descs zid (record d { state = empty; wp = d.zslba; zrwav = false })
  pub zeroed :
      (a : ℕ)
      → zid * z.zp.zone_size ≤ a
      → a < zid * z.zp.zone_size + z.zp.zone_size
      → y.storage a ≡ 0
  pub below : (a : ℕ) → a < zid * z.zp.zone_size → y.storage a ≡ z.storage a
  pub above : (a : ℕ) → zid * z.zp.zone_size + z.zp.zone_size ≤ a → y.storage a ≡ z.storage a
  pub buffers :
      (b : Buffer)
      → get_elem? z.zwra_buffer zid ≡ some b
      → (z.zp.zrwa_buffer_size == 0) ≡ false
      → get_elem? y.zwra_buffer zid ≡ some (buffer_refill b)

-- The ZRWA's buffer exists, if there are any.
abbrev pub HasZrwaBuffer : ZnsFtl → ℕ → Type 0
HasZrwaBuffer z zid =
    (z.zp.zrwa_buffer_size ≡ 0) ⊎ ((b : Buffer) × (get_elem? z.zwra_buffer zid ≡ some b))

module _ (z : ZnsFtl) (zid : ℕ) where
  the_buffer :
      HasZrwaBuffer z zid
      → (z.zp.zrwa_buffer_size == 0) ≡ false
      → (b : Buffer) × (get_elem? z.zwra_buffer zid ≡ some b)
  the_buffer (inl none_set) zrwa = absurd (ground arith)
  the_buffer (inr found) zrwa = found

  zeroed_lem :
      (a : ℕ)
      → zid * z.zp.zone_size ≤ a
      → a < zid * z.zp.zone_size + z.zp.zone_size
      → zero_zone z zid a ≡ 0
  zeroed_lem a h k =
      rw (le→leb (zid * z.zp.zone_size) a h, lt→ltb a (zid * z.zp.zone_size + z.zp.zone_size) k)
        refl

  below_lem : (a : ℕ) → a < zid * z.zp.zone_size → zero_zone z zid a ≡ z.storage a
  below_lem a h = rw (leb-false (zid * z.zp.zone_size) a h) refl

  above_lem : (a : ℕ) → zid * z.zp.zone_size + z.zp.zone_size ≤ a → zero_zone z zid a ≡ z.storage a
  above_lem a h =
      rw
        (
          le→leb (zid * z.zp.zone_size) a (omega arith),
          ltb-false a (zid * z.zp.zone_size + z.zp.zone_size) h,
        )
        refl

  -- `__reset_zone` alone, on the descriptor that change_zone_state has written
  reset_full_lem :
      (d : ZoneDescriptor)
      → get_elem? z.zone_descs zid ≡ some d
      → HasZrwaBuffer z zid
      → (y : ZnsFtl) × (reset_full z zid d ≡ ok (y, success)) × IsReset z zid d y
  unfolding reset_full reset_zone buffer_refill
  reset_full_lem d at buffer = elim (Bool-cases (z.zp.zrwa_buffer_size == 0)) [
    | inl no_zrwa ↦ (
      record (put_desc z zid (record d { state = empty; wp = d.zslba; zrwav = false })) {
        storage = zero_zone z zid;
      },
      rw no_zrwa refl,
      record {
        descs = refl;
        zeroed = zeroed_lem;
        below = below_lem;
        above = above_lem;
        buffers = λ b has some_zrwa. cc;
      },
    )
    | inr zrwa ↦
        let (b, has) = the_buffer buffer zrwa in
        (
          record (put_desc z zid (record d { state = empty; wp = d.zslba; zrwav = false })) {
            storage = zero_zone z zid;
            zwra_buffer = set z.zwra_buffer zid (buffer_refill b);
          },
          rw (zrwa, has) refl,
          record {
            descs = refl;
            zeroed = zeroed_lem;
            below = below_lem;
            above = above_lem;
            buffers = λ c same some_zrwa.
                get_elem?-set_self z.zwra_buffer zid (buffer_refill b)
                  (get_elem?-lt-length z.zwra_buffer zid b has)
                ∙ cc;
          },
        )
  ]

  -- The resources that a reset has released before do not show.
  IsReset-release :
      (t : ResourceType) (d : ZoneDescriptor) (y : ZnsFtl)
      → IsReset (release_zone_resource z t) zid d y
      → IsReset z zid d y
  unfolding release_zone_resource
  IsReset-release active_zone d y m = record {
    descs = m.descs;
    zeroed = m.zeroed;
    below = m.below;
    above = m.above;
    buffers = m.buffers;
  }
  IsReset-release open_zone d y m = record {
    descs = m.descs;
    zeroed = m.zeroed;
    below = m.below;
    above = m.above;
    buffers = m.buffers;
  }
  IsReset-release zrwa_zone d y m = record {
    descs = m.descs;
    zeroed = m.zeroed;
    below = m.below;
    above = m.above;
    buffers = m.buffers;
  }

reset_closed_lem :
    (z : ZnsFtl) (zid : ℕ) (d : ZoneDescriptor)
    → get_elem? z.zone_descs zid ≡ some d
    → HasZrwaBuffer z zid
    → (y : ZnsFtl) × (reset_closed z zid d ≡ ok (y, success)) × IsReset z zid d y
unfolding reset_closed release_zone_resource
reset_closed_lem z zid d at buffer =
    let z1 = release_zone_resource z active_zone in
    elim (Bool-cases d.zrwav) [
      | inl zrwa ↦
          let z2 = release_zone_resource z1 zrwa_zone in
          let (y, runs, is_reset) = reset_full_lem z2 zid d at buffer in
          (
            y,
            rw zrwa runs,
            IsReset-release z zid active_zone d y (IsReset-release z1 zid zrwa_zone d y is_reset),
          )
      | inr no_zrwa ↦
          let (y, runs, is_reset) = reset_full_lem z1 zid d at buffer in
          (y, rw no_zrwa runs, IsReset-release z zid active_zone d y is_reset)
    ]

reset_switch_lem :
    (s : ZoneState) (z : ZnsFtl) (zid : ℕ) (d : ZoneDescriptor)
    → can_reset s ≡ true
    → get_elem? z.zone_descs zid ≡ some d
    → HasZrwaBuffer z zid
    → (y : ZnsFtl) × (reset_switch s z zid d ≡ ok (y, success)) × IsReset z zid d y
unfolding reset_switch release_zone_resource
reset_switch_lem opened_impl z zid d can at buffer =
    let z1 = release_zone_resource z open_zone in
    let (y, runs, is_reset) = reset_closed_lem z1 zid d at buffer in
    (y, runs, IsReset-release z zid open_zone d y is_reset)
reset_switch_lem opened_expl z zid d can at buffer =
    let z1 = release_zone_resource z open_zone in
    let (y, runs, is_reset) = reset_closed_lem z1 zid d at buffer in
    (y, runs, IsReset-release z zid open_zone d y is_reset)
reset_switch_lem closed z zid d can at buffer = reset_closed_lem z zid d at buffer
reset_switch_lem full z zid d can at buffer = reset_full_lem z zid d at buffer
reset_switch_lem empty z zid d can at buffer = reset_full_lem z zid d at buffer
reset_switch_lem read_only z zid d can at buffer = cc
reset_switch_lem offline z zid d can at buffer = cc

-- A reset of a zone that is neither read-only nor offline succeeds. It leaves the zone empty, with its
-- write pointer at its start, without a ZRWA, all bytes of its memory 0 and its ZRWA's buffer free; no
-- other zone and no byte of memory outside it changes.
pub zmgmt_send_reset_zone-IsReset :
    (z : ZnsFtl) (zid : ℕ) (d : ZoneDescriptor)
    → get_elem? z.zone_descs zid ≡ some d
    → can_reset d.state ≡ true
    → HasZrwaBuffer z zid
    → (y : ZnsFtl) × (zmgmt_send_reset_zone z zid ≡ ok (y, success)) × IsReset z zid d y
unfolding zmgmt_send_reset_zone
zmgmt_send_reset_zone-IsReset z zid d at can buffer =
    let (y, runs, is_reset) = reset_switch_lem d.state z zid d can at buffer in
    (y, rw at runs, is_reset)
