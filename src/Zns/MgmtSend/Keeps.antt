-- ===== src/Zns/MgmtSend/Keeps.antt =====
-- zns_mgmt_send.c: from one zone's change to zns_zmgmt_send as a whole, for the resource counts.
use nvmevirt_hybrid.Prelude.{
  ℕ, zero, suc, ◌+◌, ◌≡◌, refl, ap, ◌⊎◌, inl, inr, arith, Bool, true, some, get_elem?, Bool-cases,
  Option-cases,
}
use nvmevirt_hybrid.Prelude.Run.{Run, ok, Run-cases, ◌>>=◌, >>=-eq-ok, ok-injective}
use nvmevirt_hybrid.Zns.{ZnsFtl, ZoneDescriptor, Status, zone_desc, lba_to_zone, zone_to_slba}
use nvmevirt_hybrid.Zns.Accounts.{Accounted, IsExact, MovesAt, MovesAt-Accounted, MovesAt-IsExact}
use nvmevirt_hybrid.Zns.MgmtSend.{
  close_switch, finish_switch, open_switch, offline_switch, flush_switch, zmgmt_send_close_zone,
  zmgmt_send_finish_zone, zmgmt_send_open_zone, zmgmt_send_reset_zone, zmgmt_send_offline_zone,
  zmgmt_send_flush_explicit_zrwa, ZoneSendAction, close_zone, finish_zone, open_a_zone,
  reset_a_zone, offline_zone, flush_expl_zrwa, other_action, zmgmt_send, send_all, ZoneMgmtSend,
  zns_zmgmt_send,
}
use nvmevirt_hybrid.Zns.MgmtSend.Laws.{
  close-MovesAt, finish-MovesAt, open-MovesAt, reset-MovesAt, offline-MovesAt, flush-MovesAt,
}

-- Some zone of `z` moves, or none, and `y` is what comes of it.
abbrev pub MovesOne : ZnsFtl → ZnsFtl → Type 0
MovesOne z y = (zid : ℕ) × (d : ZoneDescriptor) × MovesAt z zid d y

on_desc :
    (z : ZnsFtl) (zid : ℕ) (f : ZoneDescriptor → Run (ZnsFtl × Status)) (y : ZnsFtl) (st : Status)
    → ((d : ZoneDescriptor)
        → get_elem? z.zone_descs zid ≡ some d
        → f d ≡ ok (y, st)
        → MovesAt z zid d y)
    → (zone_desc z zid >>= f) ≡ ok (y, st)
    → MovesOne z y
on_desc z zid f y st step r = elim (Option-cases (get_elem? z.zone_descs zid)) [
  | inl e ↦ absurd (ground arith)
  | inr (d, e) ↦ (zid, d, step d e (rw e at r))
]

module _ (z : ZnsFtl) (v : Accounted z) (y : ZnsFtl) (st : Status) where
  close-MovesOne : (zid : ℕ) → zmgmt_send_close_zone z zid ≡ ok (y, st) → MovesOne z y
  unfolding zmgmt_send_close_zone
  close-MovesOne zid = on_desc z zid _ y st λ d at r.
      let done : (close_switch d.state z zid d).0 ≡ y = ground arith in
      rw (← done) (close-MovesAt z zid d at v d.state refl)

  finish-MovesOne : (zid : ℕ) → zmgmt_send_finish_zone z zid ≡ ok (y, st) → MovesOne z y
  unfolding zmgmt_send_finish_zone
  finish-MovesOne zid = on_desc z zid _ y st λ d at r.
      let done : (finish_switch d.state z zid d).0 ≡ y = ground arith in
      rw (← done) (finish-MovesAt z zid d at v d.state refl)

  offline-MovesOne : (zid : ℕ) → zmgmt_send_offline_zone z zid ≡ ok (y, st) → MovesOne z y
  unfolding zmgmt_send_offline_zone
  offline-MovesOne zid = on_desc z zid _ y st λ d at r.
      let done : (offline_switch d.state z zid d).0 ≡ y = ground arith in
      rw (← done) (offline-MovesAt z zid d at v d.state refl)

  open-MovesOne :
      (zid : ℕ) (zrwa : Bool) → zmgmt_send_open_zone z zid zrwa ≡ ok (y, st) → MovesOne z y
  unfolding zmgmt_send_open_zone
  open-MovesOne zid zrwa = on_desc z zid _ y st λ d at r.
      let done : (open_switch d.state z zid d zrwa).0 ≡ y = ground arith in
      rw (← done) (open-MovesAt z zid d at v d.state zrwa refl)

  reset-MovesOne : (zid : ℕ) → zmgmt_send_reset_zone z zid ≡ ok (y, st) → MovesOne z y
  unfolding zmgmt_send_reset_zone
  reset-MovesOne zid = on_desc z zid _ y st λ d at r. reset-MovesAt z zid d at v d.state refl y st r

  flush-MovesOne : (slba : ℕ) → zmgmt_send_flush_explicit_zrwa z slba ≡ ok (y, st) → MovesOne z y
  unfolding zmgmt_send_flush_explicit_zrwa
  flush-MovesOne slba = on_desc z (lba_to_zone z slba) _ y st λ d at r.
      let zid = lba_to_zone z slba in
      let done = (flush_switch d.state z zid d slba).0 in
      let cases : (y ≡ z) ⊎ ((d.zrwav ≡ true) × (y ≡ done)) = ground arith in
      elim cases [
        | inl same ↦ inl same
        | inr (w, e) ↦ rw e (flush-MovesAt z zid d at v d.state slba refl w)
      ]

  zmgmt_send-MovesOne :
      (action : ZoneSendAction) (slba : ℕ) (option : Bool)
      → zmgmt_send action z slba option ≡ ok (y, st)
      → MovesOne z y
  unfolding zmgmt_send
  zmgmt_send-MovesOne close_zone slba option r = close-MovesOne (lba_to_zone z slba) r
  zmgmt_send-MovesOne finish_zone slba option r = finish-MovesOne (lba_to_zone z slba) r
  zmgmt_send-MovesOne open_a_zone slba option r = open-MovesOne (lba_to_zone z slba) option r
  zmgmt_send-MovesOne reset_a_zone slba option r = reset-MovesOne (lba_to_zone z slba) r
  zmgmt_send-MovesOne offline_zone slba option r = offline-MovesOne (lba_to_zone z slba) r
  zmgmt_send-MovesOne flush_expl_zrwa slba option r = flush-MovesOne slba r
  zmgmt_send-MovesOne other_action slba option r = cc

MovesOne-Accounted : (z y : ZnsFtl) → MovesOne z y → Accounted z → Accounted y
MovesOne-Accounted z y (zid, d, m) = MovesAt-Accounted z zid d y m

MovesOne-IsExact : (z y : ZnsFtl) → MovesOne z y → IsExact z → IsExact y
MovesOne-IsExact z y (zid, d, m) = MovesAt-IsExact z zid d y m

send_all-keeps :
    (n zid : ℕ) (action : ZoneSendAction) (z : ZnsFtl) (option : Bool) (y : ZnsFtl)
    → send_all n zid action z option ≡ ok y
    → Accounted z
    → Accounted y × (IsExact z → IsExact y)
unfolding send_all
send_all-keeps zero zid action z option y r v = let same : z ≡ y = cc in rw (← same) (v, λ x. x)
send_all-keeps (suc n) zid action z option y r v =
    elim (Run-cases (zmgmt_send action z (zone_to_slba z zid) option)) [
      | inl ((z1, st), e) ↦
          let m = zmgmt_send-MovesOne z v z1 st action (zone_to_slba z zid) option e in
          let (kept, exact) =
            send_all-keeps n (zid + 1) action z1 option y (rw (e, ◌>>=◌) at r)
              (MovesOne-Accounted z z1 m v) in
          (kept, λ x. exact (MovesOne-IsExact z z1 m x))
      | inr (f, e) ↦ absurd (ground arith)
    ]

-- Every zone management command that returns, for one zone or for all, keeps the counts of active and
-- open zones equal to the numbers of zones in those states, within their limits, and loses no ZRWA
-- resource if none was lost before.
pub zns_zmgmt_send-keeps :
    (z : ZnsFtl) (cmd : ZoneMgmtSend) (nsecs_start : ℕ) (y : ZnsFtl) (st : Status) (t : ℕ)
    → Accounted z
    → zns_zmgmt_send z cmd nsecs_start ≡ ok (y, st, t)
    → Accounted y × (IsExact z → IsExact y)
unfolding zns_zmgmt_send
zns_zmgmt_send-keeps z cmd start y st t v r = elim (Bool-cases cmd.select_all) [
  | inl everywhere ↦
      let (z1, runs, done) =
        >>=-eq-ok (send_all z.zp.nr_zones 0 cmd.zsa z cmd.zsaso) _ (y, st, t)
          (rw everywhere at r) in
      let same : z1 ≡ y = ap (λ (a : ZnsFtl × Status × ℕ). a.0) (ok-injective done) in
      send_all-keeps z.zp.nr_zones 0 cmd.zsa z cmd.zsaso y (rw (← same) runs) v
  | inr one ↦
      let ((z1, s), runs, done) =
        >>=-eq-ok (zmgmt_send cmd.zsa z cmd.slba cmd.zsaso) _ (y, st, t) (rw one at r) in
      let same : z1 ≡ y = ap (λ (a : ZnsFtl × Status × ℕ). a.0) (ok-injective done) in
      let m = zmgmt_send-MovesOne z v z1 s cmd.zsa cmd.slba cmd.zsaso runs in
      rw (← same) (MovesOne-Accounted z z1 m v, MovesOne-IsExact z z1 m)
]
