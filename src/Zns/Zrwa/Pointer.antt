-- ===== src/Zns/Zrwa/Pointer.antt =====
-- zns_read_write.c: the resource counts behind `__increase_write_ptr`, for a zone with a ZRWA too.
use nvmevirt_hybrid.Prelude.{
  ℕ, ◌≡◌, refl, arith, true, some, inl, inr, get_elem?, count-set, set-set, Bool-cases,
}
use nvmevirt_hybrid.Prelude.Run.{ok, ok-injective}
use nvmevirt_hybrid.Zns.{ZnsFtl, ZoneDescriptor, ZoneState, opened_impl, opened_expl, full}
use nvmevirt_hybrid.Zns.Accounts.{
  is_open_state, is_active_state, is_open, is_active, holds_zrwa, EmptyIsPlain-set, Accounted,
}
use nvmevirt_hybrid.Zns.MgmtSend.Laws.{held}
use nvmevirt_hybrid.Zns.Write.{increase_write_ptr}
use nvmevirt_hybrid.Zns.Write.Pointer.{next_wp, ends_zone, moved, ended}

open-is_active : (s : ZoneState) → is_open_state s ≡ true → is_active_state s ≡ true
open-is_active opened_impl o = refl
open-is_active opened_expl o = refl
open-is_active _ o = cc

module _ (z : ZnsFtl) (zid : ℕ) (d : ZoneDescriptor) (nr_lba : ℕ)
    (at : get_elem? z.zone_descs zid ≡ some d) (v : Accounted z) (o : is_open d ≡ true) where
  active : is_active d ≡ true
  active = open-is_active d.state o

  moved-Accounted : Accounted (moved z zid d nr_lba)
  unfolding moved
  moved-Accounted =
      let e = record d { wp = next_wp d nr_lba } in
      record {
        open_eq = omega (arith, count-set is_open z.zone_descs zid d e at, v.open_eq);
        active_eq = omega (arith, count-set is_active z.zone_descs zid d e at, v.active_eq);
        zrwa_ge = omega (arith, count-set holds_zrwa z.zone_descs zid d e at, v.zrwa_ge);
        open_in = v.open_in;
        active_in = v.active_in;
        zrwa_in = v.zrwa_in;
        plain = EmptyIsPlain-set z.zone_descs zid e v.plain (v.plain zid d at);
      }

  ended-Accounted : Accounted (ended z zid d nr_lba)
  unfolding ended
  ended-Accounted =
      let e = record d { state = full; wp = next_wp d nr_lba } in
      let again = set-set z.zone_descs zid (record d { wp = next_wp d nr_lba }) e in
      record {
        open_eq = rw again (
            ground (
              arith,
              count-set is_open z.zone_descs zid d e at,
              v.open_eq,
              o,
              held z zid d at v,
              v.open_in,
            ));
        active_eq = rw again (
            ground (
              arith,
              count-set is_active z.zone_descs zid d e at,
              v.active_eq,
              active,
              held z zid d at v,
              v.active_in,
            ));
        zrwa_ge = rw again (omega (arith, count-set holds_zrwa z.zone_descs zid d e at, v.zrwa_ge));
        open_in = ground (arith, o, held z zid d at v, v.open_in);
        active_in = ground (arith, active, held z zid d at v, v.active_in);
        zrwa_in = v.zrwa_in;
        plain = rw again (EmptyIsPlain-set z.zone_descs zid e v.plain (λ h. cc));
      }

  pub increase_write_ptr-Accounted :
      (y : ZnsFtl) → increase_write_ptr z zid nr_lba ≡ ok y → Accounted y
  unfolding increase_write_ptr moved ended
  increase_write_ptr-Accounted y runs = elim (Bool-cases (ends_zone z zid d nr_lba)) [
    | inl ends ↦
        let same : ended z zid d nr_lba ≡ y = ok-injective (rw (at, ends) at runs) in
        rw (← same) ended-Accounted
    | inr on ↦
        let same : moved z zid d nr_lba ≡ y = ok-injective (rw (at, on) at runs) in
        rw (← same) moved-Accounted
  ]
