-- ===== src/Zns/Init.antt =====
-- zns_ftl.c, zns_ftl.h: what zns_init_ftl sets up, and the maps between zones and addresses.
use nvmevirt_hybrid.Prelude.{
  ℕ, zero, suc, ◌+◌, ◌*◌, ◌/◌, ◌%◌, ◌<◌, ◌≡◌, refl, ap, ◌∙◌, ◌-◌, arith, Bool, false, count,
  u32_mod, u64_mod,
}
use native.Mathlib.Nat.{mul_comm, mod-eq_of_lt}
use nvmevirt_hybrid.Prelude.Div.{mul_gap, a_gap, div_unique}
use nvmevirt_hybrid.Ssd.{Ssd}
use nvmevirt_hybrid.Zns.{
  ZnsFtl, ZnsParams, ZoneDescriptor, empty, init_descs, zns_init_ftl, zone_to_slba, lba_to_zone,
  lbas_per_zone,
}
use nvmevirt_hybrid.Zns.Accounts.{is_open, is_active, holds_zrwa, EmptyIsPlain, Accounted, IsExact}

-- A test that fails on every empty zone finds none.
count-init_descs :
    (p : ZoneDescriptor → Bool)
    → ((cap slba : ℕ)
        → p (record { state = empty; zrwav = false; zone_capacity = cap; zslba = slba; wp = slba })
          ≡ false)
    → (n lbas zslba : ℕ) → count p (init_descs n lbas zslba) ≡ 0
unfolding init_descs
count-init_descs p h zero lbas zslba = refl
count-init_descs p h (suc n) lbas zslba =
    rw (h lbas zslba, count-init_descs p h n lbas ((zslba + lbas) % u64_mod)) refl

init_descs-plain : (n lbas zslba : ℕ) → EmptyIsPlain (init_descs n lbas zslba)
unfolding init_descs
init_descs-plain zero lbas zslba i d at e = cc
init_descs-plain (suc n) lbas zslba zero d at e = cc
init_descs-plain (suc n) lbas zslba (suc i) d at e =
    init_descs-plain n lbas ((zslba + lbas) % u64_mod) i d at e

-- The namespace that zns_init_ftl sets up, for a number of zones below 2^32, has counts that agree
-- with its zones' states, and no ZRWA resource is lost.
pub zns_init_ftl-Accounted :
    (zpp : ZnsParams) (ssd : Ssd) (mapped : ℕ → ℕ)
    → zpp.nr_zones < u32_mod
    → Accounted (zns_init_ftl zpp ssd mapped) × IsExact (zns_init_ftl zpp ssd mapped)
unfolding zns_init_ftl
zns_init_ftl-Accounted zpp ssd mapped h =
    let n = zpp.nr_zones in
    let lbas = zpp.zone_size / 512 in
    (
      record {
        open_eq = rw (count-init_descs is_open (λ a b. refl) n lbas 0) refl;
        active_eq = rw (count-init_descs is_active (λ a b. refl) n lbas 0) refl;
        zrwa_ge = rw (count-init_descs holds_zrwa (λ a b. refl) n lbas 0) (omega arith);
        open_in = (omega arith, h);
        active_in = (omega arith, h);
        zrwa_in = (omega arith, h);
        plain = init_descs-plain n lbas 0;
      },
      rw (count-init_descs holds_zrwa (λ a b. refl) n lbas 0) refl,
    )

-- The sectors of zone `zid` lie in that zone, if its first sector's number is below 2^32.
pub lba_to_zone-zone_to_slba :
    (z : ZnsFtl) (zid off : ℕ)
    → off < lbas_per_zone z
    → zid * lbas_per_zone z < u32_mod
    → lba_to_zone z (zone_to_slba z zid + off) ≡ zid
unfolding lba_to_zone zone_to_slba
lba_to_zone-zone_to_slba z zid off h small =
    let m = lbas_per_zone z in
    let inside : zid < u32_mod =
      omega (arith, mul_gap zid 0 (m - 1), ap (λ x. zid * x) (a_gap 0 m (omega arith))) in
    let start : (zid % u32_mod) * m % u32_mod ≡ m * zid =
      rw (mod-eq_of_lt inside) (mod-eq_of_lt small ∙ mul_comm zid m) in
    rw (div_unique ((zid % u32_mod) * m % u32_mod + off) zid off m (rw start refl) h)
      (mod-eq_of_lt inside)
