-- ===== src/Ssd/Region.antt =====
-- ssd.h: the classification of physical pages by get_storage_type and get_qlc_region, which read the packed
-- address as if it were a page number.
use nvmevirt_hybrid.Prelude.{
  ◌+◌, ◌*◌, ◌^◌, ◌≤◌, ◌<◌, ◌≡◌, ◌-◌, ◌/◌, ◌%◌, refl, true, arith, u64_mod, ltb-false,
}
use nvmevirt_hybrid.Ssd.{Ppa, IsPpa, ppa_bits, SsdParams, qlc, get_storage_type, get_qlc_region}

-- The packed address of a page on any channel but the first is at least 2^48.
ppa_bits-ge : (p : Ppa) → 0 < p.ch → 2 ^ 48 ≤ ppa_bits p
unfolding ppa_bits
ppa_bits-ge p h = omega arith

ppa_bits-lt : (p : Ppa) → IsPpa p → ppa_bits p < u64_mod
unfolding ppa_bits
ppa_bits-lt p v = omega (arith, v.pg_in, v.blk_in, v.pl_in, v.lun_in, v.ch_in, v.rsv_in)

far :
    (spp : SsdParams) (p : Ppa)
    → spp.hybrid ≡ true
    → 2 ^ 48 ≤ ppa_bits p
    → ppa_bits p < u64_mod
    → spp.slc_tt_pgs < 2 ^ 47
    → spp.qlc_tt_pgs < 2 ^ 47
    → (get_storage_type spp p ≡ qlc) × (get_qlc_region spp p ≡ 3)
unfolding get_storage_type get_qlc_region
far spp p hy ge lt s q =
    let off = (ppa_bits p + u64_mod - spp.slc_tt_pgs) % u64_mod in
    let region = spp.qlc_tt_pgs / 4 in
    rw
      (
        hy,
        ltb-false (ppa_bits p) spp.slc_tt_pgs (omega arith),
        ltb-false off region (omega arith),
        ltb-false off ((region * 2) % u64_mod) (omega arith),
        ltb-false off ((region * 3) % u64_mod) (omega arith),
      )
      (refl, refl)

-- In the hybrid build, with fewer than 2^47 SLC and fewer than 2^47 QLC pages, every page of every
-- channel but the first counts as QLC, and as one of its last region, Q4.
pub get_qlc_region_last :
    (spp : SsdParams) (p : Ppa)
    → spp.hybrid ≡ true
    → IsPpa p
    → spp.slc_tt_pgs < 2 ^ 47
    → spp.qlc_tt_pgs < 2 ^ 47
    → 0 < p.ch
    → (get_storage_type spp p ≡ qlc) × (get_qlc_region spp p ≡ 3)
get_qlc_region_last spp p hy v s q h = far spp p hy (ppa_bits-ge p h) (ppa_bits-lt p v) s q
