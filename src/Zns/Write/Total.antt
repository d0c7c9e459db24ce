-- ===== src/Zns/Write/Total.antt =====
-- zns_read_write.c: the pages that `__zns_write` addresses, and its flash loop.
use nvmevirt_hybrid.Prelude.{
  ℕ, zero, suc, ◌+◌, ◌-◌, ◌*◌, ◌/◌, ◌%◌, ◌≤◌, ◌<◌, min, max, [], ◌∷◌, ◌++◌, ◌≡◌, refl, ap, inl, inr,
  arith, ◌||◌, Bool-cases, ltb, ◌==◌, ltb-false→le, u32_mod, u64_mod,
}
use nvmevirt_hybrid.Prelude.Div.{mod-mul-le, div-lt}
use nvmevirt_hybrid.Prelude.Run.{ok}
use native.Mathlib.Nat.{mul-add, mod-le, mod-lt, mod-eq_of_lt}
use nvmevirt_hybrid.Ssd.{SsdParams}
use nvmevirt_hybrid.Ssd.Device.{InDevice, Kept, Kept-trans}
use nvmevirt_hybrid.Ssd.Advance.{ssd_advance_nand_total}
use nvmevirt_hybrid.Zns.{
  ZnsFtl, ZnsParams, die_to_channel, die_to_lun, zone_to_slpn, zone_to_elpn, lpn_to_zone,
}
use nvmevirt_hybrid.Zns.Write.{
  BufferRef, Flushed, lpn_to_ppa, flush_oneshot, write_pages, oneshot_write, bufs_to_release,
}

-- The zones' layout on the device: the LUNs are those of all channels, and a zone's dies are a whole
-- share of them; every count is positive and fits its type.
pub record IsGeometry (zp : ZnsParams) (sp : SsdParams) : Type 0 where
  pub share : ℕ
  pub share_pos : 0 < share
  pub dies_pos : 0 < zp.dies_per_zone
  pub oneshot_pos : 0 < sp.pgs_per_oneshotpg
  pub nchs_pos : 0 < sp.nchs
  pub luns_eq : sp.tt_luns ≡ sp.nchs * sp.luns_per_ch
  pub share_eq : sp.tt_luns ≡ share * zp.dies_per_zone
  pub dies_in : zp.dies_per_zone < u32_mod

mul-lt : (a b : ℕ) → a < u32_mod → b < u32_mod → a * b < u64_mod
mul-lt a b h k =
    let whole : b + (u32_mod - b) ≡ u32_mod = omega arith in
    omega (arith, mul-add a b (u32_mod - b), ap (λ x. a * x) whole)

module _ (z : ZnsFtl) (g : IsGeometry z.zp z.ssd.sp) where
  -- Every page that a zoned write addresses lies on a channel and a LUN of the device, for any logical
  -- page number.
  pub lpn_to_ppa-InDevice : (lpn : ℕ) → InDevice z.ssd.sp (lpn_to_ppa z lpn)
  unfolding lpn_to_ppa die_to_channel die_to_lun lpn_to_zone
  lpn_to_ppa-InDevice lpn =
      let spp = z.ssd.sp in
      let dies = z.zp.dies_per_zone in
      let zone = lpn_to_zone z lpn in
      let off = (lpn + u64_mod - zone_to_slpn z zone) % u64_mod in
      let sdie = (((zone * dies) % u64_mod) % spp.tt_luns) % u32_mod in
      let start : (zone * dies) % u64_mod ≡ zone * dies =
        mod-eq_of_lt (mul-lt zone dies (omega arith) g.dies_in) in
      let room : (zone * dies) % (g.share * dies) + dies ≤ g.share * dies =
        mod-mul-le zone g.share dies g.share_pos g.dies_pos in
      let sdie_in : sdie + dies ≤ spp.tt_luns = rw (start, g.share_eq) (omega arith) in
      let step : (off / spp.pgs_per_oneshotpg) % dies < dies = mod-lt _ g.dies_pos in
      let whole = sdie + (off / spp.pgs_per_oneshotpg) % dies in
      let die = whole % u32_mod in
      let die_in : die < spp.nchs * spp.luns_per_ch =
        omega (arith, mod-le whole u32_mod, sdie_in, step, g.luns_eq) in
      let ch_in : die % spp.nchs < spp.nchs = mod-lt die g.nchs_pos in
      let lun_in : die / spp.nchs < spp.luns_per_ch =
        div-lt die spp.nchs spp.luns_per_ch g.nchs_pos die_in in
      (omega (arith, ch_in), omega (arith, lun_in))

  module _ (cpu_clock : ℕ → ℕ) where
    flush_oneshot_total :
        (sq_id : ℕ) (ref : BufferRef) (stime lpn bytes : ℕ) (f : Flushed)
        → Kept z.ssd f.ssd
        → (y : Flushed) × (flush_oneshot cpu_clock z sq_id ref stime lpn bytes f ≡ ok y)
          × Kept z.ssd y.ssd
    unfolding flush_oneshot
    flush_oneshot_total sq_id ref stime lpn bytes f k =
        let (ssd, t, runs, k1) =
          ssd_advance_nand_total cpu_clock f.ssd (oneshot_write z (lpn_to_ppa z lpn) stime) k.device
            (rw k.same_sp (lpn_to_ppa-InDevice lpn)) tt in
        (
          record {
            ssd = ssd;
            nsecs_latest = max t f.nsecs_latest;
            writebacks =
                f.writebacks
                ++ (record {
                  sq_id = sq_id;
                  nsecs_target = t;
                  buffer = ref;
                  buffs_to_release = bytes;
                }
                    ∷ []);
          },
          rw runs refl,
          Kept-trans z.ssd f.ssd ssd k k1,
        )

    -- The fuel need not exceed the number of pages left by more than two.
    pub write_pages_total :
        (fuel zid sq_id : ℕ) (ref : BufferRef) (stime elpn lpn : ℕ) (f : Flushed)
        → Kept z.ssd f.ssd
        → elpn + 1 - lpn < fuel
        → (y : Flushed) × (write_pages cpu_clock fuel z zid sq_id ref stime elpn lpn f ≡ ok y)
          × Kept z.ssd y.ssd
    unfolding write_pages
    write_pages_total zero zid sq_id ref stime elpn lpn f k enough = absurd (ground arith)
    write_pages_total (suc fuel) zid sq_id ref stime elpn lpn f k enough =
        let oneshot = z.ssd.sp.pgs_per_oneshotpg in
        let pg_off = (lpn_to_ppa z lpn).pg % oneshot in
        let pgs = min (elpn - lpn + 1) (oneshot - pg_off) in
        let at_end = (lpn + pgs + u64_mod - 1) % u64_mod == zone_to_elpn z zid in
        let inside : pg_off < oneshot = mod-lt _ g.oneshot_pos in
        elim (Bool-cases (ltb elpn lpn)) [
          | inl over ↦ (f, rw over refl, k)
          | inr more ↦ elim (Bool-cases ((pg_off + pgs == oneshot) || at_end)) [
            | inl flushes ↦
                let (f1, runs, k1) =
                  flush_oneshot_total sq_id ref stime lpn (bufs_to_release z at_end) f k in
                let (y, runs1, k2) =
                  write_pages_total fuel zid sq_id ref stime elpn (lpn + pgs) f1 k1
                    (omega (arith, ltb-false→le elpn lpn more)) in
                (y, rw (more, flushes, runs) runs1, k2)
            | inr waits ↦
                let (y, runs1, k2) =
                  write_pages_total fuel zid sq_id ref stime elpn (lpn + pgs) f k
                    (omega (arith, ltb-false→le elpn lpn more)) in
                (y, rw (more, waits) runs1, k2)
          ]
        ]
