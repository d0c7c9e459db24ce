-- ===== src/Conv/Address.antt =====
-- conv_ftl.c: addresses of pages and blocks, and the two mapping tables.
pub mod Laws
use nvmevirt_hybrid.Prelude.{
  ℕ, ◌+◌, ◌*◌, ◌/◌, ◌%◌, ◌^◌, Bool, true, false, ◌&&◌, not, List, get_elem?, set, ltb, ◌==◌,
  if◌then◌else◌, u32_mod, u64_mod,
}
use nvmevirt_hybrid.Prelude.Run.{Run, ok, fault, out_of_bounds, ◌>>=◌, ◌>>◌, or_fault, nvmev_assert}
use nvmevirt_hybrid.Ssd.{SsdParams, Ppa, ppa_bits, unmapped_ppa}
use nvmevirt_hybrid.Conv.{ConvFtl, NandBlock, NandPage, Line, LineMgmt, spp, get_lunlm, put_lunlm}

-- A page's address as the code writes its bit fields, each cut to its bits.
unfoldable pub ppa_of : ℕ → ℕ → ℕ → ℕ → ℕ → Ppa
ppa_of ch lun pl blk pg = record {
  pg = pg % 65536;
  blk = blk % 65536;
  pl = pl % 256;
  lun = lun % 256;
  ch = ch % 256;
  rsv = 0;
}

unfoldable pub last_pg_in_wordline : SsdParams → Ppa → Bool
last_pg_in_wordline sp ppa = (ppa.pg % sp.pgs_per_oneshotpg) + 1 == sp.pgs_per_oneshotpg

unfoldable pub valid_ppa : SsdParams → Ppa → Bool
valid_ppa sp ppa =
    if not (ltb ppa.ch sp.nchs)
    then false
    else if not (ltb ppa.lun sp.luns_per_ch)
    then false
    else if not (ltb ppa.pl sp.pls_per_lun)
    then false
    else if not (ltb ppa.blk sp.blks_per_pl)
    then false
    else if not (ltb ppa.pg sp.pgs_per_blk)
    then false
    else true

unfoldable pub valid_lpn : SsdParams → ℕ → Bool
valid_lpn sp lpn = ltb lpn sp.tt_pgs

unfoldable pub mapped_ppa : Ppa → Bool
unfolding ppa_bits
mapped_ppa ppa = not (ppa_bits ppa == unmapped_ppa)

-- The entry that init_maptbl writes: all 64 bits set.
abbrev pub the_unmapped : Ppa
the_unmapped = record { pg = 65535; blk = 65535; pl = 255; lun = 255; ch = 255; rsv = 255 }

unfoldable pub get_glun : SsdParams → Ppa → ℕ
get_glun sp ppa = (ppa.lun * sp.nchs + ppa.ch) % u32_mod

-- `h.blk_in_ssd`: the bits of the block, the plane, the LUN and the channel.
unfoldable pub blk_in_ssd : Ppa → ℕ
blk_in_ssd p = p.blk + p.pl * 2 ^ 16 + p.lun * 2 ^ 24 + p.ch * 2 ^ 32

unfoldable pub is_same_flash_page : SsdParams → Ppa → Ppa → Bool
is_same_flash_page sp ppa1 ppa2 =
    blk_in_ssd ppa1 == blk_in_ssd ppa2
    && ppa1.pg / sp.pgs_per_flashpg == ppa2.pg / sp.pgs_per_flashpg

unfoldable pub ppa2pgidx : SsdParams → Ppa → Run ℕ
ppa2pgidx sp ppa =
    let pgidx =
      (ppa.ch * sp.pgs_per_ch
        + ppa.lun * sp.pgs_per_lun
        + ppa.pl * sp.pgs_per_pl
        + ppa.blk * sp.pgs_per_blk
        + ppa.pg)
      % u64_mod in
    nvmev_assert (ltb pgidx sp.tt_pgs) >> ok pgidx

unfoldable pub get_maptbl_ent : ConvFtl → ℕ → Run Ppa
get_maptbl_ent f lpn = or_fault (get_elem? f.maptbl lpn) out_of_bounds

-- An array's entry written, if there is one.
abbrev pub store {ℓ} : {A : Type ℓ} → List A → ℕ → A → Run (List A)
store xs i v = or_fault (get_elem? xs i) out_of_bounds >>= λ old. ok (set xs i v)

unfoldable pub set_maptbl_ent : ConvFtl → ℕ → Ppa → Run ConvFtl
set_maptbl_ent f lpn ppa = do
  nvmev_assert (ltb lpn (spp f).tt_pgs)
  t ← store f.maptbl lpn ppa
  ok (record f { maptbl = t })

unfoldable pub get_rmap_ent : ConvFtl → Ppa → Run ℕ
get_rmap_ent f ppa = do
  pgidx ← ppa2pgidx (spp f) ppa
  or_fault (get_elem? f.rmap pgidx) out_of_bounds

unfoldable pub set_rmap_ent : ConvFtl → ℕ → Ppa → Run ConvFtl
set_rmap_ent f lpn ppa = do
  pgidx ← ppa2pgidx (spp f) ppa
  t ← store f.rmap pgidx lpn
  ok (record f { rmap = t })

-- Where the array of blocks has the block that get_blk finds; an index past the end of one of the
-- arrays on the way is a fault.
unfoldable pub blk_index : SsdParams → Ppa → Run ℕ
blk_index sp ppa =
    if ltb ppa.ch sp.nchs
      && ltb ppa.lun sp.luns_per_ch
      && ltb ppa.pl sp.pls_per_lun
      && ltb ppa.blk sp.blks_per_pl
    then ok
        (((ppa.ch * sp.luns_per_ch + ppa.lun) * sp.pls_per_lun + ppa.pl) * sp.blks_per_pl + ppa.blk)
    else fault out_of_bounds

unfoldable pub get_blk : ConvFtl → Ppa → Run NandBlock
get_blk f ppa = do i ← blk_index (spp f) ppa; or_fault (get_elem? f.blks i) out_of_bounds

-- The write through the pointer that get_blk returns.
unfoldable pub put_blk : ConvFtl → Ppa → NandBlock → Run ConvFtl
put_blk f ppa b = do i ← blk_index (spp f) ppa; t ← store f.blks i b; ok (record f { blks = t })

unfoldable pub get_pg : ConvFtl → Ppa → Run NandPage
unfolding get_blk
get_pg f ppa = do b ← get_blk f ppa; or_fault (get_elem? b.pg ppa.pg) out_of_bounds
