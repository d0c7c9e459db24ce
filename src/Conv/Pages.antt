-- ===== src/Conv/Pages.antt =====
-- conv_ftl.c: the states of the pages and the counts of their blocks; ssd.c: the blocks' set-up.
pub mod Accounts
use nvmevirt_hybrid.Prelude.{
  ℕ, zero, suc, ◌+◌, ◌-◌, ◌*◌, ◌<◌, Bool, true, false, ◌&&◌, List, [], ◌∷◌, get_elem?, set, ltb,
  leb, ◌==◌, if◌then◌else◌, replicate,
}
use nvmevirt_hybrid.Prelude.Run.{Run, ok, fault, out_of_bounds, ◌>>=◌, ◌>>◌, or_fault, nvmev_assert}
use nvmevirt_hybrid.Ssd.{SsdParams, Ppa}
use nvmevirt_hybrid.Conv.{
  ConvFtl, NandPage, NandBlock, sec_free, PageStatus, pg_free, pg_invalid, pg_valid, LineMgmt,
  Pqueue, spp, get_lunlm, put_lunlm,
}
use nvmevirt_hybrid.Conv.Address.{get_glun, get_blk, put_blk}
use nvmevirt_hybrid.Conv.Lines.{line_page_valid, line_page_invalid}

abbrev pub is_valid : NandPage → Bool
is_valid p = elim p.status [ pg_valid ↦ true | _ ↦ false ]

abbrev pub is_invalid : NandPage → Bool
is_invalid p = elim p.status [ pg_invalid ↦ true | _ ↦ false ]

abbrev pub is_free : NandPage → Bool
is_free p = elim p.status [ pg_free ↦ true | _ ↦ false ]

unfoldable pub ssd_init_nand_page : SsdParams → NandPage
ssd_init_nand_page sp = record {
  sec = replicate sp.secs_per_pg sec_free;
  nsecs = sp.secs_per_pg;
  status = pg_free;
}

unfoldable pub ssd_init_nand_blk : SsdParams → NandBlock
unfolding ssd_init_nand_page
ssd_init_nand_blk sp = record {
  pg = replicate sp.pgs_per_blk (ssd_init_nand_page sp);
  npgs = sp.pgs_per_blk;
  ipc = 0;
  vpc = 0;
  erase_cnt = 0;
  wp = 0;
}

-- ssd_init_nand_plane and the loops over planes, LUNs and channels above it.
unfoldable pub init_blks : SsdParams → List NandBlock
unfolding ssd_init_nand_blk
init_blks sp =
    replicate (sp.nchs * sp.luns_per_ch * sp.pls_per_lun * sp.blks_per_pl) (ssd_init_nand_blk sp)

-- mark_page_valid and mark_page_invalid: the page and its block.
unfoldable pub blk_page_valid : SsdParams → NandBlock → ℕ → Run NandBlock
blk_page_valid sp b i = do
  p ← or_fault (get_elem? b.pg i) out_of_bounds
  nvmev_assert (is_free p)
  nvmev_assert (ltb b.vpc sp.pgs_per_blk)
  ok (record b { pg = set b.pg i (record p { status = pg_valid }); vpc = b.vpc + 1 })

unfoldable pub blk_page_invalid : SsdParams → NandBlock → ℕ → Run NandBlock
blk_page_invalid sp b i = do
  p ← or_fault (get_elem? b.pg i) out_of_bounds
  nvmev_assert (is_valid p)
  nvmev_assert (ltb b.ipc sp.pgs_per_blk)
  nvmev_assert (ltb 0 b.vpc && leb b.vpc sp.pgs_per_blk)
  ok (record b {
    pg = set b.pg i (record p { status = pg_invalid });
    ipc = b.ipc + 1;
    vpc = b.vpc - 1;
  })

-- The loop of mark_block_free: the first `n` pages.
unfoldable pub free_pages : SsdParams → ℕ → List NandPage → Run (List NandPage)
free_pages sp zero ps = ok ps
free_pages sp (suc n) [] = fault out_of_bounds
free_pages sp (suc n) (p ∷ ps) = do
  nvmev_assert (p.nsecs == sp.secs_per_pg)
  rest ← free_pages sp n ps
  ok (record p { status = pg_free } ∷ rest)

unfoldable pub blk_free : SsdParams → NandBlock → Run NandBlock
unfolding free_pages
blk_free sp b = do
  ps ← free_pages sp sp.pgs_per_blk b.pg
  nvmev_assert (b.npgs == sp.pgs_per_blk)
  ok (record b { pg = ps; ipc = 0; vpc = 0; erase_cnt = b.erase_cnt + 1 })

unfoldable pub mark_block_free : ConvFtl → Ppa → Run ConvFtl
unfolding get_blk put_blk blk_free
mark_block_free f ppa = do b ← get_blk f ppa; b1 ← blk_free (spp f) b; put_blk f ppa b1

unfoldable pub mark_page_valid : ConvFtl → Ppa → Run ConvFtl
unfolding get_blk put_blk blk_page_valid get_glun line_page_valid
mark_page_valid f ppa = do
  b ← get_blk f ppa
  b1 ← blk_page_valid (spp f) b ppa.pg
  f1 ← put_blk f ppa b1
  lm ← line_page_valid (spp f) f.lm ppa.blk
  lunlm ← get_lunlm f (get_glun (spp f) ppa)
  lunlm1 ← line_page_valid (spp f) lunlm ppa.blk
  ok (put_lunlm (record f1 { lm = lm }) (get_glun (spp f) ppa) lunlm1)

module _ (q : Pqueue) where
  unfoldable pub mark_page_invalid : ConvFtl → Ppa → Run ConvFtl
  unfolding get_blk put_blk blk_page_invalid get_glun line_page_invalid
  mark_page_invalid f ppa = do
    b ← get_blk f ppa
    b1 ← blk_page_invalid (spp f) b ppa.pg
    f1 ← put_blk f ppa b1
    lm ← line_page_invalid q (spp f) f.lm ppa.blk
    lunlm ← get_lunlm f (get_glun (spp f) ppa)
    lunlm1 ← line_page_invalid q (spp f) lunlm ppa.blk
    ok (put_lunlm (record f1 { lm = lm }) (get_glun (spp f) ppa) lunlm1)
