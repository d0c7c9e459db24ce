-- ===== src/Conv/Pointer.antt =====
-- conv_ftl.c: the write pointers, how they are set up and how they advance, and the pages they name.
pub mod Full
pub mod Rank
pub mod Counter
use nvmevirt_hybrid.Prelude.{
  ℕ, zero, suc, ◌+◌, ◌-◌, ◌*◌, ◌/◌, ◌%◌, Bool, ◌&&◌, not, Option, none, some, leb, ltb, ◌==◌,
  if◌then◌else◌, u32_mod,
}
use nvmevirt_hybrid.Prelude.Run.{
  Run, ok, fault, bug_on, null_dereference, ◌>>=◌, ◌>>◌, or_fault, nvmev_assert,
}
use nvmevirt_hybrid.Ssd.{SsdParams, Ppa}
use nvmevirt_hybrid.Conv.{
  ConvFtl, WritePointer, LineMgmt, Line, Pqueue, IoType, check_addr, spp, get_wp, put_wp, get_wp_da,
  put_wp_da, get_lunlm, put_lunlm,
}
use nvmevirt_hybrid.Conv.Address.{ppa_of}
use nvmevirt_hybrid.Conv.Lines.{get_next_free_line, get_next_free_line_da, line_at, retire_line}

-- `curline->id` for a pointer that get_next_free_line returned.
abbrev pub line_id : LineMgmt → Option ℕ → Run ℕ
line_id lm curline = or_fault curline null_dereference >>= λ i. line_at lm i >>= λ l. ok l.id

-- NVMEV_ASSERT(curline)
abbrev nonnull : Option ℕ → Run (Unit {0})
nonnull none = fault bug_on
nonnull (some i) = ok tt

unfoldable pub prepare_write_pointer : ConvFtl → IoType → Run ConvFtl
unfolding get_wp put_wp get_next_free_line line_at
prepare_write_pointer f io_type = do
  wp ← get_wp f io_type
  let (f1, curline) = get_next_free_line f
  nonnull curline
  id ← line_id f1.lm curline
  ok (put_wp f1 io_type (record { curline = curline; ch = 0; lun = 0; pg = 0; blk = id; pl = 0 }))

-- The loop of prepare_write_pointer_DA, for `n` LUNs from `lun` on.
unfoldable pub prepare_luns : ℕ → ℕ → ConvFtl → Run ConvFtl
unfolding get_next_free_line_da line_at
prepare_luns zero lun f = ok f
prepare_luns (suc n) lun f = do
  (f1, curline) ← get_next_free_line_da f lun
  nonnull curline
  lm ← get_lunlm f1 lun
  id ← line_id lm curline
  let wp : WritePointer = record {
    curline = curline;
    ch = lun % (spp f).nchs;
    lun = lun / (spp f).nchs;
    pg = 0;
    blk = id;
    pl = 0;
  }
  prepare_luns n (suc lun) (put_wp_da f1 lun wp)

unfoldable pub prepare_write_pointer_da : ConvFtl → Run ConvFtl
unfolding prepare_luns
prepare_write_pointer_da f = prepare_luns ((spp f).luns_per_ch * (spp f).nchs) 0 f

-- The hybrid build moves the page to a QLC channel and checks that it did.
unfoldable pub get_new_page : ConvFtl → IoType → Run Ppa
unfolding get_wp ppa_of
get_new_page f io_type = do
  wp ← get_wp f io_type
  let sp = spp f
  if sp.hybrid
      then (let ppa =
            ppa_of (sp.slc_channels + wp.ch % sp.qlc_channels) (wp.lun % sp.qlc_luns_per_ch) wp.pl
              wp.blk wp.pg in
          nvmev_assert (leb sp.slc_channels ppa.ch)
          >> (nvmev_assert (ltb ppa.ch (sp.slc_channels + sp.qlc_channels)) >> ok ppa))
      else ok (ppa_of wp.ch wp.lun wp.pl wp.blk wp.pg)

-- The hybrid build moves the page to an SLC channel.
unfoldable pub get_new_page_da : ConvFtl → Run Ppa
unfolding get_wp_da ppa_of
get_new_page_da f = do
  wp ← get_wp_da f f.lunpointer
  let sp = spp f
  let ppa =
      if sp.hybrid
      then ppa_of (wp.ch % sp.slc_channels) (wp.lun % sp.slc_luns_per_ch) wp.pl wp.blk wp.pg
      else ppa_of wp.ch wp.lun wp.pl wp.blk wp.pg
  if sp.hybrid then nvmev_assert (ltb ppa.ch sp.slc_channels) else ok tt
  nvmev_assert (ppa.pl == 0)
  ok ppa

-- advance_write_pointer_DA: the pages and blocks that a LUN has for it.
abbrev pub da_pgs_per_blk : SsdParams → ℕ
da_pgs_per_blk sp = if sp.hybrid then sp.slc_pgs_per_blk else sp.pgs_per_blk

abbrev pub da_blks_per_pl : SsdParams → ℕ
da_blks_per_pl sp = if sp.hybrid then sp.slc_blks_per_pl else sp.blks_per_pl

abbrev pub da_pgs_per_oneshotpg : SsdParams → ℕ
da_pgs_per_oneshotpg sp = if sp.hybrid then sp.slc_pgs_per_oneshotpg else sp.pgs_per_oneshotpg

abbrev pub da_luns : SsdParams → ℕ
da_luns sp = if sp.hybrid then sp.slc_channels * sp.slc_luns_per_ch else sp.nchs * sp.luns_per_ch

-- The next LUN in turn.
unfoldable pub next_lun : ConvFtl → ConvFtl
next_lun f =
    let glun = (f.lunpointer + 1) % u32_mod in
    if not (glun == da_luns (spp f))
    then record f { lunpointer = glun }
    else record f { lunpointer = 0 }

module _ (q : Pqueue) where
  -- advance_write_pointer at the end of the line: the tail from `wpp->pg = 0`
  unfoldable pub next_line : ConvFtl → IoType → WritePointer → Run ConvFtl
  unfolding check_addr put_wp retire_line get_next_free_line line_at
  next_line f io_type w = do
    i ← or_fault w.curline null_dereference
    lm ← retire_line q (spp f).pgs_per_line f.lm i
    check_addr w.blk (spp f).blks_per_pl
    let (f1, curline) = get_next_free_line (record f { lm = lm })
    id ← line_id f1.lm curline
    check_addr id (spp f).blks_per_pl
    nvmev_assert (w.pl == 0)
    ok (put_wp f1 io_type (record w { curline = curline; ch = 0; lun = 0; pg = 0; blk = id }))

  unfoldable pub advance_write_pointer : ConvFtl → IoType → Run ConvFtl
  unfolding get_wp put_wp check_addr next_line
  advance_write_pointer f io_type = do
    w ← get_wp f io_type
    let sp = spp f
    let pg = w.pg + 1
    check_addr w.pg sp.pgs_per_blk
    if not (pg % sp.pgs_per_oneshotpg == 0)
        then ok (put_wp f io_type (record w { pg = pg }))
        else (check_addr w.ch sp.nchs
            >> (if not (w.ch + 1 == sp.nchs)
                then ok
                    (put_wp f io_type (record w { pg = pg - sp.pgs_per_oneshotpg; ch = w.ch + 1 }))
                else (check_addr w.lun sp.luns_per_ch
                    >> (if not (w.lun + 1 == sp.luns_per_ch)
                        then ok (
                            put_wp f io_type (record w {
                              pg = pg - sp.pgs_per_oneshotpg;
                              ch = 0;
                              lun = w.lun + 1;
                            }))
                        else if not (pg == sp.pgs_per_blk)
                        then ok (put_wp f io_type (record w { pg = pg; ch = 0; lun = 0 }))
                        else next_line f io_type w))))

  unfoldable pub next_line_da : ConvFtl → WritePointer → Run ConvFtl
  unfolding check_addr retire_line get_next_free_line_da line_at
  next_line_da f w = do
    lm ← get_lunlm f f.lunpointer
    i ← or_fault w.curline null_dereference
    lm1 ← retire_line q (spp f).pgs_per_lun_line lm i
    check_addr w.blk (da_blks_per_pl (spp f))
    (f1, curline) ← get_next_free_line_da (put_lunlm f f.lunpointer lm1) f.lunpointer
    lm2 ← get_lunlm f1 f.lunpointer
    id ← line_id lm2 curline
    check_addr id (da_blks_per_pl (spp f))
    ok (put_wp_da f1 f.lunpointer (record w { curline = curline; pg = 0; blk = id }))

  unfoldable pub advance_write_pointer_da : ConvFtl → Run ConvFtl
  unfolding get_wp_da check_addr next_line_da next_lun
  advance_write_pointer_da f = do
    w ← get_wp_da f f.lunpointer
    let sp = spp f
    let pg = w.pg + 1
    check_addr w.pg (da_pgs_per_blk sp)
    if not (pg % da_pgs_per_oneshotpg sp == 0)
        then ok (put_wp_da f f.lunpointer (record w { pg = pg }))
        else if pg == da_pgs_per_blk sp
        then (next_line_da f w >>= λ f1. ok (next_lun f1))
        else ok (next_lun (put_wp_da f f.lunpointer (record w { pg = pg })))
