-- ===== src/Conv/Gc.antt =====
-- conv_ftl.c: garbage collection. The loops over channels, LUNs and pages count down from the numbers
-- of the parameters.
use nvmevirt_hybrid.Prelude.{
  ℕ, zero, suc, ◌+◌, ◌*◌, ◌%◌, Bool, true, false, not, none, some, ◌==◌, if◌then◌else◌, u32_mod,
}
use nvmevirt_hybrid.Prelude.Run.{Run, ok, ◌>>=◌, ◌>>◌, nvmev_assert}
use nvmevirt_hybrid.Ssd.{Ppa, NandOp, nand_read, nand_write, nand_erase, nand_nop, ssd_advance_nand}
use nvmevirt_hybrid.Conv.{ConvFtl, gc_io, Pqueue, u32_dec, spp, set_ssd}
use nvmevirt_hybrid.Conv.Address.{
  last_pg_in_wordline, valid_lpn, get_rmap_ent, set_maptbl_ent, set_rmap_ent, get_blk, get_pg,
}
use nvmevirt_hybrid.Conv.Lines.{line_at, mark_line_free, select_victim_line, should_gc_high}
use nvmevirt_hybrid.Conv.Pages.{is_free, is_valid, mark_page_valid, mark_block_free}
use nvmevirt_hybrid.Conv.Pointer.{get_new_page, advance_write_pointer}

abbrev pub put_refill : ConvFtl → ℕ → ConvFtl
put_refill f n = record f { wfc = record f.wfc { credits_to_refill = n } }

abbrev pub with_pg : Ppa → ℕ → Ppa
with_pg ppa pg = record ppa { pg = pg }

module _ (cpu_clock : ℕ → ℕ) (q : Pqueue) where
  -- A command of the garbage collection, if its time counts; the completion time is dropped.
  unfoldable pub gc_cmd : ConvFtl → NandOp → ℕ → Ppa → Run ConvFtl
  gc_cmd f op xfer_size ppa =
      if f.cp.enable_gc_delay
      then (ssd_advance_nand cpu_clock f.ssd (record {
        cmd = op;
        xfer_size = xfer_size;
        stime = 0;
        interleave_pci_dma = false;
        ppa = ppa;
      })
          >>= λ (ssd, t). ok (set_ssd f ssd))
      else ok f

  unfoldable pub gc_read_page : ConvFtl → Ppa → Run ConvFtl
  unfolding gc_cmd
  gc_read_page f ppa = gc_cmd f nand_read (spp f).pgsz ppa

  unfoldable pub gc_write_page : ConvFtl → Ppa → Run ConvFtl
  unfolding gc_cmd last_pg_in_wordline
  gc_write_page f old_ppa = do
    lpn ← get_rmap_ent f old_ppa
    nvmev_assert (valid_lpn (spp f) lpn)
    new_ppa ← get_new_page f gc_io
    f1 ← set_maptbl_ent f lpn new_ppa
    f2 ← set_rmap_ent f1 lpn new_ppa
    f3 ← mark_page_valid f2 new_ppa
    f4 ← advance_write_pointer q f3 gc_io
    if last_pg_in_wordline (spp f) new_ppa
        then gc_cmd f4 nand_write ((spp f).pgsz * (spp f).pgs_per_oneshotpg) new_ppa
        else gc_cmd f4 nand_nop 0 new_ppa

  -- clean_one_block, from page `pg` on with `n` pages to go: the number of valid pages.
  unfoldable pub clean_pages : ℕ → ℕ → ConvFtl → Ppa → Run (ConvFtl × ℕ)
  unfolding gc_read_page gc_write_page
  clean_pages zero pg f ppa = ok (f, 0)
  clean_pages (suc n) pg f ppa = do
    p ← get_pg f (with_pg ppa pg)
    nvmev_assert (not (is_free p))
    f1 ←
        if is_valid p
        then (gc_read_page f (with_pg ppa pg) >>= λ g. gc_write_page g (with_pg ppa pg))
        else ok f
    (f2, cnt) ← clean_pages n (suc pg) f1 ppa
    ok (f2, if is_valid p then cnt + 1 else cnt)

  unfoldable pub clean_one_block : ConvFtl → Ppa → Run ConvFtl
  unfolding clean_pages
  clean_one_block f ppa = do
    (f1, cnt) ← clean_pages (spp f).pgs_per_blk 0 f ppa
    b ← get_blk f1 ppa
    nvmev_assert (b.vpc == cnt)
    ok f1

  -- The first loop of clean_one_flashpg counts the valid pages.
  unfoldable pub count_valid : ℕ → ConvFtl → Ppa → Run ℕ
  count_valid zero f ppa = ok 0
  count_valid (suc n) f ppa = do
    p ← get_pg f ppa
    nvmev_assert (not (is_free p))
    cnt ← count_valid n f (with_pg ppa ((ppa.pg + 1) % 65536))
    ok (if is_valid p then cnt + 1 else cnt)

  -- The second one moves them.
  unfoldable pub move_valid : ℕ → ConvFtl → Ppa → Run ConvFtl
  unfolding gc_write_page
  move_valid zero f ppa = ok f
  move_valid (suc n) f ppa = do
    p ← get_pg f ppa
    f1 ← if is_valid p then gc_write_page f ppa else ok f
    move_valid n f1 (with_pg ppa ((ppa.pg + 1) % 65536))

  unfoldable pub clean_one_flashpg : ConvFtl → Ppa → Run ConvFtl
  unfolding count_valid move_valid gc_cmd
  clean_one_flashpg f ppa = do
    cnt ← count_valid (spp f).pgs_per_flashpg f ppa
    if cnt == 0
        then ok f
        else (gc_cmd f nand_read ((spp f).pgsz * cnt) ppa >>= λ f1.
            move_valid (spp f).pgs_per_flashpg f1 ppa)

  -- The innermost body of do_gc.
  unfoldable pub gc_lun : ConvFtl → ℕ → Ppa → Run ConvFtl
  unfolding clean_one_flashpg gc_cmd
  gc_lun f flashpg ppa = do
    f1 ← clean_one_flashpg f ppa
    if flashpg + 1 == (spp f).flashpgs_per_blk
        then (mark_block_free f1 ppa >>= λ f2. gc_cmd f2 nand_erase 0 ppa)
        else ok f1

  unfoldable pub gc_luns : ℕ → ℕ → ConvFtl → ℕ → Ppa → Run ConvFtl
  unfolding gc_lun
  gc_luns zero lun f flashpg ppa = ok f
  gc_luns (suc n) lun f flashpg ppa = do
    f1 ← gc_lun f flashpg (record ppa { lun = lun; pl = 0 })
    gc_luns n (suc lun) f1 flashpg ppa

  unfoldable pub gc_chs : ℕ → ℕ → ConvFtl → ℕ → Ppa → Run ConvFtl
  unfolding gc_luns
  gc_chs zero ch f flashpg ppa = ok f
  gc_chs (suc n) ch f flashpg ppa = do
    f1 ← gc_luns (spp f).luns_per_ch 0 f flashpg (record ppa { ch = ch })
    gc_chs n (suc ch) f1 flashpg ppa

  -- `g.pg` has 16 bits.
  unfoldable pub gc_flashpgs : ℕ → ℕ → ConvFtl → Ppa → Run ConvFtl
  unfolding gc_chs
  gc_flashpgs zero flashpg f ppa = ok f
  gc_flashpgs (suc n) flashpg f ppa = do
    f1 ← gc_chs (spp f).nchs 0 f flashpg (with_pg ppa ((flashpg * (spp f).pgs_per_flashpg) % 65536))
    gc_flashpgs n (suc flashpg) f1 ppa

module _ (cpu_clock : ℕ → ℕ) (q : Pqueue) (stack_rsv : ℕ) where
  -- The flag is true for the result 0 and false for -1. `stack_rsv` is what the field `rsv` of the
  -- code's local `ppa`, which nothing writes, holds; `gc_endtime` is written here and read nowhere.
  unfoldable pub do_gc : ConvFtl → Bool → Run (ConvFtl × Bool)
  unfolding gc_flashpgs line_at
  do_gc f force = select_victim_line q f force >>= λ (f1, victim). elim victim [
    | none ↦ ok (f1, false)
    | some i ↦ do
      l ← line_at f1.lm i
      let ppa : Ppa = record {
        pg = 0;
        blk = l.id % 65536;
        pl = 0;
        lun = 0;
        ch = 0;
        rsv = stack_rsv;
      }
      f2 ← gc_flashpgs cpu_clock q (spp f).flashpgs_per_blk 0 (put_refill f1 l.ipc) ppa
      f3 ← mark_line_free f2 ppa
      ok (f3, true)
  ]

  unfoldable pub forground_gc : ConvFtl → Run ConvFtl
  unfolding do_gc should_gc_high
  forground_gc f = if should_gc_high f then (do_gc f true >>= λ (f1, done). ok f1) else ok f

  -- `write_credits` is unsigned: `<= 0` is `== 0`.
  unfoldable pub check_and_refill_write_credit : ConvFtl → Run ConvFtl
  unfolding forground_gc
  check_and_refill_write_credit f =
      if f.wfc.write_credits == 0
      then (forground_gc f >>= λ f1. ok (record f1 {
        wfc = record f1.wfc {
          write_credits = (f1.wfc.write_credits + f1.wfc.credits_to_refill) % u32_mod;
        };
      }))
      else ok f

-- Nothing calls it.
unfoldable pub consume_write_credit : ConvFtl → ConvFtl
consume_write_credit f = record f {
  wfc = record f.wfc { write_credits = u32_dec f.wfc.write_credits };
}
