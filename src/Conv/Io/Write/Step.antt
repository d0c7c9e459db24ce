-- ===== src/Conv/Io/Write/Step.antt =====
-- conv_ftl.c: one round of the loop of conv_write, in the builds that are not hybrid.
use nvmevirt_hybrid.Prelude.{
  ℕ, ◌<◌, ◌≤◌, ◌≡◌, ◌≢◌, refl, sym, ap, ◌∙◌, arith, false, length, set, Bool, ==-false,
}
use nvmevirt_hybrid.Prelude.Run.{ok}
use nvmevirt_hybrid.Prelude.Div.{mod_small}
use nvmevirt_hybrid.Ssd.{SsdParams, Ppa}
use nvmevirt_hybrid.Ssd.Device.{IsDevice}
use nvmevirt_hybrid.Conv.{ConvFtl, WritePointer, Pqueue, user_io, spp, get_wp}
use nvmevirt_hybrid.Conv.Address.{ppa_of, get_maptbl_ent, get_rmap_ent}
use nvmevirt_hybrid.Conv.Address.Laws.{
  IsConvGeometry, InRange, pgidx, HasTables, IsMapped, mapped_to-IsMapped,
}
use nvmevirt_hybrid.Conv.Pointer.{get_new_page}
use nvmevirt_hybrid.Conv.Pointer.Rank.{IsLineGeometry, InLine, IsNext}
use nvmevirt_hybrid.Conv.Gc.{check_and_refill_write_credit}
use nvmevirt_hybrid.Conv.Io.Write.{write_page_of}

-- The coordinates of a page fit the bit fields.
pub record FitsPpa (sp : SsdParams) : Type 0 where
  pub chs : sp.nchs ≤ 256
  pub luns : sp.luns_per_ch ≤ 256
  pub pls : sp.pls_per_lun ≤ 256
  pub blks : sp.blks_per_pl ≤ 65536
  pub pgs : sp.pgs_per_blk ≤ 65536

-- The user's write pointer is `w`, on a page of the device, and a write need not collect garbage first.
pub record CanWrite (f : ConvFtl) (w : WritePointer) : Type 0 where
  pub plain : (spp f).hybrid ≡ false
  pub geometry : IsConvGeometry (spp f)
  pub line : IsLineGeometry (spp f)
  pub fits : FitsPpa (spp f)
  pub tables : HasTables f
  pub device : IsDevice f.ssd
  pub at : f.wp ≡ w
  pub in_line : InLine (spp f) w
  pub blk_in : w.blk < (spp f).blks_per_pl
  pub pl_in : w.pl < (spp f).pls_per_lun
  pub credits : f.wfc.write_credits ≢ 0

-- The page that the write pointer names.
abbrev pub page_of : WritePointer → Ppa
page_of w = record { pg = w.pg; blk = w.blk; pl = w.pl; lun = w.lun; ch = w.ch; rsv = 0 }

-- `y` is `f` after one round: the page of `w` is mapped, the pointer is on the next page, and the lines
-- are as they were.
abbrev pub IsWritten : ConvFtl → WritePointer → ConvFtl → ℕ → WritePointer → Type 0
IsWritten f w y lpn v =
    IsMapped f y lpn (page_of w)
    × (CanWrite y v × (IsNext (spp f) w v × ((y.ssd.sp ≡ f.ssd.sp) × (y.lm ≡ f.lm))))

module _ (f : ConvFtl) (w : WritePointer) (c : CanWrite f w) where
  pub page_of-InRange : InRange (spp f) (page_of w)
  page_of-InRange = record {
    ch_in = c.in_line.ch_in;
    lun_in = c.in_line.lun_in;
    pl_in = c.pl_in;
    blk_in = c.blk_in;
    pg_in = c.in_line.pg_in;
  }

  ppa_of-page_of : ppa_of w.ch w.lun w.pl w.blk w.pg ≡ page_of w
  unfolding ppa_of
  ppa_of-page_of =
      rw
        (
          mod_small w.pg 65536 (omega (arith, c.in_line.pg_in, c.fits.pgs)),
          mod_small w.blk 65536 (omega (arith, c.blk_in, c.fits.blks)),
          mod_small w.pl 256 (omega (arith, c.pl_in, c.fits.pls)),
          mod_small w.lun 256 (omega (arith, c.in_line.lun_in, c.fits.luns)),
          mod_small w.ch 256 (omega (arith, c.in_line.ch_in, c.fits.chs)),
        )
        refl

  pub get_new_page-page_of : get_new_page f user_io ≡ ok (page_of w)
  unfolding get_new_page get_wp
  get_new_page-page_of = rw (c.plain, c.at) (ap ok ppa_of-page_of)

  pub write_page_of-page_of :
      (cpu_clock : ℕ → ℕ) (q : Pqueue) (stack_rsv : ℕ) (stack_dma : Bool) (lpn : ℕ)
      → write_page_of cpu_clock q stack_rsv stack_dma f lpn ≡ ok (f, page_of w)
  unfolding write_page_of
  write_page_of-page_of cpu_clock q stack_rsv stack_dma lpn =
      rw (get_new_page-page_of, c.plain) refl

  pub refill-ok :
      (cpu_clock : ℕ → ℕ) (q : Pqueue) (stack_rsv : ℕ)
      → check_and_refill_write_credit cpu_clock q stack_rsv f ≡ ok f
  unfolding check_and_refill_write_credit
  refill-ok cpu_clock q stack_rsv = rw (==-false f.wfc.write_credits 0 c.credits) refl

  -- What the tables of `y` are decides whether it is `f` with one page mapped.
  pub same-IsMapped :
      (y : ConvFtl) (lpn : ℕ)
      → lpn < (spp f).tt_pgs
      → y.maptbl ≡ set f.maptbl lpn (page_of w)
      → y.rmap ≡ set f.rmap (pgidx (spp f) (page_of w)) lpn
      → y.ssd.sp ≡ f.ssd.sp
      → IsMapped f y lpn (page_of w)
  unfolding get_maptbl_ent get_rmap_ent
  same-IsMapped y lpn h em er es =
      let m = mapped_to-IsMapped f c.geometry c.tables lpn (page_of w) h page_of-InRange in
      record {
        tables = record {
          maptbl_len =
              ap length em ∙ m.tables.maptbl_len ∙ ap (λ (s : SsdParams). s.tt_pgs) (sym es);
          rmap_len = ap length er ∙ m.tables.rmap_len ∙ ap (λ (s : SsdParams). s.tt_pgs) (sym es);
        };
        forward = rw em m.forward;
        back = rw (es, er) m.back;
        other_lpns = λ l ne. rw em (m.other_lpns l ne);
        other_ppas = λ p r rsv ne. rw (es, er) (m.other_ppas p r rsv ne);
      }
