-- ===== src/Conv/Io/Write/Total.antt =====
-- conv_ftl.c: the loop of conv_write, in the builds that are not hybrid.
use nvmevirt_hybrid.Prelude.{
  ℕ, ◌+◌, ◌<◌, ◌≡◌, refl, sym, ap, ◌∙◌, arith, true, false, length-set, set, Bool, if◌then◌else◌,
  if_false,
}
use nvmevirt_hybrid.Prelude.Run.{Run, ok, ◌>>=◌}
use nvmevirt_hybrid.Ssd.{
  Ssd, SsdParams, NandCmd, nand_write, ssd_advance_nand, ssd_advance_write_buffer,
}
use nvmevirt_hybrid.Ssd.Device.{IsDevice, ssd_advance_write_buffer_total}
use nvmevirt_hybrid.Ssd.Advance.{ssd_advance_nand_total}
use nvmevirt_hybrid.Conv.{ConvFtl, WritePointer, Pqueue, user_io, spp, set_ssd, put_wp, get_wp}
use nvmevirt_hybrid.Conv.Address.Laws.{
  IsConvGeometry, InRange, pgidx, HasTables, mapped_to, set_maptbl-ok, set_rmap-ok,
}
use nvmevirt_hybrid.Conv.Pointer.{advance_write_pointer, advance_write_pointer_da}
use nvmevirt_hybrid.Conv.Pointer.Rank.{rank, IsNext}
use nvmevirt_hybrid.Conv.Pointer.Counter.{advance-IsNext}
use nvmevirt_hybrid.Conv.Io.Write.{write_lpn}
use nvmevirt_hybrid.Conv.Io.Write.Step.{
  CanWrite, page_of, page_of-InRange, write_page_of-page_of, refill-ok, same-IsMapped, IsWritten,
}

-- The command for the page of `w`.
abbrev pub write_cmd_of : ConvFtl → WritePointer → ℕ → NandCmd
write_cmd_of f w stime = record {
  cmd = nand_write;
  xfer_size = (spp f).pgsz;
  stime = stime;
  interleave_pci_dma = true;
  ppa = page_of w;
}

-- `s2` is the device that the two timing calls leave.
module _ (f : ConvFtl) (w : WritePointer) (lpn : ℕ) (s2 : Ssd) (c : CanWrite f w)
    (h : lpn < (spp f).tt_pgs) (e : s2.sp ≡ f.ssd.sp) where
  tables-s2 : HasTables (set_ssd f s2)
  tables-s2 = record {
    maptbl_len = c.tables.maptbl_len ∙ ap (λ (s : SsdParams). s.tt_pgs) (sym e);
    rmap_len = c.tables.rmap_len ∙ ap (λ (s : SsdParams). s.tt_pgs) (sym e);
  }

  geometry-s2 : IsConvGeometry s2.sp
  geometry-s2 = rw e c.geometry

  abbrev after : ConvFtl
  after = mapped_to (set_ssd f s2) lpn (page_of w)

  after-IsWritten :
      (v : WritePointer)
      → IsDevice s2
      → IsNext (spp f) w v
      → IsWritten f w (put_wp after user_io v) lpn v
  unfolding put_wp
  after-IsWritten v device next =
      let next1 : IsNext s2.sp w v = rw e next in
      (
        same-IsMapped f w c (put_wp after user_io v) lpn h refl
            (ap (λ (s : SsdParams). set f.rmap (pgidx s (page_of w)) lpn) e) e,
        (
          record {
            plain = ap (λ (s : SsdParams). s.hybrid) e ∙ c.plain;
            geometry = geometry-s2;
            line = rw e c.line;
            fits = rw e c.fits;
            tables = record {
              maptbl_len = length-set f.maptbl lpn (page_of w) ∙ tables-s2.maptbl_len;
              rmap_len = length-set f.rmap (pgidx s2.sp (page_of w)) lpn ∙ tables-s2.rmap_len;
            };
            device = device;
            at = refl;
            in_line = next1.0;
            blk_in = omega (arith, next.2.1, c.blk_in, ap (λ (s : SsdParams). s.blks_per_pl) e);
            pl_in = omega (arith, next.2.2, c.pl_in, ap (λ (s : SsdParams). s.pls_per_lun) e);
            credits = c.credits;
          },
          (next, (e, refl)),
        ),
      )

  module _ (cpu_clock : ℕ → ℕ) (q : Pqueue) (stack_rsv : ℕ) (stack_dma : Bool) where
    pub write_lpn-runs :
        (completed_time t1 t2 : ℕ) (s1 : Ssd)
        → ssd_advance_nand cpu_clock f.ssd (write_cmd_of f w completed_time) ≡ ok (s1, t1)
        → ssd_advance_write_buffer cpu_clock s1 t1 (spp f).pgsz ≡ ok (s2, t2)
        → write_lpn cpu_clock q stack_rsv stack_dma f lpn completed_time
          ≡ (advance_write_pointer q after user_io >>= λ f5. ok (f5, t2))
    unfolding write_lpn
    write_lpn-runs completed_time t1 t2 s1 runs1 runs2 =
        let r1 : InRange s2.sp (page_of w) = rw e (page_of-InRange f w c) in
        let h1 : lpn < s2.sp.tt_pgs = rw e h in
        rw
          (
            refill-ok f w c cpu_clock q stack_rsv,
            write_page_of-page_of f w c cpu_clock q stack_rsv stack_dma lpn,
            runs1,
            runs2,
            set_maptbl-ok (set_ssd f s2) geometry-s2 tables-s2 lpn (page_of w) h1,
            set_rmap-ok (set_ssd f s2) geometry-s2 tables-s2 (set f.maptbl lpn (page_of w)) lpn
                (page_of w) r1,
            plain_advance after (ap (λ (s : SsdParams). s.hybrid) e ∙ c.plain),
          )
          refl
      where
        plain_advance :
            (y : ConvFtl)
            → (spp y).hybrid ≡ false
            → (if (spp y).hybrid
                then advance_write_pointer_da q y
                else advance_write_pointer q y user_io)
              ≡ advance_write_pointer q y user_io
        plain_advance y p = if_false (spp y).hybrid _ _ p

pub get_wp-user : (f : ConvFtl) (w : WritePointer) → f.wp ≡ w → get_wp f user_io ≡ ok w
unfolding get_wp
get_wp-user f w h = ap ok h

module _ (cpu_clock : ℕ → ℕ) (q : Pqueue) (stack_rsv : ℕ) (stack_dma : Bool) where
  pub write_lpn-IsWritten :
      (f : ConvFtl) (w : WritePointer) (lpn completed_time : ℕ)
      → CanWrite f w
      → lpn < (spp f).tt_pgs
      → rank (spp f) w + 1 < (spp f).pgs_per_line
      → (y : ConvFtl) × (t : ℕ) × (v : WritePointer) × (write_lpn cpu_clock q stack_rsv stack_dma f
            lpn completed_time
          ≡ ok (y, t))
        × IsWritten f w y lpn v
  write_lpn-IsWritten f w lpn completed_time c h more =
      let r = page_of-InRange f w c in
      let (s1, t1, runs1, k1) =
        ssd_advance_nand_total cpu_clock f.ssd (write_cmd_of f w completed_time) c.device
          (r.ch_in, r.lun_in) tt in
      let (s2, t2, runs2, k2) =
        ssd_advance_write_buffer_total cpu_clock s1 t1 (spp f).pgsz k1.device in
      let e : s2.sp ≡ f.ssd.sp = k2.same_sp ∙ k1.same_sp in
      let m = mapped_to (set_ssd f s2) lpn (page_of w) in
      let (v, runs3, next) =
        advance-IsNext q m user_io w (spp f) e c.line (get_wp-user m w c.at) c.in_line more in
      (
        put_wp m user_io v,
        t2,
        v,
        write_lpn-runs f w lpn s2 c h e cpu_clock q stack_rsv stack_dma completed_time t1 t2 s1
              runs1 runs2
            ∙ ap (λ (r : Run ConvFtl). r >>= λ f5. ok (f5, t2)) runs3,
        after-IsWritten f w lpn s2 c h e v k2.device next,
      )
