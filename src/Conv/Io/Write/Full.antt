-- ===== src/Conv/Io/Write/Full.antt =====
-- conv_ftl.c: conv_write at the end of a line, in the builds that are not hybrid.
use nvmevirt_hybrid.Prelude.{ℕ, ◌+◌, ◌<◌, ◌≤◌, ◌≡◌, refl, sym, ap, ◌∙◌, arith, get_elem?, Bool}
use nvmevirt_hybrid.Prelude.Run.{Run, ok, fault, bug_on, ◌>>=◌}
use nvmevirt_hybrid.Ssd.{SsdParams}
use nvmevirt_hybrid.Ssd.Device.{ssd_advance_write_buffer_total}
use nvmevirt_hybrid.Ssd.Advance.{ssd_advance_nand_total}
use nvmevirt_hybrid.Conv.{ConvFtl, WritePointer, LineMgmt, Pqueue, user_io, spp, set_ssd}
use nvmevirt_hybrid.Conv.Address.Laws.{mapped_to}
use nvmevirt_hybrid.Conv.Pointer.Rank.{rank, SameLine}
use nvmevirt_hybrid.Conv.Pointer.Full.{IsUnmarked, advance-unmarked}
use nvmevirt_hybrid.Conv.Io.Write.{write_lpn, write_lpns}
use nvmevirt_hybrid.Conv.Io.Write.Step.{CanWrite, page_of, page_of-InRange}
use nvmevirt_hybrid.Conv.Io.Write.Total.{write_cmd_of, write_lpn-runs, get_wp-user}
use nvmevirt_hybrid.Conv.Io.Write.Loop.{write_lpns-AreWritten}

module _ (cpu_clock : ℕ → ℕ) (q : Pqueue) (stack_rsv : ℕ) (stack_dma : Bool) where
  write_lpn-full :
      (f : ConvFtl) (w : WritePointer) (lpn completed_time : ℕ)
      → CanWrite f w
      → lpn < (spp f).tt_pgs
      → rank (spp f) w + 1 ≡ (spp f).pgs_per_line
      → IsUnmarked f.lm w
      → write_lpn cpu_clock q stack_rsv stack_dma f lpn completed_time ≡ fault bug_on
  write_lpn-full f w lpn completed_time c h last unmarked =
      let r = page_of-InRange f w c in
      let (s1, t1, runs1, k1) =
        ssd_advance_nand_total cpu_clock f.ssd (write_cmd_of f w completed_time) c.device
          (r.ch_in, r.lun_in) tt in
      let (s2, t2, runs2, k2) =
        ssd_advance_write_buffer_total cpu_clock s1 t1 (spp f).pgsz k1.device in
      let e : s2.sp ≡ f.ssd.sp = k2.same_sp ∙ k1.same_sp in
      let m = mapped_to (set_ssd f s2) lpn (page_of w) in
      write_lpn-runs f w lpn s2 c h e cpu_clock q stack_rsv stack_dma completed_time t1 t2 s1 runs1
        runs2
      ∙ ap (λ (r : Run ConvFtl). r >>= λ f5. ok (f5, t2))
          (advance-unmarked q m user_io w (spp f) e c.line (get_wp-user m w c.at) c.in_line last
            unmarked)

  next_round-full :
      (f y : ConvFtl) (w v : WritePointer) (l t' : ℕ)
      → y.ssd.sp ≡ f.ssd.sp
      → CanWrite y v
      → y.lm ≡ f.lm
      → SameLine v w
      → rank (spp f) v + 1 ≡ (spp f).pgs_per_line
      → IsUnmarked f.lm w
      → l < (spp f).tt_pgs
      → write_lpn cpu_clock q stack_rsv stack_dma y l t' ≡ fault bug_on
  next_round-full f y w v l t' e can lines (line, blk, pl) last
        (i, ln, cur, there, no_valid, no_invalid) below =
      write_lpn-full y v l t' can (omega (arith, below, ap (λ (s : SsdParams). s.tt_pgs) e))
        (ap (λ (s : SsdParams). rank s v + 1) e
          ∙ last
          ∙ ap (λ (s : SsdParams). s.pgs_per_line) (sym e))
        (
          i,
          ln,
          line ∙ cur,
          ap (λ (lm : LineMgmt). get_elem? lm.lines i) lines ∙ there,
          no_valid,
          no_invalid,
        )

  -- In a build that is not hybrid, with the user's write pointer on a page of a line none of whose
  -- pages was marked valid or invalid, with tables and a device in order, and with write credits left,
  -- the loop of conv_write returns for as many logical pages as the line has room for but one, and
  -- then the next round for any logical page below the number of pages trips an assertion:
  -- conv_write does not mark the pages that it writes as valid, and at the end of the line
  -- advance_write_pointer asserts that some page of the line is valid or invalid.
  pub write_lpns-full :
      (n : ℕ) (f : ConvFtl) (w : WritePointer) (lpn completed_time l t' : ℕ)
      → CanWrite f w
      → lpn + n ≤ (spp f).tt_pgs
      → rank (spp f) w + n + 1 ≡ (spp f).pgs_per_line
      → IsUnmarked f.lm w
      → l < (spp f).tt_pgs
      → (y : ConvFtl) × (t : ℕ) × (write_lpns cpu_clock q stack_rsv stack_dma n f lpn completed_time
          ≡ ok (y, t))
        × (write_lpn cpu_clock q stack_rsv stack_dma y l t' ≡ fault bug_on)
  write_lpns-full n f w lpn completed_time l t' c h last unmarked below =
      let (y, t, v, runs, written, can, ranked, lines, same, params) =
        write_lpns-AreWritten cpu_clock q stack_rsv stack_dma f.ssd.sp n f w lpn completed_time refl
          c h (omega (arith, last)) in
      (
        y,
        t,
        runs,
        next_round-full f y w v l t' params can lines same (omega (arith, ranked, last)) unmarked
            below,
      )
