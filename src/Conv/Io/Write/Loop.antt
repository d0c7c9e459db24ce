-- ===== src/Conv/Io/Write/Loop.antt =====
-- conv_ftl.c: all rounds of the loop of conv_write, in the builds that are not hybrid.
use nvmevirt_hybrid.Prelude.{
  ℕ, zero, suc, ◌+◌, ◌*◌, ◌/◌, ◌%◌, ◌<◌, ◌≤◌, ◌≡◌, ◌≢◌, refl, ap, ◌∙◌, arith, ◌⊎◌, inl, inr,
  u64_mod, Bool,
}
use nvmevirt_hybrid.Prelude.Run.{ok}
use nvmevirt_hybrid.Ssd.{SsdParams, Ppa}
use nvmevirt_hybrid.Conv.{ConvFtl, WritePointer, Pqueue}
use nvmevirt_hybrid.Conv.Address.{get_maptbl_ent, get_rmap_ent}
use nvmevirt_hybrid.Conv.Address.Laws.{InRange}
use nvmevirt_hybrid.Conv.Pointer.Rank.{InLine, rank, IsNext, SameLine}
use nvmevirt_hybrid.Conv.Io.Write.{write_lpn, write_lpns}
use nvmevirt_hybrid.Conv.Io.Write.Maps.{Linked}
use nvmevirt_hybrid.Conv.Io.Write.Step.{CanWrite, page_of, page_of-InRange, IsWritten}
use nvmevirt_hybrid.Conv.Io.Write.Total.{write_lpn-IsWritten}

-- None of the pages of the line from `w` on is `p`.
abbrev pub IsBehind : SsdParams → WritePointer → Ppa → Type 0
IsBehind sp w p =
    (u : WritePointer)
    → InLine sp u
    → rank sp w ≤ rank sp u
    → u.blk ≡ w.blk
    → u.pl ≡ w.pl
    → p ≢ page_of u

-- `y` is `f` after `n` rounds from `lpn` on: each of those logical pages and a page of the device in
-- range stand for each other. All other logical pages are mapped as before, and all pages that are not
-- in the line from `w` on are mapped back as before.
pub record AreWritten (sp : SsdParams) (f : ConvFtl) (w : WritePointer) (n lpn : ℕ) (y : ConvFtl)
    : Type 0 where
  pub linked : (i : ℕ) → i < n → (p : Ppa) × InRange sp p × Linked y (lpn + i) p
  pub other_lpns : (l : ℕ) → (l < lpn) ⊎ (lpn + n ≤ l) → get_maptbl_ent y l ≡ get_maptbl_ent f l
  pub other_ppas :
      (p : Ppa) → InRange sp p → p.rsv ≡ 0 → IsBehind sp w p → get_rmap_ent y p ≡ get_rmap_ent f p

page_of-rank : (sp : SsdParams) (w u : WritePointer) → page_of w ≡ page_of u → rank sp w ≡ rank sp u
page_of-rank sp w u e =
    ap
      (λ (p : Ppa).
        (((p.pg / sp.pgs_per_oneshotpg) * sp.luns_per_ch + p.lun) * sp.nchs + p.ch)
          * sp.pgs_per_oneshotpg
        + p.pg % sp.pgs_per_oneshotpg)
      e

IsNext-at : (s sp : SsdParams) (w v : WritePointer) → s ≡ sp → IsNext s w v → IsNext sp w v
IsNext-at s sp w v e next = rw (← e) next

module _ (sp : SsdParams) (f : ConvFtl) (w : WritePointer) (lpn : ℕ) where
  none-AreWritten : AreWritten sp f w 0 lpn f
  none-AreWritten = record {
    linked = λ i h. absurd (omega (arith, h));
    other_lpns = λ l h. refl;
    other_ppas = λ p r z b. refl;
  }

  -- One round, and then the others.
  step-AreWritten :
      (n : ℕ) (y1 y : ConvFtl) (v : WritePointer)
      → f.ssd.sp ≡ sp
      → CanWrite f w
      → IsWritten f w y1 lpn v
      → AreWritten sp y1 v n (lpn + 1) y
      → AreWritten sp f w (suc n) lpn y
  step-AreWritten n y1 y v e c (mapped, (can, (next, (same, lines)))) rest =
      let next1 : IsNext sp w v = rw (← e) next in
      let in_range : InRange sp (page_of w) = rw (← e) (page_of-InRange f w c) in
      let behind : IsBehind sp v (page_of w) =
        λ u in_line h blk pl is. omega (arith, page_of-rank sp w u is, next1.1, h) in
      record {
        linked = λ i h. elim (zero_or_suc i) [
          | inl none_yet ↦ (
            page_of w,
            in_range,
            (
              ap (get_maptbl_ent y) (omega (arith, none_yet))
                  ∙ rest.other_lpns lpn (inl (omega arith))
                  ∙ mapped.forward,
              rest.other_ppas (page_of w) in_range refl behind
                  ∙ mapped.back
                  ∙ ap ok (omega (arith, none_yet)),
            ),
          )
          | inr (j, is) ↦
              let (p, r, (forth, back)) = rest.linked j (omega (arith, is, h)) in
              (
                p,
                r,
                (
                  ap (get_maptbl_ent y) (omega (arith, is)) ∙ forth,
                  back ∙ ap ok (omega (arith, is)),
                ),
              )
        ];
        other_lpns =
            λ l h. rest.other_lpns l (outside l n h) ∙ mapped.other_lpns l (λ is. not_in l n h is);
        other_ppas = λ p r z b.
            rest.other_ppas p r z (λ u in_line h blk pl.
              b u in_line (omega (arith, next1.1, h)) (blk ∙ next1.2.1) (pl ∙ next1.2.2))
            ∙ mapped.other_ppas p (rw e r) z (b w (rw (← e) c.in_line) (omega arith) refl refl);
      }
    where
      zero_or_suc : (i : ℕ) → (i ≡ 0) ⊎ ((j : ℕ) × (i ≡ suc j))
      zero_or_suc zero = inl refl
      zero_or_suc (suc j) = inr (j, refl)

      outside : (l n : ℕ) → (l < lpn) ⊎ (lpn + suc n ≤ l) → (l < lpn + 1) ⊎ (lpn + 1 + n ≤ l)
      outside l n (inl h) = inl (omega (arith, h))
      outside l n (inr h) = inr (omega (arith, h))

      not_in : (l n : ℕ) → (l < lpn) ⊎ (lpn + suc n ≤ l) → l ≡ lpn → ⊥
      not_in l n (inl h) is = omega (arith, h, is)
      not_in l n (inr h) is = omega (arith, h, is)

module _ (cpu_clock : ℕ → ℕ) (q : Pqueue) (stack_rsv : ℕ) (stack_dma : Bool) (sp : SsdParams) where
  write_lpns-suc :
      (n : ℕ) (f y1 y : ConvFtl) (lpn completed_time t1 t : ℕ)
      → write_lpn cpu_clock q stack_rsv stack_dma f lpn completed_time ≡ ok (y1, t1)
      → (lpn + 1) % u64_mod ≡ lpn + 1
      → write_lpns cpu_clock q stack_rsv stack_dma n y1 (lpn + 1) t1 ≡ ok (y, t)
      → write_lpns cpu_clock q stack_rsv stack_dma (suc n) f lpn completed_time ≡ ok (y, t)
  unfolding write_lpns
  write_lpns-suc n f y1 y lpn completed_time t1 t runs wrapped rest =
      rw runs (ap (λ l. write_lpns cpu_clock q stack_rsv stack_dma n y1 l t1) wrapped ∙ rest)

  -- In a build that is not hybrid, with the user's write pointer on a page of a line, with tables and
  -- a device in order, and with write credits left, the loop of conv_write returns for any number of
  -- logical pages below the number of pages that the rest of the line but its last page has room for:
  -- no array is left and no assertion trips. Afterwards each of the logical pages is mapped to a page
  -- of the device that is mapped back to it. All other logical pages are mapped as they were, and so
  -- are all pages of the device that were not in the rest of the line; the state is again one in which
  -- the loop can run, with the write pointer as many pages further on in its line and with the lines as
  -- they were.
  pub write_lpns-AreWritten :
      (n : ℕ) (f : ConvFtl) (w : WritePointer) (lpn completed_time : ℕ)
      → f.ssd.sp ≡ sp
      → CanWrite f w
      → lpn + n ≤ sp.tt_pgs
      → rank sp w + n < sp.pgs_per_line
      → (y : ConvFtl) × (t : ℕ) × (v : WritePointer) × (write_lpns cpu_clock q stack_rsv stack_dma n
            f lpn completed_time
          ≡ ok (y, t))
        × AreWritten sp f w n lpn y
        × CanWrite y v
        × (rank sp v ≡ rank sp w + n)
        × (y.lm ≡ f.lm)
        × SameLine v w
        × (y.ssd.sp ≡ sp)
  unfolding write_lpns
  write_lpns-AreWritten zero f w lpn completed_time e c h more = (
    f,
    completed_time,
    w,
    refl,
    none-AreWritten sp f w lpn,
    c,
    omega arith,
    refl,
    (refl, refl, refl),
    e,
  )
  write_lpns-AreWritten (suc n) f w lpn completed_time e c h more =
      let h1 : lpn < f.ssd.sp.tt_pgs = rw e (omega (arith, h)) in
      let more1 : rank f.ssd.sp w + 1 < f.ssd.sp.pgs_per_line = rw e (omega (arith, more)) in
      let (y1, t1, v1, runs1, written) =
        write_lpn-IsWritten cpu_clock q stack_rsv stack_dma f w lpn completed_time c h1 more1 in
      let (mapped, (can1, (next, (same, lines)))) = written in
      let next1 = IsNext-at (f.ssd.sp) sp w v1 e next in
      let bound : f.ssd.sp.tt_pgs ≡ sp.tt_pgs = ap (λ (s : SsdParams). s.tt_pgs) e in
      let wrapped : (lpn + 1) % u64_mod ≡ lpn + 1 = omega (arith, h, c.geometry.tt_in, bound) in
      let (y, t, v, runs2, rest, can, ranked, lines1, (line, blk, pl), params) =
        write_lpns-AreWritten n y1 v1 (lpn + 1) t1 (same ∙ e) can1 (omega (arith, h))
          (omega (arith, next1.1, more)) in
      (
        y,
        t,
        v,
        write_lpns-suc n f y1 y lpn completed_time t1 t runs1 wrapped runs2,
        step-AreWritten sp f w lpn n y1 y v1 e c written rest,
        can,
        omega (arith, ranked, next1.1),
        lines1 ∙ lines,
        (line ∙ next1.2.0, blk ∙ next1.2.1, pl ∙ next1.2.2),
        params,
      )
