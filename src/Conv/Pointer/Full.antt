-- ===== src/Conv/Pointer/Full.antt =====
-- conv_ftl.c: advance_write_pointer at the end of a line none of whose pages was marked valid or
-- invalid.
use nvmevirt_hybrid.Prelude.{
  ℕ, ◌+◌, ◌%◌, ◌<◌, ◌≡◌, refl, ◌∙◌, arith, inl, inr, some, get_elem?, ==-refl, ==-false, lt→ltb,
}
use nvmevirt_hybrid.Prelude.Run.{ok, fault, bug_on}
use nvmevirt_hybrid.Prelude.Div.{mod_wrap}
use native.Mathlib.Nat.{mod-lt}
use nvmevirt_hybrid.Ssd.{SsdParams}
use nvmevirt_hybrid.Conv.{ConvFtl, WritePointer, Line, LineMgmt, Pqueue, IoType, get_wp}
use nvmevirt_hybrid.Conv.Lines.{line_at, retire_line}
use nvmevirt_hybrid.Conv.Pointer.{advance_write_pointer, next_line}
use nvmevirt_hybrid.Conv.Pointer.Rank.{
  IsLineGeometry, InLine, rank, IsNext, check_addr-ok, lt-suc_cases, IsNext-page, IsNext-ch,
  IsNext-in_lun, IsNext-wordline, rank-lt,
}

-- The line of the pointer, one whose counts are 0.
abbrev pub IsUnmarked : LineMgmt → WritePointer → Type 0
IsUnmarked lm w =
    (i : ℕ) × (l : Line) × (w.curline ≡ some i)
    × (get_elem? lm.lines i ≡ some l)
    × (l.vpc ≡ 0)
    × (l.ipc ≡ 0)

module _ (q : Pqueue) where
  retire_line-unmarked :
      (pgs : ℕ) (lm : LineMgmt) (i : ℕ) (l : Line)
      → 0 < pgs
      → get_elem? lm.lines i ≡ some l
      → l.vpc ≡ 0
      → l.ipc ≡ 0
      → retire_line q pgs lm i ≡ fault bug_on
  unfolding retire_line line_at
  retire_line-unmarked pgs lm i l pos at v p =
      rw (at, v, p, ==-false 0 pgs (λ e. omega (arith, e, pos)), lt→ltb 0 pgs pos) refl

  -- The last page of a line is where the search for the next page fails in all ways.
  advance-last :
      (f : ConvFtl) (io : IoType) (w : WritePointer) (sp : SsdParams)
      → f.ssd.sp ≡ sp
      → IsLineGeometry sp
      → get_wp f io ≡ ok w
      → InLine sp w
      → rank sp w + 1 ≡ sp.pgs_per_line
      → advance_write_pointer q f io ≡ next_line q f io w
  unfolding advance_write_pointer
  advance-last f io w sp e g at l full =
      let o = sp.pgs_per_oneshotpg in
      let pg_ok = check_addr-ok w.pg sp.pgs_per_blk l.pg_in g.pgs_in in
      let ch_ok = check_addr-ok w.ch sp.nchs l.ch_in g.nchs_in in
      let lun_ok = check_addr-ok w.lun sp.luns_per_ch l.lun_in g.luns_in in
      let ends : (v : WritePointer) → IsNext sp w v → ⊥ =
        λ v next. omega (arith, rank-lt sp g v next.0, next.1, full) in
      elim (lt-suc_cases (w.pg % o) o (mod-lt w.pg g.oneshot_pos)) [
        | inl inside ↦ absurd (ends _ (IsNext-page sp g w l inside))
        | inr last ↦ elim (lt-suc_cases w.ch sp.nchs l.ch_in) [
          | inl more ↦ absurd (ends _ (IsNext-ch sp g w l last more))
          | inr chs ↦ elim (lt-suc_cases w.lun sp.luns_per_ch l.lun_in) [
            | inl more ↦ absurd (ends _ (IsNext-in_lun sp g w l last chs more))
            | inr luns ↦ elim (lt-suc_cases w.pg sp.pgs_per_blk l.pg_in) [
              | inl more ↦ absurd (ends _ (IsNext-wordline sp g w l last chs luns more))
              | inr end ↦
                  rw
                    (
                      at,
                      e,
                      pg_ok,
                      (mod_wrap w.pg o g.oneshot_pos last).0,
                      ch_ok,
                      chs,
                      ==-refl sp.nchs,
                      lun_ok,
                      luns,
                      ==-refl sp.luns_per_ch,
                      end,
                      ==-refl sp.pgs_per_blk,
                    )
                    refl
            ]
          ]
        ]
      ]

  pub advance-unmarked :
      (f : ConvFtl) (io : IoType) (w : WritePointer) (sp : SsdParams)
      → f.ssd.sp ≡ sp
      → IsLineGeometry sp
      → get_wp f io ≡ ok w
      → InLine sp w
      → rank sp w + 1 ≡ sp.pgs_per_line
      → IsUnmarked f.lm w
      → advance_write_pointer q f io ≡ fault bug_on
  unfolding next_line
  advance-unmarked f io w sp e g at l full (i, ln, cur, there, v, p) =
      advance-last f io w sp e g at l full
      ∙ rw (cur, e, retire_line-unmarked sp.pgs_per_line f.lm i ln (omega (arith, full)) there v p)
          refl
