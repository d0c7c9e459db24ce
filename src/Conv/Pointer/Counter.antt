-- ===== src/Conv/Pointer/Counter.antt =====
-- conv_ftl.c: repeated calls of advance_write_pointer within a line.
use nvmevirt_hybrid.Prelude.{
  ℕ, zero, suc, ◌+◌, ◌%◌, ◌<◌, ◌≡◌, refl, ap, ◌∙◌, arith, inl, inr, ==-refl, ==-false,
}
use nvmevirt_hybrid.Prelude.Run.{Run, ok, ◌>>=◌, ok-injective}
use nvmevirt_hybrid.Prelude.Div.{mod_suc, mod_wrap}
use native.Mathlib.Nat.{mod-lt}
use nvmevirt_hybrid.Ssd.{SsdParams}
use nvmevirt_hybrid.Conv.{
  ConvFtl, WritePointer, Pqueue, IoType, user_io, gc_io, other_io, spp, get_wp, put_wp,
}
use nvmevirt_hybrid.Conv.Pointer.{advance_write_pointer}
use nvmevirt_hybrid.Conv.Pointer.Rank.{
  IsLineGeometry, InLine, rank, SameLine, IsNext, check_addr-ok, lt-suc_cases, IsNext-page,
  IsNext-ch, IsNext-in_lun, IsNext-wordline, at_end,
}

put_wp-get :
    (f : ConvFtl) (io : IoType) (w v : WritePointer)
    → get_wp f io ≡ ok w
    → get_wp (put_wp f io v) io ≡ ok v
unfolding get_wp put_wp
put_wp-get f user_io w v h = refl
put_wp-get f gc_io w v h = refl
put_wp-get f other_io w v h = cc

put_wp-put :
    (f : ConvFtl) (io : IoType) (v w : WritePointer) → put_wp (put_wp f io v) io w ≡ put_wp f io w
unfolding put_wp
put_wp-put f user_io v w = refl
put_wp-put f gc_io v w = refl
put_wp-put f other_io v w = refl

put_wp-spp : (f : ConvFtl) (io : IoType) (v : WritePointer) → spp (put_wp f io v) ≡ spp f
unfolding put_wp
put_wp-spp f user_io v = refl
put_wp-spp f gc_io v = refl
put_wp-spp f other_io v = refl

module _ (q : Pqueue) where
  pub advance-IsNext :
      (f : ConvFtl) (io : IoType) (w : WritePointer) (sp : SsdParams)
      → spp f ≡ sp
      → IsLineGeometry sp
      → get_wp f io ≡ ok w
      → InLine sp w
      → rank sp w + 1 < sp.pgs_per_line
      → (v : WritePointer) × (advance_write_pointer q f io ≡ ok (put_wp f io v)) × IsNext sp w v
  unfolding advance_write_pointer
  advance-IsNext f io w sp e g at l h =
      let o = sp.pgs_per_oneshotpg in
      let pg_ok = check_addr-ok w.pg sp.pgs_per_blk l.pg_in g.pgs_in in
      let ch_ok = check_addr-ok w.ch sp.nchs l.ch_in g.nchs_in in
      let lun_ok = check_addr-ok w.lun sp.luns_per_ch l.lun_in g.luns_in in
      elim (lt-suc_cases (w.pg % o) o (mod-lt w.pg g.oneshot_pos)) [
        | inl inside ↦
            let r = (mod_suc w.pg o inside).0 in
            (
              _,
              rw (at, e, pg_ok, r, ==-false (w.pg % o + 1) 0 (omega arith)) refl,
              IsNext-page sp g w l inside,
            )
        | inr last ↦
            let r = (mod_wrap w.pg o g.oneshot_pos last).0 in
            elim (lt-suc_cases w.ch sp.nchs l.ch_in) [
              | inl more ↦ (
                _,
                rw (at, e, pg_ok, r, ch_ok, ==-false (w.ch + 1) sp.nchs (omega arith)) refl,
                IsNext-ch sp g w l last more,
              )
              | inr all ↦ elim (lt-suc_cases w.lun sp.luns_per_ch l.lun_in) [
                | inl more ↦ (
                  _,
                  rw
                      (
                        at,
                        e,
                        pg_ok,
                        r,
                        ch_ok,
                        all,
                        ==-refl sp.nchs,
                        lun_ok,
                        ==-false (w.lun + 1) sp.luns_per_ch (omega arith),
                      )
                      refl,
                  IsNext-in_lun sp g w l last all more,
                )
                | inr all_luns ↦ elim (lt-suc_cases w.pg sp.pgs_per_blk l.pg_in) [
                  | inl more ↦ (
                    _,
                    rw
                        (
                          at,
                          e,
                          pg_ok,
                          r,
                          ch_ok,
                          all,
                          ==-refl sp.nchs,
                          lun_ok,
                          all_luns,
                          ==-refl sp.luns_per_ch,
                          ==-false (w.pg + 1) sp.pgs_per_blk (omega arith),
                        )
                        refl,
                    IsNext-wordline sp g w l last all all_luns more,
                  )
                  | inr end ↦ absurd (omega (arith, at_end sp g w l last all all_luns end, h))
                ]
              ]
            ]
      ]

  -- `y` is `f` with the write pointer of `io`, `w` in `f`, `n` pages further on in its line.
  abbrev pub IsAfter : ConvFtl → IoType → WritePointer → ℕ → ConvFtl → Type 0
  IsAfter f io w n y =
      (v : WritePointer) × (y ≡ put_wp f io v)
      × InLine (spp f) v
      × (rank (spp f) v ≡ rank (spp f) w + n)
      × SameLine v w

  abbrev pub advance_times : ℕ → ConvFtl → IoType → Run ConvFtl
  advance_times zero f io = ok f
  advance_times (suc n) f io = advance_times n f io >>= λ f1. advance_write_pointer q f1 io

  put_wp_self :
      (f : ConvFtl) (io : IoType) (w : WritePointer) → get_wp f io ≡ ok w → f ≡ put_wp f io w
  unfolding get_wp put_wp
  put_wp_self f user_io w h = ap (λ x. record f { wp = x }) (ok-injective h)
  put_wp_self f gc_io w h = ap (λ x. record f { gc_wp = x }) (ok-injective h)
  put_wp_self f other_io w h = cc

  module _ (f : ConvFtl) (io : IoType) (w : WritePointer) (g : IsLineGeometry (spp f)) where
    -- From a write pointer within a line, `n` calls of advance_write_pointer that do not reach past
    -- the line's last page all return. They change nothing of the state but the write pointer, which
    -- stays in its line and is `n` pages further on, in the order in which a line is written: the
    -- pages of a oneshot page first, then the channels, the LUNs and the wordlines.
    pub advance_times-IsAfter :
        (n : ℕ)
        → get_wp f io ≡ ok w
        → InLine (spp f) w
        → rank (spp f) w + n < (spp f).pgs_per_line
        → (y : ConvFtl) × (advance_times n f io ≡ ok y) × IsAfter f io w n y
    advance_times-IsAfter zero at l h =
        (f, refl, (w, put_wp_self f io w at, l, omega arith, (refl, refl, refl)))
    advance_times-IsAfter (suc n) at l h =
        let (y, runs, (v, is, in_line, after, (line, blk, pl))) =
          advance_times-IsAfter n at l (omega (arith, h)) in
        let (x, runs1, (in_line1, after1, (line1, blk1, pl1))) =
          advance-IsNext (put_wp f io v) io v (spp f) (put_wp-spp f io v) g (put_wp-get f io w v at)
            in_line (omega (arith, after, h)) in
        (
          put_wp f io x,
          rw (runs, is, runs1, put_wp-put f io v x) refl,
          (x, refl, in_line1, omega (arith, after1, after), (line1 ∙ line, blk1 ∙ blk, pl1 ∙ pl)),
        )
