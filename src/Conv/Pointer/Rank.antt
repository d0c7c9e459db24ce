-- ===== src/Conv/Pointer/Rank.antt =====
-- conv_ftl.c: advance_write_pointer against a counter of the pages of a line.
use nvmevirt_hybrid.Prelude.{
  ℕ, ◌+◌, ◌-◌, ◌*◌, ◌/◌, ◌%◌, ◌<◌, ◌≡◌, refl, sym, ap, ◌∙◌, arith, ◌⊎◌, lt→ltb,
}
use nvmevirt_hybrid.Prelude.Run.{ok}
use nvmevirt_hybrid.Prelude.Div.{mod_suc, mod_wrap, mul-div-mod, radix_lt, div-lt, mul_gap, a_gap}
use native.Mathlib.Nat.{add-mul, mul-add, mul_comm, div-add-mod, mod-lt}
use nvmevirt_hybrid.Ssd.{SsdParams}
use nvmevirt_hybrid.Conv.{WritePointer, check_addr}

-- A block has `wordlines` oneshot pages, and the numbers that the code compares fit an `int`.
pub record IsLineGeometry (sp : SsdParams) : Type 0 where
  pub wordlines : ℕ
  pub oneshot_pos : 0 < sp.pgs_per_oneshotpg
  pub blk_eq : sp.pgs_per_blk ≡ sp.pgs_per_oneshotpg * wordlines
  pub line_eq : sp.pgs_per_line ≡ ((wordlines * sp.luns_per_ch) * sp.nchs) * sp.pgs_per_oneshotpg
  pub pgs_in : sp.pgs_per_blk < 2147483648
  pub nchs_in : sp.nchs < 2147483648
  pub luns_in : sp.luns_per_ch < 2147483648

pub record InLine (sp : SsdParams) (w : WritePointer) : Type 0 where
  pub pg_in : w.pg < sp.pgs_per_blk
  pub ch_in : w.ch < sp.nchs
  pub lun_in : w.lun < sp.luns_per_ch

-- How many pages of the line come before the pointer's: the pages of a oneshot page, then the
-- channels, then the LUNs, then the wordlines.
abbrev pub rank : SsdParams → WritePointer → ℕ
rank sp w =
    (((w.pg / sp.pgs_per_oneshotpg) * sp.luns_per_ch + w.lun) * sp.nchs + w.ch)
      * sp.pgs_per_oneshotpg
    + w.pg % sp.pgs_per_oneshotpg

abbrev pub SameLine : WritePointer → WritePointer → Type 0
SameLine v w = (v.curline ≡ w.curline) × (v.blk ≡ w.blk) × (v.pl ≡ w.pl)

-- `v` is the next page of the line of `w`.
abbrev pub IsNext : SsdParams → WritePointer → WritePointer → Type 0
IsNext sp w v = InLine sp v × (rank sp v ≡ rank sp w + 1) × SameLine v w

pub check_addr-ok : (a m : ℕ) → a < m → m < 2147483648 → check_addr a m ≡ ok tt
unfolding check_addr
check_addr-ok a m h k = rw (lt→ltb a m h, lt→ltb m 2147483648 k) refl

pub lt-suc_cases : (a m : ℕ) → a < m → (a + 1 < m) ⊎ (a + 1 ≡ m)
lt-suc_cases a m h = ground arith

-- The number that the digits stand for, with their bases.
abbrev value : ℕ → ℕ → ℕ → ℕ → ℕ → ℕ → ℕ → ℕ
value o c l a lun ch b = ((a * l + lun) * c + ch) * o + b

value-next_ch :
    (o c l a lun ch b : ℕ) → b + 1 ≡ o → value o c l a lun (ch + 1) 0 ≡ value o c l a lun ch b + 1
value-next_ch o c l a lun ch b h = omega (arith, add-mul ((a * l + lun) * c + ch) 1 o)

value-next_lun :
    (o c l a lun ch b : ℕ)
    → b + 1 ≡ o
    → ch + 1 ≡ c
    → value o c l a (lun + 1) 0 0 ≡ value o c l a lun ch b + 1
value-next_lun o c l a lun ch b h k =
    let carry : (a * l + (lun + 1)) * c ≡ (a * l + lun) * c + (ch + 1) =
      omega (arith, add-mul (a * l + lun) 1 c) in
    omega (arith, ap (λ x. x * o) carry, value-next_ch o c l a lun ch b h)

value-next_wordline :
    (o c l a lun ch b : ℕ)
    → b + 1 ≡ o
    → ch + 1 ≡ c
    → lun + 1 ≡ l
    → value o c l (a + 1) 0 0 0 ≡ value o c l a lun ch b + 1
value-next_wordline o c l a lun ch b h k m =
    let carry : (a + 1) * l ≡ a * l + (lun + 1) = omega (arith, add-mul a 1 l) in
    omega (arith, ap (λ x. (x * c) * o) carry, value-next_lun o c l a lun ch b h k)

module _ (sp : SsdParams) (g : IsLineGeometry sp) (w : WritePointer) (l : InLine sp w) where
  abbrev o : ℕ
  o = sp.pgs_per_oneshotpg

  abbrev a : ℕ
  a = w.pg / o

  abbrev b : ℕ
  b = w.pg % o

  whole : w.pg ≡ o * a + b
  whole = sym (div-add-mod w.pg o)

  a-lt : a < g.wordlines
  a-lt = div-lt w.pg o g.wordlines g.oneshot_pos (rw (← g.blk_eq) l.pg_in)

  room : o * a + o < sp.pgs_per_blk + 1
  room =
      rw g.blk_eq (
        omega
          (arith, mul_gap o a (g.wordlines - a - 1), ap (λ x. o * x) (a_gap a g.wordlines a-lt)))

  -- The page that the code goes back to, at the start of its wordline, and the next wordline's.
  back : b + 1 ≡ o → w.pg + 1 - o ≡ o * a
  back h = omega (arith, whole)

  forth : b + 1 ≡ o → w.pg + 1 ≡ o * (a + 1)
  forth h = omega (arith, whole, mul-add o a 1)

  pub IsNext-page : b + 1 < o → IsNext sp w (record w { pg = w.pg + 1 })
  IsNext-page h =
      let (r, d) = mod_suc w.pg o h in
      (
        record { pg_in = omega (arith, whole, room); ch_in = l.ch_in; lun_in = l.lun_in },
        rw (r, d) (omega arith),
        (refl, refl, refl),
      )

  pub IsNext-ch :
      b + 1 ≡ o → w.ch + 1 < sp.nchs → IsNext sp w (record w { pg = w.pg + 1 - o; ch = w.ch + 1 })
  IsNext-ch h k =
      let (d, r) = mul-div-mod a o g.oneshot_pos in
      (
        record { pg_in = omega (arith, back h, l.pg_in, whole); ch_in = k; lun_in = l.lun_in },
        rw (back h, d, r) (value-next_ch o sp.nchs sp.luns_per_ch a w.lun w.ch b h),
        (refl, refl, refl),
      )

  pub IsNext-in_lun :
      b + 1 ≡ o
      → w.ch + 1 ≡ sp.nchs
      → w.lun + 1 < sp.luns_per_ch
      → IsNext sp w (record w { pg = w.pg + 1 - o; ch = 0; lun = w.lun + 1 })
  IsNext-in_lun h k m =
      let (d, r) = mul-div-mod a o g.oneshot_pos in
      (
        record { pg_in = omega (arith, back h, l.pg_in, whole); ch_in = omega arith; lun_in = m },
        rw (back h, d, r) (value-next_lun o sp.nchs sp.luns_per_ch a w.lun w.ch b h k),
        (refl, refl, refl),
      )

  pub IsNext-wordline :
      b + 1 ≡ o
      → w.ch + 1 ≡ sp.nchs
      → w.lun + 1 ≡ sp.luns_per_ch
      → w.pg + 1 < sp.pgs_per_blk
      → IsNext sp w (record w { pg = w.pg + 1; ch = 0; lun = 0 })
  IsNext-wordline h k m n =
      let (r, d) = mod_wrap w.pg o g.oneshot_pos h in
      (
        record { pg_in = n; ch_in = omega arith; lun_in = omega arith },
        rw (r, d) (value-next_wordline o sp.nchs sp.luns_per_ch a w.lun w.ch b h k m),
        (refl, refl, refl),
      )

  -- At the last page of the last LUN and channel the line is full.
  pub at_end :
      b + 1 ≡ o
      → w.ch + 1 ≡ sp.nchs
      → w.lun + 1 ≡ sp.luns_per_ch
      → w.pg + 1 ≡ sp.pgs_per_blk
      → rank sp w + 1 ≡ sp.pgs_per_line
  at_end h k m n =
      let same : o * (a + 1) ≡ o * g.wordlines = sym (forth h) ∙ n ∙ g.blk_eq in
      let (d, r) = mul-div-mod (a + 1) o g.oneshot_pos in
      let (d1, r1) = mul-div-mod g.wordlines o g.oneshot_pos in
      let words : a + 1 ≡ g.wordlines = sym d ∙ ap (λ x. x / o) same ∙ d1 in
      omega (
        arith,
        g.line_eq,
        ap (λ x. ((x * sp.luns_per_ch) * sp.nchs) * o) words,
        value-next_wordline o sp.nchs sp.luns_per_ch a w.lun w.ch b h k m,
      )

  pub rank-lt : rank sp w < sp.pgs_per_line
  rank-lt =
      let words = radix_lt a w.lun g.wordlines sp.luns_per_ch a-lt l.lun_in in
      let chs =
        radix_lt (a * sp.luns_per_ch + w.lun) w.ch (g.wordlines * sp.luns_per_ch) sp.nchs
          (omega (arith, words, mul_comm sp.luns_per_ch g.wordlines)) l.ch_in in
      omega (
        arith,
        radix_lt ((a * sp.luns_per_ch + w.lun) * sp.nchs + w.ch) b
            ((g.wordlines * sp.luns_per_ch) * sp.nchs) o
            (omega (arith, chs, mul_comm sp.nchs (g.wordlines * sp.luns_per_ch)))
            (mod-lt w.pg g.oneshot_pos),
        mul_comm o ((g.wordlines * sp.luns_per_ch) * sp.nchs),
        g.line_eq,
      )
