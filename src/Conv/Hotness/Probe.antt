-- ===== src/Conv/Hotness/Probe.antt =====
-- conv_ftl.c: the probing of get_hotness_entry, slot by slot.
use nvmevirt_hybrid.Prelude.{
  ℕ, zero, suc, ◌+◌, ◌-◌, ◌%◌, ◌≤◌, ◌<◌, ◌≡◌, ◌≢◌, refl, arith, ◌⊎◌, inl, inr, Bool-cases, ==-false,
  ◌==◌, Option, none, some, List, length, get_elem?, set, lt-length→get_elem?, u64_mod,
}
use nvmevirt_hybrid.Prelude.Run.{Run, ok}
use nvmevirt_hybrid.Prelude.Div.{mod_small, mod_add_self}
use native.Mathlib.Nat.{mod-lt}
use nvmevirt_hybrid.Conv.{PageHotness, invalid_lpn}
use nvmevirt_hybrid.Conv.Hotness.{probe, find_entry, fresh_entry}

-- The slot of round `i`.
abbrev pub slot : ℕ → ℕ → ℕ → ℕ
slot size lpn i = ((lpn % size + i) % u64_mod) % size

-- The slot of round `i` belongs to another page.
abbrev pub IsOther : ℕ → List PageHotness → ℕ → ℕ → Type 0
IsOther size t lpn i =
    (e : PageHotness) × (get_elem? t (slot size lpn i) ≡ some e)
    × (e.lpn ≢ invalid_lpn)
    × (e.lpn ≢ lpn)

-- The slot of round `d` has the page number `l`, and the earlier ones belong to other pages.
abbrev pub IsFirst : ℕ → List PageHotness → ℕ → ℕ → ℕ → Type 0
IsFirst size t lpn l d =
    (d < size)
    × ((e : PageHotness) × (get_elem? t (slot size lpn d) ≡ some e) × (e.lpn ≡ l))
    × ((i : ℕ) → i < d → IsOther size t lpn i)

-- How a search ends: at the page's own entry, at an unused one, or nowhere.
abbrev pub Ends : ℕ → List PageHotness → ℕ → Run (List PageHotness × Option ℕ) → Type 0
Ends size t lpn m =
    ((d : ℕ) × IsFirst size t lpn lpn d × (m ≡ ok (t, some (slot size lpn d))))
    ⊎ (((d : ℕ) × IsFirst size t lpn invalid_lpn d
          × (m ≡ ok (set t (slot size lpn d) (fresh_entry lpn), some (slot size lpn d))))
        ⊎ (((i : ℕ) → i < size → IsOther size t lpn i) × (m ≡ ok (t, none))))

-- A table of `size` entries.
pub record IsTable (size : ℕ) (t : List PageHotness) : Type 0 where
  pub len : length t ≡ size
  pub pos : 0 < size
  pub small : size < 9223372036854775808

module _ (size : ℕ) (t : List PageHotness) (v : IsTable size t) (lpn : ℕ) where
  pub slot-lt : (i : ℕ) → slot size lpn i < size
  slot-lt i = mod-lt ((lpn % size + i) % u64_mod) v.pos

  extend :
      (i : ℕ)
      → ((k : ℕ) → k < i → IsOther size t lpn k)
      → IsOther size t lpn i
      → (k : ℕ) → k < suc i
      → IsOther size t lpn k
  extend i below here k h = elim (last_or_less k i h) [
    | inl less ↦ below k less
    | inr same ↦ rw same here
  ]
    where
      last_or_less : (k i : ℕ) → k < suc i → (k < i) ⊎ (k ≡ i)
      last_or_less k i h = ground arith

  probe-Ends :
      (n i : ℕ)
      → i + n ≡ size
      → ((k : ℕ) → k < i → IsOther size t lpn k)
      → Ends size t lpn (probe n i size t lpn)
  unfolding probe
  probe-Ends zero i h below = inr (inr ((λ k lt. below k (omega (arith, h, lt))), refl))
  probe-Ends (suc n) i h below =
      let (e, at) = lt-length→get_elem? t (slot size lpn i) (rw v.len (slot-lt i)) in
      elim (Bool-cases (e.lpn == invalid_lpn)) [
        | inl unused ↦ inr (
            inl
              (i, (omega (arith, h), (e, at, ground (arith, unused)), below), rw (at, unused) refl))
        | inr used ↦ elim (Bool-cases (e.lpn == lpn)) [
          | inl own ↦
              inl (
                i,
                (omega (arith, h), (e, at, ground (arith, own)), below),
                rw (at, used, own) refl,
              )
          | inr other ↦
              let rest = probe-Ends n (suc i) (omega (arith, h)) (
                extend i below
                  (e, at, (λ x. ground (arith, used, x)), λ x. ground (arith, other, x))) in
              rw (at, used, other) rest
        ]
      ]

  pub find_entry-Ends : Ends size t lpn (find_entry size t lpn)
  unfolding find_entry
  find_entry-Ends =
      rw (==-false size 0 (λ e. omega (arith, e, v.pos)))
        (probe-Ends size 0 (omega arith) (λ k h. absurd (omega (arith, h))))

  -- Every slot is that of some round.
  pub round_of : (j : ℕ) → j < size → (i : ℕ) × (i < size) × (slot size lpn i ≡ j)
  round_of j h =
      let start-lt : lpn % size < size = mod-lt lpn v.pos in
      elim (le-or-lt (lpn % size) j) [
        | inl le ↦
            let sum : (lpn % size + (j - lpn % size)) % u64_mod ≡ j =
              omega (arith, le, h, v.small) in
            (j - lpn % size, omega (arith, h), rw sum (mod_small j size h))
        | inr lt ↦
            let sum : (lpn % size + (size + j - lpn % size)) % u64_mod ≡ size + j =
              omega (arith, lt, h, start-lt, v.small) in
            (size + j - lpn % size, omega (arith, lt), rw sum (mod_add_self j size h))
      ]
    where
      le-or-lt : (a b : ℕ) → (a ≤ b) ⊎ (b < a)
      le-or-lt a b = ground arith
