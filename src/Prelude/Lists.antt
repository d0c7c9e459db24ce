-- ===== src/Prelude/Lists.antt =====
-- C arrays as lists under native indices, and counting the entries that pass a test.
use Prim.Native.Nat.{ℕ, zero, suc, ◌+◌, ◌≤◌, ◌<◌}
use mathlib.Core.Path.{◌≡◌, refl, sym, ap}
use mathlib.Core.Logic.{◌≢◌}
use mathlib.Core.Bool.{Bool}
use mathlib.Core.List.{List, [], ◌∷◌, ◌++◌}
use mathlib.Core.Option.{Option, none, some}
use native.Mathlib.Omega.{arith}
use nvmevirt_hybrid.Prelude.Tests.{bit}

module _ {ℓ} {A : Type ℓ} where
  abbrev pub length : List A → ℕ
  length [] = 0
  length (x ∷ xs) = suc (length xs)

  abbrev pub get_elem? : List A → ℕ → Option A
  get_elem? [] i = none
  get_elem? (x ∷ xs) zero = some x
  get_elem? (x ∷ xs) (suc i) = get_elem? xs i

  abbrev pub get_or : List A → ℕ → A → A
  get_or [] i d = d
  get_or (x ∷ xs) zero d = x
  get_or (x ∷ xs) (suc i) d = get_or xs i d

  -- A write out of bounds changes nothing.
  abbrev pub set : List A → ℕ → A → List A
  set [] i v = []
  set (x ∷ xs) zero v = v ∷ xs
  set (x ∷ xs) (suc i) v = x ∷ set xs i v

  abbrev pub replicate : ℕ → A → List A
  replicate zero a = []
  replicate (suc n) a = a ∷ replicate n a

  -- How many entries pass the test.
  abbrev pub count : (A → Bool) → List A → ℕ
  count p [] = 0
  count p (x ∷ xs) = bit (p x) + count p xs

module _ {ℓ} {A : Type ℓ} where
  pub length-append : (xs ys : List A) → length (xs ++ ys) ≡ length xs + length ys
  length-append [] ys = omega arith
  length-append (x ∷ xs) ys = omega (arith, length-append xs ys)

  pub length-set : (xs : List A) (i : ℕ) (v : A) → length (set xs i v) ≡ length xs
  length-set [] i v = refl
  length-set (x ∷ xs) zero v = refl
  length-set (x ∷ xs) (suc i) v = ap suc (length-set xs i v)

  pub get_elem?-set_self :
      (xs : List A) (i : ℕ) (v : A) → i < length xs → get_elem? (set xs i v) i ≡ some v
  get_elem?-set_self [] i v h = elim h [ ]
  get_elem?-set_self (x ∷ xs) zero v h = refl
  get_elem?-set_self (x ∷ xs) (suc i) v h = get_elem?-set_self xs i v (omega arith)

  pub set-set : (xs : List A) (i : ℕ) (v w : A) → set (set xs i v) i w ≡ set xs i w
  set-set [] i v w = refl
  set-set (x ∷ xs) zero v w = refl
  set-set (x ∷ xs) (suc i) v w = ap (◌∷◌ x) (set-set xs i v w)

  pub set_self : (xs : List A) (i : ℕ) (v : A) → get_elem? xs i ≡ some v → set xs i v ≡ xs
  set_self [] i v h = refl
  set_self (x ∷ xs) zero v h = cc
  set_self (x ∷ xs) (suc i) v h = ap (◌∷◌ x) (set_self xs i v h)

  pub get_elem?-set_ne :
      (xs : List A) (i j : ℕ) (v : A) → i ≢ j → get_elem? (set xs i v) j ≡ get_elem? xs j
  get_elem?-set_ne [] i j v h = refl
  get_elem?-set_ne (x ∷ xs) zero zero v h = absurd (h refl)
  get_elem?-set_ne (x ∷ xs) zero (suc j) v h = refl
  get_elem?-set_ne (x ∷ xs) (suc i) zero v h = refl
  get_elem?-set_ne (x ∷ xs) (suc i) (suc j) v h = get_elem?-set_ne xs i j v (λ e. h (ap suc e))

  pub get_elem?-lt-length : (xs : List A) (i : ℕ) (v : A) → get_elem? xs i ≡ some v → i < length xs
  get_elem?-lt-length [] i v h = cc
  get_elem?-lt-length (x ∷ xs) zero v h = omega arith
  get_elem?-lt-length (x ∷ xs) (suc i) v h = omega (arith, get_elem?-lt-length xs i v h)

  -- A write trades the old entry's share of a count for the new one's.
  pub count-set :
      (p : A → Bool) (xs : List A) (i : ℕ) (old new : A)
      → get_elem? xs i ≡ some old
      → count p (set xs i new) + bit (p old) ≡ count p xs + bit (p new)
  count-set p [] i old new h = cc
  count-set p (x ∷ xs) zero old new h = ground arith
  count-set p (x ∷ xs) (suc i) old new h = omega (arith, count-set p xs i old new h)

  pub count-le-length : (p : A → Bool) (xs : List A) → count p xs ≤ length xs
  count-le-length p [] = omega arith
  count-le-length p (x ∷ xs) = ground (arith, count-le-length p xs)

  pub lt-length→get_elem? :
      (xs : List A) (i : ℕ) → i < length xs → (x : A) × (get_elem? xs i ≡ some x)
  lt-length→get_elem? [] i h = elim h [ ]
  lt-length→get_elem? (x ∷ xs) zero h = (x, refl)
  lt-length→get_elem? (x ∷ xs) (suc i) h = lt-length→get_elem? xs i (omega arith)

  -- What holds of all entries still does after a write of one for which it holds.
  pub all-set {κ} :
      (P : A → Type κ) (xs : List A) (i : ℕ) (v : A)
      → ((j : ℕ) (x : A) → get_elem? xs j ≡ some x → P x)
      → P v
      → (j : ℕ) (x : A) → get_elem? (set xs i v) j ≡ some x
      → P x
  all-set P [] i v h p j x e = h j x e
  all-set P (y ∷ ys) zero v h p zero x e = let same : v ≡ x = cc in rw (← same) p
  all-set P (y ∷ ys) zero v h p (suc j) x e = h (suc j) x e
  all-set P (y ∷ ys) (suc i) v h p zero x e = h zero x e
  all-set P (y ∷ ys) (suc i) v h p (suc j) x e = all-set P ys i v (λ k. h (suc k)) p j x e

pub some_injective {ℓ} : {A : Type ℓ} {a b : A} → some a ≡ some b → a ≡ b
some_injective {A} {a} h = ap (λ (o : Option A). elim o [ none ↦ a | some x ↦ x ]) h

pub length-replicate {ℓ} : {A : Type ℓ} (n : ℕ) (a : A) → length (replicate n a) ≡ n
length-replicate zero a = refl
length-replicate (suc n) a = ap suc (length-replicate n a)

pub get_elem?-replicate {ℓ} :
    {A : Type ℓ} (n i : ℕ) (a x : A) → get_elem? (replicate n a) i ≡ some x → x ≡ a
get_elem?-replicate zero i a x h = cc
get_elem?-replicate (suc n) zero a x h = some_injective (sym h)
get_elem?-replicate (suc n) (suc i) a x h = get_elem?-replicate n i a x h
