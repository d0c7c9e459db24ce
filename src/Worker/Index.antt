-- ===== src/Worker/Index.antt =====
-- io.c: lists of a table's entries, by their indices. An item is an entry's index with its contents, whose
-- own links do not matter.
use nvmevirt_hybrid.Prelude.{
  ℕ, suc, ◌<◌, ◌≡◌, ◌≢◌, refl, sym, ap, arith, List, [], ◌∷◌, ◌++◌, length,
}
use nvmevirt_hybrid.Worker.{ProcEntry}

abbrev pub Item : Type 0
Item = ℕ × ProcEntry

abbrev pub indices : List Item → List ℕ
indices [] = []
indices (x ∷ xs) = x.0 ∷ indices xs

abbrev pub NotIn : ℕ → List ℕ → Type 0
NotIn i [] = Unit
NotIn i (j ∷ js) = (i ≢ j) × NotIn i js

abbrev pub Distinct : List ℕ → Type 0
Distinct [] = Unit
Distinct (i ∷ js) = NotIn i js × Distinct js

pub NotIn-append : (i : ℕ) (is js : List ℕ) → NotIn i is → NotIn i js → NotIn i (is ++ js)
NotIn-append i [] js h k = k
NotIn-append i (j ∷ is) js h k = (h.0, NotIn-append i is js h.1 k)

pub NotIn-left : (i : ℕ) (is js : List ℕ) → NotIn i (is ++ js) → NotIn i is
NotIn-left i [] js h = tt
NotIn-left i (j ∷ is) js h = (h.0, NotIn-left i is js h.1)

pub NotIn-right : (i : ℕ) (is js : List ℕ) → NotIn i (is ++ js) → NotIn i js
NotIn-right i [] js h = h
NotIn-right i (j ∷ is) js h = NotIn-right i is js h.1

pub indices-append : (xs ys : List Item) → indices (xs ++ ys) ≡ indices xs ++ indices ys
indices-append [] ys = refl
indices-append (x ∷ xs) ys = ap (◌∷◌ x.0) (indices-append xs ys)

pub Distinct-left : (is js : List ℕ) → Distinct (is ++ js) → Distinct is
Distinct-left [] js h = tt
Distinct-left (i ∷ is) js h = (NotIn-left i is js h.0, Distinct-left is js h.1)

pub Distinct-right : (is js : List ℕ) → Distinct (is ++ js) → Distinct js
Distinct-right [] js h = h
Distinct-right (i ∷ is) js h = Distinct-right is js h.1

-- Every index of the first list is missing in the second.
abbrev pub Apart : List ℕ → List ℕ → Type 0
Apart [] js = Unit
Apart (i ∷ is) js = NotIn i js × Apart is js

pub Apart-grow : (j : ℕ) (is js : List ℕ) → NotIn j is → Apart is js → Apart is (j ∷ js)
Apart-grow j [] js h a = tt
Apart-grow j (i ∷ is) js h a = ((λ e. h.0 (sym e), a.0), Apart-grow j is js h.1 a.1)

pub Apart-nil : (is : List ℕ) → Apart is []
Apart-nil [] = tt
Apart-nil (i ∷ is) = (tt, Apart-nil is)

pub Distinct-Apart : (is js : List ℕ) → Distinct (is ++ js) → Apart js is
Distinct-Apart [] js h = Apart-nil js
Distinct-Apart (i ∷ is) js h =
    Apart-grow i js is (NotIn-right i is js h.0) (Distinct-Apart is js h.1)

-- A list around the item `a`.
abbrev pub around : List Item → Item → List Item → List Item
around before a bs = (before ++ a ∷ []) ++ bs

pub NotIn-around :
    (k : ℕ) (before : List Item) (a : Item) (bs : List Item)
    → NotIn k (indices (around before a bs))
    → NotIn k (indices before) × (k ≢ a.0) × NotIn k (indices bs)
NotIn-around k [] a bs h = (tt, h.0, h.1)
NotIn-around k (y ∷ before) a bs h =
    let (r0, r1, r2) = NotIn-around k before a bs h.1 in ((h.0, r0), r1, r2)

pub Distinct-around :
    (before : List Item) (a : Item) (bs : List Item)
    → Distinct (indices (around before a bs))
    → NotIn a.0 (indices before)
      × NotIn a.0 (indices bs)
      × Distinct (indices bs)
      × Apart (indices bs) (indices (before ++ a ∷ []))
Distinct-around [] a bs h =
    (tt, h.0, h.1, Apart-grow a.0 (indices bs) [] h.0 (Apart-nil (indices bs)))
Distinct-around (y ∷ before) a bs h =
    let (r0, r1, r2, r3) = Distinct-around before a bs h.1 in
    let (k0, k1, k2) = NotIn-around y.0 before a bs h.0 in
    ((λ e. k1 (sym e), r0), r1, r2, Apart-grow y.0 (indices bs) (indices (before ++ a ∷ [])) k2 r3)

pub length-around :
    (before : List Item) (a : Item) (bs : List Item) → length bs < length (around before a bs)
length-around [] a bs = omega arith
length-around (y ∷ before) a bs = omega (arith, length-around before a bs)

pub append_nil : (xs : List Item) → xs ++ [] ≡ xs
append_nil [] = refl
append_nil (x ∷ xs) = ap (◌∷◌ x) (append_nil xs)

pub NotIn-move : (k x : ℕ) (is js : List ℕ) → NotIn k (is ++ x ∷ js) → (k ≢ x) × NotIn k (is ++ js)
NotIn-move k x [] js h = h
NotIn-move k x (i ∷ is) js h = let (r0, r1) = NotIn-move k x is js h.1 in (r0, (h.0, r1))

pub Distinct-move :
    (x : ℕ) (is js : List ℕ) → Distinct (is ++ x ∷ js) → NotIn x (is ++ js) × Distinct (is ++ js)
Distinct-move x [] js h = h
Distinct-move x (i ∷ is) js h =
    let (n0, n1) = NotIn-move i x is js h.0 in
    let (r0, r1) = Distinct-move x is js h.1 in ((λ e. n0 (sym e), r0), (n1, r1))

pub NotIn-unmove : (k x : ℕ) (is js : List ℕ) → k ≢ x → NotIn k (is ++ js) → NotIn k (is ++ x ∷ js)
NotIn-unmove k x [] js ne h = (ne, h)
NotIn-unmove k x (i ∷ is) js ne h = (h.0, NotIn-unmove k x is js ne h.1)

pub NotIn-rotate : (k : ℕ) (is js : List ℕ) → NotIn k (is ++ js) → NotIn k (js ++ is)
NotIn-rotate k [] js h = NotIn-append k js [] h tt
NotIn-rotate k (i ∷ is) js h = NotIn-unmove k i js is h.0 (NotIn-rotate k is js h.1)

Distinct-unmove :
    (x : ℕ) (is js : List ℕ) → NotIn x (is ++ js) → Distinct (is ++ js) → Distinct (is ++ x ∷ js)
Distinct-unmove x [] js n d = (n, d)
Distinct-unmove x (i ∷ is) js n d =
    (NotIn-unmove i x is js (λ e. n.0 (sym e)) d.0, Distinct-unmove x is js n.1 d.1)

Distinct-nil : (is : List ℕ) → Distinct is → Distinct (is ++ [])
Distinct-nil [] h = tt
Distinct-nil (i ∷ is) h = (NotIn-append i is [] h.0 tt, Distinct-nil is h.1)

pub Distinct-rotate : (is js : List ℕ) → Distinct (is ++ js) → Distinct (js ++ is)
Distinct-rotate [] js h = Distinct-nil js h
Distinct-rotate (i ∷ is) js h =
    Distinct-unmove i js is (NotIn-rotate i is js h.0) (Distinct-rotate is js h.1)

pub length-indices : (xs : List Item) → length (indices xs) ≡ length xs
length-indices [] = refl
length-indices (x ∷ xs) = ap suc (length-indices xs)

pub Apart-last : (is : List ℕ) (j : ℕ) (js : List ℕ) → Apart (is ++ j ∷ []) js → NotIn j js
Apart-last [] j js h = h.0
Apart-last (i ∷ is) j js h = Apart-last is j js h.1

pub Apart-around :
    (before : List Item) (a : Item) (bs : List Item) (js : List ℕ)
    → Apart (indices (around before a bs)) js
    → NotIn a.0 js
Apart-around [] a bs js h = h.0
Apart-around (y ∷ before) a bs js h = Apart-around before a bs js h.1
