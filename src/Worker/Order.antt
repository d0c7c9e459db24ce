-- ===== src/Worker/Order.antt =====
-- io.c: the order of the requests, and what holds of each of them.
use nvmevirt_hybrid.Prelude.{
  ℕ, ◌≤◌, ◌≡◌, refl, sym, ap, arith, ◌⊎◌, inl, inr, Bool, true, false, ◌||◌, Bool-cases, max, List,
  [], ◌∷◌,
}
use nvmevirt_hybrid.Worker.{ProcEntry}
use nvmevirt_hybrid.Worker.Index.{Item, around}
use nvmevirt_hybrid.Worker.Enqueue.Search.{goes_before, any_of, insert_behind}
use nvmevirt_hybrid.Worker.Reclaim.{is_done}
use nvmevirt_hybrid.Worker.Reclaim.Walk.{take_done, drop_done}

abbrev pub All : (ProcEntry → Type 0) → List Item → Type 0
All P [] = Unit
All P (x ∷ xs) = P x.1 × All P xs

-- A request does not end behind a later one, unless it was due.
abbrev pub EndsBy : ℕ → ProcEntry → ProcEntry → Type 0
EndsBy now d e = d.nsecs_target ≤ max now e.nsecs_target

abbrev pub InOrder : ℕ → List Item → Type 0
InOrder now [] = Unit
InOrder now (x ∷ xs) = All (EndsBy now x.1) xs × InOrder now xs

module _ (P : ProcEntry → Type 0) where
  pub All-insert_behind :
      (p : Item → Bool) (x : Item) (xs : List Item)
      → P x.1
      → All P xs
      → All P (insert_behind p x xs)
  All-insert_behind p x [] h a = (h, tt)
  All-insert_behind p x (y ∷ ys) h a = elim (Bool-cases (p y || any_of p ys)) [
    | inl b ↦ rw b (a.0, All-insert_behind p x ys h a.1)
    | inr b ↦ rw b (h, a)
  ]

  pub All-drop_done : (now : ℕ) (xs : List Item) → All P xs → All P (drop_done now xs)
  All-drop_done now [] a = tt
  All-drop_done now (x ∷ xs) a = elim (Bool-cases (is_done now x.1)) [
    | inl b ↦ rw b (All-drop_done now xs a.1)
    | inr b ↦ rw b a
  ]

  pub All-around :
      (before : List Item) (a : Item) (bs : List Item) (d : ProcEntry)
      → (P a.1 → P d)
      → All P (around before a bs)
      → All P (around before (a.0, d) bs)
  All-around [] a bs d f h = (f h.0, h.1)
  All-around (y ∷ before) a bs d f h = (h.0, All-around before a bs d f h.1)

  pub All_at : (before : List Item) (a : Item) (bs : List Item) → All P (around before a bs) → P a.1
  All_at [] a bs h = h.0
  All_at (y ∷ before) a bs h = All_at before a bs h.1

pub All-map :
    (P Q : ProcEntry → Type 0) (xs : List Item)
    → ((d : ProcEntry) → P d → Q d)
    → All P xs
    → All Q xs
All-map P Q [] f a = tt
All-map P Q (x ∷ xs) f a = (f x.1 a.0, All-map P Q xs f a.1)

-- Behind the place of a new request all end later, and before it none does that is not due.
module _ (now : ℕ) (x : Item) where
  abbrev test : Item → Bool
  test = goes_before now x.1.nsecs_target

  passes : (y : Item) → test y ≡ true → EndsBy now y.1 x.1
  passes y h = ground arith

  fails : (y : Item) → test y ≡ false → EndsBy now x.1 y.1
  fails y h = ground arith

  some_passes :
      (y : Item) (ys : List Item)
      → All (EndsBy now y.1) ys
      → any_of test ys ≡ true
      → EndsBy now y.1 x.1
  some_passes y [] a h = cc
  some_passes y (z ∷ zs) a h = elim (Bool-cases (test z)) [
    | inl b ↦ let pass = passes z b in omega (arith, a.0)
    | inr b ↦ some_passes y zs a.1 (rw b at h)
  ]

  none_pass : (ys : List Item) → any_of test ys ≡ false → All (EndsBy now x.1) ys
  none_pass [] h = tt
  none_pass (y ∷ ys) h = elim (Bool-cases (test y)) [
    | inl b ↦ cc
    | inr b ↦ (fails y b, none_pass ys (rw b at h))
  ]

  pub InOrder-insert_behind :
      (ys : List Item) → InOrder now ys → InOrder now (insert_behind test x ys)
  InOrder-insert_behind [] h = (tt, tt)
  InOrder-insert_behind (y ∷ ys) h = elim (Bool-cases (test y || any_of test ys)) [
    | inl b ↦
        let y_first : EndsBy now y.1 x.1 = elim (Bool-cases (test y)) [
          | inl c ↦ passes y c
          | inr c ↦ some_passes y ys h.0 (rw c at b)
        ] in
        rw b
          (All-insert_behind (EndsBy now y.1) test x ys y_first h.0, InOrder-insert_behind ys h.1)
    | inr b ↦ rw b (none_pass (y ∷ ys) b, h)
  ]

pub InOrder-drop_done : (now : ℕ) (xs : List Item) → InOrder now xs → InOrder now (drop_done now xs)
InOrder-drop_done now [] h = tt
InOrder-drop_done now (x ∷ xs) h = elim (Bool-cases (is_done now x.1)) [
  | inl b ↦ rw b (InOrder-drop_done now xs h.1)
  | inr b ↦ rw b h
]

-- Time goes on.
pub InOrder-mono :
    (now later : ℕ) (xs : List Item) → now ≤ later → InOrder now xs → InOrder later xs
InOrder-mono now later [] le h = tt
InOrder-mono now later (x ∷ xs) le h = (
  All-map (EndsBy now x.1) (EndsBy later x.1) xs (λ d e. omega (arith, le, e)) h.0,
  InOrder-mono now later xs le h.1,
)

-- Only the times matter.
pub InOrder-around :
    (now : ℕ) (before : List Item) (a : Item) (bs : List Item) (d : ProcEntry)
    → d.nsecs_target ≡ a.1.nsecs_target
    → InOrder now (around before a bs)
    → InOrder now (around before (a.0, d) bs)
InOrder-around now [] a bs d e h =
    (All-map (EndsBy now a.1) (EndsBy now d) bs (λ c le. omega (arith, le, e)) h.0, h.1)
InOrder-around now (y ∷ before) a bs d e h = (
  All-around (EndsBy now y.1) before a bs d (λ le. omega (arith, le, e)) h.0,
  InOrder-around now before a bs d e h.1,
)

-- The index is one of the list's.
abbrev pub Has : ℕ → List Item → Type 0
Has i [] = ⊥
Has i (x ∷ xs) = (i ≡ x.0) ⊎ Has i xs

module _ (i : ℕ) where
  pub Has-insert_behind :
      (p : Item → Bool) (x : Item) (xs : List Item)
      → (i ≡ x.0) ⊎ Has i xs
      → Has i (insert_behind p x xs)
  Has-insert_behind p x [] h = h
  Has-insert_behind p x (y ∷ ys) h = elim (Bool-cases (p y || any_of p ys)) [
    | inl b ↦ rw b (elim h [
      | inl e ↦ inr (Has-insert_behind p x ys (inl e))
      | inr (inl e) ↦ inl e
      | inr (inr r) ↦ inr (Has-insert_behind p x ys (inr r))
    ])
    | inr b ↦ rw b h
  ]

  pub Has-done :
      (now : ℕ) (xs : List Item) → Has i xs → Has i (take_done now xs) ⊎ Has i (drop_done now xs)
  Has-done now [] h = elim h [ ]
  Has-done now (x ∷ xs) h = elim (Bool-cases (is_done now x.1)) [
    | inl b ↦ elim h [
      | inl e ↦ inl (rw b (inl e))
      | inr r ↦ elim (Has-done now xs r) [ inl t ↦ inl (rw b (inr t)) | inr d ↦ inr (rw b d) ]
    ]
    | inr b ↦ inr (rw b h)
  ]

  pub Has-around :
      (xs : List Item)
      → Has i xs
      → (before : List Item) × (a : Item) × (bs : List Item) × (xs ≡ around before a bs) × (a.0 ≡ i)
  Has-around [] h = elim h [ ]
  Has-around (x ∷ xs) h = elim h [
    | inl e ↦ ([], x, xs, refl, sym e)
    | inr r ↦
        let (before, a, bs, e, here) = Has-around xs r in (x ∷ before, a, bs, ap (◌∷◌ x) e, here)
  ]
