-- ===== src/Worker/Enqueue/Search.antt =====
-- io.c: where a new request goes.
use nvmevirt_hybrid.Prelude.{
  ℕ, suc, ◌+◌, ◌<◌, ◌≡◌, refl, ap, ◌∙◌, arith, ◌⊎◌, inl, inr, Bool, true, false, ◌||◌, Bool-cases,
  List, [], ◌∷◌, ◌++◌, some, get_elem?, length, leb, ◌==◌, if◌then◌else◌, get_elem?-lt-length,
  if_true,
}
use nvmevirt_hybrid.Prelude.Run.{ok}
use nvmevirt_hybrid.Worker.{ProcEntry, ProcInfo, nil}
use nvmevirt_hybrid.Worker.Enqueue.{search_back}
use nvmevirt_hybrid.Worker.Index.{Item}
use nvmevirt_hybrid.Worker.Chain.{linked, Seg}

-- A request that ends at `target` may stand behind this one.
abbrev pub goes_before : ℕ → ℕ → Item → Bool
goes_before now target x = leb x.1.nsecs_target now || leb x.1.nsecs_target target

abbrev pub any_of : (Item → Bool) → List Item → Bool
any_of p [] = false
any_of p (x ∷ xs) = p x || any_of p xs

abbrev pub None : (Item → Bool) → List Item → Type 0
None p [] = Unit
None p (x ∷ xs) = (p x ≡ false) × None p xs

-- Behind the last item that passes the test, or in front.
abbrev pub insert_behind : (Item → Bool) → Item → List Item → List Item
insert_behind p x [] = x ∷ []
insert_behind p x (y ∷ ys) = if p y || any_of p ys then y ∷ insert_behind p x ys else x ∷ y ∷ ys

-- The two places that there are.
abbrev pub Front : (Item → Bool) → Item → List Item → Type 0
Front p x xs = None p xs × (any_of p xs ≡ false) × (insert_behind p x xs ≡ x ∷ xs)

abbrev pub Behind : (Item → Bool) → Item → List Item → Type 0
Behind p x xs =
    (before : List Item) × (a : Item) × (bs : List Item) × (xs ≡ (before ++ a ∷ []) ++ bs)
    × (p a ≡ true)
    × None p bs
    × (any_of p xs ≡ true)
    × (insert_behind p x xs ≡ (before ++ a ∷ []) ++ x ∷ bs)

pub place : (p : Item → Bool) (x : Item) (xs : List Item) → Front p x xs ⊎ Behind p x xs
place p x [] = inl (tt, refl, refl)
place p x (y ∷ ys) = elim (place p x ys) [
  | inl (none, any, ins) ↦ elim (Bool-cases (p y)) [
    | inl h ↦ inr ([], y, ys, refl, h, none, rw h refl, rw (h, ins) refl)
    | inr h ↦ inl ((h, none), rw (h, any) refl, rw (h, any) refl)
  ]
  | inr (before, a, bs, e, h, none, any, ins) ↦ inr (
    y ∷ before,
    a,
    bs,
    ap (◌∷◌ y) e,
    h,
    none,
    or_true (p y) any,
    if_true (p y || any_of p ys) (y ∷ insert_behind p x ys) (x ∷ y ∷ ys) (or_true (p y) any)
        ∙ ap (◌∷◌ y) ins,
  )
]
  where
    or_true : (b : Bool) {c : Bool} → c ≡ true → (b || c) ≡ true
    or_true true h = refl
    or_true false h = h

module _ (pi : ProcInfo) (target : ℕ) (small : length pi.proc_table < nil) where
  -- An entry's index is not -1.
  pub index-ne-nil :
      (i : ℕ) (e : ProcEntry) → get_elem? pi.proc_table i ≡ some e → (i == nil) ≡ false
  index-ne-nil i e at =
      let lt = get_elem?-lt-length pi.proc_table i e at in ground (arith, lt, small)

  -- The search passes over requests that end later.
  pub search_back_over :
      (bs : List Item) (fuel p f l n : ℕ)
      → None (goes_before pi.proc_io_nsecs target) bs
      → Seg pi.proc_table p f bs l n
      → search_back (length bs + fuel) pi target l ≡ search_back fuel pi target p
  unfolding search_back
  search_back_over [] fuel p f l n none s =
      let count : 0 + fuel ≡ fuel = omega arith in rw (s.1, count) refl
  search_back_over (b ∷ bs) fuel p f l n (fails, none) (m, at, holds, rest) =
      let later = search_back_over bs (suc fuel) b.0 m l n none rest in
      let count : length (b ∷ bs) + fuel ≡ length bs + suc fuel = omega arith in
      rw (count, later, index-ne-nil b.0 (linked b.1 m p) holds, search_back, holds, fails) refl

  -- It stops at the last one that does not.
  pub search_back_stops :
      (fuel : ℕ) (a : Item) (n m : ℕ)
      → goes_before pi.proc_io_nsecs target a ≡ true
      → get_elem? pi.proc_table a.0 ≡ some (linked a.1 n m)
      → search_back (suc fuel) pi target a.0 ≡ ok a.0
  unfolding search_back
  search_back_stops fuel a n m passes holds =
      rw (index-ne-nil a.0 (linked a.1 n m) holds, search_back, holds, passes) refl

  pub search_back_end : (fuel : ℕ) → search_back (suc fuel) pi target nil ≡ ok nil
  unfolding search_back
  search_back_end fuel = refl
