-- ===== src/Worker/Chain.antt =====
-- io.c: what the links of the entries stand for.
pub mod Free
use nvmevirt_hybrid.Prelude.{
  ℕ, suc, true, ◌<◌, ◌≡◌, ◌≢◌, refl, sym, ap, ◌∙◌, arith, List, [], ◌∷◌, ◌++◌, some, get_elem?, set,
  length, length-set, some_injective, get_elem?-set_self, get_elem?-set_ne, get_elem?-lt-length,
}
use native.Mathlib.Decide.{ℕ_discrete}
use nvmevirt_hybrid.Worker.{ProcEntry, nil}
use nvmevirt_hybrid.Worker.Index.{
  Item, indices, NotIn, Distinct, NotIn-append, NotIn-left, NotIn-right, indices-append,
  Distinct-left, Distinct-right, Apart, Apart-grow, Apart-nil, Distinct-Apart, around, NotIn-around,
  Distinct-around, length-around, append_nil, NotIn-move, Distinct-move, NotIn-unmove, NotIn-rotate,
  Distinct-rotate, length-indices, Apart-last, Apart-around,
}

abbrev pub Table : Type 0
Table = List ProcEntry

abbrev pub linked : ProcEntry → ℕ → ℕ → ProcEntry
linked d n p = record d { next = n; prev = p }

-- From `first` the links lead through the items to `next`, and back from `last` to `prev`.
abbrev pub Seg : Table → ℕ → ℕ → List Item → ℕ → ℕ → Type 0
Seg t prev first [] last next = (first ≡ next) × (last ≡ prev)
Seg t prev first (x ∷ xs) last next =
    (n : ℕ) × (first ≡ x.0)
    × (get_elem? t x.0 ≡ some (linked x.1 n prev))
    × Seg t x.0 n xs last next

-- The free list is linked one way only, and the contents of its entries are left over.
abbrev pub FreeSeg : Table → ℕ → List ℕ → ℕ → Type 0
FreeSeg t first [] next = first ≡ next
FreeSeg t first (i ∷ is) next =
    (e : ProcEntry) × (first ≡ i) × (get_elem? t i ≡ some e) × FreeSeg t e.next is next

pub Seg-join :
    (t : Table) (xs ys : List Item) (p f l n l' n' : ℕ)
    → Seg t p f xs l' n'
    → Seg t l' n' ys l n
    → Seg t p f (xs ++ ys) l n
Seg-join t [] ys p f l n l' n' (e1, e2) r = rw (e1, ← e2) r
Seg-join t (x ∷ xs) ys p f l n l' n' (m, at, holds, rest) r =
    (m, at, holds, Seg-join t xs ys x.0 m l n l' n' rest r)

module _ (t : Table) where
  -- A write to another entry leaves a list alone.
  pub Seg-set :
      (i : ℕ) (e : ProcEntry) (xs : List Item) (p f l n : ℕ)
      → NotIn i (indices xs)
      → Seg t p f xs l n
      → Seg (set t i e) p f xs l n
  Seg-set i e [] p f l n h s = s
  Seg-set i e (x ∷ xs) p f l n h (m, at, holds, rest) =
      (m, at, get_elem?-set_ne t i x.0 e h.0 ∙ holds, Seg-set i e xs x.0 m l n h.1 rest)

  pub FreeSeg-set :
      (i : ℕ) (e : ProcEntry) (is : List ℕ) (f n : ℕ)
      → NotIn i is
      → FreeSeg t f is n
      → FreeSeg (set t i e) f is n
  FreeSeg-set i e [] f n h s = s
  FreeSeg-set i e (j ∷ is) f n h (d, at, holds, rest) =
      (d, at, get_elem?-set_ne t i j e h.0 ∙ holds, FreeSeg-set i e is d.next n h.1 rest)

  pub Seg-split :
      (xs ys : List Item) (p f l n : ℕ)
      → Seg t p f (xs ++ ys) l n
      → (l' : ℕ) × (n' : ℕ) × Seg t p f xs l' n' × Seg t l' n' ys l n
  Seg-split [] ys p f l n s = (p, f, (refl, refl), s)
  Seg-split (x ∷ xs) ys p f l n (m, at, holds, rest) =
      let (l', n', s, r) = Seg-split xs ys x.0 m l n rest in (l', n', (m, at, holds, s), r)

  pub FreeSeg-join :
      (is js : List ℕ) (f m n : ℕ) → FreeSeg t f is m → FreeSeg t m js n → FreeSeg t f (is ++ js) n
  FreeSeg-join [] js f m n e r = rw e r
  FreeSeg-join (i ∷ is) js f m n (d, at, holds, rest) r =
      (d, at, holds, FreeSeg-join is js d.next m n rest r)

  pub FreeSeg-split :
      (is js : List ℕ) (f n : ℕ)
      → FreeSeg t f (is ++ js) n
      → (m : ℕ) × FreeSeg t f is m × FreeSeg t m js n
  FreeSeg-split [] js f n s = (f, refl, s)
  FreeSeg-split (i ∷ is) js f n (d, at, holds, rest) =
      let (m, s, r) = FreeSeg-split is js d.next n rest in (m, (d, at, holds, s), r)

  -- The items of a list may be handed to the free list.
  pub Seg-FreeSeg : (xs : List Item) (p f l n : ℕ) → Seg t p f xs l n → FreeSeg t f (indices xs) n
  Seg-FreeSeg [] p f l n s = s.0
  Seg-FreeSeg (x ∷ xs) p f l n (m, at, holds, rest) =
      (linked x.1 m p, at, holds, Seg-FreeSeg xs x.0 m l n rest)

  -- The link in front of a list that is not empty.
  pub Seg-set_prev :
      (x : Item) (xs : List Item) (p q f l n : ℕ)
      → NotIn x.0 (indices xs)
      → Seg t p f (x ∷ xs) l n
      → (m : ℕ) × (get_elem? t x.0 ≡ some (linked x.1 m p))
        × Seg (set t x.0 (linked x.1 m q)) q x.0 (x ∷ xs) l n
  Seg-set_prev x xs p q f l n h (m, at, holds, rest) = (
    m,
    holds,
    (
      m,
      refl,
      get_elem?-set_self t x.0 (linked x.1 m q) (get_elem?-lt-length t x.0 _ holds),
      Seg-set x.0 (linked x.1 m q) xs x.0 m l n h rest,
    ),
  )

  -- The link behind a list that ends with `x`.
  pub Seg-set_next :
      (xs : List Item) (x : Item) (p f l n q : ℕ)
      → NotIn x.0 (indices xs)
      → Seg t p f (xs ++ x ∷ []) l n
      → (m : ℕ) × (l ≡ x.0)
        × (get_elem? t x.0 ≡ some (linked x.1 n m))
        × Seg (set t x.0 (linked x.1 q m)) p f (xs ++ x ∷ []) l q
  Seg-set_next xs x p f l n q h s =
      let (l', n', front, (m, at, holds, (e1, e2))) = Seg-split xs (x ∷ []) p f l n s in
      let holds1 : get_elem? t x.0 ≡ some (linked x.1 n l') = rw (← e1) holds in
      let t1 = set t x.0 (linked x.1 q l') in
      let front1 : Seg t1 p f xs l' n' = Seg-set x.0 (linked x.1 q l') xs p f l' n' h front in
      let back : Seg t1 l' n' (x ∷ []) l q = (
        q,
        at,
        get_elem?-set_self t x.0 (linked x.1 q l') (get_elem?-lt-length t x.0 _ holds),
        (refl, e2),
      ) in
      (l', e2, holds1, Seg-join t1 xs (x ∷ []) p f l q l' n' front1 back)

-- Two tables agree on all entries but those listed.
abbrev pub SameOutside : List ℕ → Table → Table → Type 0
SameOutside is t s = (length s ≡ length t) × ((i : ℕ) → NotIn i is → get_elem? s i ≡ get_elem? t i)

pub SameOutside-set :
    (t s : Table) (js : List ℕ) (i : ℕ) (e : ProcEntry)
    → SameOutside js t s
    → ((k : ℕ) → NotIn k js → i ≢ k)
    → SameOutside js t (set s i e)
SameOutside-set t s js i e same out =
    (length-set s i e ∙ same.0, λ k h. get_elem?-set_ne s i k e (out k h) ∙ same.1 k h)

-- The list of requests: its last entry matters only if there is one.
abbrev pub IsIo : Table → ℕ → ℕ → List Item → Type 0
IsIo t first last [] = first ≡ nil
IsIo t first last (x ∷ xs) = Seg t nil first (x ∷ xs) last nil

pub Seg-IsIo : (t : Table) (xs : List Item) (f l : ℕ) → Seg t nil f xs l nil → IsIo t f l xs
Seg-IsIo t [] f l s = s.0
Seg-IsIo t (x ∷ xs) f l s = s

pub IsIo-Seg :
    (t : Table) (before : List Item) (a : Item) (bs : List Item) (f l : ℕ)
    → IsIo t f l (around before a bs)
    → Seg t nil f (around before a bs) l nil
IsIo-Seg t [] a bs f l s = s
IsIo-Seg t (y ∷ before) a bs f l s = s

pub Seg-last :
    (t : Table) (xs : List Item) (x : Item) (p f l n : ℕ) → Seg t p f (xs ++ x ∷ []) l n → l ≡ x.0
Seg-last t [] x p f l n s = s.3.1
Seg-last t (y ∷ xs) x p f l n s = Seg-last t xs x y.0 s.0 l n s.3

pub IsIo-set :
    (t : Table) (i : ℕ) (e : ProcEntry) (xs : List Item) (f l : ℕ)
    → NotIn i (indices xs)
    → IsIo t f l xs
    → IsIo (set t i e) f l xs
IsIo-set t i e [] f l h s = s
IsIo-set t i e (x ∷ xs) f l h s = Seg-set t i e (x ∷ xs) nil f l nil h s

-- The entry is complete.
abbrev pub IsComplete : Table → ℕ → Type 0
IsComplete t i = (e : ProcEntry) × (get_elem? t i ≡ some e) × (e.is_completed ≡ true)

abbrev pub KeepsComplete : Table → Table → Type 0
KeepsComplete t s = (i : ℕ) → IsComplete t i → IsComplete s i

pub KeepsComplete-set :
    (t : Table) (i : ℕ) (c d : ProcEntry)
    → get_elem? t i ≡ some c
    → d.is_completed ≡ c.is_completed
    → KeepsComplete t (set t i d)
KeepsComplete-set t i c d own same j (e, at, done) = elim (ℕ_discrete i j) [
  | yes here ↦
      let alike : c ≡ e = some_injective (sym own ∙ ap (get_elem? t) here ∙ at) in
      (
        d,
        rw (← here) (get_elem?-set_self t i d (get_elem?-lt-length t i c own)),
        same ∙ ap (λ (x : ProcEntry). x.is_completed) alike ∙ done,
      )
  | no ne ↦ (e, get_elem?-set_ne t i j d ne ∙ at, done)
]
