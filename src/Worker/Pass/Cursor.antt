-- ===== src/Worker/Pass/Cursor.antt =====
-- io.c: where a worker may stand while requests come and go.
use mathlib.Core.Path.{subst}
use mathlib.Core.List.{append_assoc}
use nvmevirt_hybrid.Prelude.{
  ℕ, ◌≡◌, refl, sym, ap, ◌∙◌, ◌⊎◌, inl, inr, Bool, true, false, ◌&&◌, Bool-cases, List, [], ◌∷◌,
  ◌++◌, get_elem?, leb, some_injective,
}
use nvmevirt_hybrid.Prelude.Run.{ok}
use nvmevirt_hybrid.Worker.{ProcEntry, nil}
use nvmevirt_hybrid.Worker.Enqueue.Search.{insert_behind}
use nvmevirt_hybrid.Worker.Order.{Has, Has-insert_behind, Has-done}
use nvmevirt_hybrid.Worker.Reclaim.{is_done}
use nvmevirt_hybrid.Worker.Reclaim.Walk.{take_done, drop_done}
use nvmevirt_hybrid.Worker.Pass.{WorkerState, visit}
use nvmevirt_hybrid.Worker.Index.{Item, indices, NotIn, Apart}
use nvmevirt_hybrid.Worker.Chain.{
  Table, linked, Seg, FreeSeg, FreeSeg-split, IsComplete, KeepsComplete, IsIo,
}

abbrev pub AllComplete : Table → List ℕ → Type 0
AllComplete t [] = Unit
AllComplete t (i ∷ is) = IsComplete t i × AllComplete t is

pub AllComplete-append :
    (t : Table) (is js : List ℕ) → AllComplete t is → AllComplete t js → AllComplete t (is ++ js)
AllComplete-append t [] js a b = b
AllComplete-append t (i ∷ is) js a b = (a.0, AllComplete-append t is js a.1 b)

pub AllComplete-keep :
    (t s : Table) (is : List ℕ) → KeepsComplete t s → AllComplete t is → AllComplete s is
AllComplete-keep t s [] k a = tt
AllComplete-keep t s (i ∷ is) k a = (k i a.0, AllComplete-keep t s is k a.1)

-- The entry is free, and so are those behind it, which all belonged to completed requests.
abbrev pub InTail : Table → ℕ → List ℕ → Type 0
InTail t curr is =
    (us : List ℕ) × (rs : List ℕ) × (is ≡ us ++ curr ∷ rs) × AllComplete t (curr ∷ rs)

-- The worker has no entry, or that of a request, or one that was reclaimed under it.
abbrev pub Stands : Table → ℕ → List Item → List ℕ → Type 0
Stands t curr io is = (curr ≡ nil) ⊎ (Has curr io ⊎ InTail t curr is)

-- The requests that are done are complete, whichever of them the worker stands on.
take_done_complete :
    (t : Table) (now : ℕ) (xs : List Item) (p f l n : ℕ)
    → Seg t p f xs l n
    → AllComplete t (indices (take_done now xs))
take_done_complete t now [] p f l n s = tt
take_done_complete t now (x ∷ xs) p f l n (m, at, holds, rest) =
    elim (Bool-cases (is_done now x.1)) [
      | inl b ↦ rw b (
        (
          linked x.1 m p,
          holds,
          first_true x.1.is_completed (x.1.is_copied && leb x.1.nsecs_target now) b,
        ),
        take_done_complete t now xs x.0 m l n rest,
      )
      | inr b ↦ rw b tt
    ]
  where
    first_true : (b c : Bool) → (b && c) ≡ true → b ≡ true
    first_true true c h = refl
    first_true false c h = h

pub take_done-AllComplete :
    (t : Table) (now : ℕ) (xs : List Item) (f l : ℕ)
    → IsIo t f l xs
    → AllComplete t (indices (take_done now xs))
take_done-AllComplete t now [] f l s = tt
take_done-AllComplete t now (x ∷ xs) f l s = take_done_complete t now (x ∷ xs) nil f l nil s

-- A position among given indices, and what is behind it.
pub Has-split :
    (i : ℕ) (xs : List Item)
    → Has i xs
    → (us : List ℕ) × (rs : List ℕ) × (indices xs ≡ us ++ i ∷ rs)
Has-split i [] h = elim h [ ]
Has-split i (x ∷ xs) h = elim h [
  | inl e ↦ ([], indices xs, ap (λ k. k ∷ indices xs) (sym e))
  | inr r ↦ let (us, rs, e) = Has-split i xs r in (x.0 ∷ us, rs, ap (◌∷◌ x.0) e)
]

pub AllComplete-right : (t : Table) (us is : List ℕ) → AllComplete t (us ++ is) → AllComplete t is
AllComplete-right t [] is a = a
AllComplete-right t (u ∷ us) is a = AllComplete-right t us is a.1

-- From an entry of the tail a visit leads to the next one of the tail.
pub visit-InTail :
    (now curr : ℕ) (w : WorkerState) (is : List ℕ) (f : ℕ)
    → FreeSeg w.pi.proc_table f is nil
    → InTail w.pi.proc_table curr is
    → (n : ℕ) × (visit now curr w ≡ ok (record w { pi = record w.pi { proc_io_nsecs = now } }, n))
      × ((n ≡ nil) ⊎ InTail w.pi.proc_table n is)
unfolding visit
visit-InTail now curr w is f seg (us, rs, e, ((c, at, done), behind)) =
    let t = w.pi.proc_table in
    let seg1 = subst (λ js. FreeSeg t f js nil) e seg in
    let (m, s0, (d, here, holds, rest)) = FreeSeg-split t us (curr ∷ rs) f nil seg1 in
    let same : d ≡ c = some_injective (sym holds ∙ at) in
    let rest1 : FreeSeg t c.next rs nil = rw (← same) rest in
    (c.next, simp (at, done), next_in us rs e behind rest1)
  where
    next_in :
        (us rs : List ℕ)
        → is ≡ us ++ curr ∷ rs
        → AllComplete w.pi.proc_table rs
        → FreeSeg w.pi.proc_table c.next rs nil
        → (c.next ≡ nil) ⊎ InTail w.pi.proc_table c.next is
    next_in us [] e a s = inl s
    next_in us (r ∷ rs) e a s = inr (
      us ++ curr ∷ [],
      rs,
      rw s.1 (e ∙ sym (append_assoc us (curr ∷ []) (r ∷ rs))),
      (rw s.1 a.0, a.1),
    )

AllComplete-same :
    (t s : Table) (js is : List ℕ)
    → ((i : ℕ) → NotIn i js → get_elem? s i ≡ get_elem? t i)
    → Apart is js
    → AllComplete t is
    → AllComplete s is
AllComplete-same t s js [] same apart a = tt
AllComplete-same t s js (i ∷ is) same apart a =
    ((a.0.0, same i apart.0 ∙ a.0.1, a.0.2), AllComplete-same t s js is same apart.1 a.1)

Apart-right : (us is js : List ℕ) → Apart (us ++ is) js → Apart is js
Apart-right [] is js a = a
Apart-right (u ∷ us) is js a = Apart-right us is js a.1

tail_eq : {x y : ℕ} {xs ys : List ℕ} → x ∷ xs ≡ y ∷ ys → xs ≡ ys
tail_eq {x} {y} {xs} h = ap (λ (l : List ℕ). elim l [ [] ↦ xs | z ∷ zs ↦ zs ]) h

head_eq : {x y : ℕ} {xs ys : List ℕ} → x ∷ xs ≡ y ∷ ys → x ≡ y
head_eq {x} h = ap (λ (l : List ℕ). elim l [ [] ↦ x | z ∷ zs ↦ z ]) h

-- The first free entry is taken for a new request.
pub Stands-take :
    (t s : Table) (curr x : ℕ) (p : Item → Bool) (d : ProcEntry) (io : List Item) (js : List ℕ)
    → ((i : ℕ) → NotIn i (x ∷ indices io) → get_elem? s i ≡ get_elem? t i)
    → Apart js (x ∷ indices io)
    → Stands t curr io (x ∷ js)
    → Stands s curr (insert_behind p (x, d) io) js
Stands-take t s curr x p d io js same apart (inl e) = inl e
Stands-take t s curr x p d io js same apart (inr (inl h)) =
    inr (inl (Has-insert_behind curr p (x, d) io (inr h)))
Stands-take t s curr x p d io js same apart (inr (inr ([], rs, e, a))) =
    inr (inl (Has-insert_behind curr p (x, d) io (inl (sym (head_eq e)))))
Stands-take t s curr x p d io js same apart (inr (inr (u ∷ us, rs, e, a))) =
    let e1 = tail_eq e in
    let apart1 =
      Apart-right us (curr ∷ rs) (x ∷ indices io)
        (subst (λ is. Apart is (x ∷ indices io)) e1 apart) in
    inr (inr (us, rs, e1, AllComplete-same t s (x ∷ indices io) (curr ∷ rs) same apart1 a))

-- The requests in front that are done become the end of the free list.
pub Stands-reclaim :
    (t s : Table) (curr now : ℕ) (io : List Item) (js ks : List ℕ)
    → AllComplete t (indices (take_done now io))
    → KeepsComplete t s
    → ks ≡ js ++ indices (take_done now io)
    → Stands t curr io js
    → Stands s curr (drop_done now io) ks
Stands-reclaim t s curr now io js ks done keep e (inl n) = inl n
Stands-reclaim t s curr now io js ks done keep e (inr (inl h)) = elim (Has-done curr now io h) [
  | inl front ↦
      let (us, rs, split) = Has-split curr (take_done now io) front in
      inr (
        inr (
          js ++ us,
          rs,
          e ∙ ap (λ is. js ++ is) split ∙ sym (append_assoc js us (curr ∷ rs)),
          AllComplete-keep t s (curr ∷ rs) keep
              (AllComplete-right t us (curr ∷ rs) (subst (AllComplete t) split done)),
        ))
  | inr back ↦ inr (inl back)
]
Stands-reclaim t s curr now io js ks done keep e (inr (inr (us, rs, split, a))) = inr (
    inr (
      us,
      rs ++ indices (take_done now io),
      e
          ∙ ap (λ is. is ++ indices (take_done now io)) split
          ∙ append_assoc us (curr ∷ rs) (indices (take_done now io)),
      AllComplete-keep t s (curr ∷ (rs ++ indices (take_done now io))) keep
          (AllComplete-append t (curr ∷ rs) (indices (take_done now io)) a done),
    ))
