-- ===== src/Worker/Chain/Free.antt =====
-- io.c: what changes to a table mean for its free list.
use nvmevirt_hybrid.Prelude.{
  ℕ, ◌<◌, ◌≡◌, refl, sym, ap, ◌∙◌, List, [], ◌∷◌, ◌++◌, some, get_elem?, set, length,
  some_injective, get_elem?-set_self, get_elem?-set_ne, get_elem?-lt-length,
}
use native.Mathlib.Decide.{ℕ_discrete}
use nvmevirt_hybrid.Worker.{ProcEntry}
use nvmevirt_hybrid.Worker.Index.{NotIn, Apart}
use nvmevirt_hybrid.Worker.Chain.{
  Table, FreeSeg, FreeSeg-set, FreeSeg-join, FreeSeg-split, SameOutside,
}

pub FreeSeg-SameOutside :
    (t s : Table) (js is : List ℕ) (f n : ℕ)
    → SameOutside js t s
    → Apart is js
    → FreeSeg t f is n
    → FreeSeg s f is n
FreeSeg-SameOutside t s js [] f n same a seg = seg
FreeSeg-SameOutside t s js (i ∷ is) f n same a (e, at, holds, rest) =
    (e, at, same.1 i a.0 ∙ holds, FreeSeg-SameOutside t s js is e.next n same a.1 rest)

pub FreeSeg-first-lt :
    (t : Table) (is : List ℕ) (j f n : ℕ) → FreeSeg t f (is ++ j ∷ []) n → f < length t
FreeSeg-first-lt t [] j f n (e, at, holds, rest) = rw at (get_elem?-lt-length t j e holds)
FreeSeg-first-lt t (i ∷ is) j f n (e, at, holds, rest) = rw at (get_elem?-lt-length t i e holds)

-- The back links do not matter to a list that is linked one way.
pub FreeSeg-set_prev :
    (t : Table) (i v : ℕ) (e : ProcEntry) (is : List ℕ) (f n : ℕ)
    → get_elem? t i ≡ some e
    → FreeSeg t f is n
    → FreeSeg (set t i (record e { prev = v })) f is n
FreeSeg-set_prev t i v e [] f n own s = s
FreeSeg-set_prev t i v e (j ∷ is) f n own (d, at, holds, rest) = elim (ℕ_discrete i j) [
  | yes same ↦
      let d1 = record e { prev = v } in
      let alike : e ≡ d = some_injective (sym own ∙ ap (get_elem? t) same ∙ holds) in
      let nexts : d.next ≡ d1.next = ap (λ (c : ProcEntry). c.next) (sym alike) in
      (
        d1,
        at,
        rw (← same) (get_elem?-set_self t i d1 (get_elem?-lt-length t i e own)),
        FreeSeg-set_prev t i v e is d1.next n own (rw (← nexts) rest),
      )
  | no ne ↦ (
    d,
    at,
    get_elem?-set_ne t i j (record e { prev = v }) ne ∙ holds,
    FreeSeg-set_prev t i v e is d.next n own rest,
  )
]

pub FreeSeg-set_next :
    (t : Table) (is : List ℕ) (j f n q : ℕ)
    → NotIn j is
    → FreeSeg t f (is ++ j ∷ []) n
    → (e : ProcEntry) × (get_elem? t j ≡ some e)
      × FreeSeg (set t j (record e { next = q })) f (is ++ j ∷ []) q
FreeSeg-set_next t is j f n q h s =
    let (m, front, (e, at, holds, ends)) = FreeSeg-split t is (j ∷ []) f n s in
    let e1 = record e { next = q } in
    let t1 = set t j e1 in
    (
      e,
      holds,
      FreeSeg-join t1 is (j ∷ []) f m q (FreeSeg-set t j e1 is f m h front)
          (e1, at, get_elem?-set_self t j e1 (get_elem?-lt-length t j e holds), refl),
    )

pub FreeSeg-first :
    (t : Table) (is : List ℕ) (j f n : ℕ)
    → FreeSeg t f (is ++ j ∷ []) n
    → (e : ProcEntry) × (get_elem? t f ≡ some e)
FreeSeg-first t [] j f n (e, at, holds, rest) = (e, rw at holds)
FreeSeg-first t (i ∷ is) j f n (e, at, holds, rest) = (e, rw at holds)

pub FreeSeg-Apart :
    (t : Table) (is : List ℕ) (j f n : ℕ) (js : List ℕ)
    → FreeSeg t f (is ++ j ∷ []) n
    → Apart (is ++ j ∷ []) js
    → NotIn f js
FreeSeg-Apart t [] j f n js (e, at, holds, rest) h = rw at h.0
FreeSeg-Apart t (i ∷ is) j f n js (e, at, holds, rest) h = rw at h.0
