-- ===== src/Worker/Reclaim/Walk.antt =====
-- io.c: how far the walk over the requests that are done gets.
use nvmevirt_hybrid.Prelude.{
  ℕ, zero, suc, ◌<◌, ◌≡◌, refl, ap, arith, inl, inr, Bool-cases, List, [], ◌∷◌, ◌++◌, length,
  if◌then◌else◌,
}
use nvmevirt_hybrid.Prelude.Run.{ok}
use nvmevirt_hybrid.Worker.{ProcInfo, nil}
use nvmevirt_hybrid.Worker.Reclaim.{is_done, last_done}
use nvmevirt_hybrid.Worker.Index.{Item}
use nvmevirt_hybrid.Worker.Chain.{linked, Seg, IsIo}
use nvmevirt_hybrid.Worker.Enqueue.Search.{index-ne-nil}

-- The requests in front that are done, and the others.
abbrev pub take_done : ℕ → List Item → List Item
take_done now [] = []
take_done now (x ∷ xs) = if is_done now x.1 then x ∷ take_done now xs else []

abbrev pub drop_done : ℕ → List Item → List Item
drop_done now [] = []
drop_done now (x ∷ xs) = if is_done now x.1 then drop_done now xs else x ∷ xs

pub take_done-append-drop_done :
    (now : ℕ) (xs : List Item) → xs ≡ take_done now xs ++ drop_done now xs
take_done-append-drop_done now [] = refl
take_done-append-drop_done now (x ∷ xs) = elim (Bool-cases (is_done now x.1)) [
  | inl h ↦ rw h (ap (◌∷◌ x) (take_done-append-drop_done now xs))
  | inr h ↦ rw h refl
]

abbrev pub last_of : ℕ → List Item → ℕ
last_of i [] = i
last_of i (x ∷ xs) = last_of x.0 xs

module _ (pi : ProcInfo) (small : length pi.proc_table < nil) where
  pub last_done_lem :
      (xs : List Item) (fuel p f l last : ℕ)
      → length xs < fuel
      → Seg pi.proc_table p f xs l nil
      → last_done fuel pi f last ≡ ok (last_of last (take_done pi.proc_io_nsecs xs))
  unfolding last_done
  last_done_lem xs zero p f l last h s = absurd (omega (arith, h))
  last_done_lem [] (suc fuel) p f l last h s = rw (s.0, last_done) refl
  last_done_lem (x ∷ xs) (suc fuel) p f l last h (n, at, holds, rest) =
      let more = last_done_lem xs fuel x.0 n l x.0 (omega (arith, h)) rest in
      let ne = index-ne-nil pi 0 small x.0 (linked x.1 n p) holds in
      let from_x : last_done (suc fuel) pi x.0 last
          ≡ ok (last_of last (take_done pi.proc_io_nsecs (x ∷ xs))) =
        elim (Bool-cases (is_done pi.proc_io_nsecs x.1)) [
          | inl b ↦ rw (ne, last_done, holds, b, more) refl
          | inr b ↦ rw (ne, last_done, holds, b) refl
        ] in
      rw at from_x

  pub last_done-IsIo :
      (xs : List Item) (fuel : ℕ)
      → length xs < fuel
      → IsIo pi.proc_table pi.io_seq pi.io_seq_end xs
      → last_done fuel pi pi.io_seq nil ≡ ok (last_of nil (take_done pi.proc_io_nsecs xs))
  last_done-IsIo [] fuel h s = last_done_lem [] fuel nil pi.io_seq nil nil h (s, refl)
  last_done-IsIo (x ∷ xs) fuel h s = last_done_lem (x ∷ xs) fuel nil pi.io_seq pi.io_seq_end nil h s

-- A list that is not empty has a last item.
pub last_of-snoc :
    (y : Item) (ys : List Item)
    → (before : List Item) × (a : Item) × (y ∷ ys ≡ before ++ a ∷ [])
      × ((c : ℕ) → last_of c (y ∷ ys) ≡ a.0)
last_of-snoc y [] = ([], y, refl, λ c. refl)
last_of-snoc y (z ∷ zs) =
    let (before, a, e, last) = last_of-snoc z zs in (y ∷ before, a, ap (◌∷◌ y) e, λ c. last y.0)
