-- ===== src/Worker/Doorbell/Landing.antt =====
-- io.c: the loop of nvmev_proc_io_cq.
use nvmevirt_hybrid.Prelude.{
  ℕ, zero, suc, ◌+◌, ◌-◌, ◌%◌, ◌≤◌, ◌<◌, ◌≡◌, refl, ◌∙◌, arith, ◌⊎◌, inl, inr, false, Bool-cases,
  List, some, get_elem?, set, length, leb, ◌==◌, if◌then◌else◌, u32_mod, length-set,
  lt-length→get_elem?,
}
use nvmevirt_hybrid.Prelude.Run.{ok}
use nvmevirt_hybrid.Worker.{nil}
use nvmevirt_hybrid.Worker.Doorbell.{lands, cq_rounds, nvmev_proc_io_cq}

module _ (sq_ids : List ℕ) (new_db : ℕ) (new_in : new_db < length sq_ids) where
  -- The loop has `d` rounds to go from place `i` on.
  abbrev Away : ℕ → ℕ → Type 0
  Away i d = (i + d ≡ new_db) ⊎ ((new_db < i) × (i + d ≡ length sq_ids + 1 + new_db))

  Away-next :
      (i d : ℕ)
      → i < length sq_ids
      → (i == new_db) ≡ false
      → Away i d
      → (e : ℕ) × (d ≡ suc e) × Away (i + 1) e
  Away-next i zero h ne (inl e) = absurd (ground (arith, e, ne))
  Away-next i zero h ne (inr (lt, e)) = absurd (omega (arith, e, h))
  Away-next i (suc d) h ne (inl e) = (d, refl, inl (omega (arith, e)))
  Away-next i (suc d) h ne (inr (lt, e)) = (d, refl, inr (omega (arith, lt), omega (arith, e)))

  Away-wrap :
      (i d : ℕ)
      → length sq_ids ≤ i
      → i ≤ length sq_ids
      → Away i d
      → (e : ℕ) × (d ≡ suc e) × Away 0 e
  Away-wrap i d ge le (inl e) = absurd (omega (arith, e, ge, new_in))
  Away-wrap i d ge le (inr (lt, e)) = (new_db, omega (arith, e, ge, le), inl (omega arith))

  Away-first : (i : ℕ) → i < length sq_ids → (d : ℕ) × (d < length sq_ids + 2) × Away i d
  Away-first i h = elim (Bool-cases (leb i new_db)) [
    | inl b ↦
        let le : i ≤ new_db = ground (arith, b) in
        (new_db - i, omega (arith, new_in), inl (omega (arith, le)))
    | inr b ↦
        let lt : new_db < i = ground (arith, b) in
        (length sq_ids + 1 + new_db - i, omega (arith, lt), inr (lt, omega (arith, lt, h)))
  ]

  cq_rounds_lem :
      (fuel : ℕ) (in_flight : List ℕ) (i d : ℕ)
      → d < fuel
      → i ≤ length sq_ids
      → Away i d
      → ((j id : ℕ) → get_elem? sq_ids j ≡ some id → id < length in_flight)
      → (counts : List ℕ) × (cq_rounds fuel sq_ids new_db in_flight i ≡ ok counts)
        × (length counts ≡ length in_flight)
  unfolding cq_rounds lands
  cq_rounds_lem zero in_flight i d h le a known = absurd (omega (arith, h))
  cq_rounds_lem (suc fuel) in_flight i d h le a known = elim (Bool-cases (i == new_db)) [
    | inl b ↦ (in_flight, rw (b, cq_rounds) refl, refl)
    | inr b ↦ elim (Bool-cases (leb (length sq_ids) i)) [
      | inl past ↦
          let ge : length sq_ids ≤ i = ground (arith, past) in
          let (e, less, a1) = Away-wrap i d ge le a in
          let (counts, runs, size) =
            cq_rounds_lem fuel in_flight 0 e (omega (arith, less, h)) (omega arith) a1 known in
          (counts, rw (b, cq_rounds, past) runs, size)
      | inr within ↦
          let lt : i < length sq_ids = ground (arith, within) in
          let (e, less, a1) = Away-next i d lt b a in
          let (id, at) = lt-length→get_elem? sq_ids i lt in
          let (n, has) = lt-length→get_elem? in_flight id (known i id at) in
          let next = set in_flight id ((n + u32_mod - 1) % u32_mod) in
          let size1 = length-set in_flight id ((n + u32_mod - 1) % u32_mod) in
          let (counts, runs, size) =
            cq_rounds_lem fuel next (i + 1) e (omega (arith, less, h)) (omega (arith, lt)) a1
              (λ j k at1. omega (arith, size1, known j k at1)) in
          (counts, rw (b, cq_rounds, within, at, has) runs, size ∙ size1)
    ]
  ]

-- If both doorbells are below the queue's size and the queues that its entries name exist, nvmev_proc_io_cq
-- returns, with a count for each queue; two rounds more than the queue has places are enough.
nvmev_proc_io_cq_total :
    (sq_ids : List ℕ) (new_db old_db : ℕ) (in_flight : List ℕ)
    → new_db < length sq_ids
    → old_db < length sq_ids
    → ((j id : ℕ) → get_elem? sq_ids j ≡ some id → id < length in_flight)
    → (counts : List ℕ) × (cq_tail : ℕ) × (nvmev_proc_io_cq
          (length sq_ids + 2)
          sq_ids
          new_db
          old_db
          in_flight
        ≡ ok (counts, cq_tail))
      × (length counts ≡ length in_flight)
unfolding nvmev_proc_io_cq
nvmev_proc_io_cq_total sq_ids new_db old_db in_flight new_in old_in known =
    let (d, short, away) = Away-first sq_ids new_db new_in old_db old_in in
    let (counts, runs, size) =
      cq_rounds_lem sq_ids new_db new_in (length sq_ids + 2) in_flight old_db d short
        (omega (arith, old_in)) away known in
    (
      counts,
      if new_db == nil then length sq_ids - 1 else (new_db + u32_mod - 1) % u32_mod,
      rw runs refl,
      size,
    )
