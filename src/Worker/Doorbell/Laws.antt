-- ===== src/Worker/Doorbell/Laws.antt =====
-- io.c: which entries of a submission queue a doorbell hands out, and in which order.
use nvmevirt_hybrid.Prelude.{
  ℕ, zero, suc, ◌+◌, ◌-◌, ◌%◌, ◌≤◌, ◌<◌, ◌≡◌, refl, ap, ◌∙◌, arith, ◌⊎◌, inl, inr, true, false,
  Bool-cases, Option, none, some, Option-cases, List, [], ◌∷◌, ltb, ◌==◌, if◌then◌else◌, u32_mod,
  ==-false,
}
use nvmevirt_hybrid.Prelude.Div.{mod_small, mod_add_self}
use nvmevirt_hybrid.Prelude.Run.{Run, ok}
use nvmevirt_hybrid.Worker.Doorbell.{
  SqStat, u32_add, int_max, dispatched, num_proc, sq_rounds, proc_io_sq,
}

-- `n` entries of a queue of that size, from `entry` on.
abbrev pub ring : ℕ → ℕ → ℕ → List ℕ
ring size entry zero = []
ring size entry (suc n) = entry ∷ ring size (if entry + 1 == size then 0 else entry + 1) n

module _ {D : Type 0} (proc_io : D → ℕ → Run (D × Option ℕ)) where
  -- The handler took each of the entries, one behind the other.
  pub data Takes : D → List ℕ → D → Type 0 where
    done : (d : D) → Takes d [] d
    more :
        (d d1 d2 : D) (entry io_size : ℕ) (entries : List ℕ)
        → proc_io d entry ≡ ok (d1, some io_size)
        → Takes d1 entries d2
        → Takes d (entry ∷ entries) d2

  -- The loop took `k` entries of `n`, and the handler refused the next one, if there was one.
  pub record Handed (n size : ℕ) (d : D) (s : SqStat) (entry : ℕ) (d' : D) (s' : SqStat) (k : ℕ)
      : Type 0 where
    pub within : k ≤ n
    pub last : D
    pub takes : Takes d (ring size entry k) last
    pub stops : ((k ≡ n) × (d' ≡ last)) ⊎ ((refused : ℕ) × (proc_io last refused ≡ ok (d', none)))
    pub in_flight : s'.nr_in_flight % u32_mod ≡ u32_add s.nr_in_flight k
    pub nr_dispatched : s'.nr_dispatched % u32_mod ≡ u32_add s.nr_dispatched k

  -- `Good` is what the handler needs, and keeps.
  module _ (size : ℕ) (Good : D → Type 0)
      (returns : (d : D) (entry : ℕ)
        → Good d
        → (d1 : D) × (o : Option ℕ) × (proc_io d entry ≡ ok (d1, o)) × Good d1) where
    sq_rounds_lem :
        (n : ℕ) (d : D) (s : SqStat) (entry seq : ℕ)
        → Good d
        → (d1 : D) × (s1 : SqStat) × (k : ℕ) × (sq_rounds proc_io size n d s entry seq
            ≡ ok (d1, s1, seq + k))
          × Handed n size d s entry d1 s1 k
          × Good d1
    unfolding sq_rounds dispatched
    sq_rounds_lem zero d s entry seq good =
        let count : seq ≡ seq + 0 = omega arith in
        (
          d,
          s,
          0,
          ap (λ (i : ℕ). ok (d, s, i)) count,
          record {
            within = omega arith;
            last = d;
            takes = done d;
            stops = inl (refl, refl);
            in_flight = omega arith;
            nr_dispatched = omega arith;
          },
          good,
        )
    sq_rounds_lem (suc n) d s entry seq good =
        let (d1, o, runs, good1) = returns d entry good in
        elim (Option-cases o) [
          | inl refused ↦
              let count : seq ≡ seq + 0 = omega arith in
              let runs1 : proc_io d entry ≡ ok (d1, none) = rw refused at runs in
              (
                d1,
                s,
                0,
                rw runs1 (ap (λ (i : ℕ). ok (d1, s, i)) count),
                record {
                  within = omega arith;
                  last = d;
                  takes = done d;
                  stops = inr (entry, runs1);
                  in_flight = omega arith;
                  nr_dispatched = omega arith;
                },
                good1,
              )
          | inr (io_size, yes_eq) ↦
              let runs1 : proc_io d entry ≡ ok (d1, some io_size) = rw yes_eq at runs in
              let next = if entry + 1 == size then 0 else entry + 1 in
              let (d2, s2, k, more_runs, h, good2) =
                sq_rounds_lem n d1 (dispatched io_size s) next (seq + 1) good1 in
              let count : (seq + 1) + k ≡ seq + suc k = omega arith in
              (
                d2,
                s2,
                suc k,
                rw runs1 (more_runs ∙ ap (λ (i : ℕ). ok (d2, s2, i)) count),
                record {
                  within = omega (arith, h.within);
                  last = h.last;
                  takes = more d d1 h.last entry io_size (ring size next k) runs1 h.takes;
                  stops = elim h.stops [ inl (all, same) ↦ inl (ap suc all, same) | inr r ↦ inr r ];
                  in_flight = omega (arith, h.in_flight);
                  nr_dispatched = omega (arith, h.nr_dispatched);
                },
                good2,
              )
        ]

    abbrev counted : SqStat → SqStat
    counted s = record s {
      nr_dispatch = u32_add s.nr_dispatch 1;
      max_nr_in_flight = int_max s.max_nr_in_flight s.nr_in_flight;
    }

    proc_io_sq_runs :
        (d d1 : D) (s s1 : SqStat) (new_db old_db k : ℕ)
        → new_db < size
        → sq_rounds proc_io size (num_proc size new_db old_db) d s old_db 0 ≡ ok (d1, s1, 0 + k)
        → proc_io_sq proc_io size d s new_db old_db ≡ ok (d1, counted s1, (old_db + k) % size)
    unfolding proc_io_sq
    proc_io_sq_runs d d1 s s1 new_db old_db k new_in runs =
        let nonzero : (size == 0) ≡ false = ==-false size 0 (λ e. omega (arith, e, new_in)) in
        let seq : 0 + k ≡ k = omega arith in rw (runs, nonzero, seq) refl

    -- When the handler returns for every entry from a device that is in order, and leaves it in order,
    -- nvmev_proc_io_sq returns too, and leaves it in order. It hands out the entries from the old doorbell on, in the ring's order, up to the first one that is refused, and at most as
    -- many as there are up to the new doorbell; the doorbell it keeps is the one behind the last entry
    -- handed out, and the new one if all were. Both doorbells are below the queue's size.
    pub proc_io_sq_lem :
        (d : D) (s : SqStat) (new_db old_db : ℕ)
        → new_db < size
        → old_db < size
        → Good d
        → (d1 : D) × (s1 : SqStat) × (k : ℕ) × (proc_io_sq proc_io size d s new_db old_db
            ≡ ok (d1, s1, (old_db + k) % size))
          × Handed (num_proc size new_db old_db) size d s old_db d1 s1 k
          × Good d1
          × (k ≡ num_proc size new_db old_db → (old_db + k) % size ≡ new_db)
    unfolding num_proc
    proc_io_sq_lem d s new_db old_db new_in old_in good =
        let n = num_proc size new_db old_db in
        let (d1, s1, k, runs, h, good1) = sq_rounds_lem n d s old_db 0 good in
        (
          d1,
          counted s1,
          k,
          proc_io_sq_runs d d1 s s1 new_db old_db k new_in runs,
          record {
            within = h.within;
            last = h.last;
            takes = h.takes;
            stops = h.stops;
            in_flight = h.in_flight;
            nr_dispatched = h.nr_dispatched;
          },
          good1,
          λ all. elim (Bool-cases (ltb new_db old_db)) [
            | inl b ↦ back_at k b (all ∙ simp b)
            | inr b ↦ on_at k b (all ∙ simp b)
          ],
        )
      where
        back_at :
            (k : ℕ)
            → ltb new_db old_db ≡ true
            → k ≡ new_db + size - old_db
            → (old_db + k) % size ≡ new_db
        back_at k b e =
            let sum : old_db + k ≡ size + new_db = omega (arith, e, new_in, old_in) in
            ap (λ (i : ℕ). i % size) sum ∙ mod_add_self new_db size new_in

        on_at :
            (k : ℕ) → ltb new_db old_db ≡ false → k ≡ new_db - old_db → (old_db + k) % size ≡ new_db
        on_at k b e =
            let le : old_db ≤ new_db = ground (arith, b) in
            let sum : old_db + k ≡ new_db = omega (arith, e, le) in
            ap (λ (i : ℕ). i % size) sum ∙ mod_small new_db size new_in
