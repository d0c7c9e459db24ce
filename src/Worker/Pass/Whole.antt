-- ===== src/Worker/Pass/Whole.antt =====
-- io.c: a pass of the worker over all its requests.
use mathlib.Core.Path.{subst}
use mathlib.Core.List.{append_assoc}
use nvmevirt_hybrid.Prelude.{
  ℕ, zero, suc, ◌≤◌, ◌<◌, ◌≡◌, refl, sym, arith, inl, inr, true, List, [], ◌∷◌, ◌++◌, length,
}
use nvmevirt_hybrid.Prelude.Run.{ok}
use nvmevirt_hybrid.Worker.{ProcEntry, nil}
use nvmevirt_hybrid.Worker.Queues.{Queues}
use nvmevirt_hybrid.Worker.Order.{All, All-map}
use nvmevirt_hybrid.Worker.Pass.{WorkerState, pass}
use nvmevirt_hybrid.Worker.Pass.Visit.{CanComplete, serve, first_of, visit-Queues, request-ne-nil}
use nvmevirt_hybrid.Worker.Index.{Item, around}
use nvmevirt_hybrid.Worker.Chain.{IsIo}

module _ (clock : ℕ → ℕ) where
  -- The requests behind a pass whose first reading of the clock is the `n`-th.
  abbrev pub served : ℕ → List Item → List Item
  served n [] = []
  served n (x ∷ xs) = (x.0, serve (clock n) x.1) ∷ served (suc n) xs

  pass_from :
      (nr_max : ℕ) (xs before : List Item) (fuel n : ℕ) (w : WorkerState) (free : List ℕ)
      → length xs < fuel
      → Queues nr_max w.pi (before ++ xs) free
      → All (CanComplete w.cqes) xs
      → (w1 : WorkerState) × (pass clock fuel n w (first_of xs nil) ≡ ok w1)
        × Queues nr_max w1.pi (before ++ served n xs) free
  unfolding pass
  pass_from nr_max xs before zero n w free h q can = absurd (omega (arith, h))
  pass_from nr_max [] before (suc fuel) n w free h q can = (w, refl, q)
  pass_from nr_max (x ∷ xs) before (suc fuel) n w free h q can =
      let q0 : Queues nr_max w.pi (around before x xs) free =
        subst (λ l. Queues nr_max w.pi l free) (sym (append_assoc before (x ∷ []) xs)) q in
      let (w1, runs, q1, end, time, keeps) =
        visit-Queues nr_max (clock n) w before x xs free q0 can.0 in
      let x1 : Item = (x.0, serve (clock n) x.1) in
      let can1 =
        All-map (CanComplete w.cqes) (CanComplete w1.cqes) xs
          (λ d c. elim c [ inl wb ↦ inl wb | inr r ↦ inr (keeps d.cqid r) ]) can.1 in
      let (w2, more, q2) =
        pass_from nr_max xs (before ++ x1 ∷ []) fuel (suc n) w1 free (omega (arith, h)) q1 can1 in
      (
        w2,
        rw (request-ne-nil nr_max w.pi before x xs free q0, pass, runs) more,
        subst (λ l. Queues nr_max w2.pi l free) (append_assoc before (x1 ∷ []) (served (suc n) xs))
            q2,
      )

  -- A pass over the whole list, from its head.
  pub pass_lem :
      (nr_max : ℕ) (io : List Item) (fuel n : ℕ) (w : WorkerState) (free : List ℕ)
      → length io < fuel
      → Queues nr_max w.pi io free
      → All (CanComplete w.cqes) io
      → (w1 : WorkerState) × (pass clock fuel n w w.pi.io_seq ≡ ok w1)
        × Queues nr_max w1.pi (served n io) free
  pass_lem nr_max io fuel n w free h q can =
      let (w1, runs, q1) = pass_from nr_max io [] fuel n w free h q can in
      (w1, subst (λ c. pass clock fuel n w c ≡ ok w1) (sym (head_of io q.io_list)) runs, q1)
    where
      head_of :
          (xs : List Item)
          → IsIo w.pi.proc_table w.pi.io_seq w.pi.io_seq_end xs
          → w.pi.io_seq ≡ first_of xs nil
      head_of [] s = s
      head_of (x ∷ xs) s = s.1

  serve_complete :
      (now t : ℕ) (d : ProcEntry)
      → t ≤ now
      → (serve now d).nsecs_target ≤ t
      → (serve now d).is_completed ≡ true
  serve_complete now t d h le = ground arith

  served_complete :
      (t n : ℕ) (xs : List Item)
      → ((k : ℕ) → n ≤ k → t ≤ clock k)
      → All (λ d. d.nsecs_target ≤ t → d.is_completed ≡ true) (served n xs)
  served_complete t n [] h = tt
  served_complete t n (x ∷ xs) h = (
    serve_complete (clock n) t x.1 (h n (omega arith)),
    served_complete t (suc n) xs (λ k le. h k (omega (arith, le))),
  )

  -- If the table is in order, every request has a completion queue in order or is a writeback, and the
  -- clock's readings from the pass on are not before `t`, then with a unit of fuel more than there are
  -- requests a pass from the head of the list returns. Each request that ends by `t` is complete behind
  -- it, and the requests stay in their order, only with their marks set as `serve` says.
  pub pass_completes :
      (nr_max : ℕ) (io : List Item) (fuel t n : ℕ) (w : WorkerState) (free : List ℕ)
      → length io < fuel
      → Queues nr_max w.pi io free
      → All (CanComplete w.cqes) io
      → ((k : ℕ) → n ≤ k → t ≤ clock k)
      → (w1 : WorkerState) × (pass clock fuel n w w.pi.io_seq ≡ ok w1)
        × Queues nr_max w1.pi (served n io) free
        × All (λ d. d.nsecs_target ≤ t → d.is_completed ≡ true) (served n io)
  pass_completes nr_max io fuel t n w free h q can from_t =
      let (w1, runs, q1) = pass_lem nr_max io fuel n w free h q can in
      (w1, runs, q1, served_complete t n io from_t)
