-- ===== src/Worker/Pass/Round.antt =====
-- io.c: a round of the worker's loop, wherever the worker stands.
use mathlib.Core.Path.{subst}
use nvmevirt_hybrid.Prelude.{
  ℕ, ◌≤◌, ◌≡◌, ◌≢◌, refl, sym, ◌∙◌, arith, inl, inr, true, false, Bool-cases, List, [], ◌∷◌, ◌++◌,
  leb, leb→le,
}
use nvmevirt_hybrid.Prelude.Run.{ok}
use nvmevirt_hybrid.Worker.{ProcEntry, nil}
use nvmevirt_hybrid.Worker.Queues.{Queues}
use nvmevirt_hybrid.Worker.Order.{
  All, InOrder, All-around, All_at, All-map, InOrder-mono, InOrder-around, Has, Has-around,
}
use nvmevirt_hybrid.Worker.Completion.{Cqes}
use nvmevirt_hybrid.Worker.Completion.Ring.{Ready}
use nvmevirt_hybrid.Worker.Pass.{WorkerState, visit, marked, finished}
use nvmevirt_hybrid.Worker.Pass.Visit.{CanComplete, serve, first_of, visit-Queues}
use nvmevirt_hybrid.Worker.Pass.Cursor.{InTail, Stands, visit-InTail}
use nvmevirt_hybrid.Worker.Index.{Item, around}
use nvmevirt_hybrid.Worker.Chain.{Table, IsIo}
use nvmevirt_hybrid.Worker.Pass.Thread.{Thread, IsFair, IsSafe, true_ne_false}

pub Stands-first :
    (t : Table) (io : List Item) (f l : ℕ) (is : List ℕ) → IsIo t f l io → Stands t f io is
Stands-first t [] f l is s = inl s
Stands-first t (x ∷ xs) f l is s = inr (inl (inl s.1))

Has-next :
    (before : List Item) (a : Item) (b : Item) (bs : List Item) → Has b.0 (around before a (b ∷ bs))
Has-next [] a b bs = inr (inl refl)
Has-next (y ∷ before) a b bs = inr (Has-next before a b bs)

Stands-next :
    (t : Table) (before : List Item) (a : Item) (bs : List Item) (is : List ℕ)
    → Stands t (first_of bs nil) (around before a bs) is
Stands-next t before a [] is = inl refl
Stands-next t before a (b ∷ bs) is = inr (inl (Has-next before a b bs))

serve-target : (now : ℕ) (d : ProcEntry) → (serve now d).nsecs_target ≡ d.nsecs_target
serve-target now d = ground arith

CanComplete-serve :
    (now : ℕ) (cqes : Cqes) (d : ProcEntry) → CanComplete cqes d → CanComplete cqes (serve now d)
CanComplete-serve now cqes d can = elim (Bool-cases d.is_completed) [
  | inl b ↦ subst (CanComplete cqes) (sym (serve_done b)) can
  | inr b ↦ elim (Bool-cases (leb d.nsecs_target now)) [
    | inl c ↦ subst (CanComplete cqes) (sym (serve_due b c)) can
    | inr c ↦ subst (CanComplete cqes) (sym (serve_early b c)) can
  ]
]
  where
    serve_done : d.is_completed ≡ true → serve now d ≡ d
    serve_done b = simp b

    serve_due :
        d.is_completed ≡ false → leb d.nsecs_target now ≡ true → serve now d ≡ finished (marked d)
    serve_due b c = simp (b, c)

    serve_early : d.is_completed ≡ false → leb d.nsecs_target now ≡ false → serve now d ≡ marked d
    serve_early b c = simp (b, c)

serve-due :
    (now : ℕ) (d : ProcEntry)
    → (d.is_completed ≡ true → d.nsecs_target ≤ now)
    → (serve now d).is_completed ≡ true
    → d.nsecs_target ≤ now
serve-due now d h done = elim (Bool-cases d.is_completed) [
  | inl b ↦ h b
  | inr b ↦ elim (Bool-cases (leb d.nsecs_target now)) [
    | inl c ↦ leb→le d.nsecs_target now c
    | inr c ↦ absurd (true_ne_false (sym done ∙ simp (b, c)))
  ]
]

module _ (nr_max now : ℕ) (s : Thread) (later : s.w.pi.proc_io_nsecs ≤ now) where
  IsFair-later :
      (w : WorkerState) (io : List Item)
      → ((id : ℕ) → Ready s.w.cqes id → Ready w.cqes id)
      → All (IsFair s.w.pi.proc_io_nsecs s.w.cqes) io
      → All (IsFair now w.cqes) io
  IsFair-later w io keeps a =
      All-map (IsFair s.w.pi.proc_io_nsecs s.w.cqes) (IsFair now w.cqes) io
        (λ d f. record {
          can = elim f.can [ inl wb ↦ inl wb | inr r ↦ inr (keeps d.cqid r) ];
          due = λ done. omega (arith, later, f.due done);
        })
        a

  visit_at :
      (before : List Item) (a : Item) (bs : List Item) (v : IsSafe nr_max s)
      → v.io ≡ around before a bs
      → a.0 ≡ s.curr
      → (w : WorkerState) × (n : ℕ) × (visit now s.curr s.w ≡ ok (w, n))
        × IsSafe nr_max (record { w = w; curr = n })
  visit_at before a bs v e at =
      let now0 = s.w.pi.proc_io_nsecs in
      let d = serve now a.1 in
      let q = subst (λ io. Queues nr_max s.w.pi io v.free) e v.queues in
      let fair = subst (All (IsFair now0 s.w.cqes)) e v.fair in
      let order = subst (InOrder now0) e v.order in
      let can = (All_at (IsFair now0 s.w.cqes) before a bs fair).can in
      let (w, runs, q1, end, time, keeps) = visit-Queues nr_max now s.w before a bs v.free q can in
      (
        w,
        first_of bs nil,
        subst (λ c. visit now c s.w ≡ ok (w, first_of bs nil)) at runs,
        record {
          io = around before (a.0, d) bs;
          free = v.free;
          queues = q1;
          order = rw time (
              InOrder-around now before a bs d (serve-target now a.1)
                (InOrder-mono now0 now (around before a bs) later order));
          fair = rw time (
              All-around (IsFair now w.cqes) before a bs d
                (λ f. record {
                  can = CanComplete-serve now w.cqes a.1 f.can;
                  due = λ done. omega (arith, serve-target now a.1, serve-due now a.1 f.due done);
                })
                (IsFair-later w (around before a bs) keeps fair));
          stands =
              Stands-next w.pi.proc_table before (a.0, d) bs (v.free ++ w.pi.free_seq_end ∷ []);
        },
      )

  -- The times of the clock alone do not matter to the lists.
  visit_free :
      (v : IsSafe nr_max s)
      → InTail s.w.pi.proc_table s.curr (v.free ++ s.w.pi.free_seq_end ∷ [])
      → (w : WorkerState) × (n : ℕ) × (visit now s.curr s.w ≡ ok (w, n))
        × IsSafe nr_max (record { w = w; curr = n })
  visit_free v tail =
      let (n, runs, st) =
        visit-InTail now s.curr s.w (v.free ++ s.w.pi.free_seq_end ∷ []) s.w.pi.free_seq
          v.queues.free_list tail in
      let w = record s.w { pi = record s.w.pi { proc_io_nsecs = now } } in
      let q = v.queues in
      (
        w,
        n,
        runs,
        record {
          io = v.io;
          free = v.free;
          queues = record {
            size = q.size;
            bound = q.bound;
            io_list = q.io_list;
            free_list = q.free_list;
            distinct = q.distinct;
            total = q.total;
          };
          order = InOrder-mono s.w.pi.proc_io_nsecs now v.io later v.order;
          fair = IsFair-later w v.io (λ id r. r) v.fair;
          stands = elim st [ inl e ↦ inl e | inr t ↦ inr (inr t) ];
        },
      )

  -- If the table is in order, the requests are in the order of their ends, each can be completed and is not
  -- complete before its time, the worker stands on a request or on the entry of a completed one, and the
  -- clock did not go back, then a round of the worker's loop returns, and leaves all of this so, or the
  -- worker behind the last entry.
  pub visit-IsSafe :
      IsSafe nr_max s
      → s.curr ≢ nil
      → (w : WorkerState) × (n : ℕ) × (visit now s.curr s.w ≡ ok (w, n))
        × IsSafe nr_max (record { w = w; curr = n })
  visit-IsSafe v ne = elim v.stands [
    | inl e ↦ absurd (ne e)
    | inr (inl h) ↦
        let (before, a, bs, e, at) = Has-around s.curr v.io h in visit_at before a bs v e at
    | inr (inr t) ↦ visit_free v t
  ]
