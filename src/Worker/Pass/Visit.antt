-- ===== src/Worker/Pass/Visit.antt =====
-- io.c: what a round of the worker's loop does to the lists.
use mathlib.Core.Path.{subst}
use nvmevirt_hybrid.Prelude.{
  ℕ, suc, ◌≡◌, refl, sym, ap, ◌∙◌, arith, ◌⊎◌, inl, inr, true, false, Bool-cases, List, [], ◌∷◌,
  ◌++◌, some, get_elem?, set, length, leb, ◌==◌, if◌then◌else◌, length-set, set_self,
  get_elem?-set_self, get_elem?-lt-length,
}
use nvmevirt_hybrid.Prelude.Run.{ok}
use nvmevirt_hybrid.Worker.{ProcEntry, ProcInfo, nil, put_entry}
use nvmevirt_hybrid.Worker.Queues.{Queues}
use nvmevirt_hybrid.Worker.Enqueue.Search.{index-ne-nil}
use nvmevirt_hybrid.Worker.Completion.{Cqes}
use nvmevirt_hybrid.Worker.Completion.Ring.{Ready, post-Ready}
use nvmevirt_hybrid.Worker.Pass.{
  WorkerState, release_buffer, visit, copy, complete, marked, finished,
}
use nvmevirt_hybrid.Worker.Index.{
  Item, indices, NotIn, Distinct, Distinct-left, around, Distinct-around, Distinct-Apart,
  Distinct-rotate, Apart-around,
}
use nvmevirt_hybrid.Worker.Chain.{
  Table, linked, Seg, Seg-set, Seg-split, Seg-join, IsIo-Seg, Seg-IsIo, FreeSeg-set,
}

-- What a visit at time `now` makes of an entry.
abbrev pub serve : ℕ → ProcEntry → ProcEntry
serve now d =
    if d.is_completed then d else if leb d.nsecs_target now then finished (marked d) else marked d

abbrev pub first_of : List Item → ℕ → ℕ
first_of [] n = n
first_of (x ∷ xs) n = x.0

indices-serve :
    (before : List Item) (a : Item) (d : ProcEntry) (bs : List Item)
    → indices (around before (a.0, d) bs) ≡ indices (around before a bs)
indices-serve [] a d bs = refl
indices-serve (y ∷ before) a d bs = ap (◌∷◌ y.0) (indices-serve before a d bs)

length-serve :
    (before : List Item) (a : Item) (d : ProcEntry) (bs : List Item)
    → length (around before (a.0, d) bs) ≡ length (around before a bs)
length-serve [] a d bs = refl
length-serve (y ∷ before) a d bs = ap suc (length-serve before a d bs)

Seg-first : (t : Table) (xs : List Item) (p f l n : ℕ) → Seg t p f xs l n → f ≡ first_of xs n
Seg-first t [] p f l n s = s.0
Seg-first t (x ∷ xs) p f l n s = s.1

-- The contents of one entry may change.
Seg-set_item :
    (t : Table) (before : List Item) (a : Item) (bs : List Item) (p f l n : ℕ)
    → Distinct (indices (around before a bs))
    → Seg t p f (around before a bs) l n
    → (k : ℕ) × (m : ℕ) × (get_elem? t a.0 ≡ some (linked a.1 k m))
      × (k ≡ first_of bs n)
      × ((d : ProcEntry) → Seg (set t a.0 (linked d k m)) p f (around before (a.0, d) bs) l n)
Seg-set_item t before a bs p f l n dist s =
    let (l1, n1, s1, r1) = Seg-split t (before ++ a ∷ []) bs p f l n s in
    let (m, n2, s2, (k, at, holds, ends)) = Seg-split t before (a ∷ []) p f l1 n1 s1 in
    let (a0, a1, a2, a3) = Distinct-around before a bs dist in
    (
      k,
      m,
      holds,
      ends.0 ∙ Seg-first t bs l1 n1 l n r1,
      λ d.
          let e = linked d k m in
          let t1 = set t a.0 e in
          let here : Seg t1 m n2 ((a.0, d) ∷ []) l1 n1 =
            (k, at, get_elem?-set_self t a.0 e (get_elem?-lt-length t a.0 _ holds), ends) in
          Seg-join t1 (before ++ (a.0, d) ∷ []) bs p f l n l1 n1
            (Seg-join t1 before ((a.0, d) ∷ []) p f l1 n1 m n2
              (Seg-set t a.0 e before p f m n2 a0 s2) here)
            (Seg-set t a.0 e bs l1 n1 l n a1 r1),
    )

-- A request can be completed: it is a writeback, or its queue is there.
abbrev pub CanComplete : Cqes → ProcEntry → Type 0
CanComplete cqes d = (d.writeback_cmd ≡ true) ⊎ Ready cqes d.cqid

copy-keeps : (e : ProcEntry) (w : WorkerState) → ((copy e w).pi ≡ w.pi) × ((copy e w).cqes ≡ w.cqes)
unfolding copy
copy-keeps e w = ground arith

complete_lem :
    (e : ProcEntry) (w : WorkerState)
    → CanComplete w.cqes e
    → (w1 : WorkerState) × (complete e w ≡ ok w1)
      × (w1.pi ≡ w.pi)
      × ((id : ℕ) → Ready w.cqes id → Ready w1.cqes id)
unfolding complete
complete_lem e w can = elim (Bool-cases e.writeback_cmd) [
  | inl b ↦ (
    record w { jobs = w.jobs ++ release_buffer e.write_buffer e.buffs_to_release ∷ [] },
    rw b refl,
    refl,
    λ id r. r,
  )
  | inr b ↦ elim can [
    | inl wb ↦ cc
    | inr ready ↦
        let (after, runs, keeps) = post-Ready e w.cqes ready in
        (record w { cqes = after }, simp (b, runs), refl, keeps)
  ]
]

-- The entry's links stay as they are.
serve-linked :
    (now : ℕ) (d : ProcEntry) (k m : ℕ) → serve now (linked d k m) ≡ linked (serve now d) k m
serve-linked now d k m = elim (Bool-cases d.is_completed) [
  | inl b ↦ rw b refl
  | inr b ↦ elim (Bool-cases (leb d.nsecs_target now)) [
    | inl c ↦ rw (b, c) refl
    | inr c ↦ rw (b, c) refl
  ]
]

visit-due :
    (now curr : ℕ) (w w2 : WorkerState) (e : ProcEntry)
    → get_elem? w.pi.proc_table curr ≡ some e
    → e.is_completed ≡ false
    → leb e.nsecs_target now ≡ true
    → complete (marked e) (copy e (record w { pi = record w.pi { proc_io_nsecs = now } })) ≡ ok w2
    → visit now curr w
      ≡ ok (
        record w2 {
          pi = put_entry (record w.pi { proc_io_nsecs = now }) curr (finished (marked e));
        },
        e.next,
      )
unfolding visit
visit-due now curr w w2 e at b c runs = simp (at, b, c, runs)

-- A visit returns, and changes nothing in the table but what the visited entry holds.
visit-entry :
    (now curr : ℕ) (w : WorkerState) (e : ProcEntry)
    → get_elem? w.pi.proc_table curr ≡ some e
    → CanComplete w.cqes e
    → (w1 : WorkerState) × (visit now curr w ≡ ok (w1, e.next))
      × (w1.pi ≡ record w.pi {
        proc_io_nsecs = now;
        proc_table = set w.pi.proc_table curr (serve now e);
      })
      × ((id : ℕ) → Ready w.cqes id → Ready w1.cqes id)
unfolding visit
visit-entry now curr w e at can =
    let w0 = record w { pi = record w.pi { proc_io_nsecs = now } } in
    let (same_pi, same_cqes) = copy-keeps e w0 in
    let t = w.pi.proc_table in
    elim (Bool-cases e.is_completed) [
      | inl b ↦
          let same : serve now e ≡ e = simp b in
          (
            w0,
            simp (at, b),
            ap (λ (s : Table). record w.pi { proc_io_nsecs = now; proc_table = s })
                (sym (ap (set t curr) same ∙ set_self t curr e at)),
            λ id r. r,
          )
      | inr b ↦ elim (Bool-cases (leb e.nsecs_target now)) [
        | inl c ↦
            let same : serve now e ≡ finished (marked e) = simp (b, c) in
            let can1 = subst (λ q. CanComplete q (marked e)) (sym same_cqes) can in
            let (w2, runs, pi_eq, keeps) = complete_lem (marked e) (copy e w0) can1 in
            (
              record w2 { pi = put_entry w0.pi curr (finished (marked e)) },
              visit-due now curr w w2 e at b c runs,
              ap (λ d. record w.pi { proc_io_nsecs = now; proc_table = set t curr d }) (sym same),
              λ id r. keeps id (subst (λ q. Ready q id) (sym same_cqes) r),
            )
        | inr c ↦
            let same : serve now e ≡ marked e = simp (b, c) in
            let w1 = copy e w0 in
            (
              record w1 { pi = put_entry w0.pi curr (marked e) },
              simp (at, b, c),
              ap (λ d. record w.pi { proc_io_nsecs = now; proc_table = set t curr d }) (sym same),
              λ id r. subst (λ q. Ready q id) (sym same_cqes) r,
            )
      ]
    ]

-- A visit to a request of the list.
pub visit-Queues :
    (nr_max now : ℕ) (w : WorkerState) (before : List Item) (a : Item) (bs : List Item)
    (free : List ℕ)
    → Queues nr_max w.pi (around before a bs) free
    → CanComplete w.cqes a.1
    → (w1 : WorkerState) × (visit now a.0 w ≡ ok (w1, first_of bs nil))
      × Queues nr_max w1.pi (around before (a.0, serve now a.1) bs) free
      × (w1.pi.free_seq_end ≡ w.pi.free_seq_end)
      × (w1.pi.proc_io_nsecs ≡ now)
      × ((id : ℕ) → Ready w.cqes id → Ready w1.cqes id)
visit-Queues nr_max now w before a bs free v can =
    let pi = w.pi in
    let t = pi.proc_table in
    let rest = free ++ pi.free_seq_end ∷ [] in
    let dist = Distinct-left (indices (around before a bs)) rest v.distinct in
    let (k, m, holds, next, list) =
      Seg-set_item t before a bs nil pi.io_seq pi.io_seq_end nil dist
        (IsIo-Seg t before a bs pi.io_seq pi.io_seq_end v.io_list) in
    let (w1, runs, pi_eq, keeps) = visit-entry now a.0 w (linked a.1 k m) holds can in
    let d = serve now a.1 in
    let t1 = set t a.0 (linked d k m) in
    let p1 = record pi { proc_io_nsecs = now; proc_table = t1 } in
    let p1_eq : w1.pi ≡ p1 =
      pi_eq
      ∙ ap (λ e. record pi { proc_io_nsecs = now; proc_table = set t a.0 e })
          (serve-linked now a.1 k m) in
    let out : NotIn a.0 rest = Apart-around before a bs rest (
      Distinct-Apart rest (indices (around before a bs))
        (Distinct-rotate (indices (around before a bs)) rest v.distinct)) in
    let q : Queues nr_max p1 (around before (a.0, d) bs) free = record {
      size = length-set t a.0 (linked d k m) ∙ v.size;
      bound = v.bound;
      io_list = Seg-IsIo t1 (around before (a.0, d) bs) pi.io_seq pi.io_seq_end (list d);
      free_list = FreeSeg-set t a.0 (linked d k m) rest pi.free_seq nil out v.free_list;
      distinct = rw (indices-serve before a d bs) v.distinct;
      total = omega (arith, length-serve before a d bs, v.total);
    } in
    (
      w1,
      runs ∙ ap (λ n. ok (w1, n)) next,
      subst (λ p. Queues nr_max p (around before (a.0, d) bs) free) (sym p1_eq) q,
      ap (λ (p : ProcInfo). p.free_seq_end) p1_eq,
      ap (λ (p : ProcInfo). p.proc_io_nsecs) p1_eq,
      keeps,
    )

-- A request's index is not -1.
pub request-ne-nil :
    (nr_max : ℕ) (pi : ProcInfo) (before : List Item) (a : Item) (bs : List Item) (free : List ℕ)
    → Queues nr_max pi (around before a bs) free
    → (a.0 == nil) ≡ false
request-ne-nil nr_max pi before a bs free v =
    let t = pi.proc_table in
    let dist =
      Distinct-left (indices (around before a bs)) (free ++ pi.free_seq_end ∷ []) v.distinct in
    let (k, m, holds, next, list) =
      Seg-set_item t before a bs nil pi.io_seq pi.io_seq_end nil dist
        (IsIo-Seg t before a bs pi.io_seq pi.io_seq_end v.io_list) in
    index-ne-nil pi 0 (omega (arith, v.size, v.bound)) a.0 (linked a.1 k m) holds
