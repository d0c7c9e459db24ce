-- ===== src/Worker/Queues.antt =====
-- io.c: the two lists of a worker, and what a new request does to them.
use nvmevirt_hybrid.Prelude.{
  ℕ, suc, ◌+◌, ◌<◌, ◌≤◌, ◌≡◌, ◌≢◌, refl, sym, ap, ◌∙◌, arith, inl, inr, Bool, true, false, ◌||◌,
  Bool-cases, List, [], ◌∷◌, ◌++◌, some, get_elem?, set, length, leb, ltb, get_elem?-lt-length,
  get_elem?-set_ne, get_elem?-set_self, length-set, leb-false, lt→ltb,
}
use nvmevirt_hybrid.Prelude.Run.{ok}
use nvmevirt_hybrid.Worker.{ProcEntry, ProcInfo, nil}
use nvmevirt_hybrid.Worker.Enqueue.{insert_entry, enqueue}
use nvmevirt_hybrid.Worker.Enqueue.Search.{goes_before, any_of, insert_behind}
use nvmevirt_hybrid.Worker.Enqueue.Laws.{insert_entry_lem}
use nvmevirt_hybrid.Worker.Index.{
  Item, indices, NotIn, Distinct, Distinct-left, Distinct-right, Distinct-move, NotIn-move,
  Apart-grow, Distinct-Apart,
}
use nvmevirt_hybrid.Worker.Chain.{linked, IsIo, IsIo-set, FreeSeg, FreeSeg-set}
use nvmevirt_hybrid.Worker.Chain.Free.{FreeSeg-SameOutside, FreeSeg-first-lt}

-- The requests `io` in their order, and the free entries: `free`, and the last one, which is never
-- taken. Each entry of the table is in one of them, once.
pub record Queues (nr_max : ℕ) (pi : ProcInfo) (io : List Item) (free : List ℕ) : Type 0 where
  pub size : length pi.proc_table ≡ nr_max
  pub bound : nr_max < nil
  pub io_list : IsIo pi.proc_table pi.io_seq pi.io_seq_end io
  pub free_list : FreeSeg pi.proc_table pi.free_seq (free ++ pi.free_seq_end ∷ []) nil
  pub distinct : Distinct (indices io ++ (free ++ pi.free_seq_end ∷ []))
  pub total : length io + length free + 1 ≡ nr_max

module _ (p : Item → Bool) (x : Item) where
  length-insert_behind : (xs : List Item) → length (insert_behind p x xs) ≡ suc (length xs)
  length-insert_behind [] = refl
  length-insert_behind (y ∷ ys) = elim (Bool-cases (p y || any_of p ys)) [
    | inl h ↦ rw (h, length-insert_behind ys) refl
    | inr h ↦ rw h refl
  ]

  NotIn-insert_behind :
      (k : ℕ) (xs : List Item) (js : List ℕ)
      → NotIn k (indices xs ++ x.0 ∷ js)
      → NotIn k (indices (insert_behind p x xs) ++ js)
  NotIn-insert_behind k [] js h = h
  NotIn-insert_behind k (y ∷ ys) js h = elim (Bool-cases (p y || any_of p ys)) [
    | inl b ↦ rw b (h.0, NotIn-insert_behind k ys js h.1)
    | inr b ↦ let (n0, n1) = NotIn-move k x.0 (indices ys) js h.1 in rw b (n0, (h.0, n1))
  ]

  Distinct-insert_behind :
      (xs : List Item) (js : List ℕ)
      → Distinct (indices xs ++ x.0 ∷ js)
      → Distinct (indices (insert_behind p x xs) ++ js)
  Distinct-insert_behind [] js h = h
  Distinct-insert_behind (y ∷ ys) js h = elim (Bool-cases (p y || any_of p ys)) [
    | inl b ↦ rw b (NotIn-insert_behind y.0 ys js h.0, Distinct-insert_behind ys js h.1)
    | inr b ↦ let d = Distinct-move x.0 (y.0 ∷ indices ys) js h in rw b d
  ]

module _ (nr_max : ℕ) (fill : ProcEntry → ProcEntry)
    (clean : (e : ProcEntry) → fill e ≡ linked (fill e) nil nil) where
  enqueue_runs :
      (pi : ProcInfo) (x : ℕ) (e : ProcEntry) (q : ProcInfo)
      → pi.free_seq ≡ x
      → get_elem? pi.proc_table x ≡ some e
      → leb nr_max e.next ≡ false
      → ltb e.next nr_max ≡ true
      → insert_entry
          (record pi { free_seq = e.next; proc_table = set pi.proc_table x (fill e) })
          x
          (fill e).nsecs_target
        ≡ ok q
      → enqueue nr_max fill pi ≡ ok (q, true)
  unfolding enqueue
  enqueue_runs pi x e q first holds go fits runs = rw (first, holds, go, fits, runs) refl

  -- With more than one free entry in a table in order, a request that is written without links is
  -- taken into the first one, and goes behind the last request that is due or ends no later, or to the
  -- front if there is none. The table is in order again, the time and the end of the free list are as
  -- they were, and so are all entries that are not the request's nor an earlier one's.
  pub enqueue_lem :
      (pi : ProcInfo) (io : List Item) (x : ℕ) (free : List ℕ)
      → Queues nr_max pi io (x ∷ free)
      → (e : ProcEntry) × (q : ProcInfo) × (get_elem? pi.proc_table x ≡ some e)
        × (enqueue nr_max fill pi ≡ ok (q, true))
        × Queues nr_max q
            (insert_behind (goes_before pi.proc_io_nsecs (fill e).nsecs_target) (x, fill e) io)
            free
        × (q.proc_io_nsecs ≡ pi.proc_io_nsecs)
        × (q.free_seq_end ≡ pi.free_seq_end)
        × ((i : ℕ)
            → i ≢ x
            → NotIn i (indices io)
            → get_elem? q.proc_table i ≡ get_elem? pi.proc_table i)
  enqueue_lem pi io x free v =
      let t = pi.proc_table in
      let rest = free ++ pi.free_seq_end ∷ [] in
      let (e, first, holds, list) = v.free_list in
      let x_lt : x < length t = get_elem?-lt-length t x e holds in
      let next_lt : e.next < length t = FreeSeg-first-lt t free pi.free_seq_end e.next nil list in
      let go : leb nr_max e.next ≡ false =
        leb-false nr_max e.next (omega (arith, v.size, next_lt)) in
      let fits = lt→ltb e.next nr_max (omega (arith, v.size, next_lt)) in
      let d = fill e in
      let t1 = set t x d in
      let p0 = record pi { free_seq = e.next; proc_table = t1 } in
      let own : get_elem? t1 x ≡ some (linked d nil nil) =
        get_elem?-set_self t x d x_lt ∙ ap some (clean e) in
      let (fresh, apart) = Distinct-Apart (indices io) (x ∷ rest) v.distinct in
      let dist = Distinct-left (indices io) (x ∷ rest) v.distinct in
      let alone = (Distinct-right (indices io) (x ∷ rest) v.distinct).0 in
      let small : length t1 < nil = omega (arith, length-set t x d, v.size, v.bound) in
      let room : length io ≤ length t1 = omega (arith, length-set t x d, v.size, v.total) in
      let (q, runs, io1, same, e0, e1, e2) =
        insert_entry_lem p0 x d small own io fresh dist room
          (IsIo-set t x d io pi.io_seq pi.io_seq_end fresh v.io_list) in
      let free1 : FreeSeg t1 e.next rest nil = FreeSeg-set t x d rest e.next nil alone list in
      let free2 =
        FreeSeg-SameOutside t1 q.proc_table (x ∷ indices io) rest e.next nil same
          (Apart-grow x rest (indices io) alone apart) free1 in
      (
        e,
        q,
        holds,
        enqueue_runs pi x e q first holds go fits runs,
        record {
          size = same.0 ∙ length-set t x d ∙ v.size;
          bound = v.bound;
          io_list = io1;
          free_list = rw (e0, e1) free2;
          distinct = rw e1 (
              Distinct-insert_behind (goes_before pi.proc_io_nsecs d.nsecs_target) (x, d) io rest
                v.distinct);
          total = omega (
            arith,
            length-insert_behind (goes_before pi.proc_io_nsecs d.nsecs_target) (x, d) io,
            v.total,
          );
        },
        e2,
        e1,
        λ i ne out. same.1 i (ne, out) ∙ get_elem?-set_ne t x i d (λ h. ne (sym h)),
      )

  -- With one free entry left, nothing is taken.
  pub enqueue-full :
      (pi : ProcInfo) (io : List Item)
      → Queues nr_max pi io []
      → enqueue nr_max fill pi ≡ ok (pi, false)
  unfolding enqueue
  enqueue-full pi io v =
      let (e, first, holds, list) = v.free_list in
      let stop : leb nr_max e.next ≡ true = ground (arith, list, v.bound) in
      rw (first, holds, stop) refl
