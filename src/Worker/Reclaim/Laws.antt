-- ===== src/Worker/Reclaim/Laws.antt =====
-- io.c: __reclaim_completed_reqs gives the entries of the requests that are done back to the free list.
use mathlib.Core.Path.{subst}
use mathlib.Core.List.{append_assoc, append-nil}
use nvmevirt_hybrid.Prelude.{
  ℕ, suc, ◌+◌, ◌<◌, ◌≡◌, refl, sym, ap, ◌∙◌, arith, false, not, List, [], ◌∷◌, ◌++◌, some,
  get_elem?, set, length, ◌==◌, if◌then◌else◌, length-set, length-append,
}
use nvmevirt_hybrid.Prelude.Run.{ok}
use nvmevirt_hybrid.Worker.{ProcEntry, ProcInfo, nil, set_prev, with_prev, with_next}
use nvmevirt_hybrid.Worker.Queues.{Queues}
use nvmevirt_hybrid.Worker.Reclaim.{last_done, move_done, reclaim}
use nvmevirt_hybrid.Worker.Reclaim.Walk.{
  take_done, drop_done, take_done-append-drop_done, last_of, last_of-snoc, last_done-IsIo,
}
use nvmevirt_hybrid.Worker.Enqueue.Search.{index-ne-nil}
use nvmevirt_hybrid.Worker.Index.{
  Item, indices, NotIn, Distinct, Apart, indices-append, around, Distinct-left, Distinct-right,
  Distinct-move, Distinct-around, Distinct-rotate, Distinct-Apart, Apart-last, Apart-around,
  NotIn-left, NotIn-append, NotIn-around, length-indices,
}
use nvmevirt_hybrid.Worker.Chain.{
  Table, linked, Seg, Seg-split, Seg-set_prev, IsIo, IsIo-set, FreeSeg, FreeSeg-set, Seg-FreeSeg,
  FreeSeg-join, IsIo-Seg, KeepsComplete, KeepsComplete-set,
}
use nvmevirt_hybrid.Worker.Chain.Free.{
  FreeSeg-set_prev, FreeSeg-set_next, FreeSeg-first, FreeSeg-Apart,
}

-- The first of the requests that stay gets no predecessor; no forward link changes.
unlink :
    (pi : ProcInfo) (xs : List Item) (l n : ℕ)
    → length pi.proc_table < nil
    → Distinct (indices xs)
    → Seg pi.proc_table l n xs pi.io_seq_end nil
    → (t1 : Table) × ((if not (n == nil) then set_prev pi n nil else ok pi)
        ≡ ok (record pi { proc_table = t1 }))
      × IsIo t1 n pi.io_seq_end xs
      × (length t1 ≡ length pi.proc_table)
      × ((is : List ℕ) (f m : ℕ) → FreeSeg pi.proc_table f is m → FreeSeg t1 f is m)
      × KeepsComplete pi.proc_table t1
unlink pi [] l n small dist s = (pi.proc_table, rw s.0 refl, s.0, refl, λ is f m h. h, λ i h. h)
unlink pi (b ∷ bs) l n small dist s =
    let t = pi.proc_table in
    let (k, holds, s1) = Seg-set_prev t b bs l nil n pi.io_seq_end nil dist.0 s in
    let more = index-ne-nil pi 0 small b.0 (linked b.1 k l) holds in
    let t1 = set t b.0 (linked b.1 k nil) in
    (
      t1,
      rw (s.1, more, holds) refl,
      subst (λ v. Seg t1 nil v (b ∷ bs) pi.io_seq_end nil) (sym s.1) s1,
      length-set t b.0 (linked b.1 k nil),
      λ is f m h. FreeSeg-set_prev t b.0 nil (linked b.1 k l) is f m holds h,
      KeepsComplete-set t b.0 (linked b.1 k l) (linked b.1 k nil) holds refl,
    )

-- The assignments of move_done, from the entries that they find.
moves :
    (pi : ProcInfo) (last : ℕ) (pe e2 e3 e4 : ProcEntry) (t1 : Table)
    → get_elem? pi.proc_table last ≡ some pe
    → (if not (pe.next == nil)
        then set_prev (record pi { io_seq = pe.next }) pe.next nil
        else ok (record pi { io_seq = pe.next }))
      ≡ ok (record pi { io_seq = pe.next; proc_table = t1 })
    → get_elem? t1 last ≡ some e2
    → get_elem? (set t1 last (with_next e2 nil)) pi.io_seq ≡ some e3
    → let t3 = set (set t1 last (with_next e2 nil)) pi.io_seq (with_prev e3 pi.free_seq_end) in
      get_elem? t3 pi.free_seq_end ≡ some e4
      → move_done pi pi.io_seq last
        ≡ ok (record pi {
          io_seq = pe.next;
          free_seq_end = last;
          proc_table = set t3 pi.free_seq_end (with_next e4 pi.io_seq);
        })
unfolding move_done
moves pi last pe e2 e3 e4 t1 h0 h1 h2 h3 h4 = rw (h0, h1, h2, h3, h4) refl

Distinct-regroup : (is js ks : List ℕ) → Distinct ((is ++ js) ++ ks) → Distinct (js ++ (ks ++ is))
Distinct-regroup is js ks h =
    subst Distinct (append_assoc js ks is)
      (Distinct-rotate is (js ++ ks) (subst Distinct (append_assoc is js ks) h))

module _ (nr_max : ℕ) (pi : ProcInfo) (free : List ℕ) where
  -- The free entries behind the move.
  freed : List Item → List ℕ
  freed before = (free ++ pi.free_seq_end ∷ []) ++ indices before

  length_freed : (before : List Item) → length (freed before) ≡ length free + 1 + length before
  unfolding freed
  length_freed before = omega (
    arith,
    length-append (free ++ pi.free_seq_end ∷ []) (indices before),
    length-append free (pi.free_seq_end ∷ []),
    length-indices before,
  )

  length_around1 :
      (before : List Item) (a : Item) (xs : List Item)
      → length (around before a xs) ≡ length before + 1 + length xs
  length_around1 before a xs =
      omega (arith, length-append (before ++ a ∷ []) xs, length-append before (a ∷ []))

  move_done_lem :
      (before : List Item) (a : Item) (xs : List Item)
      → Queues nr_max pi (around before a xs) free
      → (q : ProcInfo) × (move_done pi pi.io_seq a.0 ≡ ok q)
        × Queues nr_max q xs (freed before)
        × (q.free_seq_end ≡ a.0)
        × (q.proc_io_nsecs ≡ pi.proc_io_nsecs)
        × KeepsComplete pi.proc_table q.proc_table
  unfolding freed
  move_done_lem before a xs v =
      let t = pi.proc_table in
      let old = free ++ pi.free_seq_end ∷ [] in
      let front = before ++ a ∷ [] in
      let small : length t < nil = omega (arith, v.size, v.bound) in
      let s = IsIo-Seg t before a xs pi.io_seq pi.io_seq_end v.io_list in
      let (l, n, s0, r0) = Seg-split t front xs nil pi.io_seq pi.io_seq_end nil s in
      let (m, n0, s00, (n1, at, holds, ends)) = Seg-split t before (a ∷ []) nil pi.io_seq l n s0 in
      let pe = linked a.1 n m in
      let holds0 : get_elem? t a.0 ≡ some pe =
        subst (λ v. get_elem? t a.0 ≡ some (linked a.1 v m)) ends.0 holds in
      let ix : indices front ≡ indices before ++ a.0 ∷ [] = indices-append before (a ∷ []) in
      let ixs : indices (around before a xs) ≡ (indices before ++ a.0 ∷ []) ++ indices xs =
        indices-append front xs ∙ ap (λ is. is ++ indices xs) ix in
      let dist = Distinct-left (indices (around before a xs)) old v.distinct in
      let (a0, a1, a2, a3) = Distinct-around before a xs dist in
      let a4 : NotIn a.0 old = Apart-around before a xs old (
        Distinct-Apart old (indices (around before a xs))
          (Distinct-rotate (indices (around before a xs)) old v.distinct)) in
      let f_out : Apart (indices before ++ a.0 ∷ []) (indices xs) =
        Distinct-Apart (indices xs) (indices before ++ a.0 ∷ [])
          (Distinct-rotate (indices before ++ a.0 ∷ []) (indices xs) (subst Distinct ixs dist)) in
      let end = pi.free_seq_end in
      let end_out : NotIn end (indices (around before a xs)) =
        Apart-last free end (indices (around before a xs))
          (Distinct-Apart (indices (around before a xs)) old v.distinct) in
      let (end0, end1, end2) = NotIn-around end before a xs end_out in
      let end3 : NotIn end free =
        NotIn-left end free []
          (Distinct-move end free []
            (Distinct-right (indices (around before a xs)) old v.distinct)).0 in
      let (t1, e1, io1, len1, frame1, kept1) =
        unlink (record pi { io_seq = n }) xs l n small a2 r0 in
      let f1 =
        subst (λ is. FreeSeg t1 pi.io_seq is n) ix
          (frame1 (indices front) pi.io_seq n (Seg-FreeSeg t front nil pi.io_seq l n s0)) in
      let g1 = frame1 old pi.free_seq nil v.free_list in
      let (c2, h2, f2) = FreeSeg-set_next t1 (indices before) a.0 pi.io_seq n nil a0 f1 in
      let d2 = with_next c2 nil in
      let t2 = set t1 a.0 d2 in
      let g2 = FreeSeg-set t1 a.0 d2 old pi.free_seq nil a4 g1 in
      let (c3, h3) = FreeSeg-first t2 (indices before) a.0 pi.io_seq nil f2 in
      let d3 = with_prev c3 end in
      let t3 = set t2 pi.io_seq d3 in
      let f3 =
        FreeSeg-set_prev t2 pi.io_seq end c3 (indices before ++ a.0 ∷ []) pi.io_seq nil h3 f2 in
      let g3 = FreeSeg-set_prev t2 pi.io_seq end c3 old pi.free_seq nil h3 g2 in
      let (c4, h4, g4) = FreeSeg-set_next t3 free end pi.free_seq nil pi.io_seq end3 g3 in
      let d4 = with_next c4 pi.io_seq in
      let t4 = set t3 end d4 in
      let f4 =
        FreeSeg-set t3 end d4 (indices before ++ a.0 ∷ []) pi.io_seq nil
          (NotIn-append end (indices before) (a.0 ∷ []) end0 (end1, tt)) f3 in
      let io4 = IsIo-set t3 end d4 xs n pi.io_seq_end end2 (
        IsIo-set t2 pi.io_seq d3 xs n pi.io_seq_end
          (FreeSeg-Apart t1 (indices before) a.0 pi.io_seq n (indices xs) f1 f_out)
          (IsIo-set t1 a.0 d2 xs n pi.io_seq_end a1 io1)) in
      let assoc : (old ++ indices before) ++ a.0 ∷ [] ≡ old ++ (indices before ++ a.0 ∷ []) =
        append_assoc old (indices before) (a.0 ∷ []) in
      (
        record pi { io_seq = n; free_seq_end = a.0; proc_table = t4 },
        moves pi a.0 pe c2 c3 c4 t1 holds0 e1 h2 h3 h4,
        record {
          size =
              length-set t3 end d4
              ∙ length-set t2 pi.io_seq d3
              ∙ length-set t1 a.0 d2
              ∙ len1
              ∙ v.size;
          bound = v.bound;
          io_list = io4;
          free_list =
              rw assoc
                (FreeSeg-join t4 old (indices before ++ a.0 ∷ []) pi.free_seq pi.io_seq nil g4 f4);
          distinct = rw assoc (
              Distinct-regroup (indices before ++ a.0 ∷ []) (indices xs) old
                (subst (λ is. Distinct (is ++ old)) ixs v.distinct));
          total = omega (arith, v.total, length_freed before, length_around1 before a xs);
        },
        refl,
        refl,
        λ i h. KeepsComplete-set t3 end c4 d4 h4 refl i (
            KeepsComplete-set t2 pi.io_seq c3 d3 h3 refl i
              (KeepsComplete-set t1 a.0 c2 d2 h2 refl i (kept1 i h))),
      )

  -- A request's index is not -1.
  request-ne-nil :
      (before : List Item) (a : Item) (xs : List Item)
      → Queues nr_max pi (around before a xs) free
      → (a.0 == nil) ≡ false
  request-ne-nil before a xs v =
      let t = pi.proc_table in
      let s = IsIo-Seg t before a xs pi.io_seq pi.io_seq_end v.io_list in
      let (l, n, s0, r0) = Seg-split t (before ++ a ∷ []) xs nil pi.io_seq pi.io_seq_end nil s in
      let (m, n0, s00, (n1, at, holds, ends)) = Seg-split t before (a ∷ []) nil pi.io_seq l n s0 in
      index-ne-nil pi 0 (omega (arith, v.size, v.bound)) a.0 (linked a.1 n1 m) holds

  -- The list without `ds`, whose entries are now free.
  abbrev pub Reclaimed : List Item → List Item → Type 0
  Reclaimed ds xs =
      (q : ProcInfo) × (free1 : List ℕ) × (reclaim pi ≡ ok q)
      × Queues nr_max q xs free1
      × (free1 ++ q.free_seq_end ∷ [] ≡ (free ++ pi.free_seq_end ∷ []) ++ indices ds)
      × (q.proc_io_nsecs ≡ pi.proc_io_nsecs)
      × KeepsComplete pi.proc_table q.proc_table

  reclaim_split :
      (ds xs io : List Item)
      → io ≡ ds ++ xs
      → last_done (suc (length pi.proc_table)) pi pi.io_seq nil ≡ ok (last_of nil ds)
      → Queues nr_max pi io free
      → Reclaimed ds xs
  unfolding reclaim freed
  reclaim_split [] xs io e found v = (
    pi,
    free,
    rw found refl,
    subst (λ is. Queues nr_max pi is free) e v,
    sym (append-nil (free ++ pi.free_seq_end ∷ [])),
    refl,
    λ i h. h,
  )
  reclaim_split (y ∷ ys) xs io e found v =
      let (before, a, e1, last) = last_of-snoc y ys in
      let w = subst (λ is. Queues nr_max pi is free) (e ∙ ap (λ is. is ++ xs) e1) v in
      let (q, runs, w1, last1, now, kept) = move_done_lem before a xs w in
      let found1 : last_done (suc (length pi.proc_table)) pi pi.io_seq nil ≡ ok a.0 =
        found ∙ ap ok (last nil) in
      let ix : indices (y ∷ ys) ≡ indices before ++ a.0 ∷ [] =
        ap indices e1 ∙ indices-append before (a ∷ []) in
      (
        q,
        freed before,
        rw (found1, request-ne-nil before a xs w) runs,
        w1,
        rw (last1, ix) (append_assoc (free ++ pi.free_seq_end ∷ []) (indices before) (a.0 ∷ [])),
        now,
        kept,
      )

  -- In a table in order the requests in front that are done leave the list, and no others; their
  -- entries follow the free ones, in order. The table is in order again, the time is as it was, and
  -- every entry that was complete still is.
  pub reclaim_lem :
      (io : List Item)
      → Queues nr_max pi io free
      → Reclaimed (take_done pi.proc_io_nsecs io) (drop_done pi.proc_io_nsecs io)
  reclaim_lem io v =
      let now = pi.proc_io_nsecs in
      let t = pi.proc_table in
      let small : length t < nil = omega (arith, v.size, v.bound) in
      let shorter : length io < suc (length t) = omega (arith, v.size, v.total) in
      reclaim_split (take_done now io) (drop_done now io) io (take_done-append-drop_done now io)
        (last_done-IsIo pi small io (suc (length t)) shorter v.io_list) v
