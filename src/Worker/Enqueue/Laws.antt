-- ===== src/Worker/Enqueue/Laws.antt =====
-- io.c: what a new request makes of the list of requests.
use nvmevirt_hybrid.Prelude.{
  ℕ, suc, ◌+◌, ◌-◌, ◌<◌, ◌≤◌, ◌≡◌, refl, sym, ap, arith, inl, inr, Bool, true, false, List, [], ◌∷◌,
  ◌++◌, some, get_elem?, length, ◌==◌,
}
use mathlib.Core.Path.{subst}
use nvmevirt_hybrid.Prelude.Run.{ok, ◌>>=◌}
use nvmevirt_hybrid.Worker.{ProcEntry, ProcInfo, nil}
use nvmevirt_hybrid.Worker.Enqueue.{search_back, link_entry, insert_entry}
use nvmevirt_hybrid.Worker.Enqueue.Insert.{Relinked, link-front, link-last, link-between}
use nvmevirt_hybrid.Worker.Enqueue.Search.{
  goes_before, None, insert_behind, place, index-ne-nil, search_back_over, search_back_stops,
  search_back_end,
}
use nvmevirt_hybrid.Worker.Index.{
  Item, indices, NotIn, Distinct, around, NotIn-around, Distinct-around, length-around,
}
use nvmevirt_hybrid.Worker.Chain.{linked, Seg, Seg-split, IsIo, Seg-IsIo, IsIo-Seg, Seg-last}

module _ (pi : ProcInfo) (x : ℕ) (d : ProcEntry) (small : length pi.proc_table < nil)
    (own : get_elem? pi.proc_table x ≡ some (linked d nil nil)) where
  abbrev test : Item → Bool
  test = goes_before pi.proc_io_nsecs d.nsecs_target

  link-behind :
      (before : List Item) (a : Item) (bs : List Item) (l n : ℕ)
      → NotIn x (indices (around before a bs))
      → Distinct (indices (around before a bs))
      → Seg pi.proc_table nil pi.io_seq (before ++ a ∷ []) l n
      → Seg pi.proc_table l n bs pi.io_seq_end nil
      → Relinked pi
          (x ∷ indices (around before a bs))
          (link_entry pi x a.0)
          (around before a ((x, d) ∷ bs))
  link-behind before a [] l n fresh dist s r =
      let (f0, f1, f2) = NotIn-around x before a [] fresh in
      let (a0, a1, a2, a3) = Distinct-around before a [] dist in
      let s1 : Seg pi.proc_table nil pi.io_seq (before ++ a ∷ []) pi.io_seq_end nil =
        subst (λ v. Seg pi.proc_table nil pi.io_seq (before ++ a ∷ []) v nil) (sym r.1)
          (subst (λ v. Seg pi.proc_table nil pi.io_seq (before ++ a ∷ []) l v) r.0 s) in
      let (q, runs, list, same, e0, e1, e2) = link-last pi x d small own before a f0 f1 a0 s1 in
      (
        q,
        runs,
        Seg-IsIo q.proc_table (around before a ((x, d) ∷ [])) q.io_seq q.io_seq_end list,
        same (x ∷ indices (around before a [])) (λ k h. (h.0, (NotIn-around k before a [] h.1).1)),
        e0,
        e1,
        e2,
      )
  link-behind before a (b ∷ bs) l n fresh dist s r =
      let (f0, f1, f2) = NotIn-around x before a (b ∷ bs) fresh in
      let (a0, a1, a2, a3) = Distinct-around before a (b ∷ bs) dist in
      let t = pi.proc_table in
      let s1 = subst (λ v. Seg t nil pi.io_seq (before ++ a ∷ []) l v) r.1 s in
      let r1 = subst (λ v. Seg t l v (b ∷ bs) pi.io_seq_end nil) r.1 r in
      let (q, runs, list, same, e0, e1, e2) =
        link-between pi x d small own before a b bs f0 f1 f2 a0 a1 a2.0 a3.0 l s1 r1 in
      (
        q,
        runs,
        Seg-IsIo q.proc_table (around before a ((x, d) ∷ b ∷ bs)) q.io_seq q.io_seq_end list,
        same (x ∷ indices (around before a (b ∷ bs)))
            (λ k h. let (k0, k1, k2) = NotIn-around k before a (b ∷ bs) h.1 in (h.0, k1, k2.0)),
        e0,
        e1,
        e2,
      )

  -- The search and the link, behind `a`.
  behind :
      (before : List Item) (a : Item) (bs : List Item)
      → NotIn x (indices (around before a bs))
      → Distinct (indices (around before a bs))
      → test a ≡ true
      → None test bs
      → length bs ≤ length pi.proc_table
      → Seg pi.proc_table nil pi.io_seq (around before a bs) pi.io_seq_end nil
      → Relinked pi
          (x ∷ indices (around before a bs))
          (search_back (suc (length pi.proc_table)) pi d.nsecs_target pi.io_seq_end >>= λ curr.
            link_entry pi x curr)
          (around before a ((x, d) ∷ bs))
  behind before a bs fresh dist passes none room io =
      let t = pi.proc_table in
      let (l, n, s, r) = Seg-split t (before ++ a ∷ []) bs nil pi.io_seq pi.io_seq_end nil io in
      let last : l ≡ a.0 = Seg-last t before a nil pi.io_seq l n s in
      let k = length t - length bs in
      let count : suc (length t) ≡ length bs + suc k = omega (arith, room) in
      let (m, n', front, (n'', at, holds, ends)) =
        Seg-split t before (a ∷ []) nil pi.io_seq l n s in
      let over = search_back_over pi d.nsecs_target small bs (suc k) l n pi.io_seq_end nil none r in
      let stops = search_back_stops pi d.nsecs_target small k a n'' m passes holds in
      let found : search_back (suc (length t)) pi d.nsecs_target pi.io_seq_end ≡ ok a.0 =
        rw (count, over, last) stops in
      rw found (link-behind before a bs l n fresh dist s r)

  -- A new request goes behind the last one that is due or ends no later, or in front.
  pub insert_entry_lem :
      (io : List Item)
      → NotIn x (indices io)
      → Distinct (indices io)
      → length io ≤ length pi.proc_table
      → IsIo pi.proc_table pi.io_seq pi.io_seq_end io
      → Relinked pi
          (x ∷ indices io)
          (insert_entry pi x d.nsecs_target)
          (insert_behind test (x, d) io)
  unfolding insert_entry
  insert_entry_lem [] fresh dist room io = rw io (
    record pi { io_seq = x; io_seq_end = x },
    refl,
    (nil, refl, own, (refl, refl)),
    (refl, λ k h. refl),
    refl,
    refl,
    refl,
  )
  insert_entry_lem (b ∷ bs) fresh dist room io =
      let first : (pi.io_seq == nil) ≡ false =
        rw io.1 (index-ne-nil pi 0 small b.0 (linked b.1 io.0 nil) io.2) in
      elim (place test (x, d) (b ∷ bs)) [
        | inl (none, any, ins) ↦
            let t = pi.proc_table in
            let k = length t - length (b ∷ bs) in
            let count : suc (length t) ≡ length (b ∷ bs) + suc k = omega (arith, room) in
            let over =
              search_back_over pi d.nsecs_target small (b ∷ bs) (suc k) nil pi.io_seq pi.io_seq_end
                nil none io in
            let found : search_back (suc (length t)) pi d.nsecs_target pi.io_seq_end ≡ ok nil =
              rw (count, over) (search_back_end pi d.nsecs_target small k) in
            rw (first, found, ins) (link-front pi x d small own b bs fresh dist.0 io)
        | inr (before, a, cs, e, passes, none, any, ins) ↦
            (let t = pi.proc_table in
              let shorter : length cs ≤ length t =
                omega (arith, room, ap length e, length-around before a cs) in
              let done =
                behind before a cs (subst (λ xs. NotIn x (indices xs)) e fresh)
                  (subst (λ xs. Distinct (indices xs)) e dist) passes none shorter
                  (IsIo-Seg t before a cs pi.io_seq pi.io_seq_end
                    (subst (λ xs. IsIo t pi.io_seq pi.io_seq_end xs) e io)) in
              rw (first, ins)
                (subst
                  (λ xs.
                    Relinked pi (x ∷ indices xs)
                      (search_back (suc (length t)) pi d.nsecs_target pi.io_seq_end >>= λ curr.
                        link_entry pi x curr)
                      (around before a ((x, d) ∷ cs)))
                  (sym e) done))
      ]
