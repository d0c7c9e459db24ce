-- ===== src/Worker/Enqueue/Insert.antt =====
-- io.c: the three ways in which a new request is linked.
use nvmevirt_hybrid.Prelude.{
  ℕ, ◌<◌, ◌≡◌, ◌≢◌, refl, sym, ◌∙◌, false, List, [], ◌∷◌, ◌++◌, some, get_elem?, set, length, ◌==◌,
  get_elem?-lt-length, get_elem?-set_ne, get_elem?-set_self,
}
use nvmevirt_hybrid.Prelude.Run.{Run, ok}
use nvmevirt_hybrid.Worker.{ProcEntry, ProcInfo, nil}
use nvmevirt_hybrid.Worker.Enqueue.{link_entry}
use nvmevirt_hybrid.Worker.Enqueue.Search.{index-ne-nil}
use nvmevirt_hybrid.Worker.Index.{Item, indices, NotIn, around, NotIn-append, indices-append}
use nvmevirt_hybrid.Worker.Chain.{
  Table, linked, Seg, Seg-set, Seg-set_prev, Seg-set_next, Seg-join, SameOutside, SameOutside-set,
  IsIo,
}

-- The outcome of linking: the list is now `ys`, and only the entries of `js` have changed.
abbrev pub Relinked : ProcInfo → List ℕ → Run ProcInfo → List Item → Type 0
Relinked pi js m ys =
    (q : ProcInfo) × (m ≡ ok q)
    × IsIo q.proc_table q.io_seq q.io_seq_end ys
    × SameOutside js pi.proc_table q.proc_table
    × (q.free_seq ≡ pi.free_seq)
    × (q.free_seq_end ≡ pi.free_seq_end)
    × (q.proc_io_nsecs ≡ pi.proc_io_nsecs)

unchanged : (js : List ℕ) (t : Table) → SameOutside js t t
unchanged js t = (refl, λ i h. refl)

module _ (pi : ProcInfo) (x : ℕ) (d : ProcEntry) (small : length pi.proc_table < nil)
    (own : get_elem? pi.proc_table x ≡ some (linked d nil nil)) where
  pub link-front :
      (b : Item) (bs : List Item)
      → NotIn x (indices (b ∷ bs))
      → NotIn b.0 (indices bs)
      → IsIo pi.proc_table pi.io_seq pi.io_seq_end (b ∷ bs)
      → Relinked pi (x ∷ indices (b ∷ bs)) (link_entry pi x nil) ((x, d) ∷ b ∷ bs)
  unfolding link_entry
  link-front b bs fresh alone io =
      let t = pi.proc_table in
      let (m, holds, s1) = Seg-set_prev t b bs nil x pi.io_seq pi.io_seq_end nil alone io in
      let e1 = linked b.1 m x in
      let t1 = set t b.0 e1 in
      let own1 : get_elem? t1 x ≡ some (linked d nil nil) =
        get_elem?-set_ne t b.0 x e1 (λ e. fresh.0 (sym e)) ∙ own in
      let e2 = linked d b.0 nil in
      let t2 = set t1 x e2 in
      let head : pi.io_seq ≡ b.0 = io.1 in
      (
        record pi { proc_table = t2; io_seq = x },
        rw (head, holds, own1) refl,
        (
          b.0,
          refl,
          get_elem?-set_self t1 x e2 (get_elem?-lt-length t1 x _ own1),
          Seg-set t1 x e2 (b ∷ bs) x b.0 pi.io_seq_end nil fresh s1,
        ),
        SameOutside-set t t1 (x ∷ indices (b ∷ bs)) x e2
            (SameOutside-set t t (x ∷ indices (b ∷ bs)) b.0 e1 (unchanged (x ∷ indices (b ∷ bs)) t)
              (λ k h e. h.1.0 (sym e)))
            (λ k h e. h.0 (sym e)),
        refl,
        refl,
        refl,
      )

  -- Behind the last request.
  pub link-last :
      (before : List Item) (a : Item)
      → NotIn x (indices before)
      → x ≢ a.0
      → NotIn a.0 (indices before)
      → Seg pi.proc_table nil pi.io_seq (before ++ a ∷ []) pi.io_seq_end nil
      → (q : ProcInfo) × (link_entry pi x a.0 ≡ ok q)
        × Seg q.proc_table nil q.io_seq ((before ++ a ∷ []) ++ (x, d) ∷ []) q.io_seq_end nil
        × ((js : List ℕ)
            → ((k : ℕ) → NotIn k js → (k ≢ x) × (k ≢ a.0))
            → SameOutside js pi.proc_table q.proc_table)
        × (q.free_seq ≡ pi.free_seq)
        × (q.free_seq_end ≡ pi.free_seq_end)
        × (q.proc_io_nsecs ≡ pi.proc_io_nsecs)
  unfolding link_entry
  link-last before a fresh ne alone io =
      let t = pi.proc_table in
      let e1 = linked d nil a.0 in
      let t1 = set t x e1 in
      let fresh1 : NotIn x (indices (before ++ a ∷ [])) =
        rw (indices-append before (a ∷ []))
          (NotIn-append x (indices before) (a.0 ∷ []) fresh (ne, tt)) in
      let s1 = Seg-set t x e1 (before ++ a ∷ []) nil pi.io_seq pi.io_seq_end nil fresh1 io in
      let (m, at_end, holds1, s2) =
        Seg-set_next t1 before a nil pi.io_seq pi.io_seq_end nil x alone s1 in
      let holds : get_elem? t a.0 ≡ some (linked a.1 nil m) =
        sym (get_elem?-set_ne t x a.0 e1 ne) ∙ holds1 in
      let e2 = linked a.1 x m in
      let t2 = set t1 a.0 e2 in
      let own2 : get_elem? t2 x ≡ some e1 =
        get_elem?-set_ne t1 a.0 x e2 (λ e. ne (sym e))
        ∙ get_elem?-set_self t x e1 (get_elem?-lt-length t x _ own) in
      (
        record pi { proc_table = t2; io_seq_end = x },
        rw (index-ne-nil pi 0 small a.0 (linked a.1 nil m) holds, holds, own, holds1) refl,
        Seg-join t2 (before ++ a ∷ []) ((x, d) ∷ []) nil pi.io_seq x nil pi.io_seq_end x s2
            (nil, refl, rw at_end own2, (refl, refl)),
        λ js out.
            SameOutside-set t t1 js a.0 e2
              (SameOutside-set t t js x e1 (unchanged js t) (λ k h e. (out k h).0 (sym e)))
              (λ k h e. (out k h).1 (sym e)),
        refl,
        refl,
        refl,
      )

  -- Between two requests.
  pub link-between :
      (before : List Item) (a b : Item) (bs : List Item)
      → NotIn x (indices before)
      → x ≢ a.0
      → NotIn x (indices (b ∷ bs))
      → NotIn a.0 (indices before)
      → NotIn a.0 (indices (b ∷ bs))
      → NotIn b.0 (indices bs)
      → NotIn b.0 (indices (before ++ a ∷ []))
      → (l : ℕ) → Seg pi.proc_table nil pi.io_seq (before ++ a ∷ []) l b.0
      → Seg pi.proc_table l b.0 (b ∷ bs) pi.io_seq_end nil
      → (q : ProcInfo) × (link_entry pi x a.0 ≡ ok q)
        × Seg q.proc_table nil q.io_seq (around before a ((x, d) ∷ b ∷ bs)) q.io_seq_end nil
        × ((js : List ℕ)
            → ((k : ℕ) → NotIn k js → (k ≢ x) × (k ≢ a.0) × (k ≢ b.0))
            → SameOutside js pi.proc_table q.proc_table)
        × (q.free_seq ≡ pi.free_seq)
        × (q.free_seq_end ≡ pi.free_seq_end)
        × (q.proc_io_nsecs ≡ pi.proc_io_nsecs)
  unfolding link_entry
  link-between before a b bs fresh ne fresh_b alone_a alone_a1 alone_b alone_b1 l s r =
      let t = pi.proc_table in
      let front = before ++ a ∷ [] in
      let fresh1 : NotIn x (indices front) =
        rw (indices-append before (a ∷ []))
          (NotIn-append x (indices before) (a.0 ∷ []) fresh (ne, tt)) in
      let n = b.0 in
      let e1 = linked d nil a.0 in
      let t1 = set t x e1 in
      let own1 : get_elem? t1 x ≡ some e1 =
        get_elem?-set_self t x e1 (get_elem?-lt-length t x _ own) in
      let e2 = linked d n a.0 in
      let t2 = set t1 x e2 in
      let own2 : get_elem? t2 x ≡ some e2 =
        get_elem?-set_self t1 x e2 (get_elem?-lt-length t1 x _ own1) in
      let s2 =
        Seg-set t1 x e2 front nil pi.io_seq l n fresh1
          (Seg-set t x e1 front nil pi.io_seq l n fresh1 s) in
      let r2 =
        Seg-set t1 x e2 (b ∷ bs) l n pi.io_seq_end nil fresh_b
          (Seg-set t x e1 (b ∷ bs) l n pi.io_seq_end nil fresh_b r) in
      let (k, holds_b, r3) = Seg-set_prev t2 b bs l x n pi.io_seq_end nil alone_b r2 in
      let e3 = linked b.1 k x in
      let t3 = set t2 b.0 e3 in
      let s3 = Seg-set t2 b.0 e3 front nil pi.io_seq l n alone_b1 s2 in
      let (m, at_end, holds3, s4) = Seg-set_next t3 before a nil pi.io_seq l n x alone_a s3 in
      let e4 = linked a.1 x m in
      let t4 = set t3 a.0 e4 in
      let r4 = Seg-set t3 a.0 e4 (b ∷ bs) x b.0 pi.io_seq_end nil alone_a1 r3 in
      let holds2 : get_elem? t2 a.0 ≡ some (linked a.1 n m) =
        sym (get_elem?-set_ne t2 b.0 a.0 e3 (λ e. alone_a1.0 (sym e))) ∙ holds3 in
      let holds1 : get_elem? t1 a.0 ≡ some (linked a.1 n m) =
        sym (get_elem?-set_ne t1 x a.0 e2 ne) ∙ holds2 in
      let holds : get_elem? t a.0 ≡ some (linked a.1 n m) =
        sym (get_elem?-set_ne t x a.0 e1 ne) ∙ holds1 in
      let own4 : get_elem? t4 x ≡ some e2 =
        get_elem?-set_ne t3 a.0 x e4 (λ e. ne (sym e))
        ∙ get_elem?-set_ne t2 b.0 x e3 (λ e. fresh_b.0 (sym e))
        ∙ own2 in
      let holds_b0 : get_elem? t b.0 ≡ some (linked b.1 k l) =
        sym (get_elem?-set_ne t x b.0 e1 fresh_b.0)
        ∙ sym (get_elem?-set_ne t1 x b.0 e2 fresh_b.0)
        ∙ holds_b in
      let more : (n == nil) ≡ false = index-ne-nil pi 0 small b.0 (linked b.1 k l) holds_b0 in
      (
        record pi { proc_table = t4 },
        rw
            (
              index-ne-nil pi 0 small a.0 (linked a.1 n m) holds,
              holds,
              more,
              own,
              holds1,
              own1,
              own2,
              holds_b,
              holds3,
            )
            refl,
        Seg-join t4 front ((x, d) ∷ b ∷ bs) nil pi.io_seq pi.io_seq_end nil l x s4
            (n, refl, rw at_end own4, r4),
        λ js out.
            SameOutside-set t t3 js a.0 e4
              (SameOutside-set t t2 js b.0 e3
                (SameOutside-set t t1 js x e2
                  (SameOutside-set t t js x e1 (unchanged js t) (λ k h e. (out k h).0 (sym e)))
                  (λ k h e. (out k h).0 (sym e)))
                (λ k h e. (out k h).2 (sym e)))
              (λ k h e. (out k h).1 (sym e)),
        refl,
        refl,
        refl,
      )
