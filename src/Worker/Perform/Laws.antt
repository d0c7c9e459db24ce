-- ===== src/Worker/Perform/Laws.antt =====
-- io.c: what __do_perform_io copies.
use nvmevirt_hybrid.Prelude.{
  ℕ, zero, suc, ◌+◌, ◌-◌, ◌*◌, ◌%◌, ◌≤◌, ◌<◌, ◌≡◌, refl, sym, ap, ◌∙◌, arith, inl, inr, min, true,
  false, Bool-cases, Option, none, some, List, [], ◌∷◌, ◌++◌, ltb, leb, ◌==◌, if◌then◌else◌,
  u64_mod, ==-false, leb-false,
}
use native.Mathlib.Nat.{mod-lt}
use nvmevirt_hybrid.Prelude.Run.{Run, ok}
use nvmevirt_hybrid.Worker.Perform.{
  page_size, Opcode, cmd_write, cmd_zone_append, cmd_read, other_opcode, DataCommand, Chunk,
  Transfer, to_namespace, to_host, transfers, list_entry, next_paddr, io_size, copy_pages,
  do_perform_io,
}

-- The chunks are the command's pages from the `j`-th on, one behind the other, within their pages, and
-- `n` bytes in all.
abbrev pub Covers : (ℕ → ℕ) → ℕ → ℕ → ℕ → List Chunk → Type 0
Covers page j offset n [] = n ≡ 0
Covers page j offset n (c ∷ cs) =
    (c.paddr ≡ page j)
    × (c.offset ≡ offset)
    × (0 < c.size)
    × (c.paddr % page_size + c.size ≤ page_size)
    × (c.size ≤ n)
    × Covers page (suc j) ((offset + c.size) % u64_mod) (n - c.size) cs

abbrev all_to : (Chunk → Transfer) → List Chunk → List Transfer
all_to to [] = []
all_to to (c ∷ cs) = to c ∷ all_to to cs

-- What a command does with the chunks: a write and an append copy all to the namespace, a read all to
-- the host, and any other command none.
abbrev pub performed : Opcode → List Chunk → List Transfer
performed cmd_write cs = all_to to_namespace cs
performed cmd_zone_append cs = all_to to_namespace cs
performed cmd_read cs = all_to to_host cs
performed other_opcode cs = []

performed-cons :
    (o : Opcode) (ch : Chunk) (cs : List Chunk)
    → transfers o ch ++ performed o cs ≡ performed o (ch ∷ cs)
unfolding transfers
performed-cons cmd_write ch cs = refl
performed-cons cmd_zone_append ch cs = refl
performed-cons cmd_read ch cs = refl
performed-cons other_opcode ch cs = refl

performed-nil : (o : Opcode) → performed o [] ≡ []
performed-nil cmd_write = refl
performed-nil cmd_zone_append = refl
performed-nil cmd_read = refl
performed-nil other_opcode = refl

io_size_lem :
    (paddr n : ℕ)
    → 0 < n
    → (0 < io_size paddr n)
      × (io_size paddr n ≤ n)
      × (paddr % page_size + io_size paddr n ≤ page_size)
unfolding io_size
io_size_lem paddr n h =
    let lt : paddr % page_size < page_size = mod-lt paddr (omega arith) in
    (ground (arith, lt, h), ground (arith, lt, h), ground (arith, lt, h))

-- A page that is aligned takes all of what is left, or is filled.
io_size_aligned : (paddr n : ℕ) → paddr % page_size ≡ 0 → io_size paddr n ≡ min n page_size
unfolding io_size
io_size_aligned paddr n h = let b : (paddr % page_size == 0) ≡ true = ground (arith, h) in simp b

module _ (memory : ℕ → ℕ) where
  list_entry-ok :
      (p i : ℕ)
      → p % page_size + 8 * i < page_size
      → list_entry memory p i ≡ ok (memory (p + 8 * i))
  unfolding list_entry
  list_entry-ok p i h =
      let b : leb page_size (p % page_size + 8 * i) ≡ false =
        leb-false page_size (p % page_size + 8 * i) h in
      simp b

  module _ (c : DataCommand) where
    copy_step :
        (fuel n offset prp_offs round prp2_offs paddr offs1 : ℕ) (list list1 : Option ℕ)
        (chunks : List Chunk)
        → 0 < n
        → prp_offs + 1 ≡ round
        → next_paddr memory c list round prp2_offs n ≡ ok (paddr, list1, offs1)
        → copy_pages memory fuel c list1 round offs1
            (n - io_size paddr n)
            ((offset + io_size paddr n) % u64_mod)
          ≡ ok (performed c.opcode chunks)
        → copy_pages memory (suc fuel) c list prp_offs prp2_offs n offset
          ≡ ok (
              performed c.opcode
                (record { paddr = paddr; offset = offset; size = io_size paddr n } ∷ chunks))
    unfolding copy_pages
    copy_step fuel n offset prp_offs round prp2_offs paddr offs1 list list1 chunks h e at more =
        let b : (n == 0) ≡ false = ==-false n 0 (λ e1. omega (arith, e1, h)) in
        rw (b, copy_pages, e, at, more) (ap ok (performed-cons c.opcode _ chunks))

    next_listed :
        (p round i n : ℕ)
        → 2 < round
        → p % page_size + 8 * i < page_size
        → next_paddr memory c (some p) round i n ≡ ok (memory (p + 8 * i), some p, suc i)
    unfolding next_paddr
    next_listed p round i n h at =
        let b1 = ==-false round 1 (λ e. omega (arith, e, h)) in
        let b2 = ==-false round 2 (λ e. omega (arith, e, h)) in
        let count : i + 1 ≡ suc i = omega arith in rw (b1, b2, list_entry-ok p i at, count) refl

    next_list :
        (n : ℕ)
        → page_size < n
        → c.prp2 % page_size + 8 * 0 < page_size
        → next_paddr memory c none 2 0 n ≡ ok (memory (c.prp2 + 8 * 0), some c.prp2, 1)
    unfolding next_paddr
    next_list n h at =
        let b : ltb page_size n ≡ true = ground (arith, h) in rw (b, list_entry-ok c.prp2 0 at) refl

    next_second : (n : ℕ) → n ≤ page_size → next_paddr memory c none 2 0 n ≡ ok (c.prp2, none, 0)
    unfolding next_paddr
    next_second n h = let b : ltb page_size n ≡ false = ground (arith, h) in rw b refl

    copy_none :
        (fuel offset prp_offs prp2_offs n : ℕ) (list : Option ℕ)
        → n ≡ 0
        → n < fuel
        → copy_pages memory fuel c list prp_offs prp2_offs n offset ≡ ok (performed c.opcode [])
    unfolding copy_pages
    copy_none zero offset prp_offs prp2_offs n list e h = absurd (omega (arith, h))
    copy_none (suc fuel) offset prp_offs prp2_offs n list e h =
        rw (e, copy_pages) (ap ok (sym (performed-nil c.opcode)))

  -- The bytes behind the first page.
  abbrev pub rest_of : DataCommand → ℕ
  rest_of c = let n = (c.length + 1) * 512 in n - io_size c.prp1 n

  -- The command's pages: the second pointer is the second page, or the address of the list of all others.
  abbrev pub page_of : DataCommand → ℕ → ℕ
  page_of c zero = c.prp1
  page_of c (suc k) = if ltb page_size (rest_of c) then memory (c.prp2 + 8 * k) else c.prp2

  -- Pages but the first are aligned, and the list of them does not leave its page.
  abbrev pub IsPrp : DataCommand → Type 0
  IsPrp c =
      (k : ℕ)
      → k * page_size < rest_of c
      → (page_of c (suc k) % page_size ≡ 0) × (c.prp2 % page_size + 8 * k < page_size)

  module _ (c : DataCommand) (v : IsPrp c) where
    abbrev Copied : ℕ → ℕ → ℕ → Run (List Transfer) → Type 0
    Copied j offset n r =
        (chunks : List Chunk) × (r ≡ ok (performed c.opcode chunks))
        × Covers (page_of c) j offset n chunks

    listed : (k : ℕ) → page_size < rest_of c → page_of c (suc k) ≡ memory (c.prp2 + 8 * k)
    listed k h = let b : ltb page_size (rest_of c) ≡ true = ground (arith, h) in simp b

    copy_list :
        (fuel i n offset : ℕ)
        → n < fuel
        → page_size < rest_of c
        → (0 < n → n + suc i * page_size ≡ rest_of c)
        → Copied
            (suc (suc i))
            offset
            n
            (copy_pages memory fuel c (some c.prp2) (suc (suc i)) (suc i) n offset)
    copy_list zero i n offset h long left = absurd (omega (arith, h))
    copy_list (suc fuel) i zero offset h long left =
        ([], copy_none c (suc fuel) offset (suc (suc i)) (suc i) 0 (some c.prp2) refl h, refl)
    copy_list (suc fuel) i (suc m) offset h long left =
        let n = suc m in
        let k = suc i in
        let here = v k (omega (arith, left (omega arith))) in
        let same = listed k long in
        let paddr = memory (c.prp2 + 8 * k) in
        let (pos, below, inside) = io_size_lem paddr n (omega arith) in
        let size = io_size_aligned paddr n (sym (ap (λ (a : ℕ). a % page_size) same) ∙ here.0) in
        let (chunks, more, covers) =
          copy_list fuel k (n - io_size paddr n) ((offset + io_size paddr n) % u64_mod)
            (omega (arith, pos, below, h)) long (λ q. omega (arith, size, left (omega arith), q)) in
        (
          record { paddr = paddr; offset = offset; size = io_size paddr n } ∷ chunks,
          copy_step c fuel n offset (suc k) (suc (suc k)) k paddr (suc k) (some c.prp2)
              (some c.prp2) chunks (omega arith) (omega arith)
              (next_listed c c.prp2 (suc (suc k)) k n (omega arith) here.1) more,
          (sym same, refl, pos, inside, below, covers),
        )

    -- The second page, or the list.
    copy_second :
        (fuel n offset : ℕ)
        → n < fuel
        → n ≡ rest_of c
        → Copied 1 offset n (copy_pages memory fuel c none 1 0 n offset)
    copy_second zero n offset h e = absurd (omega (arith, h))
    copy_second (suc fuel) zero offset h e =
        ([], copy_none c (suc fuel) offset 1 0 0 none refl h, refl)
    copy_second (suc fuel) (suc m) offset h e =
        let n = suc m in
        let (aligned, fits) = v 0 (omega (arith, e)) in
        elim (Bool-cases (ltb page_size (rest_of c))) [
          | inl b ↦
              let long : page_size < rest_of c = ground (arith, b) in
              let same = listed 0 long in
              let paddr = memory (c.prp2 + 8 * 0) in
              let (pos, below, inside) = io_size_lem paddr n (omega arith) in
              let size =
                io_size_aligned paddr n (sym (ap (λ (a : ℕ). a % page_size) same) ∙ aligned) in
              let (chunks, more, covers) =
                copy_list fuel 0 (n - io_size paddr n) ((offset + io_size paddr n) % u64_mod)
                  (omega (arith, pos, below, h)) long (λ q. omega (arith, size, e, q)) in
              (
                record { paddr = paddr; offset = offset; size = io_size paddr n } ∷ chunks,
                copy_step c fuel n offset 1 2 0 paddr 1 none (some c.prp2) chunks (omega arith)
                    (omega arith) (next_list c n (omega (arith, e, long)) fits) more,
                (sym same, refl, pos, inside, below, covers),
              )
          | inr b ↦
              let short : rest_of c ≤ page_size = ground (arith, b) in
              let same : page_of c 1 ≡ c.prp2 = simp b in
              let paddr = c.prp2 in
              let (pos, below, inside) = io_size_lem paddr n (omega arith) in
              let size =
                io_size_aligned paddr n (sym (ap (λ (a : ℕ). a % page_size) same) ∙ aligned) in
              let gone : n - io_size paddr n ≡ 0 = omega (arith, size, short, e) in
              (
                record { paddr = paddr; offset = offset; size = io_size paddr n } ∷ [],
                copy_step c fuel n offset 1 2 0 paddr 0 none none [] (omega arith) (omega arith)
                    (next_second c n (omega (arith, e, short)))
                    (copy_none c fuel ((offset + io_size paddr n) % u64_mod) 2 0
                      (n - io_size paddr n) none gone (omega (arith, gone, h))),
                (sym same, refl, pos, inside, below, gone),
              )
        ]

    -- If the command's pages but the first are aligned, and the list of them does not leave its page, then
    -- __do_perform_io returns. It goes through the pages in their order, each within its page, one behind
    -- the other from the command's first sector on, modulo 2^64, and all of the command's bytes; a write
    -- and an append copy each of these chunks to the namespace, a read each to the host, and any other
    -- command copies none.
    pub do_perform_io-Covers :
        (chunks : List Chunk) × (do_perform_io memory c ≡ ok (performed c.opcode chunks))
        × Covers (page_of c) 0 ((c.slba * 512) % u64_mod) ((c.length + 1) * 512) chunks
    unfolding do_perform_io
    do_perform_io-Covers =
        let n = (c.length + 1) * 512 in
        let offset = (c.slba * 512) % u64_mod in
        let (pos, below, inside) = io_size_lem c.prp1 n (omega arith) in
        let (chunks, more, covers) =
          copy_second n (n - io_size c.prp1 n) ((offset + io_size c.prp1 n) % u64_mod)
            (omega (arith, pos, below)) refl in
        (
          record { paddr = c.prp1; offset = offset; size = io_size c.prp1 n } ∷ chunks,
          copy_step c n n offset 0 1 0 c.prp1 0 none none chunks (omega arith) (omega arith) refl
              more,
          (refl, refl, pos, inside, below, covers),
        )
