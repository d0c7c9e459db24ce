-- ===== src/AppendOnly/Laws.antt =====
-- append_only.c: the space that the append-only allocator gives out.
use nvmevirt_hybrid.Prelude.{
  ℕ, zero, suc, ◌+◌, ◌%◌, ◌≤◌, ◌<◌, ◌≡◌, ap, arith, List, [], ◌∷◌, some, get_elem?, some_injective,
  u64_mod,
}
use nvmevirt_hybrid.AppendOnly.{AppendOnly, append_only_allocate, allocate_all}

abbrev pub total : List ℕ → ℕ
total [] = 0
total (n ∷ ns) = n + total ns

-- Every allocation lies behind `latest`.
allocate_all-ge :
    (ns : List ℕ) (a : AppendOnly) (j n off : ℕ)
    → a.latest + total ns < u64_mod
    → get_elem? (allocate_all a ns) j ≡ some (n, off)
    → a.latest ≤ off
unfolding allocate_all append_only_allocate
allocate_all-ge [] a j n off room at = cc
allocate_all-ge (m ∷ ns) a zero n off room at =
    let same = ap (λ (p : ℕ × ℕ). p.1) (some_injective at) in omega (arith, same)
allocate_all-ge (m ∷ ns) a (suc j) n off room at =
    let b = (append_only_allocate a m).0 in
    let behind : (a.latest + m) % u64_mod ≤ off = allocate_all-ge ns b j n off (omega arith) at in
    omega (arith, behind, room)

-- Of two allocations in a sequence, the later one starts at or behind the end of the earlier one, as
-- long as the bytes given out stay below 2^64.
pub allocate_all-disjoint :
    (ns : List ℕ) (a : AppendOnly) (i j n off m off' : ℕ)
    → a.latest + total ns < u64_mod
    → i < j
    → get_elem? (allocate_all a ns) i ≡ some (n, off)
    → get_elem? (allocate_all a ns) j ≡ some (m, off')
    → off + n ≤ off'
unfolding allocate_all append_only_allocate
allocate_all-disjoint [] a i j n off m off' room h at at' = cc
allocate_all-disjoint (k ∷ ns) a i zero n off m off' room h at at' = absurd (ground arith)
allocate_all-disjoint (k ∷ ns) a zero (suc j) n off m off' room h at at' =
    let b = (append_only_allocate a k).0 in
    let behind : (a.latest + k) % u64_mod ≤ off' =
      allocate_all-ge ns b j m off' (omega arith) at' in
    let same = ap (λ (p : ℕ × ℕ). p.0 + p.1) (some_injective at) in
    omega (arith, behind, same, room)
allocate_all-disjoint (k ∷ ns) a (suc i) (suc j) n off m off' room h at at' =
    allocate_all-disjoint ns (append_only_allocate a k).0 i j n off m off' (omega arith)
      (omega arith) at at'
