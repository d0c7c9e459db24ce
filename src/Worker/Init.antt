-- ===== src/Worker/Init.antt =====
-- io.c: NVMEV_IO_PROC_INIT makes a table whose entries are all free.
use nvmevirt_hybrid.Prelude.{
  ℕ, zero, suc, ◌+◌, ◌-◌, ◌<◌, ◌≡◌, refl, ap, ◌∙◌, arith, true, false, List, [], ◌∷◌, ◌++◌, some,
  get_elem?, length, ◌==◌, if◌then◌else◌, ==-false,
}
use nvmevirt_hybrid.Worker.{ProcEntry, nil, zero_entry, init_entries, init_proc_info}
use nvmevirt_hybrid.Worker.Index.{NotIn, Distinct}
use nvmevirt_hybrid.Worker.Chain.{FreeSeg}
use nvmevirt_hybrid.Worker.Queues.{Queues}

abbrev pub range : ℕ → ℕ → List ℕ
range i zero = []
range i (suc k) = i ∷ range (suc i) k

length-range : (i k : ℕ) → length (range i k) ≡ k
length-range i zero = refl
length-range i (suc k) = ap suc (length-range (suc i) k)

length-init_entries : (n i : ℕ) → length (init_entries n i) ≡ n
unfolding init_entries
length-init_entries zero i = refl
length-init_entries (suc n) i = ap suc (length-init_entries n (i + 1))

NotIn-range : (j i k last : ℕ) → j < i → last ≡ i + k → NotIn j (range i k ++ last ∷ [])
NotIn-range j i zero last h e = ((λ h1. omega (arith, h, e, h1)), tt)
NotIn-range j i (suc k) last h e = (
  (λ h1. omega (arith, h, h1)),
  NotIn-range j (suc i) k last (omega (arith, h)) (omega (arith, e)),
)

Distinct-range : (i k last : ℕ) → last ≡ i + k → Distinct (range i k ++ last ∷ [])
Distinct-range i zero last e = (tt, tt)
Distinct-range i (suc k) last e = (
  NotIn-range i (suc i) k last (omega arith) (omega (arith, e)),
  Distinct-range (suc i) k last (omega (arith, e)),
)

-- The `j`-th of `n` entries from `i` on leads to the next one, and the last one to none.
init_entries-next :
    (n i j : ℕ)
    → j < n
    → (e : ProcEntry) × (get_elem? (init_entries n i) j ≡ some e)
      × (e.next ≡ (if j + 1 == n then nil else suc (i + j)))
unfolding init_entries
init_entries-next zero i j h = absurd (omega (arith, h))
init_entries-next (suc n) i zero h = (
  record zero_entry { next = if n == 0 then nil else i + 1; prev = if i == 0 then nil else i - 1 },
  refl,
  ground arith,
)
init_entries-next (suc n) i (suc j) h =
    let (e, at, next) = init_entries-next n (i + 1) j (omega (arith, h)) in
    (e, at, next ∙ ground arith)

FreeSeg-init :
    (n i k last : ℕ)
    → last ≡ i + k
    → suc last ≡ n
    → FreeSeg (init_entries n 0) i (range i k ++ last ∷ []) nil
FreeSeg-init n i zero last e h =
    let (c, at, next) = init_entries-next n 0 i (omega (arith, e, h)) in
    let here : i ≡ last = omega (arith, e) in
    let stop : (i + 1 == n) ≡ true = ground (arith, e, h) in
    (c, here, rw (← here) at, rw stop at next)
FreeSeg-init n i (suc k) last e h =
    let (c, at, next) = init_entries-next n 0 i (omega (arith, e, h)) in
    let go : (i + 1 == n) ≡ false = ==-false (i + 1) n (λ h1. omega (arith, e, h, h1)) in
    let next1 : c.next ≡ suc i = (rw go at next) ∙ (omega arith) in
    (c, refl, at, rw next1 (FreeSeg-init n (suc i) k last (omega (arith, e)) h))

-- With at least one entry, all are free, in order.
pub init_proc_info-Queues :
    (n : ℕ) → suc n < nil → Queues (suc n) (init_proc_info (suc n)) [] (range 0 n)
unfolding init_proc_info
init_proc_info-Queues n h =
    let last : suc n - 1 ≡ n = omega arith in
    record {
      size = length-init_entries (suc n) 0;
      bound = h;
      io_list = refl;
      free_list = rw last (FreeSeg-init (suc n) 0 n n (omega arith) refl);
      distinct = rw last (Distinct-range 0 n n (omega arith));
      total = omega (arith, length-range 0 n);
    }
