-- ===== src/Worker/Completion/Ring.antt =====
-- io.c: completions go round in the queue, and the phase turns with each round.
use nvmevirt_hybrid.Prelude.{
  ℕ, zero, suc, ◌+◌, ◌<◌, ◌≡◌, ◌≢◌, refl, sym, ap, ◌∙◌, arith, inl, inr, Bool, true, Bool-cases,
  some, List, [], ◌∷◌, get_elem?, set, length, ◌==◌, if◌then◌else◌, length-set, some_injective,
  lt-length→get_elem?, get_elem?-set_self, get_elem?-set_ne, get_elem?-lt-length, ltb, not, ◌-◌,
  ◌≤◌,
}
use nvmevirt_hybrid.Prelude.Run.{Run, ok, ◌>>=◌, ok-injective}
use native.Mathlib.Decide.{ℕ_discrete}
use nvmevirt_hybrid.Worker.{ProcEntry}
use nvmevirt_hybrid.Worker.Completion.{CompletionQueue, Cqes, completion_of, fill_cq_result, post}

pub record IsCq (q : CompletionQueue) : Type 0 where
  pub pages : length q.cq ≡ q.queue_size
  pub head : q.cq_head < q.queue_size

pub fill_cq_result-IsCq :
    (e : ProcEntry) (q : CompletionQueue)
    → IsCq q
    → (r : CompletionQueue) × (fill_cq_result e q ≡ ok r) × IsCq r
unfolding fill_cq_result
fill_cq_result-IsCq e q v =
    let (old, at) = lt-length→get_elem? q.cq q.cq_head (omega (arith, v.pages, v.head)) in
    let c = completion_of e q.phase in
    let size : length (set q.cq q.cq_head c) ≡ q.queue_size =
      length-set q.cq q.cq_head c ∙ v.pages in
    elim (Bool-cases (q.cq_head + 1 == q.queue_size)) [
      | inl last ↦ (
        record q {
          cq = set q.cq q.cq_head c;
          interrupt_ready = true;
          cq_head = 0;
          phase = not q.phase;
        },
        rw (at, last) refl,
        record { pages = size; head = omega (arith, v.head) },
      )
      | inr more ↦ (
        record q { cq = set q.cq q.cq_head c; interrupt_ready = true; cq_head = q.cq_head + 1 },
        rw (at, more) refl,
        record { pages = size; head = ground (arith, v.head) },
      )
    ]

-- There is a queue of that number, in order.
abbrev pub Ready : Cqes → ℕ → Type 0
Ready cqes id = (q : CompletionQueue) × (get_elem? cqes id ≡ some (some q)) × IsCq q

pub post-Ready :
    (e : ProcEntry) (cqes : Cqes)
    → Ready cqes e.cqid
    → (after : Cqes) × (post e cqes ≡ ok after) × ((id : ℕ) → Ready cqes id → Ready after id)
unfolding post
post-Ready e cqes (q, at, v) =
    let (r, runs, v1) = fill_cq_result-IsCq e q v in
    (
      set cqes e.cqid (some r),
      rw (at, runs) refl,
      λ id ready. elim (ℕ_discrete e.cqid id) [
        | yes same ↦ (
          r,
          rw (← same) (
              get_elem?-set_self cqes e.cqid (some r)
                (get_elem?-lt-length cqes e.cqid (some q) at)),
          v1,
        )
        | no ne ↦ (ready.0, get_elem?-set_ne cqes e.cqid id (some r) ne ∙ ready.1, ready.2)
      ],
    )

-- Completions one behind the other.
abbrev pub fill_all : List ProcEntry → CompletionQueue → Run CompletionQueue
fill_all [] q = ok q
fill_all (e ∷ es) q = fill_cq_result e q >>= λ r. fill_all es r

-- The place of the `j`-th completion from `head` on, and its phase: the queue is gone round at most
-- once.
abbrev pub slot : ℕ → ℕ → ℕ → ℕ
slot size head j = if ltb (head + j) size then head + j else head + j - size

abbrev pub phase_at : ℕ → Bool → ℕ → ℕ → Bool
phase_at size phase head j = if ltb (head + j) size then phase else not phase

-- After a completion.
abbrev next_head : CompletionQueue → ℕ
next_head q = if q.cq_head + 1 == q.queue_size then 0 else q.cq_head + 1

abbrev next_phase : CompletionQueue → Bool
next_phase q = if q.cq_head + 1 == q.queue_size then not q.phase else q.phase

abbrev after_one : ProcEntry → CompletionQueue → CompletionQueue
after_one e q = record q {
  cq = set q.cq q.cq_head (completion_of e q.phase);
  interrupt_ready = true;
  cq_head = next_head q;
  phase = next_phase q;
}

fill_runs :
    (e : ProcEntry) (q : CompletionQueue)
    → q.cq_head < length q.cq
    → fill_cq_result e q ≡ ok (after_one e q)
unfolding fill_cq_result
fill_runs e q lt =
    let (old, at) = lt-length→get_elem? q.cq q.cq_head lt in
    elim (Bool-cases (q.cq_head + 1 == q.queue_size)) [
      | inl last ↦ rw (at, last) refl
      | inr more ↦ rw (at, more) refl
    ]

fill_one :
    (e : ProcEntry) (q : CompletionQueue)
    → IsCq q
    → (r : CompletionQueue) × (fill_cq_result e q ≡ ok r)
      × IsCq r
      × (r.queue_size ≡ q.queue_size)
      × (r.cq_head ≡ next_head q)
      × (r.phase ≡ next_phase q)
      × (get_elem? r.cq q.cq_head ≡ some (completion_of e q.phase))
      × ((i : ℕ) → i ≢ q.cq_head → get_elem? r.cq i ≡ get_elem? q.cq i)
fill_one e q v =
    let h = q.cq_head in
    let c = completion_of e q.phase in
    let (r, runs, v1) = fill_cq_result-IsCq e q v in
    let lt : h < length q.cq = omega (arith, v.pages, v.head) in
    let r_eq : r ≡ after_one e q = ok-injective (sym runs ∙ fill_runs e q lt) in
    (
      r,
      runs,
      v1,
      ap (λ (x : CompletionQueue). x.queue_size) r_eq,
      ap (λ (x : CompletionQueue). x.cq_head) r_eq,
      ap (λ (x : CompletionQueue). x.phase) r_eq,
      ap (λ (x : CompletionQueue). get_elem? x.cq h) r_eq ∙ get_elem?-set_self q.cq h c lt,
      λ i ne.
          ap (λ (x : CompletionQueue). get_elem? x.cq i) r_eq
          ∙ get_elem?-set_ne q.cq h i c (λ e1. ne (sym e1)),
    )

module _ (size : ℕ) where
  slot-step :
      (head j : ℕ)
      → head < size
      → j < size
      → slot size (if head + 1 == size then 0 else head + 1) j ≡ slot size head (suc j)
  slot-step head j h k = ground arith

  phase_at-step :
      (head j : ℕ) (b : Bool)
      → head < size
      → j < size
      → phase_at size
          (if head + 1 == size then not b else b)
          (if head + 1 == size then 0 else head + 1)
          j
        ≡ phase_at size b head (suc j)
  phase_at-step head j b h k = ground arith

-- What the host finds: each completion in its place, with the phase of its round, and the other
-- entries as they were.
pub record Posted (q r : CompletionQueue) (es : List ProcEntry) : Type 0 where
  pub valid : IsCq r
  pub size : r.queue_size ≡ q.queue_size
  pub head : r.cq_head ≡ slot q.queue_size q.cq_head (length es)
  pub phase : r.phase ≡ phase_at q.queue_size q.phase q.cq_head (length es)
  pub entries :
      (j : ℕ) (e : ProcEntry)
      → get_elem? es j ≡ some e
      → get_elem? r.cq (slot q.queue_size q.cq_head j)
        ≡ some (completion_of e (phase_at q.queue_size q.phase q.cq_head j))
  pub others :
      (i : ℕ)
      → ((j : ℕ) → j < length es → i ≢ slot q.queue_size q.cq_head j)
      → get_elem? r.cq i ≡ get_elem? q.cq i

slot_zero : (size head : ℕ) → head < size → slot size head 0 ≡ head
slot_zero size head h = ground arith

phase_at_zero : (size head : ℕ) (b : Bool) → head < size → phase_at size b head 0 ≡ b
phase_at_zero size head b h = ground arith

slot-ne-head : (size head j : ℕ) → head < size → suc j < size → head ≢ slot size head (suc j)
slot-ne-head size head j h k = ground arith

-- One completion more in front.
Posted-cons :
    (q r s : CompletionQueue) (e : ProcEntry) (es : List ProcEntry)
    → IsCq q
    → suc (length es) ≤ q.queue_size
    → r.queue_size ≡ q.queue_size
    → r.cq_head ≡ next_head q
    → r.phase ≡ next_phase q
    → get_elem? r.cq q.cq_head ≡ some (completion_of e q.phase)
    → ((i : ℕ) → i ≢ q.cq_head → get_elem? r.cq i ≡ get_elem? q.cq i)
    → Posted r s es
    → Posted q s (e ∷ es)
Posted-cons q r s e es v h size_eq head_eq phase_eq at_head others1 p = record {
  valid = p.valid;
  size = p.size ∙ size_eq;
  head = p.head ∙ slots (length es) (omega (arith, h));
  phase = p.phase ∙ phases (length es) (omega (arith, h));
  entries = entries;
  others = λ i out.
      p.others i (λ j k e1. out (suc j) (omega (arith, k)) (e1 ∙ slots j (omega (arith, k, h))))
      ∙ others1 i (λ e1. out 0 (omega arith) (e1 ∙ sym (slot_zero q.queue_size q.cq_head v.head)));
}
  where
    slots :
        (j : ℕ)
        → j < q.queue_size
        → slot r.queue_size r.cq_head j ≡ slot q.queue_size q.cq_head (suc j)
    slots j k = rw (size_eq, head_eq) (slot-step q.queue_size q.cq_head j v.head k)

    phases :
        (j : ℕ)
        → j < q.queue_size
        → phase_at r.queue_size r.phase r.cq_head j
          ≡ phase_at q.queue_size q.phase q.cq_head (suc j)
    phases j k =
        rw (size_eq, head_eq, phase_eq) (phase_at-step q.queue_size q.cq_head j q.phase v.head k)

    first : get_elem? s.cq q.cq_head ≡ some (completion_of e q.phase)
    first =
        p.others q.cq_head (λ j k e1.
          slot-ne-head q.queue_size q.cq_head j v.head (omega (arith, k, h))
            (e1 ∙ slots j (omega (arith, k, h))))
        ∙ at_head

    entries :
        (j : ℕ) (d : ProcEntry)
        → get_elem? (e ∷ es) j ≡ some d
        → get_elem? s.cq (slot q.queue_size q.cq_head j)
          ≡ some (completion_of d (phase_at q.queue_size q.phase q.cq_head j))
    entries zero d at =
        rw
          (
            slot_zero q.queue_size q.cq_head v.head,
            phase_at_zero q.queue_size q.cq_head q.phase v.head,
            ← some_injective at,
          )
          first
    entries (suc j) d at =
        let k : j < q.queue_size = omega (arith, get_elem?-lt-length es j d at, h) in
        rw (← slots j k, ← phases j k) (p.entries j d at)

-- In a queue with one entry for each place and its head at a place, up to as many completions as it has
-- places go one behind the other from the head on, round the queue; each has the phase of its round,
-- which turns at the end, and no other entry changes.
pub fill_all-Posted :
    (es : List ProcEntry) (q : CompletionQueue)
    → IsCq q
    → length es ≤ q.queue_size
    → (r : CompletionQueue) × (fill_all es q ≡ ok r) × Posted q r es
fill_all-Posted [] q v h = (
  q,
  refl,
  record {
    valid = v;
    size = refl;
    head = sym (slot_zero q.queue_size q.cq_head v.head);
    phase = sym (phase_at_zero q.queue_size q.cq_head q.phase v.head);
    entries = λ j e at. absurd (none_at j e at);
    others = λ i out. refl;
  },
)
  where
    none_at : (j : ℕ) (e : ProcEntry) → get_elem? [] j ≡ some e → ⊥
    none_at j e at = cc
fill_all-Posted (e ∷ es) q v h =
    let (r, runs, v1, size_eq, head_eq, phase_eq, at_head, others1) = fill_one e q v in
    let (s, more, p) = fill_all-Posted es r v1 (omega (arith, h, size_eq)) in
    (s, rw runs more, Posted-cons q r s e es v h size_eq head_eq phase_eq at_head others1 p)
