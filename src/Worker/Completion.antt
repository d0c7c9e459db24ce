-- ===== src/Worker/Completion.antt =====
-- io.c: the completion queues. The pages of a queue are one array here.
pub mod Ring
use nvmevirt_hybrid.Prelude.{
  ℕ, zero, suc, ◌+◌, ◌-◌, ◌*◌, ◌%◌, Bool, true, false, Option, none, some, List, [], ◌∷◌, ◌++◌,
  get_elem?, set, length, leb, ◌==◌, if◌then◌else◌, not,
}
use nvmevirt_hybrid.Prelude.Run.{Run, ok, fault, out_of_bounds, null_dereference, ◌>>=◌, or_fault}
use nvmevirt_hybrid.Worker.{ProcEntry}

-- struct nvme_completion, with fields of 32, 16 and 16 bits.
pub record CqEntry : Type 0 where
  pub result0 : ℕ
  pub result1 : ℕ
  pub sq_head : ℕ
  pub sq_id : ℕ
  pub command_id : ℕ
  pub status : ℕ

-- struct nvmev_completion_queue; the phase is a bit.
pub record CompletionQueue : Type 0 where
  pub irq_vector : ℕ
  pub irq_enabled : Bool
  pub interrupt_ready : Bool
  pub queue_size : ℕ
  pub phase : Bool
  pub cq_head : ℕ
  pub cq : List CqEntry

abbrev pub phase_bit : Bool → ℕ
phase_bit true = 1
phase_bit false = 0

abbrev pub u16 : ℕ → ℕ
u16 n = n % 65536

unfoldable pub completion_of : ProcEntry → Bool → CqEntry
completion_of e phase = record {
  result0 = e.result0;
  result1 = e.result1;
  sq_head = u16 e.sq_entry;
  sq_id = u16 e.sqid;
  command_id = u16 e.command_id;
  status = u16 (phase_bit phase + e.status * 2);
}

unfoldable pub fill_cq_result : ProcEntry → CompletionQueue → Run CompletionQueue
unfolding completion_of
fill_cq_result e q = do
  old ← or_fault (get_elem? q.cq q.cq_head) out_of_bounds
  let q1 = record q { cq = set q.cq q.cq_head (completion_of e q.phase); interrupt_ready = true }
  let head = q.cq_head + 1
  ok (
      if head == q.queue_size
      then record q1 { cq_head = 0; phase = not q.phase }
      else record q1 { cq_head = head })

-- The queues by number, and NULL where there is none.
abbrev pub Cqes : Type 0
Cqes = List (Option CompletionQueue)

unfoldable pub post : ProcEntry → Cqes → Run Cqes
unfolding fill_cq_result
post e cqes = do
  slot ← or_fault (get_elem? cqes e.cqid) out_of_bounds
  q ← or_fault slot null_dereference
  q1 ← fill_cq_result e q
  ok (set cqes e.cqid (some q1))

-- The worker's loop over the queues: `locked` says which are this worker's and for which spin_trylock
-- succeeds. With the queues, the vectors that are signalled. Queue 0 is left out.
unfoldable pub signal_irq : Bool → CompletionQueue → CompletionQueue × List ℕ
signal_irq locked q =
    if q.irq_enabled
    then (if locked
        then (if q.interrupt_ready
            then (record q { interrupt_ready = false }, q.irq_vector ∷ [])
            else (q, []))
        else (q, []))
    else (q, [])

unfoldable pub signal_irqs : (ℕ → Bool) → ℕ → Cqes → Cqes × List ℕ
unfolding signal_irq
signal_irqs locked i [] = ([], [])
signal_irqs locked i (slot ∷ slots) =
    let (rest, vectors) = signal_irqs locked (suc i) slots in
    elim slot [
      | none ↦ (none ∷ rest, vectors)
      | some q ↦
          if i == 0
          then (some q ∷ rest, vectors)
          else (let (q1, sent) = signal_irq (locked i) q in (some q1 ∷ rest, sent ++ vectors))
    ]
