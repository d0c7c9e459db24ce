-- ===== src/Tests/Io.antt =====
-- Examples on a worker with a table of four entries and one completion queue of four places.
use nvmevirt_hybrid.Prelude.{ℕ, ◌+◌, ◌≡◌, refl, arith, true, false, none, some, [], ◌∷◌}
use nvmevirt_hybrid.Prelude.Run.{Run, ok, fault}
use nvmevirt_hybrid.Worker.{ProcInfo, nil, init_entries, init_proc_info}
use nvmevirt_hybrid.Worker.Enqueue.{
  IoRequest, fill_io, enqueue, enqueue_io_req, insert_entry, search_back, link_entry,
}
use nvmevirt_hybrid.Worker.Reclaim.{reclaim, last_done, move_done}
use nvmevirt_hybrid.Worker.Completion.{
  CompletionQueue, CqEntry, Cqes, completion_of, fill_cq_result, post,
}
use nvmevirt_hybrid.Worker.Completion.Ring.{IsCq, Ready}
use nvmevirt_hybrid.Worker.Pass.{WorkerState, copy, complete, visit}
use nvmevirt_hybrid.Worker.Pass.Thread.{
  Thread, put_pi, takes_io, reclaims, starts, visits, Reach, here, next, IsSafe, first_thread,
}
use nvmevirt_hybrid.Worker.Pass.Round.{visit-IsSafe}
use nvmevirt_hybrid.Worker.Pass.Interleaving.{Reach-IsSafe}

abbrev blank : CqEntry
blank = record { result0 = 0; result1 = 0; sq_head = 0; sq_id = 0; command_id = 0; status = 0 }

abbrev pub some_cq : CompletionQueue
some_cq = record {
  irq_vector = 1;
  irq_enabled = true;
  interrupt_ready = false;
  queue_size = 4;
  phase = true;
  cq_head = 3;
  cq = blank ∷ blank ∷ blank ∷ blank ∷ [];
}

pub some_cq-IsCq : IsCq some_cq
some_cq-IsCq = record { pages = refl; head = omega arith }

abbrev pub some_cqes : Cqes
some_cqes = none ∷ some some_cq ∷ []

abbrev pub some_read : ℕ → ℕ → IoRequest
some_read slot target = record {
  sqid = 1;
  cqid = 1;
  sq_entry = slot;
  command_id = 70 + slot;
  status = 0;
  nsecs_start = 5;
  nsecs_target = target;
}

abbrev value_of : {A : Type 0} → A → Run A → A
value_of d (ok x) = x
value_of d (fault e) = d

abbrev start : Thread
start = first_thread 4 some_cqes

abbrev taken : Thread → IoRequest → ProcInfo
unfolding enqueue_io_req enqueue fill_io insert_entry search_back link_entry init_proc_info
    init_entries
taken s r = (value_of (s.w.pi, false) (enqueue_io_req 4 6 r s.w.pi)).0

-- A read that ends at 30, and then one that ends at 20.
abbrev one : Thread
one = put_pi start (taken start (some_read 0 30))

abbrev two : Thread
two = put_pi one (taken one (some_read 1 20))

abbrev begun : Thread
begun = record two { curr = two.w.pi.io_seq }

-- The earlier one was put in front.
in_front : two.w.pi.io_seq ≡ 1
unfolding enqueue_io_req enqueue fill_io insert_entry search_back link_entry init_proc_info
    init_entries
in_front = refl

pub some_cqes-Ready : Ready some_cqes 1
some_cqes-Ready = (some_cq, refl, some_cq-IsCq)

-- The worker at 40, on the first request, and then without it.
abbrev visited : WorkerState × ℕ
unfolding visit copy complete post fill_cq_result completion_of
visited = value_of (begun.w, nil) (visit 40 begun.curr begun.w)

abbrev moved : Thread
moved = record { w = visited.0; curr = visited.1 }

abbrev freed : Thread
unfolding reclaim last_done move_done
freed = put_pi moved (value_of moved.w.pi (reclaim moved.w.pi))

-- Its entry went to the end of the free list, while the worker stands on the other one.
behind_all : (freed.w.pi.free_seq_end ≡ 1) × (freed.curr ≡ 0) × (freed.w.pi.io_seq ≡ 0)
unfolding enqueue_io_req enqueue fill_io insert_entry search_back link_entry init_proc_info
    init_entries visit copy complete post fill_cq_result completion_of reclaim last_done move_done
behind_all = (refl, refl, refl)

begun-Reach : Reach 4 start begun
unfolding enqueue_io_req enqueue fill_io insert_entry search_back link_entry init_proc_info
    init_entries
begun-Reach =
    next two begun
      (next one two
        (next start one here (takes_io 6 (some_read 0 30) one.w.pi true some_cqes-Ready refl))
        (takes_io 6 (some_read 1 20) two.w.pi true some_cqes-Ready refl))
      (starts refl)

freed-Reach : Reach 4 start freed
unfolding enqueue_io_req enqueue fill_io insert_entry search_back link_entry init_proc_info
    init_entries visit copy complete post fill_cq_result completion_of reclaim last_done move_done
freed-Reach =
    next moved freed
      (next begun moved begun-Reach
        (visits 40 visited.0 visited.1 (λ e. omega (arith, e)) (omega arith) refl))
      (reclaims freed.w.pi refl)

Reach-IsSafe_example : IsSafe 4 freed
Reach-IsSafe_example = Reach-IsSafe 3 some_cqes freed (omega arith) freed-Reach

-- The entry that the worker begins with.
begun_curr : begun.curr ≡ 1
unfolding enqueue_io_req enqueue fill_io insert_entry search_back link_entry init_proc_info
    init_entries
begun_curr = refl

begun_time : begun.w.pi.proc_io_nsecs ≡ 0
unfolding enqueue_io_req enqueue fill_io insert_entry search_back link_entry init_proc_info
    init_entries
begun_time = refl

begun-IsSafe : IsSafe 4 begun
begun-IsSafe = Reach-IsSafe 3 some_cqes begun (omega arith) begun-Reach

visit-IsSafe_example :
    (w : WorkerState) × (n : ℕ) × (visit 40 begun.curr begun.w ≡ ok (w, n))
    × IsSafe 4 (record { w = w; curr = n })
visit-IsSafe_example =
    visit-IsSafe 4 40 begun (omega (arith, begun_time)) begun-IsSafe
      (λ e. omega (arith, e, begun_curr))

abbrev pub some_clock : ℕ → ℕ
some_clock n = 40 + n
