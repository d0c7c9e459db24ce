-- ===== src/Tests/Lists.antt =====
-- Examples of a worker's two lists, and of a completion queue.
use nvmevirt_hybrid.Prelude.{
  ℕ, ◌≤◌, ◌≡◌, ◌≢◌, refl, arith, true, false, inr, some, List, [], ◌∷◌, get_elem?, ◌++◌,
}
use nvmevirt_hybrid.Prelude.Run.{ok}
use nvmevirt_hybrid.Worker.{ProcEntry, ProcInfo, nil, zero_entry, init_proc_info}
use nvmevirt_hybrid.Worker.Init.{init_proc_info-Queues}
use nvmevirt_hybrid.Worker.Index.{NotIn, indices}
use nvmevirt_hybrid.Worker.Chain.{KeepsComplete}
use nvmevirt_hybrid.Worker.Enqueue.{fill_io, enqueue}
use nvmevirt_hybrid.Worker.Enqueue.Search.{goes_before, insert_behind}
use nvmevirt_hybrid.Worker.Queues.{Queues, enqueue_lem}
use nvmevirt_hybrid.Worker.Reclaim.{reclaim}
use nvmevirt_hybrid.Worker.Reclaim.Laws.{reclaim_lem}
use nvmevirt_hybrid.Worker.Completion.{CompletionQueue}
use nvmevirt_hybrid.Worker.Completion.Ring.{Posted, fill_all, fill_all-Posted}
use nvmevirt_hybrid.Worker.Order.{All}
use nvmevirt_hybrid.Worker.Pass.{WorkerState, pass}
use nvmevirt_hybrid.Worker.Pass.Whole.{served, pass_completes}
use nvmevirt_hybrid.Tests.Io.{
  some_cq, some_cq-IsCq, some_cqes, some_read, some_cqes-Ready, some_clock,
}

enqueue_lem_example :
    (e : ProcEntry) × (q : ProcInfo) × (get_elem? (init_proc_info 4).proc_table 0 ≡ some e)
    × (enqueue 4 (fill_io 6 (some_read 0 30)) (init_proc_info 4) ≡ ok (q, true))
    × Queues 4 q
        (insert_behind
          (goes_before (init_proc_info 4).proc_io_nsecs (fill_io 6 (some_read 0 30) e).nsecs_target)
          (0, fill_io 6 (some_read 0 30) e)
          [])
        (1 ∷ 2 ∷ [])
    × (q.proc_io_nsecs ≡ (init_proc_info 4).proc_io_nsecs)
    × (q.free_seq_end ≡ (init_proc_info 4).free_seq_end)
    × ((i : ℕ)
        → i ≢ 0
        → NotIn i (indices [])
        → get_elem? q.proc_table i ≡ get_elem? (init_proc_info 4).proc_table i)
unfolding fill_io
enqueue_lem_example =
    enqueue_lem 4 (fill_io 6 (some_read 0 30)) (λ e. refl) (init_proc_info 4) [] 0 (1 ∷ 2 ∷ [])
      (init_proc_info-Queues 3 (omega arith))

-- The one request behind `freed`'s visit, done.
abbrev done_entry : ProcEntry
done_entry = record zero_entry {
  sqid = 1;
  cqid = 1;
  nsecs_target = 20;
  is_copied = true;
  is_completed = true;
}

abbrev done_pi : ProcInfo
done_pi = record {
  proc_table =
      record done_entry { next = nil; prev = nil }
      ∷ record zero_entry { next = 2 }
      ∷ record zero_entry { next = nil }
      ∷ [];
  free_seq = 1;
  free_seq_end = 2;
  io_seq = 0;
  io_seq_end = 0;
  proc_io_nsecs = 40;
}

done_pi-Queues : Queues 3 done_pi ((0, done_entry) ∷ []) (1 ∷ [])
done_pi-Queues = record {
  size = refl;
  bound = omega arith;
  io_list = (nil, refl, refl, (refl, refl));
  free_list = (
    record zero_entry { next = 2 },
    refl,
    refl,
    (record zero_entry { next = nil }, refl, refl, refl),
  );
  distinct = (
    ((λ e. omega (arith, e)), ((λ e. omega (arith, e)), tt)),
    (((λ e. omega (arith, e)), tt), (tt, tt)),
  );
  total = refl;
}

reclaim_lem_example :
    (q : ProcInfo) × (free1 : List ℕ) × (reclaim done_pi ≡ ok q)
    × Queues 3 q [] free1
    × (free1 ++ q.free_seq_end ∷ [] ≡ (1 ∷ 2 ∷ []) ++ 0 ∷ [])
    × (q.proc_io_nsecs ≡ 40)
    × KeepsComplete done_pi.proc_table q.proc_table
reclaim_lem_example = reclaim_lem 3 done_pi (1 ∷ []) ((0, done_entry) ∷ []) done_pi-Queues

abbrev open_entry : ProcEntry
open_entry = record done_entry { is_copied = false; is_completed = false }

abbrev open_worker : WorkerState
open_worker = record {
  pi = record done_pi {
    proc_table =
        record open_entry { next = nil; prev = nil }
        ∷ record zero_entry { next = 2 }
        ∷ record zero_entry { next = nil }
        ∷ [];
  };
  cqes = some_cqes;
  jobs = [];
}

open_worker-Queues : Queues 3 open_worker.pi ((0, open_entry) ∷ []) (1 ∷ [])
open_worker-Queues = record {
  size = refl;
  bound = omega arith;
  io_list = (nil, refl, refl, (refl, refl));
  free_list = done_pi-Queues.free_list;
  distinct = done_pi-Queues.distinct;
  total = refl;
}

pass_completes_example :
    (w1 : WorkerState) × (pass some_clock 2 0 open_worker 0 ≡ ok w1)
    × Queues 3 w1.pi (served some_clock 0 ((0, open_entry) ∷ [])) (1 ∷ [])
    × All
        (λ d. d.nsecs_target ≤ 40 → d.is_completed ≡ true)
        (served some_clock 0 ((0, open_entry) ∷ []))
pass_completes_example =
    pass_completes some_clock 3 ((0, open_entry) ∷ []) 2 40 0 open_worker (1 ∷ []) (omega arith)
      open_worker-Queues (inr some_cqes-Ready, tt) (λ k h. omega arith)

-- Two completions, of which the second comes to the queue's first place, in the other phase.
fill_all-Posted_example :
    (r : CompletionQueue) × (fill_all (done_entry ∷ open_entry ∷ []) some_cq ≡ ok r)
    × Posted some_cq r (done_entry ∷ open_entry ∷ [])
fill_all-Posted_example =
    fill_all-Posted (done_entry ∷ open_entry ∷ []) some_cq some_cq-IsCq (omega arith)
