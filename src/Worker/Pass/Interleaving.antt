-- ===== src/Worker/Pass/Interleaving.antt =====
-- io.c: what holds of a worker behind every sequence of the dispatcher's calls and its own rounds.
use mathlib.Core.Path.{subst}
use nvmevirt_hybrid.Prelude.{
  ℕ, suc, ◌<◌, ◌≡◌, refl, sym, ap, ◌∙◌, inl, inr, Bool, true, false, List, [], ◌∷◌, ◌++◌,
}
use nvmevirt_hybrid.Prelude.Run.{ok, ok-injective}
use nvmevirt_hybrid.Worker.{ProcEntry, ProcInfo, nil}
use nvmevirt_hybrid.Worker.Init.{range, init_proc_info-Queues}
use nvmevirt_hybrid.Worker.Queues.{Queues, enqueue_lem, enqueue-full}
use nvmevirt_hybrid.Worker.Enqueue.{
  fill_io, fill_writeback, enqueue, enqueue_io_req, enqueue_writeback_io_req,
}
use nvmevirt_hybrid.Worker.Enqueue.Search.{goes_before, insert_behind}
use nvmevirt_hybrid.Worker.Order.{
  All-insert_behind, All-drop_done, InOrder-insert_behind, InOrder-drop_done,
}
use nvmevirt_hybrid.Worker.Reclaim.{reclaim}
use nvmevirt_hybrid.Worker.Reclaim.Laws.{reclaim_lem}
use nvmevirt_hybrid.Worker.Reclaim.Walk.{drop_done}
use nvmevirt_hybrid.Worker.Completion.{Cqes}
use nvmevirt_hybrid.Worker.Pass.{WorkerState}
use nvmevirt_hybrid.Worker.Pass.Visit.{CanComplete}
use nvmevirt_hybrid.Worker.Pass.Cursor.{Stands, take_done-AllComplete, Stands-take, Stands-reclaim}
use nvmevirt_hybrid.Worker.Index.{indices, Distinct-Apart, Distinct-right, Apart-grow}
use nvmevirt_hybrid.Worker.Chain.{linked}
use nvmevirt_hybrid.Worker.Pass.Thread.{
  Thread, put_pi, Step, takes_io, takes_writeback, reclaims, starts, visits, Reach, here, next,
  IsFair, IsSafe, first_thread, true_ne_false,
}
use nvmevirt_hybrid.Worker.Pass.Round.{Stands-first, visit-IsSafe}

module _ (nr_max : ℕ) (s : Thread) where
  enqueue-IsSafe :
      (fill : ProcEntry → ProcEntry) (pi : ProcInfo) (taken : Bool)
      → ((e : ProcEntry) → fill e ≡ linked (fill e) nil nil)
      → ((e : ProcEntry) → CanComplete s.w.cqes (fill e))
      → ((e : ProcEntry) → (fill e).is_completed ≡ false)
      → enqueue nr_max fill s.w.pi ≡ ok (pi, taken)
      → IsSafe nr_max s
      → IsSafe nr_max (put_pi s pi)
  enqueue-IsSafe fill pi taken clean can fresh runs v = by_free v.free v.queues v.stands
    where
      by_free :
          (free : List ℕ)
          → Queues nr_max s.w.pi v.io free
          → Stands s.w.pi.proc_table s.curr v.io (free ++ s.w.pi.free_seq_end ∷ [])
          → IsSafe nr_max (put_pi s pi)
      by_free [] q st =
          let same : (s.w.pi, false) ≡ (pi, taken) =
            ok-injective (sym (enqueue-full nr_max fill clean s.w.pi v.io q) ∙ runs) in
          subst (λ p. IsSafe nr_max (put_pi s p)) (ap (λ (x : ProcInfo × Bool). x.0) same) v
      by_free (x ∷ free) q st =
          let (e, p, holds, runs1, q1, now, end, others) =
            enqueue_lem nr_max fill clean s.w.pi v.io x free q in
          let same : (p, true) ≡ (pi, taken) = ok-injective (sym runs1 ∙ runs) in
          let now0 = s.w.pi.proc_io_nsecs in
          let d = fill e in
          let test = goes_before now0 d.nsecs_target in
          let js = free ++ s.w.pi.free_seq_end ∷ [] in
          let (out, apart) = Distinct-Apart (indices v.io) (x ∷ js) q.distinct in
          let alone = (Distinct-right (indices v.io) (x ∷ js) q.distinct).0 in
          let new : IsFair now0 s.w.cqes d = record {
            can = can e;
            due = λ h. absurd (true_ne_false (sym h ∙ fresh e));
          } in
          let st1 =
            Stands-take s.w.pi.proc_table p.proc_table s.curr x test d v.io js
              (λ i h. others i h.0 h.1) (Apart-grow x js (indices v.io) alone apart) st in
          let done : IsSafe nr_max (put_pi s p) = record {
            io = insert_behind test (x, d) v.io;
            free = free;
            queues = q1;
            order = rw now (InOrder-insert_behind now0 (x, d) v.io v.order);
            fair = rw now (All-insert_behind (IsFair now0 s.w.cqes) test (x, d) v.io new v.fair);
            stands = rw end st1;
          } in
          subst (λ p. IsSafe nr_max (put_pi s p)) (ap (λ (x : ProcInfo × Bool). x.0) same) done

  reclaim-IsSafe :
      (pi : ProcInfo) → reclaim s.w.pi ≡ ok pi → IsSafe nr_max s → IsSafe nr_max (put_pi s pi)
  reclaim-IsSafe pi runs v =
      let now0 = s.w.pi.proc_io_nsecs in
      let (q, free1, runs1, q1, lists, now, kept) =
        reclaim_lem nr_max s.w.pi v.free v.io v.queues in
      let same : q ≡ pi = ok-injective (sym runs1 ∙ runs) in
      let complete =
        take_done-AllComplete s.w.pi.proc_table now0 v.io s.w.pi.io_seq s.w.pi.io_seq_end
          v.queues.io_list in
      let done : IsSafe nr_max (put_pi s q) = record {
        io = drop_done now0 v.io;
        free = free1;
        queues = q1;
        order = rw now (InOrder-drop_done now0 v.io v.order);
        fair = rw now (All-drop_done (IsFair now0 s.w.cqes) now0 v.io v.fair);
        stands =
            Stands-reclaim s.w.pi.proc_table q.proc_table s.curr now0 v.io
              (v.free ++ s.w.pi.free_seq_end ∷ []) (free1 ++ q.free_seq_end ∷ []) complete kept
              lists v.stands;
      } in
      subst (λ p. IsSafe nr_max (put_pi s p)) same done

Step-IsSafe : (nr_max : ℕ) (s u : Thread) → Step nr_max s u → IsSafe nr_max s → IsSafe nr_max u
unfolding enqueue_io_req enqueue_writeback_io_req fill_io fill_writeback
Step-IsSafe nr_max s u (takes_io now r pi taken ready runs) v =
    enqueue-IsSafe nr_max s (fill_io now r) pi taken (λ e. refl) (λ e. inr ready) (λ e. refl) runs v
Step-IsSafe nr_max s u (takes_writeback now now1 r pi taken runs) v =
    enqueue-IsSafe nr_max s (fill_writeback now now1 r) pi taken (λ e. refl) (λ e. inl refl)
      (λ e. refl) runs v
Step-IsSafe nr_max s u (reclaims pi runs) v = reclaim-IsSafe nr_max s pi runs v
Step-IsSafe nr_max s u (starts e) v = record {
  io = v.io;
  free = v.free;
  queues = v.queues;
  order = v.order;
  fair = v.fair;
  stands =
      Stands-first s.w.pi.proc_table v.io s.w.pi.io_seq s.w.pi.io_seq_end
        (v.free ++ s.w.pi.free_seq_end ∷ []) v.queues.io_list;
}
Step-IsSafe nr_max s u (visits now w m ne later runs) v =
    let (w1, n, runs1, v1) = visit-IsSafe nr_max now s later v ne in
    let same = ok-injective (sym runs1 ∙ runs) in
    subst (λ (x : WorkerState × ℕ). IsSafe nr_max (record { w = x.0; curr = x.1 })) same v1

Reach_keeps : (nr_max : ℕ) (s u : Thread) → Reach nr_max s u → IsSafe nr_max s → IsSafe nr_max u
Reach_keeps nr_max s u here v = v
Reach_keeps nr_max s u (next t w r st) v = Step-IsSafe nr_max t u st (Reach_keeps nr_max s t r v)

-- From the set-up of a table of 1 to 2^32 - 2 entries on, whatever the order of the dispatcher's calls
-- and the worker's rounds, if commands name completion queues in order and the clock does not go back:
-- each entry of the table is in one of the two lists, once; no request stands in front of one that
-- ends earlier, unless it was due; no request is complete before its time; and the worker stands
-- nowhere, on a request, or on an entry whose request was completed.
pub Reach-IsSafe :
    (n : ℕ) (cqes : Cqes) (u : Thread)
    → suc n < nil
    → Reach (suc n) (first_thread (suc n) cqes) u
    → IsSafe (suc n) u
Reach-IsSafe n cqes u h r = Reach_keeps (suc n) (first_thread (suc n) cqes) u r (record {
  io = [];
  free = range 0 n;
  queues = init_proc_info-Queues n h;
  order = tt;
  fair = tt;
  stands = inl refl;
})
