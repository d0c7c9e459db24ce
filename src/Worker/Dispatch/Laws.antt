-- ===== src/Worker/Dispatch/Laws.antt =====
-- io.c: the dispatcher's path from a doorbell to the workers' lists.
use nvmevirt_hybrid.Prelude.{
  ℕ, zero, suc, ◌+◌, ◌-◌, ◌*◌, ◌%◌, ◌<◌, ◌≡◌, refl, ap, arith, inl, inr, Bool, true, false,
  Bool-cases, Option, none, some, Option-cases, List, [], ◌∷◌, get_elem?, set, length, ◌==◌,
  if◌then◌else◌, u32_mod, ==-false, length-set, lt-length→get_elem?, some_injective,
}
use native.Mathlib.Nat.{mod-lt}
use nvmevirt_hybrid.Prelude.Run.{Run, ok}
use nvmevirt_hybrid.Prelude.Div.{mod_small}
use nvmevirt_hybrid.Worker.{ProcEntry, ProcInfo, nil}
use nvmevirt_hybrid.Worker.Index.{Item}
use nvmevirt_hybrid.Worker.Chain.{linked}
use nvmevirt_hybrid.Worker.Queues.{Queues, enqueue_lem, enqueue-full}
use nvmevirt_hybrid.Worker.Enqueue.{
  IoRequest, Workers, enqueue, enqueue_io_req, fill_io, get_io_worker, dispatch,
}
use nvmevirt_hybrid.Worker.Reclaim.{reclaim_completed_reqs}
use nvmevirt_hybrid.Worker.Enqueue.Search.{goes_before, insert_behind}
use nvmevirt_hybrid.Worker.Reclaim.Walk.{drop_done}
use nvmevirt_hybrid.Worker.Reclaim.Laws.{reclaim_lem}
use nvmevirt_hybrid.Worker.Doorbell.{SqStat, num_proc, proc_io_sq}
use nvmevirt_hybrid.Worker.Doorbell.Laws.{Handed, proc_io_sq_lem}
use nvmevirt_hybrid.Worker.Dispatch.{SqCommand, Answer, nvmev_proc_io, sq_handler}

-- The two lists of the worker are in order, whatever is in them.
abbrev pub Sound : ℕ → ProcInfo → Type 0
Sound nr_max pi = (io : List Item) × (free : List ℕ) × Queues nr_max pi io free

abbrev pub AllSound : ℕ → List ProcInfo → Type 0
AllSound nr_max [] = Unit
AllSound nr_max (pi ∷ pis) = Sound nr_max pi × AllSound nr_max pis

pub record IsWorkers (nr_max : ℕ) (ws : Workers) : Type 0 where
  pub queues : AllSound nr_max ws.proc_info
  pub turn : ws.proc_turn < length ws.proc_info
  pub count : length ws.proc_info < u32_mod

module _ (nr_max : ℕ) where
  AllSound-at :
      (pis : List ProcInfo) (i : ℕ) (pi : ProcInfo)
      → AllSound nr_max pis
      → get_elem? pis i ≡ some pi
      → Sound nr_max pi
  AllSound-at [] i pi a at = cc
  AllSound-at (p ∷ pis) zero pi a at = rw (← some_injective at) a.0
  AllSound-at (p ∷ pis) (suc i) pi a at = AllSound-at pis i pi a.1 at

  AllSound-set :
      (pis : List ProcInfo) (i : ℕ) (pi : ProcInfo)
      → AllSound nr_max pis
      → Sound nr_max pi
      → AllSound nr_max (set pis i pi)
  AllSound-set [] i pi a s = tt
  AllSound-set (p ∷ pis) zero pi a s = (s, a.1)
  AllSound-set (p ∷ pis) (suc i) pi a s = (a.0, AllSound-set pis i pi a.1 s)

  enqueue-Sound :
      (fill : ProcEntry → ProcEntry) (pi : ProcInfo)
      → ((e : ProcEntry) → fill e ≡ linked (fill e) nil nil)
      → Sound nr_max pi
      → (p : ProcInfo) × (taken : Bool) × (enqueue nr_max fill pi ≡ ok (p, taken)) × Sound nr_max p
  enqueue-Sound fill pi clean (io, [], q) =
      (pi, false, enqueue-full nr_max fill clean pi io q, (io, [], q))
  enqueue-Sound fill pi clean (io, x ∷ free, q) =
      let (e, p, holds, runs, q1, now, end, others) =
        enqueue_lem nr_max fill clean pi io x free q in
      let test = goes_before pi.proc_io_nsecs (fill e).nsecs_target in
      (p, true, runs, (insert_behind test (x, fill e) io, free, q1))

  reclaim_completed_reqs-AllSound :
      (pis : List ProcInfo)
      → AllSound nr_max pis
      → (qs : List ProcInfo) × (reclaim_completed_reqs pis ≡ ok qs)
        × AllSound nr_max qs
        × (length qs ≡ length pis)
  unfolding reclaim_completed_reqs
  reclaim_completed_reqs-AllSound [] a = ([], refl, tt, refl)
  reclaim_completed_reqs-AllSound (pi ∷ pis) a =
      let (io, free, q) = a.0 in
      let (p, free1, runs, q1, lists, now, kept) = reclaim_lem nr_max pi free io q in
      let (ps, more, a1, size) = reclaim_completed_reqs-AllSound pis a.1 in
      (p ∷ ps, rw (runs, more) refl, ((drop_done pi.proc_io_nsecs io, free1, q1), a1), ap suc size)

  -- There is a worker for each queue, and behind it the turn is still a worker's.
  module _ (by_sq : Bool) where
    get_io_worker_total :
        (ws : Workers) (sqid : ℕ)
        → IsWorkers nr_max ws
        → (turn : ℕ) × (get_io_worker by_sq ws sqid ≡ ok turn) × (turn < length ws.proc_info)
    unfolding get_io_worker
    get_io_worker_total ws sqid v =
        let nonzero : (length ws.proc_info == 0) ≡ false =
          ==-false (length ws.proc_info) 0 (λ e. omega (arith, e, v.turn)) in
        elim (Bool-cases by_sq) [
          | inl b ↦ (
            ((sqid + u32_mod - 1) % u32_mod) % length ws.proc_info,
            rw (b, nonzero) refl,
            mod-lt ((sqid + u32_mod - 1) % u32_mod) (omega (arith, v.turn)),
          )
          | inr b ↦ (ws.proc_turn, rw b refl, v.turn)
        ]

    dispatch_keeps :
        (put : ProcInfo → Run (ProcInfo × Bool)) (ws : Workers) (sqid : ℕ)
        → ((pi : ProcInfo)
            → Sound nr_max pi
            → (p : ProcInfo) × (taken : Bool) × (put pi ≡ ok (p, taken)) × Sound nr_max p)
        → IsWorkers nr_max ws
        → (ws1 : Workers) × (dispatch by_sq put ws sqid ≡ ok ws1) × IsWorkers nr_max ws1
    unfolding dispatch
    dispatch_keeps put ws sqid puts v =
        let (turn, found, turn_in) = get_io_worker_total ws sqid v in
        let (pi, at) = lt-length→get_elem? ws.proc_info turn turn_in in
        let (p, taken, runs, s) = puts pi (AllSound-at ws.proc_info turn pi v.queues at) in
        let next = (turn + 1) % u32_mod in
        let after : ℕ =
          if taken then (if next == length ws.proc_info then 0 else next) else ws.proc_turn in
        let size = length-set ws.proc_info turn p in
        let plain : next ≡ turn + 1 =
          mod_small (turn + 1) u32_mod (omega (arith, turn_in, v.count)) in
        let after_in : after < length ws.proc_info = ground (arith, plain, turn_in, v.turn) in
        (
          record { proc_info = set ws.proc_info turn p; proc_turn = after },
          rw (found, at, runs) refl,
          record {
            queues = AllSound-set ws.proc_info turn p v.queues s;
            turn = omega (arith, size, after_in);
            count = omega (arith, size, v.count);
          },
        )

-- The namespace's handler returns, whatever the command, and leaves the device and the workers in order.
abbrev pub Handles :
    {D : Type 0} (nr_max : ℕ) (Good : D → Type 0)
    → (D → Workers → SqCommand → ℕ → Run (D × Workers × Option Answer))
    → Type 0
Handles {D} nr_max Good proc_io_cmd =
    (dev : D) (ws : Workers) (cmd : SqCommand) (t : ℕ)
    → Good dev
    → IsWorkers nr_max ws
    → (dev1 : D) × (ws1 : Workers) × (answer : Option Answer) × (proc_io_cmd dev ws cmd t
        ≡ ok (dev1, ws1, answer))
      × Good dev1
      × IsWorkers nr_max ws1

module _ {D : Type 0} (nr_max : ℕ) (by_sq : Bool) (Good : D → Type 0)
    (proc_io_cmd : D → Workers → SqCommand → ℕ → Run (D × Workers × Option Answer))
    (handles : Handles nr_max Good proc_io_cmd) where
  nvmev_proc_io_keeps :
      (nsecs_start now : ℕ) (dev : D) (ws : Workers) (cmd : SqCommand)
      → Good dev
      → IsWorkers nr_max ws
      → (dev1 : D) × (ws1 : Workers) × (io_size : Option ℕ) × (nvmev_proc_io nr_max by_sq
            proc_io_cmd nsecs_start now dev ws cmd
          ≡ ok (dev1, ws1, io_size))
        × Good dev1
        × IsWorkers nr_max ws1
  unfolding nvmev_proc_io enqueue_io_req fill_io
  nvmev_proc_io_keeps nsecs_start now dev ws cmd good v =
      let (dev1, ws1, answer, runs, good1, v1) = handles dev ws cmd nsecs_start good v in
      elim (Option-cases answer) [
        | inl refused ↦
            let runs1 = rw refused at runs in (dev1, ws1, none, rw runs1 refl, good1, v1)
        | inr (ret, taken) ↦
            let runs1 = rw taken at runs in
            let req : IoRequest = record {
              sqid = cmd.sqid;
              cqid = cmd.cqid;
              sq_entry = cmd.sq_entry;
              command_id = cmd.command_id;
              status = ret.status;
              nsecs_start = nsecs_start;
              nsecs_target = ret.nsecs_target;
            } in
            let (ws2, put, v2) =
              dispatch_keeps nr_max by_sq (enqueue_io_req nr_max now req) ws1 cmd.sqid
                (λ pi s. enqueue-Sound nr_max (fill_io now req) pi (λ e. refl) s) v1 in
            let (pis, cleared, sound, size) =
              reclaim_completed_reqs-AllSound nr_max ws2.proc_info v2.queues in
            (
              dev1,
              record ws2 { proc_info = pis },
              some ((cmd.length + 1) * 512),
              rw (runs1, put, cleared) refl,
              good1,
              record {
                queues = sound;
                turn = omega (arith, v2.turn, size);
                count = omega (arith, v2.count, size);
              },
            )
      ]

  abbrev pub InSystem : D × Workers × ℕ → Type 0
  InSystem (dev, ws, n) = Good dev × IsWorkers nr_max ws

  sq_handler_keeps :
      (wallclock local_clock : ℕ → ℕ) (command : ℕ → SqCommand) (d : D × Workers × ℕ) (entry : ℕ)
      → InSystem d
      → (d1 : D × Workers × ℕ) × (o : Option ℕ) × (sq_handler nr_max by_sq proc_io_cmd wallclock
            local_clock command d entry
          ≡ ok (d1, o))
        × InSystem d1
  unfolding sq_handler
  sq_handler_keeps wallclock local_clock command (dev, ws, n) entry (good, v) =
      let (dev1, ws1, io_size, runs, good1, v1) =
        nvmev_proc_io_keeps (wallclock n) (local_clock n) dev ws (command entry) good v in
      ((dev1, ws1, suc n), io_size, rw runs refl, (good1, v1))

  -- If the namespace's handler returns for every command and leaves the device and the workers in order,
  -- then so does the dispatcher for a doorbell of a queue, from one place below the queue's size to
  -- another: behind every command the two lists of each worker are in order, and the turn is a worker's.
  -- The entries are handed out in the ring's order, up to the first that is refused, each counted once,
  -- and the doorbell that the dispatcher keeps is the one behind them: the new one if all were taken.
  pub doorbell_keeps :
      (wallclock local_clock : ℕ → ℕ) (command : ℕ → SqCommand) (size : ℕ) (dev : D) (ws : Workers)
      (n : ℕ) (s : SqStat) (new_db old_db : ℕ)
      → new_db < size
      → old_db < size
      → Good dev
      → IsWorkers nr_max ws
      → (d1 : D × Workers × ℕ) × (s1 : SqStat) × (k : ℕ) × (proc_io_sq
            (sq_handler nr_max by_sq proc_io_cmd wallclock local_clock command)
            size
            (dev, ws, n)
            s
            new_db
            old_db
          ≡ ok (d1, s1, (old_db + k) % size))
        × Handed
            (sq_handler nr_max by_sq proc_io_cmd wallclock local_clock command)
            (num_proc size new_db old_db)
            size
            (dev, ws, n)
            s
            old_db
            d1
            s1
            k
        × InSystem d1
        × (k ≡ num_proc size new_db old_db → (old_db + k) % size ≡ new_db)
  doorbell_keeps wallclock local_clock command size dev ws n s new_db old_db new_in old_in good v =
      proc_io_sq_lem (sq_handler nr_max by_sq proc_io_cmd wallclock local_clock command) size
        InSystem (sq_handler_keeps wallclock local_clock command) (dev, ws, n) s new_db old_db
        new_in old_in (good, v)
