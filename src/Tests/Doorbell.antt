-- ===== src/Tests/Doorbell.antt =====
-- Examples of the dispatcher's path, and of the copy of a command's data.
use nvmevirt_hybrid.Prelude.{
  ℕ, zero, suc, ◌+◌, ◌*◌, ◌<◌, ◌≡◌, refl, arith, false, Option, some, List, [], ◌∷◌, ◌%◌,
}
use nvmevirt_hybrid.Prelude.Run.{Run, ok}
use nvmevirt_hybrid.Worker.{init_proc_info}
use nvmevirt_hybrid.Worker.Init.{range, init_proc_info-Queues}
use nvmevirt_hybrid.Worker.Doorbell.{SqStat, num_proc, proc_io_sq, cq_rounds, lands}
use nvmevirt_hybrid.Worker.Doorbell.Laws.{Handed}
use nvmevirt_hybrid.Worker.Enqueue.{Workers}
use nvmevirt_hybrid.Worker.Dispatch.{SqCommand, Answer, sq_handler}
use nvmevirt_hybrid.Worker.Dispatch.Laws.{Handles, IsWorkers, InSystem, doorbell_keeps}
use nvmevirt_hybrid.Worker.Perform.{
  cmd_read, DataCommand, Chunk, to_host, transfers, io_size, copy_pages, next_paddr, list_entry,
  do_perform_io,
}
use nvmevirt_hybrid.Worker.Perform.Laws.{performed, Covers, IsPrp, page_of, do_perform_io-Covers}
use nvmevirt_hybrid.Tests.Io.{some_clock}

abbrev some_stat : SqStat
some_stat = record {
  nr_dispatched = 0;
  nr_dispatch = 0;
  nr_in_flight = 0;
  max_nr_in_flight = 0;
  total_io = 0;
}

-- A device that counts its commands, and one worker.
abbrev some_handler : ℕ → Workers → SqCommand → ℕ → Run (ℕ × Workers × Option Answer)
some_handler d ws cmd t = ok (suc d, ws, some (record { status = 0; nsecs_target = t + 10 }))

some_handler-Handles : Handles 4 (λ d. d < 9 + d) some_handler
some_handler-Handles d ws cmd t good v =
    (suc d, ws, some (record { status = 0; nsecs_target = t + 10 }), refl, omega arith, v)

abbrev one_worker : Workers
one_worker = record { proc_info = init_proc_info 4 ∷ []; proc_turn = 0 }

one_worker-IsWorkers : IsWorkers 4 one_worker
one_worker-IsWorkers = record {
  queues = (([], range 0 3, init_proc_info-Queues 3 (omega arith)), tt);
  turn = omega arith;
  count = omega arith;
}

abbrev some_command : ℕ → SqCommand
some_command entry = record {
  sqid = 1;
  cqid = 1;
  sq_entry = entry;
  command_id = 70 + entry;
  length = 7;
}

abbrev some_sq_handler : ℕ × Workers × ℕ → ℕ → Run ((ℕ × Workers × ℕ) × Option ℕ)
unfolding sq_handler
some_sq_handler = sq_handler 4 false some_handler some_clock some_clock some_command

-- From place 3 of 4 to place 2: places 3, 0 and 1.
doorbell_keeps_example :
    (d1 : ℕ × Workers × ℕ) × (s1 : SqStat) × (k : ℕ) × (proc_io_sq
        (sq_handler 4 false some_handler some_clock some_clock some_command)
        4
        (0, one_worker, 0)
        some_stat
        2
        3
      ≡ ok (d1, s1, (3 + k) % 4))
    × Handed
        (sq_handler 4 false some_handler some_clock some_clock some_command)
        (num_proc 4 2 3)
        4
        (0, one_worker, 0)
        some_stat
        3
        d1
        s1
        k
    × InSystem 4 false (λ d. d < 9 + d) some_handler some_handler-Handles d1
    × (k ≡ num_proc 4 2 3 → (3 + k) % 4 ≡ 2)
doorbell_keeps_example =
    doorbell_keeps 4 false (λ d. d < 9 + d) some_handler some_handler-Handles some_clock some_clock
      some_command 4 0 one_worker 0 some_stat 2 3 (omega arith) (omega arith) (omega arith)
      one_worker-IsWorkers

-- The completion queue's doorbell goes from place 3 to place 1: two commands have landed.
landed : cq_rounds 9 (1 ∷ 1 ∷ 1 ∷ 1 ∷ []) 1 (0 ∷ 5 ∷ []) 3 ≡ ok (0 ∷ 3 ∷ [])
unfolding cq_rounds lands
landed = refl

-- 8192 bytes from the middle of a page on, so that the second pointer is that of a list.
abbrev some_data : DataCommand
some_data = record { opcode = cmd_read; slba = 8; length = 15; prp1 = 6144; prp2 = 8256 }

abbrev some_memory : ℕ → ℕ
some_memory a = 4096 * a

some_chunks :
    do_perform_io some_memory some_data
    ≡ ok (
        to_host (record { paddr = 6144; offset = 4096; size = 2048 })
        ∷ to_host (record { paddr = 33816576; offset = 6144; size = 4096 })
        ∷ to_host (record { paddr = 33849344; offset = 10240; size = 2048 })
        ∷ [])
unfolding do_perform_io copy_pages next_paddr list_entry io_size transfers
some_chunks = refl

some_data-IsPrp : IsPrp some_memory some_data
unfolding io_size
some_data-IsPrp zero h = (refl, omega arith)
some_data-IsPrp (suc zero) h = (refl, omega arith)
some_data-IsPrp (suc (suc k)) h = absurd (omega (arith, h))

do_perform_io-Covers_example :
    (chunks : List Chunk) × (do_perform_io some_memory some_data ≡ ok (performed cmd_read chunks))
    × Covers (page_of some_memory some_data) 0 4096 8192 chunks
do_perform_io-Covers_example = do_perform_io-Covers some_memory some_data some_data-IsPrp
