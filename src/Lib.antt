-- ===== src/Lib.antt =====
-- NVMeVirt hybrid: a virtual NVMe device as a Linux module. This library models the parts of it
-- that decide what a zoned namespace and a conventional one do and when their commands end.
--
-- A command comes from io.c to the namespace's handler. For a zoned namespace that is one of
-- zns_mgmt_send.c, zns_read_write.c, zns_mgmt_recv.c and zns_ftl.c; the handlers change the zones
-- and the resource counts of zns_ftl.h, take space from the write buffers of ssd.c, and ask the
-- timing model of ssd.c (NAND, PCIe), which draws on the bandwidth models of channel_model.c, when
-- they end. For a conventional namespace the handler is in conv_ftl.c, which maps logical pages to
-- pages of the flash, takes new pages from a write pointer, and asks the same timing model.
--
-- On the way the dispatcher of io.c puts the command into the table of a worker, in the order of
-- the ends, and a worker's thread copies its data, and posts its completion when its time has come.
--
-- Which file models which part:
-- - Prelude: C arrays, tests, the unsigned types' moduli. `Run` is the result of a call: a value,
--   or the way in which it leaves C (an access out of bounds, BUG_ON, a division by zero, an
--   unwritten variable, the model's fuel).
-- - Buffer (ssd.c, ssd.h: buffer_init, buffer_allocate, buffer_release, buffer_refill).
-- - Channel (channel_model.c, channel_model.h): `chmodel_request` is made of `move_head`, the loop
--   `draw` and `valid_length`. The array of credits is a function of the index, the clock's reading
--   an argument. The loop has as much fuel as the array has entries, and comes to each at most
--   once.
-- - Ssd (ssd.h, ssd.c): `ssd_advance_nand` and what it calls, a function for each NAND command. The
--   state counts the clock's readings, and `cpu_clock n` is the n-th. A read's transfer loop has a
--   unit of fuel for each byte, and transfers at least one in each round.
-- - Zns (zns_ftl.h, nvme_zns.h, zns_ftl.c): the zones, the resources, the maps between addresses
--   and zones, the set-up. Zns.MgmtSend (zns_mgmt_send.c), Zns.Write and Zns.Zrwa
--   (zns_read_write.c, `zone_write` for __zns_write and `zone_write_zrwa` for __zns_write_zrwa),
--   Zns.Read (zns_read and zns_flush), Zns.Report (zns_mgmt_recv.c), Zns.Dispatch
--   (zns_proc_nvme_io_cmd; its `Reach` relates a namespace to what a sequence of commands makes of
--   it). A `switch` over a zone's state is a function by clauses; a case that falls through calls
--   the next one's code. The flash loops have fuel for one round more than there are pages, and
--   each round writes or skips at least one page. Zns.Accounts says what the resource counts stand
--   for; Zns.Init is about the set-up and the address maps.
-- - Conv (conv_ftl.h, conv_ftl.c, and the blocks and pages of ssd.h and ssd.c): the FTL's state.
--   Conv.Address has the two mapping tables, Conv.Lines the lines, Conv.Pages the states of pages
--   and the counts of blocks, Conv.Pointer the write pointers (also those of the LUNs, `_da`),
--   Conv.QlcPointer that of the QLC, Conv.Hotness the hash table of page hotness, Conv.Gc the
--   garbage collection, Conv.Migrate the migration from SLC to QLC, Conv.Io the commands
--   (`io_switch` for the switch of conv_proc_nvme_io_cmd), Conv.Init the set-up. `hybrid` stands
--   for the build's `#if`; the blocks of all planes are in one array, by their number; a line is
--   the index of its entry in the array of lines, and NULL is `none`. The probe loop runs as many
--   rounds as the table has entries; the read loop has fuel for two rounds more than there are
--   pages. Conv.Keeps is about the functions that have nothing to do with the mapping tables and
--   the device.
-- - Worker (io.c, with nvmev_proc_table, nvmev_proc_info and the queues of nvmev.h): the I/O
--   workers. Worker.Enqueue is __enqueue_io_req and enqueue_writeback_io_req, which share
--   `enqueue`, and __get_io_worker (`by_sq` stands for CONFIG_NVMEV_IO_WORKER_BY_SQ);
--   Worker.Reclaim is __reclaim_completed_reqs; Worker.Dispatch __nvmev_proc_io, Worker.Doorbell
--   nvmev_proc_io_sq and nvmev_proc_io_cq; Worker.Pass the body of nvmev_kthread_io, with `visit`
--   for a round of its inner loop; Worker.Completion __fill_cq_result and the interrupts;
--   Worker.Perform __do_perform_io. NR_MAX_PARALLEL_IO is `nr_max`, an index of -1 is `nil`, the
--   pages of a queue are one array. What a worker has other parts do is a list of jobs.
--   Worker.Index and Worker.Chain say what the links stand for, Worker.Queues what the two lists
--   are, Worker.Order in which order the requests stand. In Worker.Pass.Thread a step is a whole
--   call of the dispatcher or a whole round of the worker, whose orders are free; finer
--   interleavings, which the code's barriers are about, are left out. A walk over a list has fuel
--   for one entry more than the table has; the loop of nvmev_proc_io_cq needs two rounds more than
--   the queue has places (Worker.Doorbell.Landing); the copy of a command for one round more than
--   it has bytes.
-- - Simple (simple_ftl.c): the schedule over the I/O units, and the flush. Its loop is given one
--   unit of fuel more than there are bytes, and a round serves a unit's worth of at least one byte.
-- - AppendOnly (append_only.c): the allocator of the key-value namespace.
-- - Tests: a small device with two zones, one with a small conventional FTL, one of two I/O units,
--   and a worker with a table of four entries.
--
-- Parameters: the clock; the macros of the device's configuration (ZnsConfig), which no header of
-- the repository defines; the calls of enqueue_writeback_io_req, which a write returns as a list;
-- the namespace's handler, for the dispatcher; the words of the host's memory, for a list of pages;
-- pqueue, as a record of its operations; what variables on the stack hold that the code never wrote
-- (`stack_rsv`, `stack_dma`).
--
-- Not modelled: the key-value FTL (kv_ftl.c, bitmap.c), the admin commands (admin.c), and the
-- kernel's side of the module (main.c, pci.c, dma.c); of the modelled files, the allocation of
-- memory, ssd_init_params and __prp_transfer_data, conv_init_namespace, the functions that free
-- memory, and of io.c __do_perform_io_using_dma, the branch for the key-value prototype, and the
-- start and end of the threads. pqueue is a copy of another project's library. The data of a zone
-- matters to a reset only, and is memory of bytes there.
pub mod Prelude
pub mod Channel
pub mod Buffer
pub mod Ssd
pub mod Zns
pub mod Conv
pub mod Worker
pub mod Simple
pub mod AppendOnly
pub mod Tests
