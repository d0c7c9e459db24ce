-- ===== src/Conv/Io/Write.antt =====
-- conv_ftl.c: conv_write and conv_proc_nvme_io_cmd.
pub mod Maps
pub mod Loop
pub mod Full
pub mod Step
pub mod Total
use nvmevirt_hybrid.Prelude.{
  ℕ, zero, suc, ◌+◌, ◌*◌, ◌/◌, ◌%◌, Bool, true, false, Option, none, some, ◌==◌, if◌then◌else◌,
  u64_mod,
}
use nvmevirt_hybrid.Prelude.Run.{Run, ok, fault, ◌>>=◌, ◌>>◌, nvmev_assert}
use nvmevirt_hybrid.Buffer.{Buffer, buffer_allocate}
use nvmevirt_hybrid.Ssd.{
  Ssd, SsdParams, Ppa, nand_write, ssd_advance_nand, ssd_advance_write_buffer,
}
use nvmevirt_hybrid.Conv.{ConvFtl, Pqueue, user_io, spp, set_ssd}
use nvmevirt_hybrid.Conv.Address.{set_maptbl_ent, set_rmap_ent}
use nvmevirt_hybrid.Conv.Lines.{should_gc}
use nvmevirt_hybrid.Conv.Pointer.{
  get_new_page, get_new_page_da, advance_write_pointer, advance_write_pointer_da,
}
use nvmevirt_hybrid.Conv.Hotness.{update_page_hotness, wallclock}
use nvmevirt_hybrid.Conv.Migrate.{check_and_perform_migrations}
use nvmevirt_hybrid.Conv.Gc.{check_and_refill_write_credit, do_gc}
use nvmevirt_hybrid.Conv.Io.{ConvCommand, ConvNs, get_part, put_part, conv_read, conv_flush}

-- The namespace, `nsecs_target`, and whether a writeback of no bytes was queued for that time.
pub record ConvWritten : Type 0 where
  pub ns : ConvNs
  pub nsecs_target : ℕ
  pub writeback : Bool

pub data ConvIo : Type 0 where
  write_cmd read_cmd : ConvCommand → ConvIo
  flush_cmd other_cmd : ConvIo

-- The namespace, the handler's result and the time it has written to the answer, if it has.
pub record ConvAnswer : Type 0 where
  pub ns : ConvNs
  pub done : Bool
  pub nsecs_target : Option ℕ

-- `stack_rsv` and `stack_dma` are what do_gc and migrate_page find in variables that they do not set.
module _ (cpu_clock : ℕ → ℕ) (q : Pqueue) (stack_rsv : ℕ) (stack_dma : Bool) where
  -- The page for `lpn`, and what the hybrid build does before it asks for one.
  unfoldable pub write_page_of : ConvFtl → ℕ → Run (ConvFtl × Ppa)
  write_page_of f lpn =
      let sp = spp f in
      if sp.hybrid
      then (update_page_hotness cpu_clock f lpn >>= λ f1.
          check_and_perform_migrations cpu_clock q stack_dma f1 >>= λ f2.
          let f3 = record f2 { lunpointer = lpn % (sp.slc_channels * sp.slc_luns_per_ch) } in
          get_new_page_da f3 >>= λ ppa. ok (f3, ppa))
      else (get_new_page f user_io >>= λ ppa. ok (f, ppa))

  -- The body of the loop of conv_write.
  unfoldable pub write_lpn : ConvFtl → ℕ → ℕ → Run (ConvFtl × ℕ)
  unfolding write_page_of
  write_lpn f0 lpn completed_time = do
    f1 ← check_and_refill_write_credit cpu_clock q stack_rsv f0
    (f2, ppa) ← write_page_of f1 lpn
    (ssd1, t1) ← ssd_advance_nand cpu_clock f2.ssd (record {
      cmd = nand_write;
      xfer_size = (spp f2).pgsz;
      stime = completed_time;
      interleave_pci_dma = true;
      ppa = ppa;
    })
    (ssd2, t2) ← ssd_advance_write_buffer cpu_clock ssd1 t1 (spp f2).pgsz
    f3 ← set_maptbl_ent (set_ssd f2 ssd2) lpn ppa
    f4 ← set_rmap_ent f3 lpn ppa
    f5 ←
        if (spp f4).hybrid
        then advance_write_pointer_da q f4
        else advance_write_pointer q f4 user_io
    ok (f5, t2)

  unfoldable pub write_lpns : ℕ → ConvFtl → ℕ → ℕ → Run (ConvFtl × ℕ)
  unfolding write_lpn
  write_lpns zero f lpn completed_time = ok (f, completed_time)
  write_lpns (suc n) f lpn completed_time = do
    (f1, t) ← write_lpn f lpn completed_time
    write_lpns n f1 ((lpn + 1) % u64_mod) t

  -- conv_write on partition 0, the only one it uses.
  unfoldable pub write_ftl : ConvFtl → ConvCommand → Run (ConvFtl × ℕ × Bool)
  unfolding write_lpns
  write_ftl f0 cmd =
      let (f, start) = wallclock cpu_clock f0 in
      let (wbuf, allocated) = buffer_allocate f.ssd.write_buffer ((cmd.length + 1) * 512) in
      let f1 = set_ssd f (record f.ssd { write_buffer = wbuf }) in
      let lpns = ((cmd.length + 1) * 512) / (spp f).pgsz in
      let writing = write_lpns lpns f1 (cmd.slba / (spp f).secs_per_pg) start >>= λ (f2, t).
      if should_gc f2
      then (do_gc cpu_clock q stack_rsv f2 false >>= λ (f3, done). ok (f3, t, false))
      else ok (f2, t, false) in
      if allocated == 0 then ok (f1, start, true) else writing

  unfoldable pub conv_write : ConvNs → ConvCommand → Run ConvWritten
  unfolding write_ftl
  conv_write ns cmd = do
    f ← get_part ns 0
    (f1, t, writeback) ← write_ftl f cmd
    ok (record { ns = put_part ns 0 f1; nsecs_target = t; writeback = writeback })

  unfoldable pub io_switch : ConvIo → ConvNs → ℕ → Run ConvAnswer
  unfolding conv_write
  io_switch (write_cmd cmd) ns now = do
    w ← conv_write ns cmd
    ok (record { ns = w.ns; done = true; nsecs_target = some w.nsecs_target })
  io_switch (read_cmd cmd) ns now = do
    (ns1, answer) ← conv_read cpu_clock ns cmd
    ok (record {
      ns = ns1;
      done = elim answer [ none ↦ false | some t ↦ true ];
      nsecs_target = answer;
    })
  io_switch flush_cmd ns now = do
    (ns1, t) ← conv_flush cpu_clock ns now
    ok (record { ns = ns1; done = true; nsecs_target = some t })
  io_switch other_cmd ns now = ok (record { ns = ns; done = true; nsecs_target = none })

  -- `is_nvm` is `ns->csi == NVME_CSI_NVM`, `now` the local_clock() of a flush.
  unfoldable pub conv_proc_nvme_io_cmd : Bool → ConvNs → ConvIo → ℕ → Run ConvAnswer
  unfolding io_switch
  conv_proc_nvme_io_cmd is_nvm ns cmd now = nvmev_assert is_nvm >> io_switch cmd ns now
