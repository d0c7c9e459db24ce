-- ===== src/Conv/Io.antt =====
-- conv_ftl.c: conv_read, conv_write, conv_flush and the handler that calls them. The partitions share
-- PCIe, the write buffer and the clock: those of the namespace stand in for theirs in each call.
pub mod Write
use nvmevirt_hybrid.Prelude.{
  ℕ, zero, suc, ◌+◌, ◌-◌, ◌*◌, ◌/◌, ◌%◌, max, Bool, true, false, ◌&&◌, ◌||◌, not, Option, none,
  some, List, [], ◌∷◌, get_elem?, set, ltb, leb, ◌==◌, if◌then◌else◌, u32_mod, u64_mod,
}
use nvmevirt_hybrid.Prelude.Run.{
  Run, ok, fault, out_of_bounds, divide_by_zero, out_of_fuel, ◌>>=◌, ◌>>◌, or_fault, nvmev_assert,
}
use nvmevirt_hybrid.Buffer.{Buffer, buffer_allocate}
use nvmevirt_hybrid.Channel.{ChannelModel}
use nvmevirt_hybrid.Ssd.{
  Ssd, SsdParams, Ppa, nand_read, nand_write, ssd_advance_nand, ssd_advance_write_buffer,
  ssd_next_idle_time,
}
use nvmevirt_hybrid.Zns.Write.{lba_to_byte}
use nvmevirt_hybrid.Conv.{ConvFtl, Pqueue, user_io, spp, set_ssd}
use nvmevirt_hybrid.Conv.Address.{
  valid_ppa, mapped_ppa, is_same_flash_page, get_maptbl_ent, set_maptbl_ent, set_rmap_ent,
}
use nvmevirt_hybrid.Conv.Lines.{should_gc}
use nvmevirt_hybrid.Conv.Pointer.{
  get_new_page, get_new_page_da, advance_write_pointer, advance_write_pointer_da,
}
use nvmevirt_hybrid.Conv.Hotness.{update_page_hotness, wallclock}
use nvmevirt_hybrid.Conv.Migrate.{check_and_perform_migrations}
use nvmevirt_hybrid.Conv.Gc.{check_and_refill_write_credit, do_gc}

-- What the handlers read of a command and its request; `length` is counted from 0.
pub record ConvCommand : Type 0 where
  pub slba : ℕ
  pub length : ℕ
  pub nsecs_start : ℕ

pub record ConvNs : Type 0 where
  pub ftls : List ConvFtl
  pub nr_parts : ℕ
  pub pcie : ChannelModel
  pub write_buffer : Buffer
  pub reads : ℕ

unfoldable pub get_part : ConvNs → ℕ → Run ConvFtl
get_part ns i = do
  f ← or_fault (get_elem? ns.ftls i) out_of_bounds
  ok (set_ssd f (record f.ssd { pcie = ns.pcie; write_buffer = ns.write_buffer; reads = ns.reads }))

unfoldable pub put_part : ConvNs → ℕ → ConvFtl → ConvNs
put_part ns i f = record ns {
  ftls = set ns.ftls i f;
  pcie = f.ssd.pcie;
  write_buffer = f.ssd.write_buffer;
  reads = f.ssd.reads;
}

-- The variables of the loop of conv_read.
pub record ReadState : Type 0 where
  pub ssd : Ssd
  pub prev_ppa : Ppa
  pub xfer_size : ℕ
  pub nsecs_latest : ℕ

module _ (cpu_clock : ℕ → ℕ) where
  unfoldable pub issue_read : ℕ → ReadState → Run ReadState
  issue_read stime s =
      let issued =
        ssd_advance_nand cpu_clock s.ssd (record {
          cmd = nand_read;
          xfer_size = s.xfer_size;
          stime = stime;
          interleave_pci_dma = true;
          ppa = s.prev_ppa;
        })
        >>= λ (ssd, t). ok (record s { ssd = ssd; nsecs_latest = max t s.nsecs_latest }) in
      if ltb 0 s.xfer_size then issued else ok s

  -- The body of the inner loop, for the page that `lpn` is mapped to.
  unfoldable pub read_lpn : ℕ → ReadState → Ppa → Run ReadState
  unfolding issue_read
  read_lpn stime s cur_ppa =
      let sp = s.ssd.sp in
      let fresh =
        issue_read stime s >>= λ s1. ok (record s1 { xfer_size = sp.pgsz; prev_ppa = cur_ppa }) in
      if not (mapped_ppa cur_ppa) || not (valid_ppa sp cur_ppa)
      then ok s
      else if mapped_ppa s.prev_ppa && is_same_flash_page sp cur_ppa s.prev_ppa
      then ok (record s { xfer_size = (s.xfer_size + sp.pgsz) % u32_mod })
      else fresh

  -- The inner loop, with fuel.
  unfoldable pub read_lpns : ℕ → ℕ → ConvFtl → ℕ → ℕ → ℕ → ReadState → Run ReadState
  unfolding read_lpn
  read_lpns zero nr_parts f stime end_lpn lpn s = fault out_of_fuel
  read_lpns (suc fuel) nr_parts f stime end_lpn lpn s =
      let step = get_maptbl_ent f (lpn / nr_parts) >>= λ cur_ppa. read_lpn stime s cur_ppa >>= λ s1.
      read_lpns fuel nr_parts f stime end_lpn (lpn + nr_parts) s1 in
      if ltb end_lpn lpn then ok s else step

  -- The pages of one partition.
  unfoldable pub read_part : ℕ → ConvFtl → ℕ → ℕ → ℕ → ℕ → Run (ConvFtl × ℕ)
  unfolding read_lpns issue_read
  read_part nr_parts f stime start_lpn end_lpn latest = do
    prev_ppa ← get_maptbl_ent f (start_lpn / nr_parts)
    s1 ←
        read_lpns (end_lpn - start_lpn + 2) nr_parts f stime end_lpn start_lpn
          (record { ssd = f.ssd; prev_ppa = prev_ppa; xfer_size = 0; nsecs_latest = latest })
    s2 ← issue_read stime s1
    ok (set_ssd f s2.ssd, s2.nsecs_latest)

  -- The outer loop, with `n` partitions to go.
  unfoldable pub read_parts : ℕ → ConvNs → ℕ → ℕ → ℕ → ℕ → Run (ConvNs × ℕ)
  unfolding read_part get_part put_part
  read_parts zero ns stime start_lpn end_lpn latest = ok (ns, latest)
  read_parts (suc n) ns stime start_lpn end_lpn latest =
      let i = start_lpn % ns.nr_parts in
      let step = get_part ns i >>= λ f.
      read_part ns.nr_parts f stime start_lpn end_lpn latest >>= λ (f1, latest1).
      read_parts n (put_part ns i f1) stime (start_lpn + 1) end_lpn latest1 in
      if leb start_lpn end_lpn then step else ok (ns, latest)

  -- NULL in place of the answer is the result `false`, which leaves the answer unwritten.
  unfoldable pub conv_read : ConvNs → ConvCommand → Run (ConvNs × Option ℕ)
  unfolding read_parts get_part
  conv_read ns cmd = do
    f ← get_part ns 0
    let nr_lba = cmd.length + 1
    let start_lpn = cmd.slba / (spp f).secs_per_pg
    let end_lpn = ((cmd.slba + nr_lba + u64_mod - 1) % u64_mod) / (spp f).secs_per_pg
    let overhead =
        if leb (lba_to_byte nr_lba) (4096 * ns.nr_parts)
        then (spp f).fw_4kb_rd_lat
        else (spp f).fw_rd_lat
    let reading =
        read_parts ns.nr_parts ns ((cmd.nsecs_start + overhead) % u64_mod) start_lpn end_lpn
          cmd.nsecs_start
        >>= λ (ns1, latest). ok (ns1, some latest)
    if ns.nr_parts == 0
        then fault divide_by_zero
        else if leb (spp f).tt_pgs (end_lpn / ns.nr_parts)
        then ok (ns, none)
        else reading

  -- The loop of conv_flush over the `n` partitions from `i` on.
  unfoldable pub flush_parts : ℕ → ℕ → ConvNs → ℕ → Run (ConvNs × ℕ)
  unfolding get_part put_part
  flush_parts zero i ns latest = ok (ns, latest)
  flush_parts (suc n) i ns latest = do
    f ← get_part ns i
    let (ssd, idle) = ssd_next_idle_time cpu_clock f.ssd
    flush_parts n (suc i) (put_part ns i (set_ssd f ssd)) (max latest idle)

  -- `now` is local_clock().
  unfoldable pub conv_flush : ConvNs → ℕ → Run (ConvNs × ℕ)
  unfolding flush_parts
  conv_flush ns now = flush_parts ns.nr_parts 0 ns now
