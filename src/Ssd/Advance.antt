-- ===== src/Ssd/Advance.antt =====
-- ssd.c: the NAND commands of ssd_advance_nand on a page of a device in order.
use nvmevirt_hybrid.Prelude.{
  ℕ, zero, suc, ◌+◌, ◌-◌, ◌%◌, ◌≤◌, ◌<◌, min, max, ◌≡◌, refl, inl, inr, arith, Bool, true, false,
  length, ◌==◌, if◌then◌else◌, Bool-cases, ==-false, u64_mod,
}
use nvmevirt_hybrid.Prelude.Run.{ok}
use nvmevirt_hybrid.Ssd.{
  Ppa, ppa_bits, unmapped_ppa, NandLun, Ssd, NandOp, nand_read, nand_write, nand_erase, nand_nop,
  unsupported, NandCmd, set_lun_avail, read_latency, write_latency, erase_latency, nand_erase_cmd,
  nand_nop_cmd, ssd_advance_pcie, read_xfer, nand_read_cmd, nand_write_cmd, nand_switch, start_time,
  ssd_advance_nand,
}
use nvmevirt_hybrid.Ssd.Device.{
  IsDevice, InDevice, Kept, Kept-trans, Returns, set_lun_avail-Kept, get_lun_total,
  channel_request_total, ssd_advance_pcie_total,
}

pub IsDevice-Kept : (ssd : Ssd) → IsDevice ssd → Kept ssd ssd
IsDevice-Kept ssd v = record { device = v; same_sp = refl; same_buffer = refl }

-- The new time of a LUN is written last.
finish_lun :
    (a b : Ssd) (ppa : Ppa) (time : ℕ)
    → Kept a b
    → InDevice a.sp ppa
    → (y : Ssd) × (set_lun_avail b ppa time ≡ ok y) × Kept a y
finish_lun a b ppa time k h =
    let (y, runs, l) = set_lun_avail-Kept b k.device ppa time (rw k.same_sp h) in
    (y, runs, Kept-trans a b y k l)

-- What a command needs beside its page: a read has bytes to transfer.
abbrev pub NandOk : NandCmd → NandOp → Type 0
NandOk ncmd nand_read = 0 < ncmd.xfer_size
NandOk ncmd _ = Unit

module _ (cpu_clock : ℕ → ℕ) where
  -- the PCIe transfer of a read, if it is interleaved
  interleave_total :
      (b : Bool) (ssd : Ssd) (time length : ℕ)
      → IsDevice ssd
      → Returns ssd (if b then ssd_advance_pcie cpu_clock ssd time length else ok (ssd, time))
  interleave_total true ssd time length v = ssd_advance_pcie_total cpu_clock ssd time length v
  interleave_total false ssd time length v = (ssd, time, refl, IsDevice-Kept ssd v)

  -- With as much fuel as bytes remain the transfer loop of a read ends.
  read_xfer_total :
      (fuel : ℕ) (ssd : Ssd) (ncmd : NandCmd) (remaining chnl_stime : ℕ)
      → IsDevice ssd
      → InDevice ssd.sp ncmd.ppa
      → 0 < remaining
      → remaining ≤ fuel
      → (y : Ssd) × (e : ℕ) × (t : ℕ) × (read_xfer cpu_clock fuel ssd ncmd remaining chnl_stime
          ≡ ok (y, e, t))
        × Kept ssd y
  unfolding read_xfer
  read_xfer_total zero ssd ncmd remaining chnl_stime v h pos enough = absurd (ground arith)
  read_xfer_total (suc fuel) ssd ncmd remaining chnl_stime v h pos enough =
      let xfer_size = min remaining ssd.sp.max_ch_xfer_size in
      let (y, e, runs, k) = channel_request_total cpu_clock ssd ncmd.ppa chnl_stime xfer_size v h in
      let (x, t, runs1, k1) = interleave_total ncmd.interleave_pci_dma y e xfer_size k.device in
      let kx = Kept-trans ssd y x k k1 in
      let left = remaining - xfer_size in
      elim (Bool-cases (left == 0)) [
        | inl over ↦ (x, e, t, rw (runs, runs1, over) refl, kx)
        | inr more ↦
            let (w, e1, t1, runs2, k2) =
              read_xfer_total fuel x ncmd left e kx.device (rw kx.same_sp h) (ground arith)
                (omega (arith, v.xfer_pos)) in
            (w, e1, t1, rw (runs, runs1, more) runs2, Kept-trans ssd x w kx k2)
      ]

  nand_switch_total :
      (op : NandOp) (ssd : Ssd) (ncmd : NandCmd) (lun : NandLun) (time : ℕ)
      → IsDevice ssd
      → InDevice ssd.sp ncmd.ppa
      → NandOk ncmd op
      → Returns ssd (nand_switch cpu_clock op ssd ncmd lun time)
  unfolding nand_switch nand_read_cmd nand_write_cmd nand_erase_cmd nand_nop_cmd
  nand_switch_total nand_read ssd ncmd lun time v h pos =
      let some_bytes : (ncmd.xfer_size == 0) ≡ false =
        ==-false ncmd.xfer_size 0 (λ e. ground arith) in
      let nand_etime =
        (max lun.next_lun_avail_time time + read_latency ssd.sp ncmd.ppa) % u64_mod in
      let (y, e, t, runs, k) =
        read_xfer_total ncmd.xfer_size ssd ncmd ncmd.xfer_size nand_etime v h pos (omega arith) in
      let (x, runs1, kx) = finish_lun ssd y ncmd.ppa e k h in
      (x, t, rw (some_bytes, runs, runs1) refl, kx)
  nand_switch_total nand_write ssd ncmd lun time v h pos =
      let (y, e, runs, k) =
        channel_request_total cpu_clock ssd ncmd.ppa (max lun.next_lun_avail_time time)
          ncmd.xfer_size v h in
      let done = (e + write_latency ssd.sp ncmd.ppa) % u64_mod in
      let (x, runs1, kx) = finish_lun ssd y ncmd.ppa done k h in
      (x, done, rw (runs, runs1) refl, kx)
  nand_switch_total nand_erase ssd ncmd lun time v h pos =
      let done = (max lun.next_lun_avail_time time + erase_latency ssd.sp ncmd.ppa) % u64_mod in
      let (x, runs1, kx) = finish_lun ssd ssd ncmd.ppa done (IsDevice-Kept ssd v) h in
      (x, done, rw runs1 refl, kx)
  nand_switch_total nand_nop ssd ncmd lun time v h pos =
      let done = max lun.next_lun_avail_time time in
      let (x, runs1, kx) = finish_lun ssd ssd ncmd.ppa done (IsDevice-Kept ssd v) h in
      (x, done, rw runs1 refl, kx)
  nand_switch_total unsupported ssd ncmd lun time v h pos = (ssd, 0, refl, IsDevice-Kept ssd v)

  start_time-Kept :
      (ssd : Ssd) (ncmd : NandCmd) → IsDevice ssd → Kept ssd (start_time cpu_clock ssd ncmd).0
  start_time-Kept ssd ncmd v = elim (Bool-cases (ncmd.stime == 0)) [
    | inl now ↦ rw now (record {
      device = record {
        nchs_eq = v.nchs_eq;
        channels = v.channels;
        pcie = v.pcie;
        xfer_pos = v.xfer_pos;
      };
      same_sp = refl;
      same_buffer = refl;
    })
    | inr given ↦ rw given (IsDevice-Kept ssd v)
  ]

  -- A NAND command on a page of the device, with bytes to transfer if it is a read, returns: no array
  -- is left, no assertion trips, and the transfer loop ends. It leaves the parameters and the write
  -- buffer as they were, and a device on which the next command returns too.
  pub ssd_advance_nand_total :
      (ssd : Ssd) (ncmd : NandCmd)
      → IsDevice ssd
      → InDevice ssd.sp ncmd.ppa
      → NandOk ncmd ncmd.cmd
      → Returns ssd (ssd_advance_nand cpu_clock ssd ncmd)
  unfolding ssd_advance_nand
  ssd_advance_nand_total ssd ncmd v h needs =
      let k = start_time-Kept ssd ncmd v in
      let (a, time) = start_time cpu_clock ssd ncmd in
      let ha : InDevice a.sp ncmd.ppa = rw k.same_sp h in
      elim (Bool-cases (ppa_bits ncmd.ppa == unmapped_ppa)) [
        | inl unmapped ↦ (a, time, rw unmapped refl, k)
        | inr mapped ↦
            let (l, is) = get_lun_total a k.device ncmd.ppa ha in
            let (y, t, runs, k1) = nand_switch_total ncmd.cmd a ncmd l time k.device ha needs in
            (y, t, rw (mapped, is) runs, Kept-trans ssd a y k k1)
      ]
