-- ===== src/Ssd.antt =====
-- ssd.h and ssd.c: physical page addresses, the parameters, and the timing of NAND and PCIe. The
-- clock `cpu_clock` is a parameter: its n-th reading is `cpu_clock n`, and the state counts the
-- readings. The `#if (BASE_SSD == HYBRID_SSD)` of the code is the field `hybrid`.
pub mod Advance
pub mod Region
pub mod Device
pub mod Idle
use nvmevirt_hybrid.Prelude.{
  ℕ, zero, suc, ◌+◌, ◌-◌, ◌*◌, ◌/◌, ◌%◌, ◌^◌, ◌<◌, min, max, Bool, true, false, List, [], ◌∷◌,
  get_elem?, set, ltb, ◌==◌, if◌then◌else◌, u64_mod, div_round_up,
}
use nvmevirt_hybrid.Prelude.Run.{
  Run, ok, fault, out_of_bounds, uninitialised, out_of_fuel, ◌>>=◌, or_fault,
}
use nvmevirt_hybrid.Buffer.{Buffer}
use nvmevirt_hybrid.Channel.{ChannelModel, chmodel_request}

-- The bit fields `g` of the union, from the lowest.
pub record Ppa : Type 0 where
  pub pg : ℕ
  pub blk : ℕ
  pub pl : ℕ
  pub lun : ℕ
  pub ch : ℕ
  pub rsv : ℕ

-- Each field within its bits: PAGE_BITS, BLK_BITS, PL_BITS, LUN_BITS, CH_BITS, RSB_BITS.
pub record IsPpa (p : Ppa) : Type 0 where
  pub pg_in : p.pg < 65536
  pub blk_in : p.blk < 65536
  pub pl_in : p.pl < 256
  pub lun_in : p.lun < 256
  pub ch_in : p.ch < 256
  pub rsv_in : p.rsv < 256

-- The member `ppa` of the union: the 64 bits as one number.
unfoldable pub ppa_bits : Ppa → ℕ
ppa_bits p = p.pg + p.blk * 2 ^ 16 + p.pl * 2 ^ 32 + p.lun * 2 ^ 40 + p.ch * 2 ^ 48 + p.rsv * 2 ^ 56

abbrev pub unmapped_ppa : ℕ
unmapped_ppa = 18446744073709551615

-- What the modelled code reads of `struct ssdparams`. The fields from
-- `max_ch_xfer_size` to `blk_er_lat` are named in ssd.c only.
pub record SsdParams : Type 0 where
  pub hybrid : Bool
  pub secsz : ℕ
  pub secs_per_pg : ℕ
  pub pgsz : ℕ
  pub pgs_per_flashpg : ℕ
  pub pgs_per_oneshotpg : ℕ
  pub pgs_per_blk : ℕ
  pub blks_per_pl : ℕ
  pub pls_per_lun : ℕ
  pub luns_per_ch : ℕ
  pub nchs : ℕ
  pub tt_luns : ℕ
  pub tt_pgs : ℕ
  pub write_unit_size : ℕ
  pub write_early_completion : Bool
  pub slc_read_latency : ℕ
  pub qlc_q1_read_latency : ℕ
  pub qlc_q2_read_latency : ℕ
  pub qlc_q3_read_latency : ℕ
  pub qlc_q4_read_latency : ℕ
  pub fw_4kb_rd_lat : ℕ
  pub fw_rd_lat : ℕ
  pub fw_wbuf_lat0 : ℕ
  pub fw_wbuf_lat1 : ℕ
  pub slc_tt_pgs : ℕ
  pub qlc_tt_pgs : ℕ
  pub max_ch_xfer_size : ℕ
  pub slc_pg_wr_lat : ℕ
  pub qlc_pg_wr_lat : ℕ
  pub pg_wr_lat : ℕ
  pub slc_blk_er_lat : ℕ
  pub qlc_blk_er_lat : ℕ
  pub blk_er_lat : ℕ
  pub flashpgs_per_blk : ℕ
  pub pgs_per_pl : ℕ
  pub pgs_per_lun : ℕ
  pub pgs_per_ch : ℕ
  pub pgs_per_line : ℕ
  pub pgs_per_lun_line : ℕ
  pub tt_lines : ℕ
  pub slc_channels : ℕ
  pub slc_luns_per_ch : ℕ
  pub slc_pgs_per_blk : ℕ
  pub slc_blks_per_pl : ℕ
  pub slc_pgs_per_oneshotpg : ℕ
  pub qlc_channels : ℕ
  pub qlc_luns_per_ch : ℕ
  pub qlc_pgs_per_blk : ℕ
  pub qlc_blks_per_pl : ℕ
  pub qlc_pgs_per_oneshotpg : ℕ
  pub hotness_table_size : ℕ
  pub hot_threshold : ℕ
  pub cold_threshold : ℕ
  pub migration_interval : ℕ
  pub max_migrations_per_check : ℕ

pub record NandLun : Type 0 where
  pub next_lun_avail_time : ℕ

pub record SsdChannel : Type 0 where
  pub lun : List NandLun
  pub perf_model : ChannelModel

pub record Ssd : Type 0 where
  pub sp : SsdParams
  pub ch : List SsdChannel
  pub pcie : ChannelModel
  pub write_buffer : Buffer
  -- how often the clock was read
  pub reads : ℕ

pub data StorageType : Type 0 where
  slc qlc : StorageType

unfoldable pub get_storage_type : SsdParams → Ppa → StorageType
unfolding ppa_bits
get_storage_type spp ppa =
    if spp.hybrid then (if ltb (ppa_bits ppa) spp.slc_tt_pgs then slc else qlc) else slc

-- 0 to 3 for Q1 to Q4.
unfoldable pub get_qlc_region : SsdParams → Ppa → ℕ
unfolding ppa_bits
get_qlc_region spp ppa =
    let qlc_page_offset = (ppa_bits ppa + u64_mod - spp.slc_tt_pgs) % u64_mod in
    let region_size = spp.qlc_tt_pgs / 4 in
    if spp.hybrid
    then (if ltb qlc_page_offset region_size
        then 0
        else if ltb qlc_page_offset ((region_size * 2) % u64_mod)
        then 1
        else if ltb qlc_page_offset ((region_size * 3) % u64_mod)
        then 2
        else 3)
    else 0

-- The cases of `int cmd` in `struct nand_cmd`.
pub data NandOp : Type 0 where
  nand_read nand_write nand_erase nand_nop unsupported : NandOp

pub record NandCmd : Type 0 where
  pub cmd : NandOp
  pub xfer_size : ℕ
  pub stime : ℕ
  pub interleave_pci_dma : Bool
  pub ppa : Ppa

-- get_ch and get_lun: an index past the end is a fault.
unfoldable pub get_ch : Ssd → Ppa → Run SsdChannel
get_ch ssd ppa = or_fault (get_elem? ssd.ch ppa.ch) out_of_bounds

unfoldable pub get_lun : Ssd → Ppa → Run NandLun
unfolding get_ch
get_lun ssd ppa = do ch ← get_ch ssd ppa; or_fault (get_elem? ch.lun ppa.lun) out_of_bounds

-- The writes through the pointers that get_ch and get_lun return.
abbrev pub put_ch : Ssd → ℕ → SsdChannel → Ssd
put_ch ssd c ch = record ssd { ch = set ssd.ch c ch }

unfoldable pub set_lun_avail : Ssd → Ppa → ℕ → Run Ssd
set_lun_avail ssd ppa time = do
  ch ← or_fault (get_elem? ssd.ch ppa.ch) out_of_bounds
  ok (
      put_ch ssd ppa.ch
        (record ch { lun = set ch.lun ppa.lun (record { next_lun_avail_time = time }) }))

-- What the switch of the read case picks.
unfoldable pub read_latency : SsdParams → Ppa → ℕ
unfolding get_storage_type get_qlc_region
read_latency spp ppa = elim (get_storage_type spp ppa) [
  | slc ↦ spp.slc_read_latency
  | qlc ↦
      let region = get_qlc_region spp ppa in
      if region == 0
      then spp.qlc_q1_read_latency
      else if region == 1
      then spp.qlc_q2_read_latency
      else if region == 2
      then spp.qlc_q3_read_latency
      else if region == 3
      then spp.qlc_q4_read_latency
      else spp.qlc_q1_read_latency
]

unfoldable pub write_latency : SsdParams → Ppa → ℕ
unfolding get_storage_type
write_latency spp ppa =
    if spp.hybrid
    then (elim (get_storage_type spp ppa) [ slc ↦ spp.slc_pg_wr_lat | qlc ↦ spp.qlc_pg_wr_lat ])
    else spp.pg_wr_lat

unfoldable pub erase_latency : SsdParams → Ppa → ℕ
unfolding get_storage_type
erase_latency spp ppa =
    if spp.hybrid
    then (elim (get_storage_type spp ppa) [ slc ↦ spp.slc_blk_er_lat | qlc ↦ spp.qlc_blk_er_lat ])
    else spp.blk_er_lat

unfoldable pub nand_erase_cmd : Ssd → NandCmd → NandLun → ℕ → Run (Ssd × ℕ)
nand_erase_cmd ssd ncmd lun cmd_stime = do
  let nand_stime = max lun.next_lun_avail_time cmd_stime
  let nand_etime = (nand_stime + erase_latency ssd.sp ncmd.ppa) % u64_mod
  ssd1 ← set_lun_avail ssd ncmd.ppa nand_etime
  ok (ssd1, nand_etime)

unfoldable pub nand_nop_cmd : Ssd → NandCmd → NandLun → ℕ → Run (Ssd × ℕ)
nand_nop_cmd ssd ncmd lun cmd_stime = do
  let nand_stime = max lun.next_lun_avail_time cmd_stime
  ssd1 ← set_lun_avail ssd ncmd.ppa nand_stime
  ok (ssd1, nand_stime)

-- ssd_next_idle_time: the loop over the LUNs of a channel, then that over the channels. The lists
-- have the `luns_per_ch` and `nchs` entries that ssd_init allocates.
unfoldable pub latest_of_luns : ℕ → List NandLun → ℕ
latest_of_luns latest [] = latest
latest_of_luns latest (l ∷ ls) = latest_of_luns (max latest l.next_lun_avail_time) ls

unfoldable pub latest_of_channels : ℕ → List SsdChannel → ℕ
unfolding latest_of_luns
latest_of_channels latest [] = latest
latest_of_channels latest (c ∷ cs) = latest_of_channels (latest_of_luns latest c.lun) cs

module _ (cpu_clock : ℕ → ℕ) where
  -- __get_wallclock and __get_ioclock
  abbrev tick : Ssd → Ssd
  tick ssd = record ssd { reads = ssd.reads + 1 }

  unfoldable pub ssd_advance_pcie : Ssd → ℕ → ℕ → Run (Ssd × ℕ)
  ssd_advance_pcie ssd request_time length = do
    (pcie, time) ← chmodel_request ssd.pcie (cpu_clock ssd.reads) request_time length
    ok (record (tick ssd) { pcie = pcie }, time)

  -- chmodel_request on the channel of the page
  unfoldable pub channel_request : Ssd → Ppa → ℕ → ℕ → Run (Ssd × ℕ)
  channel_request ssd ppa request_time length = do
    ch ← or_fault (get_elem? ssd.ch ppa.ch) out_of_bounds
    (perf_model, time) ← chmodel_request ch.perf_model (cpu_clock ssd.reads) request_time length
    ok (put_ch (tick ssd) ppa.ch (record ch { perf_model = perf_model }), time)

  unfoldable pub ssd_advance_write_buffer : Ssd → ℕ → ℕ → Run (Ssd × ℕ)
  ssd_advance_write_buffer ssd request_time length =
      let spp = ssd.sp in
      let nsecs_latest =
        (request_time + spp.fw_wbuf_lat0 + spp.fw_wbuf_lat1 * div_round_up length 4096) % u64_mod in
      ssd_advance_pcie ssd nsecs_latest length

  -- The transfer loop of a read, with fuel: (the device, chnl_etime, completed_time).
  unfoldable pub read_xfer : ℕ → Ssd → NandCmd → ℕ → ℕ → Run (Ssd × ℕ × ℕ)
  read_xfer zero ssd ncmd remaining chnl_stime = fault out_of_fuel
  read_xfer (suc fuel) ssd ncmd remaining chnl_stime = do
    let xfer_size = min remaining ssd.sp.max_ch_xfer_size
    (ssd1, chnl_etime) ← channel_request ssd ncmd.ppa chnl_stime xfer_size
    (ssd2, completed_time) ←
        if ncmd.interleave_pci_dma
        then ssd_advance_pcie ssd1 chnl_etime xfer_size
        else ok (ssd1, chnl_etime)
    let rest = read_xfer fuel ssd2 ncmd (remaining - xfer_size) chnl_etime
    if remaining - xfer_size == 0 then ok (ssd2, chnl_etime, completed_time) else rest

  unfoldable pub nand_read_cmd : Ssd → NandCmd → NandLun → ℕ → Run (Ssd × ℕ)
  nand_read_cmd ssd ncmd lun cmd_stime =
      let nand_stime = max lun.next_lun_avail_time cmd_stime in
      let nand_etime = (nand_stime + read_latency ssd.sp ncmd.ppa) % u64_mod in
      -- with nothing to transfer the code stores a `chnl_etime` that was never written
      if ncmd.xfer_size == 0 then fault uninitialised else do
        (ssd1, chnl_etime, completed_time) ←
            read_xfer ncmd.xfer_size ssd ncmd ncmd.xfer_size nand_etime
        ssd2 ← set_lun_avail ssd1 ncmd.ppa chnl_etime
        ok (ssd2, completed_time)

  unfoldable pub nand_write_cmd : Ssd → NandCmd → NandLun → ℕ → Run (Ssd × ℕ)
  nand_write_cmd ssd ncmd lun cmd_stime = do
    let chnl_stime = max lun.next_lun_avail_time cmd_stime
    (ssd1, chnl_etime) ← channel_request ssd ncmd.ppa chnl_stime ncmd.xfer_size
    let nand_etime = (chnl_etime + write_latency ssd.sp ncmd.ppa) % u64_mod
    ssd2 ← set_lun_avail ssd1 ncmd.ppa nand_etime
    ok (ssd2, nand_etime)

  unfoldable pub nand_switch : NandOp → Ssd → NandCmd → NandLun → ℕ → Run (Ssd × ℕ)
  nand_switch nand_read ssd ncmd lun t = nand_read_cmd ssd ncmd lun t
  nand_switch nand_write ssd ncmd lun t = nand_write_cmd ssd ncmd lun t
  nand_switch nand_erase ssd ncmd lun t = nand_erase_cmd ssd ncmd lun t
  nand_switch nand_nop ssd ncmd lun t = nand_nop_cmd ssd ncmd lun t
  nand_switch unsupported ssd ncmd lun t = ok (ssd, 0)

  -- A start time of 0 stands for the clock's.
  abbrev pub start_time : Ssd → NandCmd → Ssd × ℕ
  start_time ssd ncmd =
      if ncmd.stime == 0 then (tick ssd, cpu_clock ssd.reads) else (ssd, ncmd.stime)

  unfoldable pub ssd_advance_nand : Ssd → NandCmd → Run (Ssd × ℕ)
  ssd_advance_nand ssd0 ncmd =
      let (ssd, cmd_stime) = start_time ssd0 ncmd in
      if ppa_bits ncmd.ppa == unmapped_ppa
      then ok (ssd, cmd_stime)
      else do lun ← get_lun ssd ncmd.ppa; nand_switch ncmd.cmd ssd ncmd lun cmd_stime

  unfoldable pub ssd_next_idle_time : Ssd → Ssd × ℕ
  unfolding latest_of_channels
  ssd_next_idle_time ssd = (tick ssd, latest_of_channels (cpu_clock ssd.reads) ssd.ch)
