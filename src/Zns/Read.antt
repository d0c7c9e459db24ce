-- ===== src/Zns/Read.antt =====
-- zns_read_write.c: zns_read, and zns_flush of zns_ftl.c.
pub mod Laws
use nvmevirt_hybrid.Prelude.{
  ℕ, zero, suc, ◌+◌, ◌-◌, ◌*◌, ◌%◌, min, max, false, not, ltb, leb, if◌then◌else◌, u64_mod,
}
use nvmevirt_hybrid.Prelude.Run.{Run, ok, fault, out_of_fuel, ◌>>=◌}
use nvmevirt_hybrid.Ssd.{Ssd, nand_read, ssd_advance_nand, ssd_advance_pcie, ssd_next_idle_time}
use nvmevirt_hybrid.Zns.{
  ZnsFtl, ZoneState, offline, Status, success, err_boundary, err_offline, zone_desc, lpn_to_zone,
  lba_to_lpn,
}
use nvmevirt_hybrid.Zns.Write.{
  RwCommand, nr_lbas_from_rw_cmd, lba_to_byte, check_boundary_error, lpn_to_ppa, put_ssd,
}

-- The status is found before the pages are read, and they are read whatever it is.
abbrev pub read_status : ZoneState → ZnsFtl → ℕ → ℕ → Status
read_status offline z slba nr_lba = err_offline
read_status _ z slba nr_lba =
    if not (check_boundary_error z slba nr_lba) then err_boundary else success

module _ (cpu_clock : ℕ → ℕ) where
  -- The loop from `lpn` to `elpn`, with fuel: the device and the latest completion.
  unfoldable pub read_pages : ℕ → ZnsFtl → ℕ → ℕ → ℕ → Ssd → ℕ → Run (Ssd × ℕ)
  read_pages zero z stime elpn lpn ssd latest = fault out_of_fuel
  read_pages (suc fuel) z stime elpn lpn ssd latest =
      let ppa = lpn_to_ppa z lpn in
      let per_flashpg = z.ssd.sp.pgs_per_flashpg in
      let pgs = min (elpn - lpn + 1) (per_flashpg - ppa.pg % per_flashpg) in
      let step =
        ssd_advance_nand cpu_clock ssd (record {
          cmd = nand_read;
          xfer_size = pgs * z.ssd.sp.pgsz;
          stime = stime;
          interleave_pci_dma = false;
          ppa = ppa;
        })
        >>= λ (ssd1, completed).
            read_pages fuel z stime elpn (lpn + pgs) ssd1 (max completed latest) in
      if ltb elpn lpn then ok (ssd, latest) else step

  unfoldable pub zns_read : ZnsFtl → RwCommand → Run (ZnsFtl × Status × ℕ)
  zns_read z cmd = do
    let nr_lba = nr_lbas_from_rw_cmd cmd
    let slpn = lba_to_lpn z cmd.slba
    let elpn = lba_to_lpn z ((cmd.slba + nr_lba + u64_mod - 1) % u64_mod)
    d ← zone_desc z (lpn_to_zone z slpn)
    let status = read_status d.state z cmd.slba nr_lba
    let overhead =
        if leb (lba_to_byte nr_lba) 4096 then z.ssd.sp.fw_4kb_rd_lat else z.ssd.sp.fw_rd_lat
    let start = (cmd.nsecs_start + overhead) % u64_mod
    (ssd1, latest) ← read_pages (elpn - slpn + 2) z start elpn slpn z.ssd start
    (ssd2, completed) ← ssd_advance_pcie cpu_clock ssd1 latest ((nr_lba * z.ssd.sp.secsz) % u64_mod)
    ok (put_ssd z ssd2, status, max completed latest)

  -- zns_flush, over the one partition; `now` is local_clock()
  unfoldable pub zns_flush : ZnsFtl → ℕ → ZnsFtl × Status × ℕ
  zns_flush z now =
      let (ssd, idle) = ssd_next_idle_time cpu_clock z.ssd in (put_ssd z ssd, success, max now idle)
