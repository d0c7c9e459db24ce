-- ===== src/Zns/Dispatch/Reach.antt =====
-- zns_ftl.c: sequences of commands to zns_proc_nvme_io_cmd, and the namespaces that they lead to.
use nvmevirt_hybrid.Prelude.{
  ℕ, ◌+◌, ◌-◌, ◌*◌, ◌%◌, ◌≡◌, refl, ap, true, leb, if◌then◌else◌, u64_mod,
}
use nvmevirt_hybrid.Prelude.Run.{ok, >>=-eq-ok, ok-injective}
use nvmevirt_hybrid.Ssd.{ssd_advance_pcie}
use nvmevirt_hybrid.Zns.{ZnsFtl, Status, lba_to_zone, lpn_to_zone, lba_to_lpn, zone_desc}
use nvmevirt_hybrid.Zns.Accounts.{Accounted}
use nvmevirt_hybrid.Zns.MgmtSend.{zns_zmgmt_send}
use nvmevirt_hybrid.Zns.MgmtSend.Keeps.{zns_zmgmt_send-keeps}
use nvmevirt_hybrid.Zns.Write.{RwCommand, nr_lbas_from_rw_cmd, lba_to_byte, put_ssd}
use nvmevirt_hybrid.Zns.Write.Laws.{SameZones, SameZones-keeps}
use nvmevirt_hybrid.Zns.Zrwa.{zns_write}
use nvmevirt_hybrid.Zns.Zrwa.Keeps.{zns_write-keeps}
use nvmevirt_hybrid.Zns.Read.{read_pages, zns_read, zns_flush}
use nvmevirt_hybrid.Zns.Report.{zns_zmgmt_recv}
use nvmevirt_hybrid.Zns.Dispatch.{
  IoCommand, write_cmd, read_cmd, flush_cmd, other_cmd, zone_mgmt_send_cmd, zone_mgmt_recv_cmd,
  IoOutcome, handle, zns_proc_nvme_io_cmd,
}

-- The first page and the first sector of a write lie in one zone.
abbrev pub InOneZone : ZnsFtl → IoCommand → Type 0
InOneZone z (write_cmd cmd) = lpn_to_zone z (lba_to_lpn z cmd.slba) ≡ lba_to_zone z cmd.slba
InOneZone z _ = Unit

-- The namespace that a sequence of commands leads to, each of which returned.
pub data Reach (cpu_clock : ℕ → ℕ) (z : ZnsFtl) : ZnsFtl → Type 0 where
  start : Reach cpu_clock z z
  next :
      (y : ZnsFtl) (cmd : IoCommand) (nsecs_start now : ℕ) (r : IoOutcome)
      → Reach cpu_clock z y
      → InOneZone y cmd
      → zns_proc_nvme_io_cmd cpu_clock true 1 y cmd nsecs_start now ≡ ok r
      → Reach cpu_clock z r.ftl

module _ (cpu_clock : ℕ → ℕ) where
  flush-keeps : (z : ZnsFtl) (now : ℕ) → Accounted z → Accounted (zns_flush cpu_clock z now).0
  unfolding zns_flush
  flush-keeps z now v =
      (SameZones-keeps z (zns_flush cpu_clock z now).0
        (record { descs = refl; active = refl; opened = refl; zrwa = refl }) v).0

  zns_read-SameZones :
      (z : ZnsFtl) (cmd : RwCommand) (y : ZnsFtl) (st : Status) (t : ℕ)
      → zns_read cpu_clock z cmd ≡ ok (y, st, t)
      → SameZones z y
  unfolding zns_read
  zns_read-SameZones z cmd y st t runs =
      let nr_lba = nr_lbas_from_rw_cmd cmd in
      let slpn = lba_to_lpn z cmd.slba in
      let elpn = lba_to_lpn z ((cmd.slba + nr_lba + u64_mod - 1) % u64_mod) in
      let overhead =
        if leb (lba_to_byte nr_lba) 4096 then z.ssd.sp.fw_4kb_rd_lat else z.ssd.sp.fw_rd_lat in
      let begin = (cmd.nsecs_start + overhead) % u64_mod in
      let (d, found, h1) = >>=-eq-ok (zone_desc z (lpn_to_zone z slpn)) _ (y, st, t) runs in
      let ((ssd1, latest), pages, h2) =
        >>=-eq-ok (read_pages cpu_clock (elpn - slpn + 2) z begin elpn slpn z.ssd begin) _
          (y, st, t) h1 in
      let ((ssd2, completed), sent, h3) =
        >>=-eq-ok (ssd_advance_pcie cpu_clock ssd1 latest ((nr_lba * z.ssd.sp.secsz) % u64_mod)) _
          (y, st, t) h2 in
      let same : put_ssd z ssd2 ≡ y = ap (λ (a : ZnsFtl × Status × ℕ). a.0) (ok-injective h3) in
      rw (← same) (record { descs = refl; active = refl; opened = refl; zrwa = refl })

  handle-keeps :
      (cmd : IoCommand) (z : ZnsFtl) (nsecs_start now : ℕ) (r : IoOutcome)
      → InOneZone z cmd
      → Accounted z
      → handle cpu_clock cmd z nsecs_start now ≡ ok r
      → Accounted r.ftl
  unfolding handle
  handle-keeps (write_cmd cmd) z nsecs_start now r aligned v runs =
      let (w, wrote, h1) = >>=-eq-ok (zns_write cpu_clock z cmd) _ r runs in
      let same = ok-injective h1 in rw (← same) (zns_write-keeps cpu_clock z cmd w aligned v wrote)
  handle-keeps (read_cmd cmd) z nsecs_start now r aligned v runs =
      let ((y, st, t), did_read, h1) = >>=-eq-ok (zns_read cpu_clock z cmd) _ r runs in
      let same = ok-injective h1 in
      rw (← same) (SameZones-keeps z y (zns_read-SameZones z cmd y st t did_read) v).0
  handle-keeps flush_cmd z nsecs_start now r aligned v runs =
      let same = ok-injective runs in rw (← same) (flush-keeps z now v)
  handle-keeps (zone_mgmt_send_cmd cmd) z nsecs_start now r aligned v runs =
      let ((y, st, t), sent, h1) = >>=-eq-ok (zns_zmgmt_send z cmd nsecs_start) _ r runs in
      let same = ok-injective h1 in
      rw (← same) (zns_zmgmt_send-keeps z cmd nsecs_start y st t v sent).0
  handle-keeps (zone_mgmt_recv_cmd cmd) z nsecs_start now r aligned v runs =
      let ((report, st, t), reported, h1) = >>=-eq-ok (zns_zmgmt_recv z cmd nsecs_start) _ r runs in
      let same = ok-injective h1 in rw (← same) v
  handle-keeps other_cmd z nsecs_start now r aligned v runs =
      let same = ok-injective runs in rw (← same) v

  -- Behind every sequence of commands that returned, each write of which had its first page and its
  -- first sector in one zone, the counts of active and open zones are still the numbers of zones in
  -- those states and within their limits, and at least as many ZRWA resources are acquired as active
  -- zones have a ZRWA, if that was so before.
  pub Reach-Accounted : (z y : ZnsFtl) → Accounted z → Reach cpu_clock z y → Accounted y
  unfolding zns_proc_nvme_io_cmd
  Reach-Accounted z y v start = v
  Reach-Accounted z y v (next x cmd nsecs_start now r before aligned runs) =
      handle-keeps cmd x nsecs_start now r aligned (Reach-Accounted z x v before) runs
