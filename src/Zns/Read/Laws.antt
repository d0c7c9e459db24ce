-- ===== src/Zns/Read/Laws.antt =====
-- zns_read_write.c: what a zone read does, zns_read.
use nvmevirt_hybrid.Prelude.{
  ℕ, zero, suc, ◌+◌, ◌-◌, ◌*◌, ◌%◌, ◌<◌, min, max, ◌≡◌, ◌≢◌, ◌↔◌, refl, arith, true, false, not,
  inl, inr, some, get_elem?, ltb, leb, if◌then◌else◌, Bool-cases, ltb-false→le, u64_mod,
}
use nvmevirt_hybrid.Prelude.Run.{ok}
use native.Mathlib.Nat.{mod-lt}
use nvmevirt_hybrid.Ssd.{Ssd, NandCmd, nand_read}
use nvmevirt_hybrid.Ssd.Device.{Kept, Kept-trans, ssd_advance_pcie_total}
use nvmevirt_hybrid.Ssd.Advance.{IsDevice-Kept, ssd_advance_nand_total}
use nvmevirt_hybrid.Zns.{
  ZnsFtl, ZoneDescriptor, ZoneState, empty, opened_impl, opened_expl, closed, read_only, full,
  offline, Status, success, err_boundary, lpn_to_zone, lba_to_lpn,
}
use nvmevirt_hybrid.Zns.Write.{
  RwCommand, nr_lbas_from_rw_cmd, lba_to_byte, check_boundary_error, lpn_to_ppa, put_ssd,
}
use nvmevirt_hybrid.Zns.Write.Total.{IsGeometry, lpn_to_ppa-InDevice}
use nvmevirt_hybrid.Zns.Write.Returns.{IsReady}
use nvmevirt_hybrid.Zns.Read.{read_status, read_pages, zns_read}

mul-pos : (a b : ℕ) → 0 < a → 0 < b → 0 < a * b
mul-pos (suc a) (suc b) h k = omega arith
mul-pos zero b h k = omega arith
mul-pos (suc a) zero h k = omega arith

module _ (cpu_clock : ℕ → ℕ) (z : ZnsFtl) (g : IsGeometry z.zp z.ssd.sp)
    (flash : 0 < z.ssd.sp.pgs_per_flashpg) (bytes : 0 < z.ssd.sp.pgsz) where
  read_pages_total :
      (fuel stime elpn lpn : ℕ) (ssd : Ssd) (latest : ℕ)
      → Kept z.ssd ssd
      → elpn + 1 - lpn < fuel
      → (y : Ssd) × (t : ℕ) × (read_pages cpu_clock fuel z stime elpn lpn ssd latest ≡ ok (y, t))
        × Kept z.ssd y
  unfolding read_pages
  read_pages_total zero stime elpn lpn ssd latest k enough = absurd (ground arith)
  read_pages_total (suc fuel) stime elpn lpn ssd latest k enough =
      let ppa = lpn_to_ppa z lpn in
      let per = z.ssd.sp.pgs_per_flashpg in
      let off = ppa.pg % per in
      let pgs = min (elpn - lpn + 1) (per - off) in
      let inside : off < per = mod-lt ppa.pg flash in
      let some_pages : 0 < pgs = omega arith in
      let ncmd : NandCmd = record {
        cmd = nand_read;
        xfer_size = pgs * z.ssd.sp.pgsz;
        stime = stime;
        interleave_pci_dma = false;
        ppa = ppa;
      } in
      elim (Bool-cases (ltb elpn lpn)) [
        | inl over ↦ (ssd, latest, rw over refl, k)
        | inr more ↦
            let (y, t, runs, k1) =
              ssd_advance_nand_total cpu_clock ssd ncmd k.device
                (rw k.same_sp (lpn_to_ppa-InDevice z g lpn))
                (mul-pos pgs z.ssd.sp.pgsz some_pages bytes) in
            let (x, t1, runs1, k2) =
              read_pages_total fuel stime elpn (lpn + pgs) y (max t latest)
                (Kept-trans z.ssd ssd y k k1) (omega (arith, ltb-false→le elpn lpn more)) in
            (x, t1, rw (more, runs) runs1, k2)
      ]

unrefused :
    (z : ZnsFtl) (slba nr_lba : ℕ) (s : ZoneState)
    → s ≢ offline
    → ((if not (check_boundary_error z slba nr_lba) then err_boundary else success) ≡ success)
      ↔ ((s ≢ offline) × (check_boundary_error z slba nr_lba ≡ true))
unrefused z slba nr_lba s live = elim (Bool-cases (check_boundary_error z slba nr_lba)) [
  | inl within ↦ ((λ h. (live, within)), (λ h. rw within refl))
  | inr across ↦ (
    (λ h. let wrong : err_boundary ≡ success = rw across at h in cc),
    (λ h. let (a, b) = h in cc),
  )
]

read_status-success :
    (s : ZoneState) (z : ZnsFtl) (slba nr_lba : ℕ)
    → (read_status s z slba nr_lba ≡ success)
      ↔ ((s ≢ offline) × (check_boundary_error z slba nr_lba ≡ true))
read_status-success offline z slba nr_lba = ((λ h. cc), (λ h. absurd (h.0 refl)))
read_status-success empty z slba nr_lba = unrefused z slba nr_lba empty (λ h. cc)
read_status-success opened_impl z slba nr_lba = unrefused z slba nr_lba opened_impl (λ h. cc)
read_status-success opened_expl z slba nr_lba = unrefused z slba nr_lba opened_expl (λ h. cc)
read_status-success closed z slba nr_lba = unrefused z slba nr_lba closed (λ h. cc)
read_status-success read_only z slba nr_lba = unrefused z slba nr_lba read_only (λ h. cc)
read_status-success full z slba nr_lba = unrefused z slba nr_lba full (λ h. cc)

-- A read from an existing zone returns, if the device is in order and its pages have bytes: no array is
-- left and no loop runs on. It is refused exactly if the zone is offline or the read crosses its
-- boundary, and changes nothing of the namespace but the device, whose write buffer it leaves alone.
pub zns_read_total :
    (cpu_clock : ℕ → ℕ) (z : ZnsFtl) (cmd : RwCommand) (d : ZoneDescriptor)
    → IsReady z
    → 0 < z.ssd.sp.pgs_per_flashpg
    → 0 < z.ssd.sp.pgsz
    → get_elem? z.zone_descs (lpn_to_zone z (lba_to_lpn z cmd.slba)) ≡ some d
    → (ssd : Ssd) × (st : Status) × (t : ℕ) × (zns_read cpu_clock z cmd ≡ ok (put_ssd z ssd, st, t))
      × Kept z.ssd ssd
      × ((st ≡ success) ↔ (
          (d.state ≢ offline) × (check_boundary_error z cmd.slba (nr_lbas_from_rw_cmd cmd) ≡ true)))
unfolding zns_read
zns_read_total cpu_clock z cmd d (v, g) flash bytes at =
    let nr_lba = nr_lbas_from_rw_cmd cmd in
    let slpn = lba_to_lpn z cmd.slba in
    let elpn = lba_to_lpn z ((cmd.slba + nr_lba + u64_mod - 1) % u64_mod) in
    let overhead =
      if leb (lba_to_byte nr_lba) 4096 then z.ssd.sp.fw_4kb_rd_lat else z.ssd.sp.fw_rd_lat in
    let begin = (cmd.nsecs_start + overhead) % u64_mod in
    let (ssd1, latest, pages, k) =
      read_pages_total cpu_clock z g flash bytes (elpn - slpn + 2) begin elpn slpn z.ssd begin
        (IsDevice-Kept z.ssd v) (omega arith) in
    let (ssd2, completed, sent, k1) =
      ssd_advance_pcie_total cpu_clock ssd1 latest ((nr_lba * z.ssd.sp.secsz) % u64_mod) k.device in
    (
      ssd2,
      read_status d.state z cmd.slba nr_lba,
      max completed latest,
      rw (at, pages, sent) refl,
      Kept-trans z.ssd ssd1 ssd2 k k1,
      read_status-success d.state z cmd.slba nr_lba,
    )
