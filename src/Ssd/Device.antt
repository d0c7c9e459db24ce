-- ===== src/Ssd/Device.antt =====
-- ssd.c: what it is for a device to be in order, and the requests to its channels and to PCIe.
use nvmevirt_hybrid.Prelude.{
  ℕ, ◌+◌, ◌*◌, ◌%◌, ◌<◌, u64_mod, div_round_up, ◌≡◌, ◌≢◌, refl, sym, ◌∙◌, some, get_elem?, set,
  length, length-set, lt-length→get_elem?, all-set,
}
use nvmevirt_hybrid.Prelude.Run.{Run, ok}
use nvmevirt_hybrid.Channel.{ChannelModel}
use nvmevirt_hybrid.Channel.Ring.{IsRing}
use nvmevirt_hybrid.Channel.Request.{chmodel_request_total}
use nvmevirt_hybrid.Ssd.{
  Ppa, SsdParams, NandLun, SsdChannel, Ssd, get_ch, get_lun, put_ch, set_lun_avail,
  ssd_advance_pcie, channel_request, ssd_advance_write_buffer,
}

-- A bandwidth model that can serve requests.
abbrev pub IsModel : ChannelModel → Type 0
IsModel m = IsRing m × (m.max_credits ≢ 0)

abbrev pub IsChannel : ℕ → SsdChannel → Type 0
IsChannel luns c = IsModel c.perf_model × (length c.lun ≡ luns)

-- The arrays have the sizes that the parameters name.
pub record IsDevice (ssd : Ssd) : Type 0 where
  pub nchs_eq : length ssd.ch ≡ ssd.sp.nchs
  pub channels :
      (i : ℕ) (c : SsdChannel) → get_elem? ssd.ch i ≡ some c → IsChannel ssd.sp.luns_per_ch c
  pub pcie : IsModel ssd.pcie
  pub xfer_pos : ssd.sp.max_ch_xfer_size ≢ 0

-- The page lies on a channel and a LUN that exist.
abbrev pub InDevice : SsdParams → Ppa → Type 0
InDevice sp ppa = (ppa.ch < sp.nchs) × (ppa.lun < sp.luns_per_ch)

-- A command on a device leaves a device, with the same parameters and write buffer.
pub record Kept (ssd y : Ssd) : Type 0 where
  pub device : IsDevice y
  pub same_sp : y.sp ≡ ssd.sp
  pub same_buffer : y.write_buffer ≡ ssd.write_buffer

abbrev pub Returns : Ssd → Run (Ssd × ℕ) → Type 0
Returns ssd m = (y : Ssd) × (t : ℕ) × (m ≡ ok (y, t)) × Kept ssd y

pub Kept-trans : (a b c : Ssd) → Kept a b → Kept b c → Kept a c
Kept-trans a b c k l = record {
  device = l.device;
  same_sp = l.same_sp ∙ k.same_sp;
  same_buffer = l.same_buffer ∙ k.same_buffer;
}

module _ (ssd : Ssd) (v : IsDevice ssd) where
  -- A write to one channel, that leaves it a channel; the clock may be read.
  put_ch-Kept :
      (c n : ℕ) (ch : SsdChannel)
      → IsChannel ssd.sp.luns_per_ch ch
      → Kept ssd (put_ch (record ssd { reads = n }) c ch)
  put_ch-Kept c n ch h = record {
    device = record {
      nchs_eq = length-set ssd.ch c ch ∙ v.nchs_eq;
      channels = all-set (IsChannel ssd.sp.luns_per_ch) ssd.ch c ch v.channels h;
      pcie = v.pcie;
      xfer_pos = v.xfer_pos;
    };
    same_sp = refl;
    same_buffer = refl;
  }

  the_channel :
      (ppa : Ppa) → InDevice ssd.sp ppa → (c : SsdChannel) × (get_elem? ssd.ch ppa.ch ≡ some c)
  the_channel ppa h = lt-length→get_elem? ssd.ch ppa.ch (rw v.nchs_eq h.0)

  pub set_lun_avail-Kept :
      (ppa : Ppa) (time : ℕ)
      → InDevice ssd.sp ppa
      → (y : Ssd) × (set_lun_avail ssd ppa time ≡ ok y) × Kept ssd y
  unfolding set_lun_avail
  set_lun_avail-Kept ppa time h =
      let (c, at) = the_channel ppa h in
      let (model, luns) = v.channels ppa.ch c at in
      let c1 = record c { lun = set c.lun ppa.lun (record { next_lun_avail_time = time }) } in
      (
        put_ch ssd ppa.ch c1,
        rw at refl,
        put_ch-Kept ppa.ch ssd.reads c1
            (model, length-set c.lun ppa.lun (record { next_lun_avail_time = time }) ∙ luns),
      )

  pub get_lun_total : (ppa : Ppa) → InDevice ssd.sp ppa → (l : NandLun) × (get_lun ssd ppa ≡ ok l)
  unfolding get_lun get_ch
  get_lun_total ppa h =
      let (c, at) = the_channel ppa h in
      let (model, luns) = v.channels ppa.ch c at in
      let (l, is) = lt-length→get_elem? c.lun ppa.lun (rw luns h.1) in (l, rw (at, is) refl)

module _ (cpu_clock : ℕ → ℕ) where
  pub channel_request_total :
      (ssd : Ssd) (ppa : Ppa) (request_time length : ℕ)
      → IsDevice ssd
      → InDevice ssd.sp ppa
      → Returns ssd (channel_request cpu_clock ssd ppa request_time length)
  unfolding channel_request
  channel_request_total ssd ppa request_time length v h =
      let (c, at) = the_channel ssd v ppa h in
      let ((ring, pos), luns) = v.channels ppa.ch c at in
      let (m, t, runs, ring1, max_kept, now) =
        chmodel_request_total c.perf_model (cpu_clock ssd.reads) request_time length ring pos in
      let c1 = record c { perf_model = m } in
      (
        put_ch (record ssd { reads = ssd.reads + 1 }) ppa.ch c1,
        t,
        rw (at, runs) refl,
        put_ch-Kept ssd v ppa.ch (ssd.reads + 1) c1 ((ring1, λ e. pos (sym max_kept ∙ e)), luns),
      )

  pub ssd_advance_pcie_total :
      (ssd : Ssd) (request_time length : ℕ)
      → IsDevice ssd
      → Returns ssd (ssd_advance_pcie cpu_clock ssd request_time length)
  unfolding ssd_advance_pcie
  ssd_advance_pcie_total ssd request_time length v =
      let (m, t, runs, ring1, max_kept, now) =
        chmodel_request_total ssd.pcie (cpu_clock ssd.reads) request_time length v.pcie.0
          v.pcie.1 in
      (
        record ssd { pcie = m; reads = ssd.reads + 1 },
        t,
        rw runs refl,
        record {
          device = record {
            nchs_eq = v.nchs_eq;
            channels = v.channels;
            pcie = (ring1, λ e. v.pcie.1 (sym max_kept ∙ e));
            xfer_pos = v.xfer_pos;
          };
          same_sp = refl;
          same_buffer = refl;
        },
      )

  pub ssd_advance_write_buffer_total :
      (ssd : Ssd) (request_time length : ℕ)
      → IsDevice ssd
      → Returns ssd (ssd_advance_write_buffer cpu_clock ssd request_time length)
  unfolding ssd_advance_write_buffer
  ssd_advance_write_buffer_total ssd request_time length v =
      ssd_advance_pcie_total ssd
        ((request_time + ssd.sp.fw_wbuf_lat0 + ssd.sp.fw_wbuf_lat1 * div_round_up length 4096)
          % u64_mod)
        length v
