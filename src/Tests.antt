-- ===== src/Tests.antt =====
-- A small device with two zones, for the examples.
pub mod Ftl
pub mod Conv
pub mod Device
pub mod Zones
pub mod Zrwa
pub mod Simple
pub mod Io
pub mod Lists
pub mod Doorbell
use nvmevirt_hybrid.Prelude.{
  ℕ, zero, suc, ◌*◌, ◌≡◌, refl, arith, true, false, some, [], ◌∷◌, get_elem?, some_injective, ◌==◌,
}
use nvmevirt_hybrid.Channel.{ChannelModel}
use nvmevirt_hybrid.Channel.Ring.{IsRing}
use nvmevirt_hybrid.Ssd.{SsdParams, SsdChannel, Ssd}
use nvmevirt_hybrid.Ssd.Device.{IsDevice, IsChannel}
use nvmevirt_hybrid.Zns.{ZnsFtl, ZnsParams, ZoneDescriptor, empty, opened_impl}
use nvmevirt_hybrid.Zns.Accounts.{EmptyIsPlain, Accounted}
use nvmevirt_hybrid.Zns.Write.Total.{IsGeometry}

abbrev pub some_params : SsdParams
some_params = record {
  hybrid = true;
  secsz = 512;
  secs_per_pg = 8;
  pgsz = 4096;
  pgs_per_flashpg = 1;
  pgs_per_oneshotpg = 1;
  pgs_per_blk = 4;
  blks_per_pl = 4;
  pls_per_lun = 1;
  luns_per_ch = 1;
  nchs = 2;
  tt_luns = 2;
  tt_pgs = 32;
  write_unit_size = 512;
  write_early_completion = true;
  slc_read_latency = 20;
  qlc_q1_read_latency = 40;
  qlc_q2_read_latency = 50;
  qlc_q3_read_latency = 60;
  qlc_q4_read_latency = 70;
  fw_4kb_rd_lat = 5;
  fw_rd_lat = 6;
  fw_wbuf_lat0 = 3;
  fw_wbuf_lat1 = 1;
  slc_tt_pgs = 8;
  qlc_tt_pgs = 24;
  max_ch_xfer_size = 4096;
  slc_pg_wr_lat = 100;
  qlc_pg_wr_lat = 200;
  pg_wr_lat = 100;
  slc_blk_er_lat = 1000;
  qlc_blk_er_lat = 2000;
  blk_er_lat = 1000;
  flashpgs_per_blk = 4;
  pgs_per_pl = 16;
  pgs_per_lun = 16;
  pgs_per_ch = 16;
  pgs_per_line = 8;
  pgs_per_lun_line = 4;
  tt_lines = 4;
  slc_channels = 1;
  slc_luns_per_ch = 1;
  slc_pgs_per_blk = 4;
  slc_blks_per_pl = 4;
  slc_pgs_per_oneshotpg = 1;
  qlc_channels = 1;
  qlc_luns_per_ch = 1;
  qlc_pgs_per_blk = 4;
  qlc_blks_per_pl = 4;
  qlc_pgs_per_oneshotpg = 1;
  hotness_table_size = 4;
  hot_threshold = 10;
  cold_threshold = 1;
  migration_interval = 100;
  max_migrations_per_check = 2;
}

abbrev pub fresh_model : ChannelModel
fresh_model = record {
  cur_time = 0;
  head = 0;
  valid_len = 0;
  max_credits = 16;
  command_credits = 0;
  xfer_lat = 10;
  avail_credits = λ i. 16;
}

pub fresh_model-IsRing : IsRing fresh_model
fresh_model-IsRing = record { head_in = omega arith; valid_in = omega arith; fresh = λ i h k. refl }

abbrev pub some_ssd : Ssd
some_ssd = record {
  sp = some_params;
  ch =
      record { lun = record { next_lun_avail_time = 0 } ∷ []; perf_model = fresh_model }
      ∷ record { lun = record { next_lun_avail_time = 9 } ∷ []; perf_model = fresh_model }
      ∷ [];
  pcie = fresh_model;
  write_buffer = record { size = 65536; remaining = 65536 };
  reads = 0;
}

pub some_ssd-IsDevice : IsDevice some_ssd
some_ssd-IsDevice = record {
  nchs_eq = refl;
  channels = channels;
  pcie = (fresh_model-IsRing, λ e. ground arith);
  xfer_pos = λ e. ground arith;
}
  where
    channels : (i : ℕ) (c : SsdChannel) → get_elem? some_ssd.ch i ≡ some c → IsChannel 1 c
    channels zero c at =
        let same = some_injective at in rw (← same) ((fresh_model-IsRing, λ e. ground arith), refl)
    channels (suc zero) c at =
        let same = some_injective at in rw (← same) ((fresh_model-IsRing, λ e. ground arith), refl)
    channels (suc (suc i)) c at = cc

abbrev pub some_zp : ZnsParams
some_zp = record {
  nr_zones = 2;
  nr_active_zones = 2;
  nr_open_zones = 2;
  dies_per_zone = 1;
  zone_size = 8192;
  zone_wb_size = 0;
  nr_zrwa_zones = 2;
  zrwafg_size = 4096;
  zrwa_size = 8192;
  zrwa_buffer_size = 8192;
  lbas_per_zrwafg = 8;
  lbas_per_zrwa = 16;
}

pub some_params-IsGeometry : IsGeometry some_zp some_params
some_params-IsGeometry = record {
  share = 2;
  share_pos = omega arith;
  dies_pos = omega arith;
  oneshot_pos = omega arith;
  nchs_pos = omega arith;
  luns_eq = refl;
  share_eq = refl;
  dies_in = omega arith;
}

abbrev pub half_written : ZoneDescriptor
half_written = record { state = opened_impl; zrwav = false; zone_capacity = 16; zslba = 0; wp = 8 }

abbrev pub unwritten : ZoneDescriptor
unwritten = record { state = empty; zrwav = false; zone_capacity = 16; zslba = 16; wp = 16 }

-- Zone 0 is open and half written, zone 1 is empty.
abbrev pub two_zones : ZnsFtl
two_zones = record {
  ssd = some_ssd;
  zp = some_zp;
  active_info = record { acquired_cnt = 1; total_cnt = 2 };
  open_info = record { acquired_cnt = 1; total_cnt = 2 };
  zrwa_info = record { acquired_cnt = 0; total_cnt = 2 };
  zone_descs = half_written ∷ unwritten ∷ [];
  zone_write_buffer = [];
  zwra_buffer =
      record { size = 8192; remaining = 0 } ∷ record { size = 8192; remaining = 8192 } ∷ [];
  storage = λ a. 7;
}

pub two_zones-Accounted : Accounted two_zones
two_zones-Accounted = record {
  open_eq = refl;
  active_eq = refl;
  zrwa_ge = omega arith;
  open_in = (omega arith, omega arith);
  active_in = (omega arith, omega arith);
  zrwa_in = (omega arith, omega arith);
  plain = plain;
}
  where
    plain : EmptyIsPlain two_zones.zone_descs
    plain zero d at e = cc
    plain (suc zero) d at e = let same = some_injective at in rw (← same) refl
    plain (suc (suc i)) d at e = cc

abbrev pub some_clock : ℕ → ℕ
some_clock n = 4000 * n
