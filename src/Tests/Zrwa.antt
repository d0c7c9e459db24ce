-- ===== src/Tests/Zrwa.antt =====
-- Examples on a zone with a ZRWA.
use nvmevirt_hybrid.Prelude.{some, ◌+◌, ◌≡◌, refl, true, false, [], ◌∷◌, count, get_elem?}
use nvmevirt_hybrid.Prelude.Run.{Run, ok, fault}
use nvmevirt_hybrid.Buffer.{buffer_allocate}
use nvmevirt_hybrid.Channel.{chmodel_request, cur_time_offs, refill, move_head, draw, valid_length}
use nvmevirt_hybrid.Ssd.{
  ppa_bits, get_storage_type, get_qlc_region, get_ch, get_lun, set_lun_avail, write_latency,
  nand_write_cmd, nand_switch, ssd_advance_nand, channel_request, ssd_advance_pcie,
  ssd_advance_write_buffer,
}
use nvmevirt_hybrid.Zns.{
  ZnsFtl, ZoneDescriptor, full, success, change_zone_state, release_zone_resource, lba_to_zone,
  zone_to_slba, lpn_to_zone, lba_to_lpn, zone_to_elba, zone_to_slpn, zone_to_elpn, die_to_channel,
  die_to_lun,
}
use nvmevirt_hybrid.Zns.Accounts.{holds_zrwa}
use nvmevirt_hybrid.Zns.Write.{
  RwCommand, WriteOutcome, check_boundary_error, increase_write_ptr, lpn_to_ppa, flush_oneshot,
  rejected,
}
use nvmevirt_hybrid.Zns.Zrwa.{
  zrwa_switch, zrwa_checked, nr_lbas_flush, zrwa_pages, zrwa_transfer, zrwa_open, zone_write_zrwa,
  zns_write,
}
use nvmevirt_hybrid.Zns.Zrwa.Laws.{zns_write-zrwa}
use nvmevirt_hybrid.Tests.{half_written, unwritten, two_zones, some_clock}

abbrev with_zrwa : ZoneDescriptor
with_zrwa = record half_written { zrwav = true }

-- Zone 0 has a ZRWA, and room in its buffer.
abbrev one_zrwa : ZnsFtl
one_zrwa = record two_zones {
  zrwa_info = record { acquired_cnt = 1; total_cnt = 2 };
  zone_descs = with_zrwa ∷ unwritten ∷ [];
  zwra_buffer =
      record { size = 8192; remaining = 8192 } ∷ record { size = 8192; remaining = 8192 } ∷ [];
}

-- A write of the zone's second half.
abbrev zrwa_write : RwCommand
zrwa_write = record {
  is_append = false;
  slba = 8;
  length = 7;
  fua = false;
  sq_id = 1;
  nsecs_start = 55;
}

abbrev outcome_of : Run WriteOutcome → WriteOutcome
outcome_of (ok r) = r
outcome_of (fault e) = rejected one_zrwa zrwa_write 0 success

abbrev zrwa_written : WriteOutcome
unfolding zns_write zone_write_zrwa zrwa_checked check_boundary_error zrwa_switch zrwa_open
    nr_lbas_flush increase_write_ptr zrwa_transfer zrwa_pages flush_oneshot lpn_to_ppa
    die_to_channel die_to_lun release_zone_resource change_zone_state lba_to_zone lpn_to_zone
    lba_to_lpn zone_to_slba zone_to_elba zone_to_slpn zone_to_elpn buffer_allocate
    ssd_advance_write_buffer ssd_advance_nand ssd_advance_pcie channel_request nand_switch
    nand_write_cmd write_latency get_storage_type get_qlc_region ppa_bits get_ch get_lun
    set_lun_avail chmodel_request cur_time_offs refill move_head draw valid_length
zrwa_written = outcome_of (zns_write some_clock one_zrwa zrwa_write)

zrwa_returns : zns_write some_clock one_zrwa zrwa_write ≡ ok zrwa_written
unfolding zns_write zone_write_zrwa zrwa_checked check_boundary_error zrwa_switch zrwa_open
    nr_lbas_flush increase_write_ptr zrwa_transfer zrwa_pages flush_oneshot lpn_to_ppa
    die_to_channel die_to_lun release_zone_resource change_zone_state lba_to_zone lpn_to_zone
    lba_to_lpn zone_to_slba zone_to_elba zone_to_slpn zone_to_elpn buffer_allocate
    ssd_advance_write_buffer ssd_advance_nand ssd_advance_pcie channel_request nand_switch
    nand_write_cmd write_latency get_storage_type get_qlc_region ppa_bits get_ch get_lun
    set_lun_avail chmodel_request cur_time_offs refill move_head draw valid_length
zrwa_returns = refl

zrwa_same : lpn_to_zone one_zrwa (lba_to_lpn one_zrwa 8) ≡ lba_to_zone one_zrwa 8
unfolding lpn_to_zone lba_to_lpn lba_to_zone
zrwa_same = refl

zrwa_at : get_elem? one_zrwa.zone_descs (lba_to_zone one_zrwa 8) ≡ some with_zrwa
unfolding lba_to_zone
zrwa_at = refl

zrwa_fills :
    get_elem? zrwa_written.ftl.zone_descs (lba_to_zone one_zrwa 8)
    ≡ some (record with_zrwa { state = full; wp = 16 })
unfolding zns_write zone_write_zrwa zrwa_checked check_boundary_error zrwa_switch zrwa_open
    nr_lbas_flush increase_write_ptr zrwa_transfer zrwa_pages flush_oneshot lpn_to_ppa
    die_to_channel die_to_lun release_zone_resource change_zone_state lba_to_zone lpn_to_zone
    lba_to_lpn zone_to_slba zone_to_elba zone_to_slpn zone_to_elpn buffer_allocate
    ssd_advance_write_buffer ssd_advance_nand ssd_advance_pcie channel_request nand_switch
    nand_write_cmd write_latency get_storage_type get_qlc_region ppa_bits get_ch get_lun
    set_lun_avail chmodel_request cur_time_offs refill move_head draw valid_length
zrwa_fills = refl

zns_write-zrwa_example :
    (zrwa_written.ftl.zrwa_info.acquired_cnt ≡ 1)
    × (count holds_zrwa zrwa_written.ftl.zone_descs + 1 ≡ 1)
zns_write-zrwa_example =
    zns_write-zrwa some_clock one_zrwa zrwa_write with_zrwa
      (record with_zrwa { state = full; wp = 16 }) zrwa_written zrwa_same zrwa_at refl zrwa_returns
      zrwa_fills refl
