-- ===== src/Zns.antt =====
-- zns_ftl.h, nvme_zns.h and zns_ftl.c: the state of the zoned namespace, its resources, the maps
-- between addresses and zones, and what zns_init_namespace sets up.
pub mod MgmtSend
pub mod Write
pub mod Zrwa
pub mod Read
pub mod Report
pub mod Accounts
pub mod Init
pub mod Dispatch
use nvmevirt_hybrid.Prelude.{
  ℕ, zero, suc, ◌+◌, ◌-◌, ◌*◌, ◌/◌, ◌%◌, ◌<◌, Bool, true, false, not, List, [], ◌∷◌, replicate,
  get_elem?, set, ltb, leb, ◌==◌, if◌then◌else◌, u32_mod, u64_mod,
}
use nvmevirt_hybrid.Prelude.Run.{Run, ok, out_of_bounds, ◌>>=◌, ◌>>◌, or_fault, nvmev_assert}
use nvmevirt_hybrid.Buffer.{Buffer, buffer_init}
use nvmevirt_hybrid.Ssd.{Ssd, SsdParams}

pub data ZoneState : Type 0 where
  empty opened_impl opened_expl closed read_only full offline : ZoneState

-- What the code uses of `struct zone_descriptor`.
pub record ZoneDescriptor : Type 0 where
  pub state : ZoneState
  pub zrwav : Bool
  pub zone_capacity : ℕ
  pub zslba : ℕ
  pub wp : ℕ

pub record ResourceInfo : Type 0 where
  pub acquired_cnt : ℕ
  pub total_cnt : ℕ

pub data ResourceType : Type 0 where
  active_zone open_zone zrwa_zone : ResourceType

pub record ZnsParams : Type 0 where
  pub nr_zones : ℕ
  pub nr_active_zones : ℕ
  pub nr_open_zones : ℕ
  pub dies_per_zone : ℕ
  pub zone_size : ℕ
  pub zone_wb_size : ℕ
  pub nr_zrwa_zones : ℕ
  pub zrwafg_size : ℕ
  pub zrwa_size : ℕ
  pub zrwa_buffer_size : ℕ
  pub lbas_per_zrwafg : ℕ
  pub lbas_per_zrwa : ℕ

-- `res_infos` has one entry for each type; `storage` is the memory behind `storage_base_addr`.
pub record ZnsFtl : Type 0 where
  pub ssd : Ssd
  pub zp : ZnsParams
  pub active_info : ResourceInfo
  pub open_info : ResourceInfo
  pub zrwa_info : ResourceInfo
  pub zone_descs : List ZoneDescriptor
  pub zone_write_buffer : List Buffer
  pub zwra_buffer : List Buffer
  pub storage : ℕ → ℕ

-- The status codes of nvme.h and nvme_zns.h that the zoned namespace returns.
pub data Status : Type 0 where
  success invalid_field : Status
  invalid_zone_operation zrwa_rsrc_unavail err_boundary err_full err_read_only err_offline : Status
  invalid_write no_active_zone no_open_zone invalid_transition : Status

abbrev pub res_info : ZnsFtl → ResourceType → ResourceInfo
res_info z active_zone = z.active_info
res_info z open_zone = z.open_info
res_info z zrwa_zone = z.zrwa_info

abbrev pub set_res_info : ZnsFtl → ResourceType → ResourceInfo → ZnsFtl
set_res_info z active_zone r = record z { active_info = r }
set_res_info z open_zone r = record z { open_info = r }
set_res_info z zrwa_zone r = record z { zrwa_info = r }

unfoldable pub is_zone_resource_avail : ZnsFtl → ResourceType → Bool
is_zone_resource_avail z t = ltb (res_info z t).acquired_cnt (res_info z t).total_cnt

unfoldable pub is_zone_resource_full : ZnsFtl → ResourceType → Bool
is_zone_resource_full z t = (res_info z t).acquired_cnt == (res_info z t).total_cnt

-- The counts are `__u32`.
unfoldable pub acquire_zone_resource : ZnsFtl → ResourceType → ZnsFtl × Bool
unfolding is_zone_resource_avail
acquire_zone_resource z t =
    let r = res_info z t in
    if is_zone_resource_avail z t
    then (set_res_info z t (record r { acquired_cnt = (r.acquired_cnt + 1) % u32_mod }), true)
    else (z, false)

-- The ASSERT of nvmev.h is empty.
unfoldable pub release_zone_resource : ZnsFtl → ResourceType → ZnsFtl
release_zone_resource z t =
    let r = res_info z t in
    set_res_info z t (record r { acquired_cnt = (r.acquired_cnt + u32_mod - 1) % u32_mod })

-- `zone_descs[zid]`, read and written.
abbrev pub zone_desc : ZnsFtl → ℕ → Run ZoneDescriptor
zone_desc z zid = or_fault (get_elem? z.zone_descs zid) out_of_bounds

abbrev pub put_desc : ZnsFtl → ℕ → ZoneDescriptor → ZnsFtl
put_desc z zid d = record z { zone_descs = set z.zone_descs zid d }

-- change_zone_state, for a descriptor that was read before
unfoldable pub change_zone_state : ZnsFtl → ℕ → ZoneDescriptor → ZoneState → ZnsFtl
change_zone_state z zid d state = put_desc z zid (record d { state = state })

-- The sector size and the zone size are 32-bit, and so are their quotients.
abbrev pub lbas_per_zone : ZnsFtl → ℕ
lbas_per_zone z = z.zp.zone_size / z.ssd.sp.secsz

abbrev pub lpns_per_zone : ZnsFtl → ℕ
lpns_per_zone z = z.zp.zone_size / z.ssd.sp.pgsz

unfoldable pub lpn_to_zone : ZnsFtl → ℕ → ℕ
lpn_to_zone z lpn = (lpn / lpns_per_zone z) % u32_mod

-- The product is a 32-bit one.
unfoldable pub zone_to_slpn : ZnsFtl → ℕ → ℕ
zone_to_slpn z zid = ((zid % u32_mod) * lpns_per_zone z) % u32_mod

unfoldable pub lba_to_zone : ZnsFtl → ℕ → ℕ
lba_to_zone z lba = (lba / lbas_per_zone z) % u32_mod

unfoldable pub zone_to_slba : ZnsFtl → ℕ → ℕ
zone_to_slba z zid = ((zid % u32_mod) * lbas_per_zone z) % u32_mod

unfoldable pub zone_to_elba : ZnsFtl → ℕ → ℕ
unfolding zone_to_slba
zone_to_elba z zid = (zone_to_slba z (zid + 1) + u64_mod - 1) % u64_mod

unfoldable pub zone_to_elpn : ZnsFtl → ℕ → ℕ
unfolding zone_to_elba
zone_to_elpn z zid = zone_to_elba z zid / z.ssd.sp.secs_per_pg

unfoldable pub die_to_channel : ZnsFtl → ℕ → ℕ
die_to_channel z die = die % z.ssd.sp.nchs

unfoldable pub die_to_lun : ZnsFtl → ℕ → ℕ
die_to_lun z die = die / z.ssd.sp.nchs

unfoldable pub lba_to_lpn : ZnsFtl → ℕ → ℕ
lba_to_lpn z lba = lba / z.ssd.sp.secs_per_pg

-- The macros of the device's configuration that zns_ftl.c reads, and that no header defines. Each is
-- a number below 2^32.
pub record ZnsConfig : Type 0 where
  pub zone_size_bytes : ℕ
  pub dies : ℕ
  pub max_zrwa_zones : ℕ
  pub zone_wb_bytes : ℕ
  pub zrwa_bytes : ℕ
  pub zrwafg_bytes : ℕ
  pub zrwa_buffer_bytes : ℕ

unfoldable pub zns_init_params : ZnsConfig → SsdParams → ℕ → Run ZnsParams
zns_init_params cfg spp capacity = do
  let nr_zones = (capacity / cfg.zone_size_bytes) % u32_mod
  nvmev_assert (capacity % cfg.zone_size_bytes == 0)
  nvmev_assert (cfg.zone_size_bytes % spp.pgsz == 0)
  ok (record {
    nr_zones = nr_zones;
    nr_active_zones = nr_zones;
    nr_open_zones = nr_zones;
    dies_per_zone = cfg.dies;
    zone_size = cfg.zone_size_bytes;
    zone_wb_size = cfg.zone_wb_bytes;
    nr_zrwa_zones = cfg.max_zrwa_zones;
    zrwafg_size = cfg.zrwafg_bytes;
    zrwa_size = cfg.zrwa_bytes;
    zrwa_buffer_size = cfg.zrwa_buffer_bytes;
    lbas_per_zrwafg = cfg.zrwafg_bytes / spp.secsz;
    lbas_per_zrwa = cfg.zrwa_bytes / spp.secsz;
  })

-- The loop of __init_descriptor over the zones left, from `zslba` on.
unfoldable pub init_descs : ℕ → ℕ → ℕ → List ZoneDescriptor
init_descs zero lbas zslba = []
init_descs (suc n) lbas zslba =
    record { state = empty; zrwav = false; zone_capacity = lbas; zslba = zslba; wp = zslba }
    ∷ init_descs n lbas ((zslba + lbas) % u64_mod)

-- A buffer array is allocated only if its size is not 0.
abbrev pub init_buffers : ℕ → ℕ → List Buffer
init_buffers n size = if size == 0 then [] else replicate n (buffer_init size)

-- __init_resource: every resource has as many units as there are zones
abbrev pub init_resource : ZnsParams → ResourceInfo
init_resource zpp = record { acquired_cnt = 0; total_cnt = zpp.nr_zones }

unfoldable pub zns_init_ftl : ZnsParams → Ssd → (ℕ → ℕ) → ZnsFtl
unfolding init_descs
zns_init_ftl zpp ssd mapped = record {
  ssd = ssd;
  zp = zpp;
  active_info = init_resource zpp;
  open_info = init_resource zpp;
  zrwa_info = init_resource zpp;
  zone_descs = init_descs zpp.nr_zones (zpp.zone_size / 512) 0;
  zone_write_buffer = init_buffers zpp.nr_zones zpp.zone_wb_size;
  zwra_buffer = init_buffers zpp.nr_zones zpp.zrwa_buffer_size;
  storage = mapped;
}
