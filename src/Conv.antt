-- ===== src/Conv.antt =====
-- conv_ftl.h, and the NAND pages and blocks of ssd.h: the state of the conventional FTL. A pointer
-- to a line is the line's index in its array, and NULL is `none`; a list of lines is the list of
-- their indices. The divisors `pgs_per_oneshotpg`, `pgs_per_flashpg`, `slc_channels` and the like
-- are constants that ssd_init_params makes positive.
pub mod Address
pub mod Keeps
pub mod Io
pub mod Migrate
pub mod Gc
pub mod Init
pub mod Pages
pub mod Hotness
pub mod Pointer
pub mod QlcPointer
pub mod Lines
use nvmevirt_hybrid.Prelude.{
  ℕ, ◌+◌, ◌-◌, ◌*◌, ◌%◌, ◌<◌, Bool, ◌&&◌, Option, none, some, List, get_elem?, set, ltb, ◌==◌,
  if◌then◌else◌, u32_mod,
}
use nvmevirt_hybrid.Prelude.Run.{
  Run, ok, fault, bug_on, out_of_bounds, uninitialised, ◌>>=◌, or_fault, nvmev_assert,
}
use nvmevirt_hybrid.Ssd.{Ssd, SsdParams, Ppa, StorageType}

-- `int status` of a page: PG_FREE, PG_INVALID, PG_VALID.
pub data PageStatus : Type 0 where
  pg_free pg_invalid pg_valid : PageStatus

pub data SecStatus : Type 0 where
  sec_free sec_invalid sec_valid : SecStatus

pub record NandPage : Type 0 where
  pub sec : List SecStatus
  pub nsecs : ℕ
  pub status : PageStatus

pub record NandBlock : Type 0 where
  pub pg : List NandPage
  pub npgs : ℕ
  pub ipc : ℕ
  pub vpc : ℕ
  pub erase_cnt : ℕ
  pub wp : ℕ

pub record Line : Type 0 where
  pub id : ℕ
  pub ipc : ℕ
  pub vpc : ℕ
  pub pos : ℕ

pub record WritePointer : Type 0 where
  pub curline : Option ℕ
  pub ch : ℕ
  pub lun : ℕ
  pub pg : ℕ
  pub blk : ℕ
  pub pl : ℕ

pub record LineMgmt : Type 0 where
  pub lines : List Line
  pub free_line_list : List ℕ
  pub victim_line_pq : List ℕ
  pub full_line_list : List ℕ
  pub tt_lines : ℕ
  pub free_line_cnt : ℕ
  pub victim_line_cnt : ℕ
  pub full_line_cnt : ℕ

-- What pqueue.c does to the array of the queue and, through the callbacks, to `pos` and `vpc` of the
-- lines: the queue of the functions below is this record's. The result of a pop that the code
-- drops is left out.
pub record Pqueue : Type 0 where
  pub pqueue_insert : List Line → List ℕ → ℕ → List Line × List ℕ
  pub pqueue_change_priority : List Line → List ℕ → ℕ → ℕ → List Line × List ℕ
  pub pqueue_peek : List ℕ → Option ℕ
  pub pqueue_pop : List Line → List ℕ → List Line × List ℕ

pub record WriteFlowControl : Type 0 where
  pub write_credits : ℕ
  pub credits_to_refill : ℕ

-- The fields of `struct convparams` that are read after the set-up.
pub record ConvParams : Type 0 where
  pub gc_thres_lines : ℕ
  pub gc_thres_lines_high : ℕ
  pub enable_gc_delay : Bool

-- INVALID_LPN, `~0ULL`
abbrev pub invalid_lpn : ℕ
invalid_lpn = 18446744073709551615

pub record PageHotness : Type 0 where
  pub lpn : ℕ
  pub access_count : ℕ
  pub recent_access : ℕ
  pub last_access_time : ℕ
  pub storage_type : StorageType
  pub is_migrating : Bool

pub record MigrationMgmt : Type 0 where
  pub hotness_table : List PageHotness
  pub hotness_table_size : ℕ
  pub hot_threshold : ℕ
  pub cold_threshold : ℕ
  pub migration_interval : ℕ
  pub last_migration_check : ℕ
  pub max_migrations_per_check : ℕ
  pub current_migrations : ℕ

-- `blks` holds the blocks of all LUNs, channel by channel, LUN by LUN and plane by plane; `lunwp` is
-- memory that kmalloc does not clear, and `none` an entry that was never written.
pub record ConvFtl : Type 0 where
  pub ssd : Ssd
  pub blks : List NandBlock
  pub cp : ConvParams
  pub maptbl : List Ppa
  pub rmap : List ℕ
  pub wp : WritePointer
  pub gc_wp : WritePointer
  pub lm : LineMgmt
  pub wfc : WriteFlowControl
  pub lunlm : List LineMgmt
  pub lunwp : List (Option WritePointer)
  pub lunpointer : ℕ
  pub migration_mgmt : MigrationMgmt
  pub total_slc_pages : ℕ
  pub used_slc_pages : ℕ
  pub total_qlc_pages : ℕ
  pub used_qlc_pages : ℕ

-- `uint32_t io_type`: USER_IO, GC_IO, or another number.
pub data IoType : Type 0 where
  user_io gc_io other_io : IoType

-- `++` and `--` on a uint32_t
abbrev pub u32_inc : ℕ → ℕ
u32_inc n = (n + 1) % u32_mod

abbrev pub u32_dec : ℕ → ℕ
u32_dec n = (n + u32_mod - 1) % u32_mod

-- The parameters are `int`: a number of 2^31 or more is negative.
unfoldable pub check_addr : ℕ → ℕ → Run (Unit {0})
check_addr a max = nvmev_assert (ltb a max && ltb max 2147483648)

abbrev pub spp : ConvFtl → SsdParams
spp f = f.ssd.sp

unfoldable pub get_wp : ConvFtl → IoType → Run WritePointer
get_wp f user_io = ok f.wp
get_wp f gc_io = ok f.gc_wp
get_wp f other_io = fault bug_on

-- The write through the pointer that __get_wp returns.
unfoldable pub put_wp : ConvFtl → IoType → WritePointer → ConvFtl
put_wp f user_io w = record f { wp = w }
put_wp f gc_io w = record f { gc_wp = w }
put_wp f other_io w = f

-- __get_wp_DA for USER_IO, which is what its callers pass
unfoldable pub get_wp_da : ConvFtl → ℕ → Run WritePointer
get_wp_da f lun = do
  slot ← or_fault (get_elem? f.lunwp lun) out_of_bounds
  or_fault slot uninitialised

abbrev pub put_wp_da : ConvFtl → ℕ → WritePointer → ConvFtl
put_wp_da f lun w = record f { lunwp = set f.lunwp lun (some w) }

abbrev pub get_lunlm : ConvFtl → ℕ → Run LineMgmt
get_lunlm f lun = or_fault (get_elem? f.lunlm lun) out_of_bounds

abbrev pub put_lunlm : ConvFtl → ℕ → LineMgmt → ConvFtl
put_lunlm f lun lm = record f { lunlm = set f.lunlm lun lm }

abbrev pub set_ssd : ConvFtl → Ssd → ConvFtl
set_ssd f ssd = record f { ssd = ssd }
