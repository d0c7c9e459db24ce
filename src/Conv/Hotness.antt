-- ===== src/Conv/Hotness.antt =====
-- conv_ftl.c: the table of page hotness, an open-addressed hash table with linear probing.
pub mod Laws
pub mod Probe
pub mod Table
use nvmevirt_hybrid.Prelude.{
  ℕ, zero, suc, ◌+◌, ◌-◌, ◌%◌, Bool, true, false, ◌||◌, not, Option, none, some, List, [], ◌∷◌,
  get_elem?, set, ltb, leb, ◌==◌, if◌then◌else◌, u64_mod, replicate,
}
use nvmevirt_hybrid.Prelude.Run.{Run, ok, fault, out_of_bounds, divide_by_zero, ◌>>=◌, or_fault}
use nvmevirt_hybrid.Ssd.{SsdParams, StorageType, slc, qlc}
use nvmevirt_hybrid.Conv.{
  ConvFtl, PageHotness, MigrationMgmt, invalid_lpn, u32_inc, u32_dec, spp, set_ssd,
}

-- An entry as init_hotness_tracking and a new one as get_hotness_entry writes it.
abbrev pub fresh_entry : ℕ → PageHotness
fresh_entry lpn = record {
  lpn = lpn;
  access_count = 0;
  recent_access = 0;
  last_access_time = 0;
  storage_type = slc;
  is_migrating = false;
}

-- vmalloc gives the table.
unfoldable pub init_hotness_tracking : ConvFtl → ConvFtl
init_hotness_tracking f =
    let sp = spp f in
    record f {
      migration_mgmt = record {
        hotness_table = replicate sp.hotness_table_size (fresh_entry invalid_lpn);
        hotness_table_size = sp.hotness_table_size;
        hot_threshold = sp.hot_threshold;
        cold_threshold = sp.cold_threshold;
        migration_interval = sp.migration_interval;
        last_migration_check = 0;
        max_migrations_per_check = sp.max_migrations_per_check;
        current_migrations = 0;
      };
      total_slc_pages = sp.slc_tt_pgs;
      used_slc_pages = 0;
      total_qlc_pages = sp.qlc_tt_pgs;
      used_qlc_pages = 0;
    }

-- The loop of get_hotness_entry with `n` rounds to go, from round `i` on: the table and the index of
-- the entry, or NULL.
unfoldable pub probe : ℕ → ℕ → ℕ → List PageHotness → ℕ → Run (List PageHotness × Option ℕ)
probe zero i size t lpn = ok (t, none)
probe (suc n) i size t lpn =
    let rest = probe n (suc i) size t lpn in
    let idx = ((lpn % size + i) % u64_mod) % size in
    or_fault (get_elem? t idx) out_of_bounds >>= λ e.
    if e.lpn == invalid_lpn
    then ok (set t idx (fresh_entry lpn), some idx)
    else if e.lpn == lpn
    then ok (t, some idx)
    else rest

unfoldable pub find_entry : ℕ → List PageHotness → ℕ → Run (List PageHotness × Option ℕ)
unfolding probe
find_entry size t lpn = if size == 0 then fault divide_by_zero else probe size 0 size t lpn

abbrev pub put_table : ConvFtl → List PageHotness → ConvFtl
put_table f t = record f { migration_mgmt = record f.migration_mgmt { hotness_table = t } }

unfoldable pub get_hotness_entry : ConvFtl → ℕ → Run (ConvFtl × Option ℕ)
unfolding find_entry
get_hotness_entry f lpn = do
  let mm = f.migration_mgmt
  (t, i) ← find_entry mm.hotness_table_size mm.hotness_table lpn
  ok (put_table f t, i)

unfoldable pub entry_at : ConvFtl → ℕ → Run PageHotness
entry_at f i = or_fault (get_elem? f.migration_mgmt.hotness_table i) out_of_bounds

abbrev pub put_entry : ConvFtl → ℕ → PageHotness → ConvFtl
put_entry f i e = put_table f (set f.migration_mgmt.hotness_table i e)

-- An access at time `now`.
unfoldable pub touch : ℕ → PageHotness → PageHotness
touch now e0 =
    let e = record e0 {
      access_count = u32_inc e0.access_count;
      recent_access = u32_inc e0.recent_access;
      last_access_time = now;
    } in
    if ltb 1000000000 ((now + u64_mod - e.last_access_time) % u64_mod)
    then record e { recent_access = if ltb 0 e.recent_access then e.recent_access - 1 else 0 }
    else e

unfoldable pub should_migrate_page : MigrationMgmt → PageHotness → Bool
should_migrate_page mm e =
    if e.is_migrating
    then false
    else if e.lpn == invalid_lpn
    then false
    else elim e.storage_type [ slc ↦ leb e.recent_access mm.cold_threshold | qlc ↦ false ]

module _ (cpu_clock : ℕ → ℕ) where
  -- __get_wallclock
  abbrev pub wallclock : ConvFtl → ConvFtl × ℕ
  wallclock f = (set_ssd f (record f.ssd { reads = f.ssd.reads + 1 }), cpu_clock f.ssd.reads)

  unfoldable pub update_page_hotness : ConvFtl → ℕ → Run ConvFtl
  unfolding get_hotness_entry entry_at touch
  update_page_hotness f lpn = get_hotness_entry f lpn >>= λ (f1, entry). elim entry [
    | none ↦ ok f1
    | some i ↦ do
      let (f2, current_time) = wallclock f1
      e ← entry_at f2 i
      ok (put_entry f2 i (touch current_time e))
  ]
