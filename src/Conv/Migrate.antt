-- ===== src/Conv/Migrate.antt =====
-- conv_ftl.c: the migration of cold pages from SLC to QLC.
use nvmevirt_hybrid.Prelude.{
  ℕ, zero, suc, ◌+◌, ◌-◌, Bool, true, false, not, none, some, ltb, ◌==◌, if◌then◌else◌, u64_mod,
  ◌%◌,
}
use nvmevirt_hybrid.Prelude.Run.{Run, ok, ◌>>=◌}
use nvmevirt_hybrid.Ssd.{Ppa, qlc, nand_read, nand_write, ssd_advance_nand}
use nvmevirt_hybrid.Conv.{ConvFtl, Pqueue, gc_io, invalid_lpn, u32_inc, spp, set_ssd}
use nvmevirt_hybrid.Conv.Address.{mapped_ppa, get_maptbl_ent, set_maptbl_ent, set_rmap_ent}
use nvmevirt_hybrid.Conv.Pages.{mark_page_invalid}
use nvmevirt_hybrid.Conv.Pointer.{get_new_page}
use nvmevirt_hybrid.Conv.QlcPointer.{advance_write_pointer_qlc}
use nvmevirt_hybrid.Conv.Hotness.{
  get_hotness_entry, entry_at, put_entry, should_migrate_page, wallclock,
}

-- The code does not write `interleave_pci_dma` of its two commands: `stack_dma` is what the first
-- holds. A write does not read it.
module _ (cpu_clock : ℕ → ℕ) (q : Pqueue) (stack_dma : Bool) where
  -- The part of migrate_page from the read of the old page on, `i` the index of the entry.
  unfoldable pub move_page : ConvFtl → ℕ → ℕ → Ppa → Run (ConvFtl × ℕ)
  unfolding entry_at
  move_page f0 i lpn old_ppa = do
    e0 ← entry_at f0 i
    let (f, now) = wallclock cpu_clock (put_entry f0 i (record e0 { is_migrating = true }))
    (ssd1, t1) ← ssd_advance_nand cpu_clock f.ssd (record {
      cmd = nand_read;
      xfer_size = (spp f).pgsz;
      stime = now;
      interleave_pci_dma = stack_dma;
      ppa = old_ppa;
    })
    new_ppa ← get_new_page (set_ssd f ssd1) gc_io
    let f1 = record (set_ssd f ssd1) { used_qlc_pages = (f.used_qlc_pages + 1) % u64_mod }
    e1 ← entry_at f1 i
    let f2 = put_entry f1 i (record e1 { storage_type = qlc })
    (ssd2, t2) ← ssd_advance_nand cpu_clock f2.ssd (record {
      cmd = nand_write;
      xfer_size = (spp f2).pgsz;
      stime = t1;
      interleave_pci_dma = stack_dma;
      ppa = new_ppa;
    })
    f3 ← set_maptbl_ent (set_ssd f2 ssd2) lpn new_ppa
    f4 ← set_rmap_ent f3 lpn new_ppa
    f5 ← advance_write_pointer_qlc f4 gc_io
    f6 ← mark_page_invalid q f5 old_ppa
    e2 ← entry_at f6 i
    let f7 = put_entry f6 i (record e2 { is_migrating = false })
    ok (record f7 { used_slc_pages = (f7.used_slc_pages + u64_mod - 1) % u64_mod }, t2)

  -- 0 if the page was not migrated.
  unfoldable pub migrate_page : ConvFtl → ℕ → Run (ConvFtl × ℕ)
  unfolding move_page
  migrate_page f lpn = get_hotness_entry f lpn >>= λ (f1, entry). elim entry [
    | none ↦ ok (f1, 0)
    | some i ↦ get_maptbl_ent f1 lpn >>= λ old_ppa.
        if not (mapped_ppa old_ppa) then ok (f1, 0) else move_page f1 i lpn old_ppa
  ]

  abbrev count_migration : ConvFtl → ConvFtl
  count_migration f = record f {
    migration_mgmt = record f.migration_mgmt {
      current_migrations = u32_inc f.migration_mgmt.current_migrations;
    };
  }

  -- The loop of check_and_perform_migrations, with `n` entries to go, from entry `i` on.
  unfoldable pub scan_entries : ℕ → ℕ → ConvFtl → Run ConvFtl
  unfolding migrate_page entry_at
  scan_entries zero i f = ok f
  scan_entries (suc n) i f =
      let mm = f.migration_mgmt in
      let skip = scan_entries n (suc i) f in
      let step = entry_at f i >>= λ e.
      if e.lpn == invalid_lpn
      then skip
      else if not (should_migrate_page mm e)
      then skip
      else (migrate_page f e.lpn >>= λ (f1, migration_time).
          scan_entries n (suc i) (if ltb 0 migration_time then count_migration f1 else f1)) in
      if ltb mm.current_migrations mm.max_migrations_per_check then step else ok f

  unfoldable pub check_and_perform_migrations : ConvFtl → Run ConvFtl
  unfolding scan_entries
  check_and_perform_migrations f =
      let (f1, current_time) = wallclock cpu_clock f in
      let mm = f1.migration_mgmt in
      let elapsed = (current_time + u64_mod - mm.last_migration_check) % u64_mod in
      let f2 = record f1 {
        migration_mgmt = record mm { last_migration_check = current_time; current_migrations = 0 };
      } in
      let scan = scan_entries mm.hotness_table_size 0 f2 in
      if ltb elapsed mm.migration_interval then ok f1 else scan
