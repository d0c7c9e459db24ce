-- ===== src/Conv/Hotness/Laws.antt =====
-- conv_ftl.c: init_hotness_tracking, update_page_hotness and should_migrate_page.
use nvmevirt_hybrid.Prelude.{
  ℕ, ◌+◌, ◌-◌, ◌%◌, ◌<◌, ◌≡◌, refl, sym, ap, ◌∙◌, arith, replicate, length-replicate,
  get_elem?-replicate, u64_mod,
}
use nvmevirt_hybrid.Conv.{ConvFtl, PageHotness, invalid_lpn, u32_inc, spp}
use nvmevirt_hybrid.Conv.Hotness.{fresh_entry, init_hotness_tracking, touch}
use nvmevirt_hybrid.Conv.Hotness.Table.{IsHashed, Holds}

-- The table that init_hotness_tracking makes, of a size between 1 and 2^63, is one in which each page
-- has one entry, behind slots that are all in use.
pub init_hotness_tracking-IsHashed :
    (f : ConvFtl)
    → 0 < (spp f).hotness_table_size
    → (spp f).hotness_table_size < 9223372036854775808
    → IsHashed
        (init_hotness_tracking f).migration_mgmt.hotness_table_size
        (init_hotness_tracking f).migration_mgmt.hotness_table
unfolding init_hotness_tracking
init_hotness_tracking-IsHashed f pos small =
    let n = (spp f).hotness_table_size in
    let unused : (l j : ℕ) (e : PageHotness)
        → Holds (replicate n (fresh_entry invalid_lpn)) l j e
        → l ≡ invalid_lpn =
      λ l j e (at, is).
        sym is
        ∙ ap (λ (y : PageHotness). y.lpn)
            (get_elem?-replicate n j (fresh_entry invalid_lpn) e at) in
    record {
      table = record {
        len = length-replicate n (fresh_entry invalid_lpn);
        pos = pos;
        small = small;
      };
      chained = λ l j e real holds. absurd (real (unused l j e holds));
      unique = λ l j k e e1 real holds holds1. absurd (real (unused l j e holds));
    }

-- update_page_hotness never ages an entry: whatever the time and the entry, both of its counts go up
-- by one, modulo 2^32. The code compares the time of the access with the time of the last access
-- after it has set the one to the other.
touch_counts :
    (now : ℕ) (e : PageHotness)
    → now < u64_mod
    → ((touch now e).recent_access ≡ u32_inc e.recent_access)
      × ((touch now e).access_count ≡ u32_inc e.access_count)
      × ((touch now e).last_access_time ≡ now)
      × ((touch now e).lpn ≡ e.lpn)
unfolding touch
touch_counts now e h =
    let none_passed : (now + u64_mod - now) % u64_mod ≡ 0 = omega arith in
    (rw none_passed refl, rw none_passed refl, rw none_passed refl, rw none_passed refl)
