-- ===== src/Zns/Write/Pointer.antt =====
-- zns_read_write.c: the moving of the write pointer, `__increase_write_ptr`.
use nvmevirt_hybrid.Prelude.{
  ℕ, ◌+◌, ◌%◌, ◌≡◌, refl, inl, inr, arith, Bool, true, false, some, get_elem?, ◌==◌, if◌then◌else◌,
  set-set, Bool-cases, u32_mod, u64_mod,
}
use nvmevirt_hybrid.Prelude.Run.{ok}
use nvmevirt_hybrid.Zns.{
  ZnsFtl, full, ZoneDescriptor, active_zone, open_zone, put_desc, release_zone_resource,
  change_zone_state, zone_to_slba,
}
use nvmevirt_hybrid.Zns.Accounts.{is_open, Accounted, Moves}
use nvmevirt_hybrid.Zns.MgmtSend.Laws.{held}
use nvmevirt_hybrid.Zns.Write.{increase_write_ptr}

-- The write pointer of a zone behind `nr_lba` more sectors, and the descriptor that it leaves.
abbrev pub next_wp : ZoneDescriptor → ℕ → ℕ
next_wp d nr_lba = (d.wp + nr_lba % u32_mod) % u64_mod

abbrev pub ends_zone : ZnsFtl → ℕ → ZoneDescriptor → ℕ → Bool
ends_zone z zid d nr_lba = next_wp d nr_lba == (zone_to_slba z zid + d.zone_capacity) % u64_mod

abbrev pub advanced : ZnsFtl → ℕ → ZoneDescriptor → ℕ → ZoneDescriptor
advanced z zid d nr_lba =
    if ends_zone z zid d nr_lba
    then record d { state = full; wp = next_wp d nr_lba }
    else record d { wp = next_wp d nr_lba }

-- The two ways in which the write pointer moves.
unfoldable pub moved : ZnsFtl → ℕ → ZoneDescriptor → ℕ → ZnsFtl
moved z zid d nr_lba = put_desc z zid (record d { wp = next_wp d nr_lba })

unfoldable pub ended : ZnsFtl → ℕ → ZoneDescriptor → ℕ → ZnsFtl
unfolding moved release_zone_resource change_zone_state
ended z zid d nr_lba =
    change_zone_state
      (release_zone_resource (release_zone_resource (moved z zid d nr_lba) open_zone) active_zone)
      zid (record d { wp = next_wp d nr_lba }) full

-- The write pointer of an open zone without a ZRWA has moved.
pub record Advanced (z : ZnsFtl) (zid : ℕ) (d : ZoneDescriptor) (nr_lba : ℕ) : Type 0 where
  pub after : ZnsFtl
  pub runs : increase_write_ptr z zid nr_lba ≡ ok after
  pub moves : Moves z zid d (advanced z zid d nr_lba) after
  pub same_ssd : after.ssd ≡ z.ssd
  pub same_zp : after.zp ≡ z.zp

pub increase_write_ptr_lem :
    (z : ZnsFtl) (zid : ℕ) (d : ZoneDescriptor) (nr_lba : ℕ)
    → get_elem? z.zone_descs zid ≡ some d
    → Accounted z
    → is_open d ≡ true
    → d.zrwav ≡ false
    → Advanced z zid d nr_lba
unfolding increase_write_ptr moved ended
increase_write_ptr_lem z zid d nr_lba at v o w = elim (Bool-cases (ends_zone z zid d nr_lba)) [
  | inl ends ↦ record {
    after = ended z zid d nr_lba;
    runs = rw (at, ends) refl;
    same_ssd = refl;
    same_zp = refl;
    moves = rw ends (
        ground (
          arith,
          at,
          held z zid d at v,
          v.active_in,
          v.open_in,
          set-set z.zone_descs zid (record d { wp = next_wp d nr_lba })
              (record d { state = full; wp = next_wp d nr_lba }),
        ));
  }
  | inr on ↦ record {
    after = moved z zid d nr_lba;
    runs = rw (at, on) refl;
    same_ssd = refl;
    same_zp = refl;
    moves = rw on (ground (arith, at, held z zid d at v, v.active_in, v.open_in));
  }
]

module _ (z : ZnsFtl) (zid : ℕ) (d : ZoneDescriptor) (nr_lba : ℕ) where
  pub wp-advanced : (advanced z zid d nr_lba).wp ≡ next_wp d nr_lba
  wp-advanced = elim (Bool-cases (ends_zone z zid d nr_lba)) [
    | inl e ↦ rw e refl
    | inr e ↦ rw e refl
  ]

  pub advanced-full : ends_zone z zid d nr_lba ≡ true → (advanced z zid d nr_lba).state ≡ full
  advanced-full e = rw e refl

  pub advanced-open :
      ends_zone z zid d nr_lba ≡ false → is_open d ≡ true → is_open (advanced z zid d nr_lba) ≡ true
  advanced-open e o = rw e o
