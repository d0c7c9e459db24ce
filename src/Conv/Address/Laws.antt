-- ===== src/Conv/Address/Laws.antt =====
-- conv_ftl.c: what the index of a page and the two mapping tables have to do with each other.
use nvmevirt_hybrid.Prelude.{
  ℕ, ◌+◌, ◌*◌, ◌%◌, ◌<◌, ◌≡◌, ◌≢◌, refl, sym, ap, ◌∙◌, arith, true, length, set, List, lt→ltb,
  u64_mod, lt-length→get_elem?, length-set, get_elem?-set_self, get_elem?-set_ne,
}
use nvmevirt_hybrid.Prelude.Run.{ok, ◌>>=◌, ok-injective}
use nvmevirt_hybrid.Prelude.Div.{radix_lt, radix_unique}
use nvmevirt_hybrid.Ssd.{SsdParams, Ppa}
use nvmevirt_hybrid.Conv.{ConvFtl, spp}
use nvmevirt_hybrid.Conv.Address.{
  valid_ppa, ppa2pgidx, get_maptbl_ent, set_maptbl_ent, get_rmap_ent, set_rmap_ent,
}

-- The calculated values of ssd_init_params, below 2^64.
pub record IsConvGeometry (sp : SsdParams) : Type 0 where
  pub pl_eq : sp.pgs_per_pl ≡ sp.pgs_per_blk * sp.blks_per_pl
  pub lun_eq : sp.pgs_per_lun ≡ sp.pgs_per_pl * sp.pls_per_lun
  pub ch_eq : sp.pgs_per_ch ≡ sp.pgs_per_lun * sp.luns_per_ch
  pub tt_eq : sp.tt_pgs ≡ sp.pgs_per_ch * sp.nchs
  pub tt_in : sp.tt_pgs < u64_mod

pub record InRange (sp : SsdParams) (p : Ppa) : Type 0 where
  pub ch_in : p.ch < sp.nchs
  pub lun_in : p.lun < sp.luns_per_ch
  pub pl_in : p.pl < sp.pls_per_lun
  pub blk_in : p.blk < sp.blks_per_pl
  pub pg_in : p.pg < sp.pgs_per_blk

pub valid_ppa-InRange : (sp : SsdParams) (p : Ppa) → valid_ppa sp p ≡ true → InRange sp p
unfolding valid_ppa
valid_ppa-InRange sp p h = record {
  ch_in = ground arith;
  lun_in = ground arith;
  pl_in = ground arith;
  blk_in = ground arith;
  pg_in = ground arith;
}

same_fields :
    (p r : Ppa)
    → p.pg ≡ r.pg
    → p.blk ≡ r.blk
    → p.pl ≡ r.pl
    → p.lun ≡ r.lun
    → p.ch ≡ r.ch
    → p.rsv ≡ r.rsv
    → p ≡ r
same_fields p r a b c d e f =
    λ i. record { pg = a i; blk = b i; pl = c i; lun = d i; ch = e i; rsv = f i }

-- The index without the wrap.
abbrev in_blk : SsdParams → Ppa → ℕ
in_blk sp p = p.blk * sp.pgs_per_blk + p.pg

abbrev in_pl : SsdParams → Ppa → ℕ
in_pl sp p = p.pl * sp.pgs_per_pl + in_blk sp p

abbrev in_lun : SsdParams → Ppa → ℕ
in_lun sp p = p.lun * sp.pgs_per_lun + in_pl sp p

abbrev pub pgidx : SsdParams → Ppa → ℕ
pgidx sp p = p.ch * sp.pgs_per_ch + in_lun sp p

module _ (sp : SsdParams) (g : IsConvGeometry sp) where
  in_blk-lt : (p : Ppa) → InRange sp p → in_blk sp p < sp.pgs_per_pl
  in_blk-lt p r = rw g.pl_eq (radix_lt p.blk p.pg sp.blks_per_pl sp.pgs_per_blk r.blk_in r.pg_in)

  in_pl-lt : (p : Ppa) → InRange sp p → in_pl sp p < sp.pgs_per_lun
  in_pl-lt p r =
      rw g.lun_eq (radix_lt p.pl (in_blk sp p) sp.pls_per_lun sp.pgs_per_pl r.pl_in (in_blk-lt p r))

  in_lun-lt : (p : Ppa) → InRange sp p → in_lun sp p < sp.pgs_per_ch
  in_lun-lt p r =
      rw g.ch_eq (radix_lt p.lun (in_pl sp p) sp.luns_per_ch sp.pgs_per_lun r.lun_in (in_pl-lt p r))

  pub pgidx-lt : (p : Ppa) → InRange sp p → pgidx sp p < sp.tt_pgs
  pgidx-lt p r =
      rw g.tt_eq (radix_lt p.ch (in_lun sp p) sp.nchs sp.pgs_per_ch r.ch_in (in_lun-lt p r))

  pub ppa2pgidx-ok : (p : Ppa) → InRange sp p → ppa2pgidx sp p ≡ ok (pgidx sp p)
  unfolding ppa2pgidx
  ppa2pgidx-ok p r =
      let below = pgidx-lt p r in
      let sum : p.ch * sp.pgs_per_ch
            + p.lun * sp.pgs_per_lun
            + p.pl * sp.pgs_per_pl
            + p.blk * sp.pgs_per_blk
            + p.pg
          ≡ pgidx sp p =
        omega arith in
      let small : pgidx sp p < u64_mod = omega (arith, below, g.tt_in) in
      let reduced : (p.ch * sp.pgs_per_ch
              + p.lun * sp.pgs_per_lun
              + p.pl * sp.pgs_per_pl
              + p.blk * sp.pgs_per_blk
              + p.pg)
            % u64_mod
          ≡ pgidx sp p =
        omega (arith, sum, small) in
      rw (reduced, lt→ltb (pgidx sp p) sp.tt_pgs below) refl

  -- Two pages in range, with the same reserved bits, that have the same index are the same page.
  ppa2pgidx_injective :
      (p r : Ppa)
      → InRange sp p
      → InRange sp r
      → p.rsv ≡ r.rsv
      → ppa2pgidx sp p ≡ ppa2pgidx sp r
      → p ≡ r
  ppa2pgidx_injective p r v w e h =
      let idx : pgidx sp p ≡ pgidx sp r =
        ok-injective (sym (ppa2pgidx-ok p v) ∙ h ∙ ppa2pgidx-ok r w) in
      let (ch, e1) =
        radix_unique p.ch (in_lun sp p) r.ch (in_lun sp r) sp.pgs_per_ch (in_lun-lt p v)
          (in_lun-lt r w) idx in
      let (lun, e2) =
        radix_unique p.lun (in_pl sp p) r.lun (in_pl sp r) sp.pgs_per_lun (in_pl-lt p v)
          (in_pl-lt r w) e1 in
      let (pl, e3) =
        radix_unique p.pl (in_blk sp p) r.pl (in_blk sp r) sp.pgs_per_pl (in_blk-lt p v)
          (in_blk-lt r w) e2 in
      let (blk, pg) = radix_unique p.blk p.pg r.blk r.pg sp.pgs_per_blk v.pg_in w.pg_in e3 in
      same_fields p r pg blk pl lun ch e

-- The tables have an entry for every page.
pub record HasTables (f : ConvFtl) : Type 0 where
  pub maptbl_len : length f.maptbl ≡ (spp f).tt_pgs
  pub rmap_len : length f.rmap ≡ (spp f).tt_pgs

-- `y` is `f` with page `ppa` for `lpn` in both tables and all other entries as they were.
pub record IsMapped (f y : ConvFtl) (lpn : ℕ) (ppa : Ppa) : Type 0 where
  pub tables : HasTables y
  pub forward : get_maptbl_ent y lpn ≡ ok ppa
  pub back : get_rmap_ent y ppa ≡ ok lpn
  pub other_lpns : (l : ℕ) → l ≢ lpn → get_maptbl_ent y l ≡ get_maptbl_ent f l
  pub other_ppas :
      (p : Ppa)
      → InRange (spp f) p
      → p.rsv ≡ ppa.rsv
      → p ≢ ppa
      → get_rmap_ent y p ≡ get_rmap_ent f p

abbrev pub mapped_to : ConvFtl → ℕ → Ppa → ConvFtl
mapped_to f lpn ppa = record f {
  maptbl = set f.maptbl lpn ppa;
  rmap = set f.rmap (pgidx (spp f) ppa) lpn;
}

module _ (f : ConvFtl) (g : IsConvGeometry (spp f)) (t : HasTables f) where
  pub set_maptbl-ok :
      (lpn : ℕ) (ppa : Ppa)
      → lpn < (spp f).tt_pgs
      → set_maptbl_ent f lpn ppa ≡ ok (record f { maptbl = set f.maptbl lpn ppa })
  unfolding set_maptbl_ent
  set_maptbl-ok lpn ppa h =
      let (old, at) = lt-length→get_elem? f.maptbl lpn (rw t.maptbl_len h) in
      rw (lt→ltb lpn (spp f).tt_pgs h, at) refl

  pub set_rmap-ok :
      (table : List Ppa) (lpn : ℕ) (ppa : Ppa)
      → InRange (spp f) ppa
      → set_rmap_ent (record f { maptbl = table }) lpn ppa
        ≡ ok (record f { maptbl = table; rmap = set f.rmap (pgidx (spp f) ppa) lpn })
  unfolding set_rmap_ent
  set_rmap-ok table lpn ppa r =
      let (old, at) =
        lt-length→get_elem? f.rmap (pgidx (spp f) ppa) (rw t.rmap_len (pgidx-lt (spp f) g ppa r)) in
      rw (ppa2pgidx-ok (spp f) g ppa r, at) refl

  pub mapped_to-IsMapped :
      (lpn : ℕ) (ppa : Ppa)
      → lpn < (spp f).tt_pgs
      → InRange (spp f) ppa
      → IsMapped f (mapped_to f lpn ppa) lpn ppa
  unfolding get_maptbl_ent get_rmap_ent
  mapped_to-IsMapped lpn ppa h r =
      let i = pgidx (spp f) ppa in
      let below : i < length f.rmap = rw t.rmap_len (pgidx-lt (spp f) g ppa r) in
      record {
        tables = record {
          maptbl_len = length-set f.maptbl lpn ppa ∙ t.maptbl_len;
          rmap_len = length-set f.rmap i lpn ∙ t.rmap_len;
        };
        forward = rw (get_elem?-set_self f.maptbl lpn ppa (rw t.maptbl_len h)) refl;
        back = rw (ppa2pgidx-ok (spp f) g ppa r, get_elem?-set_self f.rmap i lpn below) refl;
        other_lpns = λ l ne. rw (get_elem?-set_ne f.maptbl lpn l ppa (λ e. ne (sym e))) refl;
        other_ppas = λ p v rsv ne.
            let distinct : i ≢ pgidx (spp f) p = λ e. ne (
              ppa2pgidx_injective (spp f) g p ppa v r rsv (
                ppa2pgidx-ok (spp f) g p v ∙ ap ok (sym e) ∙ sym (ppa2pgidx-ok (spp f) g ppa r))) in
            rw
              (ppa2pgidx-ok (spp f) g p v, get_elem?-set_ne f.rmap i (pgidx (spp f) p) lpn distinct)
              refl;
      }

  -- In a geometry as ssd_init_params makes it, for a logical page below the number of pages and a
  -- physical page in range, the two writes to the mapping tables return. Then each table leads back
  -- to what the other one was given, and no other logical page and no other physical page in range
  -- has changed.
  pub set_maps-IsMapped :
      (lpn : ℕ) (ppa : Ppa)
      → lpn < (spp f).tt_pgs
      → InRange (spp f) ppa
      → (y : ConvFtl) × ((set_maptbl_ent f lpn ppa >>= λ f1. set_rmap_ent f1 lpn ppa) ≡ ok y)
        × IsMapped f y lpn ppa
  set_maps-IsMapped lpn ppa h r = (
    mapped_to f lpn ppa,
    rw (set_maptbl-ok lpn ppa h) (set_rmap-ok (set f.maptbl lpn ppa) lpn ppa r),
    mapped_to-IsMapped lpn ppa h r,
  )
