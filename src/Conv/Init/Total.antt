-- ===== src/Conv/Init/Total.antt =====
-- conv_ftl.c: what conv_init_ftl sets up.
use nvmevirt_hybrid.Prelude.{
  ℕ, zero, suc, ◌+◌, ◌*◌, ◌<◌, ◌≡◌, refl, ap, ◌∙◌, arith, inl, inr, true, some, [], get_elem?,
  replicate, ==-refl, ◌==◌, if◌then◌else◌, Bool-cases, if_false, if_true, u32_mod,
}
use nvmevirt_hybrid.Prelude.Run.{Run, ok, ◌>>=◌}
use nvmevirt_hybrid.Ssd.{Ssd, SsdParams}
use nvmevirt_hybrid.Conv.{
  ConvFtl, ConvParams, Line, LineMgmt, WritePointer, user_io, gc_io, invalid_lpn, spp, get_wp,
  put_wp, u32_dec,
}
use nvmevirt_hybrid.Conv.Address.{the_unmapped}
use nvmevirt_hybrid.Conv.Lines.{
  new_lines, new_free_list, init_line_mgmt, init_lines, init_luns, init_lines_da, next_free_line,
  get_next_free_line, line_at,
}
use nvmevirt_hybrid.Conv.Pages.{init_blks}
use nvmevirt_hybrid.Conv.Hotness.{init_hotness_tracking}
use nvmevirt_hybrid.Conv.Pointer.{line_id, prepare_write_pointer}
use nvmevirt_hybrid.Conv.Init.{
  null_wp, init_maptbl, init_rmap, init_write_flow_control, conv_init_ftl,
}

-- All lines free: what init_lines makes of `n` lines.
abbrev pub fresh_mgmt : ℕ → LineMgmt
unfolding new_lines new_free_list
fresh_mgmt n = record {
  lines = new_lines n 0;
  free_line_list = new_free_list n 0;
  victim_line_pq = [];
  full_line_list = [];
  tt_lines = n;
  free_line_cnt = n;
  victim_line_cnt = 0;
  full_line_cnt = 0;
}

init_line_mgmt-fresh :
    (sp : SsdParams)
    → sp.blks_per_pl ≡ sp.tt_lines
    → init_line_mgmt sp ≡ ok (fresh_mgmt sp.blks_per_pl)
unfolding init_line_mgmt
init_line_mgmt-fresh sp e =
    let same : (sp.blks_per_pl == sp.tt_lines) ≡ true = rw e (==-refl sp.tt_lines) in rw same refl

init_luns-fresh :
    (sp : SsdParams) (n : ℕ)
    → sp.blks_per_pl ≡ sp.tt_lines
    → init_luns sp n ≡ ok (replicate n (fresh_mgmt sp.blks_per_pl))
unfolding init_luns
init_luns-fresh sp zero e = refl
init_luns-fresh sp (suc n) e = rw (init_line_mgmt-fresh sp e, init_luns-fresh sp n e) refl

-- A write pointer at the start of line `i`.
abbrev pub start_of : ℕ → WritePointer
start_of i = record { curline = some i; ch = 0; lun = 0; pg = 0; blk = i; pl = 0 }

-- The lines after `taken` of `n` were taken in order.
abbrev pub taken_mgmt : ℕ → ℕ → ℕ → LineMgmt
taken_mgmt n taken left = record (fresh_mgmt n) {
  free_line_list = new_free_list left taken;
  free_line_cnt = left;
}

next_free_line-taken :
    (n taken left : ℕ)
    → left < u32_mod
    → next_free_line (taken_mgmt n taken (suc left)) ≡ (taken_mgmt n (suc taken) left, some taken)
unfolding next_free_line new_free_list
next_free_line-taken n taken left h =
    let one_less : u32_dec (suc left) ≡ left = omega (arith, h) in rw one_less refl

get_elem?-new_lines :
    (n i from : ℕ)
    → i < n
    → (l : Line) × (get_elem? (new_lines n from) i ≡ some l) × (l.id ≡ from + i)
unfolding new_lines
get_elem?-new_lines zero i from h = absurd (omega (arith, h))
get_elem?-new_lines (suc n) zero from h =
    (record { id = from; ipc = 0; vpc = 0; pos = 0 }, refl, omega arith)
get_elem?-new_lines (suc n) (suc i) from h =
    let (l, at, is) = get_elem?-new_lines n i (suc from) (omega (arith, h)) in
    (l, at, omega (arith, is))

line_id-fresh : (n i taken left : ℕ) → i < n → line_id (taken_mgmt n taken left) (some i) ≡ ok i
unfolding line_at new_lines fresh_mgmt
line_id-fresh n i taken left h =
    let (l, at, is) = get_elem?-new_lines n i 0 h in rw at (ap ok (omega (arith, is)))

module _ (f : ConvFtl) (n taken left : ℕ) (below : taken < n) (small : left < u32_mod) where
  abbrev next_lm : LineMgmt
  next_lm = taken_mgmt n (suc taken) left

  prepare_user :
      f.lm ≡ taken_mgmt n taken (suc left)
      → prepare_write_pointer f user_io ≡ ok (record f { lm = next_lm; wp = start_of taken })
  unfolding prepare_write_pointer get_wp put_wp get_next_free_line
  prepare_user is =
      rw (is, next_free_line-taken n taken left small, line_id-fresh n taken (suc taken) left below)
        refl

  prepare_gc :
      f.lm ≡ taken_mgmt n taken (suc left)
      → prepare_write_pointer f gc_io ≡ ok (record f { lm = next_lm; gc_wp = start_of taken })
  unfolding prepare_write_pointer get_wp put_wp get_next_free_line
  prepare_gc is =
      rw (is, next_free_line-taken n taken left small, line_id-fresh n taken (suc taken) left below)
        refl

-- The state that conv_init_ftl makes from the memory `mem`: nothing is mapped, the pointers are at the
-- start of lines 0 and 1, the `left` other lines are free in order, and `lunwp` is what it was.
pub record IsInit (mem : ConvFtl) (ssd : Ssd) (left : ℕ) (f : ConvFtl) : Type 0 where
  pub ssd_eq : f.ssd ≡ ssd
  pub maptbl_eq : f.maptbl ≡ replicate ssd.sp.tt_pgs the_unmapped
  pub rmap_eq : f.rmap ≡ replicate ssd.sp.tt_pgs invalid_lpn
  pub wp_eq : f.wp ≡ start_of 0
  pub gc_wp_eq : f.gc_wp ≡ start_of 1
  pub lm_eq : f.lm ≡ taken_mgmt (suc (suc left)) 2 left
  pub lunwp_eq : f.lunwp ≡ mem.lunwp

module _ (mem : ConvFtl) (cpp : ConvParams) (ssd : Ssd) (n : ℕ) where
  -- The state before the hybrid build's own part.
  abbrev lines_made : ConvFtl
  unfolding init_maptbl init_rmap init_write_flow_control init_blks
  lines_made =
      init_write_flow_control
        (record (init_rmap (
          init_maptbl (record mem {
            ssd = ssd;
            blks = init_blks ssd.sp;
            cp = cpp;
            wp = null_wp;
            gc_wp = null_wp;
          }))) { lm = fresh_mgmt n })

  -- That part leaves the rest of the state alone.
  abbrev SameRest : ConvFtl → Type 0
  SameRest g =
      (g.ssd ≡ ssd)
      × (g.maptbl ≡ replicate ssd.sp.tt_pgs the_unmapped)
      × (g.rmap ≡ replicate ssd.sp.tt_pgs invalid_lpn)
      × (g.lm ≡ fresh_mgmt n)
      × (g.lunwp ≡ mem.lunwp)

  abbrev hybrid_part : ConvFtl → Run ConvFtl
  hybrid_part f2 =
      if (spp f2).hybrid
      then (init_lines_da (init_hotness_tracking f2) >>= λ g. ok (record g { lunpointer = 0 }))
      else ok f2

  hybrid_part-SameRest :
      ssd.sp.blks_per_pl ≡ ssd.sp.tt_lines
      → (g : ConvFtl) × (hybrid_part lines_made ≡ ok g) × SameRest g
  unfolding lines_made init_maptbl init_rmap init_write_flow_control init_hotness_tracking
      init_lines_da
  hybrid_part-SameRest e = elim (Bool-cases ssd.sp.hybrid) [
    | inl hybrid ↦
        let luns = init_luns-fresh ssd.sp (ssd.sp.luns_per_ch * ssd.sp.nchs) e in
        (
          record (init_hotness_tracking lines_made) {
            lunlm = replicate (ssd.sp.luns_per_ch * ssd.sp.nchs) (fresh_mgmt ssd.sp.blks_per_pl);
            lunpointer = 0;
          },
          if_true ssd.sp.hybrid _ _ hybrid ∙ rw luns refl,
          (refl, refl, refl, refl, refl),
        )
    | inr plain ↦ (lines_made, if_false ssd.sp.hybrid _ _ plain, (refl, refl, refl, refl, refl))
  ]

-- For `left + 2` lines, as many as blocks in a plane, conv_init_ftl returns, in either build: every
-- logical page is unmapped and no page is mapped back, the two write pointers are at the start of
-- lines 0 and 1, and the other lines are free. The write pointers of the LUNs are the memory that was
-- there before.
pub conv_init_ftl-IsInit :
    (mem : ConvFtl) (cpp : ConvParams) (ssd : Ssd) (left : ℕ)
    → ssd.sp.blks_per_pl ≡ suc (suc left)
    → ssd.sp.blks_per_pl ≡ ssd.sp.tt_lines
    → suc left < u32_mod
    → (f : ConvFtl) × (conv_init_ftl mem cpp ssd ≡ ok f) × IsInit mem ssd left f
unfolding conv_init_ftl init_lines init_maptbl init_rmap lines_made
conv_init_ftl-IsInit mem cpp ssd left e same small =
    let n = suc (suc left) in
    let (g, runs, (ssd_is, maptbl_is, rmap_is, lm_is, lunwp_is)) =
      hybrid_part-SameRest mem cpp ssd ssd.sp.blks_per_pl same in
    let lm_is1 : g.lm ≡ taken_mgmt n 0 n = lm_is ∙ ap fresh_mgmt e in
    let g1 = record g { lm = taken_mgmt n 1 (suc left); wp = start_of 0 } in
    let runs1 : prepare_write_pointer g user_io ≡ ok g1 =
      prepare_user g n 0 (suc left) (omega arith) small lm_is1 in
    let g2 = record g1 { lm = taken_mgmt n 2 left; gc_wp = start_of 1 } in
    let runs2 : prepare_write_pointer g1 gc_io ≡ ok g2 =
      prepare_gc g1 n 1 left (omega arith) (omega (arith, small)) refl in
    (
      g2,
      rw (init_line_mgmt-fresh ssd.sp same, runs, runs1) runs2,
      record {
        ssd_eq = ssd_is;
        maptbl_eq = maptbl_is;
        rmap_eq = rmap_is;
        wp_eq = refl;
        gc_wp_eq = refl;
        lm_eq = refl;
        lunwp_eq = lunwp_is;
      },
    )
