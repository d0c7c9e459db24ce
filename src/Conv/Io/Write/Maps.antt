-- ===== src/Conv/Io/Write/Maps.antt =====
-- conv_ftl.c: what the loop of conv_write leaves in the mapping tables.
use mathlib.Core.Path.{subst}
use nvmevirt_hybrid.Prelude.{
  true, ℕ, ◌≡◌, refl, ◌∙◌, Bool, some, List, get_elem?, get_elem?-set_self, get_elem?-lt-length,
  ltb, if◌then◌else◌,
}
use nvmevirt_hybrid.Prelude.Run.{
  Run, ok, >>=-eq-ok, ok-injective, or_fault, or_fault-eq-ok, out_of_bounds, nvmev_assert,
}
use nvmevirt_hybrid.Ssd.{Ssd, NandCmd, nand_write, Ppa, ssd_advance_nand, ssd_advance_write_buffer}
use nvmevirt_hybrid.Conv.{ConvFtl, Pqueue, user_io, spp, set_ssd}
use nvmevirt_hybrid.Conv.Address.{
  store, ppa2pgidx, get_maptbl_ent, set_maptbl_ent, get_rmap_ent, set_rmap_ent,
}
use nvmevirt_hybrid.Conv.Keeps.{
  Keeps, if-Spares, advance_write_pointer-Spares, advance_write_pointer_da-Spares,
}
use nvmevirt_hybrid.Conv.Gc.{check_and_refill_write_credit}
use nvmevirt_hybrid.Conv.Pointer.{advance_write_pointer, advance_write_pointer_da}
use nvmevirt_hybrid.Conv.Io.Write.{write_page_of, write_lpn}

-- A write to an array that returns is found by a read of the entry.
store-get {ℓ} :
    {A : Type ℓ} (xs ys : List A) (i : ℕ) (v : A) → store xs i v ≡ ok ys → get_elem? ys i ≡ some v
store-get xs ys i v e =
    let (x, is, rest) = >>=-eq-ok (or_fault (get_elem? xs i) out_of_bounds) _ ys e in
    let at = or_fault-eq-ok (get_elem? xs i) out_of_bounds x is in
    rw (← ok-injective rest) (get_elem?-set_self xs i v (get_elem?-lt-length xs i x at))

module _ (f y : ConvFtl) (lpn : ℕ) (ppa : Ppa) where
  set_maptbl-get : set_maptbl_ent f lpn ppa ≡ ok y → get_maptbl_ent y lpn ≡ ok ppa
  unfolding set_maptbl_ent get_maptbl_ent
  set_maptbl-get e =
      let (u, e1, r1) = >>=-eq-ok (nvmev_assert (ltb lpn (spp f).tt_pgs)) _ y e in
      let (t, e2, r2) = >>=-eq-ok (store f.maptbl lpn ppa) _ y r1 in
      let same = ok-injective r2 in rw (← same, store-get f.maptbl t lpn ppa e2) refl

  set_rmap-get :
      set_rmap_ent f lpn ppa ≡ ok y → (get_rmap_ent y ppa ≡ ok lpn) × (y.maptbl ≡ f.maptbl)
  unfolding set_rmap_ent get_rmap_ent
  set_rmap-get e =
      let (i, e1, r1) = >>=-eq-ok (ppa2pgidx (spp f) ppa) _ y e in
      let (t, e2, r2) = >>=-eq-ok (store f.rmap i lpn) _ y r1 in
      let same = ok-injective r2 in
      (rw (← same, e1, store-get f.rmap t i lpn e2) refl, rw (← same) refl)

  set_maptbl-ssd : set_maptbl_ent f lpn ppa ≡ ok y → y.ssd ≡ f.ssd
  unfolding set_maptbl_ent
  set_maptbl-ssd e =
      let (u, e1, r1) = >>=-eq-ok (nvmev_assert (ltb lpn (spp f).tt_pgs)) _ y e in
      let (t, e2, r2) = >>=-eq-ok (store f.maptbl lpn ppa) _ y r1 in
      let same = ok-injective r2 in rw (← same) refl

  set_rmap-ssd : set_rmap_ent f lpn ppa ≡ ok y → y.ssd ≡ f.ssd
  unfolding set_rmap_ent
  set_rmap-ssd e =
      let (i, e1, r1) = >>=-eq-ok (ppa2pgidx (spp f) ppa) _ y e in
      let (t, e2, r2) = >>=-eq-ok (store f.rmap i lpn) _ y r1 in
      let same = ok-injective r2 in rw (← same) refl

  -- The tables and the parameters decide what the two reads give.
  Keeps-get :
      Keeps f y
      → (get_maptbl_ent y lpn ≡ get_maptbl_ent f lpn) × (get_rmap_ent y ppa ≡ get_rmap_ent f ppa)
  unfolding get_maptbl_ent get_rmap_ent
  Keeps-get k = (rw k.maptbl_eq refl, rw (k.ssd_eq, k.rmap_eq) refl)

maptbl-get :
    (f y : ConvFtl) (lpn : ℕ) → y.maptbl ≡ f.maptbl → get_maptbl_ent y lpn ≡ get_maptbl_ent f lpn
unfolding get_maptbl_ent
maptbl-get f y lpn e = rw e refl

-- The page `ppa` and the logical page `lpn` stand for each other in the tables.
abbrev pub Linked : ConvFtl → ℕ → Ppa → Type 0
Linked f lpn ppa = (get_maptbl_ent f lpn ≡ ok ppa) × (get_rmap_ent f ppa ≡ ok lpn)

abbrev advance_of : Pqueue → ConvFtl → Run ConvFtl
advance_of q f =
    if (spp f).hybrid then advance_write_pointer_da q f else advance_write_pointer q f user_io

-- The NAND write of one page at `ppa`.
abbrev pub page_write : ConvFtl → ℕ → Ppa → NandCmd
page_write f stime ppa = record {
  cmd = nand_write;
  xfer_size = (spp f).pgsz;
  stime = stime;
  interleave_pci_dma = true;
  ppa = ppa;
}

module _ (cpu_clock : ℕ → ℕ) (q : Pqueue) (stack_rsv : ℕ) (stack_dma : Bool) where
  -- `ppa` is the page that the round found for `lpn`, the one that it had the NAND write, and the one
  -- that `lpn` is mapped to. The device and the time are those behind the two transfers.
  pub record WritesTo (f y : ConvFtl) (lpn completed_time t : ℕ) (ppa : Ppa) : Type 0 where
    pub refilled : ConvFtl
    pub refill : check_and_refill_write_credit cpu_clock q stack_rsv f ≡ ok refilled
    pub found : ConvFtl
    pub finds : write_page_of cpu_clock q stack_rsv stack_dma refilled lpn ≡ ok (found, ppa)
    pub ssd1 : Ssd
    pub t1 : ℕ
    pub writes :
        ssd_advance_nand cpu_clock found.ssd (page_write found completed_time ppa) ≡ ok (ssd1, t1)
    pub buffers : ssd_advance_write_buffer cpu_clock ssd1 t1 (spp found).pgsz ≡ ok (y.ssd, t)
    pub linked : Linked y lpn ppa

  -- When the body of the loop of conv_write returns, in either build, then for one physical page: it is
  -- the page that the body asked for, the NAND write went to it, the logical page is mapped to it, and
  -- it is mapped back; the time returned and the device are those behind the NAND write and the
  -- transfer to the write buffer.
  pub write_lpn-WritesTo :
      (f y : ConvFtl) (lpn completed_time t : ℕ)
      → write_lpn cpu_clock q stack_rsv stack_dma f lpn completed_time ≡ ok (y, t)
      → (ppa : Ppa) × WritesTo f y lpn completed_time t ppa
  unfolding write_lpn
  write_lpn-WritesTo f y lpn completed_time t e =
      let (f1, e1, r1) =
        >>=-eq-ok (check_and_refill_write_credit cpu_clock q stack_rsv f) _ (y, t) e in
      let ((f2, ppa), e2, r2) =
        >>=-eq-ok (write_page_of cpu_clock q stack_rsv stack_dma f1 lpn) _ (y, t) r1 in
      let ((ssd1, t1), e3, r3) =
        >>=-eq-ok (ssd_advance_nand cpu_clock f2.ssd (page_write f2 completed_time ppa)) _ (y, t)
          r2 in
      let ((ssd2, t2), e4, r4) =
        >>=-eq-ok (ssd_advance_write_buffer cpu_clock ssd1 t1 (spp f2).pgsz) _ (y, t) r3 in
      let (f3, e5, r5) = >>=-eq-ok (set_maptbl_ent (set_ssd f2 ssd2) lpn ppa) _ (y, t) r4 in
      let (f4, e6, r6) = >>=-eq-ok (set_rmap_ent f3 lpn ppa) _ (y, t) r5 in
      let (f5, e7, r7) = >>=-eq-ok (advance_of q f4) _ (y, t) r6 in
      let (back, same) = set_rmap-get f3 f4 lpn ppa e6 in
      let forth = set_maptbl-get (set_ssd f2 ssd2) f3 lpn ppa e5 in
      let keeps =
        if-Spares f4 (spp f4).hybrid (advance_write_pointer_da q f4)
          (advance_write_pointer q f4 user_io) (advance_write_pointer_da-Spares q f4)
          (advance_write_pointer-Spares q f4 user_io) f5 e7 in
      let (kept, kept1) = Keeps-get f4 f5 lpn ppa keeps in
      let device : f5.ssd ≡ ssd2 =
        keeps.ssd_eq
        ∙ set_rmap-ssd f3 f4 lpn ppa e6
        ∙ set_maptbl-ssd (set_ssd f2 ssd2) f3 lpn ppa e5 in
      let at_f5 : WritesTo f f5 lpn completed_time t2 ppa = record {
        refilled = f1;
        refill = e1;
        found = f2;
        finds = e2;
        ssd1 = ssd1;
        t1 = t1;
        writes = e3;
        buffers = rw device e4;
        linked = (kept ∙ maptbl-get f3 f4 lpn same ∙ forth, kept1 ∙ back);
      } in
      let final = ok-injective r7 in
      (ppa, subst (λ (x : ConvFtl × ℕ). WritesTo f x.0 lpn completed_time x.1 ppa) final at_f5)
