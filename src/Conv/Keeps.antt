-- ===== src/Conv/Keeps.antt =====
-- conv_ftl.c: the functions that leave the mapping tables and the device alone.
use nvmevirt_hybrid.Prelude.{
  ℕ, ◌+◌, ◌%◌, ◌≡◌, refl, inl, inr, Bool, true, false, not, Option, Bool-cases, if◌then◌else◌, ◌==◌,
  u32_mod,
}
use nvmevirt_hybrid.Prelude.Run.{
  Run, ok, null_dereference, nvmev_assert, ◌>>=◌, or_fault, >>=-eq-ok, ok-injective,
}
use nvmevirt_hybrid.Conv.{
  ConvFtl, WritePointer, IoType, user_io, gc_io, other_io, Pqueue, spp, get_wp, put_wp, get_wp_da,
  put_wp_da, check_addr, get_lunlm, put_lunlm,
}
use nvmevirt_hybrid.Conv.Lines.{
  next_free_line, get_next_free_line, get_next_free_line_da, retire_line,
}
use nvmevirt_hybrid.Conv.Pointer.{
  line_id, next_line, advance_write_pointer, next_line_da, next_lun, da_luns, da_blks_per_pl,
  da_pgs_per_blk, da_pgs_per_oneshotpg, advance_write_pointer_da,
}

pub record Keeps (f y : ConvFtl) : Type 0 where
  pub maptbl_eq : y.maptbl ≡ f.maptbl
  pub rmap_eq : y.rmap ≡ f.rmap
  pub ssd_eq : y.ssd ≡ f.ssd

pub Keeps-refl : (f : ConvFtl) → Keeps f f
Keeps-refl f = record { maptbl_eq = refl; rmap_eq = refl; ssd_eq = refl }

-- Whatever state the computation returns, it keeps the tables and the device of `f`.
abbrev pub Spares : ConvFtl → Run ConvFtl → Type 0
Spares f m = (y : ConvFtl) → m ≡ ok y → Keeps f y

pub ok-Spares : (f y : ConvFtl) → Keeps f y → Spares f (ok y)
ok-Spares f y k x e = let same = ok-injective e in rw (← same) k

pub >>=-Spares {ℓ} :
    {A : Type ℓ} (f : ConvFtl) (m : Run A) (k : A → Run ConvFtl)
    → ((a : A) → Spares f (k a))
    → Spares f (m >>= k)
>>=-Spares f m k h y e = let (a, is, rest) = >>=-eq-ok m k y e in h a y rest

pub if-Spares :
    (f : ConvFtl) (b : Bool) (m n : Run ConvFtl)
    → Spares f m
    → Spares f n
    → Spares f (if b then m else n)
if-Spares f true m n h k = h
if-Spares f false m n h k = k

put_wp-Keeps : (f : ConvFtl) (io : IoType) (w : WritePointer) → Keeps f (put_wp f io w)
unfolding put_wp
put_wp-Keeps f user_io w = record { maptbl_eq = refl; rmap_eq = refl; ssd_eq = refl }
put_wp-Keeps f gc_io w = record { maptbl_eq = refl; rmap_eq = refl; ssd_eq = refl }
put_wp-Keeps f other_io w = record { maptbl_eq = refl; rmap_eq = refl; ssd_eq = refl }

put_wp_da-Keeps : (f : ConvFtl) (lun : ℕ) (w : WritePointer) → Keeps f (put_wp_da f lun w)
put_wp_da-Keeps f lun w = record { maptbl_eq = refl; rmap_eq = refl; ssd_eq = refl }

next_lun-Keeps : (f y : ConvFtl) → Keeps f y → Keeps f (next_lun y)
unfolding next_lun
next_lun-Keeps f y k =
    let glun = (y.lunpointer + 1) % u32_mod in
    elim (Bool-cases (glun == da_luns (spp y))) [
      | inl last ↦
          rw last (record { maptbl_eq = k.maptbl_eq; rmap_eq = k.rmap_eq; ssd_eq = k.ssd_eq })
      | inr more ↦
          rw more (record { maptbl_eq = k.maptbl_eq; rmap_eq = k.rmap_eq; ssd_eq = k.ssd_eq })
    ]

free_line_da-Keeps :
    (f : ConvFtl) (lun : ℕ) (x : ConvFtl × Option ℕ)
    → get_next_free_line_da f lun ≡ ok x
    → Keeps f x.0
unfolding get_next_free_line_da
free_line_da-Keeps f lun x e =
    let (lm, is, rest) = >>=-eq-ok (get_lunlm f lun) _ x e in
    let same = ok-injective rest in
    rw (← same) (record { maptbl_eq = refl; rmap_eq = refl; ssd_eq = refl })

module _ (q : Pqueue) (f : ConvFtl) where
  next_line-Spares : (io : IoType) (w : WritePointer) → Spares f (next_line q f io w)
  unfolding next_line get_next_free_line
  next_line-Spares io w = >>=-Spares f (or_fault w.curline null_dereference) _ (λ i.
      >>=-Spares f (retire_line q (spp f).pgs_per_line f.lm i) _ (λ lm.
        >>=-Spares f (check_addr w.blk (spp f).blks_per_pl) _ (λ u.
          let (lm1, next) = next_free_line lm in
          >>=-Spares f (line_id lm1 next) _ (λ id.
            >>=-Spares f (check_addr id (spp f).blks_per_pl) _ (λ u1.
              >>=-Spares f (nvmev_assert (w.pl == 0)) _ (λ u2.
                let k = put_wp-Keeps (record f { lm = lm1 }) io _ in
                ok-Spares f _
                  (record { maptbl_eq = k.maptbl_eq; rmap_eq = k.rmap_eq; ssd_eq = k.ssd_eq })))))))

  -- advance_write_pointer keeps the mapping tables and the device.
  pub advance_write_pointer-Spares : (io : IoType) → Spares f (advance_write_pointer q f io)
  unfolding advance_write_pointer
  advance_write_pointer-Spares io =
      let sp = spp f in
      let done : (w : WritePointer) → Spares f (ok (put_wp f io w)) =
        λ w. ok-Spares f (put_wp f io w) (put_wp-Keeps f io w) in
      >>=-Spares f (get_wp f io) _ (λ w. >>=-Spares f (check_addr w.pg sp.pgs_per_blk) _ (λ u.
        if-Spares f (not ((w.pg + 1) % sp.pgs_per_oneshotpg == 0)) _ _ (done _) (
          >>=-Spares f (check_addr w.ch sp.nchs) _ (λ u1.
            if-Spares f (not (w.ch + 1 == sp.nchs)) _ _ (done _) (
              >>=-Spares f (check_addr w.lun sp.luns_per_ch) _ (λ u2.
                if-Spares f (not (w.lun + 1 == sp.luns_per_ch)) _ _ (done _) (
                  if-Spares f (not (w.pg + 1 == sp.pgs_per_blk)) _ _ (done _)
                    (next_line-Spares io w))))))))

  next_line_da-Spares : (w : WritePointer) → Spares f (next_line_da q f w)
  unfolding next_line_da get_next_free_line_da
  next_line_da-Spares w = >>=-Spares f (get_lunlm f f.lunpointer) _ (λ lm.
      >>=-Spares f (or_fault w.curline null_dereference) _ (λ i.
        >>=-Spares f (retire_line q (spp f).pgs_per_lun_line lm i) _ (λ lm1.
          >>=-Spares f (check_addr w.blk (da_blks_per_pl (spp f))) _ (λ u. λ y e.
            let g = put_lunlm f f.lunpointer lm1 in
            let (x, is, rest) = >>=-eq-ok (get_next_free_line_da g f.lunpointer) _ y e in
            let k = free_line_da-Keeps g f.lunpointer x is in
            >>=-Spares f (get_lunlm x.0 f.lunpointer) _
              (λ lm2. >>=-Spares f (line_id lm2 x.1) _ (λ id.
                >>=-Spares f (check_addr id (da_blks_per_pl (spp f))) _ (λ u1.
                  ok-Spares f _
                    (record { maptbl_eq = k.maptbl_eq; rmap_eq = k.rmap_eq; ssd_eq = k.ssd_eq }))))
              y rest))))

  -- advance_write_pointer_DA does too.
  pub advance_write_pointer_da-Spares : Spares f (advance_write_pointer_da q f)
  unfolding advance_write_pointer_da
  advance_write_pointer_da-Spares =
      let sp = spp f in
      >>=-Spares f (get_wp_da f f.lunpointer) _ (λ w.
        >>=-Spares f (check_addr w.pg (da_pgs_per_blk sp)) _ (λ u.
          if-Spares f (not ((w.pg + 1) % da_pgs_per_oneshotpg sp == 0)) _ _
            (ok-Spares f _ (put_wp_da-Keeps f f.lunpointer _))
            (if-Spares f (w.pg + 1 == da_pgs_per_blk sp) _ _
              (λ y e.
                let (f1, is, rest) = >>=-eq-ok (next_line_da q f w) _ y e in
                ok-Spares f _ (next_lun-Keeps f f1 (next_line_da-Spares w f1 is)) y rest)
              (ok-Spares f _ (next_lun-Keeps f _ (put_wp_da-Keeps f f.lunpointer _))))))
