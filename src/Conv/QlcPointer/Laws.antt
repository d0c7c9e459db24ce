-- ===== src/Conv/QlcPointer/Laws.antt =====
-- conv_ftl.c: how far advance_write_pointer_QLC gets.
use nvmevirt_hybrid.Prelude.{
  ℕ, ◌+◌, ◌%◌, ◌<◌, ◌≡◌, refl, arith, ◌⊎◌, inl, inr, Bool-cases, ltb, ==-false, ◌==◌,
}
use nvmevirt_hybrid.Prelude.Run.{Run, ok, fault, bug_on}
use nvmevirt_hybrid.Ssd.{SsdParams}
use nvmevirt_hybrid.Conv.{WritePointer, check_addr}
use nvmevirt_hybrid.Conv.QlcPointer.{step_qlc, next_qlc_blk}

-- The pointer's plane, LUN and channel.
abbrev pub SamePlane : WritePointer → WritePointer → Type 0
SamePlane v w = (v.pl ≡ w.pl) × (v.lun ≡ w.lun) × (v.ch ≡ w.ch)

abbrev pub StaysOrStops : WritePointer → Run WritePointer → Type 0
StaysOrStops w m = (m ≡ fault bug_on) ⊎ ((v : WritePointer) × (m ≡ ok v) × SamePlane v w)

check_addr-cases :
    (a m : ℕ) → ((a < m) × (check_addr a m ≡ ok tt)) ⊎ (check_addr a m ≡ fault bug_on)
unfolding check_addr
check_addr-cases a m = elim (Bool-cases (ltb a m)) [
  | inl lt ↦ elim (Bool-cases (ltb m 2147483648)) [
    | inl small ↦ inl (ground (arith, lt), rw (lt, small) refl)
    | inr big ↦ inr (rw (lt, big) refl)
  ]
  | inr ge ↦ inr (rw ge refl)
]

next_qlc_blk-stays : (sp : SsdParams) (w : WritePointer) → StaysOrStops w (next_qlc_blk sp w)
unfolding next_qlc_blk
next_qlc_blk-stays sp w = elim (check_addr-cases (w.blk + 1) sp.qlc_blks_per_pl) [
  | inl (below, passes) ↦ inr (
    record w { pg = 0; blk = w.blk + 1 },
    rw (passes, ==-false (w.blk + 1) sp.qlc_blks_per_pl (λ e. omega (arith, below, e))) refl,
    (refl, refl, refl),
  )
  | inr stops ↦ inl (rw stops refl)
]

-- In the hybrid build, a step of the QLC write pointer, from any position and for any parameters,
-- either trips an assertion or returns a pointer in the same plane, LUN and channel.
pub step_qlc-stays : (sp : SsdParams) (w : WritePointer) → StaysOrStops w (step_qlc sp w)
unfolding step_qlc
step_qlc-stays sp w = elim (check_addr-cases w.pg sp.qlc_pgs_per_blk) [
  | inl (below, passes) ↦ elim (Bool-cases ((w.pg + 1) % sp.qlc_pgs_per_oneshotpg == 0)) [
    | inl whole ↦ elim (Bool-cases (w.pg + 1 == sp.qlc_pgs_per_blk)) [
      | inl last ↦ rw (passes, whole, last) (next_qlc_blk-stays sp w)
      | inr more ↦
          inr (record w { pg = w.pg + 1 }, rw (passes, whole, more) refl, (refl, refl, refl))
    ]
    | inr inside ↦ inr (record w { pg = w.pg + 1 }, rw (passes, inside) refl, (refl, refl, refl))
  ]
  | inr stops ↦ inl (rw stops refl)
]
