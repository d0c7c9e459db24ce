-- ===== src/Simple/Laws.antt =====
-- simple_ftl.c: when a read or a write ends, and the flush behind it.
use nvmevirt_hybrid.Prelude.{
  ℕ, zero, suc, ◌+◌, ◌-◌, ◌*◌, ◌/◌, ◌%◌, ◌^◌, ◌≤◌, ◌<◌, ◌≡◌, refl, ◌∙◌, ◌⊎◌, inl, inr, arith, min,
  max, true, false, some, List, [], ◌∷◌, length, get_elem?, get_or, set, ltb, leb, ◌==◌,
  if◌then◌else◌, length-set, some_injective, lt-length→get_elem?, ltb-false, lt→ltb, leb-false,
  u32_mod, u64_mod,
}
use native.Mathlib.Nat.{le-mul_of_pos_right, add-mul, mul_comm, div-add-mod, mod-lt}
use nvmevirt_hybrid.Prelude.Div.{mod_small, lt-trichotomy}
use nvmevirt_hybrid.Prelude.Run.{Run, ok}
use nvmevirt_hybrid.Simple.{
  IoUnits, IoOpcode, delay_of, latency_of, trailing_of, io_rounds, first_unit, schedule_io_units,
  flush_from, schedule_flush,
}

flush_from-ge : (ts : List ℕ) (l : ℕ) → l ≤ flush_from l ts
unfolding flush_from
flush_from-ge [] l = omega arith
flush_from-ge (t ∷ ts) l = omega (arith, flush_from-ge ts (max l t))

-- A flush waits for a unit whose time was just set.
flush_from-set : (ts : List ℕ) (l i t : ℕ) → i < length ts → t ≤ flush_from l (set ts i t)
unfolding flush_from
flush_from-set [] l i t h = absurd (omega (arith, h))
flush_from-set (x ∷ ts) l zero t h = omega (arith, flush_from-ge ts (max l t))
flush_from-set (x ∷ ts) l (suc i) t h = flush_from-set ts (max l x) i t (omega (arith, h))

flush_from_trans :
    (ts : List ℕ) (l i t s : ℕ) → i < length ts → t ≤ s → t ≤ flush_from l (set ts i s)
flush_from_trans ts l i t s h le = omega (arith, flush_from-set ts l i s h, le)

module _ (nr_all size latency trailing : ℕ) where
  -- What the loop makes of the units, for an end at `t`.
  abbrev Served : Run (List ℕ × ℕ) → ℕ → Type 0
  Served m t =
      (stat : List ℕ) × (m ≡ ok (stat, t)) × (length stat ≡ nr_all) × (t ≤ flush_from 0 stat)

  -- The last round, which leaves nothing, and one that leaves something.
  time_of : ℕ → ℕ → ℕ
  time_of nr latest = if ltb 0 nr then (latest + trailing) % u64_mod else latest

  time_of-ge : (nr latest : ℕ) → latest + trailing < u64_mod → latest ≤ time_of nr latest
  unfolding time_of
  time_of-ge nr latest h = ground arith

  next_of : ℕ → ℕ
  next_of u = if leb nr_all ((u + 1) % u32_mod) then 0 else (u + 1) % u32_mod

  next_of-lt : (u : ℕ) → 0 < nr_all → next_of u < nr_all
  unfolding next_of
  next_of-lt u h = ground arith

  -- One round, for a unit of the device and times below 2^64.
  io_rounds_step :
      (fuel : ℕ) (stat : List ℕ) (u nr len latest : ℕ)
      → u < length stat
      → latest + latency < u64_mod
      → io_rounds nr_all size latency trailing (suc fuel) stat u nr len latest ≡ (
          if ltb 0 (len - min len size)
          then io_rounds nr_all size latency trailing fuel
              (set stat u (time_of nr (latest + latency)))
              (next_of u)
              (nr - 1)
              (len - min len size)
              (latest + latency)
          else ok (set stat u (time_of nr (latest + latency)), latest + latency))
  unfolding io_rounds time_of next_of
  io_rounds_step fuel stat u nr len latest h room =
      let (old, at) = lt-length→get_elem? stat u h in
      rw (mod_small (latest + latency) u64_mod room, at) refl

  io_rounds_lem :
      (k fuel : ℕ) (stat : List ℕ) (u nr len latest : ℕ)
      → k < fuel
      → 0 < nr_all
      → length stat ≡ nr_all
      → u < nr_all
      → len ≤ (k + 1) * size
      → (k ≡ 0) ⊎ (k * size < len)
      → latest + (k + 1) * latency + trailing < u64_mod
      → Served
          (io_rounds nr_all size latency trailing fuel stat u nr len latest)
          (latest + (k + 1) * latency)
  io_rounds_lem k zero stat u nr len latest h pos n_eq u_lt le more room = absurd (omega (arith, h))
  io_rounds_lem zero (suc fuel) stat u nr len latest h pos n_eq u_lt le more room =
      let u_in : u < length stat = omega (arith, n_eq, u_lt) in
      let t = latest + latency in
      let t_eq : latest + (0 + 1) * latency ≡ t = omega arith in
      let step = io_rounds_step fuel stat u nr len latest u_in (omega (arith, room)) in
      let last : ltb 0 (len - min len size) ≡ false =
        ltb-false 0 (len - min len size) (omega (arith, le)) in
      rw (t_eq, step, last)
        (
          set stat u (time_of nr t),
          refl,
          length-set stat u (time_of nr t) ∙ n_eq,
          flush_from_trans stat 0 u t (time_of nr t) u_in (time_of-ge nr t (omega (arith, room))),
        )
  io_rounds_lem (suc k) (suc fuel) stat u nr len latest h pos n_eq u_lt le more room =
      let u_in : u < length stat = omega (arith, n_eq, u_lt) in
      let t = latest + latency in
      let left = len - min len size in
      let t_eq : latest + (suc k + 1) * latency ≡ t + (k + 1) * latency = omega arith in
      let step = io_rounds_step fuel stat u nr len latest u_in (omega (arith, room)) in
      let some_left : (suc k) * size < len = elim more [
        | inl e ↦ absurd (omega (arith, e))
        | inr r ↦ r
      ] in
      let goes : ltb 0 left ≡ true = lt→ltb 0 left (omega (arith, some_left)) in
      rw (t_eq, step, goes)
        (io_rounds_lem k fuel (set stat u (time_of nr t)) (next_of u) (nr - 1) left t
          (omega (arith, h)) pos (length-set stat u (time_of nr t) ∙ n_eq) (next_of-lt u pos)
          (omega (arith, le)) (inr (omega (arith, some_left))) (omega (arith, room, t_eq)))

two_pow-pos : (n : ℕ) → 0 < 2 ^ n
two_pow-pos zero = omega arith
two_pow-pos (suc n) = omega (arith, two_pow-pos n)

-- Rounds of the loop behind the first one, for `len` bytes.
abbrev pub more_rounds : ℕ → ℕ → ℕ
more_rounds len size = (len - 1) / size

more_rounds_lem :
    (len size : ℕ)
    → 0 < size
    → (len ≤ (more_rounds len size + 1) * size)
      × ((more_rounds len size ≡ 0) ⊎ (more_rounds len size * size < len))
      × (more_rounds len size < len + 1)
more_rounds_lem len size pos =
    let k = more_rounds len size in
    let whole = div-add-mod (len - 1) size in
    let below : (len - 1) % size < size = mod-lt (len - 1) pos in
    let least : k ≤ k * size = le-mul_of_pos_right k pos in
    (
      omega (arith, whole, below, mul_comm k size, add-mul k 1 size),
      elim (lt-trichotomy k 0) [
        | inl lt ↦ absurd (omega (arith, lt))
        | inr (inl e) ↦ inl e
        | inr (inr gt) ↦ inr (omega (arith, whole, below, mul_comm k size, least, gt))
      ],
      omega (arith, whole, least, mul_comm k size),
    )

-- A device whose units have their times, with a unit size that C can shift to.
pub record IsUnits (v : IoUnits) : Type 0 where
  pub some_units : 0 < v.nr_io_units
  pub units_bound : v.nr_io_units < u32_mod
  pub shift_ge : 9 ≤ v.io_unit_shift
  pub shift_lt : v.io_unit_shift < 31
  pub stats : length v.io_unit_stat ≡ v.nr_io_units

-- The time that the command's first unit is free.
abbrev pub busy_until : IoUnits → ℕ → ℕ
busy_until v lba = get_or v.io_unit_stat (first_unit v lba) 0

-- The end of a command, without wrapping.
abbrev pub ends_at : IoUnits → IoOpcode → ℕ → ℕ → ℕ → ℕ
ends_at v opcode lba len now =
    max now (busy_until v lba)
    + delay_of v opcode
    + (more_rounds len (2 ^ v.io_unit_shift) + 1) * latency_of v opcode

get_or-at : (ts : List ℕ) (i t d : ℕ) → get_elem? ts i ≡ some t → get_or ts i d ≡ t
get_or-at [] i t d h = cc
get_or-at (x ∷ ts) zero t d h = some_injective h
get_or-at (x ∷ ts) (suc i) t d h = get_or-at ts i t d h

-- A command to a device in order returns. It ends when its first unit is free, or at once, plus the
-- delay and a latency for each unit's worth of its bytes, at least one; the device stays in order, and a flush
-- right behind the command does not end before it.
pub schedule_io_units_total :
    (v : IoUnits) (opcode : IoOpcode) (lba len now : ℕ)
    → IsUnits v
    → ends_at v opcode lba len now + trailing_of v opcode < u64_mod
    → (w : IoUnits) × (schedule_io_units v opcode lba len now
        ≡ ok (w, ends_at v opcode lba len now))
      × IsUnits w
      × (ends_at v opcode lba len now ≤ schedule_flush w)
unfolding schedule_io_units schedule_flush first_unit
schedule_io_units_total v opcode lba len now d room =
    let size = 2 ^ v.io_unit_shift in
    let u = ((lba / 2 ^ (v.io_unit_shift - 9)) % v.nr_io_units) % u32_mod in
    let digit : (lba / 2 ^ (v.io_unit_shift - 9)) % v.nr_io_units < v.nr_io_units =
      mod-lt (lba / 2 ^ (v.io_unit_shift - 9)) d.some_units in
    let u_lt : u < v.nr_io_units = omega (arith, digit) in
    let (busy, at) = lt-length→get_elem? v.io_unit_stat u (omega (arith, d.stats, u_lt)) in
    let k = more_rounds len size in
    let start = max now busy + delay_of v opcode in
    let nr = min v.nr_io_units (((len + size - 1) % u32_mod) / size) in
    let first : get_or v.io_unit_stat u 0 ≡ busy = get_or-at v.io_unit_stat u busy 0 at in
    let t_eq : ends_at v opcode lba len now ≡ start + (k + 1) * latency_of v opcode =
      rw first refl in
    let room1 : start + (k + 1) * latency_of v opcode + trailing_of v opcode < u64_mod =
      rw (← t_eq) room in
    let (fits, more, enough) = more_rounds_lem len size (two_pow-pos v.io_unit_shift) in
    let (stat, e, n, waits) =
      io_rounds_lem v.nr_io_units size (latency_of v opcode) (trailing_of v opcode) k (len + 1)
        v.io_unit_stat u nr len start enough d.some_units d.stats u_lt fits more room1 in
    let shift_ok : ltb v.io_unit_shift 9 ≡ false = ltb-false v.io_unit_shift 9 d.shift_ge in
    let shift_ok1 : leb 31 v.io_unit_shift ≡ false = leb-false 31 v.io_unit_shift d.shift_lt in
    let units : (v.nr_io_units == 0) ≡ false = ground (arith, d.some_units) in
    let small : start % u64_mod ≡ start = mod_small start u64_mod (omega (arith, room1)) in
    rw (first, shift_ok, shift_ok1, units, at, small, e)
      (
        record v { io_unit_stat = stat },
        refl,
        record {
          some_units = d.some_units;
          units_bound = d.units_bound;
          shift_ge = d.shift_ge;
          shift_lt = d.shift_lt;
          stats = n;
        },
        waits,
      )
