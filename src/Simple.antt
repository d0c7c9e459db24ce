-- ===== src/Simple.antt =====
-- simple_ftl.c: the namespace of a device whose I/O units work in parallel, each with the time at which
-- it is free. A flush waits for all of them.
pub mod Laws
use nvmevirt_hybrid.Prelude.{
  ℕ, zero, suc, ◌+◌, ◌-◌, ◌*◌, ◌/◌, ◌%◌, ◌^◌, min, max, Bool, ◌||◌, Option, none, some, List, [],
  ◌∷◌, get_elem?, set, ltb, leb, ◌==◌, if◌then◌else◌, u32_mod, u64_mod,
}
use nvmevirt_hybrid.Prelude.Run.{
  Run, ok, fault, out_of_bounds, divide_by_zero, out_of_fuel, bad_shift, ◌>>=◌, ◌>>◌, or_fault,
  nvmev_assert,
}

-- The fields of struct nvmev_config that the namespace reads, and the units' times. The array has
-- `nr_io_units` entries.
pub record IoUnits : Type 0 where
  pub nr_io_units : ℕ
  pub io_unit_shift : ℕ
  pub read_delay : ℕ
  pub read_time : ℕ
  pub read_trailing : ℕ
  pub write_delay : ℕ
  pub write_time : ℕ
  pub write_trailing : ℕ
  pub io_unit_stat : List ℕ

pub data IoOpcode : Type 0 where
  io_write io_read io_other : IoOpcode

-- What the opcode decides: the delay, the latency and the trailing time.
unfoldable pub delay_of : IoUnits → IoOpcode → ℕ
delay_of v io_write = v.write_delay
delay_of v io_read = v.read_delay
delay_of v io_other = 0

unfoldable pub latency_of : IoUnits → IoOpcode → ℕ
latency_of v io_write = v.write_time
latency_of v io_read = v.read_time
latency_of v io_other = 0

unfoldable pub trailing_of : IoUnits → IoOpcode → ℕ
trailing_of v io_write = v.write_trailing
trailing_of v io_read = v.read_trailing
trailing_of v io_other = 0

-- The `do` loop of __schedule_io_units: `nr_io_units` is the local count, which matters only while it
-- is above 0, and `size` the size of a unit.
module _ (nr_all size latency trailing : ℕ) where
  unfoldable pub io_rounds : ℕ → List ℕ → ℕ → ℕ → ℕ → ℕ → Run (List ℕ × ℕ)
  io_rounds zero stat io_unit nr_io_units length latest0 = fault out_of_fuel
  io_rounds (suc fuel) stat io_unit nr_io_units length latest0 =
      let latest = (latest0 + latency) % u64_mod in
      let time = if ltb 0 nr_io_units then (latest + trailing) % u64_mod else latest in
      let left = length - min length size in
      let next = (io_unit + 1) % u32_mod in
      let rest =
        io_rounds fuel (set stat io_unit time) (if leb nr_all next then 0 else next)
          (nr_io_units - 1) left latest in
      or_fault (get_elem? stat io_unit) out_of_bounds >>= λ old.
      if ltb 0 left then rest else ok (set stat io_unit time, latest)

-- The unit of the first sector, for a shift that C defines.
unfoldable pub first_unit : IoUnits → ℕ → ℕ
first_unit v lba = ((lba / 2 ^ (v.io_unit_shift - 9)) % v.nr_io_units) % u32_mod

unfoldable pub schedule_io_units : IoUnits → IoOpcode → ℕ → ℕ → ℕ → Run (IoUnits × ℕ)
unfolding io_rounds first_unit delay_of latency_of trailing_of
schedule_io_units v opcode lba length nsecs_start =
    let size = 2 ^ v.io_unit_shift in
    let io_unit = first_unit v lba in
    let nr = min v.nr_io_units (((length + size - 1) % u32_mod) / size) in
    if ltb v.io_unit_shift 9 || leb 31 v.io_unit_shift
    then fault bad_shift
    else if v.nr_io_units == 0
    then fault divide_by_zero
    else or_fault (get_elem? v.io_unit_stat io_unit) out_of_bounds >>= λ busy.
        io_rounds v.nr_io_units size (latency_of v opcode) (trailing_of v opcode) (length + 1)
          v.io_unit_stat io_unit nr length ((max nsecs_start busy + delay_of v opcode) % u64_mod)
        >>= λ (stat, latest). ok (record v { io_unit_stat = stat }, latest)

-- The loop of __schedule_flush, from `latest` on.
unfoldable pub flush_from : ℕ → List ℕ → ℕ
flush_from latest [] = latest
flush_from latest (t ∷ ts) = flush_from (max latest t) ts

unfoldable pub schedule_flush : IoUnits → ℕ
unfolding flush_from
schedule_flush v = flush_from 0 v.io_unit_stat

-- __cmd_io_size; the length has 16 bits.
unfoldable pub cmd_io_size : ℕ → ℕ
cmd_io_size length = (length + 1) * 512

pub data SimpleCommand : Type 0 where
  simple_write simple_read : ℕ → ℕ → SimpleCommand
  simple_flush simple_other : SimpleCommand

-- The units and the time that is written to the answer, if any is; the handler's own result is always
-- true. `optane` is the build's BASE_SSD == INTEL_OPTANE, and `now` the clock's reading.
unfoldable pub simple_proc_nvme_io_cmd :
    Bool → ℕ → IoUnits → SimpleCommand → ℕ → Run (IoUnits × Option ℕ)
unfolding schedule_io_units schedule_flush cmd_io_size
simple_proc_nvme_io_cmd optane csi v cmd now = do
  nvmev_assert (csi == 0)
  nvmev_assert optane
  elim cmd [
    | simple_write slba length ↦ do
      (v1, t) ← schedule_io_units v io_write slba (cmd_io_size length) now
      ok (v1, some t)
    | simple_read slba length ↦ do
      (v1, t) ← schedule_io_units v io_read slba (cmd_io_size length) now
      ok (v1, some t)
    | simple_flush ↦ ok (v, some (schedule_flush v))
    | simple_other ↦ ok (v, none)
  ]
