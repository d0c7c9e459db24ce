-- ===== src/Tests/Simple.antt =====
-- Examples on a device of two I/O units of 4096 bytes.
use nvmevirt_hybrid.Prelude.{◌+◌, ◌≤◌, ◌<◌, ◌≡◌, refl, arith, some, [], ◌∷◌, true}
use nvmevirt_hybrid.Prelude.Run.{ok}
use nvmevirt_hybrid.Simple.{
  IoUnits, io_read, schedule_io_units, schedule_flush, first_unit, delay_of, latency_of,
  trailing_of, simple_proc_nvme_io_cmd, simple_read,
}
use nvmevirt_hybrid.Simple.Laws.{IsUnits, ends_at, schedule_io_units_total}

abbrev two_units : IoUnits
two_units = record {
  nr_io_units = 2;
  io_unit_shift = 12;
  read_delay = 5;
  read_time = 10;
  read_trailing = 1;
  write_delay = 7;
  write_time = 20;
  write_trailing = 2;
  io_unit_stat = 100 ∷ 200 ∷ [];
}

two_units-IsUnits : IsUnits two_units
two_units-IsUnits = record {
  some_units = omega arith;
  units_bound = omega arith;
  shift_ge = omega arith;
  shift_lt = omega arith;
  stats = refl;
}

-- Three units' worth of bytes from the second unit on, behind the work that is there.
reads :
    simple_proc_nvme_io_cmd true 0 two_units (simple_read 8 23) 50
    ≡ ok (record two_units { io_unit_stat = 226 ∷ 235 ∷ [] }, some 235)
unfolding simple_proc_nvme_io_cmd
reads = refl

room : ends_at two_units io_read 8 12288 50 + trailing_of two_units io_read < 1000
unfolding first_unit delay_of latency_of trailing_of
room = omega arith

schedule_io_units_total_example :
    (w : IoUnits) × (schedule_io_units two_units io_read 8 12288 50
      ≡ ok (w, ends_at two_units io_read 8 12288 50))
    × IsUnits w
    × (ends_at two_units io_read 8 12288 50 ≤ schedule_flush w)
schedule_io_units_total_example =
    schedule_io_units_total two_units io_read 8 12288 50 two_units-IsUnits (omega (arith, room))
