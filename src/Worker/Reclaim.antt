-- ===== src/Worker/Reclaim.antt =====
-- io.c: __reclaim_completed_reqs.
pub mod Walk
pub mod Laws
use nvmevirt_hybrid.Prelude.{
  ℕ, zero, suc, Bool, true, false, ◌&&◌, not, List, [], ◌∷◌, get_elem?, set, length, leb, ◌==◌,
  if◌then◌else◌,
}
use nvmevirt_hybrid.Prelude.Run.{Run, ok, fault, out_of_bounds, out_of_fuel, ◌>>=◌, ◌>>◌, or_fault}
use nvmevirt_hybrid.Worker.{ProcEntry, ProcInfo, nil, entry_at, put_entry, set_next, set_prev}

abbrev pub is_done : ℕ → ProcEntry → Bool
is_done now e = e.is_completed && (e.is_copied && leb e.nsecs_target now)

-- The walk from `curr` over the entries that are done: the last of them.
unfoldable pub last_done : ℕ → ProcInfo → ℕ → ℕ → Run ℕ
last_done zero pi curr last = fault out_of_fuel
last_done (suc fuel) pi curr last = elim (curr == nil) [
  | true ↦ ok last
  | false ↦ entry_at pi curr >>= λ e.
      let rest = last_done fuel pi e.next curr in
      if is_done pi.proc_io_nsecs e then rest else ok last
]

-- The entries up to `last` move to the end of the free list.
unfoldable pub move_done : ProcInfo → ℕ → ℕ → Run ProcInfo
move_done pi first last = do
  pe ← entry_at pi last
  let p0 = record pi { io_seq = pe.next }
  p1 ← if not (pe.next == nil) then set_prev p0 pe.next nil else ok p0
  p2 ← set_next p1 last nil
  p3 ← set_prev p2 first p2.free_seq_end
  p4 ← set_next p3 p3.free_seq_end first
  ok (record p4 { free_seq_end = last })

-- The loop's body, for one worker.
unfoldable pub reclaim : ProcInfo → Run ProcInfo
unfolding last_done move_done
reclaim pi = do
  last ← last_done (suc (length pi.proc_table)) pi pi.io_seq nil
  if last == nil then ok pi else move_done pi pi.io_seq last

unfoldable pub reclaim_completed_reqs : List ProcInfo → Run (List ProcInfo)
unfolding reclaim
reclaim_completed_reqs [] = ok []
reclaim_completed_reqs (pi ∷ pis) = do p ← reclaim pi; ps ← reclaim_completed_reqs pis; ok (p ∷ ps)
