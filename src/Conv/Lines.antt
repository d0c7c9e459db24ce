-- ===== src/Conv/Lines.antt =====
-- conv_ftl.c: the lines, their free and full lists and the victims' queue; the set-up of the lines.
use nvmevirt_hybrid.Prelude.{
  ℕ, zero, suc, ◌+◌, ◌-◌, ◌*◌, ◌/◌, Bool, ◌&&◌, not, Option, none, some, List, [], ◌∷◌, ◌++◌,
  get_elem?, set, ltb, leb, ◌==◌, if◌then◌else◌,
}
use nvmevirt_hybrid.Prelude.Run.{Run, ok, out_of_bounds, ◌>>=◌, ◌>>◌, or_fault, nvmev_assert}
use nvmevirt_hybrid.Ssd.{SsdParams, Ppa}
use nvmevirt_hybrid.Conv.{
  ConvFtl, Line, LineMgmt, Pqueue, u32_inc, u32_dec, spp, get_lunlm, put_lunlm,
}

unfoldable pub should_gc : ConvFtl → Bool
should_gc f = leb f.lm.free_line_cnt f.cp.gc_thres_lines

unfoldable pub should_gc_high : ConvFtl → Bool
should_gc_high f = leb f.lm.free_line_cnt f.cp.gc_thres_lines_high

-- list_del_init of a line
unfoldable pub list_del : List ℕ → ℕ → List ℕ
list_del [] i = []
list_del (x ∷ xs) i = let rest = list_del xs i in if x == i then rest else x ∷ rest

unfoldable pub line_at : LineMgmt → ℕ → Run Line
line_at lm i = or_fault (get_elem? lm.lines i) out_of_bounds

unfoldable pub put_line : LineMgmt → ℕ → Line → LineMgmt
put_line lm i l = record lm { lines = set lm.lines i l }

-- The body of init_lines, and that of the loop of init_lines_DA.
unfoldable pub new_lines : ℕ → ℕ → List Line
new_lines zero i = []
new_lines (suc n) i = record { id = i; ipc = 0; vpc = 0; pos = 0 } ∷ new_lines n (suc i)

unfoldable pub new_free_list : ℕ → ℕ → List ℕ
new_free_list zero i = []
new_free_list (suc n) i = i ∷ new_free_list n (suc i)

unfoldable pub init_line_mgmt : SsdParams → Run LineMgmt
unfolding new_lines new_free_list
init_line_mgmt sp =
    nvmev_assert (sp.blks_per_pl == sp.tt_lines)
    >> ok (record {
      lines = new_lines sp.blks_per_pl 0;
      free_line_list = new_free_list sp.blks_per_pl 0;
      victim_line_pq = [];
      full_line_list = [];
      tt_lines = sp.blks_per_pl;
      free_line_cnt = sp.blks_per_pl;
      victim_line_cnt = 0;
      full_line_cnt = 0;
    })

unfoldable pub init_lines : ConvFtl → Run ConvFtl
unfolding init_line_mgmt
init_lines f = do lm ← init_line_mgmt (spp f); ok (record f { lm = lm })

-- The loop over the LUNs; what the array held before does not matter.
unfoldable pub init_luns : SsdParams → ℕ → Run (List LineMgmt)
unfolding init_line_mgmt
init_luns sp zero = ok []
init_luns sp (suc n) = do lm ← init_line_mgmt sp; rest ← init_luns sp n; ok (lm ∷ rest)

unfoldable pub init_lines_da : ConvFtl → Run ConvFtl
unfolding init_luns
init_lines_da f = do
  lms ← init_luns (spp f) ((spp f).luns_per_ch * (spp f).nchs)
  ok (record f { lunlm = lms })

-- The first free line, taken off the list; NULL if there is none.
unfoldable pub next_free_line : LineMgmt → LineMgmt × Option ℕ
next_free_line lm = elim lm.free_line_list [
  | [] ↦ (lm, none)
  | i ∷ rest ↦
      (record lm { free_line_list = rest; free_line_cnt = u32_dec lm.free_line_cnt }, some i)
]

unfoldable pub get_next_free_line : ConvFtl → ConvFtl × Option ℕ
unfolding next_free_line
get_next_free_line f = let (lm, i) = next_free_line f.lm in (record f { lm = lm }, i)

unfoldable pub get_next_free_line_da : ConvFtl → ℕ → Run (ConvFtl × Option ℕ)
unfolding next_free_line
get_next_free_line_da f lun = do
  lm ← get_lunlm f lun
  let (lm1, i) = next_free_line lm
  ok (put_lunlm f lun lm1, i)

-- mark_line_free
unfoldable pub line_free : LineMgmt → ℕ → Run LineMgmt
unfolding line_at put_line
line_free lm i = do
  l ← line_at lm i
  ok (record (put_line lm i (record l { ipc = 0; vpc = 0 })) {
    free_line_list = lm.free_line_list ++ (i ∷ []);
    free_line_cnt = u32_inc lm.free_line_cnt;
  })

unfoldable pub mark_line_free : ConvFtl → Ppa → Run ConvFtl
unfolding line_free
mark_line_free f ppa = do lm ← line_free f.lm ppa.blk; ok (record f { lm = lm })

-- A page of line `i` becomes valid: what mark_page_valid does to the line.
unfoldable pub line_page_valid : SsdParams → LineMgmt → ℕ → Run LineMgmt
unfolding line_at put_line
line_page_valid sp lm i = do
  l ← line_at lm i
  nvmev_assert (ltb l.vpc sp.pgs_per_line)
  ok (put_line lm i (record l { vpc = l.vpc + 1 }))

module _ (q : Pqueue) where
  unfoldable pub insert_victim : LineMgmt → ℕ → LineMgmt
  insert_victim lm i =
      let (lines, pq) = q.pqueue_insert lm.lines lm.victim_line_pq i in
      record lm { lines = lines; victim_line_pq = pq; victim_line_cnt = u32_inc lm.victim_line_cnt }

  -- `pqueue_change_priority` for a line that is queued, `vpc--` for one that is not.
  unfoldable pub line_lose_page : LineMgmt → ℕ → Line → LineMgmt
  unfolding put_line
  line_lose_page lm i l =
      let lm1 = put_line lm i l in
      if l.pos == 0
      then put_line lm i (record l { vpc = l.vpc - 1 })
      else (let (lines, pq) = q.pqueue_change_priority lm1.lines lm1.victim_line_pq (l.vpc - 1) i in
          record lm1 { lines = lines; victim_line_pq = pq })

  unfoldable pub unlist_full : LineMgmt → ℕ → LineMgmt
  unfolding insert_victim list_del
  unlist_full lm i =
      insert_victim
        (record lm {
          full_line_list = list_del lm.full_line_list i;
          full_line_cnt = u32_dec lm.full_line_cnt;
        })
        i

  -- A page of line `i` becomes invalid: what mark_page_invalid does, once to the line of `lm` and
  -- once to that of the LUN.
  unfoldable pub line_page_invalid : SsdParams → LineMgmt → ℕ → Run LineMgmt
  unfolding line_at line_lose_page unlist_full
  line_page_invalid sp lm i = do
    l ← line_at lm i
    nvmev_assert (ltb l.ipc sp.pgs_per_line)
    let was_full_line = l.vpc == sp.pgs_per_line
    if was_full_line then nvmev_assert (l.ipc == 0) else ok tt
    nvmev_assert (ltb 0 l.vpc && leb l.vpc sp.pgs_per_line)
    let lm1 = line_lose_page lm i (record l { ipc = l.ipc + 1 })
    ok (if was_full_line then unlist_full lm1 i else lm1)

  -- The line that a write pointer has filled goes to the full lines or to the victims; `pgs` is the
  -- number of pages of a full line.
  unfoldable pub retire_line : ℕ → LineMgmt → ℕ → Run LineMgmt
  unfolding line_at insert_victim
  retire_line pgs lm i = do
    l ← line_at lm i
    if l.vpc == pgs
        then (nvmev_assert (l.ipc == 0)
            >> ok (record lm {
              full_line_list = lm.full_line_list ++ (i ∷ []);
              full_line_cnt = u32_inc lm.full_line_cnt;
            }))
        else (nvmev_assert (ltb l.vpc pgs) >> nvmev_assert (ltb 0 l.ipc) >> ok (insert_victim lm i))

  -- A line that was picked has left the queue.
  unfoldable pub select_victim : SsdParams → LineMgmt → Bool → Run (LineMgmt × Option ℕ)
  unfolding line_at put_line
  select_victim sp lm force = elim (q.pqueue_peek lm.victim_line_pq) [
    | none ↦ ok (lm, none)
    | some i ↦ line_at lm i >>= λ l.
        if not force && ltb (sp.pgs_per_line / 8) l.vpc
        then ok (lm, none)
        else (let (lines, pq) = q.pqueue_pop lm.lines lm.victim_line_pq in
            let lm1 = record lm { lines = lines; victim_line_pq = pq } in
            line_at lm1 i >>= λ l1. ok (
              record (put_line lm1 i (record l1 { pos = 0 })) {
                victim_line_cnt = u32_dec lm.victim_line_cnt;
              },
              some i,
            ))
  ]

  unfoldable pub select_victim_line : ConvFtl → Bool → Run (ConvFtl × Option ℕ)
  unfolding select_victim
  select_victim_line f force = do
    (lm, i) ← select_victim (spp f) f.lm force
    ok (record f { lm = lm }, i)
