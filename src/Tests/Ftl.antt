-- ===== src/Tests/Ftl.antt =====
-- A small conventional FTL: two channels of one LUN, four blocks of four pages, in a build that is not
-- hybrid.
use nvmevirt_hybrid.Prelude.{
  ℕ, ◌<◌, refl, arith, true, false, none, some, List, [], ◌∷◌, ◌++◌, get_elem?, replicate,
  length-replicate,
}
use nvmevirt_hybrid.Ssd.{Ssd, SsdParams}
use nvmevirt_hybrid.Ssd.Device.{IsDevice}
use nvmevirt_hybrid.Conv.{
  ConvFtl, Line, LineMgmt, NandBlock, sec_free, pg_free, PageHotness, Pqueue, WritePointer,
  invalid_lpn,
}
use nvmevirt_hybrid.Conv.Address.{the_unmapped}
use nvmevirt_hybrid.Conv.Address.Laws.{IsConvGeometry, HasTables}
use nvmevirt_hybrid.Conv.Pointer.Rank.{IsLineGeometry, InLine}
use nvmevirt_hybrid.Conv.Hotness.{fresh_entry}
use nvmevirt_hybrid.Conv.Io.Write.Step.{CanWrite}
use nvmevirt_hybrid.Tests.{some_params, some_ssd, some_ssd-IsDevice}

-- A queue that is the list of the victims as they came; `pos` is left alone.
abbrev pub some_pqueue : Pqueue
some_pqueue = record {
  pqueue_insert = λ lines pq i. (lines, pq ++ (i ∷ []));
  pqueue_change_priority = λ lines pq pri i. (lines, pq);
  pqueue_peek = λ pq. get_elem? pq 0;
  pqueue_pop = λ lines pq. (lines, elim pq [ [] ↦ [] | i ∷ rest ↦ rest ]);
}

abbrev pub plain_params : SsdParams
plain_params = record some_params { hybrid = false }

abbrev pub plain_ssd : Ssd
plain_ssd = record some_ssd { sp = plain_params }

pub plain_ssd-IsDevice : IsDevice plain_ssd
plain_ssd-IsDevice = record {
  nchs_eq = some_ssd-IsDevice.nchs_eq;
  channels = some_ssd-IsDevice.channels;
  pcie = some_ssd-IsDevice.pcie;
  xfer_pos = some_ssd-IsDevice.xfer_pos;
}

abbrev pub some_line : ℕ → Line
some_line i = record { id = i; ipc = 0; vpc = 0; pos = 0 }

abbrev pub some_lm : LineMgmt
some_lm = record {
  lines = some_line 0 ∷ some_line 1 ∷ some_line 2 ∷ some_line 3 ∷ [];
  free_line_list = 2 ∷ 3 ∷ [];
  victim_line_pq = [];
  full_line_list = [];
  tt_lines = 4;
  free_line_cnt = 2;
  victim_line_cnt = 0;
  full_line_cnt = 0;
}

abbrev pub wp_at : ℕ → ℕ → WritePointer
wp_at line pg = record { curline = some line; ch = 0; lun = 0; pg = pg; blk = line; pl = 0 }

abbrev pub some_block : NandBlock
some_block = record {
  pg = replicate 4 (record { sec = replicate 8 sec_free; nsecs = 8; status = pg_free });
  npgs = 4;
  ipc = 0;
  vpc = 0;
  erase_cnt = 0;
  wp = 0;
}

abbrev pub some_table : List PageHotness
some_table = replicate 4 (fresh_entry invalid_lpn)

abbrev pub some_conv : ConvFtl
some_conv = record {
  ssd = plain_ssd;
  blks = replicate 8 some_block;
  cp = record { gc_thres_lines = 2; gc_thres_lines_high = 2; enable_gc_delay = true };
  maptbl = replicate 32 the_unmapped;
  rmap = replicate 32 invalid_lpn;
  wp = wp_at 0 0;
  gc_wp = wp_at 1 0;
  lm = some_lm;
  wfc = record { write_credits = 8; credits_to_refill = 8 };
  lunlm = some_lm ∷ some_lm ∷ [];
  lunwp = some (wp_at 0 3) ∷ none ∷ [];
  lunpointer = 0;
  migration_mgmt = record {
    hotness_table = some_table;
    hotness_table_size = 4;
    hot_threshold = 10;
    cold_threshold = 1;
    migration_interval = 100;
    last_migration_check = 0;
    max_migrations_per_check = 2;
    current_migrations = 0;
  };
  total_slc_pages = 8;
  used_slc_pages = 0;
  total_qlc_pages = 24;
  used_qlc_pages = 0;
}

pub plain_params-IsConvGeometry : IsConvGeometry plain_params
plain_params-IsConvGeometry = record {
  pl_eq = refl;
  lun_eq = refl;
  ch_eq = refl;
  tt_eq = refl;
  tt_in = omega arith;
}

pub plain_params-IsLineGeometry : IsLineGeometry plain_params
plain_params-IsLineGeometry = record {
  wordlines = 4;
  oneshot_pos = omega arith;
  blk_eq = refl;
  line_eq = refl;
  pgs_in = omega arith;
  nchs_in = omega arith;
  luns_in = omega arith;
}

pub some_conv-HasTables : HasTables some_conv
some_conv-HasTables = record {
  maptbl_len = length-replicate 32 the_unmapped;
  rmap_len = length-replicate 32 invalid_lpn;
}

pub wp_at-InLine : (pg : ℕ) → pg < 4 → InLine plain_params (wp_at 0 pg)
wp_at-InLine pg h = record { pg_in = h; ch_in = omega arith; lun_in = omega arith }

pub some_conv-CanWrite : CanWrite some_conv (wp_at 0 0)
some_conv-CanWrite = record {
  plain = refl;
  geometry = plain_params-IsConvGeometry;
  line = plain_params-IsLineGeometry;
  fits = record {
    chs = omega arith;
    luns = omega arith;
    pls = omega arith;
    blks = omega arith;
    pgs = omega arith;
  };
  tables = some_conv-HasTables;
  device = plain_ssd-IsDevice;
  at = refl;
  in_line = wp_at-InLine 0 (omega arith);
  blk_in = omega arith;
  pl_in = omega arith;
  credits = λ e. ground arith;
}
