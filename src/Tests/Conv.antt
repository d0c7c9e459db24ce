-- ===== src/Tests/Conv.antt =====
-- Examples for the conventional FTL.
use nvmevirt_hybrid.Prelude.{
  replicate, ℕ, ◌<◌, ◌≡◌, refl, arith, ◌⊎◌, false, none, some, List, get_elem?, length-replicate,
  get_elem?-replicate,
}
use nvmevirt_hybrid.Prelude.Run.{ok, fault, bug_on, ◌>>=◌}
use nvmevirt_hybrid.Ssd.{Ppa}
use nvmevirt_hybrid.Conv.{
  ConvFtl, PageHotness, WritePointer, NandBlock, NandPage, sec_free, pg_free, pg_valid, user_io,
  get_wp, invalid_lpn,
}
use nvmevirt_hybrid.Conv.Address.{set_maptbl_ent, set_rmap_ent}
use nvmevirt_hybrid.Conv.Address.Laws.{InRange, IsMapped, set_maps-IsMapped}
use nvmevirt_hybrid.Conv.Pages.{blk_page_valid, blk_free, ssd_init_nand_blk}
use nvmevirt_hybrid.Conv.Pages.Accounts.{IsBlock, IsMade, blk_page_valid-IsBlock, blk_free-IsBlock}
use nvmevirt_hybrid.Conv.QlcPointer.{step_qlc}
use nvmevirt_hybrid.Conv.QlcPointer.Laws.{StaysOrStops, step_qlc-stays}
use nvmevirt_hybrid.Conv.Pointer.Rank.{rank, SameLine}
use nvmevirt_hybrid.Conv.Pointer.Counter.{advance_times, IsAfter, advance_times-IsAfter}
use nvmevirt_hybrid.Conv.Hotness.{find_entry, init_hotness_tracking}
use nvmevirt_hybrid.Conv.Hotness.Table.{
  IsHashed, IsUsed, Holds, Absent, IsAdded, find_entry-IsHashed,
}
use nvmevirt_hybrid.Conv.Hotness.Laws.{init_hotness_tracking-IsHashed}
use nvmevirt_hybrid.Conv.Init.{conv_init_ftl}
use nvmevirt_hybrid.Conv.Init.Total.{IsInit, conv_init_ftl-IsInit}
use nvmevirt_hybrid.Conv.Io.Write.{write_lpn, write_lpns}
use nvmevirt_hybrid.Conv.Io.Write.Maps.{WritesTo, write_lpn-WritesTo}
use nvmevirt_hybrid.Conv.Io.Write.Step.{CanWrite, IsWritten}
use nvmevirt_hybrid.Conv.Io.Write.Total.{write_lpn-IsWritten}
use nvmevirt_hybrid.Conv.Io.Write.Loop.{AreWritten, write_lpns-AreWritten}
use nvmevirt_hybrid.Conv.Io.Write.Full.{write_lpns-full}
use nvmevirt_hybrid.Tests.{some_clock, some_ssd}
use nvmevirt_hybrid.Tests.Ftl.{
  some_pqueue, plain_params, plain_params-IsConvGeometry, plain_params-IsLineGeometry, wp_at,
  some_block, some_line, some_table, some_conv, some_conv-HasTables, some_conv-CanWrite,
  wp_at-InLine,
}

abbrev page : ℕ → Ppa
page pg = record { pg = pg; blk = 2; pl = 0; lun = 0; ch = 1; rsv = 0 }

page-InRange : (pg : ℕ) → pg < 4 → InRange plain_params (page pg)
page-InRange pg h = record {
  ch_in = omega arith;
  lun_in = omega arith;
  pl_in = omega arith;
  blk_in = omega arith;
  pg_in = h;
}

set_maps-IsMapped_example :
    (y : ConvFtl) × ((set_maptbl_ent some_conv 5 (page 3) >>= λ f1. set_rmap_ent f1 5 (page 3))
      ≡ ok y)
    × IsMapped some_conv y 5 (page 3)
set_maps-IsMapped_example =
    set_maps-IsMapped some_conv plain_params-IsConvGeometry some_conv-HasTables 5 (page 3)
      (omega arith) (page-InRange 3 (omega arith))

abbrev free_page : NandPage
free_page = record { sec = replicate 8 sec_free; nsecs = 8; status = pg_free }

some_block-IsBlock : IsBlock plain_params some_block
some_block-IsBlock = record {
  len = length-replicate 4 (free_page);
  npgs_eq = refl;
  vpc_eq = refl;
  ipc_eq = refl;
  nsecs_eq = λ i p at. ap_nsecs p (get_elem?-replicate 4 i (free_page) p at);
}
  where
    ap_nsecs : (p : NandPage) → p ≡ free_page → p.nsecs ≡ 8
    ap_nsecs p e = λ i. (e i).nsecs

some_block-IsMade : IsMade plain_params some_block
some_block-IsMade = record {
  wp_eq = refl;
  sec_eq = λ i p at. secs p (get_elem?-replicate 4 i (free_page) p at);
}
  where
    secs : (p : NandPage) → p ≡ free_page → p.sec ≡ replicate 8 sec_free
    secs p e = λ i. (e i).sec

blk_page_valid-IsBlock_example :
    (y : NandBlock) × (blk_page_valid plain_params some_block 2 ≡ ok y)
    × (get_elem? y.pg 2 ≡ some (record free_page { status = pg_valid }))
    × IsBlock plain_params y
blk_page_valid-IsBlock_example =
    blk_page_valid-IsBlock plain_params some_block some_block-IsBlock 2 (free_page) refl refl

blk_free-IsBlock_example :
    (blk_free plain_params some_block
      ≡ ok (record (ssd_init_nand_blk plain_params) { erase_cnt = 1 }))
    × IsBlock plain_params (record (ssd_init_nand_blk plain_params) { erase_cnt = 1 })
blk_free-IsBlock_example =
    blk_free-IsBlock plain_params some_block some_block-IsBlock some_block-IsMade

advance_times-IsAfter_example :
    (y : ConvFtl) × (advance_times some_pqueue 7 some_conv user_io ≡ ok y)
    × IsAfter some_pqueue some_conv user_io (wp_at 0 0) 7 y
unfolding get_wp
advance_times-IsAfter_example =
    advance_times-IsAfter some_pqueue some_conv user_io (wp_at 0 0) plain_params-IsLineGeometry 7
      refl (wp_at-InLine 0 (omega arith)) (omega arith)

some_table-IsHashed : IsHashed 4 some_table
unfolding init_hotness_tracking
some_table-IsHashed = init_hotness_tracking-IsHashed some_conv (omega arith) (omega arith)

find_entry-IsHashed_example :
    ((j : ℕ) × (e : PageHotness) × (find_entry 4 some_table 6 ≡ ok (some_table, some j))
      × Holds some_table 6 j e)
    ⊎ (((j : ℕ) × (t1 : List PageHotness) × (find_entry 4 some_table 6 ≡ ok (t1, some j))
          × Absent some_table 6
          × (((u : PageHotness) × Holds some_table invalid_lpn j u)
              × (IsAdded some_table t1 6 j × IsHashed 4 t1)))
        ⊎ ((find_entry 4 some_table 6 ≡ ok (some_table, none))
            × Absent some_table 6
            × ((j : ℕ) → j < 4 → IsUsed some_table j)))
find_entry-IsHashed_example =
    find_entry-IsHashed 4 some_table some_table-IsHashed 6 (λ e. ground arith)

conv_init_ftl-IsInit_example :
    (f : ConvFtl) × (conv_init_ftl some_conv some_conv.cp some_ssd ≡ ok f)
    × IsInit some_conv some_ssd 2 f
conv_init_ftl-IsInit_example =
    conv_init_ftl-IsInit some_conv some_conv.cp some_ssd 2 refl refl (omega arith)

-- One page written.
written :
    (y : ConvFtl) × (t : ℕ) × (v : WritePointer) × (write_lpn some_clock some_pqueue 0 false
        some_conv 9 700
      ≡ ok (y, t))
    × IsWritten some_conv (wp_at 0 0) y 9 v
written =
    write_lpn-IsWritten some_clock some_pqueue 0 false some_conv (wp_at 0 0) 9 700
      some_conv-CanWrite (omega arith) (omega arith)

write_lpn-WritesTo_example :
    (ppa : Ppa) × WritesTo some_clock some_pqueue 0 false some_conv written.0 9 700 written.1 ppa
write_lpn-WritesTo_example =
    write_lpn-WritesTo some_clock some_pqueue 0 false some_conv written.0 9 700 written.1 written.3

write_lpns-AreWritten_example :
    (y : ConvFtl) × (t : ℕ) × (v : WritePointer) × (write_lpns some_clock some_pqueue 0 false 2
        some_conv 9 700
      ≡ ok (y, t))
    × AreWritten plain_params some_conv (wp_at 0 0) 2 9 y
    × CanWrite y v
    × (rank plain_params v ≡ 2)
    × (y.lm ≡ some_conv.lm)
    × SameLine v (wp_at 0 0)
    × (y.ssd.sp ≡ plain_params)
write_lpns-AreWritten_example =
    write_lpns-AreWritten some_clock some_pqueue 0 false plain_params 2 some_conv (wp_at 0 0) 9 700
      refl some_conv-CanWrite (omega arith) (omega arith)

write_lpns-full_example :
    (y : ConvFtl) × (t : ℕ) × (write_lpns some_clock some_pqueue 0 false 7 some_conv 9 700
      ≡ ok (y, t))
    × (write_lpn some_clock some_pqueue 0 false y 16 800 ≡ fault bug_on)
write_lpns-full_example =
    write_lpns-full some_clock some_pqueue 0 false 7 some_conv (wp_at 0 0) 9 700 16 800
      some_conv-CanWrite (omega arith) refl (0, some_line 0, refl, refl, refl, refl) (omega arith)

step_qlc-stays_example : StaysOrStops (wp_at 1 3) (step_qlc plain_params (wp_at 1 3))
step_qlc-stays_example = step_qlc-stays plain_params (wp_at 1 3)
