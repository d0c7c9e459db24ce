-- ===== src/Conv/Init.antt =====
-- conv_ftl.c: the set-up of the conventional FTL.
pub mod Total
use nvmevirt_hybrid.Prelude.{
  ℕ, zero, suc, ◌+◌, ◌*◌, ◌%◌, Bool, true, Option, none, some, List, [], ◌∷◌, replicate, ◌==◌,
  if◌then◌else◌, u32_mod,
}
use nvmevirt_hybrid.Prelude.Run.{Run, ok, fault, ◌>>=◌, ◌>>◌}
use nvmevirt_hybrid.Ssd.{Ssd, SsdParams, Ppa}
use nvmevirt_hybrid.Conv.{
  ConvFtl, ConvParams, WriteFlowControl, WritePointer, LineMgmt, MigrationMgmt, user_io, gc_io,
  invalid_lpn, spp,
}
use nvmevirt_hybrid.Conv.Address.{the_unmapped}
use nvmevirt_hybrid.Conv.Lines.{init_lines, init_lines_da}
use nvmevirt_hybrid.Conv.Pages.{init_blks}
use nvmevirt_hybrid.Conv.Hotness.{init_hotness_tracking}
use nvmevirt_hybrid.Conv.Pointer.{prepare_write_pointer}

abbrev pub null_wp : WritePointer
null_wp = record { curline = none; ch = 0; lun = 0; pg = 0; blk = 0; pl = 0 }

unfoldable pub init_maptbl : ConvFtl → ConvFtl
init_maptbl f = record f { maptbl = replicate (spp f).tt_pgs the_unmapped }

unfoldable pub init_rmap : ConvFtl → ConvFtl
init_rmap f = record f { rmap = replicate (spp f).tt_pgs invalid_lpn }

unfoldable pub init_write_flow_control : ConvFtl → ConvFtl
init_write_flow_control f =
    let pgs = (spp f).pgs_per_line % u32_mod in
    record f { wfc = record { write_credits = pgs; credits_to_refill = pgs } }

unfoldable pub conv_init_params : ConvParams
conv_init_params = record { gc_thres_lines = 2; gc_thres_lines_high = 2; enable_gc_delay = true }

-- conv_init_ftl. `mem` is the memory that the allocations found, with the arrays of `lunlm` and
-- `lunwp` from conv_init_namespace; of the device, ssd_init has made the blocks.
unfoldable pub conv_init_ftl : ConvFtl → ConvParams → Ssd → Run ConvFtl
unfolding init_maptbl init_rmap init_write_flow_control init_blks
conv_init_ftl mem cpp ssd = do
  let f = record mem { ssd = ssd; blks = init_blks ssd.sp; cp = cpp; wp = null_wp; gc_wp = null_wp }
  f1 ← init_lines (init_rmap (init_maptbl f))
  let f2 = init_write_flow_control f1
  f3 ←
      if (spp f2).hybrid
      then (init_lines_da (init_hotness_tracking f2) >>= λ g. ok (record g { lunpointer = 0 }))
      else ok f2
  f4 ← prepare_write_pointer f3 user_io
  prepare_write_pointer f4 gc_io
