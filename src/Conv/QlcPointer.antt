-- ===== src/Conv/QlcPointer.antt =====
-- conv_ftl.c: the write pointer of the QLC blocks, which only the hybrid build advances.
pub mod Laws
use nvmevirt_hybrid.Prelude.{ℕ, ◌+◌, ◌%◌, not, leb, ◌==◌, if◌then◌else◌}
use nvmevirt_hybrid.Prelude.Run.{Run, ok, ◌>>=◌, ◌>>◌}
use nvmevirt_hybrid.Ssd.{SsdParams}
use nvmevirt_hybrid.Conv.{ConvFtl, WritePointer, IoType, check_addr, spp, get_wp, put_wp}

-- advance_write_pointer_QLC of the hybrid build; the other builds leave its body out. The checks of
-- `blk`, `pl` and `lun` come before the tests that would wrap them.
unfoldable pub next_qlc_ch : SsdParams → WritePointer → WritePointer
next_qlc_ch sp w =
    if leb (sp.slc_channels + sp.qlc_channels) (w.ch + 1)
    then record w { lun = 0; ch = sp.slc_channels }
    else record w { lun = 0; ch = w.ch + 1 }

unfoldable pub next_qlc_lun : SsdParams → WritePointer → Run WritePointer
unfolding check_addr next_qlc_ch
next_qlc_lun sp w = do
  check_addr (w.lun + 1) sp.qlc_luns_per_ch
  if w.lun + 1 == sp.qlc_luns_per_ch
      then ok (next_qlc_ch sp (record w { pl = 0 }))
      else ok (record w { pl = 0; lun = w.lun + 1 })

unfoldable pub next_qlc_pl : SsdParams → WritePointer → Run WritePointer
unfolding check_addr next_qlc_lun
next_qlc_pl sp w = do
  check_addr (w.pl + 1) sp.pls_per_lun
  if w.pl + 1 == sp.pls_per_lun
      then next_qlc_lun sp (record w { blk = 0 })
      else ok (record w { blk = 0; pl = w.pl + 1 })

unfoldable pub next_qlc_blk : SsdParams → WritePointer → Run WritePointer
unfolding check_addr next_qlc_pl
next_qlc_blk sp w = do
  check_addr (w.blk + 1) sp.qlc_blks_per_pl
  if w.blk + 1 == sp.qlc_blks_per_pl
      then next_qlc_pl sp (record w { pg = 0 })
      else ok (record w { pg = 0; blk = w.blk + 1 })

unfoldable pub step_qlc : SsdParams → WritePointer → Run WritePointer
unfolding check_addr next_qlc_blk
step_qlc sp w = do
  check_addr w.pg sp.qlc_pgs_per_blk
  if not ((w.pg + 1) % sp.qlc_pgs_per_oneshotpg == 0)
      then ok (record w { pg = w.pg + 1 })
      else if w.pg + 1 == sp.qlc_pgs_per_blk
      then next_qlc_blk sp w
      else ok (record w { pg = w.pg + 1 })

unfoldable pub advance_write_pointer_qlc : ConvFtl → IoType → Run ConvFtl
unfolding get_wp put_wp step_qlc
advance_write_pointer_qlc f io_type =
    if (spp f).hybrid
    then (get_wp f io_type >>= λ w. step_qlc (spp f) w >>= λ w1. ok (put_wp f io_type w1))
    else ok f
