-- ===== src/Tests/Device.antt =====
-- Examples on the write buffer, the channel model and the NAND commands.
use nvmevirt_hybrid.Prelude.{ℕ, ◌+◌, ◌≤◌, ◌≡◌, refl, arith, true}
use nvmevirt_hybrid.Prelude.Run.{ok}
use nvmevirt_hybrid.Buffer.{Buffer}
use nvmevirt_hybrid.Channel.{ChannelModel, chmodel_request}
use nvmevirt_hybrid.Channel.Ring.{IsRing}
use nvmevirt_hybrid.Channel.Request.{
  Served, request_near, chmodel_request_total, chmodel_request-ge,
}
use nvmevirt_hybrid.Ssd.{
  Ppa, NandCmd, nand_read, qlc, get_storage_type, get_qlc_region, ssd_advance_nand,
}
use nvmevirt_hybrid.Prelude.{[], ◌∷◌, ◌+◌}
use nvmevirt_hybrid.AppendOnly.{AppendOnly, append_only_allocate, allocate_all}
use nvmevirt_hybrid.AppendOnly.Laws.{allocate_all-disjoint}
use nvmevirt_hybrid.Ssd.Region.{get_qlc_region_last}
use nvmevirt_hybrid.Ssd.Device.{Returns}
use nvmevirt_hybrid.Ssd.Advance.{ssd_advance_nand_total}
use nvmevirt_hybrid.Tests.{
  some_params, fresh_model, fresh_model-IsRing, some_ssd, some_ssd-IsDevice, some_clock,
}

chmodel_request_total_example :
    (c : ChannelModel) × (r : ℕ) × (chmodel_request fresh_model 8000 9000 4096 ≡ ok (c, r))
    × IsRing c
    × (c.max_credits ≡ 16)
    × (c.cur_time ≡ 8000)
chmodel_request_total_example =
    chmodel_request_total fresh_model 8000 9000 4096 fresh_model-IsRing (λ e. ground arith)

request_near_example :
    (c : ChannelModel) × (r : ℕ) × (chmodel_request fresh_model 8000 9000 4096 ≡ ok (c, r))
    × Served fresh_model 8000 9000 4096 c r
request_near_example =
    request_near fresh_model 8000 9000 4096 fresh_model-IsRing (λ e. ground arith)
      (omega arith, omega arith)

-- The outcome of a request.
requested :
    (c : ChannelModel) × (r : ℕ) × (chmodel_request fresh_model 8000 9000 4096 ≡ ok (c, r))
    × Served fresh_model 8000 9000 4096 c r
requested =
    request_near fresh_model 8000 9000 4096 fresh_model-IsRing (λ e. ground arith)
      (omega arith, omega arith)

chmodel_request-ge_example : 9000 ≤ requested.1
chmodel_request-ge_example =
    chmodel_request-ge fresh_model 8000 9000 4096 fresh_model-IsRing (λ e. ground arith)
      (omega arith) requested.0 requested.1 requested.2

abbrev some_page : Ppa
some_page = record { pg = 3; blk = 0; pl = 0; lun = 0; ch = 1; rsv = 0 }

abbrev some_read : NandCmd
some_read = record {
  cmd = nand_read;
  xfer_size = 4096;
  stime = 100;
  interleave_pci_dma = true;
  ppa = some_page;
}

ssd_advance_nand_total_example : Returns some_ssd (ssd_advance_nand some_clock some_ssd some_read)
ssd_advance_nand_total_example =
    ssd_advance_nand_total some_clock some_ssd some_read some_ssd-IsDevice
      (omega arith, omega arith) (omega arith)

get_qlc_region_last_example :
    (get_storage_type some_params some_page ≡ qlc) × (get_qlc_region some_params some_page ≡ 3)
get_qlc_region_last_example =
    get_qlc_region_last some_params some_page refl
      (record {
        pg_in = omega arith;
        blk_in = omega arith;
        pl_in = omega arith;
        lun_in = omega arith;
        ch_in = omega arith;
        rsv_in = omega arith;
      })
      (omega arith) (omega arith) (omega arith)

abbrev some_buffer : Buffer
some_buffer = record { size = 65536; remaining = 8192 }

abbrev some_appends : AppendOnly
some_appends = record { latest = 100; dev_size = 1000; total_written = 100 }

some_offsets :
    allocate_all some_appends (10 ∷ 20 ∷ 30 ∷ []) ≡ (10, 100) ∷ (20, 110) ∷ (30, 130) ∷ []
unfolding allocate_all append_only_allocate
some_offsets = refl

allocate_all-disjoint_example : 100 + 10 ≤ 130
allocate_all-disjoint_example =
    allocate_all-disjoint (10 ∷ 20 ∷ 30 ∷ []) some_appends 0 2 10 100 30 130 (omega arith)
      (omega arith) (rw some_offsets refl) (rw some_offsets refl)
