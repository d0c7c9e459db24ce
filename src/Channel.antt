-- ===== src/Channel.antt =====
-- channel_model.c and channel_model.h: a channel's bandwidth as a ring of credits, one entry for each
-- interval of UNIT_TIME_INTERVAL ns. The entries from `head` on that have been drawn from number
-- `valid_len`. The wall clock is read once in each call and is an argument.
pub mod Loop
pub mod Ring
pub mod Request
use nvmevirt_hybrid.Prelude.{
  ℕ, zero, suc, ◌+◌, ◌-◌, ◌*◌, ◌/◌, ◌%◌, ◌^◌, Bool, true, false, not, ◌&&◌, ltb, leb, ◌==◌,
  if◌then◌else◌, u8_mod, u32_mod, u64_mod, div_round_up,
}
use nvmevirt_hybrid.Prelude.Run.{
  Run, ok, fault, out_of_bounds, bug_on, divide_by_zero, out_of_fuel, ◌>>=◌,
}

abbrev pub nr_credit_entries : ℕ
nr_credit_entries = 98304

abbrev pub unit_time_interval : ℕ
unit_time_interval = 4000

abbrev pub unit_xfer_size : ℕ
unit_xfer_size = 128

-- `avail_credits[i]`; the entries stand at the indices below `nr_credit_entries`.
abbrev pub Credits : Type 0
Credits = ℕ → ℕ

pub record ChannelModel : Type 0 where
  pub cur_time : ℕ
  pub head : ℕ
  pub valid_len : ℕ
  pub max_credits : ℕ
  pub command_credits : ℕ
  pub xfer_lat : ℕ
  pub avail_credits : Credits

-- MEMSET(&credits[start], value, len): bytes, since SIZE_OF_CREDIT_T is 1.
abbrev pub fill : Credits → ℕ → ℕ → ℕ → Credits
fill c start value len i = if leb start i && ltb i (start + len) then value % u8_mod else c i

unfoldable pub memset : Credits → ℕ → ℕ → ℕ → Run Credits
memset c start value len =
    if leb (start + len) nr_credit_entries then ok (fill c start value len) else fault out_of_bounds

-- BANDWIDTH_TO_TX_TIME and BANDWIDTH_TO_MAX_CREDITS, over a 64-bit bandwidth in MB/s.
unfoldable pub bandwidth_to_tx_time : ℕ → ℕ
bandwidth_to_tx_time mb_s = (128 * 1000000000) / ((mb_s * 2 ^ 20) % u64_mod)

unfoldable pub bandwidth_to_max_credits : ℕ → ℕ
bandwidth_to_max_credits mb_s =
    ((((mb_s * 2 ^ 20) % u64_mod) * unit_time_interval) % u64_mod) / 1000000000 / unit_xfer_size

unfoldable pub chmodel_init : ChannelModel → ℕ → Run ChannelModel
unfolding memset bandwidth_to_tx_time bandwidth_to_max_credits
chmodel_init ch bandwidth =
    let credits = bandwidth_to_max_credits bandwidth % u32_mod in
    if (bandwidth * 2 ^ 20) % u64_mod == 0
    then fault divide_by_zero
    else (memset ch.avail_credits 0 credits nr_credit_entries >>= λ filled. ok (record {
      cur_time = 0;
      head = 0;
      valid_len = 0;
      max_credits = credits;
      command_credits = 0;
      xfer_lat = bandwidth_to_tx_time bandwidth % u32_mod;
      avail_credits = filled;
    }))

-- "Search current time index and move head to it": the entries that the time has passed are
-- filled again.
unfoldable pub cur_time_offs : ChannelModel → ℕ → ℕ
cur_time_offs ch cur_time =
    let offs =
      (cur_time / unit_time_interval + u64_mod - ch.cur_time / unit_time_interval) % u32_mod in
    if ltb offs ch.valid_len then offs else ch.valid_len

unfoldable pub refill : ChannelModel → ℕ → Run Credits
unfolding memset
refill ch offs =
    if leb nr_credit_entries ((ch.head + offs) % u32_mod)
    then (do
      first ← memset ch.avail_credits ch.head ch.max_credits (nr_credit_entries - ch.head)
      memset first 0 ch.max_credits (offs - (nr_credit_entries - ch.head)))
    else memset ch.avail_credits ch.head ch.max_credits offs

unfoldable pub move_head : ChannelModel → ℕ → Run ChannelModel
move_head ch cur_time = do
  let offs = cur_time_offs ch cur_time
  filled ← refill ch offs
  let valid_len = ch.valid_len - offs
  if ltb nr_credit_entries valid_len
      then fault bug_on
      else ok (record ch {
        cur_time = cur_time;
        head = ((ch.head + offs) % u32_mod) % nr_credit_entries;
        valid_len = valid_len;
        avail_credits = filled;
      })

-- The variables of the `while (1)` loop that are read behind it.
pub record Drawn : Type 0 where
  pub credits : Credits
  pub remaining_credits : ℕ
  pub pos : ℕ
  pub delay : ℕ

abbrev pub update : Credits → ℕ → ℕ → Credits
update c pos v i = if i == pos then v else c i

-- One round: what the entry at `pos` gives.
abbrev pub draw_at : Drawn → Drawn
draw_at d =
    let consumed =
      if leb d.remaining_credits (d.credits d.pos) then d.remaining_credits else d.credits d.pos in
    record d {
      credits = update d.credits d.pos (d.credits d.pos - consumed);
      remaining_credits = d.remaining_credits - consumed;
    }

-- The loop, with fuel; `head` ends the ring.
unfoldable pub draw : ℕ → ℕ → Drawn → Run Drawn
draw zero head d = fault out_of_fuel
draw (suc fuel) head d =
    let next_pos = (d.pos + 1) % nr_credit_entries in
    let drawn = draw_at d in
    let rest = draw fuel head (record drawn { pos = next_pos; delay = d.delay + 1 }) in
    if drawn.remaining_credits == 0 then ok drawn else if next_pos == head then ok drawn else rest

-- How far behind `head` the position stands in the ring, plus one.
unfoldable pub valid_length : ℕ → ℕ → ℕ
valid_length head pos =
    if leb head pos then pos - head + 1 else nr_credit_entries - (head - pos - 1)

unfoldable pub chmodel_request : ChannelModel → ℕ → ℕ → ℕ → Run (ChannelModel × ℕ)
chmodel_request ch0 cur_time request_time length = do
  let units_to_xfer = div_round_up length unit_xfer_size % u32_mod
  ch ← move_head ch0 cur_time
  let request_time_offs =
      (request_time / unit_time_interval + u64_mod - cur_time / unit_time_interval) % u32_mod
  if ltb request_time cur_time
      then ok (ch, request_time)
      else if leb nr_credit_entries request_time_offs
      then ok (ch, request_time)
      else if ch.max_credits == 0
      then fault divide_by_zero
      else do
        let remaining_credits = (units_to_xfer + ch.command_credits) % u32_mod
        let default_delay = remaining_credits / ch.max_credits
        d ← draw nr_credit_entries ch.head (record {
          credits = ch.avail_credits;
          remaining_credits = remaining_credits;
          pos = ((ch.head + request_time_offs) % u32_mod) % nr_credit_entries;
          delay = 0;
        })
        let len = valid_length ch.head d.pos
        let delay = if ltb default_delay d.delay then d.delay - default_delay else 0
        let total_latency =
            (((ch.xfer_lat * units_to_xfer) % u32_mod) + delay * unit_time_interval) % u64_mod
        ok (
          record ch {
            valid_len = if ltb ch.valid_len len then len else ch.valid_len;
            avail_credits = d.credits;
          },
          (request_time + total_latency) % u64_mod,
        )
