-- ===== src/Channel/Ring.antt =====
-- The ring between two requests, and the refilling of the entries that the clock has passed.
use nvmevirt_hybrid.Prelude.{
  ℕ, ◌+◌, ◌-◌, ◌*◌, ◌%◌, ◌^◌, ◌≤◌, ◌<◌, ◌≡◌, refl, inl, inr, arith, ltb, leb, ◌==◌, Bool-cases, ◌≢◌,
  false, u8_mod, u32_mod, u64_mod,
}
use nvmevirt_hybrid.Prelude.Run.{ok}
use nvmevirt_hybrid.Channel.{
  ChannelModel, Credits, nr_credit_entries, fill, bandwidth_to_max_credits, bandwidth_to_tx_time,
  chmodel_init, cur_time_offs, refill, move_head,
}
use nvmevirt_hybrid.Channel.Loop.{dist}

-- The entries behind the `valid_len` ones from `head` on hold all their credits.
pub record IsRing (ch : ChannelModel) : Type 0 where
  pub head_in : ch.head < nr_credit_entries
  pub valid_in : ch.valid_len ≤ nr_credit_entries
  pub fresh :
      (i : ℕ)
      → i < nr_credit_entries
      → ch.valid_len ≤ dist ch.head i
      → ch.avail_credits i ≡ ch.max_credits % u8_mod

-- chmodel_init, for a bandwidth whose bytes a second are not 0 in 64 bits, returns a ring that has not
-- been drawn from.
chmodel_init-IsRing :
    (ch : ChannelModel) (bandwidth : ℕ)
    → (bandwidth * 2 ^ 20) % u64_mod ≢ 0
    → (c : ChannelModel) × (chmodel_init ch bandwidth ≡ ok c) × IsRing c × (c.valid_len ≡ 0)
unfolding chmodel_init
chmodel_init-IsRing ch bandwidth h =
    let live : ((bandwidth * 2 ^ 20) % u64_mod == 0) ≡ false = ground arith in
    let credits = bandwidth_to_max_credits bandwidth % u32_mod in
    (
      record {
        cur_time = 0;
        head = 0;
        valid_len = 0;
        max_credits = credits;
        command_credits = 0;
        xfer_lat = bandwidth_to_tx_time bandwidth % u32_mod;
        avail_credits = fill ch.avail_credits 0 credits nr_credit_entries;
      },
      rw live refl,
      record { head_in = omega arith; valid_in = omega arith; fresh = λ i hi h. ground arith },
      refl,
    )

cur_time_offs-le : (ch : ChannelModel) (t : ℕ) → cur_time_offs ch t ≤ ch.valid_len
unfolding cur_time_offs
cur_time_offs-le ch t = ground arith

-- Refilling meets the array's bounds, fills the entries passed and leaves the others.
refill_lem :
    (ch : ChannelModel) (offs : ℕ)
    → ch.head < nr_credit_entries
    → offs ≤ nr_credit_entries
    → (c : Credits) × (refill ch offs ≡ ok c)
      × ((i : ℕ) → i < nr_credit_entries → dist ch.head i < offs → c i ≡ ch.max_credits % u8_mod)
      × ((i : ℕ) → i < nr_credit_entries → offs ≤ dist ch.head i → c i ≡ ch.avail_credits i)
unfolding refill
refill_lem ch offs hh ho = elim (Bool-cases (leb nr_credit_entries ((ch.head + offs) % u32_mod))) [
  | inl wraps ↦
      let room = nr_credit_entries - ch.head in
      (
        fill (fill ch.avail_credits ch.head ch.max_credits room) 0 ch.max_credits (offs - room),
        rw wraps (ground arith),
        λ i hi h. ground arith,
        λ i hi h. ground arith,
      )
  | inr fits ↦ (
    fill ch.avail_credits ch.head ch.max_credits offs,
    rw fits (ground arith),
    λ i hi h. ground arith,
    λ i hi h. ground arith,
  )
]

-- What moving the head keeps.
pub record Moved (ch : ChannelModel) (t : ℕ) (c : ChannelModel) : Type 0 where
  pub ring : IsRing c
  pub now : c.cur_time ≡ t
  pub shorter : c.valid_len ≤ ch.valid_len
  pub max_kept : c.max_credits ≡ ch.max_credits
  pub command_kept : c.command_credits ≡ ch.command_credits
  pub xfer_kept : c.xfer_lat ≡ ch.xfer_lat

pub move_head_lem :
    (ch : ChannelModel) (t : ℕ)
    → IsRing ch
    → (c : ChannelModel) × (move_head ch t ≡ ok c) × Moved ch t c
unfolding move_head
move_head_lem ch t v =
    let offs = cur_time_offs ch t in
    let le = cur_time_offs-le ch t in
    let vin = v.valid_in in
    let (filled, runs, again, kept) = refill_lem ch offs v.head_in (omega arith) in
    let small : ltb nr_credit_entries (ch.valid_len - offs) ≡ false = ground arith in
    (
      record ch {
        cur_time = t;
        head = ((ch.head + offs) % u32_mod) % nr_credit_entries;
        valid_len = ch.valid_len - offs;
        avail_credits = filled;
      },
      rw (runs, small) refl,
      record {
        ring = record {
          head_in = omega arith;
          valid_in = omega arith;
          fresh = λ i hi h. ground (arith, again i, kept i, v.fresh i);
        };
        now = refl;
        shorter = omega arith;
        max_kept = refl;
        command_kept = refl;
        xfer_kept = refl;
      },
    )
