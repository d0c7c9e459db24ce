-- ===== src/Channel/Request.antt =====
-- channel_model.c: chmodel_request as a whole.
use nvmevirt_hybrid.Prelude.{
  ℕ, ◌+◌, ◌-◌, ◌*◌, ◌/◌, ◌%◌, ◌≤◌, ◌<◌, ◌≡◌, ◌≢◌, refl, sym, ◌∙◌, ◌⊎◌, inl, inr, arith, false, ltb,
  leb, ◌==◌, ltb-false, leb-false, ==-false, lt→ltb, le→leb, leb→le, ltb-false→le, leb-false→lt,
  if◌then◌else◌, Bool-cases, u32_mod, u64_mod, div_round_up,
}
use nvmevirt_hybrid.Prelude.Run.{ok}
use nvmevirt_hybrid.Channel.{
  ChannelModel, Drawn, nr_credit_entries, unit_time_interval, unit_xfer_size, valid_length,
  chmodel_request,
}
use nvmevirt_hybrid.Channel.Loop.{dist, Draws, draw_lem}
use nvmevirt_hybrid.Channel.Ring.{IsRing, Moved, move_head_lem}

valid_length-dist :
    (head pos : ℕ)
    → head < nr_credit_entries
    → pos < nr_credit_entries
    → valid_length head pos ≡ dist head pos + 1
unfolding valid_length
valid_length-dist head pos h p = ground arith

-- How many intervals after the clock's the request comes, in 32 bits.
abbrev pub request_offs : ℕ → ℕ → ℕ
request_offs cur_time request_time =
    (request_time / unit_time_interval + u64_mod - cur_time / unit_time_interval) % u32_mod

-- The request falls into the ring: neither in the past nor past its end.
abbrev pub IsNear : ℕ → ℕ → Type 0
IsNear cur_time request_time =
    (cur_time ≤ request_time) × (request_offs cur_time request_time < nr_credit_entries)

abbrev pub units : ℕ → ℕ
units length = div_round_up length unit_xfer_size % u32_mod

-- The loop's variables at its start, in the ring `m`.
abbrev pub start : ChannelModel → ℕ → ℕ → ℕ → Drawn
start m cur_time request_time length = record {
  credits = m.avail_credits;
  remaining_credits = (units length + m.command_credits) % u32_mod;
  pos = ((m.head + request_offs cur_time request_time) % u32_mod) % nr_credit_entries;
  delay = 0;
}

-- The channel behind the loop, and the time at which the transfer ends.
abbrev pub drawn_ring : ChannelModel → Drawn → ChannelModel
drawn_ring m d =
    let len = valid_length m.head d.pos in
    record m {
      valid_len = if ltb m.valid_len len then len else m.valid_len;
      avail_credits = d.credits;
    }

abbrev pub latency : ChannelModel → Drawn → ℕ → ℕ → ℕ
latency m d need length =
    let default_delay = need / m.max_credits in
    let delay = if ltb default_delay d.delay then d.delay - default_delay else 0 in
    (((m.xfer_lat * units length) % u32_mod) + delay * unit_time_interval) % u64_mod

grown_by-valid :
    (m : ChannelModel) (d : Drawn)
    → (m.valid_len ≤ (drawn_ring m d).valid_len)
      × (valid_length m.head d.pos ≤ (drawn_ring m d).valid_len)
grown_by-valid m d = ground arith

drawn_ring-IsRing :
    (m : ChannelModel) (d : Drawn)
    → IsRing m
    → d.pos < nr_credit_entries
    → ((i : ℕ)
        → i < nr_credit_entries
        → dist m.head d.pos < dist m.head i
        → d.credits i ≡ m.avail_credits i)
    → IsRing (drawn_ring m d)
drawn_ring-IsRing m d v inside behind =
    let len = valid_length-dist m.head d.pos v.head_in inside in
    record {
      head_in = v.head_in;
      valid_in = grown_in;
      fresh = λ i hi h. behind i hi (further i h) ∙ v.fresh i hi (older i h);
    }
  where
    len : valid_length m.head d.pos ≡ dist m.head d.pos + 1
    len = valid_length-dist m.head d.pos v.head_in inside

    grown_in : (drawn_ring m d).valid_len ≤ nr_credit_entries
    grown_in = elim (Bool-cases (ltb m.valid_len (valid_length m.head d.pos))) [
      | inl more ↦ rw more (omega (arith, len))
      | inr less ↦ rw less v.valid_in
    ]

    further :
        (i : ℕ) → (drawn_ring m d).valid_len ≤ dist m.head i → dist m.head d.pos < dist m.head i
    further i h = omega (arith, len, grown_by-valid m d, h)

    older : (i : ℕ) → (drawn_ring m d).valid_len ≤ dist m.head i → m.valid_len ≤ dist m.head i
    older i h = omega (arith, grown_by-valid m d, h)

-- What a request that falls into the ring does.
pub record Served (ch : ChannelModel) (now at length : ℕ) (c : ChannelModel) (r : ℕ) : Type 0 where
  pub moved : ChannelModel
  pub by_clock : Moved ch now moved
  pub drawn : Drawn
  pub draws : Draws moved.head (start moved now at length) drawn
  pub ring : c ≡ drawn_ring moved drawn
  pub time :
      r ≡ (at + latency moved drawn (start moved now at length).remaining_credits length) % u64_mod

latency-lt :
    (m : ChannelModel) (d : Drawn) (need length : ℕ)
    → d.delay < nr_credit_entries
    → latency m d need length < 8589934592
latency-lt m d need length short = elim (Bool-cases (ltb (need / m.max_credits) d.delay)) [
  | inl more ↦ rw more (omega arith)
  | inr less ↦ rw less (omega arith)
]

late-ge :
    (m : ChannelModel) (d : Drawn) (need at length : ℕ)
    → at + 8589934592 < u64_mod
    → d.delay < nr_credit_entries
    → at ≤ (at + latency m d need length) % u64_mod
late-ge m d need at length room short = omega (arith, latency-lt m d need length short)

module _ (ch : ChannelModel) (now at length : ℕ) (v : IsRing ch) where
  -- On a ring with credits, a request at or after the clock's time and within the ring's span returns.
  -- It draws its credits from the interval of its time on, as `Draws` says, and ends after the
  -- transfer's own latency and one interval for each that it was held up beyond the default delay.
  pub request_near :
      ch.max_credits ≢ 0
      → IsNear now at
      → (c : ChannelModel) × (r : ℕ) × (chmodel_request ch now at length ≡ ok (c, r))
        × Served ch now at length c r
  unfolding chmodel_request
  request_near pos near =
      let (m, runs, mv) = move_head_lem ch now v in
      let hin = mv.ring.head_in in
      let s = start m now at length in
      let (d, drew, ds) = draw_lem nr_credit_entries m.head s hin (omega arith) (omega arith) in
      let future : ltb at now ≡ false = ltb-false at now near.0 in
      let inside : leb nr_credit_entries (request_offs now at) ≡ false = leb-false _ _ near.1 in
      let live : (m.max_credits == 0) ≡ false = ==-false _ 0 (λ e. pos (sym mv.max_kept ∙ e)) in
      (
        drawn_ring m d,
        (at + latency m d s.remaining_credits length) % u64_mod,
        rw (runs, future, inside, live, drew) refl,
        record { moved = m; by_clock = mv; drawn = d; draws = ds; ring = refl; time = refl },
      )

  -- A request in the past, or past the ring's end, is not held up and takes no credit.
  pub request_far :
      (at < now) ⊎ (nr_credit_entries ≤ request_offs now at)
      → (c : ChannelModel) × (chmodel_request ch now at length ≡ ok (c, at)) × Moved ch now c
  unfolding chmodel_request
  request_far far =
      let (m, runs, mv) = move_head_lem ch now v in
      (
        m,
        rw runs (elim far [
          | inl past ↦ rw (lt→ltb _ _ past) refl
          | inr late ↦ elim (Bool-cases (ltb at now)) [
            | inl past ↦ rw past refl
            | inr future ↦ rw (future, le→leb _ _ late) refl
          ]
        ]),
        mv,
      )

  IsNear-or_far : IsNear now at ⊎ ((at < now) ⊎ (nr_credit_entries ≤ request_offs now at))
  IsNear-or_far = elim (Bool-cases (ltb at now)) [
    | inl past ↦ inr (inl (ground arith))
    | inr future ↦ elim (Bool-cases (leb nr_credit_entries (request_offs now at))) [
      | inl late ↦ inr (inr (leb→le _ _ late))
      | inr near ↦ inl (ltb-false→le _ _ future, leb-false→lt _ _ near)
    ]
  ]

  -- On a ring with credits a request neither leaves the array's bounds, nor trips the assertion,
  -- nor loops: it returns, and what it returns is a ring again, with the same credits an interval,
  -- at the clock's time.
  pub chmodel_request_total :
      ch.max_credits ≢ 0
      → (c : ChannelModel) × (r : ℕ) × (chmodel_request ch now at length ≡ ok (c, r))
        × IsRing c
        × (c.max_credits ≡ ch.max_credits)
        × (c.cur_time ≡ now)
  chmodel_request_total pos = elim IsNear-or_far [
    | inl near ↦
        let (c, r, runs, s) = request_near pos near in
        let m = s.by_clock in
        (
          c,
          r,
          runs,
          rw s.ring (drawn_ring-IsRing s.moved s.drawn m.ring s.draws.inside s.draws.behind),
          rw s.ring m.max_kept,
          rw s.ring m.now,
        )
    | inr far ↦ let (c, runs, m) = request_far far in (c, at, runs, m.ring, m.max_kept, m.now)
  ]

  -- A transfer never ends before it is asked for, as long as the time in ns stays 2^33 below 2^64.
  pub chmodel_request-ge :
      ch.max_credits ≢ 0
      → at + 8589934592 < u64_mod
      → (c : ChannelModel) (r : ℕ) → chmodel_request ch now at length ≡ ok (c, r)
      → at ≤ r
  chmodel_request-ge pos room c r e = elim IsNear-or_far [
    | inl near ↦
        let (c', r', runs, s) = request_near pos near in
        let same : r ≡ r' = cc in
        rw (same, s.time)
          (late-ge s.moved s.drawn _ at length room
            (omega (arith, s.draws.delayed, s.draws.inside, s.by_clock.ring.head_in)))
    | inr far ↦ let (c', runs, m) = request_far far in let same : r ≡ at = cc in omega arith
  ]
