-- ===== src/Channel/Loop.antt =====
-- The `while (1)` loop of chmodel_request: it draws credits from one entry after the other, from
-- the request's own interval on, until the request has its credits or the ring ends.
use nvmevirt_hybrid.Prelude.{
  ℕ, zero, suc, ◌+◌, ◌-◌, ◌%◌, ◌≤◌, ◌<◌, ◌≡◌, ◌⊎◌, ◌≢◌, refl, inl, inr, arith, ◌==◌, Bool-cases,
}
use nvmevirt_hybrid.Prelude.Run.{ok}
use nvmevirt_hybrid.Channel.{Credits, Drawn, nr_credit_entries, update, draw_at, draw}

-- How far behind `head` the entry `i` stands in the ring.
abbrev pub dist : ℕ → ℕ → ℕ
dist head i = (i + nr_credit_entries - head) % nr_credit_entries

-- The credits of the first `n` entries together.
pub total : ℕ → Credits → ℕ
total zero c = 0
total (suc n) c = c n + total n c

total-update_out : (n : ℕ) (c : Credits) (i v : ℕ) → n ≤ i → total n (update c i v) ≡ total n c
unfolding total
total-update_out zero c i v h = refl
total-update_out (suc n) c i v h = ground (arith, total-update_out n c i v)

-- A write trades the old entry for the new one.
total-update :
    (n : ℕ) (c : Credits) (i v : ℕ) → i < n → total n (update c i v) + c i ≡ total n c + v
unfolding total
total-update zero c i v h = elim h [ ]
total-update (suc n) c i v h = ground (arith, total-update n c i v, total-update_out n c i v)

-- What the loop makes of its variables.
pub record Draws (head : ℕ) (d e : Drawn) : Type 0 where
  pub inside : e.pos < nr_credit_entries
  pub onward : dist head d.pos ≤ dist head e.pos
  pub delayed : e.delay + dist head d.pos ≡ d.delay + dist head e.pos
  -- no credit is lost or made up
  pub conserved :
      total nr_credit_entries e.credits + d.remaining_credits
      ≡ total nr_credit_entries d.credits + e.remaining_credits
  -- the loop ends with the request served or at the ring's last entry
  pub ended : (e.remaining_credits ≡ 0) ⊎ (dist head e.pos ≡ nr_credit_entries - 1)
  -- the entries that it has passed are used up
  pub used_up :
      (i : ℕ)
      → i < nr_credit_entries
      → dist head d.pos ≤ dist head i
      → dist head i < dist head e.pos
      → e.credits i ≡ 0
  -- the entries before and behind those that it has visited are left alone
  pub before :
      (i : ℕ) → i < nr_credit_entries → dist head i < dist head d.pos → e.credits i ≡ d.credits i
  pub behind :
      (i : ℕ) → i < nr_credit_entries → dist head e.pos < dist head i → e.credits i ≡ d.credits i

draw_at-conserved :
    (d : Drawn)
    → d.pos < nr_credit_entries
    → total nr_credit_entries (draw_at d).credits + d.remaining_credits
      ≡ total nr_credit_entries d.credits + (draw_at d).remaining_credits
draw_at-conserved d h = ground (
  arith,
  total-update nr_credit_entries d.credits d.pos (d.credits d.pos - d.remaining_credits),
  total-update nr_credit_entries d.credits d.pos (d.credits d.pos - d.credits d.pos),
)

module _ (head : ℕ) (d : Drawn) (head_in : head < nr_credit_entries)
    (pos_in : d.pos < nr_credit_entries) where
  abbrev next : Drawn
  next = record (draw_at d) { pos = (d.pos + 1) % nr_credit_entries; delay = d.delay + 1 }

  stop-Draws :
      ((draw_at d).remaining_credits ≡ 0) ⊎ (dist head d.pos ≡ nr_credit_entries - 1)
      → Draws head d (draw_at d)
  stop-Draws e = record {
    inside = pos_in;
    onward = omega arith;
    delayed = omega arith;
    conserved = draw_at-conserved d pos_in;
    ended = e;
    used_up = λ i hi a b. absurd (omega arith);
    before = λ i hi a. ground arith;
    behind = λ i hi a. ground arith;
  }

  dist-next : (d.pos + 1) % nr_credit_entries ≢ head → dist head next.pos ≡ dist head d.pos + 1
  dist-next on = omega arith

  step-Draws :
      (draw_at d).remaining_credits ≢ 0
      → (d.pos + 1) % nr_credit_entries ≢ head
      → (e : Drawn) → Draws head next e
      → Draws head d e
  step-Draws more on e v =
      let further = dist-next on in
      record {
        inside = v.inside;
        onward = omega (arith, v.onward);
        delayed = omega (arith, v.delayed);
        conserved = omega (arith, v.conserved, draw_at-conserved d pos_in);
        ended = v.ended;
        used_up = λ i hi a b. ground (arith, further, v.used_up i, v.before i, more);
        before = λ i hi a. ground (arith, further, v.before i);
        behind = λ i hi a. ground (arith, further, v.behind i);
      }

-- With fuel for the entries up to the ring's end the loop ends.
pub draw_lem :
    (fuel head : ℕ) (d : Drawn)
    → head < nr_credit_entries
    → d.pos < nr_credit_entries
    → nr_credit_entries - dist head d.pos ≤ fuel
    → (e : Drawn) × (draw fuel head d ≡ ok e) × Draws head d e
unfolding draw
draw_lem zero head d hh hp hf = absurd (omega arith)
draw_lem (suc fuel) head d hh hp hf = elim (Bool-cases ((draw_at d).remaining_credits == 0)) [
  | inl served ↦ (draw_at d, rw served refl, stop-Draws head d hh hp (inl (ground arith)))
  | inr more ↦ elim (Bool-cases ((d.pos + 1) % nr_credit_entries == head)) [
    | inl ends ↦ (draw_at d, rw (more, ends) refl, stop-Draws head d hh hp (inr (ground arith)))
    | inr on ↦
        let on' : (d.pos + 1) % nr_credit_entries ≢ head = ground arith in
        let (e, runs, v) =
          draw_lem fuel head (next head d hh hp) hh (omega arith)
            (omega (arith, dist-next head d hh hp on')) in
        (e, rw (more, on) runs, step-Draws head d hh hp (ground arith) on' e v)
  ]
]
