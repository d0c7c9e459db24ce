-- ===== src/Buffer/Laws.antt =====
-- ssd.c: the accounting of a write buffer.
use nvmevirt_hybrid.Prelude.{
  ℕ, ◌+◌, ◌%◌, ◌≤◌, ◌<◌, ◌≡◌, ap, ◌⊎◌, inl, inr, arith, ltb, Bool-cases, ltb-false→le, ltb-false,
  ltb→lt, u32_mod, u64_mod,
}
use nvmevirt_hybrid.Buffer.{Buffer, buffer_allocate, buffer_release}

-- No more is free than there is.
abbrev pub IsBuffer : Buffer → Type 0
IsBuffer b = (b.remaining ≤ b.size) × (b.size < u64_mod)

-- An allocation of less than 2^32 bytes gives all of them or none. It gives all exactly if so many are
-- free; the free space goes down by what it gives and never exceeds the size.
buffer_allocate_lem :
    (b : Buffer) (size : ℕ)
    → IsBuffer b
    → size < u32_mod
    → IsBuffer (buffer_allocate b size).0
      × ((buffer_allocate b size).0.remaining + (buffer_allocate b size).1 ≡ b.remaining)
      × (((size ≤ b.remaining) × ((buffer_allocate b size).1 ≡ size))
          ⊎ ((b.remaining < size) × ((buffer_allocate b size).1 ≡ 0)))
unfolding buffer_allocate
buffer_allocate_lem b size v small = elim (Bool-cases (ltb b.remaining size)) [
  | inl short ↦
      rw short (omega arith, omega arith, inr (ltb→lt b.remaining size short, omega arith))
  | inr fits ↦
      let room = ltb-false→le b.remaining size fits in
      rw fits (omega arith, omega arith, inl (room, omega arith))
]

-- What an allocation of less than 2^32 bytes has taken, its release gives back.
buffer_release-buffer_allocate :
    (b : Buffer) (size : ℕ)
    → IsBuffer b
    → size < u32_mod
    → buffer_release (buffer_allocate b size).0 (buffer_allocate b size).1 ≡ b
unfolding buffer_allocate buffer_release
buffer_release-buffer_allocate b size v small =
    let left = (buffer_allocate b size).0.remaining + (buffer_allocate b size).1 in
    let same : left % u64_mod ≡ b.remaining = ground (arith, buffer_allocate_lem b size v small) in
    ap (λ x. record b { remaining = x }) same

pub buffer_allocate-fits :
    (b : Buffer) (size : ℕ)
    → size ≤ b.remaining
    → size < u32_mod
    → (buffer_allocate b size).1 ≡ size
unfolding buffer_allocate
buffer_allocate-fits b size fits small = rw (ltb-false b.remaining size fits) (omega arith)
