-- ===== src/Buffer.antt =====
-- ssd.c, from buffer_init to buffer_refill: the write buffers. Each operation runs under the buffer's spin lock and is
-- one step here; a `size_t` has 64 bits, and buffer_allocate hands its result on in 32.
pub mod Laws
use nvmevirt_hybrid.Prelude.{ℕ, ◌+◌, ◌-◌, ◌%◌, ltb, if◌then◌else◌, u32_mod, u64_mod}

pub record Buffer : Type 0 where
  pub size : ℕ
  pub remaining : ℕ

unfoldable pub buffer_init : ℕ → Buffer
buffer_init size = record { size = size; remaining = size }

unfoldable pub buffer_allocate : Buffer → ℕ → Buffer × ℕ
buffer_allocate buf size =
    let size' = if ltb buf.remaining size then 0 else size in
    (record buf { remaining = buf.remaining - size' }, size' % u32_mod)

unfoldable pub buffer_release : Buffer → ℕ → Buffer
buffer_release buf size = record buf { remaining = (buf.remaining + size) % u64_mod }

unfoldable pub buffer_refill : Buffer → Buffer
buffer_refill buf = record buf { remaining = buf.size }
