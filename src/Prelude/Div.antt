-- ===== src/Prelude/Div.antt =====
-- Quotients and remainders by a divisor that is not a numeral.
use Prim.Native.Nat.{ℕ, ◌+◌, ◌-◌, ◌*◌, ◌/◌, ◌%◌, ◌≤◌, ◌<◌}
use mathlib.Core.Path.{◌≡◌, ap, sym, ◌∙◌}
use mathlib.Core.Logic.{◌⊎◌, inl, inr}
use native.Mathlib.Nat.{mul-add, add-mul, mul_comm, mul_right_comm, div-add-mod, mod-lt}
use native.Mathlib.Omega.{arith}

pub mul_gap : (m a t : ℕ) → m * a + m ≤ m * (a + (1 + t))
mul_gap m a t = omega (arith, mul-add m a (1 + t), mul-add m 1 t)

pub a_gap : (a b : ℕ) → a < b → a + (1 + (b - a - 1)) ≡ b
a_gap a b h = omega arith

pub lt-trichotomy : (a b : ℕ) → (a < b) ⊎ ((a ≡ b) ⊎ (b < a))
lt-trichotomy a b = ground arith

-- A quotient is determined by its remainder.
pub div_unique : (n q r m : ℕ) → n ≡ m * q + r → r < m → n / m ≡ q
div_unique n q r m e h =
    let a = n / m in
    let whole = div-add-mod n m in
    let rest : n % m < m = mod-lt n (omega arith) in
    elim (lt-trichotomy a q) [
      | inl small ↦ omega (arith, mul_gap m a (q - a - 1), ap (λ x. m * x) (a_gap a q small))
      | inr (inl same) ↦ same
      | inr (inr big) ↦ omega (arith, mul_gap m q (a - q - 1), ap (λ x. m * x) (a_gap q a big))
    ]

-- A multiple's remainder by another multiple leaves room for one more.
pub mod-mul-le : (a k m : ℕ) → 0 < k → 0 < m → (a * m) % (k * m) + m ≤ k * m
mod-mul-le a k m pos pos1 =
    let q = a / k in
    let r = a % k in
    let small : r < k = mod-lt a pos in
    let room : m * r + m ≤ m * k =
      omega (arith, mul_gap m r (k - r - 1), ap (λ x. m * x) (a_gap r k small)) in
    let split : a * m ≡ (k * m) * q + r * m =
      ap (λ x. x * m) (sym (div-add-mod a k))
      ∙ add-mul (k * q) r m
      ∙ ap (λ x. x + r * m) (mul_right_comm k q m) in
    let below : r * m < k * m = omega (arith, mul_comm r m, mul_comm k m, room) in
    let whole = div-add-mod (a * m) (k * m) in
    let quot = div_unique (a * m) q (r * m) (k * m) split below in
    omega (arith, whole, ap (λ x. (k * m) * x) quot, split, room, mul_comm r m, mul_comm k m)

pub div-lt : (a m n : ℕ) → 0 < m → a < m * n → a / m < n
div-lt a m n pos h = elim (lt-trichotomy (a / m) n) [
  | inl small ↦ small
  | inr (inl same) ↦ absurd (omega (arith, div-add-mod a m, ap (λ x. m * x) same))
  | inr (inr big) ↦ absurd (
      omega (
        arith,
        div-add-mod a m,
        mul_gap m n (a / m - n - 1),
        ap (λ x. m * x) (a_gap n (a / m) big),
      ))
]

-- Two digits of a mixed radix number.
pub radix_lt : (a b m n : ℕ) → a < m → b < n → a * n + b < n * m
radix_lt a b m n h k =
    omega (arith, mul_comm a n, mul_gap n a (m - a - 1), ap (λ x. n * x) (a_gap a m h))

pub radix_unique : (a b c d n : ℕ) → b < n → d < n → a * n + b ≡ c * n + d → (a ≡ c) × (b ≡ d)
radix_unique a b c d n h k e =
    let same : a ≡ c =
      sym (div_unique (a * n + b) a b n (omega (arith, mul_comm a n)) h)
      ∙ div_unique (a * n + b) c d n (omega (arith, e, mul_comm c n)) k in
    (same, omega (arith, e, ap (λ x. x * n) same))

-- Quotient and remainder of the next number, within a block of `m` and at its end.
pub mod_suc : (n m : ℕ) → n % m + 1 < m → ((n + 1) % m ≡ n % m + 1) × ((n + 1) / m ≡ n / m)
mod_suc n m h =
    let whole = div-add-mod n m in
    let quot : (n + 1) / m ≡ n / m =
      div_unique (n + 1) (n / m) (n % m + 1) m (omega (arith, whole)) h in
    (omega (arith, div-add-mod (n + 1) m, whole, ap (λ x. m * x) quot), quot)

pub mod_wrap : (n m : ℕ) → 0 < m → n % m + 1 ≡ m → ((n + 1) % m ≡ 0) × ((n + 1) / m ≡ n / m + 1)
mod_wrap n m pos h =
    let whole = div-add-mod n m in
    let quot : (n + 1) / m ≡ n / m + 1 =
      div_unique (n + 1) (n / m + 1) 0 m (omega (arith, whole, mul-add m (n / m) 1)) pos in
    (omega (arith, div-add-mod (n + 1) m, whole, ap (λ x. m * x) quot, mul-add m (n / m) 1), quot)

pub mul-div-mod : (a m : ℕ) → 0 < m → ((m * a) / m ≡ a) × ((m * a) % m ≡ 0)
mul-div-mod a m pos =
    let quot : (m * a) / m ≡ a = div_unique (m * a) a 0 m (omega arith) pos in
    (quot, omega (arith, div-add-mod (m * a) m, ap (λ x. m * x) quot))

pub mod_small : (a m : ℕ) → a < m → a % m ≡ a
mod_small a m h =
    let quot : a / m ≡ 0 = div_unique a 0 a m (omega arith) h in
    omega (arith, div-add-mod a m, ap (λ x. m * x) quot)

pub mod_add_self : (a m : ℕ) → a < m → (m + a) % m ≡ a
mod_add_self a m h =
    let quot : (m + a) / m ≡ 1 = div_unique (m + a) 1 a m (omega arith) h in
    omega (arith, div-add-mod (m + a) m, ap (λ x. m * x) quot)
