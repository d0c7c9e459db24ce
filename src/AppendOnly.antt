-- ===== src/AppendOnly.antt =====
-- append_only.c: the allocator of the key-value namespace that only moves forward. Its three variables
-- are the state; near the end of the device it logs an error, and gives out the space all the same.
pub mod Laws
use nvmevirt_hybrid.Prelude.{ℕ, ◌+◌, ◌%◌, List, [], ◌∷◌, u64_mod}

pub record AppendOnly : Type 0 where
  pub latest : ℕ
  pub dev_size : ℕ
  pub total_written : ℕ

unfoldable pub append_only_allocator_init : ℕ → AppendOnly
append_only_allocator_init size = record { latest = 0; dev_size = size; total_written = 0 }

unfoldable pub append_only_allocate : AppendOnly → ℕ → AppendOnly × ℕ
append_only_allocate a length = (
  record a {
    latest = (a.latest + length) % u64_mod;
    total_written = (a.total_written + length) % u64_mod;
  },
  a.latest,
)

-- A sequence of allocations, with the length and the offset of each.
unfoldable pub allocate_all : AppendOnly → List ℕ → List (ℕ × ℕ)
allocate_all a [] = []
allocate_all a (length ∷ lengths) =
    let (b, off) = append_only_allocate a length in (length, off) ∷ allocate_all b lengths
