-- ===== src/Worker/Perform.antt =====
-- io.c: __do_perform_io, which copies a command's data. What it copies is a list, in order.
pub mod Laws
use nvmevirt_hybrid.Prelude.{
  ℕ, zero, suc, ◌+◌, ◌-◌, ◌*◌, ◌%◌, min, Bool, true, false, Option, none, some, List, [], ◌∷◌, ◌++◌,
  ltb, leb, ◌==◌, if◌then◌else◌, u64_mod,
}
use nvmevirt_hybrid.Prelude.Run.{
  Run, ok, fault, out_of_bounds, null_dereference, out_of_fuel, ◌>>=◌, or_fault,
}

abbrev pub page_size : ℕ
page_size = 4096

-- The opcodes that the function tells apart: nvme_cmd_write, nvme_cmd_zone_append and nvme_cmd_read.
pub data Opcode : Type 0 where
  cmd_write cmd_zone_append cmd_read other_opcode : Opcode

-- What the function reads of the command.
pub record DataCommand : Type 0 where
  pub opcode : Opcode
  pub slba : ℕ
  pub length : ℕ
  pub prp1 : ℕ
  pub prp2 : ℕ

-- A round of the loop: `size` bytes, of the host's memory at `paddr` and the namespace's at `offset`.
pub record Chunk : Type 0 where
  pub paddr : ℕ
  pub offset : ℕ
  pub size : ℕ

-- One memcpy, to the namespace's memory or to the host's.
pub data Transfer : Type 0 where
  to_namespace to_host : Chunk → Transfer

-- The choice of the memcpy; other opcodes have none.
unfoldable pub transfers : Opcode → Chunk → List Transfer
transfers cmd_write ch = to_namespace ch ∷ []
transfers cmd_zone_append ch = to_namespace ch ∷ []
transfers cmd_read ch = to_host ch ∷ []
transfers other_opcode ch = []

unfoldable pub io_size : ℕ → ℕ → ℕ
io_size paddr remaining =
    let size = min remaining page_size in
    let mem_offs = paddr % page_size in
    if mem_offs == 0
    then size
    else if ltb page_size (size + mem_offs)
    then page_size - mem_offs
    else size

-- `memory` is the 64-bit word at an address of the host.
module _ (memory : ℕ → ℕ) where
  -- paddr_list[i], where one page is mapped.
  unfoldable pub list_entry : ℕ → ℕ → Run ℕ
  list_entry p i =
      if leb page_size (p % page_size + 8 * i) then fault out_of_bounds else ok (memory (p + 8 * i))

  -- The next page's address, `paddr_list`, and `prp2_offs`.
  unfoldable pub next_paddr : DataCommand → Option ℕ → ℕ → ℕ → ℕ → Run (ℕ × Option ℕ × ℕ)
  unfolding list_entry
  next_paddr c paddr_list prp_offs prp2_offs remaining =
      if prp_offs == 1
      then ok (c.prp1, paddr_list, prp2_offs)
      else if prp_offs == 2
      then (if ltb page_size remaining
          then (list_entry c.prp2 prp2_offs >>= λ paddr. ok (paddr, some c.prp2, prp2_offs + 1))
          else ok (c.prp2, paddr_list, prp2_offs))
      else (or_fault paddr_list null_dereference >>= λ p.
          list_entry p prp2_offs >>= λ paddr. ok (paddr, paddr_list, prp2_offs + 1))

  -- The loop; `prp_offs` is the number of rounds so far.
  unfoldable pub copy_pages : ℕ → DataCommand → Option ℕ → ℕ → ℕ → ℕ → ℕ → Run (List Transfer)
  unfolding next_paddr io_size transfers
  copy_pages zero c paddr_list prp_offs prp2_offs remaining offset = fault out_of_fuel
  copy_pages (suc fuel) c paddr_list prp_offs prp2_offs remaining offset = elim (remaining == 0) [
    | true ↦ ok []
    | false ↦
        next_paddr c paddr_list (prp_offs + 1) prp2_offs remaining >>= λ (paddr, list1, offs1).
        let size = io_size paddr remaining in
        copy_pages fuel c list1 (prp_offs + 1) offs1 (remaining - size) ((offset + size) % u64_mod)
        >>= λ rest.
            ok (transfers c.opcode (record { paddr = paddr; offset = offset; size = size }) ++ rest)
  ]

  unfoldable pub do_perform_io : DataCommand → Run (List Transfer)
  unfolding copy_pages
  do_perform_io c =
      let length = (c.length + 1) * 512 in
      copy_pages (suc length) c none 0 0 length ((c.slba * 512) % u64_mod)
