-- ===== src/Memcheck.antt =====
-- lab4/lab4/kernel/memcheck.c: address ranges.
use fundamental_of_emb.Common.{
  ℕ, ◌+◌, ◌^◌, ◌≤◌, ◌<◌, ◌≡◌, ◌↔◌, Bool, true, false, ◌||◌, ltb, leb, if◌then◌else◌, arith, u32,
}

-- The addresses are 32 bits wide, so the end of the buffer may wrap.
unfoldable pub valid_addr : ℕ → ℕ → ℕ → ℕ → Bool
valid_addr start count base bound =
    let mem_start = start in
    let mem_end = u32 (start + count) in
    if ltb mem_start base || leb bound mem_start
    then false
    else if ltb mem_end mem_start || ltb bound mem_end
    then false
    else true

-- For 32-bit arguments: a buffer is accepted exactly if it starts inside the range and ends, in
-- the unbounded sense, at the bound or before.
pub valid_addr_iff :
    (start count base bound : ℕ)
    → start < 2 ^ 32
    → count < 2 ^ 32
    → bound < 2 ^ 32
    → (valid_addr start count base bound ≡ true)
      ↔ ((base ≤ start) × (start < bound) × (start + count ≤ bound))
unfolding valid_addr
valid_addr_iff start count base bound hs hc hb = (λ h. ground arith, λ h. ground arith)
