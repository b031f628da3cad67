-- ===== src/Encoding/Memory.antt =====
-- The memory of the Go process that the package encoding reads and writes through unsafe pointers.
use microdbg.Base.{
  ℕ, zero, suc, ◌+◌, ◌-◌, ◌&&◌, Option, none, some, List, [], ◌∷◌, length, ltb, leb, replicate,
  if◌then◌else◌,
}
use microdbg.Bytes.{byte_at}

-- `none` is an address that faults; nil is 0.
abbrev pub Memory : Type 0
Memory = ℕ → Option ℕ

abbrev pub byte_then : Option ℕ → Option (List ℕ) → Option (List ℕ)
byte_then none rest = none
byte_then (some b) none = none
byte_then (some b) (some bs) = some (b ∷ bs)

-- The slice of `n` bytes at an address.
unfoldable pub load : Memory → ℕ → ℕ → Option (List ℕ)
load mem p zero = some []
load mem p (suc n) = byte_then (mem p) (load mem (suc p) n)

unfoldable pub store : Memory → ℕ → List ℕ → Memory
store mem p bytes a =
    if leb p a && ltb a (p + length bytes) then some (byte_at bytes (a - p)) else mem a

-- The memory, and the address from which on it is free.
pub record Heap : Type 0 where
  pub mem : Memory
  pub next : ℕ

-- A new block, which is zero.
unfoldable pub unsafe_new : ℕ → Heap → ℕ × Heap
unfolding store
unsafe_new size h =
    (h.next, record { mem = store h.mem h.next (replicate size 0); next = h.next + size + 1 })
