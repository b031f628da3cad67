-- ===== src/Pointers.antt =====
-- `Pointer` of emulator/pointer.go: an address of the emulator's memory. A call that fills a slice
-- returns the bytes it was filled with.
pub mod Strings
mod Tests
use microdbg.Base.{
  ℕ, zero, suc, ◌+◌, Bool, true, false, Option, none, some, List, [], ◌∷◌, ◌++◌, length, ◌==◌,
  if◌then◌else◌,
}
use microdbg.Word.{add64, sub64}
use microdbg.Word.Little.{from_bytes}
use microdbg.Errors.{Error, Result, ok, err, arch_unsupported}
use microdbg.Emulator.{Machine, Arch, unknown, arm, arm64, x86, x86_64}

pub is_nil : ℕ → Bool
is_nil p = p == 0

abbrev pub add : ℕ → ℕ → ℕ
add p offset = add64 p offset

abbrev pub sub : ℕ → ℕ → ℕ
sub p offset = sub64 p offset

-- What a call returns beside its error.
abbrev pub either {ℓ} : {A : Type ℓ} → Option Error × A → Result A
either (none, a) = ok a
either (some e, a) = err e

-- `slices.Index(buf, 0)`: whether there is a zero, and what stands before it.
pub has_zero : List ℕ → Bool
has_zero [] = false
has_zero (b ∷ bs) = if b == 0 then true else has_zero bs

pub before_zero : List ℕ → List ℕ
before_zero [] = []
before_zero (b ∷ bs) = if b == 0 then [] else b ∷ before_zero bs

-- The size of a pointer.
abbrev pub pointer_size : Arch → Option ℕ
pointer_size unknown = none
pointer_size arm = some 4
pointer_size x86 = some 4
pointer_size arm64 = some 8
pointer_size x86_64 = some 8

module _ (m : Machine) where
  unfoldable pub mem_read : ℕ → ℕ → m.State → Result (List ℕ)
  mem_read p size st = either (m.mem_read p size st)

  unfoldable pub mem_write : ℕ → List ℕ → m.State → Option Error × m.State
  mem_write p bytes st = m.mem_write p bytes st

  -- One round of the loop: the bytes of a chunk up to a zero end the text.
  abbrev pub chunk :
      List ℕ
      → (List ℕ → Option (Result (List ℕ)))
      → Option Error × List ℕ
      → Option (Result (List ℕ))
  chunk got more (some e, buf) = some (err e)
  chunk got more (none, buf) =
      if has_zero buf then some (ok (got ++ before_zero buf)) else more (got ++ buf)

  -- The loop over chunks of 16 bytes. `none` means that the fuel ran out.
  pub read_chunks : ℕ → ℕ → List ℕ → m.State → Option (Result (List ℕ))
  read_chunks zero begin got st = none
  read_chunks (suc fuel) begin got st =
      chunk got (λ more. read_chunks fuel (add64 begin 16) more st) (m.mem_read begin 16 st)

  unfoldable pub mem_read_string : ℕ → ℕ → m.State → Option (Result (List ℕ))
  unfolding read_chunks has_zero before_zero
  mem_read_string fuel p st = read_chunks fuel p [] st

  abbrev pub address : Option Error × List ℕ → Result ℕ
  address (some e, bytes) = err e
  address (none, bytes) = ok (from_bytes bytes)

  abbrev pub sized : ℕ → Option ℕ → m.State → Result ℕ
  sized p none st = err arch_unsupported
  sized p (some size) st = address (m.mem_read p size st)

  unfoldable pub mem_read_pointer : ℕ → m.State → Result ℕ
  unfolding from_bytes
  mem_read_pointer p st = sized p (pointer_size m.arch) st

  -- The count is the length of the slice, whatever the error.
  unfoldable pub read_at : ℕ → ℕ → ℕ → m.State → ℕ × Result (List ℕ)
  read_at p len off st = (len, either (m.mem_read (add64 p off) len st))

  unfoldable pub write_at : ℕ → List ℕ → ℕ → m.State → ℕ × Option Error × m.State
  write_at p b off st = let (e, st') = m.mem_write (add64 p off) b st in (length b, e, st')
