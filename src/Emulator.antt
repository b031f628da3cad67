-- ===== src/Emulator.antt =====
-- The operations of the `Emulator` interface of emulator/emulator.go, which the repository does not
-- implement, and the values of emulator/mem.go and emulator/arch.go.
use microdbg.Base.{ℕ, Option, List}
use microdbg.Errors.{Error}

pub data Arch : Type 0 where
  unknown arm arm64 x86 x86_64 : Arch

-- A call takes the emulator's state and returns its error, if any, and the new state.
pub record Emulator : Type 1 where
  pub State : Type 0
  pub page_size : ℕ
  pub mem_map : ℕ → ℕ → ℕ → State → Option Error × State
  pub mem_unmap : ℕ → ℕ → State → Option Error × State
  pub mem_protect : ℕ → ℕ → ℕ → State → Option Error × State

-- Registers, by number, and the bytes of the memory. `MemRead` and `MemReadPtr` differ in who owns the
-- slice that is filled, and so do the two calls that write.
pub record Machine : Type 1 where
  pub State : Type 0
  pub arch : Arch
  pub reg_read : ℕ → State → Option Error × ℕ
  pub reg_write : ℕ → ℕ → State → Option Error × State
  pub mem_read : ℕ → ℕ → State → Option Error × List ℕ
  pub mem_write : ℕ → List ℕ → State → Option Error × State

abbrev pub mem_prot_none : ℕ
mem_prot_none = 0

abbrev pub mem_prot_read : ℕ
mem_prot_read = 1

abbrev pub mem_prot_write : ℕ
mem_prot_write = 2

abbrev pub mem_prot_exec : ℕ
mem_prot_exec = 4

abbrev pub mem_prot_all : ℕ
mem_prot_all = 7

pub record MemRegion : Type 0 where
  pub addr : ℕ
  pub size : ℕ
  pub prot : ℕ
