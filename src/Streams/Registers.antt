-- ===== src/Streams/Registers.antt =====
-- `regStream` of internal/debugger/arm/stream.go and internal/debugger/arm64/stream.go, which differ in
-- the constants of an `Abi` only: arguments in registers and then on a stack. A float is its bit
-- pattern. A call whose stack is nil panics where it uses the stack.
pub mod Read
pub mod Write
use microdbg.Base.{
  ℕ, zero, suc, ◌+◌, ◌-◌, ◌*◌, ◌/◌, ◌%◌, ◌^◌, min, Bool, true, false, Option, none, some, List, [],
  ◌∷◌, ◌++◌, length, take, drop, ltb, leb, ◌==◌, if◌then◌else◌,
}
use microdbg.Word.{align}
use microdbg.Word.Little.{le_bytes, from_bytes}
use microdbg.Bytes.{overwrite}
use microdbg.Buffer as Buffer
use microdbg.Errors.{Error, Result, ok, err, panic, unsupported}
use microdbg.Emulator.{Machine}
use microdbg.Pointers as Pointers
use microdbg.Streams.Pointers.{PointerStream}

pub record Abi : Type 0 where
  pub arg_reg_count : ℕ
  pub pointer_size : ℕ
  -- the first general register, the first single and the first double float register
  pub first_gr : ℕ
  pub first_s : ℕ
  pub first_d : ℕ
  -- where `WriteDouble` starts
  pub first_written_d : ℕ

-- The reader and writer at offsets that stands for the stack.
pub data Stack : Type 0 where
  absent : Stack
  buffer : List ℕ → Stack
  pointer : ℕ → Stack

pub record RegStream : Type 0 where
  pub stoff : ℕ
  pub groff : ℕ
  pub vroff : ℕ
  pub value : ℕ
  pub stack : Stack

module _ (abi : Abi) where
  open abi use {arg_reg_count, pointer_size, first_gr, first_s, first_d}

  abbrev pub regs_end : ℕ
  regs_end = arg_reg_count * pointer_size

  unfoldable pub align_offsets : RegStream → RegStream
  unfolding align
  align_offsets rs = record rs { stoff = align rs.stoff 4; groff = align rs.groff pointer_size }

  abbrev pub block_size : RegStream → ℕ
  block_size rs = pointer_size

  abbrev pub offset : RegStream → ℕ
  offset rs = 0

  unfoldable pub skip : ℕ → RegStream → RegStream
  skip n rs =
      if ltb rs.groff regs_end
      then record rs { groff = rs.groff + n }
      else record rs { stoff = rs.stoff + n }
