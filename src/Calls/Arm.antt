-- ===== src/Calls/Arm.antt =====
-- The constants of internal/debugger/arm/arm.go and internal/debugger/arm/stream.go, with the register
-- numbers of emulator/arm/reg.go, and the operations at them.
use Prim.Native.Nat.{bit_or}
use microdbg.Base.{ℕ, ◌*◌, Option, List}
use microdbg.Errors.{Error, Result}
use microdbg.Emulator.{Emulator, Machine}
use microdbg.Encoding.{GoType}
use microdbg.Encoding.Memory.{Memory, Heap}
use microdbg.Mem.Manager.{MemoryManager}
use microdbg.Streams.Registers.{Abi, RegStream}
use microdbg.Streams.Registers as Reg
use microdbg.Streams.Registers.Read as Read
use microdbg.Streams.Registers.Write as Write
use microdbg.Streams.Pointers.{PointerStream}
use microdbg.Calls as Calls
use microdbg.Calls.{Cpu, Calling}

abbrev pub arm_abi : Abi
arm_abi = record {
  arg_reg_count = 4;
  pointer_size = 4;
  first_gr = 66;
  first_s = 79;
  first_d = 14;
  first_written_d = 136;
}

abbrev pub arm_cpu : Cpu
arm_cpu = record {
  abi = arm_abi;
  sp = 12;
  pc = 11;
  lr = 10;
  stack_align = 8;
  stack_size = 10 * 0x1000;
}

-- `regStream` with these constants.
unfoldable pub align_offsets : RegStream → RegStream
unfolding Reg.align_offsets
align_offsets = Reg.align_offsets arm_abi

unfoldable pub skip : ℕ → RegStream → RegStream
unfolding Reg.skip
skip = Reg.skip arm_abi

module _ (m : Machine) where
  unfoldable pub read : ℕ → RegStream → m.State → Result (List ℕ) × RegStream
  unfolding Read.read
  read = Read.read m arm_abi

  unfoldable pub read_float : RegStream → m.State → Result ℕ × RegStream
  unfolding Read.read_float
  read_float = Read.read_float m arm_abi

  unfoldable pub read_double : RegStream → m.State → Result ℕ × RegStream
  unfolding Read.read_double
  read_double = Read.read_double m arm_abi

  unfoldable pub read_stream : RegStream → m.State → Result PointerStream × RegStream
  unfolding Read.read_stream
  read_stream = Read.read_stream m arm_abi

  unfoldable pub write : List ℕ → RegStream → m.State → Result ℕ × RegStream × m.State
  unfolding Write.write
  write = Write.write m arm_abi

  unfoldable pub write_float : ℕ → RegStream → m.State → Result (Unit {0}) × RegStream × m.State
  unfolding Write.write_float
  write_float = Write.write_float m arm_abi

  unfoldable pub write_double : ℕ → RegStream → m.State → Result (Unit {0}) × RegStream × m.State
  unfolding Write.write_double
  write_double = Write.write_double m arm_abi

  unfoldable pub write_stream :
      (ℕ → m.State → Result ℕ × m.State)
      → ℕ
      → RegStream
      → m.State
      → Result PointerStream × RegStream × m.State
  unfolding Write.write_stream
  write_stream = Write.write_stream m arm_abi

  -- The calls, with the fuel for texts and the address of a local variable.
  module _ (fuel scratch : ℕ) where
    unfoldable pub args : Calling → m.State → Result RegStream
    unfolding Calls.args
    args = Calls.args m arm_cpu fuel scratch

    unfoldable pub arg_write :
        Memory → Calling → List (GoType × ℕ) → m.State → Result (Unit {0}) × m.State
    unfolding Calls.arg_write
    arg_write = Calls.arg_write m arm_cpu fuel scratch

    unfoldable pub ret_extract : GoType × ℕ → m.State → Heap → Option (Result (Unit {0}) × Heap)
    unfolding Calls.ret_extract
    ret_extract = Calls.ret_extract m arm_cpu fuel scratch

    unfoldable pub ret_write : Memory → GoType × ℕ → m.State → Result (Unit {0}) × m.State
    unfolding Calls.ret_write
    ret_write = Calls.ret_write m arm_cpu fuel scratch

    unfoldable pub return : m.State → Option Error × m.State
    unfolding Calls.return
    return = Calls.return m arm_cpu fuel scratch

module _ (e : Emulator) where
  unfoldable pub init_stack : MemoryManager → e.State → Result ℕ × MemoryManager × e.State
  unfolding Calls.init_stack
  init_stack = Calls.init_stack e arm_cpu

  unfoldable pub close_stack :
      MemoryManager → e.State → ℕ → Result (Unit {0}) × MemoryManager × e.State
  unfolding Calls.close_stack
  close_stack = Calls.close_stack e arm_cpu

-- Turning the floating point unit on. Errors are dropped.
module _ (m : Machine) where
  unfoldable pub enable_vfp : m.State → m.State
  enable_vfp st =
      let st' = (m.reg_write 111 (bit_or (m.reg_read 111 st).1 0xf00000) st).1 in
      (m.reg_write 4 0x40000000 st').1
