-- ===== src/Calls/Arm64.antt =====
-- The constants of internal/debugger/arm64/arm64.go and internal/debugger/arm64/stream.go, with the
-- register numbers of emulator/arm64/reg.go.
use Prim.Native.Nat.{bit_or}
use microdbg.Base.{◌*◌}
use microdbg.Emulator.{Machine}
use microdbg.Streams.Registers.{Abi}
use microdbg.Calls.{Cpu}

abbrev pub arm64_abi : Abi
arm64_abi = record {
  arg_reg_count = 8;
  pointer_size = 8;
  first_gr = 199;
  first_s = 136;
  first_d = 40;
  first_written_d = 136;
}

-- The link register is X30.
abbrev pub arm64_cpu : Cpu
arm64_cpu = record {
  abi = arm64_abi;
  sp = 4;
  pc = 260;
  lr = 2;
  stack_align = 16;
  stack_size = 10 * 0x1000 * 2;
}

-- Turning the floating point unit on. Errors are dropped.
module _ (m : Machine) where
  unfoldable pub enable_vfp : m.State → m.State
  enable_vfp st = (m.reg_write 261 (bit_or (m.reg_read 261 st).1 0x300000) st).1
