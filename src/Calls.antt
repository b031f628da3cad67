-- ===== src/Calls.antt =====
-- The calling conventions of internal/debugger/arm/arm.go and internal/debugger/arm64/arm64.go, which
-- differ in the constants of a `Cpu`: arguments, results, the return and the stack of a task.
pub mod Arm
pub mod Arm64
pub mod Words
pub mod RoundTrip
mod Tests
use Prim.Native.Nat.{bit_or}
use microdbg.Base.{
  ℕ, ◌+◌, Bool, true, false, Option, none, some, List, [], ◌∷◌, ◌==◌, if◌then◌else◌,
}
use microdbg.Word.{add64, sub64}
use microdbg.Errors.{Error, Result, ok, err, panic, calling_unsupported, argument_invalid}
use microdbg.Emulator.{Emulator, Machine, MemRegion, mem_prot_read, mem_prot_write}
use microdbg.Stack as Stack
use microdbg.Stack.{Registers, stack_alloc}
use microdbg.Pointers as Pointers
use microdbg.Streams.Registers.{Abi, RegStream, absent, buffer, pointer, align_offsets}
use microdbg.Streams.Registers as Reg
use microdbg.Streams.Instances.{CallStream, regs, mem, call_streams}
use microdbg.Encoding.{GoType}
use microdbg.Encoding.Memory.{Memory, Heap}
use microdbg.Encoding.Values.{encode_value, decode_value}
use microdbg.Mem.Manager.{MemoryManager, map_alloc, map_free}

pub data Calling : Type 0 where
  default cdecl stdcall fastcall : Calling

pub record Cpu : Type 0 where
  pub abi : Abi
  pub sp : ℕ
  pub pc : ℕ
  pub lr : ℕ
  pub stack_align : ℕ
  pub stack_size : ℕ

abbrev pub supported : Calling → Bool
supported default = true
supported fastcall = true
supported cdecl = false
supported stdcall = false

-- A stream before its first argument.
abbrev pub fresh : Reg.Stack → RegStream
fresh stack = record { stoff = 0; groff = 0; vroff = 0; value = 0; stack = stack }

-- `fuel` bounds the chunks of a text, `scratch` is the address of a local variable.
module _ (m : Machine) (cpu : Cpu) (fuel scratch : ℕ) where
  open cpu use {abi, sp, pc, lr}

  abbrev pub stack_registers : Registers
  stack_registers = record {
    State = m.State;
    read_sp = m.reg_read sp;
    write_sp = λ v st. m.reg_write sp v st;
  }

  abbrev pub allocated : Option Error × ℕ × m.State → Result ℕ × m.State
  allocated (none, p, st) = (ok p, st)
  allocated (some e, p, st) = (err e, st)

  -- `ctx.StackAlloc`
  pub alloc : ℕ → m.State → Result ℕ × m.State
  unfolding stack_alloc
  alloc size st = allocated (stack_alloc stack_registers cpu.stack_align st size)

  -- `stream.Align()`
  abbrev pub aligned : CallStream → CallStream
  aligned (regs rs) = regs (align_offsets abi rs)
  aligned (mem ps) = mem ps

  abbrev pub on_stack : Option Error × ℕ → Result RegStream
  on_stack (some e, v) = err e
  on_stack (none, v) = ok (fresh (pointer v))

  -- The stream that the arguments are extracted from.
  unfoldable pub args : Calling → m.State → Result RegStream
  args calling st =
      if supported calling then on_stack (m.reg_read sp st) else err calling_unsupported

  abbrev pub next_arg :
      Option (Result (Unit {0}) × CallStream × Heap)
      → (CallStream → Heap → Option (Result (Unit {0}) × CallStream × Heap))
      → Option (Result (Unit {0}) × CallStream × Heap)
  next_arg none more = none
  next_arg (some (ok u, s, h)) more = more (aligned s) h
  next_arg (some (err e, s, h)) more = some (err e, s, h)
  next_arg (some (panic, s, h)) more = some (panic, s, h)

  -- Every target is a type and a data word.
  unfoldable pub extract :
      List (GoType × ℕ)
      → CallStream
      → m.State
      → Heap
      → Option (Result (Unit {0}) × CallStream × Heap)
  unfolding decode_value
  extract [] s st h = some (ok tt, s, h)
  extract (v ∷ vs) s st h =
      next_arg (decode_value (call_streams m abi fuel alloc) scratch v s st h)
        λ s' h'. extract vs s' st h'

  abbrev pub after_arg :
      Result (Unit {0}) × CallStream × m.State
      → (CallStream → m.State → Result (Unit {0}) × CallStream × m.State)
      → Result (Unit {0}) × CallStream × m.State
  after_arg (ok u, s, st) more = more (aligned s) st
  after_arg (err e, s, st) more = (err e, s, st)
  after_arg (panic, s, st) more = (panic, s, st)

  unfoldable pub write_args :
      Memory → List (GoType × ℕ) → CallStream → m.State → Result (Unit {0}) × CallStream × m.State
  unfolding encode_value
  write_args go [] s st = (ok tt, s, st)
  write_args go (v ∷ vs) s st =
      after_arg (encode_value (call_streams m abi fuel alloc) scratch go v s st)
        λ s' st'. write_args go vs s' st'

  abbrev pub stack_bytes : Reg.Stack → List ℕ
  stack_bytes absent = []
  stack_bytes (buffer buf) = buf
  stack_bytes (pointer p) = []

  abbrev pub outcome : Option Error × m.State → Result (Unit {0}) × m.State
  outcome (none, st) = (ok tt, st)
  outcome (some e, st) = (err e, st)

  abbrev pub copied_to : List ℕ → Result ℕ × m.State → Result (Unit {0}) × m.State
  copied_to buf (ok p, st) = outcome (Pointers.mem_write m p buf st)
  copied_to buf (err e, st) = (err e, st)
  copied_to buf (panic, st) = (panic, st)

  -- The buffer that stands for the stack is copied to where it is allocated.
  abbrev pub push_stack : RegStream → m.State → Result (Unit {0}) × m.State
  push_stack rs st =
      if rs.stoff == 0 then (ok tt, st) else copied_to (stack_bytes rs.stack) (alloc rs.stoff st)

  abbrev pub pushed : Result (Unit {0}) × CallStream × m.State → Result (Unit {0}) × m.State
  pushed (ok u, regs rs, st) = push_stack rs st
  pushed (ok u, mem ps, st) = (ok tt, st)
  pushed (err e, s, st) = (err e, st)
  pushed (panic, s, st) = (panic, st)

  unfoldable pub arg_write :
      Memory → Calling → List (GoType × ℕ) → m.State → Result (Unit {0}) × m.State
  unfolding write_args alloc Pointers.mem_write
  arg_write go calling vs st =
      if supported calling
      then pushed (write_args go vs (regs (fresh (buffer []))) st)
      else (err calling_unsupported, st)

  abbrev pub extracted :
      Option (Result (Unit {0}) × CallStream × Heap) → Option (Result (Unit {0}) × Heap)
  extracted none = none
  extracted (some (r, s, h)) = some (r, h)

  -- Results have no stack.
  unfoldable pub ret_extract : GoType × ℕ → m.State → Heap → Option (Result (Unit {0}) × Heap)
  unfolding decode_value
  ret_extract (t, p) st h =
      if p == 0
      then some (err argument_invalid, h)
      else extracted
          (decode_value (call_streams m abi fuel alloc) scratch (t, p) (regs (fresh absent)) st h)

  abbrev pub returned : Result (Unit {0}) × CallStream × m.State → Result (Unit {0}) × m.State
  returned (r, s, st) = (r, st)

  unfoldable pub ret_write : Memory → GoType × ℕ → m.State → Result (Unit {0}) × m.State
  unfolding encode_value
  ret_write go (t, p) st =
      if p == 0
      then outcome (m.reg_write abi.first_gr 0 st)
      else returned
          (encode_value (call_streams m abi fuel alloc) scratch go (t, p) (regs (fresh absent)) st)

  abbrev pub jumped : m.State → Option Error × ℕ → Option Error × m.State
  jumped st (some e, v) = (some e, st)
  jumped st (none, v) = m.reg_write pc v st

  -- `Return`: the program counter becomes the link register.
  unfoldable pub return : m.State → Option Error × m.State
  return st = jumped st (m.reg_read lr st)

  -- The registers of a task that is to call an address: an error of a write is dropped.
  unfoldable pub set_call : ℕ → ℕ → m.State → m.State
  set_call addr ctrl st = (m.reg_write lr ctrl (m.reg_write pc addr st).1).1

module _ (e : Emulator) (cpu : Cpu) where
  abbrev pub top_of :
      Result MemRegion × MemoryManager × e.State → Result ℕ × MemoryManager × e.State
  top_of (ok region, mm, st) = (ok (add64 region.addr cpu.stack_size), mm, st)
  top_of (err x, mm, st) = (err x, mm, st)
  top_of (panic, mm, st) = (panic, mm, st)

  unfoldable pub init_stack : MemoryManager → e.State → Result ℕ × MemoryManager × e.State
  unfolding map_alloc
  init_stack mm st = top_of (map_alloc e mm st cpu.stack_size (mem_prot_read + mem_prot_write))

  unfoldable pub close_stack :
      MemoryManager → e.State → ℕ → Result (Unit {0}) × MemoryManager × e.State
  unfolding map_free
  close_stack mm st stack = map_free e mm st (sub64 stack cpu.stack_size) cpu.stack_size
