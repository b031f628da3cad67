-- ===== src/Streams/Instances.antt =====
-- The streams over pointers of internal/debugger/stream.go, and those of a call, which are over
-- registers or, behind a pointer, over memory, as instances of the interface.
use microdbg.Base.{ℕ, Option, none, some, List}
use microdbg.Errors.{Error, Result, ok, err, panic}
use microdbg.Emulator.{Machine}
use microdbg.Streams.Interface.{StreamOps}
use microdbg.Streams.Pointers as Ptr
use microdbg.Streams.Pointers.{PointerStream}
use microdbg.Streams.Registers as Reg
use microdbg.Streams.Registers.{Abi, RegStream}
use microdbg.Streams.Registers.Read as Read
use microdbg.Streams.Registers.Write as Write

-- A new stream behind a pointer takes its memory from `alloc`; `fuel` bounds the chunks of a text.
module _ (m : Machine) (fuel : ℕ) (alloc : ℕ → m.State → Result ℕ × m.State) where
  abbrev pub outcome : Option Error → Result (Unit {0})
  outcome none = ok tt
  outcome (some e) = err e

  abbrev pub wrote :
      Option Error × PointerStream × m.State → Result (Unit {0}) × PointerStream × m.State
  wrote (e, ps, st) = (outcome e, ps, st)

  abbrev pub pointer_streams : StreamOps m.State
  pointer_streams = record {
    Str = PointerStream;
    block_size = Ptr.block_size;
    offset = Ptr.offset;
    skip = Ptr.skip;
    read = Ptr.read m;
    read_float = Ptr.read_float m;
    read_double = Ptr.read_double m;
    read_string = Ptr.read_string m fuel;
    read_stream = Ptr.read_stream m;
    write = λ b s st. wrote (Ptr.write m b s st);
    write_float = λ f s st. wrote (Ptr.write_float m f s st);
    write_double = λ d s st. wrote (Ptr.write_double m d s st);
    write_string = λ t s st. wrote (Ptr.write_string m t s st);
    write_stream = Ptr.write_stream m alloc;
  }

-- A stream of a call.
pub data CallStream : Type 0 where
  regs : RegStream → CallStream
  mem : PointerStream → CallStream

module _ (m : Machine) (abi : Abi) (fuel : ℕ) (alloc : ℕ → m.State → Result ℕ × m.State) where
  abbrev in_regs {ℓ} : {A : Type ℓ} → A × RegStream → A × CallStream
  in_regs (a, rs) = (a, regs rs)

  abbrev in_mem {ℓ} : {A : Type ℓ} → A × PointerStream → A × CallStream
  in_mem (a, ps) = (a, mem ps)

  abbrev text_in_mem :
      Option (Result (List ℕ) × PointerStream) → Option (Result (List ℕ) × CallStream)
  text_in_mem none = none
  text_in_mem (some (a, ps)) = some (a, mem ps)

  abbrev sub_stream : Result PointerStream → Result CallStream
  sub_stream (ok ps) = ok (mem ps)
  sub_stream (err e) = err e
  sub_stream panic = panic

  abbrev sub_regs : Result PointerStream × RegStream → Result CallStream × CallStream
  sub_regs (r, rs) = (sub_stream r, regs rs)

  abbrev sub_mem : Result PointerStream × PointerStream → Result CallStream × CallStream
  sub_mem (r, ps) = (sub_stream r, mem ps)

  abbrev counted : Result ℕ → Result (Unit {0})
  counted (ok n) = ok tt
  counted (err e) = err e
  counted panic = panic

  abbrev regs_written : Result ℕ × RegStream × m.State → Result (Unit {0}) × CallStream × m.State
  regs_written (r, rs, st) = (counted r, regs rs, st)

  abbrev regs_did :
      Result (Unit {0}) × RegStream × m.State → Result (Unit {0}) × CallStream × m.State
  regs_did (r, rs, st) = (r, regs rs, st)

  abbrev mem_did : Option Error × PointerStream × m.State → Result (Unit {0}) × CallStream × m.State
  mem_did (e, ps, st) = (outcome m fuel alloc e, mem ps, st)

  abbrev regs_opened :
      Result PointerStream × RegStream × m.State → Result CallStream × CallStream × m.State
  regs_opened (r, rs, st) = (sub_stream r, regs rs, st)

  abbrev mem_opened :
      Result PointerStream × PointerStream × m.State → Result CallStream × CallStream × m.State
  mem_opened (r, ps, st) = (sub_stream r, mem ps, st)

  abbrev block_size : CallStream → ℕ
  block_size (regs rs) = Reg.block_size abi rs
  block_size (mem ps) = Ptr.block_size ps

  abbrev offset : CallStream → ℕ
  offset (regs rs) = Reg.offset abi rs
  offset (mem ps) = Ptr.offset ps

  abbrev skip : ℕ → CallStream → CallStream
  skip n (regs rs) = regs (Reg.skip abi n rs)
  skip n (mem ps) = mem (Ptr.skip n ps)

  abbrev read : ℕ → CallStream → m.State → Result (List ℕ) × CallStream
  read n (regs rs) st = in_regs (Read.read m abi n rs st)
  read n (mem ps) st = in_mem (Ptr.read m n ps st)

  abbrev read_float : CallStream → m.State → Result ℕ × CallStream
  read_float (regs rs) st = in_regs (Read.read_float m abi rs st)
  read_float (mem ps) st = in_mem (Ptr.read_float m ps st)

  abbrev read_double : CallStream → m.State → Result ℕ × CallStream
  read_double (regs rs) st = in_regs (Read.read_double m abi rs st)
  read_double (mem ps) st = in_mem (Ptr.read_double m ps st)

  abbrev read_string : CallStream → m.State → Option (Result (List ℕ) × CallStream)
  read_string (regs rs) st = some (in_regs (Read.read_string m abi rs))
  read_string (mem ps) st = text_in_mem (Ptr.read_string m fuel ps st)

  abbrev read_stream : CallStream → m.State → Result CallStream × CallStream
  read_stream (regs rs) st = sub_regs (Read.read_stream m abi rs st)
  read_stream (mem ps) st = sub_mem (Ptr.read_stream m ps st)

  abbrev write : List ℕ → CallStream → m.State → Result (Unit {0}) × CallStream × m.State
  write b (regs rs) st = regs_written (Write.write m abi b rs st)
  write b (mem ps) st = mem_did (Ptr.write m b ps st)

  abbrev write_float : ℕ → CallStream → m.State → Result (Unit {0}) × CallStream × m.State
  write_float f (regs rs) st = regs_did (Write.write_float m abi f rs st)
  write_float f (mem ps) st = mem_did (Ptr.write_float m f ps st)

  abbrev write_double : ℕ → CallStream → m.State → Result (Unit {0}) × CallStream × m.State
  write_double d (regs rs) st = regs_did (Write.write_double m abi d rs st)
  write_double d (mem ps) st = mem_did (Ptr.write_double m d ps st)

  abbrev write_string : List ℕ → CallStream → m.State → Result (Unit {0}) × CallStream × m.State
  write_string t (regs rs) st = regs_did (Write.write_string m abi rs st)
  write_string t (mem ps) st = mem_did (Ptr.write_string m t ps st)

  abbrev write_stream : ℕ → CallStream → m.State → Result CallStream × CallStream × m.State
  write_stream n (regs rs) st = regs_opened (Write.write_stream m abi alloc n rs st)
  write_stream n (mem ps) st = mem_opened (Ptr.write_stream m alloc n ps st)

  abbrev pub call_streams : StreamOps m.State
  call_streams = record {
    Str = CallStream;
    block_size = block_size;
    offset = offset;
    skip = skip;
    read = read;
    read_float = read_float;
    read_double = read_double;
    read_string = read_string;
    read_stream = read_stream;
    write = write;
    write_float = write_float;
    write_double = write_double;
    write_string = write_string;
    write_stream = write_stream;
  }
