-- ===== src/Encoding/Tests.antt =====
-- The package encoding on the stream of internal/debugger/stream.go, over a memory that takes every
-- write.
use microdbg.Base.{◌%◌, ◌≡◌, refl, false, none, some, arith}
use microdbg.Word.{align}
use microdbg.Word.Little.{from_bytes}
use microdbg.Errors.{ok}
use microdbg.Emulator.{Machine, arm64}
use microdbg.Streams.Interface.{StreamOps}
use microdbg.Streams.Pointers.{PointerStream, write, write_stream, write_string}
use microdbg.Streams.Instances.{pointer_streams}
use microdbg.Pointers.Strings.{cells}
use microdbg.Encoding.{
  GoType, fixed, pointer, string, struct, end, field, raw_fields, end_pad, size_of,
}
use microdbg.Encoding.Memory.{Memory}
use microdbg.Encoding.Sizes.{encode_size, decode_size, encode_size-eq-decode_size}
use microdbg.Encoding.Values.{encode_value}
use microdbg.Encoding.Advance.{Moves}
use microdbg.Encoding.Advance.Pointers.{pointer_moving}
use microdbg.Encoding.Advance.Values.{encode_value-Moves}

abbrev taking : Machine
taking = record {
  State = Unit {0};
  arch = arm64;
  reg_read = λ r st. (none, 0);
  reg_write = λ r v st. (none, st);
  mem_read = λ a n st. (none, cells (λ i. 0) a n);
  mem_write = λ a b st. (none, st);
}

abbrev streams : StreamOps (Unit {0})
streams = pointer_streams taking 1 (λ n st. (ok 0x9000, st))

abbrev go : Memory
go a = some (a % 256)

-- struct { a uint8; p *uint32; b uint64 }
abbrev pair : GoType
pair =
    struct 24
      (field false 0 (fixed 1) (field false 8 (pointer (fixed 4)) (field false 16 (fixed 8) end)))

abbrev before : PointerStream
before = record { ptr = 0x1000; size = 8 }

abbrev after : PointerStream
after = record { ptr = 0x1018; size = 8 }

pair_size : encode_size streams go 8 (some pair) ≡ some 24
unfolding encode_size raw_fields align end_pad
pair_size = refl

pair_runs : encode_value streams 0x2000 go (pair, 0x3000) before tt ≡ (ok tt, after, tt)
unfolding encode_value raw_fields align size_of end_pad write write_stream
pair_runs = refl

encode_value-Moves_example :
    Moves streams go 8
      (pointer_moving taking 1 (λ n st. (ok 0x9000, st)) 8 (λ p b st. refl) (omega arith))
      before
      after
      24
encode_value-Moves_example =
    encode_value-Moves streams 8
      (pointer_moving taking 1 (λ n st. (ok 0x9000, st)) 8 (λ p b st. refl) (omega arith)) 0x2000 go
      pair 0x3000 24 before after tt tt (tt, (tt, (tt, tt))) refl pair_size pair_runs

encode_size-eq-decode_size_example :
    encode_size streams go 8 (some pair) ≡ decode_size streams tt 8 (some (pointer pair))
encode_size-eq-decode_size_example = encode_size-eq-decode_size streams go tt 8 pair

-- A string counts for two blocks, and moves the stream by one.
string_size : encode_size streams go 8 (some string) ≡ some 16
unfolding encode_size
string_size = refl

abbrev text_memory : Memory
text_memory a = some 0

string_runs :
    encode_value streams 0x2000 text_memory (string, 0x3000) before tt
    ≡ (ok tt, record { ptr = 0x1008; size = 8 }, tt)
unfolding encode_value from_bytes write_stream write_string
string_runs = refl
