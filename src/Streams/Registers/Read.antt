-- ===== src/Streams/Registers/Read.antt =====
-- Reading from `regStream` of internal/debugger/arm/stream.go and internal/debugger/arm64/stream.go.
use microdbg.Base.{
  ℕ, zero, suc, ◌+◌, ◌-◌, ◌/◌, ◌%◌, ◌^◌, min, true, false, Option, none, some, List, [], ◌++◌,
  length, take, drop, leb, ◌==◌, if◌then◌else◌,
}
use microdbg.Word.Little.{le_bytes, from_bytes}
use microdbg.Buffer as Buffer
use microdbg.Errors.{Error, Result, ok, err, panic, unsupported}
use microdbg.Emulator.{Machine}
use microdbg.Pointers as Pointers
use microdbg.Streams.Pointers.{PointerStream}
use microdbg.Streams.Registers.{Abi, Stack, absent, buffer, pointer, RegStream, regs_end}

module _ (m : Machine) (abi : Abi) where
  open abi use {arg_reg_count, pointer_size, first_gr, first_s, first_d}

  abbrev pub counted : Result (List ℕ) → ℕ × Result (List ℕ)
  counted (ok bytes) = (length bytes, ok bytes)
  counted (err e) = (0, err e)
  counted panic = (0, panic)

  -- `stack.ReadAt`: the count and what was read.
  abbrev pub stack_read : Stack → ℕ → ℕ → m.State → ℕ × Result (List ℕ)
  stack_read absent len off st = (0, panic)
  stack_read (buffer buf) len off st = counted (Buffer.read_at buf len off)
  stack_read (pointer p) len off st = Pointers.read_at m p len off st

  abbrev pub past : RegStream → ℕ × Result (List ℕ) → Result (List ℕ) × RegStream
  past rs (n, r) = (r, record rs { stoff = rs.stoff + n })

  unfoldable pub read_stack : ℕ → RegStream → m.State → Result (List ℕ) × RegStream
  read_stack len rs st = past rs (stack_read rs.stack len rs.stoff st)

  abbrev pub prepend : List ℕ → Result (List ℕ) × RegStream → Result (List ℕ) × RegStream
  prepend head (ok bytes, rs) = (ok (head ++ bytes), rs)
  prepend head (err e, rs) = (err e, rs)
  prepend head (panic, rs) = (panic, rs)

  -- What one register gives to a slice with `rem` bytes left.
  abbrev pub from_register :
      ℕ
      → RegStream
      → (RegStream → Result (List ℕ) × RegStream)
      → Option Error × ℕ
      → Result (List ℕ) × RegStream
  from_register rem rs more (some e, v) = (err e, record rs { value = v })
  from_register rem rs more (none, v) =
      prepend (take rem (le_bytes 8 v))
        (more (record rs { value = v; groff = rs.groff + min rem 8 }))

  -- The loop `for i < len(b)`: `rem` bytes are left, and each round reads at least one.
  unfoldable pub read_loop : ℕ → ℕ → ℕ → RegStream → m.State → Result (List ℕ) × RegStream
  read_loop zero rem count rs st = (ok [], rs)
  read_loop (suc fuel) rem count rs st = elim (rem == 0) [
    | true ↦ (ok [], rs)
    | false ↦ elim (leb (regs_end abi) rs.groff) [
      | true ↦ read_stack rem rs st
      | false ↦
          from_register rem rs (λ rs'. read_loop fuel (rem - 8) (suc count) rs' st)
            (m.reg_read (first_gr + count) st)
    ]
  ]

  -- The rest of a register that was read in part stands in `value`.
  abbrev pub rest_of_value : ℕ → RegStream → List ℕ
  rest_of_value len rs = take len (drop (rs.groff % pointer_size) (le_bytes 8 rs.value))

  abbrev pub read_from : ℕ → ℕ → RegStream → m.State → Result (List ℕ) × RegStream
  read_from len zero rs st = read_loop len len (rs.groff / pointer_size) rs st
  read_from len (suc i) rs st =
      let head : List ℕ = rest_of_value len rs in
      prepend head (
        read_loop len (len - length head) (suc (rs.groff / pointer_size))
          (record rs { groff = rs.groff + length head }) st)

  unfoldable pub read : ℕ → RegStream → m.State → Result (List ℕ) × RegStream
  unfolding read_loop read_stack le_bytes
  read len rs st =
      if leb (regs_end abi) rs.groff
      then read_stack len rs st
      else read_from len (rs.groff % pointer_size) rs st

  abbrev pub float_on_stack : ℕ → RegStream → ℕ × Result (List ℕ) → Result ℕ × RegStream
  float_on_stack n rs (k, ok bytes) = (ok (from_bytes bytes), record rs { stoff = rs.stoff + n })
  float_on_stack n rs (k, err e) = (err e, record rs { stoff = rs.stoff + n })
  float_on_stack n rs (k, panic) = (panic, rs)

  abbrev pub float_in_register : ℕ → RegStream → Option Error × ℕ → Result ℕ × RegStream
  float_in_register w rs (some e, v) = (err e, rs)
  float_in_register w rs (none, v) = (ok (v % 2 ^ w), record rs { vroff = rs.vroff + 1 })

  unfoldable pub read_float : RegStream → m.State → Result ℕ × RegStream
  unfolding from_bytes
  read_float rs st =
      if leb arg_reg_count rs.vroff
      then float_on_stack 4 rs (stack_read rs.stack 4 rs.stoff st)
      else float_in_register 32 rs (m.reg_read (first_s + rs.vroff) st)

  unfoldable pub read_double : RegStream → m.State → Result ℕ × RegStream
  unfolding from_bytes
  read_double rs st =
      if leb arg_reg_count rs.vroff
      then float_on_stack 8 rs (stack_read rs.stack 8 rs.stoff st)
      else float_in_register 64 rs (m.reg_read (first_d + rs.vroff) st)

  abbrev pub read_string : RegStream → Result (List ℕ) × RegStream
  read_string rs = (err unsupported, rs)

  abbrev pub pointed : Result (List ℕ) × RegStream → Result PointerStream × RegStream
  pointed (ok bytes, rs) = (ok (record { ptr = from_bytes bytes; size = pointer_size }), rs)
  pointed (err e, rs) = (err e, rs)
  pointed (panic, rs) = (panic, rs)

  unfoldable pub read_stream : RegStream → m.State → Result PointerStream × RegStream
  unfolding read from_bytes
  read_stream rs st = pointed (read pointer_size rs st)
