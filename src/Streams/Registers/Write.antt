-- ===== src/Streams/Registers/Write.antt =====
-- Writing to `regStream` of internal/debugger/arm/stream.go and internal/debugger/arm64/stream.go.
use microdbg.Base.{
  ℕ, zero, suc, ◌+◌, ◌-◌, ◌/◌, ◌%◌, min, true, false, Option, none, some, List, length, take, drop,
  leb, ◌==◌, if◌then◌else◌,
}
use microdbg.Word.Little.{le_bytes, from_bytes}
use microdbg.Bytes.{overwrite}
use microdbg.Buffer as Buffer
use microdbg.Errors.{Error, Result, ok, err, panic, unsupported}
use microdbg.Emulator.{Machine}
use microdbg.Pointers as Pointers
use microdbg.Streams.Pointers.{PointerStream}
use microdbg.Streams.Registers.{Abi, Stack, absent, buffer, pointer, RegStream, regs_end}

module _ (m : Machine) (abi : Abi) where
  open abi use {arg_reg_count, pointer_size, first_gr, first_s, first_written_d}

  -- `stack.WriteAt`: the count, an error or a panic, the stack and the state.
  abbrev pub into_buffer : m.State → Result ℕ × List ℕ → Result ℕ × Stack × m.State
  into_buffer st (r, buf) = (r, buffer buf, st)

  abbrev pub through : ℕ → ℕ × Option Error × m.State → ℕ × Result ℕ × Stack × m.State
  through p (n, none, st) = (n, ok n, pointer p, st)
  through p (n, some e, st) = (n, err e, pointer p, st)

  abbrev pub buffered : Result ℕ × Stack × m.State → ℕ × Result ℕ × Stack × m.State
  buffered (ok n, s, st) = (n, ok n, s, st)
  buffered (err e, s, st) = (0, err e, s, st)
  buffered (panic, s, st) = (0, panic, s, st)

  abbrev pub stack_write : Stack → List ℕ → ℕ → m.State → ℕ × Result ℕ × Stack × m.State
  stack_write absent b off st = (0, panic, absent, st)
  stack_write (buffer buf) b off st = buffered (into_buffer st (Buffer.write_at buf b off))
  stack_write (pointer p) b off st = through p (Pointers.write_at m p b off st)

  abbrev pub grown_past :
      RegStream → ℕ × Result ℕ × Stack × m.State → Result ℕ × RegStream × m.State
  grown_past rs (n, r, s, st) = (r, record rs { stoff = rs.stoff + n; stack = s }, st)

  unfoldable pub write_stack : List ℕ → RegStream → m.State → Result ℕ × RegStream × m.State
  write_stack b rs st = grown_past rs (stack_write rs.stack b rs.stoff st)

  abbrev pub more_written : ℕ → Result ℕ × RegStream × m.State → Result ℕ × RegStream × m.State
  more_written n (ok k, rs, st) = (ok (n + k), rs, st)
  more_written n (err e, rs, st) = (err e, rs, st)
  more_written n (panic, rs, st) = (panic, rs, st)

  -- After a register was written with `n` bytes of the slice.
  abbrev pub into_register :
      ℕ
      → RegStream
      → (RegStream → m.State → Result ℕ × RegStream × m.State)
      → Option Error × m.State
      → Result ℕ × RegStream × m.State
  into_register n rs more (some e, st) = (err e, rs, st)
  into_register n rs more (none, st) = more_written n (more (record rs { groff = rs.groff + n }) st)

  unfoldable pub write_loop : ℕ → List ℕ → ℕ → RegStream → m.State → Result ℕ × RegStream × m.State
  write_loop zero b count rs st = (ok 0, rs, st)
  write_loop (suc fuel) b count rs st = elim (length b == 0) [
    | true ↦ (ok 0, rs, st)
    | false ↦ elim (leb (regs_end abi) rs.groff) [
      | true ↦ write_stack b rs st
      | false ↦
          let v : ℕ = from_bytes (overwrite (le_bytes 8 rs.value) 0 (take 8 b)) in
          into_register (min 8 (length b)) (record rs { value = v })
            (λ rs' st'. write_loop fuel (drop 8 b) (suc count) rs' st')
            (m.reg_write (first_gr + count) v st)
    ]
  ]

  -- A register that was written in part is completed: its bytes stand in `value`.
  abbrev pub write_from : List ℕ → ℕ → RegStream → m.State → Result ℕ × RegStream × m.State
  write_from b zero rs st = write_loop (length b) b (rs.groff / pointer_size) rs st
  write_from b (suc i) rs st =
      let n : ℕ = min (8 - suc i) (length b) in
      let v : ℕ = from_bytes (overwrite (le_bytes 8 rs.value) (suc i) (take n b)) in
      into_register n (record rs { value = v })
        (λ rs' st'. write_loop (length b) (drop n b) (suc (rs.groff / pointer_size)) rs' st')
        (m.reg_write (first_gr + rs.groff / pointer_size) v st)

  unfoldable pub write : List ℕ → RegStream → m.State → Result ℕ × RegStream × m.State
  unfolding write_loop write_stack le_bytes from_bytes overwrite
  write b rs st =
      if leb (regs_end abi) rs.groff
      then write_stack b rs st
      else write_from b (rs.groff % pointer_size) rs st

  abbrev pub erred : Result ℕ → Result (Unit {0})
  erred (ok n) = ok tt
  erred (err e) = err e
  erred panic = panic

  abbrev pub float_stacked :
      ℕ → RegStream → ℕ × Result ℕ × Stack × m.State → Result (Unit {0}) × RegStream × m.State
  float_stacked n rs (k, r, s, st) = (erred r, record rs { stoff = rs.stoff + n; stack = s }, st)

  abbrev pub float_written :
      RegStream → Option Error × m.State → Result (Unit {0}) × RegStream × m.State
  float_written rs (some e, st) = (err e, rs, st)
  float_written rs (none, st) = (ok tt, record rs { vroff = rs.vroff + 1 }, st)

  unfoldable pub write_float : ℕ → RegStream → m.State → Result (Unit {0}) × RegStream × m.State
  unfolding le_bytes
  write_float f rs st =
      if leb arg_reg_count rs.vroff
      then float_stacked 4 rs (stack_write rs.stack (le_bytes 4 f) rs.stoff st)
      else float_written rs (m.reg_write (first_s + rs.vroff) f st)

  -- On both architectures the register is that of a single float of ARM64.
  unfoldable pub write_double : ℕ → RegStream → m.State → Result (Unit {0}) × RegStream × m.State
  unfolding le_bytes
  write_double d rs st =
      if leb arg_reg_count rs.vroff
      then float_stacked 8 rs (stack_write rs.stack (le_bytes 8 d) rs.stoff st)
      else float_written rs (m.reg_write (first_written_d + rs.vroff) d st)

  abbrev pub write_string : RegStream → m.State → Result (Unit {0}) × RegStream × m.State
  write_string rs st = (err unsupported, rs, st)

  abbrev pub pointing :
      ℕ → Result ℕ × RegStream × m.State → Result PointerStream × RegStream × m.State
  pointing ptr (ok n, rs, st) = (ok (record { ptr = ptr; size = pointer_size }), rs, st)
  pointing ptr (err e, rs, st) = (err e, rs, st)
  pointing ptr (panic, rs, st) = (panic, rs, st)

  abbrev pub after_alloc :
      RegStream → Result ℕ × m.State → Result PointerStream × RegStream × m.State
  after_alloc rs (ok ptr, st) = pointing ptr (write (le_bytes pointer_size ptr) rs st)
  after_alloc rs (err e, st) = (err e, rs, st)
  after_alloc rs (panic, st) = (panic, rs, st)

  unfoldable pub write_stream :
      (ℕ → m.State → Result ℕ × m.State)
      → ℕ
      → RegStream
      → m.State
      → Result PointerStream × RegStream × m.State
  unfolding write le_bytes
  write_stream stack_alloc size rs st = after_alloc rs (stack_alloc size st)
