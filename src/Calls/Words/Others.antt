-- ===== src/Calls/Words/Others.antt =====
-- Reading one word from the stream of internal/debugger/arm64/stream.go, and words on the stack.
use microdbg.Base.{
  ℕ, zero, suc, ◌+◌, ◌-◌, ◌≤◌, ◌<◌, ◌≡◌, refl, ap, ◌∙◌, min, false, none, List, [], ◌∷◌, ◌++◌, take,
  ◌==◌, arith,
}
use microdbg.Word.{add64}
use microdbg.Word.Little.{le_bytes}
use microdbg.Errors.{Result, ok, err, panic}
use microdbg.Emulator.{Machine}
use microdbg.Buffer.{write_at}
use microdbg.Pointers as Pointers
use microdbg.Streams.Registers as Reg
use microdbg.Streams.Registers.{Abi, RegStream, buffer, pointer}
use microdbg.Streams.Registers.Read as Read
use microdbg.Streams.Registers.Write as Write
use microdbg.Calls.Words.{IsWordSize, placed, part_placed, before_end, at_end, word_offset}

append-nil : (xs : List ℕ) → xs ++ [] ≡ xs
append-nil [] = refl
append-nil (x ∷ xs) = ap (λ l. x ∷ l) (append-nil xs)

module _ (m : Machine) (abi : Abi) (size : IsWordSize abi.pointer_size) where
  open abi use {arg_reg_count, pointer_size, first_gr}

  abbrev at_word : ℕ → ℕ → ℕ → ℕ → Reg.Stack → RegStream
  at_word = placed m abi size

  module _ (k s v old : ℕ) (stack : Reg.Stack) (st : m.State) (j w : ℕ) (inside : k < arg_reg_count)
      (short : suc j ≤ 8) where
    nonempty : (suc j == 0) ≡ false
    nonempty = ground arith

    read_loop-done :
        (fuel count : ℕ) (rs : RegStream) → Read.read_loop m abi fuel 0 count rs st ≡ (ok [], rs)
    unfolding Read.read_loop
    read_loop-done zero count rs = refl
    read_loop-done (suc fuel) count rs = refl

    read_one :
        m.reg_read (first_gr + k) st ≡ (none, w)
        → Read.read_loop m abi (suc j) (suc j) k (at_word k s v old stack) st
          ≡ (ok (take (suc j) (le_bytes 8 w)), part_placed m abi size k (suc j) s v w stack)
    unfolding Read.read_loop
    read_one e =
        rw (Read.read_loop, nonempty, before_end m abi size k inside, e, all, count)
          (rw (read_loop-done j (suc k), append-nil (take (suc j) (le_bytes 8 w))) refl)
      where
        all : suc j - 8 ≡ 0
        all = omega arith

        count : min (suc j) 8 ≡ suc j
        count = omega arith

    read_enters :
        Read.read m abi (suc j) (at_word k s v old stack) st
        ≡ Read.read_loop m abi (suc j) (suc j) k (at_word k s v old stack) st
    unfolding Read.read
    read_enters =
        rw
          (
            before_end m abi size k inside,
            (word_offset pointer_size k size).0,
            (word_offset pointer_size k size).1,
          )
          refl

    pub read_in_register :
        m.reg_read (first_gr + k) st ≡ (none, w)
        → Read.read m abi (suc j) (at_word k s v old stack) st
          ≡ (ok (take (suc j) (le_bytes 8 w)), part_placed m abi size k (suc j) s v w stack)
    read_in_register e = read_enters ∙ read_one e

  -- On the stack.
  grown_past-ok :
      (n s v old k : ℕ) (stack : Reg.Stack) (st : m.State) (r : Result ℕ × List ℕ)
      → r.0 ≡ ok n
      → Write.grown_past m abi
          (at_word k s v old stack)
          (Write.buffered m abi (Write.into_buffer m abi st r))
        ≡ (ok n, at_word k (s + n) v old (buffer r.1), st)
  grown_past-ok n s v old k stack st (ok i, buf) e =
      let q : i ≡ n = ground arith in
      ap (λ (t : ℕ). (ok t, at_word k (s + t) v old (buffer buf), st)) q
  grown_past-ok n s v old k stack st (err x, buf) e = ground arith
  grown_past-ok n s v old k stack st (panic, buf) e = ground arith

  pub write_on_stack :
      (n s v old : ℕ) (buf b : List ℕ) (st : m.State)
      → (write_at buf b s).0 ≡ ok n
      → Write.write m abi b (at_word arg_reg_count s v old (buffer buf)) st
        ≡ (ok n, at_word arg_reg_count (s + n) v old (buffer (write_at buf b s).1), st)
  unfolding Write.write Write.write_stack
  write_on_stack n s v old buf b st e =
      rw (at_end m abi size)
        (grown_past-ok n s v old arg_reg_count (buffer buf) st (write_at buf b s) e)

  pub read_on_stack :
      (n s v old p : ℕ) (bytes : List ℕ) (st : m.State)
      → m.mem_read (add64 p s) n st ≡ (none, bytes)
      → Read.read m abi n (at_word arg_reg_count s v old (pointer p)) st
        ≡ (ok bytes, at_word arg_reg_count (s + n) v old (pointer p))
  unfolding Read.read Read.read_stack Pointers.read_at
  read_on_stack n s v old p bytes st e = rw (at_end m abi size, e) refl
