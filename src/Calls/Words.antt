-- ===== src/Calls/Words.antt =====
-- One argument of at most a register's size on the stream of internal/debugger/arm64/stream.go: in a
-- register while there are some, and then on the stack.
pub mod Others
use microdbg.Base.{
  ℕ, zero, suc, ◌+◌, ◌-◌, ◌*◌, ◌/◌, ◌%◌, ◌^◌, ◌≤◌, ◌<◌, ◌≡◌, ◌≢◌, ◌⊎◌, inl, inr, refl, ap, sym,
  subst, ◌∙◌, min, Bool, true, false, Option, none, some, List, [], ◌∷◌, ◌++◌, length, take, drop,
  ltb, leb, ◌==◌, if◌then◌else◌, arith,
}
use microdbg.Word.{align}
use microdbg.Word.Align.{align_rounds_up}
use microdbg.Word.Little.{le_bytes, from_bytes, AllBytes, take-le_bytes, length-le_bytes}
use microdbg.Bytes.{overwrite}
use microdbg.Errors.{Error, Result, ok, err, panic}
use microdbg.Emulator.{Machine}
use microdbg.Streams.Registers as Reg
use microdbg.Streams.Registers.{Abi, RegStream, absent, buffer, pointer, regs_end, align_offsets}
use microdbg.Streams.Registers.Read as Read
use microdbg.Streams.Registers.Write as Write

-- A word of four or of eight bytes.
abbrev pub IsWordSize : ℕ → Type 0
IsWordSize p = (p ≡ 4) ⊎ (p ≡ 8)

-- Rounding up after a word was put at a whole number of words.
pub next_word :
    (p k n : ℕ) → IsWordSize p → 0 < n → n ≤ p → k < 1000 → align (k * p + n) p ≡ suc k * p
next_word p k n (inl e) pos fits small =
    subst (λ q. align (k * q + n) q ≡ suc k * q) (sym e)
      (let fits' : n ≤ 4 = omega arith in
        omega (arith, align_rounds_up (k * 4 + n) 2 (omega arith)))
next_word p k n (inr e) pos fits small =
    subst (λ q. align (k * q + n) q ≡ suc k * q) (sym e)
      (let fits' : n ≤ 8 = omega arith in
        omega (arith, align_rounds_up (k * 8 + n) 3 (omega arith)))

pub word_offset : (p k : ℕ) → IsWordSize p → ((k * p) % p ≡ 0) × ((k * p) / p ≡ k)
word_offset p k (inl e) = subst (λ q. ((k * q) % q ≡ 0) × ((k * q) / q ≡ k)) (sym e) (omega arith)
word_offset p k (inr e) = subst (λ q. ((k * q) % q ≡ 0) × ((k * q) / q ≡ k)) (sym e) (omega arith)

pub drop-all : (n : ℕ) (xs : List ℕ) → length xs ≤ n → drop n xs ≡ []
drop-all zero [] h = refl
drop-all zero (x ∷ xs) h = absurd (omega arith)
drop-all (suc n) [] h = refl
drop-all (suc n) (x ∷ xs) h = drop-all n xs (omega arith)

pub take-all : (n : ℕ) (xs : List ℕ) → length xs ≤ n → take n xs ≡ xs
take-all zero [] h = refl
take-all zero (x ∷ xs) h = absurd (omega arith)
take-all (suc n) [] h = refl
take-all (suc n) (x ∷ xs) h = ap (λ l. x ∷ l) (take-all n xs (omega arith))

module _ (m : Machine) (abi : Abi) (size : IsWordSize abi.pointer_size) where
  open abi use {arg_reg_count, pointer_size, first_gr}

  -- What the register holds once a word was written.
  pub value_of : ℕ → List ℕ → ℕ
  value_of old b = from_bytes (overwrite (le_bytes 8 old) 0 (take 8 b))

  pub take-value_of :
      (old : ℕ) (b : List ℕ)
      → AllBytes b
      → length b ≤ pointer_size
      → take (length b) (le_bytes 8 (value_of old b % 256 ^ pointer_size)) ≡ b
  unfolding value_of overwrite
  take-value_of old b h fits =
      rw (take-all 8 b (small size))
        (take-le_bytes 8 pointer_size b (drop (0 + length b) (le_bytes 8 old)) h (small size) fits)
    where
      small : IsWordSize pointer_size → length b ≤ 8
      small (inl e) = omega arith
      small (inr e) = omega arith

  write_loop-nil :
      (fuel count : ℕ) (rs : RegStream) (st : m.State)
      → Write.write_loop m abi fuel [] count rs st ≡ (ok 0, rs, st)
  unfolding Write.write_loop
  write_loop-nil zero count rs st = refl
  write_loop-nil (suc fuel) count rs st = refl

  -- A stream after `k` whole registers.
  abbrev pub placed : ℕ → ℕ → ℕ → ℕ → Reg.Stack → RegStream
  placed k s v old stack = record {
    stoff = s;
    groff = k * pointer_size;
    vroff = v;
    value = old;
    stack = stack;
  }

  abbrev pub part_placed : ℕ → ℕ → ℕ → ℕ → ℕ → Reg.Stack → RegStream
  part_placed k n s v old stack = record {
    stoff = s;
    groff = k * pointer_size + n;
    vroff = v;
    value = old;
    stack = stack;
  }

  pub before_end : (k : ℕ) → k < arg_reg_count → leb (regs_end abi) (k * pointer_size) ≡ false
  before_end k l = inside size
    where
      inside :
          IsWordSize pointer_size → leb (arg_reg_count * pointer_size) (k * pointer_size) ≡ false
      inside (inl e) = subst (λ q. leb (arg_reg_count * q) (k * q) ≡ false) (sym e) (ground arith)
      inside (inr e) = subst (λ q. leb (arg_reg_count * q) (k * q) ≡ false) (sym e) (ground arith)

  pub at_end : leb (regs_end abi) (arg_reg_count * pointer_size) ≡ true
  at_end = ground arith

  module _ (k s v old : ℕ) (stack : Reg.Stack) (st st' : m.State) (x : ℕ) (xs : List ℕ)
      (inside : k < arg_reg_count) (fits : length (x ∷ xs) ≤ pointer_size) where
    abbrev b : List ℕ
    b = x ∷ xs

    short : length b ≤ 8
    short = short' size
      where
        short' : IsWordSize pointer_size → length b ≤ 8
        short' (inl e) = omega arith
        short' (inr e) = omega arith

    nonempty : (length b == 0) ≡ false
    nonempty = ground arith

    write_one :
        m.reg_write (first_gr + k) (value_of old b) st ≡ (none, st')
        → Write.write_loop m abi (length b) b k (placed k s v old stack) st
          ≡ (ok (length b), part_placed k (length b) s v (value_of old b) stack, st')
    unfolding Write.write_loop value_of
    write_one e =
        rw (Write.write_loop, nonempty, before_end k inside, e, drop-all 8 b short, count)
          (rw (write_loop-nil (length xs) (suc k), plus) refl)
      where
        count : min 8 (length b) ≡ length b
        count = omega (arith, short)

        plus : length b + 0 ≡ length b
        plus = omega arith

    write_enters :
        Write.write m abi b (placed k s v old stack) st
        ≡ Write.write_loop m abi (length b) b k (placed k s v old stack) st
    unfolding Write.write
    write_enters =
        rw
          (
            before_end k inside,
            (word_offset pointer_size k size).0,
            (word_offset pointer_size k size).1,
          )
          refl

    pub write_in_register :
        m.reg_write (first_gr + k) (value_of old b) st ≡ (none, st')
        → Write.write m abi b (placed k s v old stack) st
          ≡ (ok (length b), part_placed k (length b) s v (value_of old b) stack, st')
    write_in_register e = write_enters ∙ write_one e
