-- ===== src/Pointers/Tests.antt =====
-- The pointers of emulator/pointer.go on a memory that never fails.
use microdbg.Base.{ℕ, ◌≡◌, refl, none, some, ◌==◌, if◌then◌else◌, arith}
use microdbg.Errors.{ok}
use microdbg.Emulator.{Machine, arm}
use microdbg.Pointers.{mem_read_string, mem_read_pointer}
use microdbg.Pointers.Strings.{cells, EndsAt, mem_read_string-cells}

-- Twenty times the letter a from address 64 on, and a zero.
abbrev letters : ℕ → ℕ
letters a = if a == 84 then 0 else 97

abbrev lettered : Machine
lettered = record {
  State = Unit {0};
  arch = arm;
  reg_read = λ r st. (none, 0);
  reg_write = λ r v st. (none, st);
  mem_read = λ a n st. (none, cells letters a n);
  mem_write = λ a b st. (none, st);
}

letters-EndsAt : EndsAt letters 64 20
letters-EndsAt = (refl, λ i l. ground arith)

mem_read_string-cells_example : mem_read_string lettered 2 64 tt ≡ some (ok (cells letters 64 20))
mem_read_string-cells_example =
    mem_read_string-cells lettered tt letters (λ a n h. refl) 2 64 20 (omega arith) (omega arith)
      letters-EndsAt

-- A pointer of ARM has four bytes.
pointer_runs : mem_read_pointer lettered 82 tt ≡ ok 0x61006161
unfolding mem_read_pointer
pointer_runs = refl
