-- ===== src/Calls/Tests.antt =====
-- The calling convention of internal/debugger/arm/arm.go on a machine that keeps what is written: five
-- arguments, of which the last goes to the stack, and what a value of eight bytes becomes.
use microdbg.Base.{
  ℕ, zero, suc, ◌+◌, ◌-◌, ◌%◌, ◌^◌, ◌≤◌, ◌<◌, ◌≡◌, inl, refl, ap, sym, ◌∙◌, true, none, some, List,
  [], ◌∷◌, ◌&&◌, length, take, drop, ltb, leb, ◌==◌, if◌then◌else◌, arith,
}
use microdbg.Bytes.{byte_at}
use microdbg.Errors.{ok}
use microdbg.Emulator.{Machine, arm}
use microdbg.Encoding.Memory.{Memory, Heap, load}
use microdbg.Pointers.Strings.{cells}
use microdbg.Calls.{default, arg_write}
use microdbg.Calls.Arm.{arm_cpu}
use microdbg.Calls.RoundTrip.{Behaves, Arg, values, AreSources, AreTargets}
use microdbg.Calls.RoundTrip.Whole.{Found, extract-arg_write}

record Machine32 : Type 0 where
  regs : ℕ → ℕ
  mem : ℕ → ℕ

abbrev put : (ℕ → ℕ) → ℕ → List ℕ → ℕ → ℕ
put mem p b a = if leb p a && ltb a (p + length b) then byte_at b (a - p) else mem a

abbrev keeping : Machine
keeping = record {
  State = Machine32;
  arch = arm;
  reg_read = λ r st. (none, st.regs r);
  reg_write = λ r v st. (none, record st { regs = λ q. if q == r then v % 256 ^ 4 else st.regs q });
  mem_read = λ a n st. (none, cells st.mem a n);
  mem_write = λ p b st. (none, record st { mem = put st.mem p b });
}

take-drop :
    (b : List ℕ) (off n : ℕ)
    → off < length b
    → take (suc n) (drop off b) ≡ byte_at b off ∷ take n (drop (suc off) b)
unfolding byte_at
take-drop [] off n h = absurd (omega arith)
take-drop (x ∷ b) zero n h = refl
take-drop (x ∷ b) (suc off) n h = take-drop b off n (omega arith)

cells-put :
    (mem : ℕ → ℕ) (p : ℕ) (b : List ℕ) (n off a : ℕ)
    → a ≡ p + off
    → off + n ≤ length b
    → cells (put mem p b) a n ≡ take n (drop off b)
cells-put mem p b zero off a e fits = refl
cells-put mem p b (suc n) off a e fits =
    ap (λ (x : ℕ). x ∷ cells (put mem p b) (suc a) n) first
    ∙ ap (λ (l : List ℕ). byte_at b off ∷ l)
        (cells-put mem p b n (suc off) (suc a) (omega arith) (omega arith))
    ∙ sym (take-drop b off n (omega arith))
  where
    first : put mem p b a ≡ byte_at b off
    first =
        let t : leb p a && ltb a (p + length b) ≡ true = ground arith in
        let q : a - p ≡ off = omega arith in rw (t, q) refl

abbrev keeping_laws : Behaves keeping arm_cpu 0x7000 0x8000
keeping_laws = record {
  ready = λ st. Unit {0};
  writes = λ r v st u up. (refl, tt);
  same = λ r v st u up. ground arith;
  others = λ r q v st u w up ne. ground arith;
  stores = λ p b st up below above. refl;
  shows = λ p b off n st up below above fits.
      ap (λ (l : List ℕ). (none, l)) (cells-put st.mem p b n off (p + off) refl fits);
  untouched = λ r p b st u up below above. refl;
}

abbrev go : Memory
go a = some (a % 256)

abbrev heap : Heap
heap = record { mem = λ a. some 0; next = 0x4000 }

abbrev word_at : ℕ → ℕ → Arg
word_at p q = record { source = p; target = q; bytes = p ∷ (p + 1) ∷ (p + 2) ∷ (p + 3) ∷ [] }

abbrev five : List Arg
five =
    word_at 10 0x1000
    ∷ word_at 20 0x1010
    ∷ word_at 30 0x1020
    ∷ word_at 40 0x1030
    ∷ word_at 50 0x1040
    ∷ []

-- The stack pointer is 0x8000.
abbrev start : Machine32
start = record { regs = λ r. 0x8000; mem = λ a. 0 }

five-AreSources : AreSources go 4 five
unfolding load
five-AreSources = (
  omega arith,
  omega arith,
  omega arith,
  refl,
  omega arith,
  (
    omega arith,
    omega arith,
    omega arith,
    refl,
    omega arith,
    (
      omega arith,
      omega arith,
      omega arith,
      refl,
      omega arith,
      (
        omega arith,
        omega arith,
        omega arith,
        refl,
        omega arith,
        (omega arith, omega arith, omega arith, refl, omega arith, tt),
      ),
    ),
  ),
)

zeros : List ℕ
zeros = 0 ∷ 0 ∷ 0 ∷ 0 ∷ []

five-AreTargets : AreTargets heap.mem five
unfolding load zeros
five-AreTargets = (
  omega arith,
  (zeros, refl),
  (
    omega arith,
    (zeros, refl),
    (omega arith, (zeros, refl), (omega arith, (zeros, refl), (omega arith, (zeros, refl), tt))),
  ),
)

extract-arg_write_example :
    (st' : Machine32) × (arg_write keeping arm_cpu 1 0x2000 go default (values five) start
      ≡ (ok tt, st'))
    × Found keeping arm_cpu 1 0x2000 default heap five st'
extract-arg_write_example =
    extract-arg_write keeping arm_cpu 1 0x2000 (inl refl) 0x7000 0x8000 keeping_laws (omega arith)
      (omega arith) go default refl heap five five-AreSources five-AreTargets (λ i h. omega arith) 3
      start tt refl (omega arith) (omega arith) (omega arith) (omega arith) refl
