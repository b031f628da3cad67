-- ===== src/Calls/RoundTrip.antt =====
-- What arguments that are written with `ArgWrite` of internal/debugger/arm64/arm64.go are when `Args`
-- extracts them: the setting, for arguments that fit in one register each.
pub mod Placed
pub mod Written
pub mod Extracted
pub mod Whole
use microdbg.Base.{
  ℕ, zero, suc, ◌+◌, ◌-◌, ◌*◌, ◌%◌, ◌^◌, ◌≤◌, ◌<◌, ◌≡◌, ◌≢◌, refl, ap, sym, ◌∙◌, Option, none, some,
  List, [], ◌∷◌, ◌&&◌, ◌⊎◌, Bool-cases, inl, inr, ltb, leb, length, take, drop, arith,
}
use microdbg.Word.{add64, align}
use microdbg.Word.Little.{le_bytes, AllBytes}
use microdbg.Bytes.{byte_at}
use microdbg.Emulator.{Machine}
use microdbg.Encoding.{GoType, fixed, pointer}
use microdbg.Encoding.Memory.{Memory, Heap, load, store, byte_then}
use microdbg.Calls.{Cpu}

-- The registers of the calling convention: those for arguments, and the stack pointer.
abbrev pub IsUsed : Cpu → ℕ → Type 0
IsUsed cpu r = ((j : ℕ) × (j < cpu.abi.arg_reg_count) × (r ≡ cpu.abi.first_gr + j)) ⊎ (r ≡ cpu.sp)

-- In the states `ready`, which such writes do not leave, the registers of the calling convention can be
-- written and keep what is written to them, up to the width of a pointer, each apart from the others,
-- and the stack from `low` to `top` is mapped and keeps what is written to it. Nothing is said of the
-- other registers, which may overlap, or of other memory.
pub record Behaves (m : Machine) (cpu : Cpu) (low top : ℕ) : Type 1 where
  pub ready : m.State → Type 0
  pub writes :
      (r v : ℕ) (st : m.State)
      → IsUsed cpu r
      → ready st
      → ((m.reg_write r v st).0 ≡ none) × ready (m.reg_write r v st).1
  pub same :
      (r v : ℕ) (st : m.State)
      → IsUsed cpu r
      → ready st
      → m.reg_read r (m.reg_write r v st).1 ≡ (none, v % 256 ^ cpu.abi.pointer_size)
  pub others :
      (r q v : ℕ) (st : m.State)
      → IsUsed cpu r
      → IsUsed cpu q
      → ready st
      → q ≢ r
      → m.reg_read q (m.reg_write r v st).1 ≡ m.reg_read q st
  pub stores :
      (p : ℕ) (b : List ℕ) (st : m.State)
      → ready st
      → low ≤ p
      → p + length b ≤ top
      → (m.mem_write p b st).0 ≡ none
  pub shows :
      (p : ℕ) (b : List ℕ) (off n : ℕ) (st : m.State)
      → ready st
      → low ≤ p
      → p + length b ≤ top
      → off + n ≤ length b
      → m.mem_read (p + off) n (m.mem_write p b st).1 ≡ (none, take n (drop off b))
  pub untouched :
      (r p : ℕ) (b : List ℕ) (st : m.State)
      → IsUsed cpu r
      → ready st
      → low ≤ p
      → p + length b ≤ top
      → m.reg_read r (m.mem_write p b st).1 ≡ m.reg_read r st

-- An argument of a fixed size: where it stands, where it is to go, and its bytes.
pub record Arg : Type 0 where
  pub source : ℕ
  pub target : ℕ
  pub bytes : List ℕ

abbrev pub values : List Arg → List (GoType × ℕ)
values [] = []
values (a ∷ as') = (fixed (length a.bytes), a.source) ∷ values as'

abbrev pub targets : List Arg → List (GoType × ℕ)
targets [] = []
targets (a ∷ as') = (pointer (fixed (length a.bytes)), a.target) ∷ targets as'

-- Each argument fills its target.
abbrev pub fill : Heap → List Arg → Heap
fill h [] = h
fill h (a ∷ as') = fill (record h { mem = store h.mem a.target a.bytes }) as'

abbrev pub IsMapped : Memory → ℕ → ℕ → Type 0
IsMapped mem p n = (old : List ℕ) × (load mem p n ≡ some old)

-- The bytes of an argument stand at its source, fit in a word and are not none.
abbrev pub AreSources : Memory → ℕ → List Arg → Type 0
AreSources go word [] = Unit {0}
AreSources go word (a ∷ as') =
    (0 < a.source)
    × (0 < length a.bytes)
    × (length a.bytes ≤ word)
    × (load go a.source (length a.bytes) ≡ some a.bytes)
    × AllBytes a.bytes
    × AreSources go word as'

abbrev pub AreTargets : Memory → List Arg → Type 0
AreTargets mem [] = Unit {0}
AreTargets mem (a ∷ as') =
    (0 < a.target) × IsMapped mem a.target (length a.bytes) × AreTargets mem as'

-- The arguments as a machine and a stack hold them, from register `k` on with `l` registers left, and
-- from offset `s` of the stack on.
module _ (m : Machine) (cpu : Cpu) where
  abbrev pub Holds : List Arg → ℕ → ℕ → ℕ → m.State → List ℕ → Type 0
  Holds [] l k s st stack = Unit {0}
  Holds (a ∷ as') (suc l) k s st stack =
      ((w : ℕ) × (m.reg_read (cpu.abi.first_gr + k) st ≡ (none, w))
        × (take (length a.bytes) (le_bytes 8 w) ≡ a.bytes))
      × Holds as' l (suc k) s st stack
  Holds (a ∷ as') zero k s st stack =
      ((s + length a.bytes ≤ length stack) × (take (length a.bytes) (drop s stack) ≡ a.bytes))
      × Holds as' zero k (align (s + length a.bytes) 4) st stack

-- Bytes that stand at an offset are the slice there.
slice_start :
    (xs b : List ℕ)
    → length b ≤ length xs
    → ((i : ℕ) → i < length b → byte_at xs i ≡ byte_at b i)
    → take (length b) xs ≡ b
unfolding byte_at
slice_start xs [] fits same = refl
slice_start [] (y ∷ b) fits same = absurd (omega arith)
slice_start (x ∷ xs) (y ∷ b) fits same =
    ap (λ t. t ∷ take (length b) xs) (same 0 (omega arith))
    ∙ ap (λ t. y ∷ t) (slice_start xs b (omega arith) (λ i l. same (suc i) (omega arith)))

pub slice_lem :
    (s : ℕ) (xs b : List ℕ)
    → s + length b ≤ length xs
    → ((i : ℕ) → i < length b → byte_at xs (s + i) ≡ byte_at b i)
    → take (length b) (drop s xs) ≡ b
unfolding byte_at
slice_lem zero xs b fits same =
    slice_start xs b (omega arith) (λ i l. ap (byte_at xs) (omega arith) ∙ same i l)
slice_lem (suc s) [] [] fits same = absurd (omega arith)
slice_lem (suc s) [] (y ∷ b) fits same = absurd (omega arith)
slice_lem (suc s) (x ∷ xs) b fits same =
    slice_lem s xs b (omega arith)
      λ i l. let q : suc (s + i) ≡ suc s + i = omega arith in ap (byte_at (x ∷ xs)) q ∙ same i l

-- A write unmaps nothing.
joined-mapped :
    (b b' : Option ℕ) (rest rest' : Option (List ℕ)) (old : List ℕ)
    → ((y : ℕ) → b ≡ some y → (z : ℕ) × (b' ≡ some z))
    → ((ys : List ℕ) → rest ≡ some ys → (zs : List ℕ) × (rest' ≡ some zs))
    → byte_then b rest ≡ some old
    → (new : List ℕ) × (byte_then b' rest' ≡ some new)
joined-mapped none b' rest rest' old f g e = ground arith
joined-mapped (some y) b' none rest' old f g e = ground arith
joined-mapped (some y) b' (some ys) rest' old f g e =
    let (z, p) = f y refl in let (zs, q) = g ys refl in (z ∷ zs, rw (p, q) refl)

store-mapped-one :
    (mem : Memory) (p : ℕ) (b : List ℕ) (a y : ℕ)
    → mem a ≡ some y
    → (z : ℕ) × (store mem p b a ≡ some z)
unfolding store
store-mapped-one mem p b a y e = elim (Bool-cases (leb p a && ltb a (p + length b))) [
  | inl here ↦ (byte_at b (a - p), rw here refl)
  | inr away ↦ (y, rw away e)
]

pub store-IsMapped :
    (mem : Memory) (p : ℕ) (b : List ℕ) (q n : ℕ) → IsMapped mem q n → IsMapped (store mem p b) q n
unfolding load
store-IsMapped mem p b q zero (old, e) = ([], refl)
store-IsMapped mem p b q (suc n) (old, e) =
    joined-mapped (mem q) (store mem p b q) (load mem (suc q) n) (load (store mem p b) (suc q) n)
      old (store-mapped-one mem p b q) (λ ys f. store-IsMapped mem p b (suc q) n (ys, f)) e

pub store-AreTargets :
    (mem : Memory) (p : ℕ) (b : List ℕ) (as' : List Arg)
    → AreTargets mem as'
    → AreTargets (store mem p b) as'
store-AreTargets mem p b [] t = tt
store-AreTargets mem p b (a ∷ as') (pos, mapped, rest) = (
  pos,
  store-IsMapped mem p b a.target (length a.bytes) mapped,
  store-AreTargets mem p b as' rest,
)
