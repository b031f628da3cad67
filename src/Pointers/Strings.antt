-- ===== src/Pointers/Strings.antt =====
-- Reading a text of `MemReadString` of emulator/pointer.go up to its terminating zero.
use microdbg.Base.{
  ℕ, zero, suc, ◌+◌, ◌-◌, ◌*◌, ◌/◌, ◌≤◌, ◌<◌, ◌≡◌, ◌≢◌, refl, ap, sym, ◌∙◌, true, false, none, some,
  List, [], ◌∷◌, ◌++◌, inl, inr, ltb, Bool-cases, arith,
}
use microdbg.Word.{add64}
use microdbg.Errors.{ok}
use microdbg.Emulator.{Machine}
use microdbg.Pointers.{has_zero, before_zero, read_chunks, mem_read_string}

-- The bytes at `n` addresses from `a` on.
abbrev pub cells : (ℕ → ℕ) → ℕ → ℕ → List ℕ
cells mem a zero = []
cells mem a (suc n) = mem a ∷ cells mem (suc a) n

-- Every read within the address space succeeds, and shows the bytes of `mem`.
abbrev pub Shows : (m : Machine) → m.State → (ℕ → ℕ) → Type 0
Shows m st mem =
    (a n : ℕ) → a + n ≤ 18446744073709551616 → m.mem_read a n st ≡ (none, cells mem a n)

-- The first zero from `a` on stands `k` bytes further.
abbrev pub EndsAt : (ℕ → ℕ) → ℕ → ℕ → Type 0
EndsAt mem a k = (mem (a + k) ≡ 0) × ((i : ℕ) → i < k → mem (a + i) ≢ 0)

EndsAt-suc : (mem : ℕ → ℕ) (a k : ℕ) → EndsAt mem a (suc k) → EndsAt mem (suc a) k
EndsAt-suc mem a k (z, before) =
    (ap mem (omega arith) ∙ z, λ i l e. before (suc i) (omega arith) (ap mem (omega arith) ∙ e))

here-ne : (mem : ℕ → ℕ) (a k : ℕ) → EndsAt mem a (suc k) → mem a ≢ 0
here-ne mem a k (z, before) e = before 0 (omega arith) (ap mem (omega arith) ∙ e)

here-zero : (mem : ℕ → ℕ) (a : ℕ) → EndsAt mem a 0 → mem a ≡ 0
here-zero mem a (z, before) = ap mem (omega arith) ∙ z

-- A chunk that reaches the zero, and one that does not.
chunk_with_end :
    (mem : ℕ → ℕ) (n a k : ℕ)
    → k < n
    → EndsAt mem a k
    → (has_zero (cells mem a n) ≡ true) × (before_zero (cells mem a n) ≡ cells mem a k)
unfolding has_zero before_zero
chunk_with_end mem zero a k l e = absurd (omega arith)
chunk_with_end mem (suc n) a zero l e = ground (arith, here-zero mem a e)
chunk_with_end mem (suc n) a (suc k) l e =
    ground (
      arith,
      here-ne mem a k e,
      chunk_with_end mem n (suc a) k (omega arith) (EndsAt-suc mem a k e),
    )

chunk_without_end :
    (mem : ℕ → ℕ) (n a k : ℕ) → n ≤ k → EndsAt mem a k → has_zero (cells mem a n) ≡ false
unfolding has_zero
chunk_without_end mem zero a k l e = refl
chunk_without_end mem (suc n) a zero l e = absurd (omega arith)
chunk_without_end mem (suc n) a (suc k) l e = ground (
  arith,
  here-ne mem a k e,
  chunk_without_end mem n (suc a) k (omega arith) (EndsAt-suc mem a k e),
)

cells-add :
    (mem : ℕ → ℕ) (n a k : ℕ) → n ≤ k → cells mem a k ≡ cells mem a n ++ cells mem (a + n) (k - n)
cells-add mem zero a k l =
    ap (λ b. cells mem b k) (omega arith) ∙ ap (cells mem (a + 0)) (omega arith)
cells-add mem (suc n) a zero l = absurd (omega arith)
cells-add mem (suc n) a (suc k) l =
    ap (λ t. mem a ∷ t)
      (cells-add mem n (suc a) k (omega arith)
        ∙ ap (λ b. cells mem (suc a) n ++ cells mem b (k - n)) (omega arith)
        ∙ ap (λ j. cells mem (suc a) n ++ cells mem (a + suc n) j) (omega arith))

append_assoc : (xs ys zs : List ℕ) → (xs ++ ys) ++ zs ≡ xs ++ (ys ++ zs)
append_assoc [] ys zs = refl
append_assoc (x ∷ xs) ys zs = ap (λ l. x ∷ l) (append_assoc xs ys zs)

EndsAt-later : (mem : ℕ → ℕ) (n a k : ℕ) → n ≤ k → EndsAt mem a k → EndsAt mem (a + n) (k - n)
EndsAt-later mem n a k l (z, before) =
    (ap mem (omega arith) ∙ z, λ i m e. before (n + i) (omega arith) (ap mem (omega arith) ∙ e))

module _ (m : Machine) (st : m.State) (mem : ℕ → ℕ) (shows : Shows m st mem) where
  read_chunks_lem :
      (fuel begin k : ℕ) (got : List ℕ)
      → k < 16 * fuel
      → begin + k + 16 ≤ 18446744073709551616
      → EndsAt mem begin k
      → read_chunks m fuel begin got st ≡ some (ok (got ++ cells mem begin k))
  unfolding read_chunks
  read_chunks_lem zero begin k got enough room ends = absurd (omega arith)
  read_chunks_lem (suc fuel) begin k got enough room ends =
      rw (shows begin 16 (omega arith)) (elim (Bool-cases (ltb k 16)) [
        | inl near ↦
            let (found, text) = chunk_with_end mem 16 begin k (ground arith) ends in
            rw (found, text) refl
        | inr far ↦
            let l : 16 ≤ k = ground arith in
            rw (chunk_without_end mem 16 begin k l ends) (
              ap (λ b. read_chunks m fuel b (got ++ cells mem begin 16) st) (next l)
              ∙ read_chunks_lem fuel (begin + 16) (k - 16) (got ++ cells mem begin 16) (omega arith)
                  (omega arith) (EndsAt-later mem 16 begin k l ends)
              ∙ ap (λ t. some (ok t))
                  (append_assoc got (cells mem begin 16) _
                    ∙ ap (λ t. got ++ t) (sym (cells-add mem 16 begin k l))))
      ])
    where
      next : 16 ≤ k → add64 begin 16 ≡ begin + 16
      next l = omega arith

  -- Reading a text: the loop ends, and the bytes before the first zero are returned, however many
  -- chunks they fill. Fuel for one round more than the full chunks before the zero is enough. The
  -- conditions: the memory can be read, and the chunk with the zero ends within the address space.
  pub mem_read_string-cells :
      (fuel p k : ℕ)
      → k / 16 < fuel
      → p + k + 16 ≤ 18446744073709551616
      → EndsAt mem p k
      → mem_read_string m fuel p st ≡ some (ok (cells mem p k))
  unfolding mem_read_string
  mem_read_string-cells fuel p k enough room ends =
      read_chunks_lem fuel p k [] (omega arith) room ends
