-- ===== src/Bytes.antt =====
-- Byte slices as lists, with the Go statements on them that internal/debugger/buffer.go and
-- filesystem/virtual.go share: `copy` into a slice from an offset, and growth by zero bytes.
use microdbg.Base.{
  ℕ, zero, suc, ◌+◌, ◌-◌, ◌≤◌, ◌<◌, max, ◌≡◌, refl, ap, ◌∙◌, List, [], ◌∷◌, ◌++◌, length, take,
  drop, replicate, length-append, length-take, length-drop, ltb, leb, ◌&&◌, if◌then◌else◌, arith,
}

-- The byte at an index, and 0 beyond the end.
unfoldable pub byte_at : List ℕ → ℕ → ℕ
byte_at [] i = 0
byte_at (b ∷ bs) zero = b
byte_at (b ∷ bs) (suc i) = byte_at bs i

-- `copy(data[off:], b)` where `b` fits.
unfoldable pub overwrite : List ℕ → ℕ → List ℕ → List ℕ
overwrite xs off b = (take off xs ++ b) ++ drop (off + length b) xs

pub byte_at-append_front :
    (xs ys : List ℕ) (i : ℕ) → i < length xs → byte_at (xs ++ ys) i ≡ byte_at xs i
unfolding byte_at
byte_at-append_front [] ys i h = absurd (omega arith)
byte_at-append_front (x ∷ xs) ys zero h = refl
byte_at-append_front (x ∷ xs) ys (suc i) h = byte_at-append_front xs ys i (omega arith)

pub byte_at-append_back :
    (xs ys : List ℕ) (i j : ℕ) → j ≡ length xs + i → byte_at (xs ++ ys) j ≡ byte_at ys i
unfolding byte_at
byte_at-append_back [] ys i j e = ap (byte_at ys) (omega arith)
byte_at-append_back (x ∷ xs) ys i zero e = absurd (omega arith)
byte_at-append_back (x ∷ xs) ys i (suc j) e = byte_at-append_back xs ys i j (omega arith)

pub byte_at-take : (n i : ℕ) (xs : List ℕ) → i < n → byte_at (take n xs) i ≡ byte_at xs i
unfolding byte_at
byte_at-take zero i xs h = absurd (omega arith)
byte_at-take (suc n) i [] h = refl
byte_at-take (suc n) zero (x ∷ xs) h = refl
byte_at-take (suc n) (suc i) (x ∷ xs) h = byte_at-take n i xs (omega arith)

pub byte_at-drop : (n i j : ℕ) (xs : List ℕ) → j ≡ n + i → byte_at (drop n xs) i ≡ byte_at xs j
unfolding byte_at
byte_at-drop zero i j xs e = ap (byte_at xs) (omega arith)
byte_at-drop (suc n) i j [] e = refl
byte_at-drop (suc n) i zero (x ∷ xs) e = absurd (omega arith)
byte_at-drop (suc n) i (suc j) (x ∷ xs) e = byte_at-drop n i j xs (omega arith)

pub byte_at-beyond : (i : ℕ) (xs : List ℕ) → length xs ≤ i → byte_at xs i ≡ 0
unfolding byte_at
byte_at-beyond i [] h = refl
byte_at-beyond zero (x ∷ xs) h = absurd (omega arith)
byte_at-beyond (suc i) (x ∷ xs) h = byte_at-beyond i xs (omega arith)

pub byte_at-zeros : (n i : ℕ) → byte_at (replicate n 0) i ≡ 0
unfolding byte_at
byte_at-zeros zero i = refl
byte_at-zeros (suc n) zero = refl
byte_at-zeros (suc n) (suc i) = byte_at-zeros n i

-- What stands at an index after bytes were written at an offset.
abbrev pub written : List ℕ → ℕ → List ℕ → ℕ → ℕ
written xs off b i =
    if leb off i && ltb i (off + length b) then byte_at b (i - off) else byte_at xs i

module _ (xs : List ℕ) (off : ℕ) (b : List ℕ) (h : off ≤ length xs) where
  head_length : length (take off xs ++ b) ≡ off + length b
  head_length = omega (arith, length-append (take off xs) b, length-take off xs)

  before_lem : (i : ℕ) → i < off → byte_at (overwrite xs off b) i ≡ byte_at xs i
  unfolding overwrite
  before_lem i l =
      byte_at-append_front (take off xs ++ b) _ i (omega (arith, head_length))
      ∙ byte_at-append_front (take off xs) b i (omega (arith, length-take off xs))
      ∙ byte_at-take off i xs l

  inside_lem :
      (i : ℕ) → off ≤ i → i < off + length b → byte_at (overwrite xs off b) i ≡ byte_at b (i - off)
  unfolding overwrite
  inside_lem i l u =
      byte_at-append_front (take off xs ++ b) _ i (omega (arith, head_length))
      ∙ byte_at-append_back (take off xs) b (i - off) i (omega (arith, length-take off xs))

  after_lem : (i : ℕ) → off + length b ≤ i → byte_at (overwrite xs off b) i ≡ byte_at xs i
  unfolding overwrite
  after_lem i l =
      byte_at-append_back (take off xs ++ b) _ (i - (off + length b)) i (omega (arith, head_length))
      ∙ byte_at-drop (off + length b) (i - (off + length b)) i xs (omega arith)

  pub byte_at-overwrite : (i : ℕ) → byte_at (overwrite xs off b) i ≡ written xs off b i
  byte_at-overwrite i = ground (arith, before_lem i, inside_lem i, after_lem i)

  pub length-overwrite : length (overwrite xs off b) ≡ max (length xs) (off + length b)
  unfolding overwrite
  length-overwrite = omega (
    arith,
    length-append (take off xs ++ b) (drop (off + length b) xs),
    head_length,
    length-drop (off + length b) xs,
  )

-- Reading back what was written.
drop-append : (xs ys : List ℕ) (n : ℕ) → n ≡ length xs → drop n (xs ++ ys) ≡ ys
drop-append [] ys zero e = refl
drop-append [] ys (suc n) e = absurd (omega arith)
drop-append (x ∷ xs) ys zero e = absurd (omega arith)
drop-append (x ∷ xs) ys (suc n) e = drop-append xs ys n (omega arith)

take-append : (xs ys : List ℕ) (n : ℕ) → n ≡ length xs → take n (xs ++ ys) ≡ xs
take-append [] ys zero e = refl
take-append [] ys (suc n) e = absurd (omega arith)
take-append (x ∷ xs) ys zero e = absurd (omega arith)
take-append (x ∷ xs) ys (suc n) e = ap (λ l. x ∷ l) (take-append xs ys n (omega arith))

append_assoc : (xs ys zs : List ℕ) → (xs ++ ys) ++ zs ≡ xs ++ (ys ++ zs)
append_assoc [] ys zs = refl
append_assoc (x ∷ xs) ys zs = ap (λ l. x ∷ l) (append_assoc xs ys zs)

pub take-overwrite :
    (xs : List ℕ) (off : ℕ) (b : List ℕ)
    → off ≤ length xs
    → take (length b) (drop off (overwrite xs off b)) ≡ b
unfolding overwrite
take-overwrite xs off b h =
    rw
      (
        append_assoc (take off xs) b (drop (off + length b) xs),
        drop-append (take off xs) (b ++ drop (off + length b) xs) off
            (omega (arith, length-take off xs)),
      )
      (take-append b (drop (off + length b) xs) (length b) refl)

drop-all : (n : ℕ) (xs : List ℕ) → length xs ≤ n → drop n xs ≡ []
drop-all zero [] h = refl
drop-all zero (x ∷ xs) h = absurd (omega arith)
drop-all (suc n) [] h = refl
drop-all (suc n) (x ∷ xs) h = drop-all n xs (omega arith)

append-nil : (xs : List ℕ) → xs ++ [] ≡ xs
append-nil [] = refl
append-nil (x ∷ xs) = ap (λ l. x ∷ l) (append-nil xs)

-- Bytes that reach the end replace all that stood there.
pub overwrite-to_end :
    (xs : List ℕ) (off : ℕ) (b : List ℕ)
    → length xs ≤ off + length b
    → overwrite xs off b ≡ take off xs ++ b
unfolding overwrite
overwrite-to_end xs off b h = rw (drop-all (off + length b) xs h) (append-nil (take off xs ++ b))
