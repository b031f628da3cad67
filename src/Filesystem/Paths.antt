-- ===== src/Filesystem/Paths.antt =====
-- The paths of filesystem/virtual.go: its `split`, and what it uses of the Go packages path/filepath and
-- strings, on Unix. A path is its bytes.
pub mod Lengths
use microdbg.Base.{
  ℕ, suc, ◌+◌, ◌≤◌, ◌<◌, ◌≡◌, ◌≢◌, ◌⊎◌, refl, ap, ◌∙◌, Bool, true, false, ◌&&◌, List, [], ◌∷◌, ◌++◌,
  length, length-append, ◌==◌, if◌then◌else◌, Bool-cases, inl, inr, arith,
}

abbrev pub Text : Type 0
Text = List ℕ

abbrev pub slash : ℕ
slash = 0x2f

abbrev pub dot : ℕ
dot = 0x2e

abbrev pub same : Text → Text → Bool
same [] [] = true
same [] (b ∷ bs) = false
same (a ∷ as') [] = false
same (a ∷ as') (b ∷ bs) = (a == b) && same as' bs

abbrev pub is_empty : Text → Bool
is_empty [] = true
is_empty (c ∷ cs) = false

-- `filepath.Split`: what stands up to the last slash, and what is behind it.
abbrev pub put_front : ℕ → Text × Text → Text × Text
put_front c ([], file) = if c == slash then (c ∷ [], file) else ([], c ∷ file)
put_front c (d ∷ ds, file) = (c ∷ d ∷ ds, file)

unfoldable pub split_last : Text → Text × Text
split_last [] = ([], [])
split_last (c ∷ cs) = put_front c (split_last cs)

-- `strings.Index(path, "/")` and the two slices, or all of it.
abbrev pub put_first : ℕ → Text × Text → Text × Text
put_first c (a, b) = (c ∷ a, b)

unfoldable pub split_first : Text → Text × Text
split_first [] = ([], [])
split_first (c ∷ cs) = if c == slash then ([], cs) else put_first c (split_first cs)

-- What stands between the slashes.
abbrev pub put_part : ℕ → List Text → List Text
put_part c [] = (c ∷ []) ∷ []
put_part c (p ∷ ps) = (c ∷ p) ∷ ps

pub parts : Text → List Text
parts [] = [] ∷ []
parts (c ∷ cs) = if c == slash then [] ∷ parts cs else put_part c (parts cs)

abbrev pub dot_dot : Text
dot_dot = dot ∷ dot ∷ []

-- The parts that are left, the last one first. A part `..` takes back the part before it, if there is
-- one, is dropped at the root and stays otherwise.
abbrev pub up : Bool → List Text → List Text
up rooted [] = if rooted then [] else dot_dot ∷ []
up rooted (p ∷ ps) = if same p dot_dot then dot_dot ∷ p ∷ ps else ps

pub reduce : Bool → List Text → List Text → List Text
reduce rooted kept [] = kept
reduce rooted kept (p ∷ ps) =
    reduce rooted
      (if is_empty p
        then kept
        else if same p (dot ∷ [])
        then kept
        else if same p dot_dot
        then up rooted kept
        else p ∷ kept)
      ps

-- The parts, given the last one first, with slashes between them.
pub join : List Text → Text → Text
join [] rest = rest
join (p ∷ []) rest = p ++ rest
join (p ∷ q ∷ ps) rest = join (q ∷ ps) (slash ∷ p ++ rest)

abbrev pub is_rooted : Text → Bool
is_rooted [] = false
is_rooted (c ∷ cs) = c == slash

abbrev pub or_dot : Text → Text
or_dot [] = dot ∷ []
or_dot (c ∷ cs) = c ∷ cs

-- `filepath.Clean`
unfoldable pub clean : Text → Text
unfolding parts reduce join
clean path =
    if is_rooted path
    then slash ∷ join (reduce true [] (parts path)) []
    else or_dot (join (reduce false [] (parts path)) [])

-- `strings.TrimPrefix(path, "/")`
abbrev pub trim_slash : Text → Text
trim_slash [] = []
trim_slash (c ∷ cs) = if c == slash then cs else c ∷ cs

unfoldable pub split : Text → Text × Text
unfolding clean split_first
split path = split_first (trim_slash (clean path))
