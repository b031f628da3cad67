-- ===== src/Files/Handlers/Turns.antt =====
-- The order in which internal/debugger/file.go asks its handlers.
use microdbg.Base.{
  ℕ, ◌≡◌, refl, sym, ap, ◌⊎◌, inl, inr, ◌≢◌, false, ◌==◌, List, [], ◌∷◌, ◌++◌, arith,
}
use microdbg.Errors.{Error, Result, ok, err, panic, not_exist, invalid}
use microdbg.Files.{FileManager}
use microdbg.Files.Handlers.{
  FileHandler, or_next, ask_all, without, add_file_handler, remove_file_handler, open_file, stat,
  read_dir, mkdir, readlink, new_socket,
}

-- All these handlers refused in turn, and their calls led from one state to the other.
pub data Refused {S A : Type 0} (call : ℕ → S → Result A × S) : List ℕ → S → S → Type 0 where
  done : {st : S} → Refused call [] st st
  next :
      {h : ℕ} {hs : List ℕ} {st mid last : S} (x : Error)
      → call h st ≡ (err x, mid)
      → Refused call hs mid last
      → Refused call (h ∷ hs) st last

-- An outcome that ends the search: a value, or a panic.
abbrev pub Answers : {S A : Type 0} → Result A × S → Type 0
Answers (ok a, st) = Unit {0}
Answers (err x, st) = ⊥
Answers (panic, st) = Unit {0}

-- The outcome is that of the first handler in order that does not refuse, and `otherwise` if all do.
abbrev pub IsFirst :
    {S A : Type 0}
    → List ℕ
    → (ℕ → S → Result A × S)
    → (S → Result A × S)
    → S
    → Result A × S
    → Type 0
IsFirst {S = S} hs call otherwise st o =
    ((last : S) × Refused call hs st last × (o ≡ otherwise last))
    ⊎ ((before : List ℕ) × (h : ℕ) × (after : List ℕ) × (mid : S) × (hs ≡ before ++ (h ∷ after))
        × Refused call before st mid
        × (o ≡ call h mid)
        × Answers o)

module _ {S A : Type 0} (call : ℕ → S → Result A × S) (otherwise : S → Result A × S) where
  skip-IsFirst :
      (h : ℕ) (hs : List ℕ) (st mid : S) (x : Error) (o : Result A × S)
      → call h st ≡ (err x, mid)
      → IsFirst hs call otherwise mid o
      → IsFirst (h ∷ hs) call otherwise st o
  skip-IsFirst h hs st mid x o e (inl (last, r, f)) = inl (last, next x e r, f)
  skip-IsFirst h hs st mid x o e (inr (before, k, after, m, s, r, f, a)) =
      inr (h ∷ before, k, after, m, ap (λ l. h ∷ l) s, next x e r, f, a)

  asked-IsFirst :
      (h : ℕ) (hs : List ℕ) (st : S) (o : Result A × S)
      → call h st ≡ o
      → ((mid : S) → IsFirst hs call otherwise mid (ask_all hs call otherwise mid))
      → IsFirst (h ∷ hs) call otherwise st (or_next o (ask_all hs call otherwise))
  asked-IsFirst h hs st (ok a, mid) e rest = inr ([], h, hs, st, refl, done, sym e, tt)
  asked-IsFirst h hs st (err x, mid) e rest = skip-IsFirst h hs st mid x _ e (rest mid)
  asked-IsFirst h hs st (panic, mid) e rest = inr ([], h, hs, st, refl, done, sym e, tt)

  pub ask_all-IsFirst :
      (hs : List ℕ) (st : S) → IsFirst hs call otherwise st (ask_all hs call otherwise st)
  unfolding ask_all
  ask_all-IsFirst [] st = inl (st, done, refl)
  ask_all-IsFirst (h ∷ hs) st = asked-IsFirst h hs st (call h st) refl (ask_all-IsFirst hs)

-- Every operation on names, and the making of a socket, asks the handlers in the order of the list:
-- its outcome is that of the first one that does not refuse, which gets the cleaned name, and no
-- later one is asked. If all refuse, the file manager answers itself: with an error, or with a new
-- socket.
pub operations-IsFirst :
    {S : Type 0} (handler : ℕ → FileHandler S) (clean : List ℕ → List ℕ)
    (new_default : ℕ → S → ℕ × S) (fm : FileManager) (name : List ℕ) (flag perm network : ℕ)
    (st : S)
    → IsFirst fm.handlers
        (λ h. (handler h).open_file (clean name) flag perm)
        (λ last. (err not_exist, last))
        st
        (open_file handler clean new_default fm name flag perm st)
      × IsFirst fm.handlers
          (λ h. (handler h).stat (clean name))
          (λ last. (err not_exist, last))
          st
          (stat handler clean new_default fm name st)
      × IsFirst fm.handlers
          (λ h. (handler h).read_dir (clean name))
          (λ last. (err not_exist, last))
          st
          (read_dir handler clean new_default fm name st)
      × IsFirst fm.handlers
          (λ h. (handler h).mkdir (clean name) perm)
          (λ last. (err invalid, last))
          st
          (mkdir handler clean new_default fm name perm st)
      × IsFirst fm.handlers
          (λ h. (handler h).readlink (clean name))
          (λ last. (err invalid, last))
          st
          (readlink handler clean new_default fm name st)
      × IsFirst fm.handlers
          (λ h. (handler h).new_socket network)
          (λ last. (ok (new_default network last).0, (new_default network last).1))
          st
          (new_socket handler clean new_default fm network st)
unfolding open_file stat read_dir mkdir readlink new_socket
operations-IsFirst handler clean new_default fm name flag perm network st = (
  ask_all-IsFirst _ _ fm.handlers st,
  ask_all-IsFirst _ _ fm.handlers st,
  ask_all-IsFirst _ _ fm.handlers st,
  ask_all-IsFirst _ _ fm.handlers st,
  ask_all-IsFirst _ _ fm.handlers st,
  ask_all-IsFirst _ _ fm.handlers st,
)

abbrev pub IsAbsent : ℕ → List ℕ → Type 0
IsAbsent h [] = Unit {0}
IsAbsent h (k ∷ ks) = (k ≢ h) × IsAbsent h ks

without-append : (h : ℕ) (hs : List ℕ) → IsAbsent h hs → without h (hs ++ (h ∷ [])) ≡ hs
unfolding without
without-append h [] a = ground arith
without-append h (k ∷ ks) (ne, a) = rw miss (ap (λ l. k ∷ l) (without-append h ks a))
  where
    miss : (k == h) ≡ false
    miss = ground arith

-- Removing a handler that was just added, and was not there before, gives the manager back.
remove_file_handler-add_file_handler :
    (fm : FileManager) (h : ℕ)
    → IsAbsent h fm.handlers
    → remove_file_handler (add_file_handler fm h) h ≡ fm
unfolding remove_file_handler add_file_handler
remove_file_handler-add_file_handler fm h a =
    ap (λ l. record fm { handlers = l }) (without-append h fm.handlers a)
