-- ===== src/Streams/Interface.antt =====
-- The interface `Stream` of encoding/stream.go, and its `fakeStream`. `W` is the state that a write may
-- change; the count that a read or a write returns is read by no caller and is left out.
use microdbg.Base.{ℕ, Bool, true, false, Option, none, some, List}
use microdbg.Errors.{Result, ok, err, panic}

pub record StreamOps (W : Type 0) : Type 1 where
  pub Str : Type 0
  pub block_size : Str → ℕ
  pub offset : Str → ℕ
  pub skip : ℕ → Str → Str
  pub read : ℕ → Str → W → Result (List ℕ) × Str
  pub read_float : Str → W → Result ℕ × Str
  pub read_double : Str → W → Result ℕ × Str
  -- `none` where a loop ran out of fuel
  pub read_string : Str → W → Option (Result (List ℕ) × Str)
  pub read_stream : Str → W → Result Str × Str
  pub write : List ℕ → Str → W → Result (Unit {0}) × Str × W
  pub write_float : ℕ → Str → W → Result (Unit {0}) × Str × W
  pub write_double : ℕ → Str → W → Result (Unit {0}) × Str × W
  pub write_string : List ℕ → Str → W → Result (Unit {0}) × Str × W
  pub write_stream : ℕ → Str → W → Result Str × Str × W

-- A stream that may be wrapped as `fakeStream`, which returns what it wraps as the stream behind it.
module _ {W : Type 0} (ops : StreamOps W) where
  abbrev pub Faked : Type 0
  Faked = Bool × ops.Str

  abbrev again {ℓ} : {A : Type ℓ} → Bool → A × ops.Str → A × Faked
  again f (a, s) = (a, (f, s))

  abbrev again_maybe {ℓ} : {A : Type ℓ} → Bool → Option (A × ops.Str) → Option (A × Faked)
  again_maybe f none = none
  again_maybe f (some (a, s)) = some (a, (f, s))

  abbrev written_again {ℓ} : {A : Type ℓ} → Bool → A × ops.Str × W → A × Faked × W
  written_again f (a, s, w) = (a, (f, s), w)

  abbrev behind : Bool → Result ops.Str × ops.Str → Result Faked × Faked
  behind f (ok sub, s) = (ok (false, sub), (f, s))
  behind f (err e, s) = (err e, (f, s))
  behind f (panic, s) = (panic, (f, s))

  abbrev behind_written : Bool → Result ops.Str × ops.Str × W → Result Faked × Faked × W
  behind_written f (ok sub, s, w) = (ok (false, sub), (f, s), w)
  behind_written f (err e, s, w) = (err e, (f, s), w)
  behind_written f (panic, s, w) = (panic, (f, s), w)

  pub fake_read_stream : Faked → W → Result Faked × Faked
  fake_read_stream (true, s) w = (ok (false, s), (true, s))
  fake_read_stream (false, s) w = behind false (ops.read_stream s w)

  abbrev pub faked : StreamOps W
  faked = record {
    Str = Faked;
    block_size = λ s. ops.block_size s.1;
    offset = λ s. ops.offset s.1;
    skip = λ n s. (s.0, ops.skip n s.1);
    read = λ n s w. again s.0 (ops.read n s.1 w);
    read_float = λ s w. again s.0 (ops.read_float s.1 w);
    read_double = λ s w. again s.0 (ops.read_double s.1 w);
    read_string = λ s w. again_maybe s.0 (ops.read_string s.1 w);
    read_stream = fake_read_stream;
    write = λ b s w. written_again s.0 (ops.write b s.1 w);
    write_float = λ f s w. written_again s.0 (ops.write_float f s.1 w);
    write_double = λ f s w. written_again s.0 (ops.write_double f s.1 w);
    write_string = λ t s w. written_again s.0 (ops.write_string t s.1 w);
    write_stream = λ n s w. behind_written s.0 (ops.write_stream n s.1 w);
  }
