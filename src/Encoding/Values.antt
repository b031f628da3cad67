-- ===== src/Encoding/Values.antt =====
-- `Encode` and `Decode` of the package encoding. A value in an interface is its type and its data word:
-- a pointer, or the address of the value; a nil interface has the data word 0.
use microdbg.Base.{ℕ, Bool, true, false, Option, none, some, List, ◌==◌, if◌then◌else◌}
use microdbg.Word.Little.{le_bytes}
use microdbg.Errors.{Result, ok, panic}
use microdbg.Streams.Interface.{StreamOps, Faked, faked}
use microdbg.Encoding.{GoType, pointer, slice, string, struct, Fields, end, field}
use microdbg.Encoding.Memory.{Memory, Heap, load, store, unsafe_new}
use microdbg.Encoding.Encode as Encode
use microdbg.Encoding.Encode.{encode}
use microdbg.Encoding.Decode.{decode}

-- Whether the data word of an interface is the value itself.
abbrev pub is_pointer : GoType → Bool
is_pointer (pointer t) = true
is_pointer t = false

abbrev pub one_pointer : Fields → Bool
one_pointer (field ignored off t end) = is_pointer t
one_pointer fs = false

abbrev pub in_word : GoType → Bool
in_word (pointer t) = true
in_word (struct size fs) = one_pointer fs
in_word t = false

-- `scratch` is the address of the local variable that holds a data word.
module _ {W : Type 0} (ops : StreamOps W) (scratch : ℕ) where
  open ops use {Str, block_size, skip}

  abbrev pub encoded : Result (Unit {0}) × Str × W → Str → ℕ → W → Result (Unit {0}) × Str × W
  encoded r s p w = r

  abbrev pub encode_with :
      (mem : Memory) → Encode.Coder ops mem → Str → ℕ → W → Result (Unit {0}) × Str × W
  encode_with mem none s p w = (panic, s, w)
  encode_with mem (some (handler, size)) s p w = handler s p w

  -- The memory with a data word in the local variable.
  abbrev pub with_word : Memory → ℕ → Memory
  with_word mem p = store mem scratch (le_bytes 8 p)

  abbrev pub encode_data : Memory → GoType → ℕ → Str → W → Result (Unit {0}) × Str × W
  encode_data mem t p s w =
      if in_word t
      then encode_with (with_word mem p) (encode ops (with_word mem p) (block_size s) t) s scratch w
      else encode_with mem (encode ops mem (block_size s) t) s p w

  unfoldable pub encode_value : Memory → GoType × ℕ → Str → W → Result (Unit {0}) × Str × W
  unfolding encode store le_bytes load
  encode_value mem (t, p) s w =
      if p == 0 then Encode.write_null ops mem (block_size s) s w else encode_data mem t p s w

  abbrev pub decode_with :
      {S : Type 0}
      → Option ((S → ℕ → Heap → Option (Result (Unit {0}) × S × Heap)) × List ℕ)
      → S
      → ℕ
      → Heap
      → Option (Result (Unit {0}) × S × Heap)
  decode_with none s p h = some (panic, s, h)
  decode_with (some (handler, size)) s p h = handler s p h

  abbrev pub unfaked :
      Option (Result (Unit {0}) × Faked ops × Heap) → Option (Result (Unit {0}) × Str × Heap)
  unfaked none = none
  unfaked (some (r, (f, s), h)) = some (r, s, h)

  -- A slice and a string are read from the stream itself, a pointer's value goes to where it points.
  abbrev pub decode_data : GoType → ℕ → Str → W → Heap → Option (Result (Unit {0}) × Str × Heap)
  decode_data (pointer t) p s w h = decode_with (decode ops w (block_size s) t) s p h
  decode_data (slice t) p s w h =
      unfaked (decode_with (decode (faked ops) w (block_size s) (slice t)) (true, s) p h)
  decode_data string p s w h =
      unfaked (decode_with (decode (faked ops) w (block_size s) string) (true, s) p h)
  decode_data (struct size fs) p s w h =
      if one_pointer fs
      then decode_with (decode ops w (block_size s) (struct size fs)) s scratch
          (record h { mem = with_word h.mem p })
      else decode_with (decode ops w (block_size s) (struct size fs)) s p h
  decode_data t p s w h = decode_with (decode ops w (block_size s) t) s p h

  unfoldable pub decode_value :
      GoType × ℕ → Str → W → Heap → Option (Result (Unit {0}) × Str × Heap)
  unfolding decode store le_bytes load unsafe_new
  decode_value (t, p) s w h =
      if p == 0 then some (ok tt, skip (block_size s) s, h) else decode_data t p s w h
