-- ===== src/Encoding/Encode.antt =====
-- encoding/encode.go, encoding/encode_array.go and encoding/encode_struct.go: from a Go value to a
-- stream.
use microdbg.Base.{
  ℕ, zero, suc, ◌+◌, ◌-◌, ◌*◌, min, true, false, Option, none, some, List, [], ◌∷◌, ◌++◌, replicate,
  ltb, leb, ◌==◌, if◌then◌else◌,
}
use microdbg.Word.{align, sub64}
use microdbg.Word.Little.{from_bytes}
use microdbg.Errors.{Result, ok, err, panic}
use microdbg.Streams.Interface.{StreamOps}
use microdbg.Encoding.{
  GoType, fixed, float32, float64, word, array, pointer, slice, string, struct, other, Fields, end,
  field, go_size, check_custom, size_of, positive, repeat_size, raw_fields, end_pad, with_pad,
}
use microdbg.Encoding.Memory.{Memory, load}

module _ {W : Type 0} (ops : StreamOps W) (mem : Memory) where
  open ops use {Str, block_size, skip, write_float, write_double, write_string, write_stream}

  abbrev pub Did : Type 0
  Did = Result (Unit {0}) × Str × W

  abbrev pub Handler : Type 0
  Handler = Str → ℕ → W → Did

  abbrev pub done : Str → W → Did
  done s w = (ok tt, s, w)

  -- The next step, where the one before returned no error.
  abbrev pub andthen : Did → (Str → W → Did) → Did
  andthen (ok u, s, w) k = k s w
  andthen (err e, s, w) k = (err e, s, w)
  andthen (panic, s, w) k = (panic, s, w)

  -- A step on bytes of the Go memory, which may fault.
  abbrev pub loaded : Str → W → Option (List ℕ) → (List ℕ → Did) → Did
  loaded s w none k = (panic, s, w)
  loaded s w (some bytes) k = k bytes

  -- `stream.Write(unsafe.Slice((*byte)(ptr), size))`
  abbrev pub raw : ℕ → Handler
  raw size s p w = loaded s w (load mem p size) (λ bytes. ops.write bytes s w)

  -- A slice of `padNull`, which has 8 bytes.
  abbrev pub write_null : ℕ → Str → W → Did
  write_null n s w = if leb n 8 then ops.write (replicate n 0) s w else (panic, s, w)

  abbrev pub padded : ℕ → Handler
  padded bs s p w =
      andthen (raw (min 8 bs) s p w)
        λ s' w'. if ltb 8 bs then write_null (bs - 8) s' w' else done s' w'

  -- The loop over the elements of an array or a slice, `stride` bytes apart.
  unfoldable pub repeat : ℕ → ℕ → Handler → Handler
  repeat zero stride h s p w = done s w
  repeat (suc n) stride h s p w = andthen (h s p w) (λ s' w'. repeat n stride h s' (p + stride) w')

  -- A step on the stream of a new block; the stream it was made from goes on from where it is.
  abbrev pub back_to : Str → Did → Did
  back_to s (r, sub, w) = (r, s, w)

  abbrev pub in_block : Result Str × Str × W → (Str → W → Did) → Did
  in_block (ok sub, s, w) k = back_to s (k sub w)
  in_block (err e, s, w) k = (err e, s, w)
  in_block (panic, s, w) k = (panic, s, w)

  abbrev pub pointer_handler : ℕ → ℕ → Handler → Handler
  pointer_handler bs total h s p w =
      if p == 0
      then done (skip bs s) w
      else in_block (write_stream total s w)
          λ sub w'. loaded sub w' (load mem p 8) (λ v. h sub (from_bytes v) w')

  -- A slice or a string has its data pointer and then its length.
  abbrev pub sliced : ℕ → (ℕ → Handler) → Handler
  sliced elem_size elements s p w = loaded s w (load mem p 8) λ d.
      loaded s w (load mem (p + 8) 8) λ n.
        in_block (write_stream (elem_size * from_bytes n) s w)
          λ sub w'. elements (from_bytes n) sub (from_bytes d) w'

  abbrev pub string_handler : Handler
  string_handler s p w = loaded s w (load mem p 8) λ d. loaded s w (load mem (p + 8) 8) λ n.
      in_block (write_stream (from_bytes n + 1) s w) λ sub w'.
        loaded sub w' (load mem (from_bytes d) (from_bytes n)) (λ str. write_string str sub w')

  -- `none` is the panic for a type without encoding.
  abbrev pub Coder : Type 0
  Coder = Option (Handler × List ℕ)

  abbrev pub array_of : ℕ → Coder → Coder
  array_of n none = none
  array_of n (some (h, size)) = some (repeat n (size_of size) h, repeat_size n size)

  abbrev pub slice_of : ℕ → Coder → Coder
  slice_of bs none = none
  slice_of bs (some (h, size)) =
      some (sliced (size_of size) (λ n. repeat n (size_of size) h), bs ∷ [])

  abbrev pub pointer_to : ℕ → Coder → Coder
  pointer_to bs none = none
  pointer_to bs (some (h, size)) = some (pointer_handler bs (size_of size) h, bs ∷ [])

  -- `encodeFieldAlign`: without a first size it panics.
  abbrev pub field_align : ℕ → Coder → Coder
  field_align offset none = none
  field_align offset (some (h, [])) = none
  field_align offset (some (h, k ∷ ks)) =
      let pad : ℕ = sub64 (align offset k) offset in
      if align offset k == offset
      then some (h, k ∷ ks)
      else some ((λ s p w. h (skip pad s) p w), pad ∷ k ∷ ks)

  -- A field, and the fields after it.
  abbrev pub before : ℕ → Handler → Coder → Coder
  before off h none = none
  before off h (some (rest, size)) =
      some ((λ s p w. andthen (h s (p + off) w) (λ s' w'. rest s' p w')), size)

  abbrev pub field_then : ℕ → List ℕ → Coder → (List ℕ → Coder) → Coder
  field_then off size none more = none
  field_then off size (some (h, field_size)) more = before off h (more (size ++ field_size))

  abbrev pub skip_pad : ℕ → Str → Str
  skip_pad pad s = if positive pad then skip pad s else s

  abbrev pub struct_end : Coder → Coder
  struct_end none = none
  struct_end (some (h, size)) = some (
    (λ s p w. andthen (h s p w) (λ s' w'. done (skip_pad (end_pad size) s') w')),
    with_pad (end_pad size) size,
  )

  -- Without a field that needs a code of its own, a struct is its bytes in memory.
  abbrev pub struct_of : ℕ → Option (List ℕ × ℕ) → Coder → Coder
  struct_of total none fields = struct_end fields
  struct_of total (some (size, offset)) fields =
      some (raw (size_of (size ++ ((total - offset) ∷ []))), size ++ ((total - offset) ∷ []))

  unfoldable mutual
    pub encode : ℕ → GoType → Coder
    encode bs (fixed n) = some (raw n, n ∷ [])
    encode bs float32 =
        some ((λ s p w. loaded s w (load mem p 4) λ f. write_float (from_bytes f) s w), 4 ∷ [])
    encode bs float64 =
        some ((λ s p w. loaded s w (load mem p 8) λ d. write_double (from_bytes d) s w), 8 ∷ [])
    encode bs word = some (padded bs, bs ∷ [])
    encode bs (array n t) =
        let elements = encode bs t in
        if check_custom bs t
        then array_of n elements
        else some (raw (size_of (replicate n (go_size t))), replicate n (go_size t))
    encode bs (pointer t) = pointer_to bs (encode bs t)
    encode bs (slice t) =
        let elements = encode bs t in
        if check_custom bs t
        then slice_of bs elements
        else some (sliced (go_size t) (λ n. raw (go_size t * n)), bs ∷ [])
    encode bs string = some (string_handler, bs ∷ bs ∷ [])
    encode bs (struct size fs) = struct_of size (raw_fields bs fs [] 0) (encode_fields bs fs [])
    encode bs other = none

    -- The handlers of the fields, and the size so far with theirs.
    pub encode_fields : ℕ → Fields → List ℕ → Coder
    encode_fields bs end size = some ((λ s p w. done s w), size)
    encode_fields bs (field true off t fs) size = encode_fields bs fs size
    encode_fields bs (field false off t fs) size =
        field_then off size (field_align (size_of size) (encode bs t))
          (λ size'. encode_fields bs fs size')
