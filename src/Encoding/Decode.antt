-- ===== src/Encoding/Decode.antt =====
-- encoding/decode.go, encoding/decode_array.go and encoding/decode_struct.go: from a stream to a Go
-- value in memory. A result that is `none` means that the fuel for reading a text ran out.
use microdbg.Base.{
  ℕ, zero, suc, ◌+◌, ◌-◌, ◌*◌, min, true, false, Option, none, some, List, [], ◌∷◌, ◌++◌, length,
  replicate, ltb, ◌==◌, if◌then◌else◌,
}
use microdbg.Word.{align, sub64}
use microdbg.Word.Little.{le_bytes, from_bytes}
use microdbg.Errors.{Result, ok, err, panic}
use microdbg.Streams.Interface.{StreamOps}
use microdbg.Encoding.{
  GoType, fixed, float32, float64, word, array, pointer, slice, string, struct, other, Fields, end,
  field, go_size, check_custom, size_of, positive, repeat_size, raw_fields, end_pad, with_pad,
}
use microdbg.Encoding.Memory.{Heap, load, store, unsafe_new}

module _ {W : Type 0} (ops : StreamOps W) (w : W) where
  open ops use {Str, offset, skip, read_float, read_double, read_string, read_stream}

  abbrev pub Got : Type 0
  Got = Option (Result (Unit {0}) × Str × Heap)

  abbrev pub Handler : Type 0
  Handler = Str → ℕ → Heap → Got

  abbrev pub done : Str → Heap → Got
  done s h = some (ok tt, s, h)

  abbrev pub andthen : Got → (Str → Heap → Got) → Got
  andthen none k = none
  andthen (some (ok u, s, h)) k = k s h
  andthen (some (err e, s, h)) k = some (err e, s, h)
  andthen (some (panic, s, h)) k = some (panic, s, h)

  abbrev pub loaded : Str → Heap → Option (List ℕ) → (List ℕ → Got) → Got
  loaded s h none k = some (panic, s, h)
  loaded s h (some bytes) k = k bytes

  -- Bytes that were read into the slice at `p`. Beside an error nothing is taken to be stored.
  abbrev pub filled : ℕ → Heap → Result (List ℕ) × Str → Got
  filled p h (ok bytes, s) = some (ok tt, s, record h { mem = store h.mem p bytes })
  filled p h (err e, s) = some (err e, s, h)
  filled p h (panic, s) = some (panic, s, h)

  -- `stream.Read(unsafe.Slice((*byte)(ptr), size))`
  abbrev pub raw : ℕ → Handler
  raw size s p h = loaded s h (load h.mem p size) (λ old. filled p h (ops.read size s w))

  abbrev pub padded : ℕ → Handler
  padded bs s p h =
      andthen (raw (min 8 bs) s p h) λ s' h'. done (if ltb 8 bs then skip (bs - 8) s' else s') h'

  abbrev pub float_at : ℕ → ℕ → Heap → Result ℕ × Str → Got
  float_at n p h (ok f, s) =
      loaded s h (load h.mem p n)
        λ old. some (ok tt, s, record h { mem = store h.mem p (le_bytes n f) })
  float_at n p h (err e, s) = some (err e, s, h)
  float_at n p h (panic, s) = some (panic, s, h)

  unfoldable pub repeat : ℕ → ℕ → Handler → Handler
  repeat zero stride handler s p h = done s h
  repeat (suc n) stride handler s p h =
      andthen (handler s p h) (λ s' h'. repeat n stride handler s' (p + stride) h')

  abbrev pub back_to : Str → Got → Got
  back_to s none = none
  back_to s (some (r, sub, h)) = some (r, s, h)

  -- A step on the stream behind a pointer, if that is not nil.
  abbrev pub behind : Heap → Result Str × Str → (Str → Str → Got) → Got
  behind h (ok sub, s) k = if offset sub == 0 then done s h else k sub s
  behind h (err e, s) k = some (err e, s, h)
  behind h (panic, s) k = some (panic, s, h)

  abbrev pub into_new : ℕ → Handler → Str → ℕ × Heap → Got
  into_new p handler sub (q, h) = handler sub q (record h { mem = store h.mem p (le_bytes 8 q) })

  -- The value goes to where the pointer points, and to a new block if it is nil.
  abbrev pub into : ℕ → ℕ → Handler → Str → Heap → ℕ → Got
  into size p handler sub h v =
      if v == 0 then into_new p handler sub (unsafe_new size h) else handler sub v h

  abbrev pub pointer_handler : ℕ → Handler → Handler
  pointer_handler size handler s p h = behind h (read_stream s w) λ sub s'.
      back_to s' (loaded sub h (load h.mem p 8) (λ v. into size p handler sub h (from_bytes v)))

  -- A slice whose elements are read as they are is filled from the stream that the pointer was read
  -- from.
  abbrev pub sliced_raw : ℕ → Handler
  sliced_raw elem_size s p h = behind h (read_stream s w) λ sub s'.
      loaded s' h (load h.mem p 8) λ d.
        loaded s' h (load h.mem (p + 8) 8) λ n. raw (elem_size * from_bytes n) s' (from_bytes d) h

  abbrev pub sliced : ℕ → Handler → Handler
  sliced elem_size handler s p h = behind h (read_stream s w) λ sub s'.
      loaded s' h (load h.mem p 8) λ d.
        loaded s' h (load h.mem (p + 8) 8)
          λ n. back_to s' (repeat (from_bytes n) elem_size handler sub (from_bytes d) h)

  -- A new string, which stands in a block of its own.
  abbrev pub string_at : ℕ → List ℕ → ℕ × Heap → Heap
  string_at p str (q, h) = record h {
    mem = store (store h.mem q str) p (le_bytes 8 q ++ le_bytes 8 (length str));
  }

  abbrev pub text_at : ℕ → Str → Heap → Option (Result (List ℕ) × Str) → Got
  text_at p s h none = none
  text_at p s h (some (ok str, sub)) =
      loaded s h (load h.mem p 16)
        λ old. some (ok tt, s, string_at p str (unsafe_new (length str) h))
  text_at p s h (some (err e, sub)) = some (err e, s, h)
  text_at p s h (some (panic, sub)) = some (panic, s, h)

  abbrev pub string_handler : Handler
  string_handler s p h = behind h (read_stream s w) (λ sub s'. text_at p s' h (read_string sub w))

  abbrev pub Decoder : Type 0
  Decoder = Option (Handler × List ℕ)

  abbrev pub array_of : ℕ → Decoder → Decoder
  array_of n none = none
  array_of n (some (h, size)) = some (repeat n (size_of size) h, repeat_size n size)

  abbrev pub slice_of : ℕ → Decoder → Decoder
  slice_of bs none = none
  slice_of bs (some (h, size)) = some (sliced (size_of size) h, bs ∷ [])

  abbrev pub pointer_to : ℕ → ℕ → Decoder → Decoder
  pointer_to bs elem_size none = none
  pointer_to bs elem_size (some (h, size)) = some (pointer_handler elem_size h, bs ∷ [])

  abbrev pub field_align : ℕ → Decoder → Decoder
  field_align offset none = none
  field_align offset (some (h, [])) = none
  field_align offset (some (h, k ∷ ks)) =
      let pad : ℕ = sub64 (align offset k) offset in
      if align offset k == offset
      then some (h, k ∷ ks)
      else some ((λ s p heap. h (skip pad s) p heap), pad ∷ k ∷ ks)

  abbrev pub before : ℕ → Handler → Decoder → Decoder
  before off h none = none
  before off h (some (rest, size)) =
      some ((λ s p heap. andthen (h s (p + off) heap) (λ s' heap'. rest s' p heap')), size)

  abbrev pub field_then : ℕ → List ℕ → Decoder → (List ℕ → Decoder) → Decoder
  field_then off size none more = none
  field_then off size (some (h, field_size)) more = before off h (more (size ++ field_size))

  abbrev pub skip_pad : ℕ → Str → Str
  skip_pad pad s = if positive pad then skip pad s else s

  abbrev pub struct_end : Decoder → Decoder
  struct_end none = none
  struct_end (some (h, size)) = some (
    (λ s p heap. andthen (h s p heap) (λ s' heap'. done (skip_pad (end_pad size) s') heap')),
    with_pad (end_pad size) size,
  )

  abbrev pub struct_of : ℕ → Option (List ℕ × ℕ) → Decoder → Decoder
  struct_of total none fields = struct_end fields
  struct_of total (some (size, offset)) fields =
      some (raw (size_of (size ++ ((total - offset) ∷ []))), size ++ ((total - offset) ∷ []))

  unfoldable mutual
    pub decode : ℕ → GoType → Decoder
    decode bs (fixed n) = some (raw n, n ∷ [])
    decode bs float32 = some ((λ s p h. float_at 4 p h (read_float s w)), 4 ∷ [])
    decode bs float64 = some ((λ s p h. float_at 8 p h (read_double s w)), 8 ∷ [])
    decode bs word = some (padded bs, bs ∷ [])
    decode bs (array n t) =
        let elements = decode bs t in
        if check_custom bs t
        then array_of n elements
        else some (raw (size_of (replicate n (go_size t))), replicate n (go_size t))
    decode bs (pointer t) = pointer_to bs (go_size t) (decode bs t)
    decode bs (slice t) =
        let elements = decode bs t in
        if check_custom bs t then slice_of bs elements else some (sliced_raw (go_size t), bs ∷ [])
    decode bs string = some (string_handler, bs ∷ bs ∷ [])
    decode bs (struct size fs) = struct_of size (raw_fields bs fs [] 0) (decode_fields bs fs [])
    decode bs other = none

    pub decode_fields : ℕ → Fields → List ℕ → Decoder
    decode_fields bs end size = some ((λ s p h. done s h), size)
    decode_fields bs (field true off t fs) size = decode_fields bs fs size
    decode_fields bs (field false off t fs) size =
        field_then off size (field_align (size_of size) (decode bs t))
          (λ size'. decode_fields bs fs size')
