-- ===== src/Encoding.antt =====
-- The package encoding: how a Go value is laid out on a stream. A Go type is what reflection shows of
-- it, a Go value is the memory at its address, on a machine whose words have 8 bytes. The caches of
-- handlers by type are left out: a handler depends on the type and the block size only.
pub mod Memory
pub mod Encode
pub mod Decode
pub mod Values
pub mod Sizes
pub mod Advance
mod Tests
use microdbg.Base.{
  ℕ, zero, suc, ◌+◌, ◌-◌, ◌*◌, Bool, true, false, not, Option, none, some, List, [], ◌∷◌, ◌++◌, max,
  ltb, leb, ◌==◌, if◌then◌else◌,
}
use microdbg.Word.{align, sub64}

-- A field has its tag `encoding:"ignore"`, its offset and its type; `other` is any kind that has no
-- encoding.
mutual
  pub data GoType : Type 0 where
    -- Bool, the sized integers and the complex numbers, by their size
    fixed : ℕ → GoType
    float32 float64 : GoType
    -- Int, Uint, Uintptr and UnsafePointer
    word : GoType
    array : ℕ → GoType → GoType
    pointer : GoType → GoType
    slice : GoType → GoType
    string : GoType
    struct : ℕ → Fields → GoType
    other : GoType

  pub data Fields : Type 0 where
    end : Fields
    field : Bool → ℕ → GoType → Fields → Fields

-- `typ.Size()`
unfoldable pub go_size : GoType → ℕ
go_size (fixed n) = n
go_size float32 = 4
go_size float64 = 8
go_size word = 8
go_size (array n t) = n * go_size t
go_size (pointer t) = 8
go_size (slice t) = 24
go_size string = 16
go_size (struct size fs) = size
go_size other = 0

-- Whether the bytes in memory differ from those on the stream.
abbrev pub check_custom : ℕ → GoType → Bool
check_custom bs (fixed n) = false
check_custom bs float32 = false
check_custom bs float64 = false
check_custom bs word = not (8 == bs)
check_custom bs (array n t) = true
check_custom bs (pointer t) = true
check_custom bs (slice t) = true
check_custom bs string = true
check_custom bs (struct size fs) = true
check_custom bs other = true

-- `structSize.Size`
unfoldable pub size_of : List ℕ → ℕ
size_of [] = 0
size_of (s ∷ ss) = s + size_of ss

-- An int above zero.
abbrev pub positive : ℕ → Bool
positive n = if n == 0 then false else ltb n 0x8000000000000000

-- The largest int, from 0 on; the padding before a field of size 0 is negative.
unfoldable pub max_size : List ℕ → ℕ
max_size [] = 0
max_size (s ∷ ss) = let rest = max_size ss in if positive s then max s rest else rest

-- What `n` elements add to a size.
pub repeat_size : ℕ → List ℕ → List ℕ
repeat_size zero size = []
repeat_size (suc n) size = size ++ repeat_size n size

-- The loop of a struct over its fields while none needs a code of its own: the distances of their
-- offsets and the last one.
pub raw_fields : ℕ → Fields → List ℕ → ℕ → Option (List ℕ × ℕ)
raw_fields bs end size offset = some (size, offset)
raw_fields bs (field true off t fs) size offset = none
raw_fields bs (field false off t fs) size offset =
    let rest =
      raw_fields bs fs (if off == offset then size else size ++ ((off - offset) ∷ [])) off in
    if check_custom bs t then none else rest

-- The padding at the end of a struct.
pub end_pad : List ℕ → ℕ
unfolding size_of max_size align
end_pad size = sub64 (align (size_of size) (max_size size)) (size_of size)

abbrev pub with_pad : ℕ → List ℕ → List ℕ
with_pad pad size = if positive pad then size ++ (pad ∷ []) else size
