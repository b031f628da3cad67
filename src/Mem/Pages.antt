-- ===== src/Mem/Pages.antt =====
-- `memMap`, `memUnmap`, `mapAlloc` and `mapFree` of internal/debugger/mem.go: what they record of the
-- pages the emulator maps.
use microdbg.Base.{
  ℕ, ◌+◌, ◌%◌, ◌^◌, ◌≤◌, ◌<◌, ◌≡◌, refl, ap, ◌&&◌, ◌||◌, not, false, Option, none, some, arith, leb,
}
use microdbg.Word.{add64, sub64, align}
use microdbg.Word.Align.{align_rounds_up}
use microdbg.Errors.{Error, ok, err}
use microdbg.Emulator.{Emulator, MemRegion}
use microdbg.Mem.RegionMap.{RegionMap, within, covers, IsSorted, IsApart, IsApart-of_uncovered}
use microdbg.Mem.Maps.{map_store}
use microdbg.Mem.Maps.Delete.{map_delete-covers, map_store-covers}
use microdbg.Mem.Manager.{
  MemoryManager, Outcome, mapped, unmapped, mem_map, mem_unmap, map_alloc, map_free,
}

-- The outcome of a request to map a region, given the emulator's answer.
abbrev pub Records :
    (e : Emulator) → RegionMap → ℕ → ℕ → Option Error → Outcome e MemRegion → Type 0
Records e maps addr size none o =
    ((r : MemRegion) × (o.0 ≡ ok r) × (r.addr ≡ addr) × (r.size ≡ size))
    × IsSorted 0 o.1.maps
    × ((x : ℕ) → covers o.1.maps x ≡ covers maps x || within addr size x)
Records e maps addr size (some x) o = (o.0 ≡ err x) × (o.1.maps ≡ maps)

-- The outcome of a request to unmap a region.
abbrev pub Forgets :
    (e : Emulator) → RegionMap → ℕ → ℕ → Option Error → Outcome e (Unit {0}) → Type 0
Forgets e maps addr size none o =
    (o.0 ≡ ok tt)
    × IsSorted 0 o.1.maps
    × ((x : ℕ) → covers o.1.maps x ≡ covers maps x && not (within addr size x))
Forgets e maps addr size (some x) o = (o.0 ≡ err x) × (o.1.maps ≡ maps)

module _ (e : Emulator) where
  mapped-Records :
      (mm : MemoryManager) (addr size prot : ℕ) (r : Option Error × e.State)
      → IsSorted 0 mm.maps
      → IsApart addr size mm.maps
      → 0 < size
      → addr + size < 18446744073709551616
      → Records e mm.maps addr size r.0 (mapped e addr size prot mm r)
  mapped-Records mm addr size prot (none, st) w apart pos fits = (
    (_, refl, refl, refl),
    (map_store-covers mm.maps addr size 0 w apart pos fits).0,
    λ x. (map_store-covers mm.maps addr size x w apart pos fits).1,
  )
  mapped-Records mm addr size prot (some x, st) w apart pos fits = (refl, refl)

  mapped-counter :
      (mm : MemoryManager) (addr size prot : ℕ) (r : Option Error × e.State)
      → (mapped e addr size prot mm r).1.map_addr ≡ mm.map_addr
  mapped-counter mm addr size prot (none, st) = refl
  mapped-counter mm addr size prot (some x, st) = refl

  unmapped-Forgets :
      (mm : MemoryManager) (addr size : ℕ) (r : Option Error × e.State)
      → IsSorted 0 mm.maps
      → addr + size < 18446744073709551616
      → Forgets e mm.maps addr size r.0 (unmapped e addr size mm r)
  unmapped-Forgets mm addr size (none, st) w fits = (
    refl,
    (map_delete-covers mm.maps addr size 0 w fits).0,
    λ x. (map_delete-covers mm.maps addr size x w fits).1,
  )
  unmapped-Forgets mm addr size (some x, st) w fits = (refl, refl)

-- Mapping a region at a chosen address, where no region is recorded yet: if the emulator accepts, the
-- region returned is the request rounded up to whole pages, and exactly its addresses are recorded in
-- addition. If the emulator refuses, its error is returned and the record is unchanged. The
-- conditions: the page size is a power of two, the size is not 0, and the rounded range does not wrap.
pub mem_map-Records :
    (e : Emulator) (mm : MemoryManager) (st : e.State) (k addr size prot : ℕ)
    → e.page_size ≡ 2 ^ k
    → IsSorted 0 mm.maps
    → IsApart (align addr (2 ^ k)) (align size (2 ^ k)) mm.maps
    → 0 < size
    → addr + size + 2 ^ k + 2 ^ k < 18446744073709551616
    → Records e mm.maps
        (align addr (2 ^ k))
        (align size (2 ^ k))
        (e.mem_map (align addr (2 ^ k)) (align size (2 ^ k)) prot st).0
        (mem_map e mm st addr size prot)
unfolding mem_map
mem_map-Records e mm st k addr size prot paged w apart pos fits = rw paged (
    mapped-Records e mm (align addr (2 ^ k)) (align size (2 ^ k)) prot _ w apart
      (omega (arith, align_rounds_up size k (omega arith)))
      (omega (arith, align_rounds_up size k (omega arith), align_rounds_up addr k (omega arith))))

-- Unmapping: if the emulator accepts, exactly the addresses of the range rounded up to whole pages are
-- taken out of the record, however the regions lie. If it refuses, its error is returned and the
-- record is unchanged. The conditions: the page size is a power of two, and the rounded range does not
-- wrap.
pub mem_unmap-Forgets :
    (e : Emulator) (mm : MemoryManager) (st : e.State) (k addr size : ℕ)
    → e.page_size ≡ 2 ^ k
    → IsSorted 0 mm.maps
    → addr + size + 2 ^ k + 2 ^ k < 18446744073709551616
    → Forgets e mm.maps
        (align addr (2 ^ k))
        (align size (2 ^ k))
        (e.mem_unmap (align addr (2 ^ k)) (align size (2 ^ k)) st).0
        (mem_unmap e mm st addr size)
unfolding mem_unmap
mem_unmap-Forgets e mm st k addr size paged w fits = rw paged (
    unmapped-Forgets e mm (align addr (2 ^ k)) (align size (2 ^ k)) _ w
      (omega (arith, align_rounds_up size k (omega arith), align_rounds_up addr k (omega arith))))

-- No recorded region lies at the address counter or above it.
abbrev pub IsBelow : MemoryManager → Type 0
IsBelow mm = (x : ℕ) → covers mm.maps x && leb mm.map_addr x ≡ false

module _ (e : Emulator) (mm : MemoryManager) (st : e.State) (k size prot : ℕ)
    (paged : e.page_size ≡ 2 ^ k) (w : IsSorted 0 mm.maps) (below : IsBelow mm) (pos : 0 < size)
    (fits : mm.map_addr + size + 2 ^ k < 18446744073709551616) where
  abbrev page : ℕ
  page = align size (2 ^ k)

  page_lem : (page % 2 ^ k ≡ 0) × (size ≤ page) × (page < size + 2 ^ k)
  page_lem = align_rounds_up size k (omega arith)

  next_lem : add64 mm.map_addr page ≡ mm.map_addr + page
  next_lem = omega (arith, page_lem)

  start_lem : sub64 (mm.map_addr + page) page ≡ mm.map_addr
  start_lem = omega (arith, page_lem)

  fresh-IsApart : IsApart mm.map_addr page mm.maps
  fresh-IsApart =
      IsApart-of_uncovered mm.map_addr page 0 mm.maps w (omega (arith, page_lem))
        λ x. ground (arith, below x)

  -- Mapping at the address counter: if the emulator accepts, the region returned starts at the counter
  -- and has the size rounded up to whole pages, and exactly its addresses are recorded in addition. If
  -- it refuses, its error is returned and the record is unchanged. Either way the counter moves past
  -- the region. The conditions: the page size is a power of two, the size is not 0, the counter does
  -- not overflow, and no recorded region reaches the counter.
  pub map_alloc-Records :
      ((map_alloc e mm st size prot).1.map_addr ≡ mm.map_addr + page)
      × Records e mm.maps mm.map_addr page
          (e.mem_map mm.map_addr page prot st).0
          (map_alloc e mm st size prot)
  unfolding map_alloc
  map_alloc-Records =
      rw (ap (align size) paged, next_lem, start_lem)
        (
          mapped-counter e (record mm { map_addr = mm.map_addr + page }) mm.map_addr page prot _,
          mapped-Records e (record mm { map_addr = mm.map_addr + page }) mm.map_addr page prot _ w
              fresh-IsApart (omega (arith, page_lem)) (omega (arith, page_lem)),
        )

  -- Freeing a region just mapped at the address counter restores the record: the same addresses are
  -- recorded as before. The conditions are those of mapping it, and that the emulator accepts both
  -- requests.
  pub map_free-map_alloc :
      (st' st'' : e.State)
      → e.mem_map mm.map_addr page prot st ≡ (none, st')
      → e.mem_unmap mm.map_addr page st' ≡ (none, st'')
      → (x : ℕ)
      → let o = map_alloc e mm st size prot in
        covers (map_free e o.1 st' mm.map_addr size).1.maps x ≡ covers mm.maps x
  unfolding map_alloc map_free
  map_free-map_alloc st' st'' a b x =
      let stored =
        map_store-covers mm.maps mm.map_addr page x w fresh-IsApart (omega (arith, page_lem))
          (omega (arith, page_lem)) in
      let deleted =
        map_delete-covers (map_store mm.map_addr page mm.maps) mm.map_addr page x stored.0
          (omega (arith, page_lem)) in
      rw (ap (align size) paged, next_lem, start_lem, a, b)
        (rw (deleted.1, stored.1) (ground (arith, below x)))
