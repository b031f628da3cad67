-- ===== src/Mem/Maps/Delete.antt =====
-- `mapStore` and `mapDelete` of internal/debugger/mem.go as a whole.
use microdbg.Base.{ℕ, suc, ◌+◌, ◌<◌, ◌≡◌, ◌&&◌, ◌||◌, not, Option, none, some, [], arith, length}
use microdbg.Word.{add64}
use microdbg.Mem.RegionMap.{
  RegionMap, within, covers, IsSorted, IsApart, store-IsSorted, covers-store,
}
use microdbg.Mem.Maps.{Exit, returned, broken, finish, map_store, map_delete}
use microdbg.Mem.Maps.Front.{Leaves, drop_front-Leaves}
use microdbg.Mem.Maps.Trim.{cut-IsSorted, covers-cut, trim-eq-cut}

finish-Leaves :
    (m : RegionMap) (a s x : ℕ) (r : Option Exit)
    → a + s < 18446744073709551616
    → Leaves m a s x r
    → IsSorted 0 (finish r) × (covers (finish r) x ≡ covers m x && not (within a s x))
unfolding finish
finish-Leaves m a s x none fits l = absurd l
finish-Leaves m a s x (some (returned m')) fits l = l
finish-Leaves m a s x (some (broken m' a' s')) fits l =
    let end : add64 a' s' ≡ a' + s' = omega arith in
    rw (end, trim-eq-cut m' [] 0 a' (a' + s') tt l.0 (omega arith))
      (
        cut-IsSorted m' 0 a' (a' + s') l.0 (omega arith),
        ground (arith, covers-cut m' 0 a' (a' + s') x l.0 (omega arith), l.1),
      )

-- Deleting a range that does not wrap from sorted regions takes exactly the addresses of the range
-- out of what the map covers, however the regions lie, and leaves sorted regions that do not overlap.
pub map_delete-covers :
    (maps : RegionMap) (addr size x : ℕ)
    → IsSorted 0 maps
    → addr + size < 18446744073709551616
    → IsSorted 0 (map_delete maps addr size)
      × (covers (map_delete maps addr size) x ≡ covers maps x && not (within addr size x))
unfolding map_delete
map_delete-covers maps addr size x w fits =
    finish-Leaves maps addr size x _ fits
      (drop_front-Leaves (suc (length maps)) maps addr size x (omega arith) w fits)

-- Storing a region that does not wrap and meets no region of the map adds exactly its addresses, and
-- the regions stay sorted.
pub map_store-covers :
    (maps : RegionMap) (addr size x : ℕ)
    → IsSorted 0 maps
    → IsApart addr size maps
    → 0 < size
    → addr + size < 18446744073709551616
    → IsSorted 0 (map_store addr size maps)
      × (covers (map_store addr size maps) x ≡ covers maps x || within addr size x)
unfolding map_store
map_store-covers maps addr size x w apart pos fits = (
  store-IsSorted addr size 0 maps w apart (omega arith) pos fits,
  covers-store x addr size 0 maps w apart pos,
)
