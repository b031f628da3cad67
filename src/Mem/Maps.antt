-- ===== src/Mem/Maps.antt =====
-- The mapped regions of internal/debugger/mem.go: `mapStore`, `mapDelete` and `calcOverlap`.
-- `mapDelete` first drops the regions that start at the address, then trims what overlaps the rest.
pub mod Front
mod Trim
pub mod Delete
use microdbg.Base.{
  ℕ, zero, suc, Option, none, some, List, [], ◌∷◌, ltb, if◌then◌else◌, length, ◌||◌, min, max,
}
use microdbg.Word.{add64, sub64}
use microdbg.Mem.RegionMap.{RegionMap, lookup, load, store, delete, keys}

-- `none` for the result whose flag is false.
unfoldable pub calc_overlap : ℕ → ℕ → ℕ → ℕ → Option (ℕ × ℕ)
calc_overlap min1 max1 min2 max2 =
    if ltb max1 min2 || ltb max2 min1 then none else some (max min1 min2, min max1 max2)

unfoldable pub map_store : ℕ → ℕ → RegionMap → RegionMap
unfolding store
map_store addr size maps = store addr size maps

-- How the first loop ends: by `return`, or by `break` with the address and size that are left.
pub data Exit : Type 0 where
  returned : RegionMap → Exit
  broken : RegionMap → ℕ → ℕ → Exit

-- The first loop. Each round deletes a region, so the length of the map bounds the rounds; `none`
-- means that the fuel ran out.
pub drop_front : ℕ → RegionMap → ℕ → ℕ → Option Exit
drop_front zero maps addr size = none
drop_front (suc fuel) maps addr size = elim (lookup addr maps) [
  | none ↦ some (broken maps addr size)
  | some valid ↦
      let rest = drop_front fuel (delete addr maps) (add64 addr valid) (sub64 size valid) in
      if ltb size valid
      then some (returned (store (add64 addr size) (sub64 valid size) (delete addr maps)))
      else if ltb valid size
      then rest
      else some (returned (delete addr maps))
]

-- The body of the second loop at a region from `start` to `block_end`: the map, and the address to
-- go on with unless the loop breaks.
pub trim_block : RegionMap → ℕ → ℕ → ℕ → ℕ → RegionMap × Option ℕ
trim_block maps start block_end addr end = elim (calc_overlap start block_end addr end) [
  | none ↦ (maps, some addr)
  | some (overlap_start, overlap_end) ↦
      let left =
        if ltb start overlap_start
        then store start (sub64 overlap_start start) maps
        else delete start maps in
      if ltb overlap_end block_end
      then (store overlap_end (sub64 block_end overlap_end) left, none)
      else (left, if ltb overlap_end end then some overlap_end else none)
]

-- `break`, or the rest of the loop at the new map and address.
abbrev pub resume : RegionMap × Option ℕ → (RegionMap → ℕ → RegionMap) → RegionMap
resume (maps, none) go = maps
resume (maps, some addr) go = go maps addr

pub trim : List ℕ → RegionMap → ℕ → ℕ → RegionMap
trim [] maps addr end = maps
trim (start ∷ starts) maps addr end =
    resume (trim_block maps start (add64 start (load start maps)) addr end)
      (λ maps' addr'. trim starts maps' addr' end)

pub finish : Option Exit → RegionMap
unfolding trim
finish none = []
finish (some (returned maps)) = maps
finish (some (broken maps addr size)) = trim (keys maps) maps addr (add64 addr size)

unfoldable pub map_delete : RegionMap → ℕ → ℕ → RegionMap
unfolding finish drop_front trim_block calc_overlap load lookup delete store keys
map_delete maps addr size = finish (drop_front (suc (length maps)) maps addr size)
