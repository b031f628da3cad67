-- ===== src/Hooks/Controls/Handout.antt =====
-- `ctrlAddrAlloc` of internal/debugger/hook.go, which maps a new region when no slot is free.
use microdbg.Base.{
  ℕ, zero, suc, ◌+◌, ◌-◌, ◌*◌, ◌/◌, ◌≤◌, ◌<◌, ◌≡◌, refl, ◌⊎◌, inl, inr, true, ◌&&◌, ◌||◌, Option,
  none, some, List, [], ◌∷◌, ◌++◌, ltb, leb, length, arith,
}
use microdbg.Word.{add64}
use microdbg.Errors.{Result, ok, err, panic}
use microdbg.Emulator.{MemRegion}
use microdbg.Hooks.Controls.{
  Slot, Channel, Controls, Arch, asm, slots, take_slot, opened, alloc_ctrl_addrs, handed, retry,
  ctrl_addr_alloc, is_control, any_range,
}
use microdbg.Hooks.Controls.Slots.{
  same, times, Row, slots-Row, Row-length, Row-above, Row-once, Row-beyond, Row-width,
}
use microdbg.Hooks.Controls.Pool.{
  one_if, free_times, room, AreWithin, Takes, take_slot-Takes, Sound,
}

-- A channel more.
free_times-append :
    (x : Slot) (cs : List Channel) (c : Channel)
    → free_times x (cs ++ (c ∷ [])) ≡ free_times x cs + times x c.items
free_times-append x [] c = omega arith
free_times-append x (d ∷ cs) c = omega (arith, free_times-append x cs c)

room-append :
    (cs : List Channel) (c : Channel)
    → room (cs ++ (c ∷ [])) ≡ room cs + (c.capacity - length c.items)
room-append [] c = omega arith
room-append (d ∷ cs) c = omega (arith, room-append cs c)

AreWithin-append :
    (cs : List Channel) (c : Channel)
    → AreWithin cs
    → length c.items ≤ c.capacity
    → AreWithin (cs ++ (c ∷ []))
AreWithin-append [] c w h = (h, tt)
AreWithin-append (d ∷ cs) c w h = (w.0, AreWithin-append cs c w.1 h)

any_range-append :
    (rs : List (ℕ × ℕ)) (r : ℕ × ℕ) (pc : ℕ)
    → any_range (rs ++ (r ∷ [])) pc ≡ any_range rs pc || (ltb r.0 pc && leb pc r.1)
any_range-append [] r pc = ground arith
any_range-append (q ∷ rs) r pc = ground (arith, any_range-append rs r pc)

-- The region that the memory manager hands out holds one slot at least, and no address of a slot that
-- is free or handed out.
abbrev pub IsFresh : Controls → List Slot → Result MemRegion → Type 0
IsFresh c live (ok region) =
    (4 ≤ region.size)
    × (region.addr + region.size + 4 < 18446744073709551616)
    × ((x : Slot)
        → region.addr ≤ x.0
        → x.0 < region.addr + region.size
        → free_times x c.ctrl_addrs + times x live ≡ 0)
IsFresh c live (err x) = Unit {0}
IsFresh c live panic = ⊥

-- A new row of slots keeps the pool sound.
module _ (c : Controls) (live : List Slot) (v : Sound c live) (region : MemRegion) (count : ℕ)
    (items : List Slot) (f : IsFresh c live (ok region)) (r : Row count region.addr 4 items)
    (e : count ≡ region.size / 4) where
  abbrev wider : Controls
  wider = record c {
    releases = c.releases ++ ((region.addr, region.size) ∷ []);
    ctrl_addrs = c.ctrl_addrs ++ (record { capacity = count; items = items } ∷ []);
    ctrl_range = c.ctrl_range ++ ((region.addr, region.addr + 4 * count + 4) ∷ []);
  }

  new_only : (x : Slot) → 0 < times x items → free_times x c.ctrl_addrs + times x live ≡ 0
  new_only x h = f.2 x (ground (arith, Row-above 4 (omega arith) count region.addr items x r)) (
      ground (
        arith,
        Row-beyond 4 (omega arith) count region.addr (region.addr + 4 * count) items x r refl,
      ))

  wider-Sound : Sound wider live
  unfolding is_control
  wider-Sound = record {
    within =
        AreWithin-append c.ctrl_addrs _ v.within
          (omega (arith, Row-length 4 (omega arith) count region.addr items r));
    handed_out = omega (
      arith,
      room-append c.ctrl_addrs (record { capacity = count; items = items }),
      v.handed_out,
      Row-length 4 (omega arith) count region.addr items r,
    );
    once = λ x. ground (
      arith,
      free_times-append x c.ctrl_addrs (record { capacity = count; items = items }),
      v.once x,
      new_only x,
      Row-once 4 (omega arith) count region.addr items x r,
    );
    marked = mark;
  }
    where
      old :
          (x : Slot)
          → 0 < free_times x c.ctrl_addrs + times x live
          → any_range c.ctrl_range x.1 ≡ true
      old = v.marked

      mark :
          (x : Slot)
          → 0 < free_times x wider.ctrl_addrs + times x live
          → any_range wider.ctrl_range x.1 ≡ true
      mark x h = ground (
        arith,
        any_range-append c.ctrl_range (region.addr, region.addr + 4 * count + 4) x.1,
        old x,
        free_times-append x c.ctrl_addrs (record { capacity = count; items = items }),
        Row-above 4 (omega arith) count region.addr items x r,
        Row-beyond 4 (omega arith) count region.addr (region.addr + 4 * count) items x r refl,
        Row-width 4 (omega arith) count region.addr items x r,
      )

  -- If none was free before, all that are free are in the region.
  wider_inside :
      (empty : (x : Slot) → free_times x c.ctrl_addrs ≡ 0) (x : Slot)
      → 0 < free_times x wider.ctrl_addrs
      → (region.addr ≤ x.0) × (x.0 < region.addr + region.size)
  wider_inside empty x h =
      let new' : 0 < times x items = omega (
        arith,
        h,
        empty x,
        free_times-append x c.ctrl_addrs (record { capacity = count; items = items }),
      ) in
      (
        ground (arith, Row-above 4 (omega arith) count region.addr items x r),
        ground (
          arith,
          Row-beyond 4 (omega arith) count region.addr (region.addr + 4 * count) items x r refl,
        ),
      )

  -- There is a slot to hand out now.
  some_free : (x : Slot) × (0 < free_times x wider.ctrl_addrs)
  some_free = first count items r (omega (arith, e, f.0))
    where
      first :
          (n : ℕ) (ss : List Slot)
          → Row n region.addr 4 ss
          → 0 < n
          → (x : Slot) × (0
              < free_times x (c.ctrl_addrs ++ (record { capacity = count; items = ss } ∷ [])))
      first zero ss q h = absurd (omega arith)
      first (suc n) [] q h = absurd q
      first (suc n) (s ∷ ss) q h = (
        s,
        ground
            (arith, free_times-append s c.ctrl_addrs (record { capacity = count; items = s ∷ ss })),
      )

-- Handing out a free slot.
taken-Sound :
    (c : Controls) (live : List Slot) (s : Slot) (cs : List Channel)
    → Sound c live
    → Takes c.ctrl_addrs (some (s, cs))
    → Sound (record c { ctrl_addrs = cs }) (s ∷ live)
unfolding is_control
taken-Sound c live s cs v t = record {
  within = t.0;
  handed_out = omega (arith, t.1, v.handed_out);
  once = λ x. omega (arith, t.2 x, v.once x);
  marked = λ x h. v.marked x (omega (arith, t.2 x));
}

abbrev pub NoneFree : Controls → Type 0
NoneFree c = (x : Slot) → free_times x c.ctrl_addrs ≡ 0

-- How handing out may end, from controls and by what the memory manager answers to a request: with a
-- slot that was not handed out before, which was free or, if none was, is in the region that the memory
-- manager gives; or, if none was free, with the error of the memory manager.
abbrev pub Hands :
    {S : Type 0}
    → Controls
    → Result MemRegion
    → List Slot
    → Option (Result Slot × Controls × S)
    → Type 0
Hands before answer live none = ⊥
Hands before answer live (some (ok s, c, st)) =
    (times s live ≡ 0)
    × Sound c (s ∷ live)
    × ((0 < free_times s before.ctrl_addrs)
        ⊎ (NoneFree before
            × ((region : MemRegion) × (answer ≡ ok region)
                × (region.addr ≤ s.0)
                × (s.0 < region.addr + region.size))))
Hands before answer live (some (err x, c, st)) =
    NoneFree before × (answer ≡ err x) × (c ≡ before) × Sound c live
Hands before answer live (some (panic, c, st)) = ⊥

module _ {S : Type 0} (map_page : S → Result MemRegion × S) (mem_write : ℕ → List ℕ → S → S)
    (arch : Arch) (four : length (asm arch) ≡ 4) where
  taken-Hands :
      (c : Controls) (live : List Slot) (st : S) (s : Slot) (cs : List Channel)
      → Sound c live
      → Takes c.ctrl_addrs (some (s, cs))
      → (times s live ≡ 0) × Sound (record c { ctrl_addrs = cs }) (s ∷ live)
  taken-Hands c live st s cs v t =
      let v' = taken-Sound c live s cs v t in (ground (arith, v'.once s), v')

  free_before :
      (c : Controls) (s : Slot) (cs : List Channel)
      → one_if (same s s) + free_times s cs ≡ free_times s c.ctrl_addrs
      → 0 < free_times s c.ctrl_addrs
  free_before c s cs e = ground arith

  -- The round after a region was mapped.
  second-Hands :
      (n : ℕ) (before c : Controls) (answer : Result MemRegion) (live : List Slot) (st : S)
      (r : Option (Slot × List Channel))
      → NoneFree before
      → ((x : Slot)
          → 0 < free_times x c.ctrl_addrs
          → (region : MemRegion) × (answer ≡ ok region)
            × (region.addr ≤ x.0)
            × (x.0 < region.addr + region.size))
      → Sound c live
      → (x : Slot) × (0 < free_times x c.ctrl_addrs)
      → Takes c.ctrl_addrs r
      → Hands before answer live
          (handed map_page mem_write arch c st r (ctrl_addr_alloc map_page mem_write arch n))
  second-Hands n before c answer live st none empty new' v (x, h) t = absurd (omega (arith, t x))
  second-Hands n before c answer live st (some (s, cs)) empty new' v h t =
      let (a, b) = taken-Hands c live st s cs v t in
      (a, b, inr (empty, new' s (free_before c s cs (t.2 s))))

  opened-Hands :
      (n : ℕ) (c : Controls) (live : List Slot) (o : Result MemRegion × S)
      → NoneFree c
      → Sound c live
      → IsFresh c live o.0
      → Hands c o.0 live (
          retry map_page mem_write arch
            (opened map_page mem_write arch c o)
            (ctrl_addr_alloc map_page mem_write arch (suc n)))
  unfolding ctrl_addr_alloc
  opened-Hands n c live (err x, st) empty v f = (empty, refl, refl, v)
  opened-Hands n c live (panic, st) empty v f = f
  opened-Hands n c live (ok region, st) empty v f =
      rw (four, end, above)
        (second-Hands n c (wider c live v region count items f row refl) (ok region) live _ _ empty
          (λ x h'.
            let (a, b) = wider_inside c live v region count items f row refl empty x h' in
            (region, refl, a, b))
          (wider-Sound c live v region count items f row refl)
          (some_free c live v region count items f row refl)
          (take_slot-Takes _ (wider-Sound c live v region count items f row refl).within))
    where
      count : ℕ
      count = region.size / 4

      items : List Slot
      items = slots count region.addr (region.addr + 4 * count) 4

      row : Row count region.addr 4 items
      row =
          slots-Row 4 (omega arith) count region.addr (region.addr + 4 * count) refl
            (omega (arith, f.1))

      end : add64 region.addr (4 * (region.size / 4)) ≡ region.addr + 4 * (region.size / 4)
      end = omega (arith, f.1)

      above :
          add64 (region.addr + 4 * (region.size / 4)) 4 ≡ region.addr + 4 * (region.size / 4) + 4
      above = omega (arith, f.1)

  first-Hands :
      (n : ℕ) (c : Controls) (live : List Slot) (st : S) (r : Option (Slot × List Channel))
      → Sound c live
      → IsFresh c live (map_page st).0
      → Takes c.ctrl_addrs r
      → Hands c
          (map_page st).0
          live
          (handed map_page mem_write arch c st r (ctrl_addr_alloc map_page mem_write arch (suc n)))
  unfolding alloc_ctrl_addrs
  first-Hands n c live st none v f t = opened-Hands n c live (map_page st) t v f
  first-Hands n c live st (some (s, cs)) v f t =
      let (a, b) = taken-Hands c live st s cs v t in (a, b, inl (free_before c s cs (t.2 s)))

-- With fuel for two rounds, on an architecture whose interrupt instruction has four bytes, a sound
-- pool hands out a slot that nobody holds, and stays sound: no two holders share a slot, and the
-- address after each slot counts as a control address. A slot that was free is handed out if there was
-- one. Only if none was free a region is needed: then the slot comes from the region that the memory
-- manager gives, or, if it refuses, its error is returned and the pool is as it was. The condition is that a new region
-- holds a slot, does not wrap, and contains none of the slots there are.
pub ctrl_addr_alloc-Hands :
    {S : Type 0} (map_page : S → Result MemRegion × S) (mem_write : ℕ → List ℕ → S → S)
    (arch : Arch) (n : ℕ) (c : Controls) (live : List Slot) (st : S)
    → length (asm arch) ≡ 4
    → Sound c live
    → IsFresh c live (map_page st).0
    → Hands c (map_page st).0 live (ctrl_addr_alloc map_page mem_write arch (suc (suc n)) c st)
unfolding ctrl_addr_alloc
ctrl_addr_alloc-Hands map_page mem_write arch n c live st four v f =
    first-Hands map_page mem_write arch four n c live st (take_slot c.ctrl_addrs) v f
      (take_slot-Takes c.ctrl_addrs v.within)
