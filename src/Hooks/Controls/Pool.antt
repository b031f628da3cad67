-- ===== src/Hooks/Controls/Pool.antt =====
-- Handing out the control addresses of internal/debugger/hook.go, and taking them back.
use microdbg.Base.{
  ℕ, suc, ◌+◌, ◌-◌, ◌≤◌, ◌<◌, ◌≡◌, refl, ap, inl, inr, Bool, true, Option, none, some, List, [],
  ◌∷◌, ltb, if◌then◌else◌, length, length-append, Bool-cases, arith,
}
use microdbg.Hooks.Controls.{
  Slot, Channel, Controls, take_from, take_slot, put_slot, ctrl_addr_free, is_control,
}
use microdbg.Hooks.Controls.Slots.{same, times, times-append}

-- The number of times a slot is free, and the number of slots that are handed out.
abbrev pub free_times : Slot → List Channel → ℕ
free_times x [] = 0
free_times x (c ∷ cs) = times x c.items + free_times x cs

abbrev pub room : List Channel → ℕ
room [] = 0
room (c ∷ cs) = (c.capacity - length c.items) + room cs

-- No channel holds more than its capacity.
abbrev pub AreWithin : List Channel → Type 0
AreWithin [] = Unit {0}
AreWithin (c ∷ cs) = (length c.items ≤ c.capacity) × AreWithin cs

abbrev pub one_if : Bool → ℕ
one_if b = if b then 1 else 0

-- What taking a slot does to the channels.
abbrev pub Takes : List Channel → Option (Slot × List Channel) → Type 0
Takes cs none = (x : Slot) → free_times x cs ≡ 0
Takes cs (some (s, cs')) =
    AreWithin cs'
    × (room cs' ≡ suc (room cs))
    × ((x : Slot) → one_if (same s x) + free_times x cs' ≡ free_times x cs)

take_from-Takes :
    (k : ℕ) (items : List Slot) (cs : List Channel) (r : Option (Slot × List Channel))
    → length items ≤ k
    → AreWithin cs
    → Takes cs r
    → Takes
        (record { capacity = k; items = items } ∷ cs)
        (take_from (record { capacity = k; items = items }) items cs r)
take_from-Takes k [] cs none h w t = λ x. omega (arith, t x)
take_from-Takes k [] cs (some (s, cs')) h w t =
    ((omega arith, t.0), omega (arith, t.1), λ x. omega (arith, t.2 x))
take_from-Takes k (s ∷ ss) cs r h w t = ((omega arith, w), omega arith, λ x. omega arith)

pub take_slot-Takes : (cs : List Channel) → AreWithin cs → Takes cs (take_slot cs)
unfolding take_slot
take_slot-Takes [] w = λ x. refl
take_slot-Takes (c ∷ cs) w =
    take_from-Takes c.capacity c.items cs (take_slot cs) w.0 w.1 (take_slot-Takes cs w.1)

-- A slot that comes back finds room if any is handed out.
pub put_slot_lem :
    (s : Slot) (cs : List Channel)
    → AreWithin cs
    → 0 < room cs
    → AreWithin (put_slot s cs)
      × (suc (room (put_slot s cs)) ≡ room cs)
      × ((x : Slot) → free_times x (put_slot s cs) ≡ one_if (same s x) + free_times x cs)
unfolding put_slot
put_slot_lem s [] w h = absurd (omega arith)
put_slot_lem s (c ∷ cs) w h = elim (Bool-cases (ltb (length c.items) c.capacity)) [
  | inl free ↦ rw free (
    (ground (arith, length-append c.items (s ∷ [])), w.1),
    ground (arith, length-append c.items (s ∷ [])),
    λ x. omega (arith, times-append x c.items (s ∷ [])),
  )
  | inr full ↦
      let rest = put_slot_lem s cs w.1 (ground (arith, w.0)) in
      rw full ((w.0, rest.0), omega (arith, rest.1), λ x. omega (arith, rest.2 x))
]

-- The controls while the slots `live` are handed out: the channels have room for just these, and every
-- slot is free or handed out once at most, with the address after it in the range of control addresses.
pub record Sound (c : Controls) (live : List Slot) : Type 0 where
  pub within : AreWithin c.ctrl_addrs
  pub handed_out : room c.ctrl_addrs ≡ length live
  pub once : (x : Slot) → free_times x c.ctrl_addrs + times x live ≤ 1
  pub marked : (x : Slot) → 0 < free_times x c.ctrl_addrs + times x live → is_control c x.1 ≡ true

-- The list without the first occurrence of a slot.
abbrev pub drop_slot : Slot → List Slot → List Slot
drop_slot s [] = []
drop_slot s (x ∷ xs) = if same x s then xs else x ∷ drop_slot s xs

drop_slot_lem :
    (s : Slot) (xs : List Slot)
    → 0 < times s xs
    → (suc (length (drop_slot s xs)) ≡ length xs)
      × ((x : Slot) → one_if (same s x) + times x (drop_slot s xs) ≡ times x xs)
drop_slot_lem s [] h = absurd (omega arith)
drop_slot_lem s (y ∷ ys) h = elim (Bool-cases (same y s)) [
  | inl hit ↦ rw hit (refl, λ x. ground (arith, hit))
  | inr miss ↦
      let rest = drop_slot_lem s ys (ground (arith, miss)) in
      rw miss (ap suc rest.0, λ x. omega (arith, rest.1 x))
]

-- Giving back a slot that is handed out makes just this slot free again, and the pool stays sound:
-- no slot is ever lost or free twice.
pub ctrl_addr_free-Sound :
    (c : Controls) (live : List Slot) (s : Slot)
    → Sound c live
    → 0 < times s live
    → Sound (ctrl_addr_free c s) (drop_slot s live)
      × ((x : Slot)
          → free_times x (ctrl_addr_free c s).ctrl_addrs
            ≡ one_if (same s x) + free_times x c.ctrl_addrs)
unfolding ctrl_addr_free is_control
ctrl_addr_free-Sound c live s v h = (
  record {
    within = put.0;
    handed_out = omega (arith, put.1, v.handed_out, dropped.0);
    once = λ x. omega (arith, put.2 x, dropped.1 x, v.once x);
    marked = λ x l. v.marked x (omega (arith, put.2 x, dropped.1 x));
  },
  put.2,
)
  where
    dropped :
        (suc (length (drop_slot s live)) ≡ length live)
        × ((x : Slot) → one_if (same s x) + times x (drop_slot s live) ≡ times x live)
    dropped = drop_slot_lem s live h

    put :
        AreWithin (put_slot s c.ctrl_addrs)
        × (suc (room (put_slot s c.ctrl_addrs)) ≡ room c.ctrl_addrs)
        × ((x : Slot)
            → free_times x (put_slot s c.ctrl_addrs)
              ≡ one_if (same s x) + free_times x c.ctrl_addrs)
    put = put_slot_lem s c.ctrl_addrs v.within (omega (arith, v.handed_out, dropped.0))
