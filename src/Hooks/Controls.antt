-- ===== src/Hooks/Controls.antt =====
-- The control addresses of internal/debugger/hook.go: addresses with an instruction that interrupts
-- the emulator, which are handed out and come back. A channel is a queue with a capacity.
pub mod Slots
pub mod Pool
pub mod Handout
use microdbg.Base.{
  ℕ, zero, suc, ◌+◌, ◌*◌, ◌/◌, Bool, true, false, ◌&&◌, ◌||◌, Option, none, some, List, [], ◌∷◌,
  ◌++◌, ltb, leb, ◌==◌, if◌then◌else◌, length,
}
use microdbg.Word.{add64}
use microdbg.Errors.{Error, Result, ok, err, panic}
use microdbg.Emulator.{MemRegion}
pub use microdbg.Emulator.{Arch, unknown, arm, arm64, x86, x86_64}

-- An address and the one after its instruction.
abbrev pub Slot : Type 0
Slot = ℕ × ℕ

pub record Channel : Type 0 where
  pub capacity : ℕ
  pub items : List Slot

pub record Controls : Type 0 where
  pub ctrl_addrs : List Channel
  pub ctrl_range : List (ℕ × ℕ)
  -- the regions that closing the manager unmaps
  pub releases : List (ℕ × ℕ)

-- The instruction that is written to every slot.
abbrev pub asm : Arch → List ℕ
asm arm = 0x35 ∷ 0 ∷ 0 ∷ 0xef ∷ []
asm arm64 = 0xa1 ∷ 6 ∷ 0 ∷ 0xd4 ∷ []
asm unknown = []
asm x86 = []
asm x86_64 = []

-- The slots from `addr` on, below `end`. Their number bounds the rounds of the loop.
pub slots : ℕ → ℕ → ℕ → ℕ → List Slot
slots zero addr end size = []
slots (suc fuel) addr end size =
    let rest = slots fuel (add64 addr size) end size in
    if ltb addr end then (addr, add64 addr size) ∷ rest else []

-- The first channel that is not empty gives its oldest slot.
abbrev pub behind : Channel → Option (Slot × List Channel) → Option (Slot × List Channel)
behind c none = none
behind c (some (s, cs)) = some (s, c ∷ cs)

abbrev pub take_from :
    Channel → List Slot → List Channel → Option (Slot × List Channel) → Option (Slot × List Channel)
take_from c [] cs rest = behind c rest
take_from c (s ∷ ss) cs rest = some (s, record c { items = ss } ∷ cs)

pub take_slot : List Channel → Option (Slot × List Channel)
take_slot [] = none
take_slot (c ∷ cs) = take_from c c.items cs (take_slot cs)

-- The first channel with room takes the slot; without any it is lost.
pub put_slot : Slot → List Channel → List Channel
put_slot s [] = []
put_slot s (c ∷ cs) =
    let rest = put_slot s cs in
    if ltb (length c.items) c.capacity
    then record c { items = c.items ++ (s ∷ []) } ∷ cs
    else c ∷ rest

-- `map_page` is `dbg.MapAlloc(0x1000, MEM_PROT_EXEC)`, `mem_write` the emulator's `MemWrite`.
module _ {S : Type 0} (map_page : S → Result MemRegion × S) (mem_write : ℕ → List ℕ → S → S)
    (arch : Arch) where
  pub write_all : List Slot → S → S
  write_all [] st = st
  write_all (s ∷ ss) st = write_all ss (mem_write s.0 (asm arch) st)

  -- The channel for the slots of a region; the division by the size of no instruction panics.
  abbrev pub opened : Controls → Result MemRegion × S → Result (Unit {0}) × Controls × S
  opened c (ok region, st) =
      let size = length (asm arch) in
      let count = region.size / size in
      let end = add64 region.addr (size * count) in
      let items = slots count region.addr end size in
      let c1 = record c { releases = c.releases ++ ((region.addr, region.size) ∷ []) } in
      if size == 0 then (panic, c1, st) else (
        ok tt,
        record c1 {
          ctrl_addrs = c.ctrl_addrs ++ (record { capacity = count; items = items } ∷ []);
          ctrl_range = c.ctrl_range ++ ((region.addr, add64 end size) ∷ []);
        },
        write_all items st,
      )
  opened c (err x, st) = (err x, c, st)
  opened c (panic, st) = (panic, c, st)

  pub alloc_ctrl_addrs : Controls → S → Result (Unit {0}) × Controls × S
  unfolding slots write_all
  alloc_ctrl_addrs c st = opened c (map_page st)

  abbrev pub retry :
      Result (Unit {0}) × Controls × S
      → (Controls → S → Option (Result Slot × Controls × S))
      → Option (Result Slot × Controls × S)
  retry (ok u, c, st) again = again c st
  retry (err x, c, st) again = some (err x, c, st)
  retry (panic, c, st) again = some (panic, c, st)

  abbrev pub handed :
      Controls
      → S
      → Option (Slot × List Channel)
      → (Controls → S → Option (Result Slot × Controls × S))
      → Option (Result Slot × Controls × S)
  handed c st (some (s, chans)) again = some (ok s, record c { ctrl_addrs = chans }, st)
  handed c st none again = retry (alloc_ctrl_addrs c st) again

  -- `none` if the fuel, which bounds the rounds of the outer loop, ran out.
  unfoldable pub ctrl_addr_alloc : ℕ → Controls → S → Option (Result Slot × Controls × S)
  unfolding take_slot alloc_ctrl_addrs
  ctrl_addr_alloc zero c st = none
  ctrl_addr_alloc (suc fuel) c st = handed c st (take_slot c.ctrl_addrs) (ctrl_addr_alloc fuel)

unfoldable pub ctrl_addr_free : Controls → Slot → Controls
unfolding put_slot
ctrl_addr_free c s = record c { ctrl_addrs = put_slot s c.ctrl_addrs }

abbrev pub any_range : List (ℕ × ℕ) → ℕ → Bool
any_range [] pc = false
any_range (r ∷ rs) pc = (ltb r.0 pc && leb pc r.1) || any_range rs pc

unfoldable pub is_control : Controls → ℕ → Bool
is_control c pc = any_range c.ctrl_range pc
