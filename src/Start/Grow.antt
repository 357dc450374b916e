-- ===== src/Start/Grow.antt =====
-- src/main.rs, `change_allocator`: the kernel's allocator takes the memory that the firmware still
-- has, in ever smaller pieces.
pub mod Ends
use okots_os.Base.{
  ℕ, zero, suc, ◌+◌, ◌*◌, ◌/◌, ◌%◌, ◌^◌, Bool, true, false, Option, none, some, List, [], ◌∷◌, ltb,
  if◌then◌else◌, add_word, mul_word, sub_word, min,
}
use okots_os.Range.{MemRangeData, new}
use okots_os.Firmware.{MemoryDescriptor, is_conventional}
use okots_os.PhysicalAllocator.{add_target_to_os_alloc}

abbrev pub max_allocate_size : ℕ
max_allocate_size = 1024 * 1024 * 1024 * 2

abbrev pub min_allocate_size : ℕ
min_allocate_size = 4096 * 2

-- `value += i.page_count * 4096`, over the memory of type `CONVENTIONAL`
abbrev pub add_entry : MemoryDescriptor → ℕ → ℕ
add_entry i value =
    if is_conventional i.ty then add_word value (mul_word i.page_count 4096) else value

unfoldable pub free_memory : List MemoryDescriptor → ℕ → ℕ
free_memory [] value = value
free_memory (i ∷ entries) value = free_memory entries (add_entry i value)

-- `allocate_pages` of the firmware, by the number of pages
pub record PageAllocator : Type 1 where
  pub State : Type 0
  pub allocate_pages : ℕ → State → Option ℕ × State

-- `current_attempt_size & !4095`
abbrev pub request_size : ℕ → ℕ
request_size current_attempt_size = current_attempt_size / 4096 * 4096

-- what the loop changes: the size, the claims in order of time (the last one first), the firmware
pub record Growing (S : Type 0) : Type 0 where
  pub current_attempt_size : ℕ
  pub claimed : List (ℕ × ℕ)
  pub firmware : S
  pub use_os_alloc : Bool

abbrev pub claim : Option (ℕ × ℕ) → List (ℕ × ℕ) → List (ℕ × ℕ)
claim none claimed = claimed
claim (some r) claimed = r ∷ claimed

abbrev pub halved : ℕ → ℕ
halved size = if ltb (size / 2) 4096 then 4096 else size / 2

module _ (pa : PageAllocator) where
  -- one round; the Boolean is false at `break`
  unfoldable pub next_growing : Growing pa.State → Option ℕ × pa.State → Bool × Growing pa.State
  next_growing g (some ptr, s) = (
    true,
    record g {
      claimed =
          claim (add_target_to_os_alloc (new ptr (request_size g.current_attempt_size))) g.claimed;
      firmware = s;
    },
  )
  next_growing g (none, s) =
      let size = halved g.current_attempt_size in
      (
        if ltb size min_allocate_size then false else true,
        record g { current_attempt_size = size; firmware = s },
      )

  unfoldable pub round : Growing pa.State → Bool × Growing pa.State
  unfolding next_growing
  round g =
      next_growing g (pa.allocate_pages (request_size g.current_attempt_size / 4096) g.firmware)

  abbrev pub go_on :
      (Growing pa.State → Option (Growing pa.State))
      → Bool × Growing pa.State
      → Option (Growing pa.State)
  go_on loop (true, g) = loop g
  go_on loop (false, g) = some g

  -- the loop; `none` if it has not ended within the fuel
  unfoldable pub grow : ℕ → Growing pa.State → Option (Growing pa.State)
  unfolding round
  grow zero g = none
  grow (suc fuel) g = go_on (grow fuel) (round g)

  -- `ALLOC.change_to_os_allocator()`
  abbrev pub switched : Option (Growing pa.State) → Option (Growing pa.State)
  switched none = none
  switched (some g) = some (record g { use_os_alloc = true })

  -- `entries` is the map that the firmware gives at first; where it gives none, its error is
  -- returned and nothing is done.
  unfoldable pub change_allocator : ℕ → List MemoryDescriptor → pa.State → Option (Growing pa.State)
  unfolding grow free_memory
  change_allocator fuel entries s = switched (
      grow fuel (record {
        current_attempt_size = min max_allocate_size (free_memory entries 0);
        claimed = [];
        firmware = s;
        use_os_alloc = false;
      }))
