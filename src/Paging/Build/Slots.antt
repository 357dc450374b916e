-- ===== src/Paging/Build/Slots.antt =====
-- src/memory/paging.rs: the arithmetic of the slots of a table, and what the ranges of a slot cover.
use okots_os.Base.{
  ℕ, ◌+◌, ◌*◌, ◌/◌, ◌%◌, ◌^◌, ◌≤◌, ◌<◌, ◌≡◌, refl, inl, inr, Bool-cases, Bool, true, false, ◌||◌,
  List, [], ◌∷◌, All, arith, add_word, mul_word,
}
use okots_os.Range.{contains}
use okots_os.Paging.Normalize.{Entry}
use okots_os.Paging.Normalize.Normal.{IsPaged}
use okots_os.Paging.Level.{PageLevel, pt, pd, pdpt, pml4, pml5, entry_size, get_index}
use okots_os.Paging.Build.{overlaps, sub_map}

-- A range that can be mapped: pages of physical memory, and flags with neither `PAT` nor `HUGE`.
pub record IsMapped (e : Entry) : Type 0 where
  pub paged : IsPaged e
  pub physical : e.0.start + e.0.len ≤ 2 ^ 52
  pub flags : e.1 < 2048
  pub no_pat : e.1 / 2 ^ 7 % 2 ≡ 0
  pub no_huge : e.1 / 2 ^ 10 % 2 ≡ 0

unfoldable pub covered : List Entry → ℕ → Bool
covered [] a = false
covered (e ∷ es) a = contains e.0 a || covered es a

-- the addresses of slot `i` of a table for the addresses from `base` on
pub record InSlot (level : PageLevel) (base i a : ℕ) : Type 0 where
  pub aligned : base % (512 * entry_size level) ≡ 0
  pub small : base + 512 * entry_size level ≤ 2 ^ 60
  pub index : i < 512
  pub from : base + i * entry_size level ≤ a
  pub to : a < base + i * entry_size level + entry_size level

pub get_index_slot :
    (level : PageLevel) (base i a : ℕ) → InSlot level base i a → get_index level a ≡ i
get_index_slot pt base i a s = omega arith
get_index_slot pd base i a s = omega arith
get_index_slot pdpt base i a s = omega arith
get_index_slot pml4 base i a s = omega arith
get_index_slot pml5 base i a s = omega arith

-- the start of the slot and the offset make up the address
pub slot_offset :
    (level : PageLevel) (base i a : ℕ)
    → InSlot level base i a
    → base + i * entry_size level + a % entry_size level ≡ a
slot_offset pt base i a s = omega arith
slot_offset pd base i a s = omega arith
slot_offset pdpt base i a s = omega arith
slot_offset pml4 base i a s = omega arith
slot_offset pml5 base i a s = omega arith

pub record IsBase (level : PageLevel) (base i : ℕ) : Type 0 where
  pub aligned : base % (512 * entry_size level) ≡ 0
  pub small : base + 512 * entry_size level ≤ 2 ^ 60
  pub index : i < 512

-- The additions of the code do not wrap.
pub slot_start :
    (level : PageLevel) (base i : ℕ)
    → IsBase level base i
    → add_word base (mul_word i (entry_size level)) ≡ base + i * entry_size level
slot_start pt base i s = omega arith
slot_start pd base i s = omega arith
slot_start pdpt base i s = omega arith
slot_start pml4 base i s = omega arith
slot_start pml5 base i s = omega arith

pub slot_end :
    (level : PageLevel) (base i : ℕ)
    → IsBase level base i
    → add_word (base + i * entry_size level) (entry_size level)
      ≡ base + i * entry_size level + entry_size level
slot_end pt base i s = omega arith
slot_end pd base i s = omega arith
slot_end pdpt base i s = omega arith
slot_end pml4 base i s = omega arith
slot_end pml5 base i s = omega arith

-- A slot begins at a multiple of its size, which is a multiple of the page size.
pub slot_aligned :
    (level : PageLevel) (base i : ℕ)
    → IsBase level base i
    → ((base + i * entry_size level) % entry_size level ≡ 0)
      × ((base + i * entry_size level) % 4096 ≡ 0)
      × (base + i * entry_size level + entry_size level ≤ 2 ^ 60)
slot_aligned pt base i s = omega arith
slot_aligned pd base i s = omega arith
slot_aligned pdpt base i s = omega arith
slot_aligned pml4 base i s = omega arith
slot_aligned pml5 base i s = omega arith

-- Within a slot its own ranges cover what all of them cover.
pub covered-sub_map :
    (vstart vend a : ℕ) (es : List Entry)
    → vstart ≤ a
    → a < vend
    → covered (sub_map vstart vend es) a ≡ covered es a
unfolding covered sub_map
covered-sub_map vstart vend a [] h k = refl
covered-sub_map vstart vend a ((m, f) ∷ es) h k = ground (arith, covered-sub_map vstart vend a es)

pub All-sub_map :
    (P : Entry → Type 0) (vstart vend : ℕ) (es : List Entry)
    → All P es
    → All P (sub_map vstart vend es)
unfolding sub_map
All-sub_map P vstart vend [] h = tt
All-sub_map P vstart vend (e ∷ es) h = elim (Bool-cases (overlaps vstart vend e)) [
  | inl t ↦ rw t (h.0, All-sub_map P vstart vend es h.1)
  | inr t ↦ rw t (All-sub_map P vstart vend es h.1)
]

-- Every range of a slot meets it.
pub sub_map-overlaps :
    (vstart vend : ℕ) (es : List Entry)
    → All (λ e. overlaps vstart vend e ≡ true) (sub_map vstart vend es)
unfolding sub_map
sub_map-overlaps vstart vend [] = tt
sub_map-overlaps vstart vend (e ∷ es) = elim (Bool-cases (overlaps vstart vend e)) [
  | inl t ↦ rw t (t, sub_map-overlaps vstart vend es)
  | inr t ↦ rw t (sub_map-overlaps vstart vend es)
]
