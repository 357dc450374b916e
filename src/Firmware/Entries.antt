-- ===== src/Firmware/Entries.antt =====
-- src/uefi_helper/boot.rs: the descriptors that the iterator of a memory map goes through.
use okots_os.Base.{
  ℕ, zero, suc, ◌+◌, ◌*◌, ◌≤◌, ◌<◌, ◌≡◌, refl, Bool-cases, inl, inr, Option, none, some, List, [],
  ◌∷◌, leb, arith,
}
use okots_os.Firmware.{MemoryMapIter, next, MyMemoryMapOwned, iter}

abbrev pub cons? : ℕ → Option (List ℕ) → Option (List ℕ)
cons? a none = none
cons? a (some visited) = some (a ∷ visited)

abbrev pub visit : (MemoryMapIter → Option (List ℕ)) → Option (ℕ × MemoryMapIter) → Option (List ℕ)
visit loop none = some []
visit loop (some (a, it)) = cons? a (loop it)

-- a `for` loop over the iterator; `none` is a loop that has not ended within the fuel
unfoldable pub collect : ℕ → MemoryMapIter → Option (List ℕ)
unfolding next
collect zero it = none
collect (suc fuel) it = visit (collect fuel) (next it)

-- `n` addresses, `step` apart
abbrev pub spaced : ℕ → ℕ → ℕ → List ℕ
spaced from step zero = []
spaced from step (suc n) = from ∷ spaced (from + step) step n

-- The iterator stops at the first address that is not before the end.
collect_from :
    (fuel ptr end step : ℕ)
    → 0 < fuel
    → end < ptr + fuel
    → 0 < step
    → ptr < end + step
    → (n : ℕ) × (collect fuel (record { ptr = ptr; end = end; desc_size = step })
        ≡ some (spaced ptr step n))
      × (end ≤ ptr + n * step)
      × (ptr + n * step < end + step)
unfolding collect next
collect_from zero ptr end step f h p b = absurd (omega arith)
collect_from (suc fuel) ptr end step f h p b = elim (Bool-cases (leb end ptr)) [
  | inl e ↦ (0, rw e refl, ground arith, ground arith)
  | inr e ↦
      (let (n, run, low, high) =
          collect_from fuel (ptr + step) end step (ground arith) (ground arith) p (ground arith) in
        (suc n, rw (e, run) refl, omega arith, omega arith))
]

-- For a map whose descriptors have a size: a loop over its iterator ends, within as many rounds as
-- the map has bytes and one more, and visits exactly the addresses that lie a descriptor's size
-- apart from the buffer on, up to the first that is not before the end of the map.
pub collect-iter :
    (map : MyMemoryMapOwned)
    → 0 < map.desc_size
    → (n : ℕ) × (collect (suc map.total_size) (iter map) ≡ some (spaced map.ptr map.desc_size n))
      × (map.total_size ≤ n * map.desc_size)
      × (n * map.desc_size < map.total_size + map.desc_size)
collect-iter map p =
    let (n, run, low, high) =
      collect_from (suc map.total_size) map.ptr (map.ptr + map.total_size) map.desc_size
        (omega arith) (omega arith) p (omega arith) in
    (n, run, omega arith, omega arith)
