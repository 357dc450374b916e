-- ===== src/Start/Update/Mapped.antt =====
-- src/acpi/handler.rs, `map_physical_region`: what a region that was not mapped translates to.
use okots_os.Base.{
  ℕ, ◌+◌, ◌^◌, ◌≤◌, ◌<◌, ◌≡◌, refl, ap, Bool, true, false, Option, some, List, [], ◌∷◌, ◌++◌,
  length, arith,
}
use okots_os.Errors.{ok}
use okots_os.Range.{MemRangeData, new, contains}
use okots_os.Paging.Normalize.{Entry, zip}
use okots_os.Paging.Hardware.{Hardware}
use okots_os.Paging.Table.{Memory}
use okots_os.Paging.Walk.{get_addr}
use okots_os.Paging.Build.Slots.{covered}
use okots_os.Paging.Create.Identity.{top_span}
use okots_os.Start.{Current}
use okots_os.Start.Tables.{kept}
use okots_os.Start.Exit.Pages.{covered-append}
use okots_os.Start.Update.{Told, page_base, aligned_size, PhysicalMapping}

-- the map that is kept
abbrev pub recorded : Bool → Current → List Entry
recorded nx c = kept nx (zip c.page_table.memory_mapping.0 c.page_table.memory_mapping.1)

pub zip-append :
    (ms : List MemRangeData) (fs : List ℕ) (m : MemRangeData) (f : ℕ)
    → length ms ≡ length fs
    → zip (ms ++ m ∷ []) (fs ++ f ∷ []) ≡ zip ms fs ++ (m, f) ∷ []
unfolding zip
zip-append [] [] m f h = refl
zip-append [] (g ∷ fs) m f h = absurd (omega arith)
zip-append (n ∷ ms) [] m f h = absurd (omega arith)
zip-append (n ∷ ms) (g ∷ fs) m f h = ap (◌∷◌ (n, g)) (zip-append ms fs m f (omega arith))

-- the region, in pages
abbrev region : ℕ → ℕ → MemRangeData
region physical_address size = new (page_base physical_address) (aligned_size physical_address size)

pub covered_last :
    (es : List Entry) (r : MemRangeData) (f a : ℕ)
    → contains r a ≡ true
    → covered (es ++ (r, f) ∷ []) a ≡ true
unfolding covered
covered_last es r f a h = ground (arith, h, covered-append es ((r, f) ∷ []) a)

pub covered_first :
    (es : List Entry) (r : MemRangeData) (f a : ℕ)
    → covered es a ≡ true
    → covered (es ++ (r, f) ∷ []) a ≡ true
covered_first es r f a h = ground (arith, h, covered-append es ((r, f) ∷ []) a)

pub below_span : (l5 : Bool) (a : ℕ) → a < 2 ^ 48 → a < top_span l5
below_span true a h = omega arith
below_span false a h = h

-- what the call returns
abbrev region_mapping : ℕ → ℕ → PhysicalMapping
region_mapping physical_address size = record {
  physical_start = physical_address;
  virtual_start = physical_address;
  region_length = size;
  mapped_length = aligned_size physical_address size;
}

-- The call returns a mapping of the region to itself, and from then on every address of the region
-- translates to itself.
abbrev pub IsRegion : Hardware → Bool → ℕ → ℕ → Current → Option (PhysicalMapping × Told) → Type 0
IsRegion hw l5 physical_address size c r =
    (p : PhysicalMapping) × (ipis : List ℕ) × (m' : Memory) × (r ≡ some (p, (ipis, m')))
    × (p.virtual_start ≡ physical_address)
    × (size ≤ p.mapped_length)
    × ((a : ℕ)
        → physical_address ≤ a
        → a < physical_address + size
        → get_addr hw l5 c.cr3 a m' ≡ ok a)
