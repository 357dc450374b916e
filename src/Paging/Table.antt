-- ===== src/Paging/Table.antt =====
-- Page tables in memory, as src/memory/paging.rs reads and writes them: `cell p i` is entry `i` of
-- the table at `p`. The allocator is not part of the file: `supply` are the addresses that it will
-- give out, in order (at the end it gives a null pointer), and `freed` what it was given back.
use okots_os.Base.{ℕ, ◌&&◌, some, List, [], ◌∷◌, ◌==◌, if◌then◌else◌}
use okots_os.Errors.{Error, Result, ok, err, new, allocation_failed}

pub record Memory : Type 0 where
  pub cell : ℕ → ℕ → ℕ
  pub supply : List ℕ
  pub freed : List ℕ

-- A failed call keeps the memory as it left it.
abbrev pub M : Type 0 → Type 0
M A = Memory → Result A × Memory

abbrev pub pure : {A : Type 0} → A → M A
pure a m = (ok a, m)

abbrev pub raise : {A : Type 0} → Error → M A
raise e m = (err e, m)

abbrev pub and_then : {A B : Type 0} → Result A × Memory → (A → M B) → Result B × Memory
and_then (ok a, m) f = f a m
and_then (err e, m) f = (err e, m)

infixl 5 ◌>>=◌ ◌>>◌
abbrev pub ◌>>=◌ : {A B : Type 0} → M A → (A → M B) → M B
◌>>=◌ c f m = and_then (c m) f

abbrev pub ◌>>◌ : {B : Type 0} → M (Unit {0}) → M B → M B
c >> k = c >>= λ _. k

abbrev pub write_cell : (ℕ → ℕ → ℕ) → ℕ → ℕ → ℕ → ℕ → ℕ → ℕ
write_cell cell p i w q j = if q == p && j == i then w else cell q j

-- a table of zeros
abbrev pub zero_table : (ℕ → ℕ → ℕ) → ℕ → ℕ → ℕ → ℕ
zero_table cell p q j = if q == p then 0 else cell q j

-- `*table_ptr.add(idx) = raw_entry`
abbrev pub store : ℕ → ℕ → ℕ → M (Unit {0})
store p i w m = (ok tt, record m { cell = write_cell m.cell p i w })

-- `alloc_zeroed` of a table
abbrev pub alloc_from : List ℕ → M ℕ
alloc_from [] m = (err (new allocation_failed (some "Allocation failed")), m)
alloc_from (p ∷ rest) m = (ok p, record m { cell = zero_table m.cell p; supply = rest })

abbrev pub alloc_zeroed : M ℕ
alloc_zeroed m = alloc_from m.supply m

-- `dealloc` of a table
abbrev pub dealloc : ℕ → M (Unit {0})
dealloc p m = (ok tt, record m { freed = p ∷ m.freed })
