-- ===== src/Paging/Level.antt =====
-- src/memory/paging.rs, `PageLevel`, with its discriminants and the arithmetic on them.
use okots_os.Base.{ℕ, zero, suc, ◌+◌, ◌*◌, ◌/◌, ◌%◌, ◌^◌, ◌≡◌, refl, Option, none, some}

pub data PageLevel : Type 0 where
  pt pd pdpt pml4 pml5 : PageLevel

-- `level as u8`
abbrev pub rank : PageLevel → ℕ
rank pt = 0
rank pd = 1
rank pdpt = 2
rank pml4 = 3
rank pml5 = 4

-- `PageLevel::from_u8`
abbrev pub from_u8 : ℕ → Option PageLevel
from_u8 zero = some pt
from_u8 (suc zero) = some pd
from_u8 (suc (suc zero)) = some pdpt
from_u8 (suc (suc (suc zero))) = some pml4
from_u8 (suc (suc (suc (suc zero)))) = some pml5
from_u8 (suc (suc (suc (suc (suc n))))) = none

-- `transmute` of the discriminant less one
abbrev pub down : PageLevel → Option PageLevel
down pt = none
down pd = some pt
down pdpt = some pd
down pml4 = some pdpt
down pml5 = some pml4

abbrev pub shift : PageLevel → ℕ
shift level = rank level * 9 + 12

-- `1usize << shift`
abbrev pub entry_size : PageLevel → ℕ
entry_size level = 2 ^ shift level

-- `(vaddr >> shift) & 0x1ff`
abbrev pub get_index : PageLevel → ℕ → ℕ
get_index level vaddr = vaddr / 2 ^ shift level % 512

-- A discriminant names its level.
pub from_u8-rank : (level : PageLevel) → from_u8 (rank level) ≡ some level
from_u8-rank pt = refl
from_u8-rank pd = refl
from_u8-rank pdpt = refl
from_u8-rank pml4 = refl
from_u8-rank pml5 = refl
