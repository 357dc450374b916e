-- ===== src/Errors.antt =====
-- src/result/types.rs: the kernel's errors, and what wraps the errors of the libraries. An error of
-- a library is known by a number. The build is that of the default features, which record no
-- caller.
pub mod Raise
use Prim.Native.String.{String}
use okots_os.Base.{ℕ, Option, none, some}

mutual
  pub data ErrorType : Type 0 where
    internal_error device_error read_error not_supported allocation_failed : ErrorType
    file_not_found invalid_data invalid_argument index_max not_a_file : ErrorType
    invalid_file_type already_used already_initialized not_found over_flow : ErrorType
    not_initialized uefi_broken return_is_none other_error : ErrorType
    uefi_error : ℕ → ErrorType
    acpi_error : ℕ → ErrorType
    error_raised : Error → ErrorType
    other : ℕ → ErrorType

  pub data Error : Type 0 where
    error : ErrorType → Option String → Error

pub data Result {ℓ} (A : Type ℓ) : Type ℓ where
  ok : A → Result A
  err : Error → Result A

infixl 5 ◌>>=◌
abbrev pub ◌>>=◌ {ℓ κ} : {A : Type ℓ} {B : Type κ} → Result A → (A → Result B) → Result B
ok a >>= f = f a
err e >>= f = err e

-- `new` and `new_string`
abbrev pub new : ErrorType → Option String → Error
new error_type message = error error_type message

abbrev pub raise {ℓ} : {T : Type ℓ} → Error → Result T
raise e = err e

abbrev pub from_uefi : ℕ → Option String → Error
from_uefi status desc = new (uefi_error status) desc

abbrev pub from_acpi : ℕ → Option String → Error
from_acpi status desc = new (acpi_error status) desc

abbrev pub from_self : Error → Option String → Error
from_self me desc = new (error_raised me) desc

-- The error of a library call, by the type that `downcast_ref` finds.
pub data Failure : Type 0 where
  acpi_failure : ℕ → Failure
  uefi_failure : ℕ → Failure
  own_failure : Error → Failure
  foreign_failure : ℕ → Failure

pub data Status {ℓ} (A : Type ℓ) : Type ℓ where
  done : A → Status A
  failed : Failure → Status A

abbrev pub wrap : Failure → Option String → Error
wrap (acpi_failure status) desc = from_acpi status desc
wrap (uefi_failure status) desc = from_uefi status desc
wrap (own_failure me) desc = from_self me desc
wrap (foreign_failure n) desc = new (other n) desc

unfoldable pub try_raise {ℓ} : {T : Type ℓ} → Status T → Option String → Result T
try_raise (done val) desc = ok val
try_raise (failed failure) desc = raise (wrap failure desc)

unfoldable pub from_option {ℓ} :
    {T : Type ℓ} → Option T → Option ErrorType → Option String → Result T
from_option (some a) e_type desc = ok a
from_option none (some e_type) desc = err (new e_type desc)
from_option none none desc = err (new return_is_none desc)
