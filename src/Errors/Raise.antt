-- ===== src/Errors/Raise.antt =====
-- src/result/types.rs: no error is lost when it is wrapped.
use Prim.Native.String.{String}
use okots_os.Base.{◌≡◌, refl, Option, none, some}
use okots_os.Errors.{
  Error, error, error_raised, uefi_error, acpi_error, other, Result, ok, err, Failure, acpi_failure,
  uefi_failure, own_failure, foreign_failure, Status, done, failed, try_raise,
}

-- What a caller can read back from a wrapped error.
abbrev pub cause : Error → Option Failure
cause (error (uefi_error n) m) = some (uefi_failure n)
cause (error (acpi_error n) m) = some (acpi_failure n)
cause (error (error_raised e) m) = some (own_failure e)
cause (error (other n) m) = some (foreign_failure n)
cause (error t m) = none

abbrev pub message : Error → Option String
message (error t m) = m

-- What a caller has after `try_raise`: the value, or an error that gives the failure back with the
-- description.
abbrev pub IsRaised {ℓ} : {T : Type ℓ} → Status T → Option String → Result T → Type ℓ
IsRaised (done v) d r = r ≡ ok v
IsRaised (failed f) d r = (e : Error) × (r ≡ err e) × (cause e ≡ some f) × (message e ≡ d)

-- `try_raise` loses nothing: a value comes through unchanged, and the error of a failure names the
-- failure, whichever library it comes from, and carries the description.
pub try_raise-IsRaised {ℓ} :
    {T : Type ℓ} (s : Status T) (d : Option String) → IsRaised s d (try_raise s d)
unfolding try_raise
try_raise-IsRaised (done v) d = refl
try_raise-IsRaised (failed (acpi_failure n)) d = (_, refl, refl, refl)
try_raise-IsRaised (failed (uefi_failure n)) d = (_, refl, refl, refl)
try_raise-IsRaised (failed (own_failure e)) d = (_, refl, refl, refl)
try_raise-IsRaised (failed (foreign_failure n)) d = (_, refl, refl, refl)
