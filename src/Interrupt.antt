-- ===== src/Interrupt.antt =====
-- src/interrupt/api.rs: the handlers of a processor's interrupt vectors. A handler is its
-- address; `id` is a vector that the table can be indexed by, which those with an error code are not.
pub mod Held
use Prim.Native.String.{String}
use okots_os.Base.{
  ℕ, Bool, true, false, not, ◌&&◌, Option, none, some, List, [], ◌∷◌, ◌==◌, if◌then◌else◌,
}
use okots_os.Errors.{Error, Result, ok, err, new, already_initialized}

-- an entry of the table; the selector is the index in the GDT, at ring 0
pub record Entry : Type 0 where
  pub handler : ℕ
  pub present : Bool
  pub code_selector : ℕ

abbrev pub Idt : Type 0
Idt = ℕ → Entry

abbrev pub write : Idt → ℕ → Entry → Idt
write idt id entry v = if v == id then entry else idt v

unfoldable pub add : ℕ → ℕ → Bool → Idt → Result (Unit {0}) × Idt
add id target over_write idt =
    if not over_write && not ((idt id).handler == 0)
    then (
      err (
          new already_initialized (
            some
              "this idt vector is initialized. if you need over write, enable over_write flag.")),
      idt,
    )
    else (ok tt, write idt id (record { handler = target; present = true; code_selector = 1 }))

-- `set_handler_addr` of the crate `x86_64` makes the options anew, with `cs`, the code segment that
-- the processor is in.
unfoldable pub remove : ℕ → ℕ → Idt → Idt
remove cs id idt = write idt id (record { handler = 0; present = false; code_selector = cs })
