-- ===== src/Core/Act.antt =====
-- Calls of the package cubesql as actions on its objects: cubesql/context.go, and the passage of
-- csdk errors through publicError.
use cubesql_go_driver.Prelude.{zero, suc, Option, none, some, ℤ, pos}
use cubesql_go_driver.Prelude.Action.{Action, Outcome, ok, err, raise}
use cubesql_go_driver.Csdk.Types
use cubesql_go_driver.Csdk.Types.{Do}
use cubesql_go_driver.Core.Errors.{Sentinel, Error, plain, native, public_error}
use cubesql_go_driver.Core.Types.{World, Cancel, never, after, Context, caller, background}

abbrev pub Act : Type 0 → Type 0
Act = Action World Error

abbrev pub fail : {A : Type 0} → Sentinel → Act A
fail s = raise (plain s)

-- One look at `ctx.Done()`.
unfoldable pub check : Cancel → Act (Unit {0})
check never w = (ok tt, w)
check (after zero reason) w = (err (plain reason), w)
check (after (suc n) reason) w = (ok tt, record w { cancel = after n reason })

-- `if err := contextError(ctx); err != nil { return err }`
unfoldable pub context_error : Context → Act (Unit {0})
unfolding check
context_error Context.nil w = (err (plain Sentinel.invalid_argument), w)
context_error background w = (ok tt, w)
context_error caller w = check w.cancel w

unfoldable pub public_outcome : {A : Type 0} → Outcome Types.Error A → Outcome Error A
unfolding public_error
public_outcome (ok a) = ok a
public_outcome (err e) = err (public_error (native e))

-- A csdk call whose error goes through publicError.
unfoldable pub publicly : {A : Type 0} → Do A → Act A
unfolding public_outcome
publicly m w = let (r, n) = m w.native in (public_outcome r, record w { native = n })

abbrev pub error_of : {A : Type 0} → Outcome Error A → Option Error
error_of (ok a) = none
error_of (err e) = some e

abbrev pub number_of : Outcome Error ℤ → ℤ
number_of (ok n) = n
number_of (err e) = pos 0
