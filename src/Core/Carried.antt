-- ===== src/Core/Carried.antt =====
-- What holds of internal/csdk holds of it under the package cubesql too: the core package reaches
-- the native objects only through the methods of csdk.go.
pub mod Objects
pub mod Methods
pub mod Statements
pub mod Cursors
pub mod Sessions
use cubesql_go_driver.Prelude.{Bool, true, false, ◌≡◌, refl, if◌then◌else◌}
use cubesql_go_driver.Prelude.Action.{
  Outcome, ok, err, continue, pure, raise, lift, return_if, gets, modify, ◌>>=◌, deferring, settle,
  on_error, attempt,
}
use cubesql_go_driver.Csdk.Types.{Native, Do}
use cubesql_go_driver.Core.Errors.{Error}
use cubesql_go_driver.Core.Types.{World}
use cubesql_go_driver.Core.Act.{Act, publicly}

-- `m` touches no native object.
pub record Local {A : Type 0} (m : Act A) : Type 0 where
  pub at : (w : World) → (m w).1.native ≡ w.native

-- `m` keeps what holds of the native objects.
pub record Carries (P : Native → Type 0) {A : Type 0} (m : Act A) : Type 0 where
  pub at : (w : World) → P w.native → P (m w).1.native

module _ (P : Native → Type 0) where
  pub Carries-Local : {A : Type 0} (m : Act A) → Local m → Carries P m
  Carries-Local m l = record { at = λ w p. rw (l.at w) p }

  pub Carries-publicly :
      {A : Type 0} (m : Do A) → ((s : Native) → P s → P (m s).1) → Carries P (publicly m)
  unfolding publicly
  Carries-publicly m k = record { at = λ w p. k w.native p }

  module _ {A B : Type 0} where
    pub Carries-continue :
        (r : Outcome Error A) (f : A → Act B) (w : World)
        → P w.native
        → ((a : A) → Carries P (f a))
        → P (continue r f w).1.native
    Carries-continue (ok a) f w p k = (k a).at w p
    Carries-continue (err e) f w p k = p

    pub Carries-bind :
        (m : Act A) (f : A → Act B)
        → Carries P m
        → ((a : A) → Carries P (f a))
        → Carries P (m >>= f)
    unfolding ◌>>=◌
    Carries-bind m f km kf = record {
      at = λ w p. Carries-continue (m w).0 f (m w).1 (km.at w p) kf;
    }

    pub Carries-deferring :
        (m : Act A) (cleanup : Act B)
        → Carries P m
        → Carries P cleanup
        → Carries P (deferring m cleanup)
    unfolding deferring
    Carries-deferring m cleanup km kc = record { at = λ w p. kc.at (m w).1 (km.at w p) }

    Carries-settle :
        (r : Outcome Error A) (cleanup : Act B) (w : World)
        → P w.native
        → Carries P cleanup
        → P (settle r cleanup w).1.native
    Carries-settle (ok a) cleanup w p k = p
    Carries-settle (err e) cleanup w p k = k.at w p

    pub Carries-on_error :
        (m : Act A) (cleanup : Act B)
        → Carries P m
        → Carries P cleanup
        → Carries P (on_error m cleanup)
    unfolding on_error
    Carries-on_error m cleanup km kc = record {
      at = λ w p. Carries-settle (m w).0 cleanup (m w).1 (km.at w p) kc;
    }

  module _ {A : Type 0} where
    pub Carries-attempt : (m : Act A) → Carries P m → Carries P (attempt m)
    unfolding attempt
    Carries-attempt m k = record { at = k.at }

    pub Carries-if :
        (b : Bool) (m n : Act A) → Carries P m → Carries P n → Carries P (if b then m else n)
    Carries-if true m n km kn = km
    Carries-if false m n km kn = kn

module _ {A : Type 0} where
  pub Local-pure : (a : A) → Local (pure a)
  unfolding pure
  Local-pure a = record { at = λ w. refl }

  pub Local-raise : (e : Error) → Local (raise {A = A} e)
  unfolding raise
  Local-raise e = record { at = λ w. refl }

  pub Local-lift : (r : Outcome Error A) → Local (lift r)
  unfolding lift
  Local-lift r = record { at = λ w. refl }

  pub Local-gets : (f : World → A) → Local (gets f)
  unfolding gets
  Local-gets f = record { at = λ w. refl }

pub Local-return_if : (b : Bool) (e : Error) → Local (return_if b e)
unfolding return_if
Local-return_if true e = record { at = λ w. refl }
Local-return_if false e = record { at = λ w. refl }

pub Local-modify : (f : World → World) → ((w : World) → (f w).native ≡ w.native) → Local (modify f)
unfolding modify
Local-modify f same = record { at = same }

pub ruleset carried_rules = (
  Carries-Local, Carries-bind, Carries-deferring, Carries-on_error, Carries-attempt, Carries-if,
  Local-pure, Local-raise, Local-lift, Local-gets, Local-return_if,
)
