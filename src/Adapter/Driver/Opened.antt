-- ===== src/Adapter/Driver/Opened.antt =====
-- The connection that OpenContext hands out to Connect.
use cubesql_go_driver.Prelude.{pos, true, false, none, is_some, ◌≡◌, arith}
use cubesql_go_driver.Prelude.Action.{Outcome, ok, err, pure, modify, lift, ◌>>=◌, ◌>>◌}
use cubesql_go_driver.Prelude.Ends.{Ends, Ends-bind}
use cubesql_go_driver.Csdk.Types.{Ref, Sdk}
use cubesql_go_driver.Csdk.Types.{Options as NativeOptions}
use cubesql_go_driver.Csdk
use cubesql_go_driver.Core.Errors
use cubesql_go_driver.Core.Types.{World, Context}
use cubesql_go_driver.Core.Act.{publicly, context_error}
use cubesql_go_driver.Core.Options.{Options, native}
use cubesql_go_driver.Core.Conn

-- No connection to the server is held.
abbrev pub IsClosed : World → Type 0
IsClosed w = w.native.conn.ptr ≡ none

-- One is held, which nothing uses.
pub record IsFresh (w : World) : Type 0 where
  pub held : is_some w.native.conn.ptr ≡ true
  pub unused : w.native.conn.children ≡ pos 0
  pub referred : w.conn.native ≡ Ref.self
  pub idle : w.conn.tx_active ≡ false
  pub childless : w.conn.children ≡ pos 0

-- What returned leaves what held.
abbrev pub Stays : {E A : Type 0} → (World → Type 0) → Outcome E A → World → Type 0
Stays P = Ends (λ _. P) P

context_error-IsClosed :
    (ctx : Context) (w : World)
    → IsClosed w
    → Stays IsClosed (context_error ctx w).0 (context_error ctx w).1
unfolding context_error
context_error-IsClosed ctx w p = ground arith

pub context_error-IsFresh :
    (ctx : Context) (w : World)
    → IsFresh w
    → Stays IsFresh (context_error ctx w).0 (context_error ctx w).1
unfolding context_error
context_error-IsFresh ctx w p = ground arith

lift-IsClosed :
    {A : Type 0} (r : Outcome Errors.Error A) (w : World)
    → IsClosed w
    → Stays IsClosed (lift r w).0 (lift r w).1
unfolding lift
lift-IsClosed (ok a) w p = p
lift-IsClosed (err e) w p = p

-- The connection that csdk.go hands out.
record IsOpened (r : Ref) (w : World) : Type 0 where
  pub held : is_some w.native.conn.ptr ≡ true
  pub unused : w.native.conn.children ≡ pos 0
  pub referred : r ≡ Ref.self

-- The connection that the core package hands out.
abbrev pub IsHandedOut : Ref → World → Type 0
IsHandedOut r w = (r ≡ Ref.self) × IsFresh w

module _ (sdk : Sdk) where
  open-Ends :
      (o : NativeOptions) (w : World)
      → IsClosed w
      → Ends IsOpened IsClosed
          (publicly (Csdk.Conn.open_conn sdk o) w).0
          (publicly (Csdk.Conn.open_conn sdk o) w).1
  unfolding publicly Csdk.Conn.open_conn ◌>>=◌
  open-Ends o w p = ground arith

  adopted :
      (handle : Ref) (t : World)
      → IsOpened handle t
      → Ends {E = Errors.Error} IsHandedOut IsClosed
          ((modify {E = Errors.Error} (λ w. record w {
            conn = record { native = handle; tx_active = false; children = pos 0 };
          })
              >> pure Ref.self)
            t).0
          ((modify {E = Errors.Error} (λ w. record w {
            conn = record { native = handle; tx_active = false; children = pos 0 };
          })
              >> pure Ref.self)
            t).1
  unfolding ◌>>=◌
  adopted handle t opened = ground arith

  pub open_context-Ends :
      (ctx : Context) (options : Options) (w : World)
      → IsClosed w
      → Ends IsHandedOut IsClosed
          (Conn.open_context sdk ctx options w).0
          (Conn.open_context sdk ctx options w).1
  unfolding Conn.open_context
  open_context-Ends ctx options w p =
      Ends-bind (λ _. IsClosed) IsHandedOut IsClosed (context_error ctx) _ w
        (context_error-IsClosed ctx w p)
        λ _ v q.
          Ends-bind (λ _. IsClosed) IsHandedOut IsClosed (lift (native options)) _ v
            (lift-IsClosed (native options) v q)
            λ o u r.
              Ends-bind IsOpened IsHandedOut IsClosed (publicly (Csdk.Conn.open_conn sdk o)) _ u
                (open-Ends o u r) λ handle t opened. adopted handle t opened
