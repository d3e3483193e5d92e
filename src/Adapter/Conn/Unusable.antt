-- ===== src/Adapter/Conn/Unusable.antt =====
-- The methods of a connection that is closed or broken.
use cubesql_go_driver.Prelude.{false, Bytes, List, Option, ◌≡◌, arith, refl}
use cubesql_go_driver.Prelude.Action.{Outcome, ok, err, lift, ◌>>=◌}
use cubesql_go_driver.Csdk.Types.{Ref, Sdk}
use cubesql_go_driver.Core.Types.{Context}
use cubesql_go_driver.Core.Bind.{Any}
use cubesql_go_driver.Adapter.Types.{bad_conn, Error, Session, Sql}
use cubesql_go_driver.Adapter.Conn.{
  is_valid, usable, prepare_context, begin_tx, ping, reset_session, exec_values, query_values,
  exec_context, query_context,
}
use cubesql_go_driver.Adapter.Values.{NamedValue, Converted, named_values}

unusable_stops :
    {B : Type 0} (f : Unit {0} → Sql B) (s : Session)
    → is_valid Ref.self s ≡ false
    → (usable >>= f) s ≡ (err bad_conn, s)
unfolding usable is_valid ◌>>=◌
unusable_stops f s invalid = ground arith

-- What comes of arguments that would be sent on a connection that is not valid.
abbrev pub refusal : {A : Type 0} → Outcome Error (List Any) → Outcome Error A
refusal (ok values) = err bad_conn
refusal (err e) = err e

after_arguments :
    {A : Type 0} (o : Outcome Error (List Any)) (f : List Any → Unit {0} → Sql A) (s : Session)
    → is_valid Ref.self s ≡ false
    → (lift o >>= λ values. usable >>= f values) s ≡ (refusal o, s)
unfolding lift ◌>>=◌
after_arguments (ok values) f s invalid = unusable_stops (f values) s invalid
after_arguments (err e) f s invalid = refl

module _ (sdk : Sdk) {I : Type 0} (convert : I → Option Converted) where
  -- On a connection that is not valid, preparing, beginning a transaction with the default options,
  -- pinging and resetting all return `driver.ErrBadConn` and change nothing, so nothing was sent and
  -- database/sql may retry on another connection. So do ExecContext and QueryContext, unless
  -- namedValues refuses the arguments: its error is then what they return.
  pub invalid-BadConn :
      (ctx : Context) (query : Bytes) (arguments : List (NamedValue I)) (s : Session)
      → is_valid Ref.self s ≡ false
      → (prepare_context sdk ctx query s ≡ (err bad_conn, s))
        × (begin_tx sdk ctx (record { isolation = 0; read_only = false }) s ≡ (err bad_conn, s))
        × (ping sdk ctx s ≡ (err bad_conn, s))
        × (reset_session sdk ctx s ≡ (err bad_conn, s))
        × (exec_context sdk convert ctx query arguments s
            ≡ (refusal (named_values convert arguments), s))
        × (query_context sdk convert ctx query arguments s
            ≡ (refusal (named_values convert arguments), s))
  unfolding prepare_context begin_tx ping reset_session exec_values query_values exec_context
      query_context ◌>>=◌
  invalid-BadConn ctx query arguments s invalid = (
    unusable_stops _ s invalid,
    unusable_stops _ s invalid,
    unusable_stops _ s invalid,
    unusable_stops _ s invalid,
    after_arguments (named_values convert arguments) _ s invalid,
    after_arguments (named_values convert arguments) _ s invalid,
  )
