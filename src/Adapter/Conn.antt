-- ===== src/Adapter/Conn.antt =====
-- `conn` of database/cubesql/conn.go and finishTransaction of database/cubesql/tx.go.
pub mod Leak
pub mod Reset
pub mod Unusable
pub mod Autocommit
use cubesql_go_driver.Prelude.{
  ℕ, ℤ, pos, Bool, true, false, not, ◌||◌, ◌&&◌, Bytes, List, [], ◌∷◌, ◌++◌, Option, none, some,
  is_none, is_some, length, if◌then◌else◌, ◌==ℤ◌, ◌==◌,
}
use cubesql_go_driver.Prelude.Action.{
  Outcome, ok, err, pure, raise, lift, return_if, gets, modify, attempt, ◌>>=◌, ◌>>◌,
}
use cubesql_go_driver.Csdk.Types.{Ref, is_nil, Pointer, Sdk}
use cubesql_go_driver.Core.Errors
use cubesql_go_driver.Core.Errors.{Sentinel, is_error, plain, sdk, joined, joined_one, join}
use cubesql_go_driver.Core.Types.{Context, background, Result}
use cubesql_go_driver.Core.Act.{Act, error_of}
use cubesql_go_driver.Core.Bind.{Any}
use cubesql_go_driver.Core.Conn
use cubesql_go_driver.Core.Stmt
use cubesql_go_driver.Core.Query
use cubesql_go_driver.Core.Tx
use cubesql_go_driver.Adapter.Types.{
  Error, core, bad_conn, read_only_transaction, transaction_isolation, Session, Transaction, Sql,
  zero_transaction,
}
use cubesql_go_driver.Adapter.Values.{NamedValue, Converted, named_values}

-- A call of the core package, whose error the adapter looks at.
unfoldable pub core_call : {A : Type 0} → Act A → Session → Outcome Errors.Error A × Session
core_call m s = let (r, w) = m s.world in (r, record s { world = w })

-- The errors that show that the connection is lost, in observeLocked.
unfoldable pub is_fatal : Errors.Error → Bool
unfolding is_error
is_fatal e =
    is_error e Sentinel.closed
    || is_error e Sentinel.network
    || is_error e Sentinel.protocol
    || is_error e Sentinel.timeout

unfoldable pub observe_locked : Errors.Error → Session → Session
unfolding is_fatal
observe_locked e s = if is_fatal e then record s { broken = true } else s

-- `safeRetryErrorLocked` of a non-nil error, raised.
unfoldable pub safe_retry_error : {A : Type 0} → Errors.Error → Sql A
safe_retry_error e s = if s.broken then (err bad_conn, s) else (err (core e), s)

unfoldable pub usable : Sql (Unit {0})
usable s = if s.closed || is_nil s.native || s.broken then (err bad_conn, s) else (ok tt, s)

abbrev settle_observed : {A : Type 0} → Outcome Errors.Error A → Session → Outcome Error A × Session
settle_observed (ok a) s = (ok a, s)
settle_observed (err e) s = (err (core e), observe_locked e s)

-- `if err != nil { connection.observeLocked(err); return nil, err }`
unfoldable pub observed : {A : Type 0} → Act A → Sql A
unfolding core_call observe_locked
observed m s = let (r, t) = core_call m s in settle_observed r t

abbrev settle_safe : {A : Type 0} → Outcome Errors.Error A → Session → Outcome Error A × Session
settle_safe (ok a) s = (ok a, s)
settle_safe (err e) s = safe_retry_error e (observe_locked e s)

-- The same, with safeRetryErrorLocked around the error.
unfoldable pub observed_safely : {A : Type 0} → Act A → Sql A
unfolding core_call observe_locked safe_retry_error
observed_safely m s = let (r, t) = core_call m s in settle_safe r t

-- The code of the first `*Error` that `errors.As` finds.
unfoldable pub sdk_code : Errors.Error → Option ℤ
sdk_code (plain s) = none
sdk_code (sdk code message kind) = some code
sdk_code (joined_one e) = sdk_code e
sdk_code (joined e f) =
    let first = sdk_code e in let second = sdk_code f in if is_some first then first else second

abbrev is_code : Option ℤ → ℤ → Bool
is_code none n = false
is_code (some code) n = code ==ℤ n

-- isNoDatabaseSelected
unfoldable pub is_no_database_selected : Errors.Error → Bool
unfolding sdk_code
is_no_database_selected e = is_code (sdk_code e) (pos 7030)

unfoldable pub is_valid : Ref → Session → Bool
is_valid Ref.nil s = false
is_valid Ref.self s = not s.closed && not s.broken && not (is_nil s.native)

-- finishTransaction
abbrev same_tx : Pointer → Pointer → Bool
same_tx none none = true
same_tx none (some t) = false
same_tx (some t) none = false
same_tx (some t) (some u) = t == u

unfoldable pub finish_transaction : Pointer → (broken clear : Bool) → Session → Session
finish_transaction native broken clear s =
    let t = if same_tx s.active_tx native && clear then record s { active_tx = none } else s in
    if broken then record t { broken = true } else t

-- driver.TxOptions; an isolation level is a number, and the default is 0
pub record TxOptions : Type 0 where
  pub isolation : ℕ
  pub read_only : Bool

abbrev pub closed_if : Option Errors.Error → Session → Session
closed_if none s = record s { native = Ref.nil; closed = true }
closed_if (some e) s = s

abbrev pub as_error : Option Errors.Error → Outcome Error (Unit {0})
as_error none = ok tt
as_error (some e) = err (core e)

-- `connection.broken = true; return driver.ErrBadConn`, unless the error is allowed.
abbrev settle_reset :
    (Errors.Error → Bool)
    → Outcome Errors.Error (Unit {0})
    → Session
    → Outcome Error (Unit {0}) × Session
settle_reset allowed (ok _) s = (ok tt, s)
settle_reset allowed (err e) s =
    if allowed e then (ok tt, s) else (err bad_conn, record s { broken = true })

unfoldable pub or_broken : (Errors.Error → Bool) → Act (Unit {0}) → Sql (Unit {0})
unfolding core_call
or_broken allowed m s = let (r, t) = core_call m s in settle_reset allowed r t

module _ (sdk_reply : Sdk) where
  -- The statement is prepared and closed at once: a check of the SQL.
  unfoldable pub prepare_context : Context → Bytes → Sql (Unit {0})
  unfolding usable observed_safely
  prepare_context ctx query = do
    usable
    native ← gets (λ s. s.native)
    prepared ← observed_safely (Conn.prepare_context sdk_reply ctx native query)
    observed_safely (Stmt.close sdk_reply (some prepared))

  abbrev rollback_active : Pointer → Session → Option Errors.Error × Session
  rollback_active none s = (none, s)
  rollback_active (some t) s =
      let (r, u) = core_call (Tx.finish sdk_reply background (some t) false) s in
      (error_of r, record u { active_tx = none })

  unfoldable pub close : Ref → Sql (Unit {0})
  unfolding core_call join
  close Ref.nil s = (ok tt, s)
  close Ref.self s =
      if s.closed
      then (ok tt, s)
      else let (rollback_error, t) = rollback_active s.active_tx s in
        let (r, u) = core_call (Conn.close sdk_reply t.native) t in
        (as_error (join rollback_error (error_of r)), closed_if (error_of r) u)

  unfoldable pub begin_tx : Context → TxOptions → Sql ℕ
  unfolding usable observed
  begin_tx ctx options = do
    return_if options.read_only read_only_transaction
    return_if (not (options.isolation == 0)) transaction_isolation
    usable
    active ← gets (λ s. s.active_tx)
    return_if (is_some active) (core (plain Sentinel.busy))
    native ← gets (λ s. s.native)
    tx ← observed (Tx.begin_context sdk_reply ctx native)
    modify (λ s. record s { active_tx = some tx })
    (λ s.
        let made : Transaction = record { connection = Ref.self; native = some tx; done = false } in
        (ok (length s.transactions), record s { transactions = s.transactions ++ made ∷ [] }))

  unfoldable pub ping : Context → Sql (Unit {0})
  unfolding usable observed_safely
  ping ctx = do
    usable
    native ← gets (λ s. s.native)
    observed_safely (Conn.ping_context sdk_reply ctx native)

  abbrev reset_tx : Context → Pointer → Sql (Unit {0})
  reset_tx ctx none = pure tt
  reset_tx ctx (some t) = do
    or_broken (λ _. false) (Tx.finish sdk_reply ctx (some t) false)
    modify (λ s. record s { active_tx = none })

  unfoldable pub reset_session : Context → Sql (Unit {0})
  unfolding usable or_broken is_no_database_selected
  reset_session ctx = do
    usable
    active ← gets (λ s. s.active_tx)
    reset_tx ctx active
    native ← gets (λ s. s.native)
    or_broken is_no_database_selected (Tx.finish_implicit sdk_reply ctx native false)
    database ← gets (λ s. s.database)
    or_broken (λ _. false) (Conn.set_database_context sdk_reply ctx native database)

  -- The commit of an execution outside a transaction.
  abbrev commit_unless : Pointer → Ref → Sql (Unit {0})
  commit_unless none native = observed (Tx.finish_implicit sdk_reply background native true)
  commit_unless (some t) native = pure tt

  unfoldable pub exec_values : Context → Bytes → List Any → Sql Result
  unfolding usable observed
  exec_values ctx query values = do
    usable
    native ← gets (λ s. s.native)
    result ← observed (Conn.exec_context sdk_reply ctx native query values)
    active ← gets (λ s. s.active_tx)
    commit_unless active native
    pure result

  unfoldable pub query_values : Context → Bytes → List Any → Sql ℕ
  unfolding usable observed
  query_values ctx query values = do
    usable
    native ← gets (λ s. s.native)
    observed (Query.query_context sdk_reply ctx native query values)

module _ (sdk_reply : Sdk) {I : Type 0} (convert : I → Option Converted) where
  unfoldable pub exec_context : Context → Bytes → List (NamedValue I) → Sql Result
  unfolding exec_values named_values
  exec_context ctx query arguments = do
    values ← lift (named_values convert arguments)
    exec_values sdk_reply ctx query values

  unfoldable pub query_context : Context → Bytes → List (NamedValue I) → Sql ℕ
  unfolding query_values named_values
  query_context ctx query arguments = do
    values ← lift (named_values convert arguments)
    query_values sdk_reply ctx query values
