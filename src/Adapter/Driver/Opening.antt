-- ===== src/Adapter/Driver/Opening.antt =====
-- What Connect leaves behind.
use cubesql_go_driver.Prelude.{true, some, Bytes, ◌≡◌, refl}
use cubesql_go_driver.Prelude.Action.{Outcome, ok, err}
use cubesql_go_driver.Prelude.Ends.{Ends, Ends-bind}
use cubesql_go_driver.Csdk.Types.{Sdk}
use cubesql_go_driver.Core.Errors
use cubesql_go_driver.Core.Types.{World, Context}
use cubesql_go_driver.Core.Act.{Act}
use cubesql_go_driver.Core.Conn
use cubesql_go_driver.Adapter.Types.{Session}
use cubesql_go_driver.Adapter.Conn.{is_valid}
use cubesql_go_driver.Adapter.Conn.Reset.{IsIdle}
use cubesql_go_driver.Adapter.Driver.{Connector, connect, select_database, passing, passed_on}
use cubesql_go_driver.Adapter.Driver.Opened.{IsClosed, IsFresh, IsHandedOut, open_context-Ends}
use cubesql_go_driver.Adapter.Driver.Selecting.{IsSelected, just_selected, select_database-Ends}

module _ {A : Type 0} (P : A → World → Type 0) (Q : World → Type 0) where
  Ends-passed_on :
      (r : Outcome Errors.Error A) (w : World) → Ends P Q r w → Ends P Q (passed_on r) w
  Ends-passed_on (ok a) w p = p
  Ends-passed_on (err e) w p = p

  Ends-passing :
      (m : Act A) (w : World) → Ends P Q (m w).0 (m w).1 → Ends P Q (passing m w).0 (passing m w).1
  unfolding passing
  Ends-passing m w p = Ends-passed_on (m w).0 (m w).1 p

-- The session that Connect returns, and the objects it stands on.
pub record IsConnected (database : Bytes) (s : Session) (w : World) : Type 0 where
  pub usable : IsIdle s
  pub fresh : IsFresh w
  pub selected : just_selected database w.native.conn.ptr w.native.history ≡ true
  pub here : s.world ≡ w
  pub noted : s.database ≡ database

module _ (sdk : Sdk) where
  -- Where no native connection is open, `Connect` returns a valid connection without a transaction,
  -- on a native connection that nothing else uses; if the configuration names a database, the last
  -- call into C selected it on this native connection, by its name up to a first NUL, and the server
  -- accepted it; and the connection notes the name. Or `Connect` returns an error, and no native
  -- connection is left open.
  pub connect-Ends :
      (connector : Connector) (ctx : Context) (w : World)
      → IsClosed w
      → Ends
          (IsConnected connector.config.database)
          IsClosed
          (connect sdk (some connector) ctx w).0
          (connect sdk (some connector) ctx w).1
  unfolding connect is_valid
  connect-Ends connector ctx w p =
      let database = connector.config.database in
      let Done : Session → World → Type 0 = IsConnected database in
      let opening = Conn.open_context sdk ctx connector.config.options in
      Ends-bind IsHandedOut Done IsClosed (passing opening) _ w
        (Ends-passing IsHandedOut IsClosed opening w
          (open_context-Ends sdk ctx connector.config.options w p))
        λ r v q.
          let selecting = select_database sdk ctx r database in
          Ends-bind (λ _. IsSelected database) Done IsClosed (passing selecting) _ v
            (Ends-passing (λ _. IsSelected database) IsClosed selecting v
              (select_database-Ends sdk ctx r database v q))
            λ _ u x. record {
              usable = (rw q.0 refl, refl);
              fresh = x.fresh;
              selected = x.last;
              here = refl;
              noted = refl;
            }
