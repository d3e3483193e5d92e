-- ===== src/Adapter/Driver/Selecting.antt =====
-- The database that Connect selects.
use cubesql_go_driver.Prelude.{
  true, false, Bool, some, Bytes, ◌≡◌, arith, refl, is_empty, [], ◌∷◌, ◌==◌, ◌&&◌, ◌||◌, ◌==ℤ◌,
  bytes_eq, c_string,
}
use cubesql_go_driver.Prelude.Action.{Outcome, ok, err, on_error, settle, pure, gets, ◌>>=◌}
use cubesql_go_driver.Prelude.Ends.{Ends, Ends-bind}
use cubesql_go_driver.Csdk.Types.{Ref, Sdk, Pointer, History, Call, csqlgo_ok}
use cubesql_go_driver.Csdk
use cubesql_go_driver.Core.Errors
use cubesql_go_driver.Core.Types.{World, Context}
use cubesql_go_driver.Core.Act.{publicly, context_error}
use cubesql_go_driver.Core.Conn
use cubesql_go_driver.Adapter.Driver.{select_database}
use cubesql_go_driver.Adapter.Driver.Opened.{
  IsClosed, IsFresh, Stays, context_error-IsFresh, IsHandedOut,
}

-- The last call into C selected the database, by its name up to a first NUL, on the handle that the
-- connection holds, and the server accepted it.
unfoldable selected_last : Bytes → Pointer → History → Bool
selected_last name (some h) ((Call.conn_set_database k (some sent), reply) ∷ history) =
    h == k && bytes_eq sent (c_string name) && reply.code ==ℤ csqlgo_ok
selected_last name ptr history = false

-- Where no database is named, nothing has to be selected.
unfoldable pub just_selected : Bytes → Pointer → History → Bool
unfolding selected_last
just_selected name ptr history = is_empty name || selected_last name ptr history

-- A native connection that nothing else uses, on which the database was selected.
pub record IsSelected (name : Bytes) (w : World) : Type 0 where
  pub fresh : IsFresh w
  pub last : just_selected name w.native.conn.ptr w.native.history ≡ true

bytes_eq_refl : (s : Bytes) → bytes_eq s s ≡ true
bytes_eq_refl [] = refl
bytes_eq_refl (b ∷ s) = ground (arith, bytes_eq_refl s)

module _ (sdk : Sdk) where
  connected-IsFresh :
      (w : World)
      → IsFresh w
      → Stays IsFresh (Conn.connected Ref.self w).0 (Conn.connected Ref.self w).1
  unfolding Conn.connected
  connected-IsFresh w p = ground arith

  idle-IsFresh : (w : World) → IsFresh w → Stays IsFresh (Conn.idle w).0 (Conn.idle w).1
  unfolding Conn.idle
  idle-IsFresh w p = ground arith

  called :
      (name : Bytes) (w : World)
      → IsFresh w
      → is_empty name ≡ false
      → Ends
          (λ _. IsSelected name)
          IsFresh
          ((gets (λ w. w.conn.native) >>= λ native.
              publicly (Csdk.Conn.set_database sdk native name))
            w).0
          ((gets (λ w. w.conn.native) >>= λ native.
              publicly (Csdk.Conn.set_database sdk native name))
            w).1
  unfolding ◌>>=◌ publicly Csdk.Conn.set_database just_selected selected_last
  called name w p named = ground (arith, bytes_eq_refl (c_string name))

  set_database-Ends :
      (ctx : Context) (name : Bytes) (w : World)
      → IsFresh w
      → is_empty name ≡ false
      → Ends
          (λ _. IsSelected name)
          IsFresh
          (Conn.set_database_context sdk ctx Ref.self name w).0
          (Conn.set_database_context sdk ctx Ref.self name w).1
  unfolding Conn.set_database_context
  set_database-Ends ctx name w p named =
      let Done : Unit {0} → World → Type 0 = λ _. IsSelected name in
      Ends-bind (λ _. IsFresh) Done IsFresh (context_error ctx) _ w (context_error-IsFresh ctx w p)
        λ _ v q.
          Ends-bind (λ _. IsFresh) Done IsFresh (Conn.connected Ref.self) _ v
            (connected-IsFresh v q)
            λ _ v q.
              Ends-bind (λ _. IsFresh) Done IsFresh Conn.idle _ v (idle-IsFresh v q)
                λ _ v q.
                  Ends-bind (λ _. IsFresh) Done IsFresh (context_error ctx) _ v
                    (context_error-IsFresh ctx v q) λ _ v q. called name v q named

  close-Closed : (w : World) → IsFresh w → IsClosed (Conn.close sdk Ref.self w).1
  unfolding Conn.close ◌>>=◌ publicly Csdk.Conn.close
  close-Closed w p = ground arith

  settled_select :
      (name : Bytes) (r : Outcome Errors.Error (Unit {0})) (w : World)
      → Ends (λ _. IsSelected name) IsFresh r w
      → Ends
          (λ _. IsSelected name)
          IsClosed
          (settle r (Conn.close sdk Ref.self) w).0
          (settle r (Conn.close sdk Ref.self) w).1
  settled_select name (ok a) w p = p
  settled_select name (err e) w p = close-Closed w p

  select_database-self :
      (ctx : Context) (name : Bytes) (w : World)
      → IsFresh w
      → Ends
          (λ _. IsSelected name)
          IsClosed
          (select_database sdk ctx Ref.self name w).0
          (select_database sdk ctx Ref.self name w).1
  unfolding select_database on_error pure just_selected
  select_database-self ctx [] w p = record { fresh = p; last = refl }
  select_database-self ctx (b ∷ name) w p =
      settled_select (b ∷ name) _ _ (set_database-Ends ctx (b ∷ name) w p refl)

  pub select_database-Ends :
      (ctx : Context) (r : Ref) (name : Bytes) (w : World)
      → IsHandedOut r w
      → Ends
          (λ _. IsSelected name)
          IsClosed
          (select_database sdk ctx r name w).0
          (select_database sdk ctx r name w).1
  select_database-Ends ctx r name w (same, p) = rw same (select_database-self ctx name w p)
