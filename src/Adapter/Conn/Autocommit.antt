-- ===== src/Adapter/Conn/Autocommit.antt =====
-- An execution outside a transaction is committed.
use cubesql_go_driver.Prelude.{Bool, true, false, Bytes, List, [], ◌∷◌, none, ◌≡◌, arith, ◌==ℤ◌}
use cubesql_go_driver.Prelude.Action.{Outcome, ok, err, continue, ◌>>=◌}
use cubesql_go_driver.Csdk.Types.{Ref, Sdk, History, Call, csqlgo_ok, Native}
use cubesql_go_driver.Csdk
use cubesql_go_driver.Core.Errors
use cubesql_go_driver.Core.Types.{World, Context, Result, background}
use cubesql_go_driver.Core.Act.{Act, publicly}
use cubesql_go_driver.Core.Bind.{Any}
use cubesql_go_driver.Core.Conn
use cubesql_go_driver.Core.Tx
use cubesql_go_driver.Adapter.Types.{Session}
use cubesql_go_driver.Adapter.Conn.{exec_values}

-- The last call into C is a commit, and the server accepted it.
pub just_committed : History → Bool
just_committed [] = false
just_committed ((Call.conn_commit h, reply) ∷ rest) = reply.code ==ℤ csqlgo_ok
just_committed (call ∷ rest) = false

-- Where `m` succeeds, its last call was a commit.
record Commits {A : Type 0} (m : Act A) : Type 0 where
  at : (w : World) (a : A) → (m w).0 ≡ ok a → just_committed (m w).1.native.history ≡ true

module _ {A B : Type 0} where
  Commits-continue :
      (r : Outcome Errors.Error A) (f : A → Act B) (v : World) (b : B)
      → ((a : A) → Commits (f a))
      → (continue r f v).0 ≡ ok b
      → just_committed (continue r f v).1.native.history ≡ true
  Commits-continue (ok a) f v b k h = (k a).at v b h
  Commits-continue (err e) f v b k h = cc

  Commits-bind : (m : Act A) (f : A → Act B) → ((a : A) → Commits (f a)) → Commits (m >>= f)
  unfolding ◌>>=◌
  Commits-bind m f k = record { at = λ w b h. Commits-continue (m w).0 f (m w).1 b k h }

module _ (sdk : Sdk) where
  csdk_commit :
      (c : Ref) (s : Native)
      → (Csdk.Conn.commit sdk c s).0 ≡ ok tt
      → just_committed (Csdk.Conn.commit sdk c s).1.history ≡ true
  unfolding Csdk.Conn.commit Csdk.Conn.call just_committed ◌>>=◌
  csdk_commit c s h = ground arith

  core_commit :
      (c : Ref) (w : World) (u : Unit {0})
      → (publicly (Csdk.Conn.commit sdk c) w).0 ≡ ok u
      → just_committed (publicly (Csdk.Conn.commit sdk c) w).1.native.history ≡ true
  unfolding publicly
  core_commit c w u h = ground (arith, csdk_commit c w.native)

  Commits-end : Commits (Tx.end_native sdk true)
  unfolding Tx.end_native
  Commits-end = Commits-bind _ _ λ c. record { at = core_commit c }

  Commits-finish_implicit :
      (ctx : Context) (conn : Ref) → Commits (Tx.finish_implicit sdk ctx conn true)
  unfolding Tx.finish_implicit
  Commits-finish_implicit ctx conn = Commits-bind _ _ λ _.
      Commits-bind _ _
        λ _. Commits-bind _ _ λ _. Commits-bind _ _ λ _. Commits-bind _ _ λ _. Commits-end

  -- An execution that succeeds while no transaction is active has ended with a commit that the
  -- server accepted.
  pub exec_values-Commits :
      (ctx : Context) (query : Bytes) (values : List Any) (s : Session) (result : Result)
      → s.active_tx ≡ none
      → (exec_values sdk ctx query values s).0 ≡ ok result
      → just_committed (exec_values sdk ctx query values s).1.world.native.history ≡ true
  unfolding exec_values ◌>>=◌
  exec_values-Commits ctx query values s result outside h =
      let w = (Conn.exec_context sdk ctx s.native query values s.world).1 in
      ground (arith, (Commits-finish_implicit background s.native).at w tt)
