-- ===== src/Csdk/Handles/Steps.antt =====
-- What one call into C does to the handles.
use cubesql_go_driver.Prelude.{
  ℕ, zero, suc, ◌+◌, ◌≤◌, bit, none, List, [], ◌∷◌, ◌++◌, ◌≡◌, arith, ◌==◌, length, ltb, get_or,
  set,
}
use cubesql_go_driver.Csdk.Types.{
  Call, Reply, History, Native, Child, Pointer, Sdk, cross, zero_child,
}
use cubesql_go_driver.Csdk.Handles.{
  Kind, conn, cursor, stmt, bind, hit, uses, frees, returns, freed, issued, misused, holds, holding,
  binding, held, Safe,
}

module _ (k : Kind) (h : ℕ) where
  hit-le : (a : Kind) (n : ℕ) → hit k h a n ≤ bit (h == n)
  unfolding hit
  hit-le a n = ground arith

  returns-le : (n : ℕ) (call : Call) (r : Reply) → returns k h n call r ≤ bit (h == n)
  returns-le n call r = ground (arith, hit-le conn n, hit-le cursor n, hit-le stmt n, hit-le bind n)

  -- A handle is the number of the call that returned it, so it is returned once.
  pub issued-le : (history : History) → issued k h history ≤ bit (ltb h (length history))
  unfolding issued
  issued-le [] = omega arith
  issued-le ((call, r) ∷ rest) = ground (arith, returns-le (length rest) call r, issued-le rest)

  pub holding-push :
      (a : Kind) (cs : List Child) (c : Child)
      → holding k h a (cs ++ c ∷ []) ≡ holding k h a cs + holds k h a c.ptr
  unfolding holding
  holding-push a [] c = omega arith
  holding-push a (x ∷ cs) c = omega (arith, holding-push a cs c)

  -- Clearing the pointer at an address.
  pub holding-clear :
      (a : Kind) (cs : List Child) (i : ℕ) (c : Child)
      → c.ptr ≡ none
      → holding k h a (set cs i c) + holds k h a (get_or cs i zero_child).ptr ≡ holding k h a cs
  unfolding holding
  holding-clear a [] i c cleared = omega arith
  holding-clear a (x ∷ cs) zero c cleared = ground arith
  holding-clear a (x ∷ cs) (suc i) c cleared = omega (arith, holding-clear a cs i c cleared)

  pub holds-le-holding :
      (a : Kind) (cs : List Child) (i : ℕ)
      → holds k h a (get_or cs i zero_child).ptr ≤ holding k h a cs
  unfolding holding
  holds-le-holding a [] i = omega arith
  holds-le-holding a (x ∷ cs) zero = omega arith
  holds-le-holding a (x ∷ cs) (suc i) = omega (arith, holds-le-holding a cs i)

  pub binding-push :
      (ps : List Pointer) (p : Pointer)
      → binding k h (ps ++ p ∷ []) ≡ binding k h ps + holds k h bind p
  unfolding binding
  binding-push [] p = omega arith
  binding-push (x ∷ ps) p = omega (arith, binding-push ps p)

  pub binding-clear :
      (ps : List Pointer) (i : ℕ)
      → binding k h (set ps i none) + holds k h bind (get_or ps i none) ≡ binding k h ps
  unfolding binding
  binding-clear [] i = omega arith
  binding-clear (x ∷ ps) zero = omega arith
  binding-clear (x ∷ ps) (suc i) = omega (arith, binding-clear ps i)

  pub holds-le-binding :
      (ps : List Pointer) (i : ℕ) → holds k h bind (get_or ps i none) ≤ binding k h ps
  unfolding binding
  holds-le-binding [] i = omega arith
  holds-le-binding (x ∷ ps) zero = omega arith
  holds-le-binding (x ∷ ps) (suc i) = omega (arith, holds-le-binding ps i)

  module _ (sdk : Sdk) where
    -- A call on handles that Go holds misuses none. A handle that it frees is given up first: so
    -- `before` is what is held when the call is decided, and `s` where it is made.
    pub cross_owned :
        (call : Call) (before : ℕ) (s : Native)
        → before + freed k h s.history ≤ issued k h s.history
        → misused k h s.history ≡ 0
        → uses k h call ≤ before
        → held k h s + frees k h call ≤ before
        → Safe k h (cross sdk call s).1
    unfolding cross freed issued misused
    cross_owned call before s owned clean used left = record {
      owned = omega arith;
      unmisused = ground (arith, issued-le s.history);
    }

    pub cross-Safe :
        (call : Call) (s : Native)
        → Safe k h s
        → uses k h call ≤ held k h s
        → frees k h call ≡ 0
        → Safe k h (cross sdk call s).1
    cross-Safe call s safe used kept =
        cross_owned call (held k h s) s safe.owned safe.unmisused used (omega arith)
