-- ===== src/Security/Tenant/Trace.antt =====
-- How the tenant transaction of src/security/tenant.ts ends, for every behaviour of the database
-- and of the caller's operation.
use la_muni_rag.Base.{
  ◌≡◌, ◌↔◌, Option, none, some, List, [], ◌∷◌, map, Result, ok, err, arith, ap, Bool, if◌then◌else◌,
}
use la_muni_rag.Base.Text.{Text, lower}
use la_muni_rag.Security.Tenant.{
  Call, begin, set_tenant, operation, commit, rollback, to_pool, destroyed, destroyed_failed,
  roll_back, commit_work, run_operation, in_tenant, transaction, Finished,
}

abbrev pub last_call : List Call → Option Call
last_call [] = none
last_call (c ∷ []) = some c
last_call (c ∷ d ∷ cs) = last_call (d ∷ cs)

module _ {E T : Type 0} (throws : Call → Option E) (operate : Result E T) (is_error : E → Bool)
    (id : Text) where
  -- Every call of a committed transaction has succeeded, the operation among them.
  pub record Committed (result : T) : Type 0 where
    pub began : throws begin ≡ none
    pub tenant_set : throws (set_tenant (map lower id)) ≡ none
    pub operated : operate ≡ ok result
    pub committed : throws commit ≡ none

  transaction-Committed :
      (result : T) → (transaction throws operate is_error id).outcome ≡ ok result → Committed result
  unfolding transaction in_tenant run_operation commit_work roll_back
  transaction-Committed result h = ground arith

  Committed-transaction :
      (result : T)
      → Committed result
      → transaction throws operate is_error id ≡ record {
        calls = begin ∷ set_tenant (map lower id) ∷ operation ∷ commit ∷ [];
        released = to_pool;
        outcome = ok result;
      }
  unfolding transaction in_tenant run_operation commit_work roll_back
  Committed-transaction result c = ground arith

  -- A transaction gives a result exactly when every call and the operation succeed; then the
  -- operation runs once, after the tenant is set in lower case and before the only commit, nothing
  -- is rolled back, and the connection goes back to the pool.
  pub transaction-ok_iff :
      (result : T)
      → (transaction throws operate is_error id ≡ record {
        calls = begin ∷ set_tenant (map lower id) ∷ operation ∷ commit ∷ [];
        released = to_pool;
        outcome = ok result;
      })
        ↔ ((transaction throws operate is_error id).outcome ≡ ok result)
  transaction-ok_iff result = (
    λ e. ap (λ (f : Finished E T). f.outcome) e,
    λ e. Committed-transaction result (transaction-Committed result e),
  )

  -- How a failed transaction was left: the last call is a rollback; the connection goes back to the
  -- pool unless the rollback fails too, and is then destroyed, with what the rollback threw if that is
  -- an `Error`, and with a new error otherwise.
  pub record RolledBack : Type 0 where
    pub last : last_call (transaction throws operate is_error id).calls ≡ some rollback
    pub back : throws rollback ≡ none → (transaction throws operate is_error id).released ≡ to_pool
    pub gone :
        (e : E)
        → throws rollback ≡ some e
        → (transaction throws operate is_error id).released
          ≡ (if is_error e then destroyed e else destroyed_failed)

  -- A transaction that fails, at whatever call, is rolled back and its connection is released: to the
  -- pool, or, if the rollback fails too, destroyed with what that threw, or with a new error where it
  -- threw no `Error`.
  pub transaction-err :
      (error : E) → (transaction throws operate is_error id).outcome ≡ err error → RolledBack
  unfolding transaction in_tenant run_operation commit_work roll_back
  transaction-err error h = record {
    last = ground arith;
    back = λ e. ground arith;
    gone = λ e p. ground arith;
  }
