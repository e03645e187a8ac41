-- ===== src/Security/Tenant.antt =====
-- src/security/tenant.ts: tenant identifiers and the tenant-scoped transaction.
pub mod Bytes
pub mod Trace
use la_muni_rag.Base.{
  ℕ, ◌+◌, ◌-◌, ◌*◌, Bool, true, false, ◌&&◌, not, Option, none, some, List, [], ◌∷◌, ◌++◌, map,
  keep, length, ◌==◌, if◌then◌else◌, Result, ok, err, guard,
}
use la_muni_rag.Base.Text.{Text, text_eq, between, lower}
use la_muni_rag.Base.Uuid.{fits, plain_uuid}
use la_muni_rag.Security.Rbac.{AuthenticatedPrincipal, SecurityError, access_denied}

unfoldable pub is_canonical_uuid : Text → Bool
unfolding fits plain_uuid
is_canonical_uuid value = fits plain_uuid value

-- `value.replaceAll("-", "")`.
unfoldable pub strip_dashes : Text → Text
strip_dashes value = keep (λ c. not (c == b'-')) value

-- One lower-case hexadecimal digit.
unfoldable pub nibble : ℕ → ℕ
nibble c = if between b'0' b'9' c then c - b'0' else c - 87

-- `Buffer.from(text, "hex")` on such digits; a last digit without a partner is dropped.
unfoldable pub hex_bytes : Text → List ℕ
hex_bytes [] = []
hex_bytes (a ∷ []) = []
hex_bytes (a ∷ b ∷ s) = (16 * nibble a + nibble b) ∷ hex_bytes s

unfoldable pub uuid_bytes : Text → List ℕ
unfolding strip_dashes hex_bytes
uuid_bytes value = hex_bytes (map lower (strip_dashes value))

-- `timingSafeEqual` is the comparison of two buffers of one length.
unfoldable pub tenant_ids_equal : Text → Text → Bool
tenant_ids_equal actual expected =
    if not (is_canonical_uuid actual && is_canonical_uuid expected)
    then false
    else length (uuid_bytes actual) == length (uuid_bytes expected)
      && text_eq (uuid_bytes actual) (uuid_bytes expected)

unfoldable pub require_tenant_match :
    AuthenticatedPrincipal → Text → Result SecurityError (Unit {0})
require_tenant_match principal requested_tenant_id =
    guard (tenant_ids_equal principal.tenant_id requested_tenant_id) access_denied

-- What the transaction asks of the client, in the order in which it asks. `operation` stands for
-- everything that the caller's callback does with the client.
pub data Call : Type 0 where
  connect : Call
  begin : Call
  set_tenant : Text → Call
  operation : Call
  commit : Call
  rollback : Call

-- What `release` is given: nothing, or the error of a failed rollback, which destroys the connection.
pub data Release (E : Type 0) : Type 0 where
  to_pool : Release E
  destroyed : E → Release E
  destroyed_failed : Release E

-- A finished transaction: the calls that were made, how the connection was released, and what the
-- promise settles to.
pub record Finished (E T : Type 0) : Type 0 where
  pub calls : List Call
  pub released : Release E
  pub outcome : Result E T

-- `throws c` is the error with which call `c` rejects, if it does; `operate` is what the callback
-- gives. A call is made at most once, so its answer is a function of the call. `is_error` tells
-- which values that are thrown are instances of `Error`.
module _ {E T : Type 0} (throws : Call → Option E) (operate : Result E T)
    (is_error : E → Bool) where
  -- The `catch` and `finally` blocks.
  unfoldable pub roll_back : List Call → E → Finished E T
  roll_back made error = elim (throws rollback) [
    | none ↦ record { calls = made ++ rollback ∷ []; released = to_pool; outcome = err error }
    | some e ↦ record {
      calls = made ++ rollback ∷ [];
      released = if is_error e then destroyed e else destroyed_failed;
      outcome = err error;
    }
  ]

  unfoldable pub commit_work : List Call → T → Finished E T
  commit_work made result = elim (throws commit) [
    | some e ↦ roll_back (made ++ commit ∷ []) e
    | none ↦ record { calls = made ++ commit ∷ []; released = to_pool; outcome = ok result }
  ]

  unfoldable pub run_operation : List Call → Finished E T
  run_operation made = elim operate [
    | err e ↦ roll_back (made ++ operation ∷ []) e
    | ok result ↦ commit_work (made ++ operation ∷ []) result
  ]

  unfoldable pub in_tenant : Text → List Call → Finished E T
  in_tenant tenant_id made = elim (throws (set_tenant (map lower tenant_id))) [
    | some e ↦ roll_back (made ++ set_tenant (map lower tenant_id) ∷ []) e
    | none ↦ run_operation (made ++ set_tenant (map lower tenant_id) ∷ [])
  ]

  unfoldable pub transaction : Text → Finished E T
  transaction tenant_id = elim (throws begin) [
    | some e ↦ roll_back (begin ∷ []) e
    | none ↦ in_tenant tenant_id (begin ∷ [])
  ]

  -- The error stands for a promise that rejects before there is a connection to release: `invalid`
  -- is the source's own error.
  unfoldable pub with_tenant_transaction : E → Text → Result E (Finished E T)
  with_tenant_transaction invalid tenant_id =
      if not (is_canonical_uuid tenant_id)
      then err invalid
      else elim (throws connect) [ some e ↦ err e | none ↦ ok (transaction tenant_id) ]
