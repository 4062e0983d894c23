-- ===== src/Requests.antt =====
-- Transport requests and their retention: TransportRequest, `_validate_request`,
-- `request_fingerprint` and RetentionRegistry of
-- src/butterbot/application/operations/idempotency.py.
use butterbot.Base.{
  ℤ, pos, String, Option, none, some, Bool, not, ◌&&◌, List, find?, str_eq, leb, length, any, map,
  ◌==◌, if◌then◌else◌,
}
use butterbot.Exact.{require_int64, checked_add_int64}
use butterbot.Json.{Json, object, field, no_field, text}
use butterbot.Names.{codes, is_stable_name, is_namespaced_name, is_permanent_reference}
use butterbot.Result.{Result, ok, err, invalid_request, unregistered_namespace, ◌>>=◌, ◌>>◌}
use butterbot.Session.{Environment}

pub record TransportRequest : Type 0 where
  pub namespace : String
  pub transport_key : String
  pub actor_kind : String
  pub actor_reference : String
  pub semantic_input : Json

-- 7 * 24 * 60 * 60 * 1000
abbrev pub discord_retention_ms : ℤ
discord_retention_ms = pos 604800000

-- `RetentionRegistry.periods_ms`
abbrev pub Registry : Type 0
Registry = List (String × ℤ)

abbrev pub discord_retention_registry : List String → Registry
discord_retention_registry = map (λ namespace. (namespace, discord_retention_ms))

abbrev registered : Option (String × ℤ) → Result ℤ
registered none = err unregistered_namespace
registered (some (_, period_ms)) = ok period_ms

unfoldable pub retain_until_ms : Registry → String → ℤ → Result ℤ
retain_until_ms periods namespace completed_at_ms = do
  require_int64 (pos 0) completed_at_ms
  period_ms ← registered (find? (λ (p : String × ℤ). str_eq p.0 namespace) periods)
  require_int64 (pos 1) period_ms
  checked_add_int64 completed_at_ms period_ms

abbrev pub check : Bool → Result (Unit {0})
check passed = if passed then ok tt else err invalid_request

unfoldable pub validate_request : TransportRequest → Result (Unit {0})
validate_request request =
    let namespace = codes request.namespace in
    let key = codes request.transport_key in
    let kind = codes request.actor_kind in
    do
      check (leb (length namespace) 100 && is_namespaced_name namespace)
      check (leb 1 (length key) && leb (length key) 255)
      check (not (any (λ c. c == 0) key))
      check ((leb 1 (length kind) && leb (length kind) 32) && is_stable_name kind)
      check (is_permanent_reference request.actor_reference 255)

-- What the digest is taken of; the keys stand in sorted order.
abbrev pub canonical_request : TransportRequest → Json
canonical_request request = object (
    field "actor"
      (object (
        field "kind" (text request.actor_kind)
          (field "reference" (text request.actor_reference) no_field)))
      (field "semantic_input" request.semantic_input no_field))

unfoldable pub request_fingerprint : Environment → TransportRequest → Result String
request_fingerprint env request = do
  validate_request request
  ok (env.sha256 (canonical_request request))
