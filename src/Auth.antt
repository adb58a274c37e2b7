-- ===== src/Auth.antt =====
-- backend/app/auth.py. The environment variable, `str.strip`, and the test for ASCII text that
-- `hmac.compare_digest` makes on its arguments are parameters.
use solprobe.Prelude.{
  ◌≡◌, String, Bool, true, false, ◌&&◌, Option, none, some, if◌then◌else◌, ◌==◌, string_eq,
  option_eq, ◌⊎◌,
}

-- How a request comes out: let in, refused with a status, or ended by the `TypeError` of
-- `compare_digest`.
pub data Access : Type 0 where
  granted unavailable unauthorized crashed : Access

module _ (strip : String → String) (is_ascii : String → Bool) where
  -- `stripped or None`
  abbrev nonblank : String → Option String
  nonblank s = if s == "" then none else some s

  unfoldable pub configured_api_key : Option String → Option String
  configured_api_key none = none
  configured_api_key (some key) = nonblank (strip key)

  -- `none` is the `TypeError`.
  unfoldable pub is_valid_api_key : Option String → Option String → Option Bool
  unfolding configured_api_key
  is_valid_api_key variable provided = elim (configured_api_key variable) [
    | none ↦ some false
    | some expected ↦ elim provided [
      | none ↦ some false
      | some key ↦ if is_ascii key && is_ascii expected then some (key == expected) else none
    ]
  ]

  abbrev answer : Option Bool → Access
  answer none = crashed
  answer (some true) = granted
  answer (some false) = unauthorized

  unfoldable pub require_api_key : Option String → Option String → Access
  unfolding is_valid_api_key
  require_api_key variable provided = elim (configured_api_key variable) [
    | none ↦ unavailable
    | some expected ↦ answer (is_valid_api_key variable provided)
  ]

  -- `query_params.get("api_key") or headers.get(API_KEY_HEADER)`
  abbrev or_header : Option String → Option String → Option String
  or_header none header = header
  or_header (some key) header = if key == "" then header else some key

  -- `unauthorized` is the closing of the socket for a violation of the policy.
  unfoldable pub require_websocket_api_key : Option String → Option String → Option String → Access
  unfolding is_valid_api_key
  require_websocket_api_key variable query header = elim (configured_api_key variable) [
    | none ↦ unauthorized
    | some expected ↦ answer (is_valid_api_key variable (or_header query header))
  ]

  -- What a request gets once a key is configured.
  abbrev pub Decided : String → Option String → Access → Type 0
  Decided key provided access =
      ((access ≡ granted) × (provided ≡ some key) × (is_ascii key ≡ true))
      ⊎ (((access ≡ unauthorized) × (provided == some key ≡ false))
          ⊎ ((access ≡ crashed)
              × (given : String) × (provided ≡ some given)
              × (is_ascii given && is_ascii key ≡ false)))
