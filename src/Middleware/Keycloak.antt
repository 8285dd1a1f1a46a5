-- ===== src/Middleware/Keycloak.antt =====
-- keycloak.go: the exchange of a refresh token, the claims of the access token, and roles.
use share_trip.Base.{
  ℕ, String, ◌<>◌, Bool, true, false, not, Option, none, some, List, [], ◌∷◌, ◌==◌, str_eq,
  if◌then◌else◌,
}
use share_trip.Base.Text.{is_empty, trim_right_char, split, itoa}
use share_trip.GoError.{message, fiber_error}
use share_trip.Result.{Result, ok, err}
use share_trip.World.{Action, next}

pub record KeycloakConfig : Type 0 where
  pub issuer : String
  pub client_id : String
  pub client_secret : String

pub record KeycloakClaims : Type 0 where
  pub subject : String
  pub preferred_username : String
  pub email : String
  pub authorized_party : String
  pub resource_access : List (String × List String)

pub record TokenRequest : Type 0 where
  pub endpoint : String
  pub form : List (String × String)

-- The status of the token endpoint, and the decoded `access_token` of its body.
pub record TokenReply : Type 0 where
  pub status_code : ℕ
  pub access_token : Result String

-- What lies outside: Keycloak over HTTP, base64 and JSON.
pub record Keycloak : Type 0 where
  pub exchange : ℕ → TokenRequest → Result TokenReply
  pub decode_base64 : String → Result String
  pub decode_claims : String → Result KeycloakClaims

unfoldable pub token_request : KeycloakConfig → String → TokenRequest
token_request cfg refresh_token = record {
  endpoint = trim_right_char b'/' cfg.issuer <> "/protocol/openid-connect/token";
  form =
      ("grant_type", "refresh_token")
      ∷ ("client_id", cfg.client_id)
      ∷ ("refresh_token", refresh_token)
      ∷ (if is_empty cfg.client_secret then [] else (("client_secret", cfg.client_secret) ∷ []));
}

abbrev check_token : Result String → Result String
check_token (err e) = err e
check_token (ok token) =
    if is_empty token
    then err (message "keycloak response does not contain access_token")
    else ok token

unfoldable pub read_token : Result TokenReply → Result String
read_token (err e) = err e
read_token (ok reply) =
    if reply.status_code == 200
    then check_token reply.access_token
    else err (message ("keycloak token endpoint returned status " <> itoa reply.status_code))

-- The access token of `refreshAccessToken`.
unfoldable pub refresh_access_token : Keycloak → KeycloakConfig → String → Action String
unfolding token_request read_token
refresh_access_token k cfg refresh_token w =
    if is_empty cfg.issuer
    then (err (message "keycloak issuer is required"), w)
    else if is_empty cfg.client_id
    then (err (message "keycloak client id is required"), w)
    else (read_token (k.exchange w.tick (token_request cfg refresh_token)), next w)

abbrev check_subject : Result KeycloakClaims → Result KeycloakClaims
check_subject (err e) = err e
check_subject (ok claims) =
    if is_empty claims.subject then err (message "jwt does not contain sub claim") else ok claims

abbrev parse_payload : Keycloak → Result String → Result KeycloakClaims
parse_payload k (err e) = err e
parse_payload k (ok payload) = check_subject (k.decode_claims payload)

abbrev pub parse_parts : Keycloak → List String → Result KeycloakClaims
parse_parts k (header ∷ payload ∷ signature ∷ []) = parse_payload k (k.decode_base64 payload)
parse_parts k _ = err (message "jwt must contain three parts")

unfoldable pub parse_access_token_claims : Keycloak → String → Result KeycloakClaims
parse_access_token_claims k access_token = parse_parts k (split b'.' access_token)

-- The map `resource_access`, by its first entry for a key.
unfoldable pub client_roles : String → List (String × List String) → Option (List String)
client_roles client [] = none
client_roles client ((c, roles) ∷ rest) =
    if str_eq c client then some roles else client_roles client rest

unfoldable pub has_role : String → List String → Bool
has_role role [] = false
has_role role (current ∷ roles) = if str_eq current role then true else has_role role roles

unfoldable pub has_client_role : KeycloakClaims → String → String → Bool
unfolding client_roles has_role
has_client_role claims client role = elim (client_roles client claims.resource_access) [
  | none ↦ false
  | some roles ↦ has_role role roles
]

-- `ClaimsFromContext`, on the value that the request's locals hold.
unfoldable pub claims_from_context : Option KeycloakClaims → Result KeycloakClaims
claims_from_context none = err (fiber_error 401 "missing token claims")
claims_from_context (some claims) = ok claims

-- `RequireClientRole` before it calls the next handler.
unfoldable pub require_client_role : String → String → Option KeycloakClaims → Result (Unit {0})
unfolding claims_from_context has_client_role
require_client_role client role locals = elim (claims_from_context locals) [
  | err e ↦ err e
  | ok claims ↦
      if not (has_client_role claims client role)
      then err (fiber_error 403 "access denied")
      else ok tt
]

-- `KeycloakRefreshTokenMiddleware` before it calls the next handler: the claims for the locals.
unfoldable pub authenticate : Keycloak → KeycloakConfig → String → Action KeycloakClaims
unfolding refresh_access_token parse_access_token_claims
authenticate k cfg refresh_token w =
    if is_empty refresh_token
    then (err (fiber_error 401 "missing refresh token"), w)
    else let (r, w') = refresh_access_token k cfg refresh_token w in
      elim r [
        | err e ↦ (err (fiber_error 401 "invalid refresh token"), w')
        | ok token ↦ elim (parse_access_token_claims k token) [
          | err e ↦ (err (fiber_error 401 "invalid access token"), w')
          | ok claims ↦ (ok claims, w')
        ]
      ]
