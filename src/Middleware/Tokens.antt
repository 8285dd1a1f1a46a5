-- ===== src/Middleware/Tokens.antt =====
-- Which refresh tokens are accepted, and whose claims a request then has.
use share_trip.Base.{ℕ, String, false, ◌≡◌, refl, inl, inr, List, [], ◌∷◌, arith}
use share_trip.Base.Text.{is_empty, split}
use share_trip.Result.{ok, Result-cases}
use share_trip.World.{World}
use share_trip.Middleware.Keycloak.{
  Keycloak, KeycloakConfig, KeycloakClaims, token_request, read_token, refresh_access_token,
  parse_parts, parse_access_token_claims, authenticate,
}

-- Keycloak has answered the token's exchange with an access token of three parts, whose second
-- part has the claims of a subject.
pub record IsAccepted (k : Keycloak) (cfg : KeycloakConfig) (token : String) (tick : ℕ)
    (claims : KeycloakClaims) : Type 0 where
  pub access_token : String
  pub header : String
  pub payload : String
  pub signature : String
  pub decoded : String
  pub exchanged :
      k.exchange tick (token_request cfg token)
      ≡ ok (record { status_code = 200; access_token = ok access_token })
  pub three_parts : split b'.' access_token ≡ header ∷ payload ∷ signature ∷ []
  pub base64 : k.decode_base64 payload ≡ ok decoded
  pub json : k.decode_claims decoded ≡ ok claims
  pub has_subject : is_empty claims.subject ≡ false

refresh-eq-ok :
    (k : Keycloak) (cfg : KeycloakConfig) (token : String) (w : World) {access : String}
    → (refresh_access_token k cfg token w).0 ≡ ok access
    → k.exchange w.tick (token_request cfg token)
      ≡ ok (record { status_code = 200; access_token = ok access })
unfolding refresh_access_token read_token
refresh-eq-ok k cfg token w h = elim (Result-cases (k.exchange w.tick (token_request cfg token))) [
  | inr (x, e) ↦ absurd (ground arith)
  | inl (reply, e) ↦ elim (Result-cases reply.access_token) [
    | inr (x, f) ↦ absurd (ground arith)
    | inl (text, f) ↦ ground arith
  ]
]

parse_parts-eq-ok :
    (k : Keycloak) (parts : List String) {claims : KeycloakClaims}
    → parse_parts k parts ≡ ok claims
    → (header payload signature decoded : String) × (parts ≡ header ∷ payload ∷ signature ∷ [])
      × (k.decode_base64 payload ≡ ok decoded)
      × (k.decode_claims decoded ≡ ok claims)
      × (is_empty claims.subject ≡ false)
parse_parts-eq-ok k [] h = absurd (ground arith)
parse_parts-eq-ok k (a ∷ []) h = absurd (ground arith)
parse_parts-eq-ok k (a ∷ b ∷ []) h = absurd (ground arith)
parse_parts-eq-ok k (a ∷ b ∷ c ∷ d ∷ rest) h = absurd (ground arith)
parse_parts-eq-ok k (header ∷ payload ∷ signature ∷ []) h =
    elim (Result-cases (k.decode_base64 payload)) [
      | inr (x, e) ↦ absurd (ground arith)
      | inl (decoded, e) ↦ elim (Result-cases (k.decode_claims decoded)) [
        | inr (x, f) ↦ absurd (ground arith)
        | inl (found, f) ↦
            (header, payload, signature, decoded, refl, e, ground arith, ground arith)
      ]
    ]

-- A request that is let through has a refresh token that Keycloak has exchanged, and the claims of
-- the access token that came back, with a subject.
pub authenticate-eq-ok :
    (k : Keycloak) (cfg : KeycloakConfig) (token : String) (w : World) {claims : KeycloakClaims}
    → (authenticate k cfg token w).0 ≡ ok claims
    → IsAccepted k cfg token w.tick claims
unfolding authenticate parse_access_token_claims
authenticate-eq-ok k cfg token w {claims} h =
    elim (Result-cases (refresh_access_token k cfg token w).0) [
      | inr (x, e) ↦ absurd (ground arith)
      | inl (access, e) ↦
          let parsed : parse_parts k (split b'.' access) ≡ ok claims = ground arith in
          let (header, payload, signature, decoded, parts, b, j, s) =
            parse_parts-eq-ok k (split b'.' access) {claims = claims} parsed in
          record {
            access_token = access;
            header = header;
            payload = payload;
            signature = signature;
            decoded = decoded;
            exchanged = refresh-eq-ok k cfg token w e;
            three_parts = parts;
            base64 = b;
            json = j;
            has_subject = s;
          }
    ]
