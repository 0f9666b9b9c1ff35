-- ===== src/Auth/Tests.antt =====
-- infrastructure/auth/jwt_auth.py: a token that is its payload, and a hash that is a sum.
use vision_virtual_intellige.Prelude.{
  ℕ, ◌≤◌, ◌≡◌, String, true, ◌↔◌, [], ◌∷◌, arith, leb, if◌then◌else◌, contains,
}
use vision_virtual_intellige.Auth.{
  Settings, TokenPayload, Decoded, Response, payload_of, create_token_pair, get_current_user_id,
  get_current_user_role, require_role,
}
use vision_virtual_intellige.Auth.Guarded.{
  require_role_lem, create_token_pair-guards, get_current_user_role-refresh,
}

abbrev settings : Settings
settings = record {
  jwt_secret = "key";
  jwt_algorithm = "HS256";
  jwt_access_token_ttl = 3600;
  jwt_refresh_token_ttl = 604800;
}

abbrev encode : TokenPayload → String → String → TokenPayload
encode payload secret algorithm = payload

abbrev decode : ℕ → TokenPayload → String → String → Decoded
decode now token secret algorithm =
    if leb now token.exp then Decoded.claims token else Decoded.jwt_error

decode-encode :
    (now : ℕ) (p : TokenPayload)
    → now ≤ p.exp
    → decode now (encode p "key" "HS256") "key" "HS256" ≡ Decoded.claims p
decode-encode now p live = ground arith

abbrev token : TokenPayload
token = payload_of "access" 10 3600 "u1" "admin"

require_role_lem_example :
    (require_role decode settings ("admin" ∷ []) 20 token ≡ Response.returned "u1") ↔ (
      (p : TokenPayload) × (decode 20 token "key" "HS256" ≡ Decoded.claims p)
      × (p.type ≡ "access")
      × (contains p.role ("admin" ∷ []) ≡ true)
      × (p.sub ≡ "u1"))
require_role_lem_example = require_role_lem decode settings ("admin" ∷ []) 20 token "u1"

create_token_pair-guards_example :
    let pair = create_token_pair encode settings 10 11 "u1" "developer" in
    (get_current_user_id decode settings 20 pair.access_token ≡ Response.returned "u1")
    × (require_role decode settings ("admin" ∷ []) 20 pair.access_token
        ≡ Response.http_exception 403)
    × (get_current_user_id decode settings 20 pair.refresh_token ≡ Response.http_exception 401)
    × (require_role decode settings ("admin" ∷ []) 20 pair.refresh_token
        ≡ Response.http_exception 401)
create_token_pair-guards_example =
    create_token_pair-guards encode decode settings decode-encode 10 11 20 "u1" "developer"
      ("admin" ∷ []) (omega arith) (omega arith)

get_current_user_role-refresh_example :
    get_current_user_role decode settings 20
      (create_token_pair encode settings 10 11 "u1" "developer").refresh_token
    ≡ Response.returned "developer"
get_current_user_role-refresh_example =
    get_current_user_role-refresh encode decode settings decode-encode 10 11 20 "u1" "developer"
      (omega arith)
