-- ===== src/Auth/Jwt.antt =====
-- infrastructure/auth/jwt_auth.py. The token library is `encode` and `decode`, the password library
-- `hashpw` and `checkpw`, and `utf8` the bytes of a text; a token is of a type K, a hash of a type H,
-- and times are seconds. An exception is a
-- constructor of Response.
use vision_virtual_intellige.Prelude.{
  ℕ, zero, suc, ◌+◌, String, ◌==◌, Bool, false, not, Option, List, [], ◌∷◌, or_default,
  if◌then◌else◌, length, contains, ltb,
}

-- The settings that the module reads.
pub record Settings : Type 0 where
  pub jwt_secret : String
  pub jwt_algorithm : String
  pub jwt_access_token_ttl : ℕ
  pub jwt_refresh_token_ttl : ℕ

pub record TokenPayload : Type 0 where
  pub sub : String
  pub role : String
  pub type : String
  pub exp : ℕ
  pub iat : ℕ

pub record TokenPair (K : Type 0) : Type 0 where
  pub access_token : K
  pub refresh_token : K
  pub token_type : String
  pub expires_in : ℕ

-- What the token library makes of a token: a JWTError, claims that are no TokenPayload, or claims.
pub data Decoded : Type 0 where
  jwt_error : Decoded
  other_claims : Decoded
  claims : TokenPayload → Decoded

-- A result, an HTTPException with its status, or the error of a payload that has not its fields.
pub data Response (A : Type 0) : Type 0 where
  returned : A → Response A
  http_exception : ℕ → Response A
  validation_error : Response A

infixl 5 ◌>>=◌
abbrev pub ◌>>=◌ : {A B : Type 0} → Response A → (A → Response B) → Response B
Response.returned a >>= f = f a
Response.http_exception status >>= f = Response.http_exception status
Response.validation_error >>= f = Response.validation_error

-- `pw_bytes[:n]`
abbrev pub first_bytes : ℕ → List ℕ → List ℕ
first_bytes zero bytes = []
first_bytes (suc n) [] = []
first_bytes (suc n) (b ∷ bytes) = b ∷ first_bytes n bytes

-- `if len(pw_bytes) > 72: pw_bytes = pw_bytes[:72]`
abbrev pub truncated : List ℕ → List ℕ
truncated bytes = if ltb 72 (length bytes) then first_bytes 72 bytes else bytes

unfoldable pub hash_password :
    {H : Type 0} → (String → List ℕ) → (List ℕ → String → H) → String → String → H
hash_password utf8 hashpw salt plain = hashpw (truncated (utf8 plain)) salt

-- `checkpw` is none where it raises.
unfoldable pub verify_password :
    {H : Type 0} → (String → List ℕ) → (List ℕ → H → Option Bool) → String → H → Bool
verify_password utf8 checkpw plain hashed =
    or_default (checkpw (truncated (utf8 plain)) hashed) false

abbrev pub payload_of : String → ℕ → ℕ → String → String → TokenPayload
payload_of type now ttl user_id role = record {
  sub = user_id;
  role = role;
  type = type;
  exp = now + ttl;
  iat = now;
}

module _ {K : Type 0} (encode : TokenPayload → String → String → K) (settings : Settings) where
  unfoldable pub create_access_token : ℕ → String → String → K
  create_access_token now user_id role =
      encode (payload_of "access" now settings.jwt_access_token_ttl user_id role)
        settings.jwt_secret settings.jwt_algorithm

  unfoldable pub create_refresh_token : ℕ → String → String → K
  create_refresh_token now user_id role =
      encode (payload_of "refresh" now settings.jwt_refresh_token_ttl user_id role)
        settings.jwt_secret settings.jwt_algorithm

  -- The two calls read the clock one after the other.
  unfoldable pub create_token_pair : ℕ → ℕ → String → String → TokenPair K
  unfolding create_access_token create_refresh_token
  create_token_pair now later user_id role = record {
    access_token = create_access_token now user_id role;
    refresh_token = create_refresh_token later user_id role;
    token_type = "bearer";
    expires_in = settings.jwt_access_token_ttl;
  }

abbrev pub payload_from : Decoded → Response TokenPayload
payload_from Decoded.jwt_error = Response.http_exception 401
payload_from Decoded.other_claims = Response.validation_error
payload_from (Decoded.claims payload) = Response.returned payload

-- What `RequireRole(*allowed)` does with a payload.
abbrev pub check_role : List String → TokenPayload → Response String
check_role allowed payload =
    if not (payload.type == "access")
    then Response.http_exception 401
    else if not (contains payload.role allowed)
    then Response.http_exception 403
    else Response.returned payload.sub

module _ {K : Type 0} (decode : ℕ → K → String → String → Decoded) (settings : Settings) where
  unfoldable pub decode_token : ℕ → K → Response TokenPayload
  decode_token now token =
      payload_from (decode now token settings.jwt_secret settings.jwt_algorithm)

  unfoldable pub get_current_user_id : ℕ → K → Response String
  unfolding decode_token
  get_current_user_id now credentials = decode_token now credentials >>= λ payload.
      if not (payload.type == "access")
      then Response.http_exception 401
      else Response.returned payload.sub

  unfoldable pub get_current_user_role : ℕ → K → Response String
  unfolding decode_token
  get_current_user_role now credentials =
      decode_token now credentials >>= λ payload. Response.returned payload.role

  -- `RequireRole(*allowed)`, called.
  unfoldable pub require_role : List String → ℕ → K → Response String
  unfolding decode_token
  require_role allowed now credentials = decode_token now credentials >>= check_role allowed
