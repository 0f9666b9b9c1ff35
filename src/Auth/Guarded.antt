-- ===== src/Auth/Guarded.antt =====
-- infrastructure/auth/jwt_auth.py: whom a guarded route lets in.
use vision_virtual_intellige.Prelude.{
  ℕ, ◌+◌, ◌≤◌, ◌≡◌, refl, ap, ◌∙◌, String, ◌==◌, eq_iff, Bool, true, false, ◌↔◌, inl, inr, Option,
  or_default, some, List, arith, if◌then◌else◌, contains, Bool-cases,
}
use vision_virtual_intellige.Auth.{
  Settings, TokenPayload, Decoded, Response, truncated, hash_password, verify_password, ◌>>=◌,
  payload_of, payload_from, check_role, create_access_token, create_refresh_token,
  create_token_pair, decode_token, get_current_user_id, get_current_user_role, require_role,
}

-- Suppose that the password library accepts a password against its own hash. Then a stored password
-- is accepted again, and so is any password with the same bytes up to the 72nd.
pub verify_password-hash_password :
    {H : Type 0} (utf8 : String → List ℕ) (hashpw : List ℕ → String → H)
    (checkpw : List ℕ → H → Option Bool)
    (checkpw-hashpw : (bytes : List ℕ) (salt : String)
      → checkpw bytes (hashpw bytes salt) ≡ some true)
    (salt plain other : String)
    → truncated (utf8 other) ≡ truncated (utf8 plain)
    → verify_password utf8 checkpw other (hash_password utf8 hashpw salt plain) ≡ true
unfolding verify_password hash_password
verify_password-hash_password utf8 hashpw checkpw checkpw-hashpw salt plain other same =
    ap (λ bytes. or_default (checkpw bytes (hashpw (truncated (utf8 plain)) salt)) false) same
    ∙ ap (λ found. or_default found false) (checkpw-hashpw (truncated (utf8 plain)) salt)

-- Of a decoded token.
check_role-returned :
    (allowed : List String) (user : String) (decoded : Decoded)
    → (payload_from decoded >>= check_role allowed ≡ Response.returned user) ↔ (
        (p : TokenPayload) × (decoded ≡ Decoded.claims p)
        × (p.type ≡ "access")
        × (contains p.role allowed ≡ true)
        × (p.sub ≡ user))
check_role-returned allowed user Decoded.jwt_error = (λ h. cc, λ (p, e, access, allow, same). cc)
check_role-returned allowed user Decoded.other_claims = (λ h. cc, λ (p, e, access, allow, same). cc)
check_role-returned allowed user (Decoded.claims payload) = (
  λ h. elim (Bool-cases (payload.type == "access")) [
    | inr other ↦ ground (arith, h, other)
    | inl access ↦ elim (Bool-cases (contains payload.role allowed)) [
      | inr deny ↦ ground (arith, h, access, deny)
      | inl allow ↦ (
        payload,
        refl,
        ground (arith, eq_iff payload.type "access"),
        allow,
        ground (arith, h, access, allow),
      )
    ]
  ],
  λ (p, e, access, allow, same).
      let this : payload ≡ p = cc in
      ap (λ q. check_role allowed q) this ∙ ground (arith, eq_iff p.type "access"),
)

module _ {K : Type 0} (decode : ℕ → K → String → String → Decoded) (settings : Settings) where
  -- `RequireRole` returns a user exactly when the token decodes, is an access token, has one of the
  -- allowed roles, and is that user's.
  pub require_role_lem :
      (allowed : List String) (now : ℕ) (token : K) (user : String)
      → (require_role decode settings allowed now token ≡ Response.returned user) ↔ (
          (p : TokenPayload) × (decode now token settings.jwt_secret settings.jwt_algorithm
            ≡ Decoded.claims p)
          × (p.type ≡ "access")
          × (contains p.role allowed ≡ true)
          × (p.sub ≡ user))
  unfolding require_role decode_token
  require_role_lem allowed now token user =
      check_role-returned allowed user (decode now token settings.jwt_secret settings.jwt_algorithm)

module _ {K : Type 0} (encode : TokenPayload → String → String → K)
    (decode : ℕ → K → String → String → Decoded) (settings : Settings)
    (decode-encode : (now : ℕ) (p : TokenPayload)
      → now ≤ p.exp
      → decode now
          (encode p settings.jwt_secret settings.jwt_algorithm)
          settings.jwt_secret
          settings.jwt_algorithm
        ≡ Decoded.claims p) where
  -- Suppose that the token library decodes what it encoded until the token's expiry. Until then the
  -- access token of a pair stands for its user and passes a guard exactly when the role is allowed,
  -- and the refresh token is refused with the status 401 by either.
  pub create_token_pair-guards :
      (now later seen : ℕ) (user role : String) (allowed : List String)
      → seen ≤ now + settings.jwt_access_token_ttl
      → seen ≤ later + settings.jwt_refresh_token_ttl
      → let pair = create_token_pair encode settings now later user role in
        (get_current_user_id decode settings seen pair.access_token ≡ Response.returned user)
        × (require_role decode settings allowed seen pair.access_token ≡ (
            if contains role allowed then Response.returned user else Response.http_exception 403))
        × (get_current_user_id decode settings seen pair.refresh_token
            ≡ Response.http_exception 401)
        × (require_role decode settings allowed seen pair.refresh_token
            ≡ Response.http_exception 401)
  unfolding create_token_pair create_access_token create_refresh_token get_current_user_id
      require_role decode_token
  create_token_pair-guards now later seen user role allowed live live' =
      let access =
        decode-encode seen (payload_of "access" now settings.jwt_access_token_ttl user role) live in
      let refresh =
        decode-encode seen (payload_of "refresh" later settings.jwt_refresh_token_ttl user role)
          live' in
      (
        rw access refl,
        rw access (elim (Bool-cases (contains role allowed)) [
          | inl allow ↦ rw allow refl
          | inr deny ↦ rw deny refl
        ]),
        rw refresh refl,
        rw refresh refl,
      )

  -- Under the same assumption, `get_current_user_role` gives the role for a refresh token too.
  pub get_current_user_role-refresh :
      (now later seen : ℕ) (user role : String)
      → seen ≤ later + settings.jwt_refresh_token_ttl
      → let pair = create_token_pair encode settings now later user role in
        get_current_user_role decode settings seen pair.refresh_token ≡ Response.returned role
  unfolding create_token_pair create_refresh_token get_current_user_role decode_token
  get_current_user_role-refresh now later seen user role live' =
      let refresh =
        decode-encode seen (payload_of "refresh" later settings.jwt_refresh_token_ttl user role)
          live' in
      rw refresh refl
