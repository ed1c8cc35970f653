-- ===== src/Auth/Tokens.antt =====
-- /oauth/token (internal/codexauth/pkce.go: handleTokenAuthorizationCode, mintTokensFor and
-- handleTokenRefresh) and the access tokens of internal/codexauth/store.go. The JWTs that
-- BuildAccessToken and BuildIDToken sign are arguments, `none` for a failed signature; so are the random
-- refresh token and family. `hash` stands for HashToken (SHA-256), `digest` for SHA-256 in
-- unpadded base64url, and `trim_pad` for strings.TrimRight of "=". A reply is the tokens given out, or the status of an error.
pub mod Access
use cli_server.Common.{
  ℕ, ◌+◌, ◌*◌, String, Bool, true, false, not, ◌&&◌, ◌||◌, Option, none, some, List, [], ◌∷◌,
  Result, ok, err, ◌>>=◌, if◌then◌else◌, ltb, ◌==◌, string_eq, nat_eq,
}
use cli_server.Auth.Refresh.{
  RefreshToken, TokenError, duplicate_key, insert_refresh_token, Rotation, rotate_refresh_token,
  is_null,
}
use cli_server.Auth.Device.{PkceRequest, consume_pkce_request}

pub record AccessToken : Type 0 where
  pub token_hash : String
  pub user_id : String
  pub expires_at : ℕ
  pub revoked_at : Option ℕ

unfoldable pub has_access : String → List AccessToken → Bool
has_access h [] = false
has_access h (t ∷ ts) = t.token_hash == h || has_access h ts

unfoldable pub insert_access_token :
    String → String → ℕ → List AccessToken → Result TokenError (List AccessToken)
unfolding has_access
insert_access_token h user exp ts =
    if has_access h ts
    then err duplicate_key
    else ok (record { token_hash = h; user_id = user; expires_at = exp; revoked_at = none } ∷ ts)

-- The row of LookupAccessToken's query: its user, and "" without one.
unfoldable pub find_access : ℕ → String → List AccessToken → String
find_access now h [] = ""
find_access now h (t ∷ ts) =
    if t.token_hash == h && (ltb now t.expires_at && is_null t.revoked_at)
    then t.user_id
    else find_access now h ts

unfoldable pub lookup_access_token : (String → String) → ℕ → String → List AccessToken → String
unfolding find_access
lookup_access_token hash now raw ts = find_access now (hash raw) ts

abbrev pub access_token_ttl : ℕ
access_token_ttl = 3_600

abbrev pub refresh_token_ttl : ℕ
refresh_token_ttl = 365 * (24 * 3_600)

pub record TokenTables : Type 0 where
  pub requests : List PkceRequest
  pub access : List AccessToken
  pub refresh : List RefreshToken

-- What a call of /oauth/token signs and draws.
pub record Mint : Type 0 where
  pub access_jwt : Option String
  pub id_jwt : Option String
  pub refresh_token : String
  pub family_id : String

pub record TokenReply : Type 0 where
  pub access_token : String
  pub id_token : String
  pub refresh_token : String

-- The statements run one after another; the tables of an error reply keep what was written before it.
abbrev pub reply_with :
    TokenTables → String → String → Option String → TokenTables × Result ℕ TokenReply
reply_with db access refresh none = (db, err 500)
reply_with db access refresh (some id) =
    (db, ok (record { access_token = access; id_token = id; refresh_token = refresh }))

abbrev pub after_refresh :
    TokenTables
    → String
    → Mint
    → Result TokenError (List RefreshToken)
    → TokenTables × Result ℕ TokenReply
after_refresh db access m (err e) = (db, err 500)
after_refresh db access m (ok rs) =
    reply_with (record db { refresh = rs }) access m.refresh_token m.id_jwt

abbrev pub after_access :
    (String → String)
    → ℕ
    → String
    → TokenTables
    → String
    → Mint
    → Result TokenError (List AccessToken)
    → TokenTables × Result ℕ TokenReply
after_access hash now user db access m (err e) = (db, err 500)
after_access hash now user db access m (ok ts) =
    after_refresh (record db { access = ts }) access m
      (insert_refresh_token (hash m.refresh_token) m.family_id user (now + refresh_token_ttl)
        db.refresh)

abbrev pub mint_with :
    (String → String)
    → ℕ
    → String
    → TokenTables
    → Mint
    → Option String
    → TokenTables × Result ℕ TokenReply
mint_with hash now user db m none = (db, err 500)
mint_with hash now user db m (some access) =
    after_access hash now user db access m
      (insert_access_token (hash access) user (now + access_token_ttl) db.access)

unfoldable pub mint_tokens_for :
    (String → String) → ℕ → String → Mint → TokenTables → TokenTables × Result ℕ TokenReply
mint_tokens_for hash now user m db = mint_with hash now user db m m.access_jwt

unfoldable pub pkce_verifier_matches :
    (String → String) → (String → String) → String → String → Bool
pkce_verifier_matches digest trim_pad verifier challenge = digest verifier == trim_pad challenge

module _ (hash digest trim_pad : String → String) where
  unfoldable pub redeem :
      ℕ → String → Mint → TokenTables → Option PkceRequest → TokenTables × Result ℕ TokenReply
  unfolding mint_tokens_for pkce_verifier_matches
  redeem now verifier m db none = (db, err 400)
  redeem now verifier m db (some p) =
      if not (pkce_verifier_matches digest trim_pad verifier p.code_challenge)
      then (db, err 400)
      else mint_tokens_for hash now p.user_id m db

  unfoldable pub handle_token_authorization_code :
      ℕ → String → String → Mint → TokenTables → TokenTables × Result ℕ TokenReply
  unfolding redeem consume_pkce_request
  handle_token_authorization_code now code verifier m db =
      if code == "" || verifier == ""
      then (db, err 400)
      else let (ps, found) = consume_pkce_request now code db.requests in
        redeem now verifier m (record db { requests = ps }) found

-- The access token of a refresh: the new refresh token is in the table by then.
abbrev pub refreshed_access :
    TokenTables
    → String
    → Mint
    → Result TokenError (List AccessToken)
    → TokenTables × Result ℕ TokenReply
refreshed_access db access m (err e) = (db, err 500)
refreshed_access db access m (ok ts) =
    reply_with (record db { access = ts }) access m.refresh_token m.id_jwt

abbrev pub refreshed_with :
    (String → String)
    → ℕ
    → String
    → TokenTables
    → Mint
    → Option String
    → TokenTables × Result ℕ TokenReply
refreshed_with hash now user db m none = (db, err 500)
refreshed_with hash now user db m (some access) =
    refreshed_access db access m
      (insert_access_token (hash access) user (now + access_token_ttl) db.access)

abbrev pub refreshed :
    (String → String)
    → ℕ
    → TokenTables
    → Mint
    → Result TokenError String
    → TokenTables × Result ℕ TokenReply
refreshed hash now db m (err e) = (db, err 401)
refreshed hash now db m (ok user) = refreshed_with hash now user db m m.access_jwt

unfoldable pub handle_token_refresh :
    (String → String) → ℕ → String → Mint → TokenTables → TokenTables × Result ℕ TokenReply
unfolding rotate_refresh_token
handle_token_refresh hash now raw m db =
    if raw == ""
    then (db, err 400)
    else let r =
        rotate_refresh_token hash now raw (hash m.refresh_token) (now + refresh_token_ttl)
          db.refresh in
      refreshed hash now (record db { refresh = r.tokens }) m r.user
