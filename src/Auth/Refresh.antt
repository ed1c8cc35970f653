-- ===== src/Auth/Refresh.antt =====
-- Refresh tokens (internal/codexauth/store.go): the table codex_refresh_tokens, InsertRefreshToken and
-- RotateRefreshToken. A table is its list of rows, a transaction is one step, NOW() is an argument in
-- seconds, and the primary key of the table refuses a second row of one hash. `hash` stands for
-- HashToken, whose SHA-256 is the standard library's. A lost connection is not modelled.
pub mod Family
use cli_server.Common.{
  ℕ, ◌+◌, String, Bool, true, false, not, ◌&&◌, Option, none, some, List, [], ◌∷◌, ◌++◌, Result, ok,
  err, if◌then◌else◌, ltb, ◌==◌, string_eq, nat_eq,
}

pub record RefreshToken : Type 0 where
  pub token_hash : String
  pub family_id : String
  pub user_id : String
  pub expires_at : ℕ
  pub revoked_at : Option ℕ

pub data TokenError : Type 0 where
  duplicate_key : TokenError
  refresh_token_reuse : TokenError

-- revoked_at IS NULL
abbrev pub is_null {ℓ} : {A : Type ℓ} → Option A → Bool
is_null none = true
is_null (some a) = false

-- The row of a token hash, by the primary key.
unfoldable pub find_token : String → List RefreshToken → Option RefreshToken
find_token h [] = none
find_token h (t ∷ ts) = if t.token_hash == h then some t else find_token h ts

unfoldable pub insert_refresh_token :
    String → String → String → ℕ → List RefreshToken → Result TokenError (List RefreshToken)
unfolding find_token
insert_refresh_token h family user exp ts =
    if is_null (find_token h ts)
    then ok (
        record {
          token_hash = h;
          family_id = family;
          user_id = user;
          expires_at = exp;
          revoked_at = none;
        }
        ∷ ts)
    else err duplicate_key

-- WHERE token_hash = $1 AND revoked_at IS NULL AND expires_at > NOW()
abbrev pub is_usable : ℕ → RefreshToken → Bool
is_usable now t = is_null t.revoked_at && ltb now t.expires_at

-- The first UPDATE of RotateRefreshToken.
unfoldable pub revoke_token : ℕ → String → List RefreshToken → List RefreshToken
revoke_token now h [] = []
revoke_token now h (t ∷ ts) =
    let rest = revoke_token now h ts in
    if t.token_hash == h && is_usable now t
    then record t { revoked_at = some now } ∷ rest
    else t ∷ rest

-- The second UPDATE, of every sibling.
unfoldable pub revoke_family : ℕ → String → List RefreshToken → List RefreshToken
revoke_family now family [] = []
revoke_family now family (t ∷ ts) =
    let rest = revoke_family now family ts in
    if t.family_id == family && is_null t.revoked_at
    then record t { revoked_at = some now } ∷ rest
    else t ∷ rest

-- What is left of a transaction: the table, and what the caller is told.
pub record Rotation : Type 0 where
  pub tokens : List RefreshToken
  pub user : Result TokenError String

-- The INSERT after the old token is revoked: a refused one rolls the transaction back.
abbrev pub commit : List RefreshToken → String → Result TokenError (List RefreshToken) → Rotation
commit ts user (ok ts') = record { tokens = ts'; user = ok user }
commit ts user (err e) = record { tokens = ts; user = err e }

-- RotateRefreshToken of a hash, by the row that the hash has.
unfoldable pub rotate_row :
    ℕ → String → String → ℕ → List RefreshToken → Option RefreshToken → Rotation
unfolding revoke_token revoke_family insert_refresh_token
rotate_row now old new exp ts none = record { tokens = ts; user = err refresh_token_reuse }
rotate_row now old new exp ts (some t) =
    if is_usable now t
    then commit ts t.user_id
        (insert_refresh_token new t.family_id t.user_id exp (revoke_token now old ts))
    else record { tokens = revoke_family now t.family_id ts; user = err refresh_token_reuse }

unfoldable pub rotate_refresh_token :
    (String → String) → ℕ → String → String → ℕ → List RefreshToken → Rotation
unfolding rotate_row find_token
rotate_refresh_token hash now old_raw new_hash new_expiry ts =
    rotate_row now (hash old_raw) new_hash new_expiry ts (find_token (hash old_raw) ts)
