-- ===== src/Auth/Tokens/Access.antt =====
-- What the tokens that /oauth/token gives out are good for, and that a code is good once.
use cli_server.Common.{
  ℕ, ◌+◌, ◌≤◌, ◌≡◌, refl, ap, ◌∙◌, inl, inr, String, false, ◌||◌, Option, none, some, List, [], ◌∷◌,
  Result, ok, err, if◌then◌else◌, ltb, ◌==◌, ==_iff, ==_self, string_eq, arith, Bool-cases, nat_eq,
}
use cli_server.Auth.Tokens.{
  AccessToken, has_access, insert_access_token, find_access, lookup_access_token, access_token_ttl,
  refresh_token_ttl, TokenTables, Mint, TokenReply, reply_with, after_refresh, after_access,
  mint_with, mint_tokens_for, redeem, handle_token_authorization_code,
}
use cli_server.Auth.Refresh.{RefreshToken, TokenError, insert_refresh_token}
use cli_server.Auth.Device.{PkceRequest, consume_pkce_request, has_code, insert_pkce_request}

-- How many requests a code has.
unfoldable pub codes_of : String → List PkceRequest → ℕ
codes_of k [] = 0
codes_of k (p ∷ ps) = if p.code == k then 1 + codes_of k ps else codes_of k ps

has_code-codes_of : (k : String) (ps : List PkceRequest) → has_code k ps ≡ false → codes_of k ps ≡ 0
unfolding has_code codes_of
has_code-codes_of k [] h = refl
has_code-codes_of k (p ∷ ps) h = ground (arith, has_code-codes_of k ps)

consume-absent :
    (now : ℕ) (k : String) (ps : List PkceRequest)
    → codes_of k ps ≡ 0
    → (consume_pkce_request now k ps).1 ≡ none
unfolding codes_of consume_pkce_request
consume-absent now k [] h = refl
consume-absent now k (p ∷ ps) h = ground (arith, consume-absent now k ps)

codes_of-consume :
    (now : ℕ) (k : String) (ps : List PkceRequest)
    → codes_of k (consume_pkce_request now k ps).0 ≤ codes_of k ps
unfolding codes_of consume_pkce_request
codes_of-consume now k [] = omega arith
codes_of-consume now k (p ∷ ps) = ground (arith, codes_of-consume now k ps)

consume-removes :
    (now : ℕ) (k : String) (ps : List PkceRequest) (p : PkceRequest)
    → codes_of k ps ≤ 1
    → (consume_pkce_request now k ps).1 ≡ some p
    → codes_of k (consume_pkce_request now k ps).0 ≡ 0
unfolding codes_of consume_pkce_request
consume-removes now k [] p h e = refl
consume-removes now k (q ∷ ps) p h e =
    ground (arith, consume-removes now k ps p, consume-absent now k ps, codes_of-consume now k ps)

-- The tables keep a code at most once: an insertion and a use of a code preserve it.
pub insert-codes_of :
    (p : PkceRequest) (ps ps' : List PkceRequest) (k : String)
    → codes_of k ps ≤ 1
    → insert_pkce_request p ps ≡ ok ps'
    → codes_of k ps' ≤ 1
unfolding insert_pkce_request codes_of
insert-codes_of p ps ps' k h e = ground (arith, has_code-codes_of p.code ps, ==_iff p.code k)

requests-reply_with :
    (db : TokenTables) (access refresh : String) (o : Option String)
    → (reply_with db access refresh o).0.requests ≡ db.requests
requests-reply_with db access refresh none = refl
requests-reply_with db access refresh (some id) = refl

requests-after_refresh :
    (db : TokenTables) (access : String) (m : Mint) (r : Result TokenError (List RefreshToken))
    → (after_refresh db access m r).0.requests ≡ db.requests
requests-after_refresh db access m (err e) = refl
requests-after_refresh db access m (ok rs) =
    requests-reply_with (record db { refresh = rs }) access m.refresh_token m.id_jwt

requests-after_access :
    (hash : String → String) (now : ℕ) (user : String) (db : TokenTables) (access : String)
    (m : Mint) (r : Result TokenError (List AccessToken))
    → (after_access hash now user db access m r).0.requests ≡ db.requests
requests-after_access hash now user db access m (err e) = refl
requests-after_access hash now user db access m (ok ts) =
    requests-after_refresh (record db { access = ts }) access m
      (insert_refresh_token (hash m.refresh_token) m.family_id user (now + refresh_token_ttl)
        db.refresh)

requests-mint_with :
    (hash : String → String) (now : ℕ) (user : String) (db : TokenTables) (m : Mint)
    (o : Option String)
    → (mint_with hash now user db m o).0.requests ≡ db.requests
requests-mint_with hash now user db m none = refl
requests-mint_with hash now user db m (some access) =
    requests-after_access hash now user db access m
      (insert_access_token (hash access) user (now + access_token_ttl) db.access)

requests-redeem :
    (hash digest trim_pad : String → String) (now : ℕ) (verifier : String) (m : Mint)
    (db : TokenTables) (o : Option PkceRequest)
    → (redeem hash digest trim_pad now verifier m db o).0.requests ≡ db.requests
unfolding redeem mint_tokens_for
requests-redeem hash digest trim_pad now verifier m db none = refl
requests-redeem hash digest trim_pad now verifier m db (some p) =
    ground (arith, requests-mint_with hash now p.user_id db m m.access_jwt)

requests-handle :
    (hash digest trim_pad : String → String) (now : ℕ) (code verifier : String) (m : Mint)
    (db : TokenTables)
    → (code == "") ≡ false
    → (verifier == "") ≡ false
    → (handle_token_authorization_code hash digest trim_pad now code verifier m db).0.requests
      ≡ (consume_pkce_request now code db.requests).0
unfolding handle_token_authorization_code
requests-handle hash digest trim_pad now code verifier m db c v =
    rw (c, v)
      (requests-redeem hash digest trim_pad now verifier m
        (record db { requests = (consume_pkce_request now code db.requests).0 })
        (consume_pkce_request now code db.requests).1)

handle-absent :
    (hash digest trim_pad : String → String) (now : ℕ) (code verifier : String) (m : Mint)
    (db : TokenTables)
    → codes_of code db.requests ≡ 0
    → (handle_token_authorization_code hash digest trim_pad now code verifier m db).1 ≡ err 400
unfolding handle_token_authorization_code redeem
handle-absent hash digest trim_pad now code verifier m db h =
    elim (Bool-cases (code == "" || verifier == "")) [
      | inl e ↦ rw e refl
      | inr e ↦ rw (e, consume-absent now code db.requests h) refl
    ]

-- A code that the table holds at most once is good for one request: once a request with that code and a
-- verifier found it, whether the verifier matched or not, a later request for the code is refused with
-- 400, whatever verifier comes with it.
pub handle_token_authorization_code-once :
    (hash digest trim_pad : String → String) (now later : ℕ) (code verifier verifier' : String)
    (m m' : Mint) (db : TokenTables) (p : PkceRequest)
    → codes_of code db.requests ≤ 1
    → (verifier == "") ≡ false
    → (consume_pkce_request now code db.requests).1 ≡ some p
    → (handle_token_authorization_code hash digest trim_pad later code verifier' m'
        (handle_token_authorization_code hash digest trim_pad now code verifier m db).0).1
      ≡ err 400
unfolding handle_token_authorization_code
handle_token_authorization_code-once hash digest trim_pad now later code verifier verifier' m m' db
      p h v e =
    elim (Bool-cases (code == "")) [
      | inl c ↦ rw c refl
      | inr c ↦
          let db' =
            (handle_token_authorization_code hash digest trim_pad now code verifier m db).0 in
          handle-absent hash digest trim_pad later code verifier' m' db' (
            ap (codes_of code) (requests-handle hash digest trim_pad now code verifier m db c v)
            ∙ consume-removes now code db.requests p h e)
    ]

find_access-absent :
    (h : String) (now : ℕ) (ts : List AccessToken)
    → has_access h ts ≡ false
    → find_access now h ts ≡ ""
unfolding has_access find_access
find_access-absent h now [] e = refl
find_access-absent h now (t ∷ ts) e = ground (arith, find_access-absent h now ts)

find_access-insert :
    (h user : String) (exp now : ℕ) (ts ts' : List AccessToken)
    → insert_access_token h user exp ts ≡ ok ts'
    → find_access now h ts' ≡ (if ltb now exp then user else "")
unfolding insert_access_token find_access
find_access-insert h user exp now ts ts' e = ground (arith, ==_self h, find_access-absent h now ts)

-- The access token of a reply, in the tables of that reply.
abbrev IsGood : (String → String) → ℕ → ℕ → String → TokenTables × Result ℕ TokenReply → Type 0
IsGood hash now later user (db, err e) = Unit
IsGood hash now later user (db, ok r) =
    lookup_access_token hash later r.access_token db.access
    ≡ (if ltb later (now + access_token_ttl) then user else "")

mint_with-IsGood :
    (hash : String → String) (now later : ℕ) (user : String) (db : TokenTables) (m : Mint)
    (o : Option String)
    → IsGood hash now later user (mint_with hash now user db m o)
unfolding lookup_access_token
mint_with-IsGood hash now later user db m none = tt
mint_with-IsGood hash now later user db m (some access) =
    after_access-IsGood (insert_access_token (hash access) user (now + access_token_ttl) db.access)
      refl
  where
    reply-IsGood :
        (ts : List AccessToken) (rs : List RefreshToken) (o : Option String)
        → insert_access_token (hash access) user (now + access_token_ttl) db.access ≡ ok ts
        → IsGood hash now later user
            (reply_with (record db { access = ts; refresh = rs }) access m.refresh_token o)
    reply-IsGood ts rs none e = tt
    reply-IsGood ts rs (some id) e =
        find_access-insert (hash access) user (now + access_token_ttl) later db.access ts e

    after_refresh-IsGood :
        (ts : List AccessToken) (r : Result TokenError (List RefreshToken))
        → insert_access_token (hash access) user (now + access_token_ttl) db.access ≡ ok ts
        → IsGood hash now later user (after_refresh (record db { access = ts }) access m r)
    after_refresh-IsGood ts (err x) e = tt
    after_refresh-IsGood ts (ok rs) e = reply-IsGood ts rs m.id_jwt e

    after_access-IsGood :
        (r : Result TokenError (List AccessToken))
        → insert_access_token (hash access) user (now + access_token_ttl) db.access ≡ r
        → IsGood hash now later user (after_access hash now user db access m r)
    after_access-IsGood (err x) e = tt
    after_access-IsGood (ok ts) e =
        after_refresh-IsGood ts
          (insert_refresh_token (hash m.refresh_token) m.family_id user (now + refresh_token_ttl)
            db.refresh)
          e

-- A reply of mintTokensFor carries an access token that LookupAccessToken gives its user for, up to one
-- hour after, and no user from then on.
pub mint_tokens_for-lookup :
    (hash : String → String) (now later : ℕ) (user : String) (m : Mint) (db : TokenTables)
    (r : TokenReply)
    → (mint_tokens_for hash now user m db).1 ≡ ok r
    → lookup_access_token hash later r.access_token (mint_tokens_for hash now user m db).0.access
      ≡ (if ltb later (now + access_token_ttl) then user else "")
unfolding mint_tokens_for
mint_tokens_for-lookup hash now later user m db r e =
    good (mint_with hash now user db m m.access_jwt)
      (mint_with-IsGood hash now later user db m m.access_jwt) e
  where
    good :
        (x : TokenTables × Result ℕ TokenReply)
        → IsGood hash now later user x
        → x.1 ≡ ok r
        → lookup_access_token hash later r.access_token x.0.access
          ≡ (if ltb later (now + access_token_ttl) then user else "")
    good (t, err n) h k = cc
    good (t, ok s) h k = ground (arith, h, k)
