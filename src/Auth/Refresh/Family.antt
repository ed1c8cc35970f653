-- ===== src/Auth/Refresh/Family.antt =====
-- Rotation within a family: one refresh token of a family is good at a time, and a replayed one burns it.
use cli_server.Common.{
  ℕ, ◌+◌, ◌≤◌, ◌≡◌, refl, inl, inr, String, Bool, true, false, ◌&&◌, Option, none, some, List, [],
  ◌∷◌, Result, ok, err, ◌==◌, ==_iff, ==_self, string_eq, arith, Bool-cases,
}
use cli_server.Auth.Refresh.{
  RefreshToken, TokenError, refresh_token_reuse, is_null, find_token, insert_refresh_token,
  is_usable, revoke_token, revoke_family, commit, rotate_row, rotate_refresh_token,
}

-- How many tokens of a family are not revoked.
abbrev pub one_when : Bool → ℕ
one_when true = 1
one_when false = 0

unfoldable pub active : String → List RefreshToken → ℕ
active f [] = 0
active f (t ∷ ts) = one_when (t.family_id == f && is_null t.revoked_at) + active f ts

active-revoke_token_le :
    (now : ℕ) (h f : String) (ts : List RefreshToken)
    → active f (revoke_token now h ts) ≤ active f ts
unfolding active revoke_token
active-revoke_token_le now h f [] = omega arith
active-revoke_token_le now h f (t ∷ ts) = ground (arith, active-revoke_token_le now h f ts)

active-revoke_token :
    (now : ℕ) (h : String) (ts : List RefreshToken) (t : RefreshToken)
    → find_token h ts ≡ some t
    → is_usable now t ≡ true
    → active t.family_id (revoke_token now h ts) + 1 ≤ active t.family_id ts
unfolding active revoke_token find_token
active-revoke_token now h [] t e u = cc
active-revoke_token now h (s ∷ ts) t e u = elim (Bool-cases (s.token_hash == h)) [
  | inl here ↦
      ground (arith, here, e, u, active-revoke_token_le now h t.family_id ts, ==_self t.family_id)
  | inr other ↦ ground (arith, other, e, u, active-revoke_token now h ts t)
]

active-revoke_family :
    (now : ℕ) (f : String) (ts : List RefreshToken) → active f (revoke_family now f ts) ≡ 0
unfolding active revoke_family
active-revoke_family now f [] = refl
active-revoke_family now f (t ∷ ts) = ground (arith, active-revoke_family now f ts)

active-revoke_family_le :
    (now : ℕ) (g f : String) (ts : List RefreshToken)
    → active f (revoke_family now g ts) ≤ active f ts
unfolding active revoke_family
active-revoke_family_le now g f [] = omega arith
active-revoke_family_le now g f (t ∷ ts) = ground (arith, active-revoke_family_le now g f ts)

active-insert :
    (h g user : String) (exp : ℕ) (ts ts' : List RefreshToken) (f : String)
    → insert_refresh_token h g user exp ts ≡ ok ts'
    → active f ts' ≡ one_when (g == f) + active f ts
unfolding insert_refresh_token active
active-insert h g user exp ts ts' f e = ground arith

-- The tables that the handlers can reach: a family begins under an identifier that no token of the table
-- has in use, and every later token of it comes from a rotation.
pub data Reach (hash : String → String) : List RefreshToken → Type 0 where
  start : Reach hash []
  begin_family :
      (h f user : String) (exp : ℕ) (ts ts' : List RefreshToken)
      → Reach hash ts
      → active f ts ≡ 0
      → insert_refresh_token h f user exp ts ≡ ok ts'
      → Reach hash ts'
  rotated :
      (now : ℕ) (old new : String) (exp : ℕ) (ts : List RefreshToken)
      → Reach hash ts
      → Reach hash (rotate_refresh_token hash now old new exp ts).tokens

active-commit :
    (now : ℕ) (h new : String) (exp : ℕ) (ts : List RefreshToken) (t : RefreshToken) (f : String)
    (r : Result TokenError (List RefreshToken))
    → find_token h ts ≡ some t
    → is_usable now t ≡ true
    → insert_refresh_token new t.family_id t.user_id exp (revoke_token now h ts) ≡ r
    → active f (commit ts t.user_id r).tokens ≤ active f ts
active-commit now h new exp ts t f (err x) e u i = omega arith
active-commit now h new exp ts t f (ok ts') e u i = ground (
  arith,
  active-insert new t.family_id t.user_id exp (revoke_token now h ts) ts' f i,
  active-revoke_token now h ts t e u,
  active-revoke_token_le now h f ts,
  ==_iff t.family_id f,
)

active-rotate_row :
    (now : ℕ) (h new : String) (exp : ℕ) (ts : List RefreshToken) (o : Option RefreshToken)
    (f : String)
    → find_token h ts ≡ o
    → active f (rotate_row now h new exp ts o).tokens ≤ active f ts
unfolding rotate_row
active-rotate_row now h new exp ts none f e = omega arith
active-rotate_row now h new exp ts (some t) f e = elim (Bool-cases (is_usable now t)) [
  | inl live ↦ rw live (
      active-commit now h new exp ts t f
        (insert_refresh_token new t.family_id t.user_id exp (revoke_token now h ts)) e live refl)
  | inr dead ↦ rw dead (active-revoke_family_le now t.family_id f ts)
]

-- In a table that insertions of new families and rotations lead to, a family has at most one token that
-- is not revoked.
pub Reach-IsSingle :
    {hash : String → String} (f : String) (ts : List RefreshToken) → Reach hash ts → active f ts ≤ 1
unfolding rotate_refresh_token active
Reach-IsSingle f ts start = omega arith
Reach-IsSingle f out (begin_family h g user exp ts ts' r none_yet e) =
    ground
      (arith, Reach-IsSingle f ts r, active-insert h g user exp ts ts' f e, ==_iff g f, none_yet)
Reach-IsSingle {hash} f out (rotated now old new exp ts r) = omega (
  arith,
  Reach-IsSingle f ts r,
  active-rotate_row now (hash old) new exp ts (find_token (hash old) ts) f refl,
)

find-revoke_token :
    (now : ℕ) (h : String) (ts : List RefreshToken) (t : RefreshToken)
    → find_token h ts ≡ some t
    → is_usable now t ≡ true
    → find_token h (revoke_token now h ts) ≡ some (record t { revoked_at = some now })
unfolding find_token revoke_token
find-revoke_token now h [] t e u = cc
find-revoke_token now h (s ∷ ts) t e u = elim (Bool-cases (s.token_hash == h)) [
  | inl here ↦ ground (arith, here, e, u)
  | inr other ↦ ground (arith, other, find-revoke_token now h ts t)
]

find-commit :
    (h new f user : String) (exp : ℕ) (ts ts' : List RefreshToken) (t : RefreshToken)
    → find_token h ts ≡ some t
    → insert_refresh_token new f user exp ts ≡ ok ts'
    → find_token h ts' ≡ some t
unfolding find_token insert_refresh_token
find-commit h new f user exp ts ts' t e i = ground (arith, ==_iff new h)

commit-ok :
    (now : ℕ) (h new f user user' : String) (exp : ℕ) (ts : List RefreshToken) (t : RefreshToken)
    (r : Result TokenError (List RefreshToken))
    → find_token h ts ≡ some t
    → is_usable now t ≡ true
    → insert_refresh_token new f user exp (revoke_token now h ts) ≡ r
    → (commit ts user r).user ≡ ok user'
    → find_token h (commit ts user r).tokens ≡ some (record t { revoked_at = some now })
commit-ok now h new f user user' exp ts t (err x) e u i k = cc
commit-ok now h new f user user' exp ts t (ok ts') e u i k =
    find-commit h new f user exp (revoke_token now h ts) ts' (record t { revoked_at = some now })
      (find-revoke_token now h ts t e u) i

-- What a successful rotation did: it found a usable token, and left it revoked.
rotate_row-ok :
    (now : ℕ) (h new user : String) (exp : ℕ) (ts : List RefreshToken) (o : Option RefreshToken)
    → find_token h ts ≡ o
    → (rotate_row now h new exp ts o).user ≡ ok user
    → (t : RefreshToken) × (o ≡ some t)
      × (find_token h (rotate_row now h new exp ts o).tokens
          ≡ some (record t { revoked_at = some now }))
unfolding rotate_row
rotate_row-ok now h new user exp ts none e r = cc
rotate_row-ok now h new user exp ts (some t) e r = elim (Bool-cases (is_usable now t)) [
  | inl live ↦ (
    t,
    refl,
    rw live (
        commit-ok now h new t.family_id t.user_id user exp ts t
          (insert_refresh_token new t.family_id t.user_id exp (revoke_token now h ts)) e live refl
          (ground (arith, live, r))),
  )
  | inr dead ↦ ground (arith, dead, r)
]

-- A revoked token burns its family.
rotate_row-revoked :
    (now : ℕ) (h new : String) (exp : ℕ) (ts : List RefreshToken) (o : Option RefreshToken)
    (t : RefreshToken)
    → o ≡ some t
    → is_null t.revoked_at ≡ false
    → ((rotate_row now h new exp ts o).user ≡ err refresh_token_reuse)
      × (active t.family_id (rotate_row now h new exp ts o).tokens ≡ 0)
unfolding rotate_row
rotate_row-revoked now h new exp ts none t e k = cc
rotate_row-revoked now h new exp ts (some s) t e k =
    ground (arith, active-revoke_family now t.family_id ts)

-- A token that was rotated and is presented again, at any later call on the table it left, is refused,
-- and no token of its family is good after that, the one it was exchanged for included.
pub rotate_refresh_token-replay :
    (hash : String → String) (now later : ℕ) (old new new' user : String) (exp exp' : ℕ)
    (ts : List RefreshToken)
    → (rotate_refresh_token hash now old new exp ts).user ≡ ok user
    → (t : RefreshToken) × (find_token (hash old) ts ≡ some t)
      × ((rotate_refresh_token hash later old new' exp'
            (rotate_refresh_token hash now old new exp ts).tokens).user
          ≡ err refresh_token_reuse)
      × (active t.family_id
            (rotate_refresh_token hash later old new' exp'
              (rotate_refresh_token hash now old new exp ts).tokens).tokens
          ≡ 0)
unfolding rotate_refresh_token
rotate_refresh_token-replay hash now later old new new' user exp exp' ts r =
    let (t, e, e') =
      rotate_row-ok now (hash old) new user exp ts (find_token (hash old) ts) refl r in
    let burnt =
      rotate_row-revoked later (hash old) new' exp'
        (rotate_refresh_token hash now old new exp ts).tokens
        (find_token (hash old)
          (rotate_row now (hash old) new exp ts (find_token (hash old) ts)).tokens)
        (record t { revoked_at = some now }) e' refl in
    (t, e, burnt.0, burnt.1)
