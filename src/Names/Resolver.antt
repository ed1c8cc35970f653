-- ===== src/Names/Resolver.antt =====
-- The resolver of environment names (internal/envtools/nameresolver/resolver.go): its cache, refresh and
-- Resolve. What a fetch returns is an argument, and so is the clock, in nanoseconds. One call is one
-- step: callers that share a fetch in flight see the outcome of one refresh.
use cli_server.Common.{
  ℕ, ◌-◌, ◌≡◌, refl, ap, ◌∙◌, String, Bool, true, false, not, Option, none, some, List, [], ◌∷◌,
  Result, ok, err, if◌then◌else◌, ltb, ◌==◌, ==_iff, string_eq, arith,
}
use cli_server.Common.Dict.{Dict, get, put, empty, get-put, get-empty}

pub record ConnectedEntry : Type 0 where
  pub exe_id : String
  pub name : String

pub record Resolver : Type 0 where
  pub cache_ttl : ℕ
  pub cache : Dict String String
  pub cached_at : ℕ

abbrev pub name_resolver_cache_ttl : ℕ
name_resolver_cache_ttl = 10_000_000_000

unfoldable pub new_resolver : Resolver
new_resolver = record { cache_ttl = name_resolver_cache_ttl; cache = empty; cached_at = 0 }

pub data ResolveError : Type 0 where
  name_required fetch_failed : ResolveError
  no_environment : String → ResolveError

-- the loop that fills a fresh cache
unfoldable pub fill : List ConnectedEntry → Dict String String → Dict String String
fill [] fresh = fresh
fill (e ∷ es) fresh = fill es (if e.name == "" then fresh else put fresh e.name e.exe_id)

unfoldable pub refresh_cache : Resolver → ℕ → Result ResolveError (List ConnectedEntry) → Resolver
unfolding fill
refresh_cache r now (ok es) = record r { cached_at = now; cache = fill es empty }
refresh_cache r now (err e) = record r { cached_at = now }

-- `ok && !stale` of a cached identifier
unfoldable pub fresh_hit : Resolver → ℕ → Option String → Bool
fresh_hit r now none = false
fresh_hit r now (some exe) = not (ltb r.cache_ttl (now - r.cached_at))

abbrev pub found_or : ResolveError → Option String → Result ResolveError String
found_or e none = err e
found_or e (some exe) = ok exe

-- behind the refresh: the cached identifier when it failed, and the new cache otherwise
abbrev pub after_fetch :
    Resolver
    → String
    → Option String
    → Result ResolveError (List ConnectedEntry)
    → Result ResolveError String
after_fetch r name cached (err e) = found_or e cached
after_fetch r name cached (ok es) = found_or (no_environment name) (get r.cache name)

-- What Resolve leaves and returns, and whether it fetched.
pub record Resolved : Type 0 where
  pub resolver : Resolver
  pub answer : Result ResolveError String
  pub fetched : Bool

abbrev pub hit : Resolver → ℕ → Option String → Resolved → Resolved
hit r now none other = other
hit r now (some exe) other =
    if fresh_hit r now (some exe)
    then record { resolver = r; answer = ok exe; fetched = false }
    else other

unfoldable pub resolve :
    Resolver → ℕ → String → Result ResolveError (List ConnectedEntry) → Resolved
unfolding refresh_cache fresh_hit
resolve r now name fetch =
    if name == ""
    then record { resolver = r; answer = err name_required; fetched = false }
    else let r' = refresh_cache r now fetch in
      hit r now (get r.cache name) (record {
        resolver = r';
        answer = after_fetch r' name (get r.cache name) fetch;
        fetched = true;
      })

-- The last entry of a name.
unfoldable pub last_of : String → List ConnectedEntry → Option String → Option String
last_of name [] before = before
last_of name (e ∷ es) before = last_of name es (if e.name == name then some e.exe_id else before)

get-fill :
    (name : String) (es : List ConnectedEntry) (fresh : Dict String String)
    → (name == "") ≡ false
    → get (fill es fresh) name ≡ last_of name es (get fresh name)
unfolding fill last_of
get-fill name [] fresh n = refl
get-fill name (e ∷ es) fresh n =
    get-fill name es (if e.name == "" then fresh else put fresh e.name e.exe_id) n
    ∙ ap (last_of name es) (
        ground (
          arith,
          n,
          get-put fresh e.name name e.exe_id,
          ==_iff e.name name,
          ==_iff e.name "",
          ==_iff name "",
        ))

-- A name that the cache does not hold is always fetched, however recent the last fetch was, and the answer
-- is the last entry of that name in what a successful fetch returned.
pub resolve_miss :
    (r : Resolver) (now : ℕ) (name : String) (es : List ConnectedEntry)
    → (name == "") ≡ false
    → get r.cache name ≡ none
    → ((resolve r now name (ok es)).fetched ≡ true)
      × ((resolve r now name (ok es)).answer
          ≡ found_or (no_environment name) (last_of name es none))
unfolding resolve refresh_cache
resolve_miss r now name es n e =
    rw (n, e)
      (
        refl,
        ap (found_or (no_environment name))
            (get-fill name es empty n ∙ ap (last_of name es) (get-empty name)),
      )

-- A name that the cache holds is answered even when a fetch fails, with the identifier that it holds, and
-- the cache stays as it is.
pub resolve_fallback :
    (r : Resolver) (now : ℕ) (name exe : String) (e : ResolveError)
    → (name == "") ≡ false
    → get r.cache name ≡ some exe
    → ((resolve r now name (err e)).answer ≡ ok exe)
      × ((resolve r now name (err e)).resolver.cache ≡ r.cache)
unfolding resolve refresh_cache
resolve_fallback r now name exe e n h = rw (n, h) (ground arith)
