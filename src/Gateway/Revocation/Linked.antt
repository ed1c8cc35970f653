-- ===== src/Gateway/Revocation/Linked.antt =====
-- The list and the map of a revoked set hold the same turns, each once.
use cli_server.Common.{
  ℕ, ◌≡◌, refl, inl, inr, String, Bool, true, false, ◌||◌, List, [], ◌∷◌, ◌++◌, if◌then◌else◌, ltb,
  leb, ◌==◌, ==_iff, string_eq, nat_eq, length, arith, Bool-cases,
}
use cli_server.Gateway.Revocation.{RevokedEntry, unlink, evict, is_some, prune_loop}
use cli_server.Common.Dict.{Dict, get, get-remove, remove}

-- Whether a turn is in a list of entries.
abbrev pub listed : String → List RevokedEntry → Bool
listed t [] = false
listed t (e ∷ es) = e.turn_id == t || listed t es

abbrev pub IsOnce : List RevokedEntry → Type 0
IsOnce [] = Unit
IsOnce (e ∷ es) = (listed e.turn_id es ≡ false) × IsOnce es

abbrev pub Agree : List RevokedEntry → Dict String (Unit {0}) → Type 0
Agree es items = (t : String) → is_some (get items t) ≡ listed t es

pub listed-unlink :
    (k t : String) (es : List RevokedEntry)
    → IsOnce es
    → listed t (unlink k es) ≡ (if k == t then false else listed t es)
unfolding unlink
listed-unlink k t [] h = ground arith
listed-unlink k t (e ∷ es) h =
    ground
      (arith, listed-unlink k t es h.1, ==_iff e.turn_id k, ==_iff e.turn_id t, ==_iff k t, h.0)

pub listed-append :
    (t : String) (es fs : List RevokedEntry) → listed t (es ++ fs) ≡ (listed t es || listed t fs)
listed-append t [] fs = refl
listed-append t (e ∷ es) fs = ground (arith, listed-append t es fs)

pub unlink-IsOnce : (k : String) (es : List RevokedEntry) → IsOnce es → IsOnce (unlink k es)
unfolding unlink
unlink-IsOnce k [] h = tt
unlink-IsOnce k (e ∷ es) h =
    ground (arith, unlink-IsOnce k es h.1, listed-unlink k e.turn_id es h.1)

pub append-IsOnce :
    (es : List RevokedEntry) (e : RevokedEntry)
    → IsOnce es
    → listed e.turn_id es ≡ false
    → IsOnce (es ++ e ∷ [])
append-IsOnce [] e h n = (refl, tt)
append-IsOnce (f ∷ es) e h n = (
  rw (listed-append f.turn_id es (e ∷ []))
      (ground (arith, h.0, n, ==_iff f.turn_id e.turn_id, ==_iff e.turn_id f.turn_id)),
  append-IsOnce es e h.1 (ground (arith, n)),
)

-- Behind its first entry a list agrees with the map without that entry's turn.
pub Agree-tail :
    (e : RevokedEntry) (es : List RevokedEntry) (items : Dict String (Unit {0}))
    → IsOnce (e ∷ es)
    → Agree (e ∷ es) items
    → Agree es (remove items e.turn_id)
Agree-tail e es items h a t =
    rw (get-remove items e.turn_id t) (ground (arith, a t, h.0, ==_iff e.turn_id t))

pub evict-Agree :
    (cap now : ℕ) (es : List RevokedEntry) (items : Dict String (Unit {0}))
    → IsOnce es
    → Agree es items
    → IsOnce (evict cap now es items).order
      × Agree (evict cap now es items).order (evict cap now es items).items
unfolding evict
evict-Agree cap now [] items h a = (tt, a)
evict-Agree cap now (e ∷ es) items h a = elim (Bool-cases (leb cap (length (e ∷ es)))) [
  | inl t ↦ rw t (evict-Agree cap now es (remove items e.turn_id) h.1 (Agree-tail e es items h a))
  | inr f ↦ rw f (h, a)
]

-- Entries that are not stale, as Prune keeps them.
abbrev pub fresh : ℕ → List RevokedEntry → List RevokedEntry
fresh now [] = []
fresh now (e ∷ es) = if ltb e.exp now then fresh now es else e ∷ fresh now es

pub prune_loop-fresh :
    (now : ℕ) (es : List RevokedEntry) (items : Dict String (Unit {0}))
    → (prune_loop now es items).0 ≡ fresh now es
unfolding prune_loop
prune_loop-fresh now [] items = refl
prune_loop-fresh now (e ∷ es) items =
    let rest = prune_loop-fresh now es (if ltb e.exp now then remove items e.turn_id else items) in
    ground (arith, rest)

pub listed-fresh :
    (now : ℕ) (t : String) (es : List RevokedEntry)
    → listed t es ≡ false
    → listed t (fresh now es) ≡ false
listed-fresh now t [] h = refl
listed-fresh now t (e ∷ es) h = ground (arith, listed-fresh now t es)

pub fresh-IsOnce : (now : ℕ) (es : List RevokedEntry) → IsOnce es → IsOnce (fresh now es)
fresh-IsOnce now [] h = tt
fresh-IsOnce now (e ∷ es) h =
    ground (arith, fresh-IsOnce now es h.1, listed-fresh now e.turn_id es h.0)

-- The loop deletes the keys of the stale entries and no other.
pub prune_loop-items :
    (now : ℕ) (es : List RevokedEntry) (items : Dict String (Unit {0})) (t : String)
    → IsOnce es
    → (listed t es ≡ true → is_some (get items t) ≡ true)
    → is_some (get (prune_loop now es items).1 t)
      ≡ (if listed t es then listed t (fresh now es) else is_some (get items t))
unfolding prune_loop
prune_loop-items now [] items t h c = refl
prune_loop-items now (e ∷ es) items t h c = elim (Bool-cases (ltb e.exp now)) [
  | inl s ↦
      let gone = get-remove items e.turn_id t in
      rw s (
        ground (
          arith,
          prune_loop-items now es (remove items e.turn_id) t h.1
              (ground (arith, gone, ==_iff e.turn_id t, h.0, c)),
          gone,
          ==_iff e.turn_id t,
          h.0,
          listed-fresh now t es,
        ))
  | inr f ↦ rw f (
      ground (
        arith,
        prune_loop-items now es items t h.1 (ground (arith, ==_iff e.turn_id t, c)),
        ==_iff e.turn_id t,
        h.0,
        c,
      ))
]
