-- ===== src/Broker/Params.antt =====
-- The params of turn/start (mergeTurnParams of internal/codexappgateway/broker/conn.go).
use cli_server.Common.{
  ◌≡◌, refl, Option, some, none, [], ◌∷◌, false, if◌then◌else◌, ◌==◌, string_eq, String, ok,
  Bool-cases, inl, inr,
}
use cli_server.Common.Text.{Text}
use cli_server.Common.Dict.{Dict, get, put, get-put, empty}
use cli_server.Broker.{Wire}
use cli_server.Broker.Call.{merge_turn_params, merge_thread, merge_decoded, marshalled, has_key}

-- What the caller's params say: nothing, if there are none, and else the object that they decode to.
abbrev pub caller_object : Wire → Text → Option (Option (Dict String Text))
caller_object W [] = some (some empty)
caller_object W (c ∷ t) = W.read_object (c ∷ t)

-- `params` encodes an object with the thread's id under `threadId`, and for every other key what the
-- caller's object has, which has no `threadId`.
abbrev pub IsRouted : Wire → String → Text → Text → Type 0
IsRouted W thread caller params =
    (m : Dict String Text) × (merged : Dict String Text) × (caller_object W caller ≡ some (some m))
    × (get m "threadId" ≡ none)
    × (W.write_object merged ≡ some params)
    × ((k : String) → get merged k ≡ (if "threadId" == k then some (W.quote thread) else get m k))

has_key-false : (m : Option Text) → has_key m ≡ false → m ≡ none
has_key-false none h = refl
has_key-false (some t) h = cc

marshalled-ok : (m : Option Text) {t : Text} → marshalled m ≡ ok t → m ≡ some t
marshalled-ok none h = cc
marshalled-ok (some t) h = cc

merge_thread-IsRouted :
    (W : Wire) (thread : String) (caller : Text) (m : Dict String Text) {params : Text}
    → caller_object W caller ≡ some (some m)
    → merge_thread W thread m ≡ ok params
    → IsRouted W thread caller params
merge_thread-IsRouted W thread caller m seen done = elim (Bool-cases (has_key (get m "threadId"))) [
  | inl e ↦ cc
  | inr e ↦ (
    m,
    put m "threadId" (W.quote thread),
    seen,
    has_key-false (get m "threadId") e,
    marshalled-ok (W.write_object (put m "threadId" (W.quote thread))) cc,
    λ k. get-put m "threadId" k (W.quote thread),
  )
]

merge_decoded-IsRouted :
    (W : Wire) (thread : String) (caller : Text) (o : Option (Option (Dict String Text)))
    {params : Text}
    → caller_object W caller ≡ o
    → merge_decoded W thread o ≡ ok params
    → IsRouted W thread caller params
merge_decoded-IsRouted W thread caller none seen done = cc
merge_decoded-IsRouted W thread caller (some none) seen done = cc
merge_decoded-IsRouted W thread caller (some (some m)) seen done =
    merge_thread-IsRouted W thread caller m seen done

-- The params that the broker sends for a turn hold the thread's id under `threadId` and keep every other
-- entry of the caller's object, which had no `threadId`.
pub merge_turn_params-IsRouted :
    (W : Wire) (thread : String) (caller params : Text)
    → merge_turn_params W thread caller ≡ ok params
    → IsRouted W thread caller params
unfolding merge_turn_params
merge_turn_params-IsRouted W thread [] params done =
    merge_thread-IsRouted W thread [] empty refl done
merge_turn_params-IsRouted W thread (c ∷ t) params done =
    merge_decoded-IsRouted W thread (c ∷ t) (W.read_object (c ∷ t)) refl done
