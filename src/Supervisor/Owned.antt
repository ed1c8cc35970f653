-- ===== src/Supervisor/Owned.antt =====
-- No directory is leaked (internal/codexappgateway/supervisor/supervisor.go).
use cli_server.Common.{
  ℕ, ◌≡◌, ◌≢◌, ◌⊎◌, refl, sym, ap, subst, ◌∙◌, Option, some, none, Bool, true, false, ◌==◌, ==_iff,
  string_eq, nat_eq, String, Bool-cases, inl, inr,
}
use cli_server.Common.Text.{Text}
use cli_server.Common.Dict.{
  Dict, get, put, remove, empty, get-put, get-put_same, get-remove, get-empty,
}
use cli_server.Supervisor.{
  Entry, Supervisor, new_supervisor, remove_dir, ensure, ensure_entry, make_dir, spawn_failed,
  commit, commit_entry, touch, touch_child, shutdown, shutdown_entry,
}

-- What the supervisor does, in any order, with the directories of the spawns that are under way and
-- their workspaces.
pub data Reach : Supervisor → Dict ℕ String → Type 0 where
  begun : Reach new_supervisor empty
  ensured :
      {s : Supervisor} {w : Dict ℕ String} (now : ℕ) (ws : String) (is_alive : Bool)
      → Reach s w
      → Reach (ensure s now ws is_alive).0 w
  dir_made :
      {s : Supervisor} {w : Dict ℕ String} (ws : String)
      → Reach s w
      → Reach (make_dir s ws) (put w s.spawned ws)
  failed :
      {s : Supervisor} {w : Dict ℕ String} (d : ℕ)
      → Reach s w
      → Reach (spawn_failed s d) (remove w d)
  committed :
      {s : Supervisor} {w : Dict ℕ String} (now : ℕ) (ws : String) (d : ℕ) (token : Text)
      → Reach s w
      → get w d ≡ some ws
      → Reach (commit s now ws d token).0 (remove w d)
  touched :
      {s : Supervisor} {w : Dict ℕ String} (now : ℕ) (ws : String)
      → Reach s w
      → Reach (touch s now ws) w
  shut : {s : Supervisor} {w : Dict ℕ String} (ws : String) → Reach s w → Reach (shutdown s ws) w

-- The directory `d` of the workspace `ws` is that of a spawn under way, or of the workspace's child.
abbrev pub IsOwned : Supervisor → Dict ℕ String → ℕ → String → Type 0
IsOwned s w d ws =
    (get w d ≡ some ws) ⊎ ((e : Entry) × (get s.children ws ≡ some e) × (e.codex_home ≡ d))

abbrev pub IsTidy : Supervisor → Dict ℕ String → Type 0
IsTidy s w = (d : ℕ) (ws : String) → get s.dirs d ≡ some ws → IsOwned s w d ws

removed-inv :
    (m : Dict ℕ String) (k j : ℕ) {v : String}
    → get (remove m k) j ≡ some v
    → (j ≢ k) × (get m j ≡ some v)
removed-inv m k j got = elim (Bool-cases (k == j)) [
  | inl e ↦ let gone : get (remove m k) j ≡ none = (get-remove m k j ∙ (rw e refl)) in cc
  | inr e ↦
      let same : get (remove m k) j ≡ get m j = (get-remove m k j ∙ (rw e refl)) in
      ((λ p. (let equal : (k == j) ≡ true = ((==_iff k j).1 (sym p)) in cc)), sym same ∙ got)
]

-- a child that goes takes its directory with it
gone-IsTidy :
    (s : Supervisor) (w : Dict ℕ String) (ws : String) (e : Entry)
    → IsTidy s w
    → get s.children ws ≡ some e
    → IsTidy (remove_dir (record s { children = remove s.children ws }) e.codex_home) w
gone-IsTidy s w ws e tidy found d ws' got =
    let (other, before) = removed-inv s.dirs e.codex_home d got in
    elim (tidy d ws' before) [
      | inl h ↦ inl h
      | inr (e', found', home) ↦ elim (Bool-cases (ws == ws')) [
        | inl q ↦
            let here : get s.children ws ≡ some e' =
              (ap (get s.children) ((==_iff ws ws').0 q) ∙ found') in
            let same : e ≡ e' = (cc) in
            elim (other (sym home ∙ ap (λ x. x.codex_home) (sym same))) [ ]
        | inr q ↦ inr (e', get-remove s.children ws ws' ∙ (rw q found'), home)
      ]
    ]

-- an entry that only changes its time keeps its directory
renewed-IsTidy :
    (s : Supervisor) (w : Dict ℕ String) (ws : String) (e f : Entry)
    → IsTidy s w
    → get s.children ws ≡ some e
    → f.codex_home ≡ e.codex_home
    → IsTidy (record s { children = put s.children ws f }) w
renewed-IsTidy s w ws e f tidy found home d ws' got = elim (tidy d ws' got) [
  | inl h ↦ inl h
  | inr (e', found', home') ↦ elim (Bool-cases (ws == ws')) [
    | inl q ↦
        let here : get s.children ws ≡ some e' =
          (ap (get s.children) ((==_iff ws ws').0 q) ∙ found') in
        let same : e ≡ e' = (cc) in
        inr
          (f, get-put s.children ws ws' f ∙ (rw q refl), home ∙ ap (λ x. x.codex_home) same ∙ home')
    | inr q ↦ inr (e', get-put s.children ws ws' f ∙ (rw q found'), home')
  ]
]

-- a spawn that ends with its directory removed
discarded-IsTidy :
    (s : Supervisor) (w : Dict ℕ String) (d : ℕ) → IsTidy s w → IsTidy (remove_dir s d) (remove w d)
discarded-IsTidy s w d tidy d' ws got =
    let (other, before) = removed-inv s.dirs d d' got in
    elim (tidy d' ws before) [
      | inl h ↦ elim (Bool-cases (d == d')) [
        | inl q ↦ elim (other (sym ((==_iff d d').0 q))) [ ]
        | inr q ↦ inl (get-remove w d d' ∙ (rw q h))
      ]
      | inr h ↦ inr h
    ]

made-IsTidy :
    (s : Supervisor) (w : Dict ℕ String) (ws : String)
    → IsTidy s w
    → IsTidy (make_dir s ws) (put w s.spawned ws)
unfolding make_dir
made-IsTidy s w ws tidy d ws' got = elim (Bool-cases (s.spawned == d)) [
  | inl q ↦
      let mine : get (put w s.spawned ws) d ≡ some ws = (get-put w s.spawned d ws ∙ (rw q refl)) in
      let here : get (put s.dirs s.spawned ws) d ≡ some ws =
        (get-put s.dirs s.spawned d ws ∙ (rw q refl)) in
      inl (mine ∙ sym here ∙ got)
  | inr q ↦
      let before : get s.dirs d ≡ some ws' =
        (sym (get-put s.dirs s.spawned d ws ∙ (rw q refl)) ∙ got) in
      elim (tidy d ws' before) [ inl h ↦ inl (get-put w s.spawned d ws ∙ (rw q h)) | inr h ↦ inr h ]
]

adopted-IsTidy :
    (s : Supervisor) (w : Dict ℕ String) (ws : String) (e : Entry)
    → IsTidy s w
    → get s.children ws ≡ none
    → get w e.codex_home ≡ some ws
    → IsTidy (record s { children = put s.children ws e }) (remove w e.codex_home)
adopted-IsTidy s w ws e tidy free spawning d ws' got = elim (tidy d ws' got) [
  | inl h ↦ elim (Bool-cases (e.codex_home == d)) [
    | inl q ↦
        let here : get w e.codex_home ≡ some ws' = (ap (get w) ((==_iff e.codex_home d).0 q) ∙ h) in
        let same : ws ≡ ws' = (cc) in
        inr (
          e,
          subst (λ x. get (put s.children ws e) x ≡ some e) same (get-put_same s.children ws e),
          (==_iff e.codex_home d).0 q,
        )
    | inr q ↦ inl (get-remove w e.codex_home d ∙ (rw q h))
  ]
  | inr (e', found', home') ↦ elim (Bool-cases (ws == ws')) [
    | inl q ↦
        let here : get s.children ws ≡ some e' =
          (ap (get s.children) ((==_iff ws ws').0 q) ∙ found') in
        cc
    | inr q ↦ inr (e', get-put s.children ws ws' e ∙ (rw q found'), home')
  ]
]

ensure_entry-IsTidy :
    (s : Supervisor) (w : Dict ℕ String) (now : ℕ) (ws : String) (is_alive : Bool)
    (m : Option Entry)
    → IsTidy s w
    → get s.children ws ≡ m
    → IsTidy (ensure_entry s now ws is_alive m).0 w
ensure_entry-IsTidy s w now ws is_alive none tidy found = tidy
ensure_entry-IsTidy s w now ws true (some e) tidy found =
    renewed-IsTidy s w ws e (record e { last_active = now }) tidy found refl
ensure_entry-IsTidy s w now ws false (some e) tidy found = gone-IsTidy s w ws e tidy found

commit_entry-IsTidy :
    (s : Supervisor) (w : Dict ℕ String) (now : ℕ) (ws : String) (d : ℕ) (token : Text)
    (m : Option Entry)
    → IsTidy s w
    → get s.children ws ≡ m
    → get w d ≡ some ws
    → IsTidy (commit_entry s now ws d token m).0 (remove w d)
commit_entry-IsTidy s w now ws d token none tidy found spawning =
    adopted-IsTidy s w ws
      (record { handle = d; codex_home = d; last_active = now; loopback_token = token }) tidy found
      spawning
commit_entry-IsTidy s w now ws d token (some e) tidy found spawning =
    discarded-IsTidy (record s { children = put s.children ws (record e { last_active = now }) }) w
      d (renewed-IsTidy s w ws e (record e { last_active = now }) tidy found refl)

touch_child-IsTidy :
    (s : Supervisor) (w : Dict ℕ String) (now : ℕ) (ws : String) (m : Option Entry)
    → IsTidy s w
    → get s.children ws ≡ m
    → IsTidy (touch_child s now ws m) w
touch_child-IsTidy s w now ws none tidy found = tidy
touch_child-IsTidy s w now ws (some e) tidy found =
    renewed-IsTidy s w ws e (record e { last_active = now }) tidy found refl

shutdown_entry-IsTidy :
    (s : Supervisor) (w : Dict ℕ String) (ws : String) (m : Option Entry)
    → IsTidy s w
    → get s.children ws ≡ m
    → IsTidy (shutdown_entry s ws m) w
shutdown_entry-IsTidy s w ws none tidy found = tidy
shutdown_entry-IsTidy s w ws (some e) tidy found = gone-IsTidy s w ws e tidy found

no_dirs : (d : ℕ) → get new_supervisor.dirs d ≡ none
unfolding new_supervisor
no_dirs d = get-empty d

Reach-IsTidy : {s : Supervisor} {w : Dict ℕ String} → Reach s w → IsTidy s w
unfolding new_supervisor ensure spawn_failed commit touch shutdown
Reach-IsTidy begun = λ d ws got. (let nothing = no_dirs d in cc)
Reach-IsTidy (ensured {s} {w} now ws is_alive r) =
    ensure_entry-IsTidy s w now ws is_alive (get s.children ws) (Reach-IsTidy r) refl
Reach-IsTidy (dir_made {s} {w} ws r) = made-IsTidy s w ws (Reach-IsTidy r)
Reach-IsTidy (failed {s} {w} d r) = discarded-IsTidy s w d (Reach-IsTidy r)
Reach-IsTidy (committed {s} {w} now ws d token r spawning) =
    commit_entry-IsTidy s w now ws d token (get s.children ws) (Reach-IsTidy r) refl spawning
Reach-IsTidy (touched {s} {w} now ws r) =
    touch_child-IsTidy s w now ws (get s.children ws) (Reach-IsTidy r) refl
Reach-IsTidy (shut {s} {w} ws r) =
    shutdown_entry-IsTidy s w ws (get s.children ws) (Reach-IsTidy r) refl

-- In every order of spawns, races, crashes and shutdowns, each directory that was made for a workspace and
-- not given up to its removal is that of a spawn that is under way, or that of the workspace's one child.
pub Reach-IsOwned :
    {s : Supervisor} {w : Dict ℕ String} (d : ℕ) (ws : String)
    → Reach s w
    → get s.dirs d ≡ some ws
    → IsOwned s w d ws
Reach-IsOwned d ws r got = Reach-IsTidy r d ws got
