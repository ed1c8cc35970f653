-- ===== src/Quota/Budget.antt =====
-- What the checks of a workspace's quota guarantee.
use cli_server.Common.{
  ℕ, ◌+◌, ◌≤◌, ◌<◌, ◌≡◌, ◌↔◌, ◌⊎◌, refl, sym, subst, ap, ◌∙◌, inl, inr, String, Bool, true, false,
  ◌&&◌, Option, none, some, List, [], ◌∷◌, Result, ok, err, if◌then◌else◌, ◌==◌, string_eq, nat_eq,
  arith, Bool-cases, All, ◌%◌,
}
use cli_server.Quota.{
  ResourceDefaults, Layer, Parsers, value_or, override_int, apply_layer, get_resource_defaults,
  WorkspaceDefaults, WorkspaceQuota, DbError, workspace_defaults, overridden,
  effective_workspace_defaults, Allowance, allowance, check_sandbox_quota, Usage, within_budget,
  sum_above, max_int64, check_workspace_resource_budget,
}

-- The first value that a chain of sources gives.
unfoldable pub first_of : List (Option ℕ) → ℕ → ℕ
first_of [] fallback = fallback
first_of (none ∷ os) fallback = first_of os fallback
first_of (some n ∷ os) fallback = n

-- A setting that is there and reads as an integer.
abbrev pub usable : (String → Option ℕ) → String → Option ℕ
usable atoi v = if v == "" then none else atoi v

override_int-first :
    (atoi : String → Option ℕ) (v : String) (os : List (Option ℕ)) (n : ℕ)
    → override_int atoi v (first_of os n) ≡ first_of (usable atoi v ∷ os) n
unfolding override_int first_of
override_int-first atoi v os n = elim (Bool-cases (v == "")) [
  | inl e ↦ rw e refl
  | inr e ↦ rw e (value_or-first (atoi v))
]
  where
    value_or-first : (o : Option ℕ) → value_or o (first_of os n) ≡ first_of (o ∷ os) n
    value_or-first none = refl
    value_or-first (some k) = refl

value_or-first_of :
    (o : Option ℕ) (os : List (Option ℕ)) (n : ℕ) → value_or o (first_of os n) ≡ first_of (o ∷ os) n
unfolding first_of
value_or-first_of none os n = refl
value_or-first_of (some k) os n = refl

defaults-first :
    (p : Parsers) (env settings : Layer)
    → (get_resource_defaults p env settings).max_sandboxes_per_workspace
      ≡ first_of (usable p.atoi settings.max_sandboxes ∷ usable p.atoi env.max_sandboxes ∷ []) 20
unfolding get_resource_defaults apply_layer first_of
defaults-first p env settings =
    ap (override_int p.atoi settings.max_sandboxes)
      (override_int-first p.atoi env.max_sandboxes [] 20)
    ∙ override_int-first p.atoi settings.max_sandboxes (usable p.atoi env.max_sandboxes ∷ []) 20

-- The override of a workspace, where it has a row and the column is not NULL.
abbrev pub sandbox_override : Option WorkspaceQuota → Option ℕ
sandbox_override none = none
sandbox_override (some wq) = wq.max_sandboxes

-- The sources of a workspace's limit, first to last.
abbrev pub sandbox_limit : Parsers → Layer → Layer → Option WorkspaceQuota → ℕ
sandbox_limit p env settings wq =
    first_of
      (sandbox_override wq
        ∷ usable p.atoi settings.max_sandboxes
        ∷ usable p.atoi env.max_sandboxes
        ∷ [])
      20

overridden-first :
    (wq : Option WorkspaceQuota) (rd : ResourceDefaults) (os : List (Option ℕ)) (n : ℕ)
    → rd.max_sandboxes_per_workspace ≡ first_of os n
    → (overridden wq (workspace_defaults rd)).max_sandboxes ≡ first_of (sandbox_override wq ∷ os) n
unfolding overridden first_of
overridden-first none rd os n e = e
overridden-first (some wq) rd os n e =
    ap (value_or wq.max_sandboxes) e ∙ value_or-first_of wq.max_sandboxes os n

ok_is : {a b : Allowance} → ◌≡◌ {A = Result DbError Allowance} (ok a) (ok b) → a ≡ b
ok_is e = cc

allowance_iff :
    (current max : ℕ) → ((allowance current max).allowed ≡ true) ↔ ((max ≡ 0) ⊎ (current < max))
unfolding allowance
allowance_iff current max = (λ h. ground arith, λ h. ground arith)

-- A workspace may have another sandbox exactly when its limit is 0 or above the count, where the limit is
-- the first of: the workspace's override, the setting of the database, the environment's, and 20.
pub check_sandbox_quota_iff :
    (p : Parsers) (env settings : Layer) (wq : Option WorkspaceQuota) (current : ℕ) (a : Allowance)
    → check_sandbox_quota (get_resource_defaults p env settings) (ok wq) (ok current) ≡ ok a
    → (a.allowed ≡ true)
      ↔ ((sandbox_limit p env settings wq ≡ 0) ⊎ (current < sandbox_limit p env settings wq))
unfolding check_sandbox_quota effective_workspace_defaults
check_sandbox_quota_iff p env settings wq current a e =
    let limit =
      overridden-first wq (get_resource_defaults p env settings)
        (usable p.atoi settings.max_sandboxes ∷ usable p.atoi env.max_sandboxes ∷ []) 20
        (defaults-first p env settings) in
    subst
      (λ b.
        (b.allowed ≡ true)
        ↔ ((sandbox_limit p env settings wq ≡ 0) ⊎ (current < sandbox_limit p env settings wq)))
      (ok_is e)
      (subst
        (λ n.
          ((allowance current n).allowed ≡ true)
          ↔ ((sandbox_limit p env settings wq ≡ 0) ⊎ (current < sandbox_limit p env settings wq)))
        (sym limit) (allowance_iff current (sandbox_limit p env settings wq)))

abbrev pub admitted : Result DbError Bool → ℕ → ℕ → Usage → Usage
admitted (ok true) c m used = record { cpu = used.cpu + c; memory = used.memory + m }
admitted (ok false) c m used = used
admitted (err e) c m used = used

-- Requests of a workspace, checked one after the other; an admitted one adds to what is in use.
unfoldable pub admit_all : ResourceDefaults → Option WorkspaceQuota → List (ℕ × ℕ) → Usage → Usage
unfolding check_workspace_resource_budget
admit_all rd wq [] used = used
admit_all rd wq ((c, m) ∷ rs) used =
    admit_all rd wq rs
      (admitted (check_workspace_resource_budget rd (ok wq) (ok used) c m) c m used)

-- Use within the budget of a workspace; a budget of 0 is none.
pub record IsWithin (wd : WorkspaceDefaults) (used : Usage) : Type 0 where
  pub within_cpu : 0 < wd.max_total_cpu → used.cpu ≤ wd.max_total_cpu
  pub within_memory : 0 < wd.max_total_memory → used.memory ≤ wd.max_total_memory

-- While the sum fits, no wrap-around hides that it is above the limit.
sum_above-fits :
    (a b limit : ℕ)
    → a ≤ limit
    → limit + b ≤ max_int64
    → sum_above a b limit ≡ false
    → a + b ≤ limit
unfolding sum_above
sum_above-fits a b limit before fits h =
    let small : (a + b) % 18_446_744_073_709_551_616 ≡ a + b = omega (arith, before, fits) in
    ground (arith, small, before, fits, h)

-- A budget and a request whose sum fits an int64.
abbrev pub Fits : WorkspaceDefaults → ℕ × ℕ → Type 0
Fits wd (c, m) = (wd.max_total_cpu + c ≤ max_int64) × (wd.max_total_memory + m ≤ max_int64)

within_budget-IsWithin :
    (wd : WorkspaceDefaults) (used : Usage) (c m : ℕ)
    → IsWithin wd used
    → Fits wd (c, m)
    → within_budget wd used c m ≡ true
    → IsWithin wd (record { cpu = used.cpu + c; memory = used.memory + m })
unfolding within_budget
within_budget-IsWithin wd used c m v (fits_cpu, fits_memory) h = record {
  within_cpu = λ k.
      sum_above-fits used.cpu c wd.max_total_cpu (v.within_cpu k) fits_cpu (ground (arith, h, k));
  within_memory = λ k.
      sum_above-fits used.memory m wd.max_total_memory (v.within_memory k) fits_memory
        (ground (arith, h, k));
}

unlimited :
    (wd : WorkspaceDefaults) (used : Usage)
    → (wd.max_total_cpu == 0 && wd.max_total_memory == 0) ≡ true
    → IsWithin wd used
unlimited wd used h = record {
  within_cpu = λ k. ground (arith, h, k);
  within_memory = λ k. ground (arith, h, k);
}

check-IsWithin :
    (rd : ResourceDefaults) (wq : Option WorkspaceQuota) (used : Usage) (c m : ℕ)
    → IsWithin (overridden wq (workspace_defaults rd)) used
    → Fits (overridden wq (workspace_defaults rd)) (c, m)
    → IsWithin
        (overridden wq (workspace_defaults rd))
        (admitted (check_workspace_resource_budget rd (ok wq) (ok used) c m) c m used)
unfolding check_workspace_resource_budget effective_workspace_defaults
check-IsWithin rd wq used c m v fits_all =
    elim (Bool-cases (
      (overridden wq (workspace_defaults rd)).max_total_cpu == 0
      && (overridden wq (workspace_defaults rd)).max_total_memory == 0)) [
        | inl none_set ↦ rw none_set (
            unlimited (overridden wq (workspace_defaults rd))
              (record { cpu = used.cpu + c; memory = used.memory + m }) none_set)
        | inr some_set ↦
            rw some_set
              (elim (Bool-cases (within_budget (overridden wq (workspace_defaults rd)) used c m)) [
                | inl fits ↦ rw fits (
                    within_budget-IsWithin (overridden wq (workspace_defaults rd)) used c m v
                      fits_all fits)
                | inr over ↦ rw over v
              ])
      ]

-- Whatever the requests of a workspace, checked one after the other, what is in use stays within its CPU
-- and its memory budget, where it has one and was within it before, as long as the budget and each single
-- request add up to an int64; the sums that the check makes wrap around.
pub admit_all-IsWithin :
    (rd : ResourceDefaults) (wq : Option WorkspaceQuota) (rs : List (ℕ × ℕ)) (used : Usage)
    → All (Fits (overridden wq (workspace_defaults rd))) rs
    → IsWithin (overridden wq (workspace_defaults rd)) used
    → IsWithin (overridden wq (workspace_defaults rd)) (admit_all rd wq rs used)
unfolding admit_all
admit_all-IsWithin rd wq [] used fits v = v
admit_all-IsWithin rd wq ((c, m) ∷ rs) used fits v =
    admit_all-IsWithin rd wq rs
      (admitted (check_workspace_resource_budget rd (ok wq) (ok used) c m) c m used) fits.1
      (check-IsWithin rd wq used c m v fits.0)
