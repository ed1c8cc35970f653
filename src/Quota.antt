-- ===== src/Quota.antt =====
-- Quotas (internal/server/quota.go): the chain of settings, the workspace's overrides, and the checks
-- made before a workspace or a sandbox is created. Limits and sizes are natural numbers here: a
-- negative setting is not modelled, and the sums of the budget wrap around like an int64. What the
-- environment and the table system_settings hold are arguments, "" for a setting that is unset or
-- cannot be read, and so are what the database counts. The parsers of strconv and the three legacy
-- parsers are arguments too.
pub mod Budget
use cli_server.Common.{
  ℕ, ◌+◌, ◌*◌, ◌^◌, ◌%◌, String, Bool, true, false, not, ◌&&◌, Option, none, some, Result, ok, err,
  ◌>>=◌, if◌then◌else◌, ltb, ◌==◌, string_eq, nat_eq,
}

pub record ResourceDefaults : Type 0 where
  pub max_workspaces_per_user : ℕ
  pub max_sandboxes_per_workspace : ℕ
  pub max_workspace_drive_size : ℕ
  pub max_sandbox_cpu : ℕ
  pub max_sandbox_memory : ℕ
  pub max_idle_timeout : ℕ
  pub ws_max_total_cpu : ℕ
  pub ws_max_total_memory : ℕ
  pub ws_max_idle_timeout : ℕ

-- One layer of settings, as strings.
pub record Layer : Type 0 where
  pub max_workspaces : String
  pub max_sandboxes : String
  pub drive_size : String
  pub sandbox_cpu : String
  pub sandbox_memory : String
  pub idle_timeout : String
  pub total_cpu : String
  pub total_memory : String
  pub total_idle_timeout : String

pub record Parsers : Type 0 where
  pub atoi : String → Option ℕ
  pub cpu_millicores : String → ℕ
  pub memory_bytes : String → ℕ
  pub duration_seconds : String → ℕ

-- parseResourceInt and parseResourceInt64
abbrev pub parsed_or : Option ℕ → ℕ → ℕ → ℕ
parsed_or (some n) legacy fallback = n
parsed_or none legacy fallback = if legacy == 0 then fallback else legacy

unfoldable pub parse_resource_int : (String → Option ℕ) → String → ℕ → (String → ℕ) → ℕ
parse_resource_int atoi s fallback legacy_parser = parsed_or (atoi s) (legacy_parser s) fallback

-- A plain integer setting
abbrev pub value_or : Option ℕ → ℕ → ℕ
value_or (some n) fallback = n
value_or none fallback = fallback

unfoldable pub override_int : (String → Option ℕ) → String → ℕ → ℕ
override_int atoi v current = if v == "" then current else value_or (atoi v) current

-- A resource setting, in the new format or the legacy one
unfoldable pub override_resource : (String → Option ℕ) → (String → ℕ) → String → ℕ → ℕ
unfolding parse_resource_int
override_resource atoi legacy_parser v current =
    if v == "" then current else parse_resource_int atoi v current legacy_parser

unfoldable pub apply_layer : Parsers → Layer → ResourceDefaults → ResourceDefaults
apply_layer p l rd = record {
  max_workspaces_per_user = override_int p.atoi l.max_workspaces rd.max_workspaces_per_user;
  max_sandboxes_per_workspace = override_int p.atoi l.max_sandboxes rd.max_sandboxes_per_workspace;
  max_workspace_drive_size =
      override_resource p.atoi p.memory_bytes l.drive_size rd.max_workspace_drive_size;
  max_sandbox_cpu = override_resource p.atoi p.cpu_millicores l.sandbox_cpu rd.max_sandbox_cpu;
  max_sandbox_memory =
      override_resource p.atoi p.memory_bytes l.sandbox_memory rd.max_sandbox_memory;
  max_idle_timeout = override_resource p.atoi p.duration_seconds l.idle_timeout rd.max_idle_timeout;
  ws_max_total_cpu = override_resource p.atoi p.cpu_millicores l.total_cpu rd.ws_max_total_cpu;
  ws_max_total_memory =
      override_resource p.atoi p.memory_bytes l.total_memory rd.ws_max_total_memory;
  ws_max_idle_timeout =
      override_resource p.atoi p.duration_seconds l.total_idle_timeout rd.ws_max_idle_timeout;
}

abbrev pub hardcoded : ResourceDefaults
hardcoded = record {
  max_workspaces_per_user = 10;
  max_sandboxes_per_workspace = 20;
  max_workspace_drive_size = 10 * 1024 ^ 3;
  max_sandbox_cpu = 2_000;
  max_sandbox_memory = 2 * 1024 ^ 3;
  max_idle_timeout = 1_800;
  ws_max_total_cpu = 0;
  ws_max_total_memory = 0;
  ws_max_idle_timeout = 0;
}

unfoldable pub get_resource_defaults : Parsers → Layer → Layer → ResourceDefaults
unfolding apply_layer
get_resource_defaults p env settings = apply_layer p settings (apply_layer p env hardcoded)

pub record WorkspaceDefaults : Type 0 where
  pub max_sandboxes : ℕ
  pub max_sandbox_cpu : ℕ
  pub max_sandbox_memory : ℕ
  pub max_idle_timeout : ℕ
  pub max_total_cpu : ℕ
  pub max_total_memory : ℕ
  pub max_drive_size : ℕ

-- A row of workspace_quotas: a NULL is no override.
pub record WorkspaceQuota : Type 0 where
  pub max_sandboxes : Option ℕ
  pub max_sandbox_cpu : Option ℕ
  pub max_sandbox_memory : Option ℕ
  pub max_idle_timeout : Option ℕ
  pub max_total_cpu : Option ℕ
  pub max_total_memory : Option ℕ
  pub max_drive_size : Option ℕ

pub data DbError : Type 0 where
  unavailable : DbError

abbrev pub workspace_defaults : ResourceDefaults → WorkspaceDefaults
workspace_defaults rd = record {
  max_sandboxes = rd.max_sandboxes_per_workspace;
  max_sandbox_cpu = rd.max_sandbox_cpu;
  max_sandbox_memory = rd.max_sandbox_memory;
  max_idle_timeout = rd.max_idle_timeout;
  max_total_cpu = rd.ws_max_total_cpu;
  max_total_memory = rd.ws_max_total_memory;
  max_drive_size = rd.max_workspace_drive_size;
}

unfoldable pub overridden : Option WorkspaceQuota → WorkspaceDefaults → WorkspaceDefaults
overridden none wd = wd
overridden (some wq) wd = record {
  max_sandboxes = value_or wq.max_sandboxes wd.max_sandboxes;
  max_sandbox_cpu = value_or wq.max_sandbox_cpu wd.max_sandbox_cpu;
  max_sandbox_memory = value_or wq.max_sandbox_memory wd.max_sandbox_memory;
  max_idle_timeout = value_or wq.max_idle_timeout wd.max_idle_timeout;
  max_total_cpu = value_or wq.max_total_cpu wd.max_total_cpu;
  max_total_memory = value_or wq.max_total_memory wd.max_total_memory;
  max_drive_size = value_or wq.max_drive_size wd.max_drive_size;
}

unfoldable pub effective_workspace_defaults :
    ResourceDefaults → Result DbError (Option WorkspaceQuota) → Result DbError WorkspaceDefaults
unfolding overridden
effective_workspace_defaults rd quota = quota >>= λ wq. ok (overridden wq (workspace_defaults rd))

-- A user's quota: the row's max_workspaces, if there is a row and it is not NULL.
unfoldable pub effective_quota : ResourceDefaults → Result DbError (Option ℕ) → Result DbError ℕ
effective_quota rd quota = quota >>= λ uq. ok (value_or uq rd.max_workspaces_per_user)

-- `allowed`, `current` and `max` of a check
pub record Allowance : Type 0 where
  pub allowed : Bool
  pub current : ℕ
  pub max : ℕ

unfoldable pub allowance : ℕ → ℕ → Allowance
allowance current max =
    if max == 0
    then record { allowed = true; current = current; max = 0 }
    else record { allowed = ltb current max; current = current; max = max }

unfoldable pub check_workspace_quota :
    ResourceDefaults → Result DbError (Option ℕ) → Result DbError ℕ → Result DbError Allowance
unfolding effective_quota allowance
check_workspace_quota rd quota owned =
    effective_quota rd quota >>= λ max. owned >>= λ current. ok (allowance current max)

unfoldable pub check_sandbox_quota :
    ResourceDefaults
    → Result DbError (Option WorkspaceQuota)
    → Result DbError ℕ
    → Result DbError Allowance
unfolding effective_workspace_defaults allowance
check_sandbox_quota rd quota sandboxes = effective_workspace_defaults rd quota >>= λ wd.
    sandboxes >>= λ current. ok (allowance current wd.max_sandboxes)

-- What the sandboxes of a workspace use
pub record Usage : Type 0 where
  pub cpu : ℕ
  pub memory : ℕ

abbrev pub max_int64 : ℕ
max_int64 = 9_223_372_036_854_775_807

-- Whether the sum of two int64 that are not negative is above a limit. A sum past the largest int64 wraps
-- around to a negative number, which is above no limit.
unfoldable pub sum_above : ℕ → ℕ → ℕ → Bool
sum_above a b limit =
    let sum = (a + b) % 2 ^ 64 in if ltb max_int64 sum then false else ltb limit sum

unfoldable pub within_budget : WorkspaceDefaults → Usage → ℕ → ℕ → Bool
unfolding sum_above
within_budget wd used cpu_millis mem_bytes =
    if ltb 0 wd.max_total_cpu && sum_above used.cpu cpu_millis wd.max_total_cpu
    then false
    else if ltb 0 wd.max_total_memory && sum_above used.memory mem_bytes wd.max_total_memory
    then false
    else true

unfoldable pub check_workspace_resource_budget :
    ResourceDefaults
    → Result DbError (Option WorkspaceQuota)
    → Result DbError Usage
    → ℕ
    → ℕ
    → Result DbError Bool
unfolding effective_workspace_defaults within_budget
check_workspace_resource_budget rd quota usage cpu_millis mem_bytes =
    effective_workspace_defaults rd quota >>= λ wd.
    if wd.max_total_cpu == 0 && wd.max_total_memory == 0
    then ok true
    else usage >>= λ used. ok (within_budget wd used cpu_millis mem_bytes)
