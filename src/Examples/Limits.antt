-- ===== src/Examples/Limits.antt =====
-- Quotas of one workspace.
use cli_server.Common.{
  ◌≡◌, refl, true, none, some, [], ◌∷◌, ok, if◌then◌else◌, ◌==◌, string_eq, arith,
}
use cli_server.Quota.{
  Layer, Parsers, WorkspaceQuota, Allowance, get_resource_defaults, check_sandbox_quota, overridden,
  workspace_defaults, override_int,
}
use cli_server.Quota.Budget.{admit_all, IsWithin, admit_all-IsWithin}

-- Stand-ins for the parsers: the only integer they know is "3", and no legacy format.
abbrev parsers : Parsers
parsers = record {
  atoi = λ s. if s == "3" then some 3 else none;
  cpu_millicores = λ s. 0;
  memory_bytes = λ s. 0;
  duration_seconds = λ s. 0;
}

abbrev unset : Layer
unset = record {
  max_workspaces = "";
  max_sandboxes = "";
  drive_size = "";
  sandbox_cpu = "";
  sandbox_memory = "";
  idle_timeout = "";
  total_cpu = "";
  total_memory = "";
  total_idle_timeout = "";
}

abbrev settings : Layer
settings = record unset { max_sandboxes = "3" }

abbrev quota : WorkspaceQuota
quota = record {
  max_sandboxes = none;
  max_sandbox_cpu = none;
  max_sandbox_memory = none;
  max_idle_timeout = none;
  max_total_cpu = some 4_000;
  max_total_memory = none;
  max_drive_size = none;
}

abbrev allowed : Allowance
allowed = record { allowed = true; current = 2; max = 3 }

sandbox_allowed :
    check_sandbox_quota (get_resource_defaults parsers unset settings) (ok (some quota)) (ok 2)
    ≡ ok allowed
unfolding check_sandbox_quota get_resource_defaults override_int
sandbox_allowed = refl

idle-IsWithin :
    IsWithin
      (overridden (some quota) (workspace_defaults (get_resource_defaults parsers unset settings)))
      (record { cpu = 0; memory = 0 })
idle-IsWithin = record { within_cpu = λ h. omega arith; within_memory = λ h. omega arith }

admit_all-IsWithin_example :
    IsWithin
      (overridden (some quota) (workspace_defaults (get_resource_defaults parsers unset settings)))
      (admit_all
        (get_resource_defaults parsers unset settings)
        (some quota)
        ((3_000, 5) ∷ (2_000, 5) ∷ [])
        (record { cpu = 0; memory = 0 }))
unfolding overridden get_resource_defaults cli_server.Quota.override_resource
admit_all-IsWithin_example =
    admit_all-IsWithin (get_resource_defaults parsers unset settings) (some quota)
      ((3_000, 5) ∷ (2_000, 5) ∷ []) (record { cpu = 0; memory = 0 }) (omega arith) idle-IsWithin
