-- ===== src/Workspaces.antt =====
-- services/orchestrator/src/sandbox/strategy.ts and workspace-manager.ts: which workspace a user gets, and
-- what is known of the workspaces that there are. The client of the sandbox service is third-party
-- code: what it answers is an argument of the call that asks it.
pub mod Destruction
pub mod Tracking
use minerva.Base.{
  ℕ, String, Bool, true, false, Option, none, some, List, [], ◌∷◌, ◌==◌, if◌then◌else◌,
}
use minerva.Dict.{Dict, get, set, delete, keys}
use minerva.Exec.{Result, ok, err}

pub data WorkspaceStrategy : Type 0 where
  per_run per_user : WorkspaceStrategy

pub record Workspace : Type 0 where
  pub id : String
  pub user_id : String
  pub created_at : ℕ
  pub last_used_at : ℕ
  pub is_reused : Bool
  pub root_path : String

-- The map of `PerUserStrategy`; `PerRunStrategy` does not use it.
pub record ProvisioningStrategy : Type 0 where
  pub kind : WorkspaceStrategy
  pub workspaces : Dict Workspace

pub record WorkspaceManager : Type 0 where
  pub strategy : ProvisioningStrategy
  pub workspaces : Dict Workspace

pub data WorkspaceError : Type 0 where
  workspace_not_found : String → WorkspaceError
  workspace_creation : String → String → WorkspaceError

unfoldable pub create_provisioning_strategy : WorkspaceStrategy → ProvisioningStrategy
create_provisioning_strategy kind = record { kind = kind; workspaces = [] }

unfoldable pub new : WorkspaceStrategy → WorkspaceManager
unfolding create_provisioning_strategy
new kind = record { strategy = create_provisioning_strategy kind; workspaces = [] }

unfoldable pub should_reuse : ProvisioningStrategy → String → Option Workspace
should_reuse s user_id = elim s.kind [ per_run ↦ none | per_user ↦ get user_id s.workspaces ]

unfoldable pub mark_used : ProvisioningStrategy → Workspace → ProvisioningStrategy
mark_used s workspace = elim s.kind [
  | per_run ↦ s
  | per_user ↦ record s { workspaces = set workspace.user_id workspace s.workspaces }
]

-- The loop with its `break`: the first entry of the workspace goes.
unfoldable pub delete_first : String → Dict Workspace → Dict Workspace
delete_first workspace_id [] = []
delete_first workspace_id ((user_id, workspace) ∷ entries) =
    if workspace.id == workspace_id
    then entries
    else (user_id, workspace) ∷ delete_first workspace_id entries

unfoldable pub mark_destroyed : ProvisioningStrategy → String → ProvisioningStrategy
unfolding delete_first
mark_destroyed s workspace_id = elim s.kind [
  | per_run ↦ s
  | per_user ↦ record s { workspaces = delete_first workspace_id s.workspaces }
]

-- `this.workspaces.set(...)` and `markUsed`.
unfoldable pub keep : WorkspaceManager → Workspace → WorkspaceManager
keep m workspace = record {
  workspaces = set workspace.id workspace m.workspaces;
  strategy = mark_used m.strategy workspace;
}

unfoldable pub create_workspace :
    WorkspaceManager
    → String
    → Result String String
    → String
    → ℕ
    → WorkspaceManager × Result WorkspaceError (Workspace × Bool)
create_workspace m user_id (err message) root_path now =
    (m, err (workspace_creation message user_id))
create_workspace m user_id (ok id) root_path now =
    let workspace : Workspace = record {
      id = id;
      user_id = user_id;
      created_at = now;
      last_used_at = now;
      is_reused = false;
      root_path = root_path;
    } in
    (keep m workspace, ok (workspace, false))

-- `still_there` says which workspaces the client finds; `created` is the id of the workspace that the
-- client makes, or the message of what it throws.
unfoldable pub get_or_create_workspace :
    WorkspaceManager
    → String
    → (String → Bool)
    → Result String String
    → String
    → ℕ
    → WorkspaceManager × Result WorkspaceError (Workspace × Bool)
unfolding create_workspace
get_or_create_workspace m user_id still_there created root_path now =
    elim (should_reuse m.strategy user_id) [
      | none ↦ create_workspace m user_id created root_path now
      | some existing ↦
          let workspace = record existing { last_used_at = now; is_reused = true } in
          if still_there existing.id
          then (keep m workspace, ok (workspace, true))
          else create_workspace m user_id created root_path now
    ]

unfoldable pub get_workspace : WorkspaceManager → String → Result WorkspaceError Workspace
get_workspace m workspace_id = elim (get workspace_id m.workspaces) [
  | none ↦ err (workspace_not_found workspace_id)
  | some workspace ↦ ok workspace
]

-- `destroyed` says whether the client's call returned; what it throws is logged.
unfoldable pub destroy_workspace :
    WorkspaceManager → String → Bool → WorkspaceManager × Result WorkspaceError Unit
destroy_workspace m workspace_id destroyed = elim (get workspace_id m.workspaces) [
  | none ↦ (m, err (workspace_not_found workspace_id))
  | some workspace ↦ (
    if destroyed
        then record {
          workspaces = delete workspace_id m.workspaces;
          strategy = mark_destroyed m.strategy workspace_id;
        }
        else m,
    ok tt,
  )
]

-- `destroyWorkspace` for each of the ids, whose errors are logged.
unfoldable pub destroy_each : WorkspaceManager → List String → (String → Bool) → WorkspaceManager
unfolding destroy_workspace
destroy_each m [] destroyed = m
destroy_each m (id ∷ ids) destroyed =
    destroy_each (destroy_workspace m id (destroyed id)).0 ids destroyed

unfoldable pub destroy_all_workspaces : WorkspaceManager → (String → Bool) → WorkspaceManager
unfolding destroy_each
destroy_all_workspaces m destroyed = destroy_each m (keys m.workspaces) destroyed
