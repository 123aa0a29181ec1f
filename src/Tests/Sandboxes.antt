-- ===== src/Tests/Sandboxes.antt =====
-- Workspaces at concrete inputs.
use minerva.Base.{ℕ, String, ◌≡◌, refl, Bool, true, false, none, some, ◌⊎◌}
use minerva.Dict.{get, set}
use minerva.Exec.{ok, err}
use minerva.Workspaces.{
  workspace_not_found, per_user, Workspace, WorkspaceManager, new, should_reuse,
  get_or_create_workspace, destroy_workspace, keep, mark_used, mark_destroyed, delete_first,
  create_workspace, create_provisioning_strategy,
}
use minerva.Workspaces.Destruction.{IsOffered, destroy_workspace_lem}
use minerva.Workspaces.Tracking.{IsTracked, IsKnown, get_or_create_workspace_lem, new-IsTracked}

abbrev all_there : String → Bool
all_there id = true

abbrev workspace : String → String → ℕ → Workspace
workspace id user now = record {
  id = id;
  user_id = user;
  created_at = now;
  last_used_at = now;
  is_reused = false;
  root_path = "/work";
}

abbrev m1 : WorkspaceManager
m1 = (get_or_create_workspace (new per_user) "ann" all_there (ok "w1") "/work" 3).0

get_or_create_workspace_lem_example :
    IsTracked m1 × IsKnown m1.workspaces "ann" (workspace "w1" "ann" 3)
unfolding get_or_create_workspace should_reuse create_workspace new create_provisioning_strategy get
get_or_create_workspace_lem_example =
    get_or_create_workspace_lem (new per_user) "ann" all_there (ok "w1") "/work" 3
      (workspace "w1" "ann" 3) false (new-IsTracked per_user) (λ id e. refl) refl

m1-IsTracked : IsTracked m1
unfolding get_or_create_workspace should_reuse create_workspace new create_provisioning_strategy get
m1-IsTracked =
    (get_or_create_workspace_lem (new per_user) "ann" all_there (ok "w1") "/work" 3
      (workspace "w1" "ann" 3) false (new-IsTracked per_user) (λ id e. refl) refl).0

destroy_workspace_lem_example :
    let (m', result) = destroy_workspace m1 "w1" true in
    IsTracked m'
    × (((get "w1" m1.workspaces ≡ none)
          × (result ≡ err (workspace_not_found "w1"))
          × (m' ≡ m1)
          × (¬ IsOffered m1 "w1"))
        ⊎ ((w : Workspace) × (get "w1" m1.workspaces ≡ some w)
            × (result ≡ ok tt)
            × ((◌≡◌ {A = Bool} true true × (get "w1" m'.workspaces ≡ none) × (¬ IsOffered m' "w1"))
                ⊎ (◌≡◌ {A = Bool} true false × (m' ≡ m1)))))
destroy_workspace_lem_example = destroy_workspace_lem m1 "w1" true m1-IsTracked

still_offered :
    should_reuse (destroy_workspace m1 "w2" true).0.strategy "ann" ≡ some (workspace "w1" "ann" 3)
unfolding destroy_workspace get_or_create_workspace should_reuse create_workspace keep mark_used new
    create_provisioning_strategy get set
still_offered = refl

not_offered : should_reuse (destroy_workspace m1 "w1" true).0.strategy "ann" ≡ none
unfolding destroy_workspace get_or_create_workspace should_reuse create_workspace keep mark_used
    mark_destroyed delete_first new create_provisioning_strategy get set
not_offered = refl
