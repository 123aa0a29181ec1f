-- ===== src/Workspaces/Destruction.antt =====
-- services/orchestrator/src/sandbox/workspace-manager.ts: what `destroyWorkspace` leaves.
use minerva.Base.{
  String, ◌≡◌, refl, if◌then◌else◌, Bool-cases, Bool, true, false, none, some, ◌⊎◌, arith, eq_iff,
  eq_refl, Option-cases, inl, inr,
}
use minerva.Dict.{get, delete, get-delete}
use minerva.Exec.{ok, err}
use minerva.Workspaces.{
  workspace_not_found, Workspace, WorkspaceManager, should_reuse, mark_destroyed, destroy_workspace,
}
use minerva.Workspaces.Tracking.{IsTracked, destroyed-kind}

-- The strategy offers some user the workspace `id`.
abbrev pub IsOffered : WorkspaceManager → String → Type 0
IsOffered m id = (u : String) × (w : Workspace) × (should_reuse m.strategy u ≡ some w) × (w.id ≡ id)

abbrev destroyed_manager : WorkspaceManager → String → WorkspaceManager
destroyed_manager m id = record {
  workspaces = delete id m.workspaces;
  strategy = mark_destroyed m.strategy id;
}

module _ (m : WorkspaceManager) (id : String) (destroyed : Bool) where
  destroy_absent :
      get id m.workspaces ≡ none
      → destroy_workspace m id destroyed ≡ (m, err (workspace_not_found id))
  unfolding destroy_workspace
  destroy_absent e = rw (destroy_workspace, e) refl

  destroy_found :
      (w : Workspace)
      → get id m.workspaces ≡ some w
      → destroy_workspace m id destroyed
        ≡ ((if destroyed then destroyed_manager m id else m), ok tt)
  unfolding destroy_workspace
  destroy_found w e = rw (destroy_workspace, e) refl

-- In a tracked manager, `destroyWorkspace` keeps the manager tracked. For a workspace that the manager
-- does not know, it fails and changes nothing, and no user was offered the workspace. For one that it
-- knows, it succeeds: if the client's call returns, then the manager does not know the workspace any
-- more and offers it to no user; if the client's call throws, nothing changes.
pub destroy_workspace_lem :
    (m : WorkspaceManager) (id : String) (destroyed : Bool)
    → IsTracked m
    → let (m', result) = destroy_workspace m id destroyed in
      IsTracked m'
      × (((get id m.workspaces ≡ none)
            × (result ≡ err (workspace_not_found id))
            × (m' ≡ m)
            × (¬ IsOffered m id))
          ⊎ ((w : Workspace) × (get id m.workspaces ≡ some w)
              × (result ≡ ok tt)
              × (((destroyed ≡ true) × (get id m'.workspaces ≡ none) × (¬ IsOffered m' id))
                  ⊎ ((destroyed ≡ false) × (m' ≡ m)))))
destroy_workspace_lem m id destroyed t = elim (Option-cases (get id m.workspaces)) [
  | inl e ↦
      rw (destroy_absent m id destroyed e)
        (t, inl (e, refl, refl, λ (u, w, h, p). let known = (t.known u w h).1 in cc))
  | inr (w, e) ↦ rw (destroy_found m id destroyed w e) (elim (Bool-cases destroyed) [
    | inl d ↦
        let (tracked, gone) =
          destroyed-kind m.strategy.kind m.strategy.workspaces m.workspaces id t in
        rw d (
          tracked,
          inr (
            w,
            e,
            refl,
            inl (
              refl,
              ground (arith, get-delete id id m.workspaces, eq_refl id),
              λ (u, v, h, p). let other = gone u v h in ground (arith, other, p, eq_iff v.id id),
            ),
          ),
        )
    | inr d ↦ rw d (t, inr (w, e, refl, inr (refl, refl)))
  ])
]
