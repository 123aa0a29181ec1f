-- ===== src/Workspaces/Tracking.antt =====
-- sandbox/workspace-manager.ts: the agreement of the manager with its strategy.
use minerva.Base.{
  IsDistinct, includes, ℕ, String, ◌≡◌, refl, subst, Bool, true, false, none, some, [], ◌∷◌, ◌==◌,
  arith, eq_iff, eq_refl, Option-cases, Bool-cases, inl, inr,
}
use minerva.Dict.Keys.{get_of_keys-false, set-IsDistinct}
use minerva.Dict.{Dict, keys, get, set, delete, get-set, get-delete}
use minerva.Exec.{Result, ok, err}
use minerva.Workspaces.{
  WorkspaceError, WorkspaceStrategy, per_run, per_user, Workspace, WorkspaceManager, new,
  should_reuse, mark_used, delete_first, mark_destroyed, keep, create_workspace,
  get_or_create_workspace,
}

-- What the strategy offers a user is a workspace of that user, and the manager knows it as it is.
abbrev pub IsKnown : Dict Workspace → String → Workspace → Type 0
IsKnown known u w = (w.user_id ≡ u) × (get w.id known ≡ some w)

pub record IsTracked (m : WorkspaceManager) : Type 0 where
  pub known :
      (u : String) (w : Workspace) → should_reuse m.strategy u ≡ some w → IsKnown m.workspaces u w
  pub distinct : IsDistinct (keys m.strategy.workspaces)

abbrev manager : WorkspaceStrategy → Dict Workspace → Dict Workspace → WorkspaceManager
manager kind reusable known = record {
  strategy = record { kind = kind; workspaces = reusable };
  workspaces = known;
}

-- Keeping a workspace whose id no other user's workspace has.
keep-IsTracked :
    (kind : WorkspaceStrategy) (reusable known : Dict Workspace) (w : Workspace)
    → IsTracked (manager kind reusable known)
    → ((v : Workspace) → get w.id known ≡ some v → v.user_id ≡ w.user_id)
    → IsTracked (keep (manager kind reusable known) w)
unfolding keep mark_used should_reuse
keep-IsTracked per_run reusable known w t own = record {
  known = λ u v h. cc;
  distinct = t.distinct;
}
keep-IsTracked per_user reusable known w t own = record {
  known = λ u v h. ground (
    arith,
    h,
    t.known u v,
    own v,
    get-set w.user_id u w reusable,
    get-set w.id v.id w known,
    eq_iff w.id v.id,
    eq_iff w.user_id u,
  );
  distinct = set-IsDistinct w.user_id w reusable t.distinct;
}

delete_first_lem :
    (es : Dict Workspace) (known : Dict Workspace) (id u : String) (v : Workspace)
    → IsDistinct (keys es)
    → ((u : String) (w : Workspace) → get u es ≡ some w → IsKnown known u w)
    → get u (delete_first id es) ≡ some v
    → (get u es ≡ some v) × ((v.id == id) ≡ false)
unfolding get keys delete_first
delete_first_lem [] known id u v d t h = absurd (cc h)
delete_first_lem ((k, w) ∷ es) known id u v d t h =
    let later : (j : String) (x : Workspace) → get j es ≡ some x → (k == j) ≡ false =
      λ j x e. ground (arith, e, d.0, get_of_keys-false k es d.0, eq_iff k j) in
    let rest : (j : String) (x : Workspace) → get j es ≡ some x → IsKnown known j x =
      λ j x e. t j x (rw (later j x e) e) in
    elim (Bool-cases (w.id == id)) [
      | inl b ↦
          let e : get u es ≡ some v = ground (arith, h, b) in
          let own = t k w (rw (eq_refl k) refl) in
          (
            rw (later u v e) e,
            ground (
              arith,
              rest u v e,
              own,
              later u v e,
              b,
              eq_iff w.id id,
              eq_iff v.id id,
              eq_iff k u,
            ),
          )
      | inr b ↦ ground (arith, h, b, delete_first_lem es known id u v d.1 rest)
    ]

includes-delete_first :
    (es : Dict Workspace) (id k : String)
    → includes k (keys es) ≡ false
    → includes k (keys (delete_first id es)) ≡ false
unfolding keys delete_first
includes-delete_first [] id k h = h
includes-delete_first ((j, w) ∷ es) id k h = ground (arith, h, includes-delete_first es id k)

delete_first-IsDistinct :
    (es : Dict Workspace) (id : String)
    → IsDistinct (keys es)
    → IsDistinct (keys (delete_first id es))
unfolding keys delete_first
delete_first-IsDistinct [] id d = d
delete_first-IsDistinct ((k, w) ∷ es) id d =
    ground (arith, d, delete_first-IsDistinct es id d.1, includes-delete_first es id k d.0)

pub destroyed-kind :
    (kind : WorkspaceStrategy) (reusable known : Dict Workspace) (id : String)
    → IsTracked (manager kind reusable known)
    → let left : WorkspaceManager = record {
      strategy = mark_destroyed (record { kind = kind; workspaces = reusable }) id;
      workspaces = delete id known;
    } in
      IsTracked left
      × ((u : String) (v : Workspace)
          → should_reuse left.strategy u ≡ some v
          → (v.id == id) ≡ false)
unfolding mark_destroyed should_reuse
destroyed-kind per_run reusable known id t =
    (record { known = λ u v h. cc; distinct = t.distinct }, λ u v h. cc)
destroyed-kind per_user reusable known id t =
    let gone : (u : String) (v : Workspace)
        → get u (delete_first id reusable) ≡ some v
        → (get u reusable ≡ some v) × ((v.id == id) ≡ false) =
      λ u v h. delete_first_lem reusable known id u v t.distinct t.known h in
    (
      record {
        known = λ u v h.
            let (e, b) = gone u v h in
            ground
              (arith, t.known u v e, b, get-delete id v.id known, eq_iff id v.id, eq_iff v.id id);
        distinct = delete_first-IsDistinct reusable id t.distinct;
      },
      λ u v h. (gone u v h).1,
    )

kept :
    (m : WorkspaceManager) (u : String) (v w : Workspace) (b reused : Bool)
    → IsTracked m
    → v.user_id ≡ u
    → ((x : Workspace) → get v.id m.workspaces ≡ some x → x.user_id ≡ v.user_id)
    → ◌≡◌ {A = Result WorkspaceError (Workspace × Bool)} (ok (v, b)) (ok (w, reused))
    → IsTracked (keep m v) × IsKnown (keep m v).workspaces u w
unfolding keep
kept m u v w b reused t mine own h =
    let p : v ≡ w = cc in
    (
      keep-IsTracked m.strategy.kind m.strategy.workspaces m.workspaces v t own,
      subst (IsKnown (set v.id v m.workspaces) u) p (mine, rw get-set (rw eq_refl)),
    )

made :
    (m : WorkspaceManager) (u : String) (created : Result String String) (root : String) (now : ℕ)
    (w : Workspace) (reused : Bool)
    → IsTracked m
    → ((id : String) → created ≡ ok id → get id m.workspaces ≡ none)
    → (create_workspace m u created root now).1 ≡ ok (w, reused)
    → let m' = (create_workspace m u created root now).0 in IsTracked m' × IsKnown m'.workspaces u w
unfolding create_workspace
made m u (err message) root now w reused t fresh h = absurd (cc h)
made m u (ok id) root now w reused t fresh h =
    kept m u
      (record {
        id = id;
        user_id = u;
        created_at = now;
        last_used_at = now;
        is_reused = false;
        root_path = root;
      })
      w false reused t refl (λ x f. ground (arith, f, fresh id refl)) h

-- In a tracked manager, where the client makes workspaces with new ids, if `getOrCreateWorkspace` gives a
-- workspace, then that is the user's, the manager knows it, and the manager stays tracked.
pub get_or_create_workspace_lem :
    (m : WorkspaceManager) (u : String) (still_there : String → Bool)
    (created : Result String String) (root : String) (now : ℕ) (w : Workspace) (reused : Bool)
    → IsTracked m
    → ((id : String) → created ≡ ok id → get id m.workspaces ≡ none)
    → (get_or_create_workspace m u still_there created root now).1 ≡ ok (w, reused)
    → let m' = (get_or_create_workspace m u still_there created root now).0 in
      IsTracked m' × IsKnown m'.workspaces u w
unfolding get_or_create_workspace
get_or_create_workspace_lem m u still_there created root now w reused t fresh =
    elim (Option-cases (should_reuse m.strategy u)) [
      | inl e ↦ rw (get_or_create_workspace, e) (made m u created root now w reused t fresh)
      | inr (v, e) ↦ elim (Bool-cases (still_there v.id)) [
        | inr b ↦
            rw (get_or_create_workspace, e) (rw b (made m u created root now w reused t fresh))
        | inl b ↦
            rw (get_or_create_workspace, e)
              (rw b (λ h.
                let k = t.known u v e in
                kept m u (record v { last_used_at = now; is_reused = true }) w true reused t k.0
                  (λ x f. ground (arith, f, k.1)) h))
      ]
    ]

-- A new manager is tracked, whatever its strategy.
pub new-IsTracked : (kind : WorkspaceStrategy) → IsTracked (new kind)
unfolding new should_reuse get keys
new-IsTracked per_run = record { known = λ u w h. cc; distinct = tt }
new-IsTracked per_user = record { known = λ u w h. cc; distinct = tt }
