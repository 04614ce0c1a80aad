-- ===== src/Engine/New/Fork/Laws.antt =====
-- What a child engine of Fork in internal/engine/engine.go may do.
use agent_util.Common.{ℕ, ◌≡◌, refl, false, Option, none, some, List, Text}
use agent_util.Common.Floats.{Floats}
use agent_util.Context.Estimate.{Unicode}
use agent_util.Engine.New.{new_engine, with_registry, checker_of, register_skills}
use agent_util.Engine.New.Fork.{fork_config, fork, with_skills, policy_of}
use agent_util.Engine.Registry.{
  Tool, Registry, register_all, register_each, new_registry, registered_tools,
}
use agent_util.Engine.Registry.Laws.{register_all-registered_tools}
use agent_util.Engine.Permission.{PermissionChecker, PermissionPolicy}
use agent_util.Engine.State.{Outside, Engine, State}

module _ (fl : Floats) (u : Unicode) {W : Type 0} (out : Outside W)
    (marshal_indent : Text → Option Text) (e : Engine fl W) where
  checker_of-approver :
      (policy : Option PermissionPolicy) (pc : PermissionChecker W)
      → checker_of fl u marshal_indent policy none ≡ some pc
      → pc.approver ≡ none
  checker_of-approver none pc h = cc
  checker_of-approver (some policy) pc h = cc

  abbrev pub IsSafe : Option (Engine fl W × State fl W) → Type 0
  IsSafe r =
      (child : Engine fl W) × (s : State fl W) × (r ≡ some (child, s))
      × (child.registry ≡ e.registry)
      × (child.delegate_enabled ≡ false)
      × (child.coordinator_enabled ≡ false)
      × ((pc : PermissionChecker W) → child.perm_checker ≡ some pc → pc.approver ≡ none)

  registered-IsSafe :
      (token_limit : ℕ) (prompt : Text) (dir : Option Text) (w : W) (r : Option (Registry W))
      → r ≡ some e.registry
      → IsSafe (
          with_skills fl u out marshal_indent e (
            with_registry fl u marshal_indent e.completer e.streamer
              (fork_config fl u out marshal_indent e token_limit prompt dir)
              w
              r))
  unfolding fork_config register_skills
  registered-IsSafe token_limit prompt dir w none h = cc
  registered-IsSafe token_limit prompt dir w (some r) h =
      let same : r ≡ e.registry = cc in
      (_, _, refl, same, refl, refl, checker_of-approver (policy_of e.perm_checker))

  -- If any registrations filled the parent's registry, then a fork succeeds, and the child has its
  -- parent's registry, the virtual tools are switched off, and nobody approves a call that the
  -- rules leave open.
  pub fork-IsSafe :
      (tools : List (Tool W)) (token_limit : ℕ) (prompt : Text) (dir : Option Text) (w : W)
      → e.registry ≡ register_each tools new_registry
      → IsSafe (fork fl u out marshal_indent e token_limit prompt dir w)
  unfolding fork new_engine fork_config
  fork-IsSafe tools token_limit prompt dir w h =
      registered-IsSafe token_limit prompt dir w
        (register_all (registered_tools e.registry) new_registry)
        (rw h (register_all-registered_tools tools))
