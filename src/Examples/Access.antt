-- ===== src/Examples/Access.antt =====
-- Properties of errors, guards, permissions, verifiers and tools at concrete inputs.
use agent_util.Common.{
  ℕ, suc, ◌≡◌, ◌↔◌, ◌⊎◌, true, false, some, List, [], ◌∷◌, Text, txt, text_eq, Map,
}
use agent_util.Llm.Message.{no_usage}
use agent_util.Engine.Errors.{
  Error, transient, llm_recoverable, router_parse, wrap, empty_response, is_canceled, is_tripwire,
  is_router_parse, is_empty_response, classify_error, classify_error_lem,
}
use agent_util.Engine.Guard.{allow, run_guards}
use agent_util.Engine.Guard.Laws.{Passing, run_guards_allow_iff}
use agent_util.Engine.Permission.{perm_allowed, check_permission, find_rule}
use agent_util.Engine.Permission.Laws.{
  Names, Approves, AuditAgrees, check_permission_allowed_iff, check_permission_audited,
}
use agent_util.Engine.Verify.{Verifier, run_all}
use agent_util.Engine.Verify.Laws.{Accepting, run_all_passed_iff}
use agent_util.Engine.Registry.{
  Tool, Executed, Definition, definitions, registered_tools, register_each, register_all,
  new_registry, ToolScope, definition_of,
}
use agent_util.Engine.Registry.Laws.{register_all-registered_tools}
use agent_util.Engine.State.{RouterResponse}
use agent_util.Engine.Step.{with_tool}
use agent_util.Engine.Step.Access.{with_tool-blocked}
use agent_util.Examples.Setting.{
  fixed_point, latin, allowing, refusing, no_shell, shell, reader, engine, surroundings, fresh,
}

run_guards_allow_iff_example :
    ((run_guards (λ (w : ℕ). false) (txt "hi") (txt "ok") (allowing ∷ refusing ∷ []) 0).0.decision
      ≡ allow)
    ↔ ((w' : ℕ) × Passing (λ (w : ℕ). false) (txt "hi") (allowing ∷ refusing ∷ []) 0 w')
run_guards_allow_iff_example =
    run_guards_allow_iff (λ w. false) (txt "hi") (txt "ok") (allowing ∷ refusing ∷ []) 0

abbrev bad_verifier : Verifier ℕ
bad_verifier = record {
  name = txt "bad";
  verify = λ tool args result w. (agent_util.Engine.Verify.broken (txt "no"), suc w);
}

run_all_passed_iff_example :
    ((run_all
        (λ (w : ℕ). false)
        (txt "shell")
        (txt "{}")
        (txt "out")
        (bad_verifier ∷ [])
        0).0.passed
      ≡ true)
    ↔ ((w' : ℕ) × Accepting
          (λ (w : ℕ). false)
          (txt "shell")
          (txt "{}")
          (txt "out")
          (bad_verifier ∷ [])
          0
          w')
run_all_passed_iff_example =
    run_all_passed_iff (λ w. false) (txt "shell") (txt "{}") (txt "out") (bad_verifier ∷ []) 0

check_permission_allowed_iff_example :
    ((check_permission (txt "reader") (txt "{}") true no_shell 0).0 ≡ perm_allowed) ↔ (
      (Names (txt "reader") no_shell.policy.deny_rules → ⊥)
      × (Names (txt "reader") no_shell.policy.allow_rules
          ⊎ ((true ≡ true) ⊎ Approves (txt "reader") (txt "{}") true no_shell 0)))
check_permission_allowed_iff_example =
    check_permission_allowed_iff (txt "reader") (txt "{}") true no_shell 0

check_permission_audited_example :
    AuditAgrees
      (txt "shell")
      (txt "{}")
      false
      no_shell
      0
      (check_permission (txt "shell") (txt "{}") false no_shell 0)
check_permission_audited_example =
    check_permission_audited (txt "shell") (txt "{}") false no_shell 0

abbrev lost : Error
lost = router_parse empty_response

classify_error_lem_example :
    (classify_error (wrap (txt "tool step") lost) ≡ classify_error lost)
    × (classify_error lost ≡ transient
        → (is_canceled lost ≡ false)
          × (is_tripwire lost ≡ false)
          × ((is_router_parse lost ≡ true) ⊎ (is_empty_response lost ≡ true)))
    × (is_canceled lost ≡ false
        → is_tripwire lost ≡ false
        → (is_router_parse lost ≡ true) ⊎ (is_empty_response lost ≡ true)
        → classify_error lost ≡ transient)
    × (classify_error lost ≡ llm_recoverable → false ≡ true)
classify_error_lem_example = classify_error_lem (txt "tool step") lost

register_all-registered_tools_example :
    register_all
      (registered_tools (register_each (shell ∷ reader ∷ shell ∷ []) new_registry))
      new_registry
    ≡ some (register_each (shell ∷ reader ∷ shell ∷ []) new_registry)
register_all-registered_tools_example = register_all-registered_tools (shell ∷ reader ∷ shell ∷ [])

abbrev scope : ToolScope
scope = record {
  max_tools = 1;
  include_always = (txt "reader", true) ∷ [];
  tool_budget = (txt "shell", 1) ∷ [];
}

abbrev counts : Map Text ℕ
counts = (txt "shell", 1) ∷ []

abbrev both : List Definition
both = definition_of shell ∷ definition_of reader ∷ []

abbrev chosen : RouterResponse
chosen = record { tool = txt "shell"; arguments = txt "{}"; reasoning = [] }

abbrev nothing : Text → Text → ℕ → Executed × ℕ
nothing dir args w = (agent_util.Engine.Registry.broken [], w)

shell_denied : (check_permission (txt "shell") (txt "{}") false no_shell 0).0 ≡ perm_allowed → ⊥
unfolding check_permission find_rule text_eq txt
shell_denied h = cc

with_tool-blocked_example :
    ((with_tool fixed_point latin surroundings engine
        (some shell)
        chosen
        no_usage
        fresh).1.tool_calls
      ≡ fresh.tool_calls)
    × (with_tool fixed_point latin surroundings engine
          (some (record shell { execute = nothing }))
          chosen
          no_usage
          fresh
        ≡ with_tool fixed_point latin surroundings engine (some shell) chosen no_usage fresh)
with_tool-blocked_example =
    with_tool-blocked fixed_point latin surroundings engine shell chosen no_usage fresh nothing
      (λ p. shell_denied p.0)
