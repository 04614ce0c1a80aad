-- ===== src/Engine/Registry/Scope.antt =====
-- What the scope of internal/engine/registry.go selects for the router.
use agent_util.Common.{ℕ, ◌-◌, not, List, length, keep_if, min, text_key}
use agent_util.Engine.Registry.{Definition, ToolScope, is_always}

module _ (scope : ToolScope) (defs : List Definition) where
  abbrev always : List Definition
  always = keep_if (is_always scope) defs

  abbrev others : List Definition
  others = keep_if (λ d. not (is_always scope d)) defs

  abbrev places : ℕ
  places = min (scope.max_tools - length always) (length others)
