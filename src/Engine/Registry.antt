-- ===== src/Engine/Registry.antt =====
-- internal/engine/registry.go, with the types of pkg/tool/tool.go. A tool may use the outside
-- world `W`. On a name of `order` without a tool, `Tools` would have a nil tool and `Definitions`
-- would panic; the model leaves such a name out. `MaxTools` and the budgets are not negative.
pub mod Laws
pub mod Scope
use agent_util.Common.{
  ℕ, suc, ◌-◌, Bool, true, false, not, ◌&&◌, ◌||◌, Option, none, some, List, [], ◌∷◌, ◌++◌, Text,
  txt, ltb, leb, ◌==◌, if◌then◌else◌, length, take, keep_if, min, Map, lookup, insert, text_key,
}

pub record ToolResult : Type 0 where
  pub content : Text
  pub is_error : Bool

-- what Execute returns: a result, or an error
pub data Executed : Type 0 where
  executed : ToolResult → Executed
  broken : Text → Executed

-- `execute` takes the working directory that the context carries, if any, and the arguments
pub record Tool (W : Type 0) : Type 0 where
  pub name : Text
  pub description : Text
  pub parameters : Text
  pub is_read_only : Bool
  pub execute : Text → Text → W → Executed × W

pub record Definition : Type 0 where
  pub name : Text
  pub description : Text
  pub parameters : Text
  pub read_only : Bool

pub record ToolScope : Type 0 where
  pub max_tools : ℕ
  pub include_always : Map Text Bool
  pub tool_budget : Map Text ℕ

pub record Registry (W : Type 0) : Type 0 where
  pub tools : Map Text (Tool W)
  pub order : List Text

-- the values of a Go map at a missing key
abbrev false_if_missing : Option Bool → Bool
false_if_missing none = false
false_if_missing (some b) = b

abbrev pub zero_if_missing : Option ℕ → ℕ
zero_if_missing none = 0
zero_if_missing (some n) = n

module _ {W : Type 0} where
  unfoldable pub definition_of : Tool W → Definition
  definition_of t = record {
    name = t.name;
    description = t.description;
    parameters = t.parameters;
    read_only = t.is_read_only;
  }

  abbrev pub new_registry : Registry W
  new_registry = record { tools = []; order = [] }

  abbrev register_unless : Option (Tool W) → Tool W → Registry W → Option (Registry W)
  register_unless (some old) t r = none
  register_unless none t r =
      some (record { tools = insert t.name t r.tools; order = r.order ++ (t.name ∷ []) })

  -- Register: `none` is the error of a duplicate name
  unfoldable pub register : Tool W → Registry W → Option (Registry W)
  register t r = register_unless (lookup t.name r.tools) t r

  abbrev and_then : Option (Registry W) → (Registry W → Option (Registry W)) → Option (Registry W)
  and_then none rest = none
  and_then (some r) rest = rest r

  -- the loop of New over the configured tools, which the first error ends
  unfoldable pub register_all : List (Tool W) → Registry W → Option (Registry W)
  register_all [] r = some r
  register_all (t ∷ ts) r = and_then (register t r) (λ r'. register_all ts r')

  abbrev pub registered_or : Registry W → Option (Registry W) → Registry W
  registered_or r none = r
  registered_or r (some r') = r'

  -- the loop of New over the tools of the skills, which logs an error and goes on
  unfoldable pub register_each : List (Tool W) → Registry W → Registry W
  register_each [] r = r
  register_each (t ∷ ts) r = register_each ts (registered_or r (register t r))

  -- Get and Len
  unfoldable pub get : Text → Registry W → Option (Tool W)
  get name r = lookup name r.tools

  unfoldable pub len : Registry W → ℕ
  len r = length r.tools

  abbrev cons_found : Option (Tool W) → List (Tool W) → List (Tool W)
  cons_found none rest = rest
  cons_found (some t) rest = t ∷ rest

  unfoldable pub tools_of : List Text → Map Text (Tool W) → List (Tool W)
  tools_of [] m = []
  tools_of (name ∷ names) m = cons_found (lookup name m) (tools_of names m)

  -- Tools
  unfoldable pub registered_tools : Registry W → List (Tool W)
  registered_tools r = tools_of r.order r.tools

  unfoldable pub definitions_from : List (Tool W) → List Definition
  definitions_from [] = []
  definitions_from (t ∷ ts) = definition_of t ∷ definitions_from ts

  -- Definitions
  unfoldable pub definitions : Registry W → List Definition
  definitions r = definitions_from (registered_tools r)

-- the calls of a run have reached the budget of the tool
unfoldable pub is_over_budget : ToolScope → Map Text ℕ → Definition → Bool
is_over_budget scope calls d =
    let limit = zero_if_missing (lookup d.name scope.tool_budget) in
    ltb 0 limit && leb limit (zero_if_missing (lookup d.name calls))

unfoldable pub within_budget : ToolScope → Option (Map Text ℕ) → List Definition → List Definition
within_budget scope none defs = defs
within_budget scope (some calls) defs =
    if ltb 0 (length scope.tool_budget)
    then keep_if (λ d. not (is_over_budget scope calls d)) defs
    else defs

unfoldable pub is_always : ToolScope → Definition → Bool
is_always scope d = false_if_missing (lookup d.name scope.include_always)

-- the tools that are always included, and the first of the others in the places that are left
unfoldable pub limited : ToolScope → List Definition → List Definition
limited scope defs =
    let always = keep_if (is_always scope) defs in
    let rest = keep_if (λ d. not (is_always scope d)) defs in
    if scope.max_tools == 0 || leb (length defs) scope.max_tools
    then defs
    else always ++ take (min (scope.max_tools - length always) (length rest)) rest

-- the selection of ScopedFormatForPromptWithCalls
unfoldable pub scoped_definitions :
    ToolScope → Option (Map Text ℕ) → List Definition → List Definition
scoped_definitions scope calls defs = limited scope (within_budget scope calls defs)

-- json.MarshalIndent of a raw message with two spaces; `none` is its error
module _ (marshal_indent : Text → Option Text) where
  abbrev indented_or : Text → Option Text → Text
  indented_or raw none = raw
  indented_or raw (some indented) = indented

  unfoldable pub format_def : Definition → Text
  format_def d =
      txt "### "
      ++ (d.name
          ++ (txt "\n"
              ++ (d.description
                  ++ (txt "\nParameters:\n```json\n"
                      ++ (indented_or d.parameters (marshal_indent d.parameters)
                          ++ txt "\n```\n\n")))))

  unfoldable pub format_each : List Definition → Text
  format_each [] = []
  format_each (d ∷ ds) = format_def d ++ format_each ds

  -- formatDefs
  unfoldable pub format_defs : List Definition → Text
  format_defs [] = []
  format_defs (d ∷ ds) = txt "## Available Tools\n\n" ++ format_each (d ∷ ds)

  module _ {W : Type 0} where
    unfoldable pub format_for_prompt : Registry W → Text
    format_for_prompt r = format_defs (definitions r)

    -- ScopedFormatForPromptWithCalls
    unfoldable pub scoped_format_for_prompt : ToolScope → Option (Map Text ℕ) → Registry W → Text
    scoped_format_for_prompt scope calls r =
        format_defs (scoped_definitions scope calls (definitions r))
