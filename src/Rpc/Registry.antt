-- ===== src/Rpc/Registry.antt =====
-- internal/rpc/remote_registry.go: the guards, verifiers and judges that the wrapper registered, by
-- their names. A judge stands with its name, which its interface does not give.
use agent_util.Common.{ℕ, Option, [], Text, Map, lookup, insert, text_key}
use agent_util.Engine.Guard.{Guard}
use agent_util.Engine.State.{Judged}
use agent_util.Engine.Verify.{Verifier}

pub record RemoteRegistry (W : Type 0) : Type 0 where
  pub input_guards : Map Text (Guard W Text)
  pub tool_call_guards : Map Text (Guard W (Text × Text))
  pub output_guards : Map Text (Guard W Text)
  pub verifiers : Map Text (Verifier W)
  pub goal_judges : Map Text (Text → ℕ → W → Judged × W)

module _ {W : Type 0} where
  abbrev pub new_remote_registry : RemoteRegistry W
  new_remote_registry = record {
    input_guards = [];
    tool_call_guards = [];
    output_guards = [];
    verifiers = [];
    goal_judges = [];
  }

  unfoldable pub add_input_guard : Guard W Text → RemoteRegistry W → RemoteRegistry W
  add_input_guard g r = record r { input_guards = insert g.name g r.input_guards }

  unfoldable pub add_tool_call_guard : Guard W (Text × Text) → RemoteRegistry W → RemoteRegistry W
  add_tool_call_guard g r = record r { tool_call_guards = insert g.name g r.tool_call_guards }

  unfoldable pub add_output_guard : Guard W Text → RemoteRegistry W → RemoteRegistry W
  add_output_guard g r = record r { output_guards = insert g.name g r.output_guards }

  unfoldable pub add_verifier : Verifier W → RemoteRegistry W → RemoteRegistry W
  add_verifier v r = record r { verifiers = insert v.name v r.verifiers }

  unfoldable pub add_goal_judge :
      Text → (Text → ℕ → W → Judged × W) → RemoteRegistry W → RemoteRegistry W
  add_goal_judge name j r = record r { goal_judges = insert name j r.goal_judges }

  unfoldable pub lookup_input_guard : Text → RemoteRegistry W → Option (Guard W Text)
  lookup_input_guard name r = lookup name r.input_guards

  unfoldable pub lookup_tool_call_guard : Text → RemoteRegistry W → Option (Guard W (Text × Text))
  lookup_tool_call_guard name r = lookup name r.tool_call_guards

  unfoldable pub lookup_output_guard : Text → RemoteRegistry W → Option (Guard W Text)
  lookup_output_guard name r = lookup name r.output_guards

  unfoldable pub lookup_verifier : Text → RemoteRegistry W → Option (Verifier W)
  lookup_verifier name r = lookup name r.verifiers

  unfoldable pub lookup_goal_judge : Text → RemoteRegistry W → Option (Text → ℕ → W → Judged × W)
  lookup_goal_judge name r = lookup name r.goal_judges
