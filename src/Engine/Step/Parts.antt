-- ===== src/Engine/Step/Parts.antt =====
-- internal/engine/engine.go: what the parts of a step share.
use agent_util.Common.{none, [], Text, text_key}
use agent_util.Common.Floats.{Floats}
use agent_util.Llm.Message.{Message, Usage}
use agent_util.Context.Manager.{}
use agent_util.Engine.Errors.{}
use agent_util.Engine.Exec.{}
use agent_util.Engine.Guard.{}
use agent_util.Engine.Permission.{}
use agent_util.Engine.Registry.{}
use agent_util.Engine.State.{continue, terminal, LoopResult, State}

-- a call that uses the outside world
abbrev pub with_world : {fl : Floats} {W A : Type 0} → (W → A × W) → State fl W → A × State fl W
with_world f s = let (a, w) = f s.world in (a, record s { world = w })

abbrev pub completed : Text → Message → Usage → LoopResult
completed reason msg usage = record {
  kind = terminal;
  reason = reason;
  message = msg;
  usage = usage;
}

abbrev pub going_on : Text → Usage → LoopResult
going_on reason usage = record {
  kind = continue;
  reason = reason;
  message = record { role = []; content = none; tool_calls = []; tool_call_id = [] };
  usage = usage;
}
