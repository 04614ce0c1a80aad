-- ===== src/Rpc/Remote/Laws.antt =====
-- internal/rpc/remote_guard.go: the decisions of a guard that the wrapper implements.
use agent_util.Common.{◌≡◌, none, some, txt}
use agent_util.Engine.Exec.{ok}
use agent_util.Engine.Guard.{Guard}
use agent_util.Protocol.Message.{Response}
use agent_util.Protocol.Methods.{GuardExecuteResult}
use agent_util.Rpc.Remote
use agent_util.Rpc.Remote.{Codec, Reply, replied, Params, raw}

module _ (codec : Codec) where
  -- the wrapper answered, without an error, with a result whose decision is "allow"
  abbrev pub Allows : Reply → Type 0
  Allows reply =
      (resp : Response) × (r : GuardExecuteResult) × (reply ≡ replied (some resp))
      × (resp.error ≡ none)
      × (codec.guard_result (raw resp.result) ≡ ok r)
      × (r.decision ≡ txt "allow")
