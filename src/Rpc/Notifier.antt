-- ===== src/Rpc/Notifier.antt =====
-- internal/rpc/notifier.go: the notifications of a run. `notify` is Notify of the server, whose error
-- the callers ignore.
use agent_util.Common.{ℕ, Text, txt}
use agent_util.Engine.State.{ContextStatus}

-- StreamDeltaParams, StreamEndParams and ContextStatusParams
pub data Notification (Float : Type 0) : Type 0 where
  delta : Text → ℕ → Notification Float
  ended : Text → ℕ → Notification Float
  status : ContextStatus Float → Notification Float

module _ {Float W : Type 0} (notify : Text → Notification Float → W → W) where
  unfoldable pub stream_delta : Text → ℕ → W → W
  stream_delta text turn = notify (txt "stream.delta") (delta text turn)

  unfoldable pub stream_end : Text → ℕ → W → W
  stream_end reason turns = notify (txt "stream.end") (ended reason turns)

  unfoldable pub context_status_with_event : ContextStatus Float → W → W
  context_status_with_event s = notify (txt "context.status") (status s)
