-- ===== src/Rpc/Pending.antt =====
-- internal/rpc/pending.go. A channel of capacity one is a cell of a heap: what is buffered, and
-- whether it is closed. A send on a full channel blocks and one on a closed channel panics, as does
-- the close of a closed channel.
pub mod Laws
use agent_util.Common.{
  ℕ, suc, ◌==◌, Bool, true, false, Option, none, some, List, [], ◌∷◌, if◌then◌else◌, length, Map,
  lookup, insert, delete, ℤ, int_key,
}
use agent_util.Protocol.Message.{Response}

pub record Channel : Type 0 where
  pub buffer : Option Response
  pub closed : Bool

-- make(chan *protocol.Response, 1)
abbrev pub new_channel : Channel
new_channel = record { buffer = none; closed = false }

pub record PendingRequests : Type 0 where
  pub pending : Map ℤ ℕ
  pub channels : ℕ → Channel
  pub next_channel : ℕ

abbrev pub new_pending_requests : PendingRequests
new_pending_requests = record { pending = []; channels = λ _. new_channel; next_channel = 0 }

-- what an operation on channels comes to
pub data Outcome (A : Type 0) : Type 0 where
  done : A → Outcome A
  blocks panics : Outcome A

unfoldable pub update : (ℕ → Channel) → ℕ → Channel → ℕ → Channel
update channels ch c k = if ch == k then c else channels k

-- ch <- resp
unfoldable pub send : ℕ → Response → PendingRequests → Outcome PendingRequests
send ch resp p = if (p.channels ch).closed then panics else elim (p.channels ch).buffer [
  | some waiting ↦ blocks
  | none ↦
      done (record p {
        channels = update p.channels ch (record { buffer = some resp; closed = false });
      })
]

-- close(ch)
unfoldable pub close : ℕ → (ℕ → Channel) → Outcome (ℕ → Channel)
close ch channels =
    if (channels ch).closed
    then panics
    else done (update channels ch (record { buffer = (channels ch).buffer; closed = true }))

-- Register, with the channel that it returns
unfoldable pub register : ℤ → PendingRequests → ℕ × PendingRequests
register id p = (
  p.next_channel,
  record {
    pending = insert id p.next_channel p.pending;
    channels = update p.channels p.next_channel new_channel;
    next_channel = suc p.next_channel;
  },
)

unfoldable pub resolve_found : Option ℕ → ℤ → Response → PendingRequests → Outcome PendingRequests
resolve_found none id resp p = done p
resolve_found (some ch) id resp p = send ch resp (record p { pending = delete id p.pending })

-- Resolve
unfoldable pub resolve : Option ℤ → Response → PendingRequests → Outcome PendingRequests
resolve none resp p = done p
resolve (some id) resp p = resolve_found (lookup id p.pending) id resp p

-- the loop of CancelAll over the entries
unfoldable pub close_all : Map ℤ ℕ → (ℕ → Channel) → Outcome (ℕ → Channel)
close_all [] channels = done channels
close_all ((id, ch) ∷ rest) channels = elim (close ch channels) [
  | done closed ↦ close_all rest closed
  | blocks ↦ blocks
  | panics ↦ panics
]

-- CancelAll, which deletes every entry
unfoldable pub cancel_all : PendingRequests → Outcome PendingRequests
cancel_all p = elim (close_all p.pending p.channels) [
  | done channels ↦ done (record p { pending = []; channels = channels })
  | blocks ↦ blocks
  | panics ↦ panics
]

-- Len
unfoldable pub len : PendingRequests → ℕ
len p = length p.pending
