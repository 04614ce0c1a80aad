-- ===== src/Rpc/Handlers/Runs.antt =====
-- internal/rpc/handlers.go: the orders in which concurrent calls of agent.run and agent.abort take
-- the lock `runMu`. A run has the number of its context; what it does to the engine between its
-- start and its deferred function is an event of its own.
pub mod Exclusion
use agent_util.Common.{
  ℕ, suc, ◌<◌, if◌then◌else◌, ◌≡◌, refl, sym, ap, ◌∙◌, false≢true, All-map, ◌==◌, Bool, true, false,
  ◌||◌, Option, none, some, List, [], ◌∷◌, ◌++◌, All, arith,
}
use agent_util.Common.Floats.{Floats}
use agent_util.Engine.State.{State}
use agent_util.Protocol.Message.{RpcError}
use agent_util.Rpc.Handlers.{Handlers, begin_run, end_run, handle_agent_abort}

pub data Event (fl : Floats) (W : Type 0) : Type 0 where
  -- a call of agent.run takes the lock for the first time
  call : Event fl W
  -- a run that was admitted goes on
  work : ℕ → (State fl W → State fl W) → Event fl W
  -- the deferred function of the run with a number
  leave : ℕ → Event fl W
  -- a call of agent.abort
  abort : Event fl W

pub record Runs (fl : Floats) (W : Type 0) : Type 0 where
  pub handlers : Handlers fl W
  -- the number of the next context
  pub next : ℕ
  -- the runs that were admitted, and those of them whose deferred function has not run
  pub admitted : List ℕ
  pub active : List ℕ
  -- the contexts whose cancel function was called
  pub cancelled : List ℕ

abbrev pub among : ℕ → List ℕ → Bool
among n [] = false
among n (k ∷ ks) = n == k || among n ks

abbrev pub without : ℕ → List ℕ → List ℕ
without n [] = []
without n (k ∷ ks) = let rest = without n ks in if n == k then rest else k ∷ rest

abbrev pub to_list : Option ℕ → List ℕ
to_list none = []
to_list (some n) = n ∷ []

-- the context of a run is cancelled unless the run is active
abbrev pub Covered : List ℕ → List ℕ → ℕ → Type 0
Covered active cancelled n = (among n active || among n cancelled) ≡ true

module _ (fl : Floats) {W : Type 0} where
  abbrev pub called : Option RpcError × Handlers fl W → Runs fl W → Runs fl W
  called (some e, h) r = record r { handlers = h }
  called (none, h) r = record r {
    handlers = h;
    next = suc r.next;
    admitted = r.next ∷ r.admitted;
    active = r.next ∷ r.active;
  }

  abbrev pub left : Bool → ℕ → Runs fl W → Runs fl W
  left false n r = r
  left true n r = record r {
    handlers = end_run fl r.handlers;
    active = without n r.active;
    cancelled = n ∷ r.cancelled;
  }

  abbrev pub worked : Bool → (State fl W → State fl W) → Runs fl W → Runs fl W
  worked false f r = r
  worked true f r = record r { handlers = record r.handlers { state = f r.handlers.state } }

  unfoldable pub step : Event fl W → Runs fl W → Runs fl W
  step call r = called (begin_run fl r.next r.handlers) r
  step (work n f) r = worked (among n r.active) f r
  step (leave n) r = left (among n r.active) n r
  step abort r = record r {
    cancelled = to_list (handle_agent_abort fl r.handlers).1 ++ r.cancelled;
  }

  unfoldable pub run : List (Event fl W) → Runs fl W → Runs fl W
  run [] r = r
  run (e ∷ es) r = run es (step e r)

  pub record IsExclusive (r : Runs fl W) : Type 0 where
    -- the runs between their start and their deferred function are the one that `runCancel` names
    pub only : r.active ≡ to_list r.handlers.run_cancel
    -- the context of any other run is cancelled
    pub released : All (Covered r.active r.cancelled) r.admitted
    pub fresh : All (λ n. n < r.next) r.admitted

  -- the handlers before any call
  abbrev pub idle : Handlers fl W → Runs fl W
  idle h = record { handlers = h; next = 0; admitted = []; active = []; cancelled = [] }
