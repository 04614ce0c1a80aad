-- ===== src/Context/Manager.antt =====
-- internal/context/manager.go, option.go and observer.go. Each method holds the mutex from its
-- first access to its last, so that the methods of concurrent callers follow one another.
-- An observer is a number; `notified` is what the observers were called with, the newest first.
pub mod Invariant
pub mod Pairing
pub mod Calls
use agent_util.Common.{
  ℕ, zero, suc, ◌+◌, Bool, true, false, not, ◌&&◌, ◌||◌, Option, none, some, List, [], ◌∷◌, ◌++◌,
  map, Text, txt, text_eq, ◌==◌, if◌then◌else◌, length,
}
use agent_util.Common.Floats.{Floats}
use agent_util.Engine.Errors.{Error, wrap}
use agent_util.Llm.Message.{Message}
use agent_util.Context.Estimate.{Unicode, estimate_tokens}
use agent_util.Context.Compaction.{
  Entry, CompactionConfig, Compacted, ok, err, total_tokens, run_compaction,
}

pub data EventKind : Type 0 where
  threshold_exceeded threshold_recovered : EventKind

pub record Event (Float : Type 0) : Type 0 where
  pub kind : EventKind
  pub usage_ratio : Float
  pub token_count : ℕ
  pub token_limit : ℕ

pub record Manager (Float : Type 0) : Type 0 where
  pub entries : List Entry
  pub token_limit : ℕ
  pub token_count : ℕ
  pub reserved_tokens : ℕ
  pub threshold : Float
  pub observers : List ℕ
  pub exceeded : Bool
  pub notified : List (Event Float × List ℕ)

-- the error of Compact
pub data CompactResult : Type 0 where
  done : CompactResult
  failed : Error → CompactResult

module _ (fl : Floats) where
  -- NewManager; the option is a threshold
  unfoldable pub new_manager : ℕ → Option fl.Float → Manager fl.Float
  new_manager token_limit option = record {
    entries = [];
    token_limit = token_limit;
    token_count = 0;
    reserved_tokens = 0;
    threshold = elim option [ none ↦ fl.literal 8 10 | some ratio ↦ ratio ];
    observers = [];
    exceeded = false;
    notified = [];
  }

  -- Messages, Len and TokenCount
  unfoldable pub messages : Manager fl.Float → List Message
  messages m = map (λ (e : Entry). e.message) m.entries

  unfoldable pub len : Manager fl.Float → ℕ
  len m = length m.entries

  unfoldable pub token_count : Manager fl.Float → ℕ
  token_count m = m.reserved_tokens + m.token_count

  -- usageRatioLocked
  unfoldable pub usage_ratio : Manager fl.Float → fl.Float
  usage_ratio m =
      if m.token_limit == 0
      then fl.of_int 0
      else fl.divide (fl.of_int (m.reserved_tokens + m.token_count)) (fl.of_int m.token_limit)

  -- for _, obs := range m.observers { obs(evt) }
  unfoldable pub notify : EventKind → Manager fl.Float → Manager fl.Float
  notify kind m =
      let event : Event fl.Float = record {
        kind = kind;
        usage_ratio = usage_ratio m;
        token_count = m.reserved_tokens + m.token_count;
        token_limit = m.token_limit;
      } in
      record m { notified = (event, m.observers) ∷ m.notified }

  abbrev is_empty : List ℕ → Bool
  is_empty [] = true
  is_empty (x ∷ xs) = false

  unfoldable pub check_threshold : Manager fl.Float → Manager fl.Float
  check_threshold m =
      let now_exceeded = fl.at_least (usage_ratio m) m.threshold in
      if m.token_limit == 0 || is_empty m.observers
      then m
      else if now_exceeded && not m.exceeded
      then notify threshold_exceeded (record m { exceeded = true })
      else if not now_exceeded && m.exceeded
      then notify threshold_recovered (record m { exceeded = false })
      else m

  unfoldable pub set_reserved : ℕ → Manager fl.Float → Manager fl.Float
  set_reserved tokens m = check_threshold (record m { reserved_tokens = tokens })

  unfoldable pub on_threshold : ℕ → Manager fl.Float → Manager fl.Float
  on_threshold obs m = record m { observers = m.observers ++ (obs ∷ []) }

  unfoldable pub replace_entries : List Entry → Manager fl.Float → Manager fl.Float
  replace_entries es m = check_threshold (record m { entries = es; token_count = total_tokens es })

  unfoldable pub fork : Manager fl.Float → Manager fl.Float
  fork m = new_manager m.token_limit (some m.threshold)

  module _ (u : Unicode) where
    unfoldable pub entry_of : Message → Entry
    entry_of msg = record { message = msg; tokens = estimate_tokens fl u msg }

    unfoldable pub add : Message → Manager fl.Float → Manager fl.Float
    add msg m =
        let tokens = estimate_tokens fl u msg in
        check_threshold (record m {
          entries = m.entries ++ (entry_of msg ∷ []);
          token_count = m.token_count + tokens;
        })

    unfoldable pub inject : List Message → Text → Manager fl.Float → Manager fl.Float
    inject [] position m = m
    inject (msg ∷ msgs) position m =
        let new_entries = map entry_of (msg ∷ msgs) in
        if text_eq position (txt "prepend")
        then replace_entries (new_entries ++ m.entries) m
        else if text_eq position (txt "replace")
        then replace_entries new_entries m
        else replace_entries (m.entries ++ new_entries) m

    module _ {W : Type 0} where
      abbrev replaced : Manager fl.Float → Compacted × W → CompactResult × Manager fl.Float × W
      replaced m (ok es, w) = (done, replace_entries es m, w)
      replaced m (err e, w) = (failed (wrap (txt "compact") e), m, w)

      -- Compact
      unfoldable pub compact :
          CompactionConfig W fl.Float → Manager fl.Float → W → CompactResult × Manager fl.Float × W
      compact cfg m w =
          if fl.less (usage_ratio m) m.threshold
          then (done, m, w)
          else replaced m (run_compaction fl u m.entries m.reserved_tokens m.token_limit cfg w)
