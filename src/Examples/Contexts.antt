-- ===== src/Examples/Contexts.antt =====
-- Properties of the context at concrete histories.
use agent_util.Common.{
  ℕ, ◌≤◌, ◌≡◌, refl, false, none, List, [], ◌∷◌, txt, length, text_eq, any_of, ◌≢◌,
}
use agent_util.Common.Floats.{Floats}
use agent_util.Llm.Message.{plain_message}
use agent_util.Context.Compaction.{
  Entry, run_compaction, CompactionConfig, compact, snip, budget_trim, observation_mask, is_tool,
  has_call,
}
use agent_util.Context.Compaction.Boundary.{IsPaired, paired_from, answered, calls}
use agent_util.Context.Compaction.Pairing.{PairedResult, run_compaction-IsPaired}
use agent_util.Context.Compaction.Tail.{last_n, run_compaction_keeps_last}
use agent_util.Context.Compaction.Idempotence.{stages_idem}
use agent_util.Context.Manager.{Manager, new_manager, add, set_reserved, inject, on_threshold}
use agent_util.Context.Manager.Invariant.{IsConsistent, IsCurrent}
use agent_util.Context.Manager.Calls.{
  Call, add_call, watch, compact_call, call_all, manager-IsConsistent, flag-IsCurrent,
}
use agent_util.Engine.State.{tool_call_message, tool_result_message}
use agent_util.Examples.Setting.{fixed_point, latin, history, config}

history-IsPaired : IsPaired history
unfolding paired_from txt answered is_tool text_eq tool_call_message tool_result_message calls
    has_call any_of
history-IsPaired = refl

run_compaction-IsPaired_example :
    PairedResult fixed_point latin (run_compaction fixed_point latin history 10 100 config 0).0
run_compaction-IsPaired_example =
    run_compaction-IsPaired fixed_point latin history 10 100 config 0 history-IsPaired

-- numbers of which none is less than another, so that the cascade takes every stage
abbrev unordered : Floats
unordered = record fixed_point { less = λ a b. false }

abbrev no_summarizer : CompactionConfig ℕ ℕ
no_summarizer = record config { summarizer = none }

abbrev after : List Entry
after =
    snip unordered latin
      (observation_mask unordered latin (budget_trim unordered latin history 20) 2) 2

run_compaction_keeps_last_example :
    (length after ≤ 4)
    × (2 ≤ 4
        → (2 ≤ length after) × (last_n 2 after ≡ last_n 2 (budget_trim unordered latin history 20)))
unfolding run_compaction compact
run_compaction_keeps_last_example =
    run_compaction_keeps_last unordered latin history 10 100 no_summarizer 0 {after = after} refl

stages_idem_example :
    (budget_trim fixed_point latin (budget_trim fixed_point latin history 20) 20
      ≡ budget_trim fixed_point latin history 20)
    × (observation_mask fixed_point latin (observation_mask fixed_point latin history 1) 1
        ≡ observation_mask fixed_point latin history 1)
stages_idem_example = stages_idem fixed_point latin history 20 1

abbrev method_calls : List (Call fixed_point latin ℕ)
method_calls =
    watch 7 ∷ add_call (plain_message (txt "user") (txt "hello")) ∷ compact_call config ∷ []

manager-IsConsistent_example :
    IsConsistent fixed_point latin
      (call_all fixed_point latin ℕ method_calls (new_manager fixed_point 5 none, 0)).0
manager-IsConsistent_example = manager-IsConsistent fixed_point latin ℕ 5 none method_calls 0

-- a manager with room for five tokens that observer 7 watches
abbrev manager : Manager ℕ
manager = on_threshold fixed_point 7 (new_manager fixed_point 5 none)

manager_is_watched : manager.observers ≢ []
unfolding on_threshold new_manager
manager_is_watched h = cc

manager_is_limited : manager.token_limit ≢ 0
unfolding on_threshold new_manager
manager_is_limited h = cc

flag-IsCurrent_example :
    IsCurrent fixed_point (add fixed_point latin (plain_message (txt "user") (txt "a")) manager)
    × IsCurrent fixed_point (set_reserved fixed_point 6 manager)
    × IsCurrent fixed_point (
        inject fixed_point latin (plain_message (txt "user") (txt "a") ∷ []) (txt "append") manager)
flag-IsCurrent_example =
    flag-IsCurrent fixed_point manager manager_is_limited manager_is_watched latin
      (plain_message (txt "user") (txt "a")) [] (txt "append") 6
