-- ===== src/Rpc/Configure/Laws.antt =====
-- internal/rpc/configure.go: what a rebuilt engine takes over from the previous one.
use agent_util.Common.{
  Option, none, some, if◌then◌else◌, ◌+◌, ◌≡◌, refl, sym, ◌∙◌, List, [], ◌∷◌, ◌++◌, Text,
  append-nil, append_assoc, map-append,
}
use agent_util.Common.Floats.{Floats}
use agent_util.Llm.Message.{Message}
use agent_util.Context.Estimate.{Unicode, estimate_tokens}
use agent_util.Context.Compaction.{Entry}
use agent_util.Context.Manager.{Manager, messages, add, entry_of}
use agent_util.Context.Manager.Invariant.{check_threshold_fields}
use agent_util.Engine.Builtin.{Std}
use agent_util.Engine.Exec.{Result, ok}
use agent_util.Engine.Guard.{GuardRegistry, has_guards, new_guard_registry}
use agent_util.Engine.New.Laws.{new_engine-IsNew}
use agent_util.Engine.Options.{with_tools}
use agent_util.Engine.Registry.{Tool, new_registry, register_each, registered_tools}
use agent_util.Engine.Registry.Laws.{register_all-registered_tools}
use agent_util.Engine.State.{Engine, State, add_message}
use agent_util.Protocol.Methods.{AgentConfigureParams}
use agent_util.Rpc.Registry.{RemoteRegistry}
use agent_util.Rpc.Configure.{Wrapper, Draft}
use agent_util.Rpc.Configure.Rebuild.{draft, Driver, set_llm, add_messages, rebuild_engine}
use agent_util.Rpc.Configure.Tools.{Holds-ok, IsBare}
use agent_util.Rpc.Configure.Tools.Names.{draft-IsBare}

module _ {W : Type 0} where
  -- New keeps no registry of guards that is empty
  empty_guards :
      (g : GuardRegistry W)
      → g ≡ new_guard_registry
      → (if has_guards g then some g else none) ≡ none
  unfolding has_guards
  empty_guards g h = rw h refl

module _ (fl : Floats) (u : Unicode) where
  messages-add :
      (m : Message) (c : Manager fl.Float) → messages fl (add fl u m c) ≡ messages fl c ++ (m ∷ [])
  unfolding messages add entry_of
  messages-add m c =
      rw
        (check_threshold_fields fl (record c {
          entries = c.entries ++ (entry_of fl u m ∷ []);
          token_count = c.token_count + estimate_tokens fl u m;
        })).0
        (map-append (λ (e : Entry). e.message) c.entries (entry_of fl u m ∷ []))

  module _ {W : Type 0} (quote : Text → Text) (std : Std) (remote : RemoteRegistry W)
      (marshal_indent : Text → Option Text) where
    messages-add_messages :
        (ms : List Message) (s : State fl W)
        → messages fl (add_messages fl u ms s).manager ≡ messages fl s.manager ++ ms
    unfolding add_messages add_message
    messages-add_messages [] s = sym (append-nil (messages fl s.manager))
    messages-add_messages (m ∷ ms) s =
        messages-add_messages ms (add_message fl u m s)
        ∙ rw (messages-add m s.manager) (append_assoc (messages fl s.manager) (m ∷ []) ms)

    world-add_messages :
        (ms : List Message) (s : State fl W) → (add_messages fl u ms s).world ≡ s.world
    unfolding add_messages add_message
    world-add_messages [] s = refl
    world-add_messages (m ∷ ms) s = world-add_messages ms (add_message fl u m s)

    module _ (wrapper : Wrapper fl.Float W) (prev : Engine fl W) (s : State fl W)
        (p : AgentConfigureParams fl.Float) where
      abbrev pub IsRebuilt :
          Draft fl W → Driver W → Result ((Engine fl W × State fl W) × List Text) → Type 0
      IsRebuilt d (completer, streamer, names) r =
          (e : Engine fl W) × (s' : State fl W) × (r ≡ ok ((e, s'), d.applied ++ names))
          × (e.completer ≡ completer)
          × (e.registry ≡ prev.registry)
          × (e.skill_tool_names ≡ [])
          × (p.guards ≡ none → e.guards ≡ none)
          × (p.permission ≡ none → e.perm_checker ≡ none)
          × (messages fl s'.manager ≡ messages fl s.manager)
          × (s'.world ≡ s.world)

      -- If the draft and the driver of the model are known and registrations filled the previous
      -- registry, then the engine is rebuilt, with what it takes over and what it drops.
      pub rebuild_engine-IsRebuilt :
          (ts : List (Tool W)) (d : Draft fl W) (c : Driver W)
          → prev.registry ≡ register_each ts new_registry
          → draft fl quote std remote wrapper prev p ≡ ok d
          → set_llm fl quote wrapper prev p.llm ≡ ok c
          → IsRebuilt d c (rebuild_engine fl quote std remote u marshal_indent wrapper prev s p)
      unfolding rebuild_engine
      rebuild_engine-IsRebuilt ts d (completer, streamer, names) filled drafted driven =
          let (no_tools, no_skills, no_guards, no_policy) =
            Holds-ok (IsBare fl p) (draft fl quote std remote wrapper prev p) d
              (draft-IsBare fl p quote std remote wrapper prev) drafted in
          let (e, s', new, same, registry, skills, guards, checker, empty, world) =
            new_engine-IsNew fl u marshal_indent completer streamer
              (with_tools fl (registered_tools prev.registry) d.config) s.world prev.registry
              (rw (no_tools, filled) (register_all-registered_tools ts)) no_skills in
          (
            e,
            add_messages fl u (messages fl s.manager) s',
            rw (drafted, driven, new) refl,
            same,
            registry,
            skills,
            λ none_given. guards ∙ empty_guards d.config.guards (no_guards none_given),
            λ none_given. checker ∙ rw (no_policy none_given) refl,
            rw (messages-add_messages (messages fl s.manager) s', empty) refl,
            world-add_messages (messages fl s.manager) s' ∙ world,
          )
