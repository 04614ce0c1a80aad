-- ===== src/Engine/State/Types.antt =====
-- internal/engine: the results of a step and of a run, the Engine's configuration, and what a run
-- changes.
use agent_util.Common.{ℕ, Bool, Option, List, Text, Map}
use agent_util.Common.Floats.{Floats}
use agent_util.Llm.Message.{Message, Usage, ChatRequest, ChatResponse}
use agent_util.Llm.FixJson.Merge.{Json}
use agent_util.Context.Compaction.{CompactionConfig}
use agent_util.Context.Manager.{Manager}
use agent_util.Engine.Errors.{Error}
use agent_util.Engine.Exec.{Result}
use agent_util.Engine.Guard.{GuardRegistry}
use agent_util.Engine.Permission.{PermissionChecker, AuditEntry}
use agent_util.Engine.Verify.{Verifier}
use agent_util.Engine.Registry.{Registry}
use agent_util.Engine.Prompt.{PromptBuilder}

-- loop_type.go
pub data LoopType : Type 0 where
  react reaf : LoopType

pub data ResultKind : Type 0 where
  continue terminal : ResultKind

-- result.go
pub record LoopResult : Type 0 where
  pub kind : ResultKind
  pub reason : Text
  pub message : Message
  pub usage : Usage

pub record RunResult : Type 0 where
  pub response : Text
  pub reason : Text
  pub usage : Usage
  pub turns : ℕ

-- router.go
pub record RouterResponse : Type 0 where
  pub tool : Text
  pub arguments : Text
  pub reasoning : Text

pub record StreamEvent : Type 0 where
  pub delta : Text
  pub finish_reason : Text
  pub failure : Option Error

pub record StepEvent (Float : Type 0) : Type 0 where
  pub turn : ℕ
  pub reason : Text
  pub usage_ratio : Float
  pub token_count : ℕ
  pub token_limit : ℕ
  pub response : Text

pub record ContextStatus (Float : Type 0) : Type 0 where
  pub usage_ratio : Float
  pub token_count : ℕ
  pub token_limit : ℕ
  pub event : Text
  pub last_role : Text
  pub compaction_delta : ℕ

-- what GoalJudge.ShouldTerminate returns
pub data Judged : Type 0 where
  judged : Bool → Text → Judged
  judge_failed : Error → Judged

pub record Outside (W : Type 0) : Type 0 where
  pub json : Json
  -- strconv.Quote, the verb %q
  pub quote : Text → Text
  -- json.Marshal of a string
  pub marshal_string : Text → Option Text
  -- json.Unmarshal into a routerResponse
  pub unmarshal_router : Text → Result RouterResponse
  -- the random bytes of a call id, in hexadecimal
  pub random_hex : W → Text × W
  -- whether ctx.Done() is closed, and ctx.Err()
  pub cancelled : W → Bool
  pub context_error : W → Error
  -- the wait before the retry of a step: `some` is the error of a context that is done meanwhile
  pub sleep_backoff : ℕ → W → Option Error × W

pub record Engine (fl : Floats) (W : Type 0) : Type 0 where
  pub completer : ChatRequest → W → Result ChatResponse × W
  -- `none` if the completer is no StreamingCompleter; the events are those that the channel gives
  pub streamer : Option (ChatRequest → W → Result (List StreamEvent) × W)
  pub router_completer : Option (ChatRequest → W → Result ChatResponse × W)
  pub max_turns : ℕ
  pub registry : Registry W
  pub compaction : Option (CompactionConfig W fl.Float)
  pub delegate_enabled : Bool
  pub coordinator_enabled : Bool
  pub delegate_max_chars : ℕ
  pub coordinate_max_chars : ℕ
  pub coordinator_max_parallelism : ℕ
  pub work_dir : Text
  pub prompt_builder : PromptBuilder (Option (Map Text ℕ) × W)
  -- the sections of initPromptBuilder, that of the tools reading a registry
  pub prompt_of : Registry W → PromptBuilder (Option (Map Text ℕ) × W)
  pub reminder_threshold : ℕ
  pub max_step_retries : ℕ
  pub max_consecutive_failures : ℕ
  pub verifiers : List (Verifier W)
  pub perm_checker : Option (PermissionChecker W)
  pub guards : Option (GuardRegistry W)
  pub step_callback : Option (StepEvent fl.Float → W → W)
  pub streaming_enabled : Bool
  pub stream_callback : Option (Text → ℕ → W → W)
  pub context_status_callback : Option (ContextStatus fl.Float → W → W)
  pub skill_tool_names : List Text
  pub goal_judge : Option (Text → ℕ → W → Judged × W)
  pub loop_type : LoopType

-- what a run changes: the history, the counts of tool calls, the audit log, and the world
pub record State (fl : Floats) (W : Type 0) : Type 0 where
  pub manager : Manager fl.Float
  pub tool_calls : Option (Map Text ℕ)
  pub audit : List AuditEntry
  pub world : W
