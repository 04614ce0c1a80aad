-- ===== src/Protocol/Methods.antt =====
-- pkg/protocol/methods.go: the parameters and the results of the methods. The numbers are not
-- negative; a pointer is an Option, and a float a value of the type `Float`.
use agent_util.Common.{ℕ, Bool, Option, List, Text, Map}

pub record ServerInfoResult : Type 0 where
  pub library_version : Text
  pub protocol_version : Text
  pub methods : List Text
  pub features : Map Text Bool

pub record AgentRunParams : Type 0 where
  pub prompt : Text
  pub max_turns : ℕ

pub record UsageInfo : Type 0 where
  pub prompt_tokens : ℕ
  pub completion_tokens : ℕ
  pub total_tokens : ℕ

pub record AgentRunResult : Type 0 where
  pub response : Text
  pub reason : Text
  pub turns : ℕ
  pub usage : UsageInfo

pub record LlmConfig : Type 0 where
  pub mode : Text
  pub timeout_seconds : ℕ

pub record LoopConfig : Type 0 where
  pub type : Text

pub record RouterConfig : Type 0 where
  pub endpoint : Text
  pub model : Text
  pub api_key : Text

pub record JudgeConfig : Type 0 where
  pub name : Text
  pub builtin : Text

pub record DelegateConfig : Type 0 where
  pub enabled : Option Bool
  pub max_chars : Option ℕ

pub record CoordinatorConfig : Type 0 where
  pub enabled : Option Bool
  pub max_chars : Option ℕ

pub record CompactionParams (Float : Type 0) : Type 0 where
  pub enabled : Option Bool
  pub budget_max_chars : Option ℕ
  pub keep_last : Option ℕ
  pub target_ratio : Option Float
  pub summarizer : Text

pub record PermissionConfig : Type 0 where
  pub enabled : Option Bool
  pub deny : List Text
  pub allow : List Text

pub record GuardsConfig : Type 0 where
  pub input : List Text
  pub tool_call : List Text
  pub output : List Text

pub record VerifyConfig : Type 0 where
  pub verifiers : List Text
  pub max_step_retries : Option ℕ
  pub max_consecutive_failures : Option ℕ

pub record ToolScopeConfig : Type 0 where
  pub max_tools : Option ℕ
  pub include_always : List Text
  pub tool_budget : Map Text ℕ

pub record ReminderConfig : Type 0 where
  pub threshold : Option ℕ
  pub content : Text

pub record StreamingConfig : Type 0 where
  pub enabled : Option Bool
  pub context_status : Option Bool

pub record AgentConfigureParams (Float : Type 0) : Type 0 where
  pub max_turns : Option ℕ
  pub system_prompt : Option Text
  pub token_limit : Option ℕ
  pub work_dir : Option Text
  pub delegate : Option DelegateConfig
  pub coordinator : Option CoordinatorConfig
  pub compaction : Option (CompactionParams Float)
  pub permission : Option PermissionConfig
  pub guards : Option GuardsConfig
  pub verify : Option VerifyConfig
  pub tool_scope : Option ToolScopeConfig
  pub reminder : Option ReminderConfig
  pub streaming : Option StreamingConfig
  pub loop : Option LoopConfig
  pub router : Option RouterConfig
  pub judge : Option JudgeConfig
  pub llm : Option LlmConfig

pub record ToolDefinition : Type 0 where
  pub name : Text
  pub description : Text
  pub parameters : Text
  pub read_only : Bool

pub record ToolExecuteParams : Type 0 where
  pub name : Text
  pub args : Text

pub record ToolExecuteResult : Type 0 where
  pub content : Text
  pub is_error : Bool

pub record LlmExecuteParams : Type 0 where
  pub request : Text
  pub session_id : Text
  pub call_index : ℕ

pub record LlmExecuteResult : Type 0 where
  pub response : Text

pub record GuardDefinition : Type 0 where
  pub name : Text
  pub stage : Text

pub record GuardExecuteParams : Type 0 where
  pub name : Text
  pub stage : Text
  pub input : Text
  pub tool_name : Text
  pub args : Text
  pub output : Text

pub record GuardExecuteResult : Type 0 where
  pub decision : Text
  pub reason : Text
  pub details : List Text

pub record VerifierExecuteParams : Type 0 where
  pub name : Text
  pub tool_name : Text
  pub args : Text
  pub result : Text

pub record VerifierExecuteResult : Type 0 where
  pub passed : Bool
  pub summary : Text
  pub details : List Text

pub record SessionToolCall : Type 0 where
  pub id : Text
  pub name : Text
  pub arguments : Text

pub record SessionMessage : Type 0 where
  pub role : Text
  pub content : Text
  pub tool_calls : List SessionToolCall
  pub tool_call_id : Text

pub record SessionInjectParams : Type 0 where
  pub messages : List SessionMessage
  pub position : Text

pub record SessionInjectResult : Type 0 where
  pub injected : ℕ
  pub total : ℕ

pub record JudgeEvaluateParams : Type 0 where
  pub name : Text
  pub response : Text
  pub turn : ℕ

pub record JudgeEvaluateResult : Type 0 where
  pub terminate : Bool
  pub reason : Text
