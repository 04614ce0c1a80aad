-- ===== src/Protocol/Registration.antt =====
-- pkg/protocol/methods.go: the parameters and results of the methods that change what the core has
-- registered, and of those on its session.
use agent_util.Common.{ℕ, Bool, List, Text}
use agent_util.Protocol.Methods.{ToolDefinition, GuardDefinition, SessionMessage}

pub record AgentAbortResult : Type 0 where
  pub aborted : Bool

pub record AgentConfigureResult : Type 0 where
  pub applied : List Text

pub record ToolRegisterParams : Type 0 where
  pub tools : List ToolDefinition

pub record ToolRegisterResult : Type 0 where
  pub registered : ℕ

pub record McpRegisterResult : Type 0 where
  pub tools : List Text

pub record GuardRegisterParams : Type 0 where
  pub guards : List GuardDefinition

pub record GuardRegisterResult : Type 0 where
  pub registered : ℕ

pub record VerifierDefinition : Type 0 where
  pub name : Text

pub record VerifierRegisterParams : Type 0 where
  pub verifiers : List VerifierDefinition

pub record VerifierRegisterResult : Type 0 where
  pub registered : ℕ

pub record JudgeRegisterParams : Type 0 where
  pub name : Text

pub record JudgeRegisterResult : Type 0 where
  pub registered : ℕ

pub record SessionHistoryResult : Type 0 where
  pub messages : List SessionMessage
  pub count : ℕ

pub record ContextSummarizeResult : Type 0 where
  pub summary : Text
  pub length : ℕ
