-- ===== src/Engine/Permission.antt =====
-- internal/engine/permission.go and audit.go. `Approve` of the wrapper or of the terminal may use
-- the outside world `W`. The audit entry of a call is returned; its time stamp is left out.
pub mod Laws
use agent_util.Common.{
  ◌≡◌, refl, Bool, true, false, ◌||◌, Option, none, some, List, [], ◌∷◌, ◌++◌, Text, txt, text_eq,
  if◌then◌else◌,
}

-- `perm_ask` is declared by the source, and no path of Check returns it
pub data PermissionDecision : Type 0 where
  perm_denied perm_allowed perm_ask : PermissionDecision

pub record PermissionRule : Type 0 where
  pub tool_name : Text
  pub reason : Text

pub record PermissionPolicy : Type 0 where
  pub deny_rules : List PermissionRule
  pub allow_rules : List PermissionRule

pub data Approval : Type 0 where
  approved rejected : Approval
  approver_error : Text → Approval

pub record PermissionChecker (W : Type 0) : Type 0 where
  pub policy : PermissionPolicy
  pub approver : Option (Text → Text → W → Approval × W)

pub record AuditEntry : Type 0 where
  pub tool_name : Text
  pub args : Text
  pub decision : Text
  pub reason : Text
  pub is_read_only : Bool

-- the loop over a list of rules: the first that names the tool or all tools
unfoldable pub find_rule : Text → List PermissionRule → Option PermissionRule
find_rule tool_name [] = none
find_rule tool_name (rule ∷ rules) =
    let rest = find_rule tool_name rules in
    if text_eq rule.tool_name tool_name || text_eq rule.tool_name (txt "*") then some rule else rest

module _ {W : Type 0} (tool_name args : Text) (read_only : Bool) where
  -- logAudit
  abbrev audited : PermissionDecision → Text → Text → W → PermissionDecision × AuditEntry × W
  audited result decision reason w = (
    result,
    record {
      tool_name = tool_name;
      args = args;
      decision = decision;
      reason = reason;
      is_read_only = read_only;
    },
    w,
  )

  abbrev after_approval : Approval × W → PermissionDecision × AuditEntry × W
  after_approval (approver_error e, w) =
      audited perm_denied (txt "denied") (txt "approver error: " ++ e) w
  after_approval (approved, w) = audited perm_allowed (txt "user_approved") (txt "user confirmed") w
  after_approval (rejected, w) = audited perm_denied (txt "user_rejected") (txt "user rejected") w

  abbrev ask : Option (Text → Text → W → Approval × W) → W → PermissionDecision × AuditEntry × W
  ask none w = audited perm_denied (txt "denied") (txt "fail-closed (no approver)") w
  ask (some approve) w = after_approval (approve tool_name args w)

  -- the choice between the rule that denies, the rule that allows, and what follows without a rule
  abbrev by_rules :
      Option PermissionRule
      → Option PermissionRule
      → Option (Text → Text → W → Approval × W)
      → W
      → PermissionDecision × AuditEntry × W
  by_rules (some rule) allow approver w = audited perm_denied (txt "denied") rule.reason w
  by_rules none (some rule) approver w = audited perm_allowed (txt "allowed") rule.reason w
  by_rules none none approver w =
      if read_only
      then audited perm_allowed (txt "allowed") (txt "read_only auto-approve") w
      else ask approver w

  -- Check
  unfoldable pub check_permission : PermissionChecker W → W → PermissionDecision × AuditEntry × W
  check_permission pc w =
      by_rules (find_rule tool_name pc.policy.deny_rules)
        (find_rule tool_name pc.policy.allow_rules) pc.approver w
