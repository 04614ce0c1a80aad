-- ===== src/Engine/Permission/Laws.antt =====
-- Check of internal/engine/permission.go: who may run, and what is written down.
use agent_util.Common.{
  ◌≡◌, refl, Bool, true, false, ◌⊎◌, inl, inr, Option, none, some, List, [], ◌∷◌, arith, Text, txt,
  text_eq_iff, ◌↔◌, Option-cases, Bool-cases,
}
use agent_util.Engine.Permission.{
  PermissionDecision, perm_denied, perm_allowed, perm_ask, PermissionRule, Approval, approved,
  rejected, approver_error, PermissionChecker, AuditEntry, find_rule, after_approval, ask,
  check_permission,
}

-- a rule of the list names the tool, or all tools
abbrev pub Names : Text → List PermissionRule → Type 0
Names tool_name [] = ⊥
Names tool_name (rule ∷ rules) =
    ((rule.tool_name ≡ tool_name) ⊎ (rule.tool_name ≡ txt "*")) ⊎ Names tool_name rules

find_rule-none :
    (tool_name : Text) (rules : List PermissionRule)
    → find_rule tool_name rules ≡ none
    → Names tool_name rules
    → ⊥
unfolding find_rule
find_rule-none tool_name [] e h = h
find_rule-none tool_name (rule ∷ rules) e h = ground (
  arith,
  text_eq_iff rule.tool_name tool_name,
  text_eq_iff rule.tool_name (txt "*"),
  find_rule-none tool_name rules,
)

find_rule-some :
    (tool_name : Text) (rules : List PermissionRule) (r : PermissionRule)
    → find_rule tool_name rules ≡ some r
    → Names tool_name rules
unfolding find_rule
find_rule-some tool_name [] r e = cc
find_rule-some tool_name (rule ∷ rules) r e = ground (
  arith,
  text_eq_iff rule.tool_name tool_name,
  text_eq_iff rule.tool_name (txt "*"),
  find_rule-some tool_name rules r,
)

module _ {W : Type 0} (tool_name args : Text) (read_only : Bool) (pc : PermissionChecker W)
    (w : W) where
  abbrev denies : Option PermissionRule
  denies = find_rule tool_name pc.policy.deny_rules

  abbrev allows : Option PermissionRule
  allows = find_rule tool_name pc.policy.allow_rules

  -- the wrapper or the user is there, and says yes
  abbrev pub Approves : Type 0
  Approves =
      (approve : Text → Text → W → Approval × W) × (pc.approver ≡ some approve)
      × ((approve tool_name args w).0 ≡ approved)

  after_approval_allowed :
      (flag : Bool) (a : Approval × W)
      → (after_approval tool_name args flag a).0 ≡ perm_allowed
      → a.0 ≡ approved
  after_approval_allowed flag (approver_error e, w') h = cc
  after_approval_allowed flag (approved, w') h = refl
  after_approval_allowed flag (rejected, w') h = cc

  approval_allowed :
      (flag : Bool) (a : Approval × W)
      → a.0 ≡ approved
      → (after_approval tool_name args flag a).0 ≡ perm_allowed
  approval_allowed flag (approver_error e, w') h = cc
  approval_allowed flag (approved, w') h = refl
  approval_allowed flag (rejected, w') h = cc

  ask_allowed :
      (flag : Bool) (approver : Option (Text → Text → W → Approval × W))
      → pc.approver ≡ approver
      → (ask tool_name args flag approver w).0 ≡ perm_allowed
      → Approves
  ask_allowed flag none e h = cc
  ask_allowed flag (some approve) e h =
      (approve, e, after_approval_allowed flag (approve tool_name args w) h)

  allowed-why :
      (check_permission tool_name args read_only pc w).0 ≡ perm_allowed
      → (Names tool_name pc.policy.deny_rules → ⊥)
        × (Names tool_name pc.policy.allow_rules ⊎ ((read_only ≡ true) ⊎ Approves))
  unfolding check_permission
  allowed-why h = elim (Option-cases denies) [
    | inr (r, found) ↦ cc (rw found at h)
    | inl clear ↦ (
      find_rule-none tool_name pc.policy.deny_rules clear,
      elim (Option-cases allows) [
        | inr (r, found) ↦ inl (find_rule-some tool_name pc.policy.allow_rules r found)
        | inl silent ↦ elim (Bool-cases read_only) [
          | inl reads ↦ inr (inl reads)
          | inr writes ↦
              inr (inr (ask_allowed false pc.approver refl (rw (clear, silent, writes) at h)))
        ]
      ],
    )
  ]

  why-allowed :
      (Names tool_name pc.policy.deny_rules → ⊥)
      → Names tool_name pc.policy.allow_rules ⊎ ((read_only ≡ true) ⊎ Approves)
      → (check_permission tool_name args read_only pc w).0 ≡ perm_allowed
  unfolding check_permission
  why-allowed clear why = elim (Option-cases denies) [
    | inr (r, found) ↦ absurd (clear (find_rule-some tool_name pc.policy.deny_rules r found))
    | inl free ↦ elim (Option-cases allows) [
      | inr (r, found) ↦ rw (free, found)
      | inl silent ↦ elim why [
        | inl named ↦ absurd (find_rule-none tool_name pc.policy.allow_rules silent named)
        | inr (inl reads) ↦ rw (free, silent, reads)
        | inr (inr (approve, e, yes_said)) ↦ elim (Bool-cases read_only) [
          | inl reads ↦ rw (free, silent, reads)
          | inr writes ↦
              rw (free, silent, writes, e)
                (approval_allowed false (approve tool_name args w) yes_said)
        ]
      ]
    ]
  ]

  -- A call is allowed exactly if no deny rule names its tool, and an allow rule does, or the tool
  -- is read-only, or there is an approver who approves the call. A rule names a tool by its name
  -- or by `*`.
  pub check_permission_allowed_iff :
      ((check_permission tool_name args read_only pc w).0 ≡ perm_allowed) ↔ (
        (Names tool_name pc.policy.deny_rules → ⊥)
        × (Names tool_name pc.policy.allow_rules ⊎ ((read_only ≡ true) ⊎ Approves)))
  check_permission_allowed_iff = (allowed-why, λ p. why-allowed p.0 p.1)

  -- the words that the audit log has for a call that may run, and for one that may not
  abbrev pub AuditAgrees : PermissionDecision × AuditEntry × W → Type 0
  AuditAgrees (perm_allowed, entry, w') =
      (entry.decision ≡ txt "allowed") ⊎ (entry.decision ≡ txt "user_approved")
  AuditAgrees (perm_denied, entry, w') =
      (entry.decision ≡ txt "denied") ⊎ (entry.decision ≡ txt "user_rejected")
  AuditAgrees (perm_ask, entry, w') = ⊥

  approval-AuditAgrees :
      (flag : Bool) (a : Approval × W) → AuditAgrees (after_approval tool_name args flag a)
  approval-AuditAgrees flag (approver_error e, w') = inl refl
  approval-AuditAgrees flag (approved, w') = inr refl
  approval-AuditAgrees flag (rejected, w') = inr refl

  ask-AuditAgrees :
      (flag : Bool) (approver : Option (Text → Text → W → Approval × W))
      → AuditAgrees (ask tool_name args flag approver w)
  ask-AuditAgrees flag none = inl refl
  ask-AuditAgrees flag (some approve) = approval-AuditAgrees flag (approve tool_name args w)

  -- The audit entry of a call says `allowed` or `user_approved` if the call is allowed, and
  -- `denied` or `user_rejected` if it is denied; the check never leaves the question open.
  pub check_permission_audited : AuditAgrees (check_permission tool_name args read_only pc w)
  unfolding check_permission
  check_permission_audited = elim (Option-cases denies) [
    | inr (r, found) ↦ rw found (inl refl)
    | inl free ↦ elim (Option-cases allows) [
      | inr (r, found) ↦ rw (free, found) (inl refl)
      | inl silent ↦ elim (Bool-cases read_only) [
        | inl reads ↦ rw (free, silent, reads) (inl refl)
        | inr writes ↦ rw (free, silent, writes) (ask-AuditAgrees false pc.approver)
      ]
    ]
  ]
