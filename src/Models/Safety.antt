-- ===== src/Models/Safety.antt =====
-- The safety tables of src/butterbot/infrastructure/persistence/models.py.
use butterbot.Base.{ℕ, ℤ, String, Option, Bool}

pub data Capability : Type 0 where
  capabilities_manage players_inspect restrictions_manage proposals_approve : Capability
  grants_propose corrections_execute corrections_bypass_freeze : Capability

pub data Operation : Type 0 where
  freeze release grant : Operation

pub data ProposalStatus : Type 0 where
  pending approved applied : ProposalStatus

pub record CapabilityModel : Type 0 where
  pub actor_id : ℕ
  pub capability : Capability

pub record ProposalModel : Type 0 where
  pub id : ℕ
  pub actor_id : ℕ
  pub operation : Operation
  pub amount : ℤ
  pub reason : String
  pub created_at_ms : ℤ
  pub expires_at_ms : ℤ
  pub requires_approval : Bool
  pub status : ProposalStatus
  pub approver_id : Option ℕ

pub record ProposalTargetModel : Type 0 where
  pub proposal_id : ℕ
  pub target_id : ℕ

pub record ProposalScopeModel : Type 0 where
  pub proposal_id : ℕ
  pub target_count : ℕ
  pub scope_verified : Bool

pub record AccessAuditModel : Type 0 where
  pub id : ℕ
  pub actor_id : ℕ
  pub action : String
  pub target_id : Option ℕ
  pub proposal_id : Option ℕ
  pub reason : String
  pub created_at_ms : ℤ
