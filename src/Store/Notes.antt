-- ===== src/Store/Notes.antt =====
-- src/operations/operations-state.ts: the methods that write one audit row and nothing else.
use real_ming.Base.{String, Bool, true, if◌then◌else◌, Option, none, some, [], ◌∷◌, ◌++◌}
use real_ming.Contracts.Kinds.{
  WorkItemState, work_item_commitment_rejected, work_item_transition_rejected, policy_permitted,
  policy_denied, worker_effect_recorded, worker_effect_failed, worker_effect_verified,
  worker_effect_verification_failed,
}
use real_ming.Contracts.Names.{state_text, executive_text, authority_text}
use real_ming.Contracts.Json.{Json, text, flag, Details, fields}
use real_ming.Contracts.Records.{WorkerEffect, EffectVerification}
use real_ming.Store.Sql.{Sql, append_audit}

-- `actorId` of `recordRejectedTransition` is optional.
abbrev optional_actor : Option String → Details
optional_actor none = []
optional_actor (some a) = ("actorId", text a) ∷ []

module _ (carries_secret : Json → Bool) where
  unfoldable pub record_rejected_commitment : String → String → String → String → Sql (Unit {0})
  record_rejected_commitment id kind reason at =
      append_audit carries_secret id work_item_commitment_rejected at
        (("kind", text kind) ∷ ("reason", text reason) ∷ [])

  unfoldable pub record_rejected_transition :
      String → Option String → WorkItemState → WorkItemState → String → String → Sql (Unit {0})
  record_rejected_transition id actor from to reason at =
      append_audit carries_secret id work_item_transition_rejected at (
        optional_actor actor
        ++ (("from", text (state_text from))
            ∷ ("to", text (state_text to))
            ∷ ("reason", text reason)
            ∷ []))

  unfoldable pub record_policy_decision : String → Bool → Details → String → Sql (Unit {0})
  record_policy_decision id permitted details at =
      append_audit carries_secret id (if permitted then policy_permitted else policy_denied) at
        details

  unfoldable pub record_worker_effect : String → String → WorkerEffect → Sql (Unit {0})
  record_worker_effect id at effect = append_audit carries_secret id worker_effect_recorded at (
      ("idempotencyKey", text effect.idempotency_key)
      ∷ ("kind", text effect.kind)
      ∷ ("executive", text (executive_text effect.executive))
      ∷ ("authority", text (authority_text effect.authority))
      ∷ ("evidenceReference", text effect.idempotency_key)
      ∷ [])

  unfoldable pub record_worker_failure : String → String → String → Sql (Unit {0})
  record_worker_failure id at classification =
      append_audit carries_secret id worker_effect_failed at
        (("classification", text classification) ∷ ("secretSafe", flag true) ∷ [])

  unfoldable pub record_verification : String → EffectVerification → String → Sql (Unit {0})
  record_verification id verification at =
      append_audit carries_secret id worker_effect_verified at (
        ("status", text "verified")
        ∷ (
          "evidence",
          fields (
              ("kind", text "controlled-effect-reference")
              ∷ ("reference", text verification.reference)
              ∷ []),
        )
        ∷ [])

  unfoldable pub record_verification_failure : String → String → Sql (Unit {0})
  record_verification_failure id at =
      append_audit carries_secret id worker_effect_verification_failed at
        (("classification", text "effect-verification-failed") ∷ ("secretSafe", flag true) ∷ [])
