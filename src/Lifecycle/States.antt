-- ===== src/Lifecycle/States.antt =====
-- A test of every lifecycle state, and what it proves.
use real_ming.Base.{Bool, true, ◌&&◌, ◌≡◌, arith}
use real_ming.Contracts.Kinds.{
  WorkItemState, captured, triaged, planned, awaiting_approval, executing, verifying,
  waiting_blocked, ready_for_ceo_review, changes_requested, cancelled, completed,
}

unfoldable pub every : (WorkItemState → Bool) → Bool
every p =
    p captured
    && p triaged
    && p planned
    && p awaiting_approval
    && p executing
    && p verifying
    && p waiting_blocked
    && p ready_for_ceo_review
    && p changes_requested
    && p cancelled
    && p completed

pub every_sound : (p : WorkItemState → Bool) (s : WorkItemState) → every p ≡ true → p s ≡ true
unfolding every
every_sound p s h = ground arith
