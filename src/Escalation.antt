-- ===== src/Escalation.antt =====
-- skills/agentdesk/scripts/escalation_service.py: the next tier of worker.
use dockyard.Base.{
  ℕ, suc, ◌<◌, ◌≡◌, refl, ◌≢◌, ◌==◌, Bool, true, false, Option, none, some, arith, ◌⊎◌, inl, inr,
  Attempt, returns, raises, require, ◌>>=◌, ◌>>◌,
}
use dockyard.CoreTypes.{
  WorkerKind, basic_agent, standard_agent, advanced_agent, expert_agent, comparable_kind,
  WorkerKind-discrete,
}
mod Examples

pub data EscalationAction : Type 0 where
  escalate request_user_decision : EscalationAction

pub record EscalationDecision : Type 0 where
  pub action : EscalationAction
  pub current_worker_kind : WorkerKind
  pub next_worker_kind : Option WorkerKind

pub data DecisionError : Type 0 where
  next_missing next_present not_expert : DecisionError

-- `_PROGRESSION`
unfoldable pub progression : WorkerKind → Option WorkerKind
progression basic_agent = some standard_agent
progression standard_agent = some advanced_agent
progression advanced_agent = some expert_agent
progression expert_agent = none

-- The checks of `EscalationDecision.__post_init__`.
unfoldable pub decide :
    EscalationAction → WorkerKind → Option WorkerKind → Attempt DecisionError EscalationDecision
decide escalate current none = raises next_missing
decide escalate current (some next) =
    returns
      (record { action = escalate; current_worker_kind = current; next_worker_kind = some next })
decide request_user_decision current (some next) = raises next_present
decide request_user_decision current none = do
  require (current == expert_agent) not_expert
  returns (record {
    action = request_user_decision;
    current_worker_kind = current;
    next_worker_kind = none;
  })

abbrev action_for : Option WorkerKind → EscalationAction
action_for none = request_user_decision
action_for (some next) = escalate

unfoldable pub evaluate_escalation : WorkerKind → Attempt DecisionError EscalationDecision
unfolding decide progression
evaluate_escalation current =
    decide (action_for (progression current)) current (progression current)

abbrev pub tier : WorkerKind → ℕ
tier basic_agent = 0
tier standard_agent = 1
tier advanced_agent = 2
tier expert_agent = 3

-- Below the expert the decision escalates to the kind exactly one tier up, and at the expert it
-- asks the user and names no kind; the constructor of the decision never raises.
pub evaluate_escalation_cases :
    (kind : WorkerKind)
    → ((next : WorkerKind) × (tier next ≡ suc (tier kind))
        × (evaluate_escalation kind
            ≡ returns (record {
              action = escalate;
              current_worker_kind = kind;
              next_worker_kind = some next;
            })))
      ⊎ ((kind ≡ expert_agent)
          × (evaluate_escalation kind
              ≡ returns (record {
                action = request_user_decision;
                current_worker_kind = kind;
                next_worker_kind = none;
              })))
unfolding evaluate_escalation WorkerKind-discrete
evaluate_escalation_cases basic_agent = inl (standard_agent, refl, refl)
evaluate_escalation_cases standard_agent = inl (advanced_agent, refl, refl)
evaluate_escalation_cases advanced_agent = inl (expert_agent, refl, refl)
evaluate_escalation_cases expert_agent = inr (refl, refl)
