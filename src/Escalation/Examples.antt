-- ===== src/Escalation/Examples.antt =====
-- The escalation from the highest kind of worker.
use dockyard.Base.{suc, ◌≡◌, ◌⊎◌, none, some, returns}
use dockyard.CoreTypes.{WorkerKind, expert_agent, WorkerKind-discrete}
use dockyard.Escalation.{
  escalate, request_user_decision, EscalationDecision, progression, decide, evaluate_escalation,
  evaluate_escalation_cases, tier,
}

program : Unit {0}
unfolding evaluate_escalation progression decide WorkerKind-discrete
program = tt

abbrev decision : WorkerKind → WorkerKind → EscalationDecision
decision k m = record { action = escalate; current_worker_kind = k; next_worker_kind = some m }

evaluate_escalation_cases_example :
    ((next : WorkerKind) × (tier next ≡ suc (tier expert_agent))
      × (evaluate_escalation expert_agent ≡ returns (decision expert_agent next)))
    ⊎ ((expert_agent ≡ expert_agent)
        × (evaluate_escalation expert_agent
            ≡ returns (record {
              action = request_user_decision;
              current_worker_kind = expert_agent;
              next_worker_kind = none;
            })))
evaluate_escalation_cases_example = evaluate_escalation_cases expert_agent
