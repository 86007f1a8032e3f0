-- ===== src/Gateway/Instances/Outcomes.antt =====
-- The correlation of commands with their outcomes in instance-registry.ts.
use opencode_notify_hub.Shared.{
  ℕ, ◌+◌, String, ite, true, false, not, ◌||◌, Option, none, some, leb, if◌then◌else◌, is_none,
  String-discrete, keep,
}
use opencode_notify_hub.Shared.OrdMap.{OrdMap, get, set, delete, drop_oldest}
use opencode_notify_hub.Gateway.Instances.State.{
  Kind, CommandOutcomeStatus, accepted, CommandOutcomeEntry, Options,
}

-- `pruneExpiredOutcomes`
unfoldable pub prune_expired_outcomes : ℕ → OrdMap CommandOutcomeEntry → OrdMap CommandOutcomeEntry
prune_expired_outcomes now = keep (λ e. not (leb e.1.expires_at_ms now))

-- What a command is recorded with.
pub record NewOutcome : Type 0 where
  pub user_id : String
  pub command_id : String
  pub request_id : String
  pub instance_id : String
  pub kind : Kind

-- `recordOutcome`, with `evictOldestOutcomes` at its end.
unfoldable pub record_outcome :
    Options → ℕ → NewOutcome → OrdMap CommandOutcomeEntry → OrdMap CommandOutcomeEntry
unfolding prune_expired_outcomes
record_outcome o now n m =
    let pruned = prune_expired_outcomes now m in
    if not (is_none (get n.command_id pruned))
    then pruned
    else drop_oldest o.max_command_outcomes (
        set n.command_id
          (record {
            user_id = n.user_id;
            request_id = n.request_id;
            instance_id = n.instance_id;
            kind = n.kind;
            status = accepted;
            updated_at = now;
            expires_at_ms = now + o.outcome_ttl_ms;
          })
          pruned)

-- `settleOutcome`
unfoldable pub settle_outcome :
    ℕ → String → CommandOutcomeStatus → OrdMap CommandOutcomeEntry → OrdMap CommandOutcomeEntry
settle_outcome now command_id status m = elim (get command_id m) [
  | none ↦ m
  | some entry ↦
      if leb entry.expires_at_ms now
      then delete command_id m
      else set command_id (record entry { status = status; updated_at = now }) m
]

-- `outcomeFor`: the pruned map, and the entry if the user owns it.
unfoldable pub outcome_for :
    ℕ
    → String
    → String
    → OrdMap CommandOutcomeEntry
    → OrdMap CommandOutcomeEntry × Option CommandOutcomeEntry
unfolding prune_expired_outcomes
outcome_for now user_id command_id m =
    let pruned = prune_expired_outcomes now m in
    (
      pruned,
      elim (get command_id pruned) [
        | none ↦ none
        | some entry ↦
            if not (ite (String-discrete entry.user_id user_id) true false)
              || leb entry.expires_at_ms now
            then none
            else some entry
      ],
    )
