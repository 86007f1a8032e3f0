-- ===== src/Gateway/Instances/Correlation.antt =====
-- The outcome of a command in instance-registry.ts, from its recording to its reading.
use opencode_notify_hub.Shared.{
  ℕ, ◌+◌, ◌<◌, String, ◌≡◌, refl, ap, ◌∙◌, ◌≢◌, false, not, none, some, [], ◌∷◌, arith, leb,
}
use opencode_notify_hub.Shared.OrdMap.{
  OrdMap, get, drop_oldest, set_absent, drop_oldest-snoc, get-snoc, get-keep, get-set,
}
use opencode_notify_hub.Gateway.Instances.State.{
  CommandOutcomeStatus, accepted, CommandOutcomeEntry, Options,
}
use opencode_notify_hub.Gateway.Instances.Outcomes.{
  prune_expired_outcomes, NewOutcome, record_outcome, settle_outcome, outcome_for,
}

get-prune-none :
    (now : ℕ) (k : String) (m : OrdMap CommandOutcomeEntry)
    → get k m ≡ none
    → get k (prune_expired_outcomes now m) ≡ none
unfolding prune_expired_outcomes get
get-prune-none now k [] h = refl
get-prune-none now k ((j, e) ∷ m) h = ground (arith, get-prune-none now k m)

get-prune :
    (now : ℕ) (k : String) (e : CommandOutcomeEntry) (m : OrdMap CommandOutcomeEntry)
    → get k m ≡ some e
    → now < e.expires_at_ms
    → get k (prune_expired_outcomes now m) ≡ some e
unfolding prune_expired_outcomes
get-prune now k e m h fresh =
    get-keep (λ (x : String × CommandOutcomeEntry). not (leb x.1.expires_at_ms now)) k e m h
      (λ j same. ground arith)

-- What a new outcome is stored as.
abbrev pub new_entry : Options → ℕ → NewOutcome → CommandOutcomeEntry
new_entry o now n = record {
  user_id = n.user_id;
  request_id = n.request_id;
  instance_id = n.instance_id;
  kind = n.kind;
  status = accepted;
  updated_at = now;
  expires_at_ms = now + o.outcome_ttl_ms;
}

get-record_outcome :
    (o : Options) (now : ℕ) (n : NewOutcome) (m : OrdMap CommandOutcomeEntry)
    → 0 < o.max_command_outcomes
    → get n.command_id m ≡ none
    → get n.command_id (record_outcome o now n m) ≡ some (new_entry o now n)
unfolding record_outcome
get-record_outcome o now n m room absent =
    let pruned = prune_expired_outcomes now m in
    let gone = get-prune-none now n.command_id m absent in
    let (rest, same, free) =
      drop_oldest-snoc o.max_command_outcomes pruned n.command_id (new_entry o now n) room gone in
    let stored = set_absent n.command_id (new_entry o now n) pruned gone in
    rw gone (
      ap (get n.command_id) (ap (drop_oldest o.max_command_outcomes) stored ∙ same)
      ∙ get-snoc n.command_id (new_entry o now n) rest free)

get-settle_outcome :
    (now : ℕ) (k : String) (status : CommandOutcomeStatus) (e : CommandOutcomeEntry)
    (m : OrdMap CommandOutcomeEntry)
    → get k m ≡ some e
    → now < e.expires_at_ms
    → get k (settle_outcome now k status m) ≡ some (record e { status = status; updated_at = now })
unfolding settle_outcome
get-settle_outcome now k status e m h fresh =
    let live : leb e.expires_at_ms now ≡ false = ground arith in
    rw (h, settle_outcome)
      (rw live (ground (arith, get-set k k (record e { status = status; updated_at = now }) m)))

read :
    (now : ℕ) (user_id k : String) (e : CommandOutcomeEntry) (m : OrdMap CommandOutcomeEntry)
    → get k m ≡ some e
    → now < e.expires_at_ms
    → ((e.user_id ≡ user_id) → (outcome_for now user_id k m).1 ≡ some e)
      × ((e.user_id ≢ user_id) → (outcome_for now user_id k m).1 ≡ none)
unfolding outcome_for
read now user_id k e m h fresh =
    let kept = get-prune now k e m h fresh in
    (
      (λ same. rw (kept, outcome_for) (ground arith)),
      (λ other. rw (kept, outcome_for) (ground arith)),
    )

-- With room for an outcome, a new command's outcome that is recorded and then settled, both before
-- it expires, is read back before it expires with the settled status, the time of its settling and
-- what it was recorded with, by its user; another user reads none.
pub outcome_for-record_outcome :
    (o : Options) (now settled_at read_at : ℕ) (n : NewOutcome) (status : CommandOutcomeStatus)
    (user_id : String) (m : OrdMap CommandOutcomeEntry)
    → 0 < o.max_command_outcomes
    → get n.command_id m ≡ none
    → settled_at < now + o.outcome_ttl_ms
    → read_at < now + o.outcome_ttl_ms
    → ((outcome_for read_at n.user_id n.command_id
          (settle_outcome settled_at n.command_id status (record_outcome o now n m))).1
        ≡ some (record (new_entry o now n) { status = status; updated_at = settled_at }))
      × (n.user_id ≢ user_id
          → (outcome_for read_at user_id n.command_id
              (settle_outcome settled_at n.command_id status (record_outcome o now n m))).1
            ≡ none)
outcome_for-record_outcome o now settled_at read_at n status user_id m room absent settles reads =
    let stored = get-record_outcome o now n m room absent in
    let after =
      get-settle_outcome settled_at n.command_id status (new_entry o now n)
        (record_outcome o now n m) stored settles in
    let settled = settle_outcome settled_at n.command_id status (record_outcome o now n m) in
    let e = record (new_entry o now n) { status = status; updated_at = settled_at } in
    (
      (read read_at n.user_id n.command_id e settled after reads).0 refl,
      (read read_at user_id n.command_id e settled after reads).1,
    )
