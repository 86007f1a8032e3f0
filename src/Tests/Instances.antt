-- ===== src/Tests/Instances.antt =====
-- Concrete runs of instance-registry.ts.
use text.Mathlib.Text.{◌==◌ as str_eq}
use opencode_notify_hub.Shared.{
  ℕ, String, ◌≡◌, refl, ◌≢◌, ◌↔◌, true, false, none, some, [], ◌∷◌, arith, ℕ_discrete,
  String-discrete,
}
use opencode_notify_hub.Shared.OrdMap.{get, set}
use opencode_notify_hub.Shared.Table.{find, put, erase, pair-discrete}
use opencode_notify_hub.Gateway.Connections.{Sockets}
use opencode_notify_hub.Gateway.Instances.State.{
  ControlConnection, controllable, conflicting, offline, RecordKey, RecordKey-discrete,
  OwnershipKey, OwnershipKey-discrete, Text-discrete, InstanceRecord, InstanceRegistry, raises,
  Surroundings, Options, RegisterMessage, question, PendingInteraction, PendingKey-discrete,
  confirmed,
}
use opencode_notify_hub.Gateway.Instances.Keys.{
  Platform, ownership_key, normal_directory, forward_slashes, single_slashes, strip_last_slash,
  has_drive,
}
use opencode_notify_hub.Gateway.Instances.Presence.{
  sort_by_sequence, others, call, find_connection, publish_snapshot,
}
use opencode_notify_hub.Gateway.Instances.Links.{
  disconnect, disconnect_with, candidates, send, send_with, record_of,
}
use opencode_notify_hub.Gateway.Instances.Register.{
  create, add, register, replace_existing, enroll, amend, state_for, prune_offline_ownership,
}
use opencode_notify_hub.Gateway.Instances.Frames.{
  receive, registers, pending_snapshot_response, handle_message,
}
use opencode_notify_hub.Gateway.Instances.Ownership.Register.{Present}
use opencode_notify_hub.Gateway.Instances.Steps.{Reach, here, later, adds, receives, collects}
use opencode_notify_hub.Gateway.Instances.Control.{
  register_replaces, one_in_control, disconnect_ends,
}
use opencode_notify_hub.Gateway.Instances.Handover.{disconnect_hands_over}
use opencode_notify_hub.Gateway.Instances.Fuel.{disconnect_with-enough}
use opencode_notify_hub.Gateway.Instances.Routing.{Accepted, route_verdict}
use opencode_notify_hub.Gateway.Instances.Once.{route_once}
use opencode_notify_hub.Gateway.Instances.Correlation.{new_entry, outcome_for-record_outcome}
use opencode_notify_hub.Gateway.Instances.Outcomes.{
  NewOutcome, record_outcome, settle_outcome, outcome_for,
}
use opencode_notify_hub.Gateway.Instances.Commands.{
  Command, route, routed, actionable, refusal_of, in_flight,
}
use opencode_notify_hub.Gateway.Instances.Pending.{
  drop_pending, drop_catalog_requests, drop_snapshots, settle_commands, drop_tunnels, unlist,
}
use opencode_notify_hub.Gateway.Instances.Snapshots.{
  collect_pending_interactions, targets, query_each, query_pending_snapshot,
  handle_snapshot_response, apply_projection, projection, stale_after, enrich,
}

abbrev plain : Platform
plain = record { trim = λ t. t; lower = λ t. t }

abbrev healthy : Sockets
healthy = record { is_open = λ uid. true; buffered_amount = λ uid. 0; throws = λ uid. false }

abbrev calm : Surroundings
calm = record { sockets = healthy; clients = healthy; now_ms = 5 }

abbrev options : Options
options = record { outcome_ttl_ms = 1000; max_command_outcomes = 8 }

abbrev at_dir : String → RegisterMessage
at_dir id = record {
  instance_id = id;
  machine = 109 ∷ [];
  project = "project";
  directory = 47 ∷ 100 ∷ [];
  open_code_version = "1";
  web_ui_available = true;
  protocol_version = 2;
}

abbrev link : ℕ → ControlConnection
link uid = record { uid = uid; user_id = "u"; key_id = "k"; alive = true; instance_id = none }

abbrev two_links : InstanceRegistry
two_links = add "u" "k" (add "u" "k" create)

abbrev first_in : InstanceRegistry
first_in = receive plain calm (link 0) (some (registers (at_dir "a"))) two_links

abbrev both_in : InstanceRegistry
both_in = receive plain calm (link 1) (some (registers (at_dir "b"))) first_in

abbrev uuid : ℕ → String
uuid n = "q"

abbrev asked : InstanceRegistry
asked = (collect_pending_interactions plain calm uuid "u" both_in).0

abbrev named_0 : ControlConnection
named_0 = record (link 0) { instance_id = some "a" }

abbrev asks : PendingInteraction
asks = record {
  request_id = "x";
  kind = question;
  session_id = "s";
  instance_id = "a";
  machine = [];
  project = "";
  directory = [];
  content = "which?";
}

abbrev informed : InstanceRegistry
informed = receive plain calm named_0 (some (pending_snapshot_response "a" "q" (asks ∷ []))) asked

link_held_0 : Present (link 0) two_links
unfolding add create find_connection receive handle_message register replace_existing enroll amend
    state_for prune_offline_ownership find put RecordKey-discrete pair-discrete String-discrete
    OwnershipKey-discrete Text-discrete ℕ_discrete ownership_key normal_directory forward_slashes
    single_slashes strip_last_slash has_drive send send_with publish_snapshot
link_held_0 = record { held = link 0; found = refl; same_user = refl; same_name = refl }

link_held_1 : Present (link 1) first_in
unfolding add create find_connection receive handle_message register replace_existing enroll amend
    state_for prune_offline_ownership find put RecordKey-discrete pair-discrete String-discrete
    OwnershipKey-discrete Text-discrete ℕ_discrete ownership_key normal_directory forward_slashes
    single_slashes strip_last_slash has_drive send send_with publish_snapshot
link_held_1 = record { held = link 1; found = refl; same_user = refl; same_name = refl }

link_held_2 : Present named_0 asked
unfolding add create find_connection receive handle_message register replace_existing enroll amend
    state_for prune_offline_ownership find put RecordKey-discrete pair-discrete String-discrete
    OwnershipKey-discrete Text-discrete ℕ_discrete ownership_key normal_directory forward_slashes
    single_slashes strip_last_slash has_drive send send_with publish_snapshot
    collect_pending_interactions targets query_each query_pending_snapshot handle_snapshot_response
    apply_projection projection stale_after enrich record_of erase get set PendingKey-discrete
    sort_by_sequence
link_held_2 = record { held = named_0; found = refl; same_user = refl; same_name = refl }

run_first : Reach plain options first_in
run_first =
    later (later (later here (adds "u" "k")) (adds "u" "k"))
      (receives calm (link 0) (some (registers (at_dir "a"))) (λ m same fresh. link_held_0))

run_both : Reach plain options both_in
run_both =
    later run_first
      (receives calm (link 1) (some (registers (at_dir "b"))) (λ m same fresh. link_held_1))

run_informed : Reach plain options informed
run_informed = later (later run_both (collects calm uuid "u")) (
    receives calm named_0 (some (pending_snapshot_response "a" "q" (asks ∷ [])))
      (λ m same fresh. link_held_2))

abbrev record_a : InstanceRecord
record_a = record {
  registration = at_dir "a";
  user_id = "u";
  sequence = 0;
  state = controllable;
  last_seen_at = 5;
  connection = some 0;
  projected_requests = [];
  stale_requests = [];
}

abbrev record_b : InstanceRecord
record_b = record record_a {
  registration = at_dir "b";
  sequence = 1;
  state = conflicting;
  connection = some 1;
}

abbrev key : OwnershipKey
key = ("u", (109 ∷ [], 47 ∷ 100 ∷ []))

found_a : find RecordKey-discrete ("u", "a") both_in.records ≡ some record_a
unfolding add create find_connection receive handle_message register replace_existing enroll amend
    state_for prune_offline_ownership find put RecordKey-discrete pair-discrete String-discrete
    OwnershipKey-discrete Text-discrete ℕ_discrete ownership_key normal_directory forward_slashes
    single_slashes strip_last_slash has_drive send send_with publish_snapshot
found_a = refl

found_b : find RecordKey-discrete ("u", "b") both_in.records ≡ some record_b
unfolding add create find_connection receive handle_message register replace_existing enroll amend
    state_for prune_offline_ownership find put RecordKey-discrete pair-discrete String-discrete
    OwnershipKey-discrete Text-discrete ℕ_discrete ownership_key normal_directory forward_slashes
    single_slashes strip_last_slash has_drive send send_with publish_snapshot
found_b = refl

one_in_control_example : ◌≡◌ {A = RecordKey} ("u", "a") ("u", "a")
one_in_control_example =
    one_in_control plain options both_in run_both ("u", "a") ("u", "a") record_a record_a found_a
      found_a refl refl refl

held_0 : find_connection 0 both_in.connections ≡ some named_0
unfolding add create find_connection receive handle_message register replace_existing enroll amend
    state_for prune_offline_ownership find put RecordKey-discrete pair-discrete String-discrete
    OwnershipKey-discrete Text-discrete ℕ_discrete ownership_key normal_directory forward_slashes
    single_slashes strip_last_slash has_drive send send_with publish_snapshot
held_0 = refl

holds_a : record_of plain named_0 both_in ≡ some record_a
unfolding add create find_connection receive handle_message register replace_existing enroll amend
    state_for prune_offline_ownership find put RecordKey-discrete pair-discrete String-discrete
    OwnershipKey-discrete Text-discrete ℕ_discrete ownership_key normal_directory forward_slashes
    single_slashes strip_last_slash has_drive send send_with publish_snapshot
    collect_pending_interactions targets query_each query_pending_snapshot handle_snapshot_response
    apply_projection projection stale_after enrich record_of erase get set PendingKey-discrete
    sort_by_sequence
holds_a = refl

waits_b : candidates plain key "u" both_in.records ≡ record_b ∷ []
unfolding add create find_connection receive handle_message register replace_existing enroll amend
    state_for prune_offline_ownership find put RecordKey-discrete pair-discrete String-discrete
    OwnershipKey-discrete Text-discrete ℕ_discrete ownership_key normal_directory forward_slashes
    single_slashes strip_last_slash has_drive send send_with publish_snapshot
    collect_pending_interactions targets query_each query_pending_snapshot handle_snapshot_response
    apply_projection projection stale_after enrich record_of erase get set PendingKey-discrete
    sort_by_sequence candidates route actionable refusal_of in_flight
waits_b = refl

key_a : ownership_key plain "u" (at_dir "a") ≡ key
unfolding add create find_connection receive handle_message register replace_existing enroll amend
    state_for prune_offline_ownership find put RecordKey-discrete pair-discrete String-discrete
    OwnershipKey-discrete Text-discrete ℕ_discrete ownership_key normal_directory forward_slashes
    single_slashes strip_last_slash has_drive send send_with publish_snapshot
key_a = refl

disconnect_ends_example :
    (find_connection 0 (disconnect plain calm 0 both_in).connections ≡ none)
    × (find RecordKey-discrete ("u", "a") (disconnect plain calm 0 both_in).records
        ≡ some (record record_a { connection = none; state = offline; last_seen_at = 5 }))
disconnect_ends_example =
    disconnect_ends plain options both_in run_both calm 0 named_0 record_a held_0 holds_a

disconnect_hands_over_example :
    (find OwnershipKey-discrete key (disconnect plain calm 0 both_in).ownership ≡ some "b")
    × (find RecordKey-discrete ("u", "b") (disconnect plain calm 0 both_in).records
        ≡ some (record record_b { state = controllable; last_seen_at = 5 }))
unfolding ownership_key normal_directory forward_slashes single_slashes strip_last_slash has_drive
disconnect_hands_over_example =
    disconnect_hands_over plain options calm 0 1 named_0 record_a record_b [] both_in run_both
      held_0 holds_a refl waits_b refl refl (ground arith) refl

disconnect_with-enough_example :
    disconnect_with plain 5 calm 0 both_in ≡ disconnect plain calm 0 both_in
unfolding add create find_connection receive handle_message register replace_existing enroll amend
    state_for prune_offline_ownership find put RecordKey-discrete pair-discrete String-discrete
    OwnershipKey-discrete Text-discrete ℕ_discrete ownership_key normal_directory forward_slashes
    single_slashes strip_last_slash has_drive send send_with publish_snapshot
disconnect_with-enough_example = disconnect_with-enough plain calm 5 0 both_in (omega arith)

abbrev answers : Command
answers = record {
  user_id = "u";
  instance_id = "a";
  request_id = "x";
  command_id = "c";
  session_id = "s";
  body = "this";
}

route_verdict_example :
    ((route plain options calm question answers informed).1 ≡ routed "c"
      ↔ Accepted calm question answers informed)
    × ((route plain options calm question answers informed).1 ≢ routed "c"
        → (route plain options calm question answers informed).0 ≡ informed)
route_verdict_example = route_verdict plain options calm question answers informed

is_routed : (route plain options calm question answers informed).1 ≡ routed "c"
unfolding add create find_connection receive handle_message register replace_existing enroll amend
    state_for prune_offline_ownership find put RecordKey-discrete pair-discrete String-discrete
    OwnershipKey-discrete Text-discrete ℕ_discrete ownership_key normal_directory forward_slashes
    single_slashes strip_last_slash has_drive send send_with publish_snapshot
    collect_pending_interactions targets query_each query_pending_snapshot handle_snapshot_response
    apply_projection projection stale_after enrich record_of erase get set PendingKey-discrete
    sort_by_sequence candidates route actionable refusal_of in_flight
is_routed = refl

route_once_example :
    (route plain options calm question answers
      (route plain options calm question answers informed).0).1
    ≢ routed "d"
route_once_example =
    route_once plain options calm calm question answers answers informed run_informed is_routed refl
      refl refl "d"

abbrev answered : NewOutcome
answered = record {
  user_id = "u";
  command_id = "c";
  request_id = "x";
  instance_id = "a";
  kind = question;
}

outcome_for-record_outcome_example :
    ((outcome_for 9 "u" "c"
        (settle_outcome 7 "c" confirmed (record_outcome options 5 answered []))).1
      ≡ some (record (new_entry options 5 answered) { status = confirmed; updated_at = 7 }))
    × (◌≢◌ {A = String} "u" "v"
        → (outcome_for 9 "v" "c"
            (settle_outcome 7 "c" confirmed (record_outcome options 5 answered []))).1
          ≡ none)
unfolding get
outcome_for-record_outcome_example =
    outcome_for-record_outcome options 5 7 9 answered confirmed "v" [] (omega arith) refl
      (omega arith) (omega arith)

abbrev thrice : InstanceRegistry
thrice = add "u" "k" both_in

run_thrice : Reach plain options thrice
run_thrice = later run_both (adds "u" "k")

link_held_3 : Present (link 2) thrice
unfolding add create find_connection receive handle_message register replace_existing enroll amend
    state_for prune_offline_ownership find put RecordKey-discrete pair-discrete String-discrete
    OwnershipKey-discrete Text-discrete ℕ_discrete ownership_key normal_directory forward_slashes
    single_slashes strip_last_slash has_drive send send_with publish_snapshot
link_held_3 = record { held = link 2; found = refl; same_user = refl; same_name = refl }

found_thrice : find RecordKey-discrete ("u", "a") thrice.records ≡ some record_a
unfolding add create find_connection receive handle_message register replace_existing enroll amend
    state_for prune_offline_ownership find put RecordKey-discrete pair-discrete String-discrete
    OwnershipKey-discrete Text-discrete ℕ_discrete ownership_key normal_directory forward_slashes
    single_slashes strip_last_slash has_drive send send_with publish_snapshot
found_thrice = refl

held_thrice : find_connection 0 thrice.connections ≡ some named_0
unfolding add create find_connection receive handle_message register replace_existing enroll amend
    state_for prune_offline_ownership find put RecordKey-discrete pair-discrete String-discrete
    OwnershipKey-discrete Text-discrete ℕ_discrete ownership_key normal_directory forward_slashes
    single_slashes strip_last_slash has_drive send send_with publish_snapshot
held_thrice = refl

register_replaces_example :
    (register plain calm (link 2) (at_dir "a") thrice
      ≡ call raises (disconnect plain calm 0 thrice))
    × (find RecordKey-discrete ("u", "a") (register plain calm (link 2) (at_dir "a") thrice).records
        ≡ some (record record_a { connection = none; state = offline; last_seen_at = 5 }))
    × (find_connection 0 (register plain calm (link 2) (at_dir "a") thrice).connections ≡ none)
register_replaces_example =
    register_replaces plain options thrice run_thrice calm (link 2) (at_dir "a") record_a named_0
      link_held_3 refl found_thrice refl held_thrice

-- A connection that an invalid frame has dropped still delivers frames while its socket closes.
abbrev closing : Surroundings
closing = record calm { sockets = record healthy { is_open = λ uid. false } }

abbrev dropped : InstanceRegistry
dropped = receive plain calm (link 0) none (add "u" "k" create)

-- A registration among them stores a controllable record, which its disconnect leaves as it is.
late_registers :
    (find RecordKey-discrete
        ("u", "a")
        (disconnect plain closing 0
          (receive plain closing (link 0) (some (registers (at_dir "a"))) dropped)).records
      ≡ some record_a)
unfolding disconnect disconnect_with drop_pending others drop_catalog_requests drop_snapshots
    settle_commands drop_tunnels unlist add create find_connection receive handle_message register
    replace_existing enroll amend state_for prune_offline_ownership find put RecordKey-discrete
    pair-discrete String-discrete OwnershipKey-discrete Text-discrete ℕ_discrete ownership_key
    normal_directory forward_slashes single_slashes strip_last_slash has_drive send send_with
    publish_snapshot collect_pending_interactions targets query_each query_pending_snapshot
    handle_snapshot_response apply_projection projection stale_after enrich record_of erase get set
    PendingKey-discrete sort_by_sequence
late_registers = refl
