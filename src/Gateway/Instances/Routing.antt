-- ===== src/Gateway/Instances/Routing.antt =====
-- Which commands instance-registry.ts routes, and how often.
use opencode_notify_hub.Shared.{
  ℕ, String, ◌≡◌, refl, ap, ◌≢◌, ◌↔◌, inl, inr, true, false, none, some, arith, Bool-cases,
  Option-cases,
}
use opencode_notify_hub.Shared.OrdMap.{get}
use opencode_notify_hub.Shared.Table.{find}
use opencode_notify_hub.Gateway.Instances.State.{
  controllable, RecordKey-discrete, InstanceRecord, InstanceRegistry, Surroundings, Options, Kind,
  question, permission, Identity,
}
use opencode_notify_hub.Gateway.Instances.Keys.{Platform, record_key}
use opencode_notify_hub.Gateway.Instances.Commands.{
  Command, routed, actionable, refusal_of, in_flight, commands, dispatch, route, same_kind,
}

-- The conditions on which a command is routed.
pub record Accepted (s : Surroundings) (kind : Kind) (c : Command) (r : InstanceRegistry)
    : Type 0 where
  pub target : InstanceRecord
  pub connection : ℕ
  pub request : Identity
  pub found : find RecordKey-discrete (record_key c.user_id c.instance_id) r.records ≡ some target
  pub same_user : target.user_id ≡ c.user_id
  pub controls : target.state ≡ controllable
  pub connected : target.connection ≡ some connection
  pub opened : s.sockets.is_open connection ≡ true
  pub pending : get c.request_id target.projected_requests ≡ some request
  pub same_request_kind : request.kind ≡ kind
  pub same_session : request.session_id ≡ c.session_id
  pub idle : in_flight connection c.request_id c.command_id (commands kind r) ≡ false

actionable_of :
    (s : Surroundings) (user_id : String) (rec : InstanceRecord) (uid : ℕ)
    → actionable s user_id (some rec) ≡ some uid
    → (rec.user_id ≡ user_id)
      × (rec.state ≡ controllable)
      × (rec.connection ≡ some uid)
      × (s.sockets.is_open uid ≡ true)
unfolding actionable
actionable_of s user_id rec uid h = elim (Option-cases rec.connection) [
  | inl gone ↦ let no : ⊥ = ground arith in elim no [ ]
  | inr (j, linked) ↦ (ground arith, ground arith, ground arith, ground arith)
]

to_actionable :
    (s : Surroundings) (user_id : String) (rec : InstanceRecord) (uid : ℕ)
    → rec.user_id ≡ user_id
    → rec.state ≡ controllable
    → rec.connection ≡ some uid
    → s.sockets.is_open uid ≡ true
    → actionable s user_id (some rec) ≡ some uid
unfolding actionable
to_actionable s user_id rec uid same_user controls linked opened = ground arith

same_kind_of : (kind other : Kind) → same_kind kind other ≡ true → other ≡ kind
same_kind_of question question h = refl
same_kind_of permission permission h = refl
same_kind_of question permission h = ground arith
same_kind_of permission question h = ground arith

same_kind_refl : (kind : Kind) → same_kind kind kind ≡ true
same_kind_refl question = refl
same_kind_refl permission = refl

refusal_none :
    (kind : Kind) (c : Command) (rec : InstanceRecord)
    → refusal_of kind c rec ≡ none
    → (identity : Identity) × (get c.request_id rec.projected_requests ≡ some identity)
      × (identity.kind ≡ kind)
      × (identity.session_id ≡ c.session_id)
unfolding refusal_of
refusal_none kind c rec h = elim (Option-cases (get c.request_id rec.projected_requests)) [
  | inl absent ↦ let no : ⊥ = ground arith in elim no [ ]
  | inr (identity, pending) ↦
      let same : same_kind kind identity.kind ≡ true = ground arith in
      (identity, pending, same_kind_of kind identity.kind same, ground arith)
]

to_refusal_none :
    (kind : Kind) (c : Command) (rec : InstanceRecord) (identity : Identity)
    → get c.request_id rec.projected_requests ≡ some identity
    → identity.kind ≡ kind
    → identity.session_id ≡ c.session_id
    → refusal_of kind c rec ≡ none
unfolding refusal_of
to_refusal_none kind c rec identity pending same_request_kind same_session =
    let itself = same_kind_refl kind in ground arith

module _ (p : Platform) (o : Options) (s : Surroundings) (kind : Kind) (c : Command)
    (r : InstanceRegistry) where
  pub Accepted-route :
      (h : Accepted s kind c r)
      → route p o s kind c r ≡ (dispatch p o s kind c h.target h.connection r, routed c.command_id)
  unfolding route
  Accepted-route h =
      let at =
        to_actionable s c.user_id h.target h.connection h.same_user h.controls h.connected
          h.opened in
      let passed =
        to_refusal_none kind c h.target h.request h.pending h.same_request_kind h.same_session in
      rw (h.found, route) (rw (at, route) (rw (passed, route) (rw h.idle refl)))

  pub routed_when : Accepted s kind c r → (route p o s kind c r).1 ≡ routed c.command_id
  routed_when h = ap (λ x. x.1) (Accepted-route h)

  pub route-Accepted : (id : String) → (route p o s kind c r).1 ≡ routed id → Accepted s kind c r
  unfolding route
  route-Accepted id h =
      elim (Option-cases (find RecordKey-discrete (record_key c.user_id c.instance_id) r.records)) [
        | inl absent ↦ let no = (rw (absent, route) at h) in let f : ⊥ = ground arith in elim f [ ]
        | inr (rec, found) ↦
            let h1 = (rw (found, route) at h) in
            elim (Option-cases (actionable s c.user_id (some rec))) [
              | inl gone ↦
                  let no = (rw (gone, route) at h1) in let f : ⊥ = ground arith in elim f [ ]
              | inr (uid, there) ↦
                  let h2 = (rw (there, route) at h1) in
                  elim (Option-cases (refusal_of kind c rec)) [
                    | inr (refusal, is) ↦
                        let no = (rw (is, route) at h2) in let f : ⊥ = ground arith in elim f [ ]
                    | inl passed ↦
                        let h3 = (rw (passed, route) at h2) in
                        let (same_user, controls, connected, opened) =
                          actionable_of s c.user_id rec uid there in
                        let (identity, pending, its_kind, its_session) =
                          refusal_none kind c rec passed in
                        record {
                          target = rec;
                          connection = uid;
                          request = identity;
                          found = found;
                          same_user = same_user;
                          controls = controls;
                          connected = connected;
                          opened = opened;
                          pending = pending;
                          same_request_kind = its_kind;
                          same_session = its_session;
                          idle =
                              elim (Bool-cases
                                (in_flight uid c.request_id c.command_id (commands kind r))) [
                                  | inr quiet ↦ quiet
                                  | inl busy ↦
                                      let no = (rw busy at h3) in
                                      let f : ⊥ = ground arith in elim f [ ]
                                ];
                        }
                  ]
            ]
      ]

  unchanged : (route p o s kind c r).1 ≢ routed c.command_id → (route p o s kind c r).0 ≡ r
  unfolding route
  unchanged n =
      elim (Option-cases (find RecordKey-discrete (record_key c.user_id c.instance_id) r.records)) [
        | inl absent ↦ rw (absent, route) refl
        | inr (rec, found) ↦ elim (Option-cases (actionable s c.user_id (some rec))) [
          | inl gone ↦ rw (found, route) (rw (gone, route) refl)
          | inr (uid, there) ↦ elim (Option-cases (refusal_of kind c rec)) [
            | inr (refusal, is) ↦ rw (found, route) (rw (there, route) (rw (is, route) refl))
            | inl passed ↦
                elim (Bool-cases (in_flight uid c.request_id c.command_id (commands kind r))) [
                  | inl busy ↦
                      rw (found, route) (rw (there, route) (rw (passed, route) (rw busy refl)))
                  | inr quiet ↦
                      let is : (route p o s kind c r).1 ≡ routed c.command_id =
                        rw (found, route)
                          (rw (there, route) (rw (passed, route) (rw quiet refl))) in
                      elim (n is) [ ]
                ]
          ]
        ]
      ]

  -- answerQuestion and decidePermission route a command exactly if the record of the user's
  -- instance is controllable, its connection is open, its projection holds the request with that
  -- kind and session, and no command for the request or of the id is under way on the connection;
  -- if not, the registry is unchanged.
  pub route_verdict :
      ((route p o s kind c r).1 ≡ routed c.command_id ↔ Accepted s kind c r)
      × ((route p o s kind c r).1 ≢ routed c.command_id → (route p o s kind c r).0 ≡ r)
  route_verdict = ((route-Accepted c.command_id, routed_when), unchanged)
