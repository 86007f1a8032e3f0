-- ===== src/Gateway/Payload/Budget.antt =====
-- What payload.ts lets through: messages within the budget that tell the event they are of.
use opencode_notify_hub.Shared.{
  ℕ, zero, suc, ◌≤◌, ◌≡◌, refl, sym, ap, ◌∙◌, inl, inr, true, Option, none, some, List, [], ◌∷◌,
  map, arith, leb, Bool-cases, take, keep,
}
use opencode_notify_hub.Gateway.Payload.Texts.{Text}
use opencode_notify_hub.Gateway.Payload.Event.{
  NotifyEvent, PushContent, CompactionCaps, Host, compact_event, Payload, terminal, questions,
  permission, provider_action, heartbeat, action_resolved, Outcome, Question, Choice, cut_question,
  cut_choice, compact_payload,
}
use opencode_notify_hub.Gateway.Payload.Display.{content_of, measure_message}
use opencode_notify_hub.Gateway.Payload.Loop.{fcm_message_budget_bytes, fits, build_push_content}
use opencode_notify_hub.Gateway.Payload.Passes.{
  caps_at, candidate_at, content_at, within_budget, first_of, nine, passes-best,
}

-- A text that the other starts with.
abbrev pub Prefix : Text → Text → Type 0
Prefix s t = (n : ℕ) × (s ≡ take n t)

-- The first list's elements, each cut to one of the second's, in order.
pub data Each {A : Type 0} (R : A → A → Type 0) : List A → List A → Type 0 where
  no_more : Each R [] []
  one_more : {x y : A} {xs ys : List A} → R x y → Each R xs ys → Each R (x ∷ xs) (y ∷ ys)

abbrev pub CutChoice : Choice → Choice → Type 0
CutChoice c d = Prefix d.label c.label × (d.description ≡ none)

abbrev pub CutOptions : Option (List Choice) → Option (List Choice) → Type 0
CutOptions none none = Unit
CutOptions (some cs) (some ds) = Each CutChoice cs ds
CutOptions _ _ = ⊥

abbrev pub CutQuestion : Question → Question → Type 0
CutQuestion q r =
    (r.identity ≡ q.identity) × Prefix r.question q.question × CutOptions q.options r.options

-- A payload that tells the same with less text.
pub data Cut : Payload → Payload → Type 0 where
  whole : (p : Payload) → Cut p p
  no_summary :
      (outcome : Outcome) (elapsed : ℕ) (summary : Option Text)
      → Cut (terminal outcome elapsed summary) (terminal outcome elapsed none)
  cut_questions :
      (qs rs : List Question) → Each CutQuestion qs rs → Cut (questions qs) (questions rs)
  cut_summary : (name s t : Text) → Prefix s t → Cut (permission name t) (permission name s)
  cut_message :
      (rest s t : Text) → Prefix s t → Cut (provider_action rest t) (provider_action rest s)

pub record Tells (e e' : NotifyEvent) : Type 0 where
  pub same_identity : e'.identity ≡ e.identity
  pub same_machine : e'.machine ≡ e.machine
  pub same_directory : e'.directory ≡ e.directory
  pub same_session : e'.session_id ≡ e.session_id
  pub same_title : e'.session_title ≡ e.session_title
  pub cut : Cut e.payload e'.payload

cut_choices : (n : ℕ) (cs : List Choice) → Each CutChoice cs (map (cut_choice n) cs)
cut_choices n [] = no_more
cut_choices n (c ∷ cs) = one_more ((n, refl), refl) (cut_choices n cs)

cut_options :
    (n : ℕ) (o : Option (List Choice))
    → CutOptions o (elim o [ none ↦ none | some cs ↦ some (map (cut_choice n) cs) ])
cut_options n none = tt
cut_options n (some cs) = cut_choices n cs

cut_every : (n : ℕ) (qs : List Question) → Each CutQuestion qs (map (cut_question n) qs)
cut_every n [] = no_more
cut_every n (q ∷ qs) = one_more (refl, (n, refl), cut_options n q.options) (cut_every n qs)

compact_payload-Cut : (caps : CompactionCaps) (p : Payload) → Cut p (compact_payload caps p)
compact_payload-Cut caps (terminal outcome elapsed summary) = no_summary outcome elapsed summary
compact_payload-Cut caps (questions qs) = cut_questions qs _ (cut_every caps.text qs)
compact_payload-Cut caps (permission name summary) = cut_summary name _ summary (caps.section, refl)
compact_payload-Cut caps (provider_action rest message) =
    cut_message rest _ message (caps.section, refl)
compact_payload-Cut caps heartbeat = whole heartbeat
compact_payload-Cut caps action_resolved = whole action_resolved

candidate_at-Tells : (e : NotifyEvent) (n : ℕ) → Tells e (candidate_at e n)
unfolding compact_event
candidate_at-Tells e zero = record {
  same_identity = refl;
  same_machine = refl;
  same_directory = refl;
  same_session = refl;
  same_title = refl;
  cut = whole e.payload;
}
candidate_at-Tells e (suc n) = record {
  same_identity = refl;
  same_machine = refl;
  same_directory = refl;
  same_session = refl;
  same_title = refl;
  cut = compact_payload-Cut (caps_at (suc n)) e.payload;
}

-- The content that is returned is that of some pass.
from_pass :
    (h : Host) (e : NotifyEvent) (c : PushContent) (ns : List ℕ)
    → first_of (keep (within_budget h) (map (content_at h e) ns)) ≡ fits c
    → (within_budget h c ≡ true) × ((n : ℕ) × (c ≡ content_at h e n))
from_pass h e c [] found = let no : ⊥ = ground arith in elim no [ ]
from_pass h e c (n ∷ ns) found = elim (Bool-cases (within_budget h (content_at h e n))) [
  | inl small ↦
      let f = (rw small at found) in
      let same : c ≡ content_at h e n = ground arith in
      (ap (within_budget h) same ∙ small, (n, same))
  | inr large ↦ from_pass h e c ns (rw large at found)
]

leb_le : (a b : ℕ) → leb a b ≡ true → a ≤ b
leb_le a b h = ground arith

-- A content that buildPushContent returns is within the budget, and its envelope is that of an
-- event with the identity, machine, directory and session of the given one, whose payload is of the
-- same kind and number of questions, with each text whole or cut to a prefix and at most the
-- summary or the descriptions left out.
pub build_push_content-Tells :
    (h : Host) (e : NotifyEvent) (c : PushContent)
    → build_push_content h e ≡ fits c
    → (measure_message h c ≤ fcm_message_budget_bytes)
      × ((e' : NotifyEvent) × (c.data_event ≡ h.stringify e') × Tells e e')
unfolding build_push_content content_of
build_push_content-Tells h e c built =
    let (small, (n, same)) = from_pass h e c nine (sym (passes-best h e 9 (omega arith)) ∙ built) in
    (
      leb_le (measure_message h c) fcm_message_budget_bytes small,
      (candidate_at e n, ap (λ (x : PushContent). x.data_event) same, candidate_at-Tells e n),
    )
