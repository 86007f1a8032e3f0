-- ===== src/Gateway/Dispatch/Devices.antt =====
-- Which devices dispatcher.ts sends to, and whose token it clears.
use opencode_notify_hub.Shared.{
  ℕ, String, ◌≡◌, refl, ap, ◌∙◌, ◌↔◌, ◌⊎◌, inl, inr, Bool, true, false, Option, none, some, List,
  [], ◌∷◌, ◌++◌, map, arith, ltb, if◌then◌else◌, Bool-cases, Option-cases, keep,
}
use opencode_notify_hub.Gateway.Payload.Event.{NotifyEvent, PushContent, Host}
use opencode_notify_hub.Gateway.Payload.Loop.{
  fits, too_large, out_of_fuel, Built, build_push_content,
}
use opencode_notify_hub.Gateway.Payload.Display.{is_pushable}
use opencode_notify_hub.Gateway.Dispatch.{
  Target, Surroundings, Effect, sends_push, clears_token, fans_out, warns_invalid, warns_oversize,
  looks_up_targets, logs_cleanup_failure, logs_send_failure, with_timeout, after_send,
  send_to_target, all_effects, all_settled, try_catch, clear_token, push, dispatch, Sent, delivered,
  invalid_token, failed, Attempt, settled, timed_out,
}

-- The tokens that were sent to, and the devices whose token was cleared.
abbrev pub sent_tokens : List Effect → List String
sent_tokens [] = []
sent_tokens (sends_push token channel content ∷ es) = token ∷ sent_tokens es
sent_tokens (_ ∷ es) = sent_tokens es

abbrev pub cleared : List Effect → List String
cleared [] = []
cleared (clears_token id ∷ es) = id ∷ cleared es
cleared (_ ∷ es) = cleared es

abbrev pub says_invalid : ℕ → Option (ℕ × Sent) → Bool
says_invalid timeout_ms none = false
says_invalid timeout_ms (some (after_ms, invalid_token)) = ltb after_ms timeout_ms
says_invalid timeout_ms (some (after_ms, _)) = false

-- FCM says in time that the token is invalid.
abbrev pub is_invalid : ℕ → Surroundings → Target → Bool
is_invalid timeout_ms s t = says_invalid timeout_ms (s.sends t)

no_send : (s : Surroundings) (t : Target) (a : Attempt) → sent_tokens (after_send s t a).0 ≡ []
unfolding after_send try_catch clear_token
no_send s t (settled delivered) = refl
no_send s t (settled invalid_token) = elim (Bool-cases (s.update_rejects t)) [
  | inl fails ↦ rw fails refl
  | inr clears ↦ rw clears refl
]
no_send s t (settled failed) = refl
no_send s t timed_out = refl

clears_invalid :
    (s : Surroundings) (t : Target) → cleared (after_send s t (settled invalid_token)).0 ≡ t.id ∷ []
unfolding after_send try_catch clear_token
clears_invalid s t = elim (Bool-cases (s.update_rejects t)) [
  | inl fails ↦ rw fails refl
  | inr clears ↦ rw clears refl
]

clears_if :
    (timeout_ms : ℕ) (s : Surroundings) (t : Target) (sends : Option (ℕ × Sent))
    → cleared (after_send s t (with_timeout timeout_ms sends)).0
      ≡ (if says_invalid timeout_ms sends then t.id ∷ [] else [])
unfolding after_send with_timeout
clears_if timeout_ms s t none = refl
clears_if timeout_ms s t (some (after_ms, delivered)) =
    elim (Bool-cases (ltb after_ms timeout_ms)) [
      | inl soon ↦ rw soon refl
      | inr late ↦ rw late refl
    ]
clears_if timeout_ms s t (some (after_ms, invalid_token)) =
    elim (Bool-cases (ltb after_ms timeout_ms)) [
      | inl soon ↦ rw soon (clears_invalid s t)
      | inr late ↦ rw late refl
    ]
clears_if timeout_ms s t (some (after_ms, failed)) = elim (Bool-cases (ltb after_ms timeout_ms)) [
  | inl soon ↦ rw soon refl
  | inr late ↦ rw late refl
]

module _ (timeout_ms : ℕ) (s : Surroundings) (content : PushContent) where
  sent_tokens-append :
      (xs ys : List Effect) → sent_tokens (xs ++ ys) ≡ sent_tokens xs ++ sent_tokens ys
  sent_tokens-append [] ys = refl
  sent_tokens-append (sends_push token channel c ∷ xs) ys =
      ap (λ ts. token ∷ ts) (sent_tokens-append xs ys)
  sent_tokens-append (fans_out ∷ xs) ys = sent_tokens-append xs ys
  sent_tokens-append (warns_oversize ∷ xs) ys = sent_tokens-append xs ys
  sent_tokens-append (looks_up_targets ∷ xs) ys = sent_tokens-append xs ys
  sent_tokens-append (warns_invalid id ∷ xs) ys = sent_tokens-append xs ys
  sent_tokens-append (clears_token id ∷ xs) ys = sent_tokens-append xs ys
  sent_tokens-append (logs_cleanup_failure id ∷ xs) ys = sent_tokens-append xs ys
  sent_tokens-append (logs_send_failure id ∷ xs) ys = sent_tokens-append xs ys

  cleared-append : (xs ys : List Effect) → cleared (xs ++ ys) ≡ cleared xs ++ cleared ys
  cleared-append [] ys = refl
  cleared-append (clears_token id ∷ xs) ys = ap (λ ts. id ∷ ts) (cleared-append xs ys)
  cleared-append (sends_push token channel c ∷ xs) ys = cleared-append xs ys
  cleared-append (fans_out ∷ xs) ys = cleared-append xs ys
  cleared-append (warns_oversize ∷ xs) ys = cleared-append xs ys
  cleared-append (looks_up_targets ∷ xs) ys = cleared-append xs ys
  cleared-append (warns_invalid id ∷ xs) ys = cleared-append xs ys
  cleared-append (logs_cleanup_failure id ∷ xs) ys = cleared-append xs ys
  cleared-append (logs_send_failure id ∷ xs) ys = cleared-append xs ys

  one_send : (t : Target) → sent_tokens (send_to_target timeout_ms s content t).0 ≡ t.fcm_token ∷ []
  unfolding send_to_target after_send with_timeout
  one_send t = ap (λ ts. t.fcm_token ∷ ts) (no_send s t (with_timeout timeout_ms (s.sends t)))

  one_clear :
      (t : Target)
      → cleared (send_to_target timeout_ms s content t).0
        ≡ (if is_invalid timeout_ms s t then t.id ∷ [] else [])
  unfolding send_to_target after_send with_timeout
  one_clear t = clears_if timeout_ms s t (s.sends t)

  sent_tokens-all_effects :
      (ts : List Target)
      → sent_tokens (all_effects (map (send_to_target timeout_ms s content) ts))
        ≡ map (λ t. t.fcm_token) ts
  sent_tokens-all_effects [] = refl
  sent_tokens-all_effects (t ∷ ts) =
      sent_tokens-append (send_to_target timeout_ms s content t).0
        (all_effects (map (send_to_target timeout_ms s content) ts))
      ∙ rw (one_send t, sent_tokens-all_effects ts) refl

  cleared-all_effects :
      (ts : List Target)
      → cleared (all_effects (map (send_to_target timeout_ms s content) ts))
        ≡ map (λ t. t.id) (keep (is_invalid timeout_ms s) ts)
  cleared-all_effects [] = refl
  cleared-all_effects (t ∷ ts) =
      cleared-append (send_to_target timeout_ms s content t).0
        (all_effects (map (send_to_target timeout_ms s content) ts))
      ∙ rw (one_clear t, cleared-all_effects ts)
          (elim (Bool-cases (is_invalid timeout_ms s t)) [
            | inl invalid ↦ rw invalid refl
            | inr valid ↦ rw valid refl
          ])

-- When the realtime fanout and the target lookup succeed for an event that is pushed and fits the
-- budget, dispatch sends to every target once, in order, clears the token of exactly those of which
-- FCM says in time that it is invalid, and is fulfilled whatever the sends do.
pub dispatch_reaches :
    (h : Host) (timeout_ms : ℕ) (s : Surroundings) (e : NotifyEvent) (content : PushContent)
    (ts : List Target)
    → s.realtime_rejects ≡ false
    → is_pushable h e.payload ≡ true
    → build_push_content h e ≡ fits content
    → s.targets ≡ some ts
    → (sent_tokens (dispatch h timeout_ms s e).0 ≡ map (λ t. t.fcm_token) ts)
      × (cleared (dispatch h timeout_ms s e).0
          ≡ map (λ t. t.id) (keep (is_invalid timeout_ms s) ts))
      × ((dispatch h timeout_ms s e).1 ≡ true)
unfolding dispatch push
dispatch_reaches h timeout_ms s e content ts online pushable built there =
    rw (online, pushable, built)
      (rw (there, push)
        (
          sent_tokens-all_effects timeout_ms s content ts,
          cleared-all_effects timeout_ms s content ts,
          refl,
        ))

absorbs : (s : Surroundings) (t : Target) (a : Attempt) → (after_send s t a).1 ≡ true
unfolding after_send try_catch clear_token
absorbs s t (settled delivered) = refl
absorbs s t (settled invalid_token) = elim (Bool-cases (s.update_rejects t)) [
  | inl fails ↦ rw fails refl
  | inr clears ↦ rw clears refl
]
absorbs s t (settled failed) = refl
absorbs s t timed_out = refl

-- Whatever FCM and the device store answer, the send to a device is fulfilled.
send_to_target-fulfilled :
    (timeout_ms : ℕ) (s : Surroundings) (content : PushContent) (t : Target)
    → (send_to_target timeout_ms s content t).1 ≡ true
unfolding send_to_target
send_to_target-fulfilled timeout_ms s content t = absorbs s t (with_timeout timeout_ms (s.sends t))

fulfilled_push :
    (timeout_ms : ℕ) (s : Surroundings) (b : Built)
    → ((push timeout_ms s b).1 ≡ false)
      ↔ ((content : PushContent) × (b ≡ fits content) × (s.targets ≡ none))
unfolding push all_settled
fulfilled_push timeout_ms s (fits content) = elim (Option-cases s.targets) [
  | inl missing ↦ (λ h. (content, refl, missing), λ h. rw (missing, push) refl)
  | inr (ts, there) ↦ (
    λ h. let no = (rw (there, push) at h) in let f : ⊥ = ground arith in elim f [ ],
    λ h. let no = h.2 in let f : ⊥ = ground arith in elim f [ ],
  )
]
fulfilled_push timeout_ms s too_large = (
  λ h. let f : ⊥ = ground arith in elim f [ ],
  λ h. let no = h.1 in let f : ⊥ = ground arith in elim f [ ],
)
fulfilled_push timeout_ms s out_of_fuel = (
  λ h. let f : ⊥ = ground arith in elim f [ ],
  λ h. let no = h.1 in let f : ⊥ = ground arith in elim f [ ],
)

-- Dispatch rejects exactly if the realtime fanout does, or if it does not and the event is pushed
-- and fits the budget but the lookup of the targets fails. The send to a device is fulfilled
-- whatever FCM and the device store answer, also when clearing the token fails.
pub dispatch_rejects :
    (h : Host) (timeout_ms : ℕ) (s : Surroundings) (e : NotifyEvent)
    → (((dispatch h timeout_ms s e).1 ≡ false) ↔ (
        (s.realtime_rejects ≡ true)
        ⊎ ((s.realtime_rejects ≡ false)
            × (is_pushable h e.payload ≡ true)
            × ((content : PushContent) × (build_push_content h e ≡ fits content)
                × (s.targets ≡ none)))))
      × ((content : PushContent) (t : Target) → (send_to_target timeout_ms s content t).1 ≡ true)
unfolding dispatch
dispatch_rejects h timeout_ms s e = (
  elim (Bool-cases s.realtime_rejects) [
    | inl offline ↦ (λ x. inl offline, λ x. rw offline refl)
    | inr online ↦ elim (Bool-cases (is_pushable h e.payload)) [
      | inl pushable ↦ (
        λ x. inr (
          online,
          pushable,
          (fulfilled_push timeout_ms s (build_push_content h e)).0 (rw (online, pushable) at x),
        ),
        λ x.
            rw (online, pushable)
              (elim x [
                | inl offline ↦ let f : ⊥ = ground arith in elim f [ ]
                | inr failing ↦ (fulfilled_push timeout_ms s (build_push_content h e)).1 failing.2
              ]),
      )
      | inr silent ↦ (
        λ x. let no = (rw (online, silent) at x) in let f : ⊥ = ground arith in elim f [ ],
        λ x. elim x [
          | inl offline ↦ let f : ⊥ = ground arith in elim f [ ]
          | inr failing ↦ let no = failing.1 in let f : ⊥ = ground arith in elim f [ ]
        ],
      )
    ]
  ],
  send_to_target-fulfilled timeout_ms s,
)
