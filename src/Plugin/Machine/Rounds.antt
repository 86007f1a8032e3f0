-- ===== src/Plugin/Machine/Rounds.antt =====
-- The rounds of one session of state-machine.ts: what holds of its state between operations.
use opencode_notify_hub.Shared.{
  ℕ, String, ◌≡◌, refl, Bool, true, false, not, Option, none, some, List, arith, is_none,
}
use opencode_notify_hub.Plugin.Machine.Timers.{set_timeout}
use opencode_notify_hub.Plugin.Machine.State.{
  SessionStatus, busy, retry, idle, TerminalOutcome, ActionKind, ProviderAction, Details,
  SessionState, Local, Options, fresh_state,
}
use opencode_notify_hub.Plugin.Machine.Session.{
  on_asked, on_resolved, idle_fired, flush, on_terminal_signal, on_provider_action, on_active,
  on_busy, on_retry, on_idle, on_heartbeat_tick,
}

abbrev is_idle : SessionStatus → Bool
is_idle idle = true
is_idle _ = false

-- A debounce holds one timer and one snapshot; it runs only while idle and before the terminal. A
-- heartbeat runs only inside a round and while not idle. A terminal ends the round, and is recorded.
pub record IsRound (s : SessionState) : Type 0 where
  pub snapshot : is_none s.idle_timer ≡ is_none s.pending_elapsed_ms
  pub debounce :
      is_none s.idle_timer ≡ false → (is_idle s.status ≡ true) × (s.terminal_sent ≡ false)
  pub heartbeat :
      is_none s.heartbeat_timer ≡ false
      → (is_idle s.status ≡ false) × (is_none s.busy_since ≡ false)
  pub ended : s.terminal_sent ≡ true → is_none s.busy_since ≡ true
  pub recorded : is_none s.terminal_outcome ≡ not s.terminal_sent

fresh_state-IsRound : IsRound fresh_state
fresh_state-IsRound = record {
  snapshot = refl;
  debounce = λ h. ground arith;
  heartbeat = λ h. ground arith;
  ended = λ h. ground arith;
  recorded = refl;
}

module _ (session_id : String) where
  on_asked-IsRound :
      (kind : ActionKind) (request_id : String) (details : Details) (l : Local)
      → IsRound l.state
      → IsRound (on_asked session_id kind request_id details l).state
  unfolding on_asked
  on_asked-IsRound kind request_id details l v = ground arith

  on_resolved-IsRound :
      (kind : ActionKind) (request_id : String) (l : Local)
      → IsRound l.state
      → IsRound (on_resolved session_id kind request_id l).state
  unfolding on_resolved
  on_resolved-IsRound kind request_id l v = ground arith

  -- `idle_fired` is entered with the debounce pending, the timer gone.
  idle_fired-IsRound :
      (l : Local)
      → is_none l.state.idle_timer ≡ false
      → IsRound l.state
      → IsRound (idle_fired session_id l).state
  unfolding idle_fired
  idle_fired-IsRound l p v = ground arith

  flush-IsRound : (l : Local) → IsRound l.state → IsRound (flush session_id l).state
  unfolding flush
  flush-IsRound l v = ground arith

  on_terminal_signal-IsRound :
      (now : ℕ) (outcome : TerminalOutcome) (l : Local)
      → IsRound l.state
      → IsRound (on_terminal_signal session_id now outcome l).state
  unfolding on_terminal_signal
  on_terminal_signal-IsRound now outcome l v = ground arith

  on_provider_action-IsRound :
      (digest : List String → String) (a : ProviderAction) (l : Local)
      → IsRound l.state
      → IsRound (on_provider_action session_id digest a l).state
  unfolding on_provider_action
  on_provider_action-IsRound digest a l v = ground arith

module _ (options : Options) (session_id : String) where
  on_active-IsRound :
      (now : ℕ) (status : SessionStatus) (l : Local)
      → is_idle status ≡ false
      → IsRound l.state
      → IsRound (on_active options session_id now status l).state
  unfolding on_active set_timeout
  on_active-IsRound now status l h v = ground arith

  on_busy-IsRound :
      (now : ℕ) (l : Local) → IsRound l.state → IsRound (on_busy options session_id now l).state
  unfolding on_busy
  on_busy-IsRound now l v = ground (arith, on_active-IsRound now busy l refl v)

  on_retry-IsRound :
      (digest : List String → String) (now : ℕ) (action : Option ProviderAction) (l : Local)
      → IsRound l.state
      → IsRound (on_retry options session_id digest now action l).state
  unfolding on_retry
  on_retry-IsRound digest now none l v = on_active-IsRound now retry l refl v
  on_retry-IsRound digest now (some a) l v =
      on_provider_action-IsRound session_id digest a _ (on_active-IsRound now retry l refl v)

  on_idle-IsRound :
      (now : ℕ) (l : Local) → IsRound l.state → IsRound (on_idle options session_id now l).state
  unfolding on_idle set_timeout
  on_idle-IsRound now l v = ground arith

  on_heartbeat_tick-IsRound :
      (now : ℕ) (l : Local)
      → IsRound l.state
      → IsRound (on_heartbeat_tick options session_id now l).state
  unfolding on_heartbeat_tick set_timeout
  on_heartbeat_tick-IsRound now l v = ground arith

-- The states of a session that operations lead to. The idle timer fires only while it is pending.
pub data Reaches (options : Options) (id : String) (digest : List String → String)
    : Local → Type 0 where
  starts : {l : Local} → l.state ≡ fresh_state → Reaches options id digest l
  asked :
      {l : Local} (kind : ActionKind) (request_id : String) (details : Details)
      → Reaches options id digest l
      → Reaches options id digest (on_asked id kind request_id details l)
  resolved :
      {l : Local} (kind : ActionKind) (request_id : String)
      → Reaches options id digest l
      → Reaches options id digest (on_resolved id kind request_id l)
  fired :
      {l : Local}
      → is_none l.state.idle_timer ≡ false
      → Reaches options id digest l
      → Reaches options id digest (idle_fired id l)
  flushed : {l : Local} → Reaches options id digest l → Reaches options id digest (flush id l)
  ends :
      {l : Local} (now : ℕ) (outcome : TerminalOutcome)
      → Reaches options id digest l
      → Reaches options id digest (on_terminal_signal id now outcome l)
  works :
      {l : Local} (now : ℕ)
      → Reaches options id digest l
      → Reaches options id digest (on_busy options id now l)
  retries :
      {l : Local} (now : ℕ) (action : Option ProviderAction)
      → Reaches options id digest l
      → Reaches options id digest (on_retry options id digest now action l)
  rests :
      {l : Local} (now : ℕ)
      → Reaches options id digest l
      → Reaches options id digest (on_idle options id now l)
  ticks :
      {l : Local} (now : ℕ)
      → Reaches options id digest l
      → Reaches options id digest (on_heartbeat_tick options id now l)

-- In every state that operations lead a session to from its first, the idle timer firing only while
-- it is held: an idle timer and a snapshot of the elapsed time are held together or not at all, and
-- only while idle and before the round's terminal event; a heartbeat timer is held only inside a
-- round and not while idle; after a terminal event the round is over; an outcome is recorded
-- exactly if the terminal event was sent.
pub Reaches-IsRound :
    (options : Options) (id : String) (digest : List String → String) (l : Local)
    → Reaches options id digest l
    → IsRound l.state
Reaches-IsRound options id digest l (starts e) = rw e fresh_state-IsRound
Reaches-IsRound options id digest _ (asked {l} kind request_id details r) =
    on_asked-IsRound id kind request_id details l (Reaches-IsRound options id digest l r)
Reaches-IsRound options id digest _ (resolved {l} kind request_id r) =
    on_resolved-IsRound id kind request_id l (Reaches-IsRound options id digest l r)
Reaches-IsRound options id digest _ (fired {l} p r) =
    idle_fired-IsRound id l p (Reaches-IsRound options id digest l r)
Reaches-IsRound options id digest _ (flushed {l} r) =
    flush-IsRound id l (Reaches-IsRound options id digest l r)
Reaches-IsRound options id digest _ (ends {l} now outcome r) =
    on_terminal_signal-IsRound id now outcome l (Reaches-IsRound options id digest l r)
Reaches-IsRound options id digest _ (works {l} now r) =
    on_busy-IsRound options id now l (Reaches-IsRound options id digest l r)
Reaches-IsRound options id digest _ (retries {l} now action r) =
    on_retry-IsRound options id digest now action l (Reaches-IsRound options id digest l r)
Reaches-IsRound options id digest _ (rests {l} now r) =
    on_idle-IsRound options id now l (Reaches-IsRound options id digest l r)
Reaches-IsRound options id digest _ (ticks {l} now r) =
    on_heartbeat_tick-IsRound options id now l (Reaches-IsRound options id digest l r)
