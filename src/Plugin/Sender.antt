-- ===== src/Plugin/Sender.antt =====
-- packages/plugin/src/sender.ts: the retries of a signed delivery. What `fetch` gives for each
-- attempt is a parameter: the status of a response, or `none` for an error or a timeout. A sleep is
-- the bound that the jitter is taken from. The texts of errors are left out.
pub mod Retries
use opencode_notify_hub.Shared.{
  ℕ, zero, suc, ◌+◌, ◌*◌, ◌^◌, min, ◌&&◌, Option, none, some, List, [], ◌∷◌, ◌++◌, ltb, leb,
  if◌then◌else◌,
}

abbrev pub default_backoff_base_ms : ℕ
default_backoff_base_ms = 100

abbrev pub default_backoff_cap_ms : ℕ
default_backoff_cap_ms = 5000

pub record GatewaySender : Type 0 where
  pub max_retries : ℕ
  pub backoff_base_ms : ℕ
  pub backoff_cap_ms : ℕ

pub data Detail : Type 0 where
  no_attempt network_error : Detail
  http : ℕ → Detail

pub data AttemptOutcome : Type 0 where
  ok : AttemptOutcome
  retryable permanent : Detail → AttemptOutcome

unfoldable pub try_once : Option ℕ → AttemptOutcome
try_once none = retryable network_error
try_once (some status) =
    if leb 200 status && ltb status 300
    then ok
    else if leb 500 status
    then retryable (http status)
    else permanent (http status)

unfoldable pub backoff_bound : GatewaySender → ℕ → ℕ
backoff_bound g failed_attempts = min g.backoff_cap_ms (g.backoff_base_ms * 2 ^ failed_attempts)

-- How `send` ends: resolved, or one of its two errors.
pub data Ending : Type 0 where
  delivered : Ending
  rejected : Detail → Ending
  failed_after : ℕ → Detail → Ending

-- A run of `send`: its requests, the bounds of its sleeps in their order, its end.
pub record Sending : Type 0 where
  pub attempts : ℕ
  pub sleeps : List ℕ
  pub ending : Ending

abbrev pub sleeps_before : GatewaySender → ℕ → List ℕ
sleeps_before g zero = []
sleeps_before g (suc failed_attempts) = backoff_bound g failed_attempts ∷ []

abbrev pub later : List ℕ → Sending → Sending
later sleeps s = record s { attempts = s.attempts + 1; sleeps = sleeps ++ s.sleeps }

module _ (fetch : ℕ → Option ℕ) where
  -- The loop from an attempt on, with the attempts that are left.
  unfoldable pub send_from : GatewaySender → ℕ → ℕ → Detail → Sending
  send_from g zero attempt last_detail = record {
    attempts = 0;
    sleeps = [];
    ending = failed_after (g.max_retries + 1) last_detail;
  }
  send_from g (suc left) attempt last_detail = elim (try_once (fetch attempt)) [
    | ok ↦ record { attempts = 1; sleeps = sleeps_before g attempt; ending = delivered }
    | permanent detail ↦ record {
      attempts = 1;
      sleeps = sleeps_before g attempt;
      ending = rejected detail;
    }
    | retryable detail ↦ later (sleeps_before g attempt) (send_from g left (attempt + 1) detail)
  ]

  unfoldable pub send_event : GatewaySender → Sending
  unfolding send_from
  send_event g = send_from g (g.max_retries + 1) 0 no_attempt
