-- ===== src/Tests/Messages.antt =====
-- packages/plugin/src/message-cache.ts: one session with a user's and an assistant's message.
use opencode_notify_hub.Shared.{ℕ, ◌≡◌, refl, Bool, none, some, [], ◌∷◌, arith, ◌==◌}
use opencode_notify_hub.Plugin.Messages.{
  MessageCache, create, on_role, on_text, summary, user, assistant, clear, clear_session,
  bounded_positive, truncate_code_points, has_content,
}
use opencode_notify_hub.Plugin.Messages.Privacy.{IsValid, cache_operations-IsValid}
use opencode_notify_hub.Plugin.Messages.Latest.{record_of, summary-on_text, user_text_gone}

abbrev empty_cache : MessageCache
empty_cache = record {
  sessions = [];
  max_messages_per_session = 2;
  max_text_length = 3;
  max_sessions = 2;
}

abbrev is_blank : ℕ → Bool
is_blank c = c == 32

refused : create (some 0) none none ≡ none
unfolding create bounded_positive
refused = refl

empty_cache-IsValid : IsValid empty_cache
empty_cache-IsValid = record { sessions_le = omega arith; sessions_bounded = tt }

cache_operations-IsValid_example :
    IsValid (on_role "s" "m" user empty_cache)
    × IsValid (on_text "s" "m" (104 ∷ 105 ∷ []) empty_cache)
    × IsValid (clear_session "s" empty_cache)
    × IsValid (clear empty_cache)
cache_operations-IsValid_example =
    cache_operations-IsValid "s" "m" user (104 ∷ 105 ∷ []) empty_cache empty_cache-IsValid

-- Cut to three code points.
summary-on_text_example :
    summary is_blank "s"
      (on_text "s" "m" (111 ∷ 107 ∷ 33 ∷ 33 ∷ []) (on_role "s" "m" assistant empty_cache))
    ≡ some (111 ∷ 107 ∷ 33 ∷ [])
unfolding truncate_code_points has_content
summary-on_text_example =
    summary-on_text is_blank "s" "m" (111 ∷ 107 ∷ 33 ∷ 33 ∷ []) empty_cache (omega arith)
      (omega arith) refl

user_text_gone_example :
    ((record_of "s" "m" (on_text "s" "m" (104 ∷ []) (on_role "s" "m" user empty_cache))).text
      ≡ none)
    × ((record_of "s" "m" (on_role "s" "m" assistant (on_role "s" "m" user empty_cache))).text
        ≡ none)
user_text_gone_example = user_text_gone "s" "m" (104 ∷ []) empty_cache (omega arith) (omega arith)
