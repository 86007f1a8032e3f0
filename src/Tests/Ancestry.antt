-- ===== src/Tests/Ancestry.antt =====
-- packages/plugin/src/session-registry.ts: a session that is not known yet.
use opencode_notify_hub.Shared.{◌≡◌, refl, false, none, some, [], ◌∷◌}
use opencode_notify_hub.Shared.OrdMap.{get, set}
use opencode_notify_hub.Plugin.Ancestry.{
  SessionRegistry, is_main, settled, update, answer, looks_up,
}
use opencode_notify_hub.Plugin.Ancestry.Answers.{settled-update, settled-unknown}

-- A lookup of "s" is under way.
abbrev asking : SessionRegistry
asking = record { entries = []; inflight = ("s", tt) ∷ [] }

asked : is_main "s" (record { entries = []; inflight = [] }) ≡ (asking, looks_up)
unfolding is_main answer get set
asked = refl

-- The upsert of a child wins over a lookup that takes it for top-level.
settled-update_example :
    ((settled "s" (some none) (update "s" (some "p") (some "t") false asking)).1 ≡ some false)
    × ((settled "s" (some none) (update "s" (some "p") (some "t") false asking)).0.entries
        ≡ (update "s" (some "p") (some "t") false asking).entries)
settled-update_example = settled-update "s" (some "p") (some "t") false (some none) asking

settled-unknown_example :
    ((settled "s" none asking).1 ≡ none)
    × ((settled "s" none asking).0.entries ≡ [])
    × ((is_main "s" (settled "s" none asking).0).1 ≡ looks_up)
unfolding answer get
settled-unknown_example = settled-unknown "s" asking refl
