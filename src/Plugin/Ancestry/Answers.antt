-- ===== src/Plugin/Ancestry/Answers.antt =====
-- The answers of session-registry.ts.
use opencode_notify_hub.Shared.{
  String, ◌≡◌, refl, ap, Bool, false, not, ◌&&◌, ◌||◌, Option, none, some, arith, is_none,
}
use opencode_notify_hub.Shared.OrdMap.{get, get-set, get-delete}
use opencode_notify_hub.Plugin.Ancestry.{
  SessionRegistry, entry_of, newer, is_internal_session, updated, update, answer, answers, looks_up,
  is_main, resolve, settled,
}

entry_of-update :
    (id : String) (parent_id title : Option String) (archived : Bool) (r : SessionRegistry)
    → entry_of id (update id parent_id title archived r)
      ≡ updated parent_id title archived (entry_of id r)
unfolding update
entry_of-update id parent_id title archived r =
    ground (arith, get-set id id (updated parent_id title archived (entry_of id r)) r.entries)

settled-known :
    (id : String) (b : Bool) (found : Option (Option String)) (r : SessionRegistry)
    → answer (entry_of id r) ≡ some b
    → ((settled id found r).1 ≡ some b) × ((settled id found r).0.entries ≡ r.entries)
unfolding settled resolve
settled-known id b found r known = rw (known, resolve) (refl, refl)

-- An upsert that lands while a lookup is under way wins: whatever the lookup finds, or that it
-- fails, isMain returns what the upsert says (top-level, not archived, and no title, new or else
-- kept, that marks an internal session), and the entries stay as the upsert left them.
pub settled-update :
    (id : String) (parent_id title : Option String) (archived : Bool)
    (found : Option (Option String)) (r : SessionRegistry)
    → ((settled id found (update id parent_id title archived r)).1
        ≡ some (
            is_none parent_id
            && not (archived || is_internal_session (newer title (entry_of id r).title))))
      × ((settled id found (update id parent_id title archived r)).0.entries
          ≡ (update id parent_id title archived r).entries)
unfolding settled resolve answer updated
settled-update id parent_id title archived found r =
    let known : answer (entry_of id (update id parent_id title archived r))
        ≡ some (
            is_none parent_id
            && not (archived || is_internal_session (newer title (entry_of id r).title))) =
      ap answer (entry_of-update id parent_id title archived r) in
    settled-known id _ found (update id parent_id title archived r) known

-- When the lookup of a session with no known ancestry fails, isMain returns unknown, never true,
-- nothing is cached, and the next call looks up again.
pub settled-unknown :
    (id : String) (r : SessionRegistry)
    → answer (entry_of id r) ≡ none
    → ((settled id none r).1 ≡ none)
      × ((settled id none r).0.entries ≡ r.entries)
      × ((is_main id (settled id none r).0).1 ≡ looks_up)
unfolding settled resolve is_main
settled-unknown id r unknown = ground (arith, get-delete id id r.inflight)

-- When the lookup of a session without an entry succeeds, isMain returns whether it has no parent,
-- and the next call answers the same at once from the cache.
pub is_main-settled :
    (id : String) (parent_id : Option String) (r : SessionRegistry)
    → get id r.entries ≡ none
    → ((settled id (some parent_id) r).1 ≡ some (is_none parent_id))
      × (is_main id (settled id (some parent_id) r).0
          ≡ ((settled id (some parent_id) r).0, answers (is_none parent_id)))
unfolding settled resolve answer is_main
is_main-settled id parent_id r unknown = ground (
  arith,
  get-set id id (record { parent_id = some parent_id; title = none; excluded = false }) r.entries,
)
