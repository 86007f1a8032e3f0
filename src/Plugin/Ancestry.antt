-- ===== src/Plugin/Ancestry.antt =====
-- packages/plugin/src/session-registry.ts: which sessions are a user's own top-level sessions.
-- `isMain` runs in pieces: `is_main` up to its await, `settled` when its lookup has settled (`none`
-- is an unknown answer or an error). The calls that wait get the owner's answer.
pub mod Answers
use text.Mathlib.Text.{starts_with}
use opencode_notify_hub.Shared.{
  String, Bool, true, false, not, ◌&&◌, ◌||◌, Option, none, some, if◌then◌else◌, is_none, or_else,
}
use opencode_notify_hub.Shared.OrdMap.{OrdMap, get, set, delete}

-- The parent is `none` while ancestry is unknown, `some none` for a top-level session. A missing
-- `excluded` counts as false.
pub record CacheEntry : Type 0 where
  pub parent_id : Option (Option String)
  pub title : Option String
  pub excluded : Bool

pub record SessionRegistry : Type 0 where
  pub entries : OrdMap CacheEntry
  pub inflight : OrdMap (Unit {0})

unfoldable pub is_internal_session : Option String → Bool
is_internal_session none = false
is_internal_session (some title) = starts_with title "magic-context-"

abbrev pub blank : CacheEntry
blank = record { parent_id = none; title = none; excluded = false }

abbrev pub entry_of : String → SessionRegistry → CacheEntry
entry_of id r = or_else (get id r.entries) blank

-- `title !== undefined` keeps the old title otherwise.
abbrev pub newer : Option String → Option String → Option String
newer none old = old
newer (some title) old = some title

unfoldable pub updated : Option String → Option String → Bool → CacheEntry → CacheEntry
unfolding is_internal_session
updated parent_id title archived entry = record {
  parent_id = some parent_id;
  title = newer title entry.title;
  excluded = archived || is_internal_session (newer title entry.title);
}

unfoldable pub update :
    String → Option String → Option String → Bool → SessionRegistry → SessionRegistry
unfolding updated
update id parent_id title archived r = record r {
  entries = set id (updated parent_id title archived (entry_of id r)) r.entries;
}

unfoldable pub title_of : String → SessionRegistry → Option String
title_of id r = (entry_of id r).title

abbrev pub is_child : Option (Option String) → Bool
is_child none = false
is_child (some none) = false
is_child (some (some parent)) = true

unfoldable pub excluded_now : String → SessionRegistry → Bool
excluded_now id r = (entry_of id r).excluded || is_child (entry_of id r).parent_id

unfoldable pub update_from_lookup :
    String → Option String → Option String → Bool → SessionRegistry → SessionRegistry
unfolding update
update_from_lookup id parent_id title archived r =
    if is_none (get id r.entries) then update id parent_id title archived r else r

-- The answer of an entry: `none` is not known yet.
unfoldable pub answer : CacheEntry → Option Bool
answer entry = elim entry.parent_id [
  | none ↦ none
  | some parent_id ↦ some (is_none parent_id && not entry.excluded)
]

-- How the synchronous part of `isMain` ends.
pub data Asked : Type 0 where
  answers : Bool → Asked
  waits looks_up : Asked

unfoldable pub is_main : String → SessionRegistry → SessionRegistry × Asked
unfolding answer
is_main id r = elim (answer (entry_of id r)) [
  | some b ↦ (r, answers b)
  | none ↦ elim (get id r.inflight) [
    | some _ ↦ (r, waits)
    | none ↦ (record r { inflight = set id tt r.inflight }, looks_up)
  ]
]

-- `resolve` after its lookup: the registry, and what `isMain` returns.
unfoldable pub resolve :
    String → Option (Option String) → SessionRegistry → SessionRegistry × Option Bool
unfolding answer
resolve id found r = elim (answer (entry_of id r)) [
  | some b ↦ (r, some b)
  | none ↦ elim found [
    | none ↦ (r, none)
    | some parent_id ↦ (
      record r {
        entries = set id (record (entry_of id r) { parent_id = some parent_id }) r.entries;
      },
      some (is_none parent_id),
    )
  ]
]

-- The owner's `finally` clears the entry in flight.
unfoldable pub settled :
    String → Option (Option String) → SessionRegistry → SessionRegistry × Option Bool
unfolding resolve
settled id found r =
    let (resolved, main) = resolve id found r in
    (record resolved { inflight = delete id resolved.inflight }, main)
