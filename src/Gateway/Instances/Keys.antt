-- ===== src/Gateway/Instances/Keys.antt =====
-- The keys of instance-registry.ts. `trim` and `toLocaleLowerCase` are the platform's.
use opencode_notify_hub.Shared.{
  ℕ, String, Bool, false, ◌&&◌, ◌||◌, [], ◌∷◌, ltb, leb, ◌==◌, if◌then◌else◌, length,
}
use opencode_notify_hub.Gateway.Instances.State.{Text, RegisterMessage, RecordKey, OwnershipKey}

pub record Platform : Type 0 where
  pub trim : Text → Text
  pub lower : Text → Text

-- `replaceAll("\\", "/")`
unfoldable pub forward_slashes : Text → Text
forward_slashes [] = []
forward_slashes (c ∷ cs) = (if c == 92 then 47 else c) ∷ forward_slashes cs

abbrev pub starts_with_slash : Text → Bool
starts_with_slash [] = false
starts_with_slash (c ∷ cs) = c == 47

-- `replace(/\/{2,}/g, "/")`: of each run of slashes the last one stays.
unfoldable pub single_slashes : Text → Text
single_slashes [] = []
single_slashes (c ∷ cs) =
    let rest = single_slashes cs in if (c == 47) && starts_with_slash cs then rest else c ∷ rest

-- `replace(/\/$/, "")`
unfoldable pub strip_last_slash : Text → Text
strip_last_slash [] = []
strip_last_slash (c ∷ []) = if c == 47 then [] else c ∷ []
strip_last_slash (c ∷ d ∷ cs) = c ∷ strip_last_slash (d ∷ cs)

abbrev pub is_letter : ℕ → Bool
is_letter c = (leb 65 c && leb c 90) || (leb 97 c && leb c 122)

-- `/^[A-Za-z]:\//`
unfoldable pub has_drive : Text → Bool
has_drive (c ∷ d ∷ e ∷ cs) = is_letter c && (d == 58) && (e == 47)
has_drive _ = false

unfoldable pub normal_directory : Platform → Text → Text
unfolding forward_slashes single_slashes strip_last_slash has_drive
normal_directory p directory =
    let slashed = single_slashes (forward_slashes (p.trim directory)) in
    let bare = if ltb 1 (length slashed) then strip_last_slash slashed else slashed in
    if has_drive bare then p.lower bare else bare

unfoldable pub ownership_key : Platform → String → RegisterMessage → OwnershipKey
unfolding normal_directory
ownership_key p user_id r = (user_id, (p.lower (p.trim r.machine), normal_directory p r.directory))

abbrev pub record_key : String → String → RecordKey
record_key user_id instance_id = (user_id, instance_id)
