-- ===== src/Gateway/Dedupe/Maps.antt =====
-- The maps of dedupe.ts under their operations: distinct keys, and the sizes that eviction leaves.
use opencode_notify_hub.Shared.{ℕ, ◌≤◌, ◌<◌, String, ◌≡◌, refl, none, some, [], ◌∷◌, ◌++◌, arith}
use opencode_notify_hub.Shared.OrdMap.{OrdMap, get, size, get-append, get-keep}
use opencode_notify_hub.Gateway.Dedupe.{evict_expired, evict_oldest}

-- The loop leaves at most `max_size` entries, and all of them if they fit.
pub size-evict_oldest-le : (n : ℕ) (m : OrdMap ℕ) → size (evict_oldest n m) ≤ n
unfolding evict_oldest
size-evict_oldest-le n [] = omega arith
size-evict_oldest-le n (e ∷ m) = ground (arith, size-evict_oldest-le n m)

pub evict_oldest_fits : (n : ℕ) (m : OrdMap ℕ) → size m ≤ n → evict_oldest n m ≡ m
unfolding evict_oldest
evict_oldest_fits n [] h = refl
evict_oldest_fits n (e ∷ m) h = ground arith

-- The last entry survives a loop with room for one.
pub get-evict_oldest_last :
    (n : ℕ) (m : OrdMap ℕ) (k : String) (v : ℕ)
    → 0 < n
    → get k m ≡ none
    → get k (evict_oldest n (m ++ (k, v) ∷ [])) ≡ some v
unfolding evict_oldest get
get-evict_oldest_last n [] k v p h = ground arith
get-evict_oldest_last n ((j, w) ∷ m) k v p h =
    let later : get k m ≡ none = ground arith in
    ground (arith, get-evict_oldest_last n m k v, get-append k m ((k, v) ∷ []))

pub get-evict_expired :
    (now : ℕ) (k : String) (v : ℕ) (m : OrdMap ℕ)
    → get k m ≡ some v
    → now < v
    → get k (evict_expired now m) ≡ some v
unfolding evict_expired
get-evict_expired now k v m h lt = get-keep _ k v m h (λ j e. ground arith)
