-- ===== src/Shared/Table.antt =====
-- A JavaScript `Map` over any keys that can be compared, in insertion order.
use mathlib.Core.Path.{◌≡◌, refl, ap, sym, ◌∙◌}
use mathlib.Core.Logic.{ite}
use mathlib.Core.Option.{Option, none, some}
use mathlib.Core.List.{List, [], ◌∷◌}
use native.Mathlib.Omega.{arith}
use mathlib.Core.Bool.{Bool, true}
use opencode_notify_hub.Shared.Lists.{All, All-mono, keep}

-- Texts of several parts are compared part by part.
pair_dec {ℓ κ} :
    {A : Type ℓ} {B : Type κ} {a a' : A} {b b' : B}
    → Dec (a ≡ a')
    → Dec (b ≡ b')
    → Dec (◌≡◌ {A = A × B} (a, b) (a', b'))
pair_dec (yes p) (yes q) = yes (λ i. (p i, q i))
pair_dec (yes p) (no n) = no (λ e. n (ap (λ c. c.1) e))
pair_dec (no n) _ = no (λ e. n (ap (λ c. c.0) e))

unfoldable pub pair-discrete {ℓ κ} :
    {A : Type ℓ} {B : Type κ} → Discrete A → Discrete B → Discrete (A × B)
unfolding pair_dec
pair-discrete same_first same_second (a, b) (a', b') = pair_dec (same_first a a') (same_second b b')

abbrev pub Table : Type 0 → Type 0 → Type 0
Table K V = List (K × V)

module _ {ℓ} {K V : Type ℓ} (same : Discrete K) where
  unfoldable pub find : K → List (K × V) → Option V
  find k [] = none
  find k ((j, v) ∷ m) = ite (same j k) (some v) (find k m)

  unfoldable pub put : K → V → List (K × V) → List (K × V)
  put k v [] = (k, v) ∷ []
  put k v ((j, w) ∷ m) = ite (same j k) ((j, v) ∷ m) ((j, w) ∷ put k v m)

  unfoldable pub erase : K → List (K × V) → List (K × V)
  erase k [] = []
  erase k ((j, w) ∷ m) = ite (same j k) (erase k m) ((j, w) ∷ erase k m)

  pub find-put :
      (j k : K) (v : V) (m : List (K × V)) → find j (put k v m) ≡ ite (same k j) (some v) (find j m)
  unfolding find put
  find-put j k v [] = refl
  find-put j k v ((i, w) ∷ m) = ground (arith, find-put j k v m)

  pub find_same : (j k : K) (v : V) (m : List (K × V)) → k ≡ j → find j (put k v m) ≡ some v
  find_same j k v m e = ground (arith, find-put j k v m)

  pub find_other : (j k : K) (v : V) (m : List (K × V)) → ¬ (k ≡ j) → find j (put k v m) ≡ find j m
  find_other j k v m n = ground (arith, find-put j k v m)

  pub find-erase :
      (j k : K) (m : List (K × V)) → find j (erase k m) ≡ ite (same k j) none (find j m)
  unfolding find erase
  find-erase j k [] = ground arith
  find-erase j k ((i, w) ∷ m) = ground (arith, find-erase j k m)

  pub erase_same : (k : K) (m : List (K × V)) → find k (erase k m) ≡ none
  erase_same k m = ground (arith, find-erase k k m)

  pub erase_other : (j k : K) (m : List (K × V)) → ¬ (k ≡ j) → find j (erase k m) ≡ find j m
  erase_other j k m n = ground (arith, find-erase j k m)

  pub erase_found :
      (j k : K) (v : V) (m : List (K × V))
      → find j (erase k m) ≡ some v
      → (find j m ≡ some v) × ¬ (k ≡ j)
  erase_found j k v m h = elim (same k j) [
    | yes here ↦ ground (arith, find-erase j k m)
    | no there ↦ (sym (erase_other j k m there) ∙ h, there)
  ]

-- No key occurs twice.
module _ {ℓ} {K V : Type ℓ} (same : Discrete K) where
  unfoldable pub Unique : List (K × V) → Type ℓ
  Unique [] = Unit
  Unique ((k, v) ∷ m) = (find same k m ≡ none) × Unique m

  pub put-Unique : (k : K) (v : V) (m : List (K × V)) → Unique m → Unique (put same k v m)
  unfolding put Unique find
  put-Unique k v [] h = (refl, tt)
  put-Unique k v ((j, w) ∷ m) h = ground (arith, put-Unique k v m h.1, find-put same j k v m)

  find-keep-none :
      (f : V → Bool) (k : K) (m : List (K × V))
      → find same k m ≡ none
      → find same k (keep (λ e. f e.1) m) ≡ none
  unfolding find
  find-keep-none f k [] h = refl
  find-keep-none f k ((j, w) ∷ m) h = ground (arith, find-keep-none f k m)

  pub keep-Unique : (f : V → Bool) (m : List (K × V)) → Unique m → Unique (keep (λ e. f e.1) m)
  unfolding Unique
  keep-Unique f [] h = tt
  keep-Unique f ((j, w) ∷ m) h = ground (arith, keep-Unique f m, find-keep-none f j m)

  pub find-keep-some :
      (f : V → Bool) (k : K) (v : V) (m : List (K × V))
      → Unique m
      → find same k (keep (λ e. f e.1) m) ≡ some v
      → (find same k m ≡ some v) × (f v ≡ true)
  unfolding find Unique
  find-keep-some f k v [] h e = ground (arith)
  find-keep-some f k v ((j, w) ∷ m) h e = elim (same j k) [
    | yes here ↦ ground (arith, find-keep-none f j m h.0)
    | no there ↦ ground (arith, find-keep-some f k v m h.1)
  ]

  pub find-keep :
      (f : V → Bool) (k : K) (v : V) (m : List (K × V))
      → find same k m ≡ some v
      → f v ≡ true
      → find same k (keep (λ e. f e.1) m) ≡ some v
  unfolding find
  find-keep f k v [] h e = h
  find-keep f k v ((j, w) ∷ m) h e = ground (arith, find-keep f k v m)

  pub erase-Unique : (k : K) (m : List (K × V)) → Unique m → Unique (erase same k m)
  unfolding erase Unique
  erase-Unique k [] h = tt
  erase-Unique k ((j, w) ∷ m) h = ground (arith, erase-Unique k m, find-erase same j k m)

  pub Unique-All : (m : List (K × V)) → Unique m → All (λ e. find same e.0 m ≡ some e.1) m
  unfolding find Unique
  Unique-All [] h = tt
  Unique-All ((j, w) ∷ m) h = (
    ground arith,
    All-mono (λ e found. elim (same j e.0) [ yes here ↦ ground arith | no there ↦ ground arith ]) m
        (Unique-All m h.1),
  )
