-- ===== src/Shared/OrdMap.antt =====
-- JavaScript's `Map` with string keys, and `Set` where the value is the unit: an association list in
-- insertion order. A `set` of a present key keeps its place, a new key goes to the end.
use mathlib.Core.Bool.{Bool, true}
use Prim.Native.Nat.{ℕ, suc, ◌≤◌, ◌<◌}
use Prim.Native.String.{String}
use mathlib.Core.Path.{◌≡◌, refl}
use mathlib.Core.Logic.{ite, inl, inr}
use mathlib.Core.Option.{Option, none, some}
use mathlib.Core.List.{List, [], ◌∷◌, ◌++◌}
use native.Mathlib.Omega.{arith}
use opencode_notify_hub.Shared.Tests.{String-discrete, ltb, if◌then◌else◌, Bool-cases}
use opencode_notify_hub.Shared.Lists.{length, keep, All}

abbrev pub OrdMap {ℓ} : Type ℓ → Type ℓ
OrdMap V = List (String × V)

module _ {ℓ} {V : Type ℓ} where
  unfoldable pub get : String → OrdMap V → Option V
  get k [] = none
  get k ((j, v) ∷ m) = ite (String-discrete j k) (some v) (get k m)

  unfoldable pub set : String → V → OrdMap V → OrdMap V
  set k v [] = (k, v) ∷ []
  set k v ((j, w) ∷ m) = ite (String-discrete j k) ((j, v) ∷ m) ((j, w) ∷ set k v m)

  unfoldable pub delete : String → OrdMap V → OrdMap V
  delete k [] = []
  delete k ((j, w) ∷ m) = ite (String-discrete j k) (delete k m) ((j, w) ∷ delete k m)

  abbrev pub size : OrdMap V → ℕ
  size = length

  abbrev pub keys : OrdMap V → List String
  keys [] = []
  keys ((k, v) ∷ m) = k ∷ keys m

  pub get-set :
      (j k : String) (v : V) (m : OrdMap V)
      → get j (set k v m) ≡ ite (String-discrete k j) (some v) (get j m)
  unfolding get set
  get-set j k v [] = refl
  get-set j k v ((i, w) ∷ m) = ground (arith, get-set j k v m)

  pub get-delete :
      (j k : String) (m : OrdMap V) → get j (delete k m) ≡ ite (String-discrete k j) none (get j m)
  unfolding get delete
  get-delete j k [] = ground arith
  get-delete j k ((i, w) ∷ m) = ground (arith, get-delete j k m)

  -- A key that was deleted before goes to the end.
  pub set-delete :
      (k : String) (v : V) (m : OrdMap V) → set k v (delete k m) ≡ delete k m ++ (k, v) ∷ []
  unfolding set delete
  set-delete k v [] = refl
  set-delete k v ((i, w) ∷ m) = ground (arith, set-delete k v m)

  pub get-append :
      (k : String) (xs ys : OrdMap V)
      → get k (xs ++ ys) ≡ elim (get k xs) [ none ↦ get k ys | some v ↦ some v ]
  unfolding get
  get-append k [] ys = refl
  get-append k ((i, w) ∷ xs) ys = ground (arith, get-append k xs ys)

  -- An entry that passes stays where it is.
  pub get-keep :
      (p : String × V → Bool) (k : String) (v : V) (m : OrdMap V)
      → get k m ≡ some v
      → ((j : String) → j ≡ k → p (j, v) ≡ true)
      → get k (keep p m) ≡ some v
  unfolding get
  get-keep p k v [] h q = cc
  get-keep p k v ((i, w) ∷ m) h q = ground (arith, get-keep p k v m, q i)

  pub size-delete-le : (k : String) (m : OrdMap V) → size (delete k m) ≤ size m
  unfolding delete
  size-delete-le k [] = omega arith
  size-delete-le k ((j, v) ∷ m) = ground (arith, size-delete-le k m)

  -- A change of the value that is stored under the key, if there is one: the effect of a write to
  -- an object that the map holds.
  unfoldable pub alter : String → (V → V) → OrdMap V → OrdMap V
  alter k f [] = []
  alter k f ((j, v) ∷ m) = ite (String-discrete j k) ((j, f v) ∷ m) ((j, v) ∷ alter k f m)

  -- `while (map.size > n) map.delete(map.keys().next().value)`: each round takes the oldest entry.
  unfoldable pub drop_oldest : ℕ → OrdMap V → OrdMap V
  drop_oldest n [] = []
  drop_oldest n (e ∷ m) = if ltb n (size (e ∷ m)) then drop_oldest n m else e ∷ m

  pub size-drop_oldest-le : (n : ℕ) (m : OrdMap V) → size (drop_oldest n m) ≤ n
  unfolding drop_oldest
  size-drop_oldest-le n [] = omega arith
  size-drop_oldest-le n (e ∷ m) = ground (arith, size-drop_oldest-le n m)

  pub size-alter : (k : String) (f : V → V) (m : OrdMap V) → size (alter k f m) ≡ size m
  unfolding alter
  size-alter k f [] = refl
  size-alter k f ((j, v) ∷ m) = ground (arith, size-alter k f m)

  pub get-alter :
      (j k : String) (f : V → V) (m : OrdMap V)
      → get j (alter k f m)
        ≡ ite (String-discrete k j) (elim (get j m) [ none ↦ none | some v ↦ some (f v) ]) (get j m)
  unfolding get alter
  get-alter j k f [] = ground arith
  get-alter j k f ((i, w) ∷ m) = ground (arith, get-alter j k f m)

  pub get-delete_self : (k : String) (m : OrdMap V) → get k (delete k m) ≡ none
  get-delete_self k m = ground (arith, get-delete k k m)

  -- A new last entry stays while there is room for one.
  pub drop_oldest-snoc :
      (n : ℕ) (m : OrdMap V) (k : String) (v : V)
      → 0 < n
      → get k m ≡ none
      → (rest : OrdMap V) × (drop_oldest n (m ++ (k, v) ∷ []) ≡ rest ++ (k, v) ∷ [])
        × (get k rest ≡ none)
  unfolding drop_oldest get
  drop_oldest-snoc n [] k v h a = ([], ground arith, refl)
  drop_oldest-snoc n ((j, w) ∷ m) k v h a =
      elim (Bool-cases (ltb n (suc (size (m ++ (k, v) ∷ []))))) [
        | inl full ↦
            let (rest, eq, gone) = drop_oldest-snoc n m k v h (ground arith) in
            (rest, rw full eq, gone)
        | inr room ↦ ((j, w) ∷ m, rw room refl, a)
      ]

  pub get-snoc :
      (k : String) (v : V) (m : OrdMap V) → get k m ≡ none → get k (m ++ (k, v) ∷ []) ≡ some v
  unfolding get
  get-snoc k v [] h = ground arith
  get-snoc k v ((j, w) ∷ m) h = ground (arith, get-snoc k v m)

  pub alter-snoc :
      (k : String) (f : V → V) (v : V) (m : OrdMap V)
      → get k m ≡ none
      → alter k f (m ++ (k, v) ∷ []) ≡ m ++ (k, f v) ∷ []
  unfolding get alter
  alter-snoc k f v [] h = ground arith
  alter-snoc k f v ((j, w) ∷ m) h = ground (arith, alter-snoc k f v m)

  -- A key that is not there is added at the end.
  pub set_absent :
      (k : String) (v : V) (m : OrdMap V) → get k m ≡ none → set k v m ≡ m ++ (k, v) ∷ []
  unfolding set get
  set_absent k v [] h = refl
  set_absent k v ((j, w) ∷ m) h = ground (arith, set_absent k v m)

-- A predicate on the values of a map.
abbrev pub AllValues {ℓ κ} : {V : Type ℓ} → (V → Type κ) → OrdMap V → Type κ
AllValues P = All (λ e. P e.1)

module _ {ℓ κ} {V : Type ℓ} (P : V → Type κ) where
  pub set-AllValues :
      (k : String) (v : V) (m : OrdMap V) → P v → AllValues P m → AllValues P (set k v m)
  unfolding set
  set-AllValues k v [] p h = (p, tt)
  set-AllValues k v ((j, w) ∷ m) p h = ground (arith, set-AllValues k v m p h.1)

  pub delete-AllValues : (k : String) (m : OrdMap V) → AllValues P m → AllValues P (delete k m)
  unfolding delete
  delete-AllValues k [] h = tt
  delete-AllValues k ((j, w) ∷ m) h = ground (arith, delete-AllValues k m h.1)

  pub drop_oldest-AllValues : (n : ℕ) (m : OrdMap V) → AllValues P m → AllValues P (drop_oldest n m)
  unfolding drop_oldest
  drop_oldest-AllValues n [] h = tt
  drop_oldest-AllValues n (e ∷ m) h = ground (arith, drop_oldest-AllValues n m h.1)

  pub alter-AllValues :
      (k : String) (f : V → V) (m : OrdMap V)
      → ((v : V) → P v → P (f v))
      → AllValues P m
      → AllValues P (alter k f m)
  unfolding alter
  alter-AllValues k f [] q h = tt
  alter-AllValues k f ((j, w) ∷ m) q h = ground (arith, alter-AllValues k f m q h.1, q w h.0)

  pub get-AllValues : (k : String) (m : OrdMap V) {v : V} → AllValues P m → get k m ≡ some v → P v
  unfolding get
  get-AllValues k [] h e = absurd (ground arith)
  get-AllValues k ((j, w) ∷ m) {v} h e = elim (String-discrete j k) [
    | yes p ↦ let same : w ≡ v = ground arith in rw (← same) h.0
    | no p ↦ get-AllValues k m h.1 (ground arith)
  ]
