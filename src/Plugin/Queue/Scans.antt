-- ===== src/Plugin/Queue/Scans.antt =====
-- What the two scans of queue.ts find: the entry at their index, with what stands before and after.
use mathlib.Core.List.{append_assoc, append-nil}
use native.Mathlib.Numerals.{add-one}
use opencode_notify_hub.Shared.{
  ℕ, suc, ◌+◌, ◌≤◌, ◌<◌, ◌≡◌, refl, sym, ap, ◌∙◌, ◌⊎◌, inl, inr, true, false, Option, none, some,
  List, [], ◌∷◌, ◌++◌, arith, ltb, leb, Bool-cases, length, length-append, length-snoc, All,
  All-append, All-mono,
}
use opencode_notify_hub.Plugin.Queue.{
  Entry, get_elem?, erase_idx, best_from, best_index, is_skipped, lower, lowest_from,
  eviction_index,
}

module _ {ℓ} {T : Type ℓ} where
  -- `entry` is at index `i`, between `before` and `after`.
  pub record Splits (es : List (Entry T)) (i : ℕ) (before : List (Entry T)) (entry : Entry T)
      (after : List (Entry T)) : Type ℓ where
    pub whole : es ≡ before ++ entry ∷ after
    pub found : get_elem? es i ≡ some entry
    pub without : erase_idx es i ≡ before ++ after

  get_elem?-middle :
      (xs : List (Entry T)) (e : Entry T) (ys : List (Entry T))
      → get_elem? (xs ++ e ∷ ys) (length xs) ≡ some e
  unfolding get_elem?
  get_elem?-middle [] e ys = refl
  get_elem?-middle (x ∷ xs) e ys = get_elem?-middle xs e ys

  erase_idx-middle :
      (xs : List (Entry T)) (e : Entry T) (ys : List (Entry T))
      → erase_idx (xs ++ e ∷ ys) (length xs) ≡ xs ++ ys
  unfolding erase_idx
  erase_idx-middle [] e ys = refl
  erase_idx-middle (x ∷ xs) e ys = ap (◌∷◌ x) (erase_idx-middle xs e ys)

  Splits-middle :
      (es xs : List (Entry T)) (e : Entry T) (ys : List (Entry T))
      → es ≡ xs ++ e ∷ ys
      → Splits es (length xs) xs e ys
  Splits-middle es xs e ys p = record {
    whole = p;
    found = rw p (get_elem?-middle xs e ys);
    without = rw p (erase_idx-middle xs e ys);
  }

  -- The first entry of the highest priority.
  pub record Best (es : List (Entry T)) (i : ℕ) : Type ℓ where
    pub before : List (Entry T)
    pub entry : Entry T
    pub after : List (Entry T)
    pub splits : Splits es i before entry after
    pub above : All (λ x. x.priority < entry.priority) before
    pub at_least : All (λ x. x.priority ≤ entry.priority) after

  best_from-Best :
      (xs : List (Entry T)) (e : Entry T) (mid ys es : List (Entry T)) (n : ℕ)
      → es ≡ xs ++ e ∷ (mid ++ ys)
      → n ≡ length xs + suc (length mid)
      → All (λ x. x.priority < e.priority) xs
      → All (λ x. x.priority ≤ e.priority) mid
      → Best es (best_from n (length xs) e ys)
  unfolding best_from
  best_from-Best xs e mid [] es n p q h k = record {
    before = xs;
    entry = e;
    after = mid;
    splits = Splits-middle es xs e mid (p ∙ ap (λ l. xs ++ e ∷ l) (append-nil mid));
    above = h;
    at_least = k;
  }
  best_from-Best xs e mid (y ∷ ys) es n p q h k = elim (Bool-cases (ltb e.priority y.priority)) [
    | inl higher ↦
        let lt : e.priority < y.priority = ground arith in
        rw (higher, q, ← length-append xs (e ∷ mid))
          (best_from-Best (xs ++ e ∷ mid) y [] ys es _
            (p ∙ sym (append_assoc xs (e ∷ mid) (y ∷ ys))) (omega arith)
            (All-append _ xs (e ∷ mid) (All-mono (λ x b. omega arith) xs h)
              (lt, All-mono (λ x b. omega arith) mid k))
            tt)
    | inr same ↦ rw same (
        best_from-Best xs e (mid ++ y ∷ []) ys es (n + 1)
          (p ∙ ap (λ l. xs ++ e ∷ l) (sym (append_assoc mid (y ∷ []) ys)))
          (omega (arith, length-append mid (y ∷ []))) h
          (All-append _ mid (y ∷ []) k (ground arith, tt)))
  ]

  pub best_index-Best :
      (es : List (Entry T))
      → ((es ≡ []) × (best_index es ≡ none)) ⊎ ((i : ℕ) × (best_index es ≡ some i) × Best es i)
  unfolding best_index
  best_index-Best [] = inl (refl, refl)
  best_index-Best (e ∷ es) =
      inr (_, refl, best_from-Best [] e [] es (e ∷ es) 1 refl (omega arith) tt tt)

  -- The first entry of the lowest priority among those that the newcomer looks at.
  pub record Lowest (priority : ℕ) (es : List (Entry T)) (i : ℕ) (entry : Entry T) : Type ℓ where
    pub before : List (Entry T)
    pub after : List (Entry T)
    pub splits : Splits es i before entry after
    pub seen : is_skipped priority entry ≡ false
    pub above : All (λ x. (is_skipped priority x ≡ true) ⊎ (entry.priority < x.priority)) before
    pub at_least : All (λ x. (is_skipped priority x ≡ true) ⊎ (entry.priority ≤ x.priority)) after

  abbrev LowestCase : ℕ → List (Entry T) → Option (ℕ × Entry T) → Type ℓ
  LowestCase priority es r =
      ((r ≡ none) × All (λ x. is_skipped priority x ≡ true) es)
      ⊎ ((i : ℕ) × (e : Entry T) × (r ≡ some (i, e)) × Lowest priority es i e)

  lower-cases :
      (priority n j : ℕ) (y e : Entry T)
      → ((lower priority n y (some (j, e)) ≡ some (n, y))
          × (is_skipped priority y ≡ false)
          × (y.priority < e.priority))
        ⊎ ((lower priority n y (some (j, e)) ≡ some (j, e))
            × ((is_skipped priority y ≡ true) ⊎ (e.priority ≤ y.priority)))
  unfolding lower
  lower-cases priority n j y e = elim (Bool-cases (is_skipped priority y)) [
    | inl skipped ↦ inr (rw skipped, inl skipped)
    | inr seen ↦ elim (Bool-cases (ltb y.priority e.priority)) [
      | inl lt ↦ inl (rw (seen, lt), seen, ground arith)
      | inr ge ↦ inr (rw (seen, ge), inr (ground arith))
    ]
  ]

  lowest_from-some :
      (priority : ℕ) (xs : List (Entry T)) (e : Entry T) (mid ys es : List (Entry T)) (n : ℕ)
      → es ≡ xs ++ e ∷ (mid ++ ys)
      → n ≡ length xs + suc (length mid)
      → is_skipped priority e ≡ false
      → All (λ x. (is_skipped priority x ≡ true) ⊎ (e.priority < x.priority)) xs
      → All (λ x. (is_skipped priority x ≡ true) ⊎ (e.priority ≤ x.priority)) mid
      → (i : ℕ) × (low : Entry T) × (lowest_from priority n (some (length xs, e)) ys
          ≡ some (i, low))
        × Lowest priority es i low
  unfolding lowest_from
  lowest_from-some priority xs e mid [] es n p q s h k = (
    length xs,
    e,
    refl,
    record {
      before = xs;
      after = mid;
      splits = Splits-middle es xs e mid (p ∙ ap (λ l. xs ++ e ∷ l) (append-nil mid));
      seen = s;
      above = h;
      at_least = k;
    },
  )
  lowest_from-some priority xs e mid (y ∷ ys) es n p q s h k =
      elim (lower-cases priority n (length xs) y e) [
        | inl (eq, seen, lt) ↦
            rw (eq, q, ← length-append xs (e ∷ mid))
              (lowest_from-some priority (xs ++ e ∷ mid) y [] ys es _
                (p ∙ sym (append_assoc xs (e ∷ mid) (y ∷ ys))) (omega arith) seen
                (All-append _ xs (e ∷ mid) (All-mono (λ x b. ground arith) xs h)
                  (inr lt, All-mono (λ x b. ground arith) mid k))
                tt)
        | inr (eq, le) ↦ rw eq (
            lowest_from-some priority xs e (mid ++ y ∷ []) ys es (n + 1)
              (p ∙ ap (λ l. xs ++ e ∷ l) (sym (append_assoc mid (y ∷ []) ys)))
              (omega (arith, length-append mid (y ∷ []))) s h
              (All-append _ mid (y ∷ []) k (le, tt)))
      ]

  lowest_from-none :
      (priority : ℕ) (xs ys es : List (Entry T))
      → es ≡ xs ++ ys
      → All (λ x. is_skipped priority x ≡ true) xs
      → LowestCase priority es (lowest_from priority (length xs) none ys)
  unfolding lowest_from
  lowest_from-none priority xs [] es p h = inl (refl, rw (p ∙ append-nil xs) h)
  lowest_from-none priority xs (y ∷ ys) es p h = elim (Bool-cases (is_skipped priority y)) [
    | inl skipped ↦
        rw (skipped, add-one, ← length-snoc xs y)
          (lowest_from-none priority (xs ++ y ∷ []) ys es (p ∙ sym (append_assoc xs (y ∷ []) ys))
            (All-append _ xs (y ∷ []) h (skipped, tt)))
    | inr seen ↦ rw seen (
        inr (
          lowest_from-some priority xs y [] ys es (length xs + 1) p (omega arith) seen
            (All-mono (λ x b. inl b) xs h) tt))
  ]

  -- The victim of a full queue, or why there is none.
  abbrev pub VictimCase : ℕ → List (Entry T) → Option ℕ → Type ℓ
  VictimCase priority es r =
      ((r ≡ none) × All (λ x. (is_skipped priority x ≡ true) ⊎ (priority < x.priority)) es)
      ⊎ ((i : ℕ) × (e : Entry T) × (r ≡ some i) × (e.priority ≤ priority) × Lowest priority es i e)

  pub eviction_index-cases :
      (es : List (Entry T)) (priority : ℕ) → VictimCase priority es (eviction_index es priority)
  unfolding eviction_index
  eviction_index-cases es priority = elim (lowest_from-none priority [] es es refl tt) [
    | inl (eq, skipped) ↦ inl (rw (eq, eviction_index), All-mono (λ x b. inl b) es skipped)
    | inr (i, e, eq, low) ↦ elim (Bool-cases (leb e.priority priority)) [
      | inl le ↦ inr (i, e, rw (eq, le, eviction_index), ground arith, low)
      | inr gt ↦ inl (
        rw (eq, gt, eviction_index),
        rw (low.splits.whole) (
            All-append _ low.before (e ∷ low.after)
              (All-mono (λ x b. ground arith) low.before low.above)
              (inr (ground arith), All-mono (λ x b. ground arith) low.after low.at_least)),
      )
    ]
  ]
