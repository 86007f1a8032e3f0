-- ===== src/Gateway/Ingress/Format.antt =====
-- What the headers of ingest-auth.ts say, independently of how it reads them: the first value, the
-- bearer credential, its secret and a decimal time; and that the code reads just that.
use opencode_notify_hub.Shared.{
  ℕ, ◌+◌, ◌-◌, ◌*◌, ◌^◌, ◌<◌, ◌≡◌, refl, sym, ap, ◌∙◌, ◌≢◌, ◌⊎◌, inl, inr, true, Option, none, some,
  List, [], ◌∷◌, ◌++◌, map, arith, ℕ_discrete, Bool-cases, length, All,
}
use native.Mathlib.Nat.{pow-suc, add_assoc, add-mul, mul_assoc, mul_comm}
use opencode_notify_hub.Gateway.Payload.Texts.{Text}
use opencode_notify_hub.Gateway.Ingress.{
  Header, absent, one, several, first_header_value, after_prefix, bearer, credential_of, after_dot,
  secret_of, all_digits, number_from, timestamp_ms,
}

-- The text is the header's only value, or the first of several.
abbrev pub Presents : Header → Text → Type 0
Presents absent s = ⊥
Presents (one t) s = t ≡ s
Presents (several []) s = ⊥
Presents (several (t ∷ ts)) s = t ≡ s

-- What follows the credential's first dot, or all of it when it has none.
abbrev pub Secret : Text → Text → Type 0
Secret credential secret =
    (All (λ c. c ≢ 46) credential × (secret ≡ credential))
    ⊎ ((id : Text) × All (λ c. c ≢ 46) id × (credential ≡ id ++ 46 ∷ secret))

-- The number that decimal digits stand for, the first one for the highest power.
abbrev pub decimal : List ℕ → ℕ
decimal [] = 0
decimal (d ∷ ds) = d * 10 ^ length ds + decimal ds

-- A text of one or more digits, and the number that it stands for.
pub record Decimal (s : Text) (n : ℕ) : Type 0 where
  pub digits : List ℕ
  pub are_digits : All (λ d. d < 10) digits
  pub some_digit : 0 < length digits
  pub spelled : s ≡ map (λ d. 48 + d) digits
  pub value : n ≡ decimal digits

-- "Bearer " and a credential.
abbrev pub Bearer : Text → Text
Bearer credential = 66 ∷ 101 ∷ 97 ∷ 114 ∷ 101 ∷ 114 ∷ 32 ∷ credential

pub first_says : (h : Header) (s : Text) → first_header_value h ≡ some s → Presents h s
unfolding first_header_value
first_says absent s e = ground arith
first_says (one t) s e = ground arith
first_says (several []) s e = ground arith
first_says (several (t ∷ ts)) s e = ground arith

pub says_first : (h : Header) (s : Text) → Presents h s → first_header_value h ≡ some s
unfolding first_header_value
says_first absent s e = elim e [ ]
says_first (one t) s e = ap some e
says_first (several []) s e = elim e [ ]
says_first (several (t ∷ ts)) s e = ap some e

after_prefix-some : (p s c : Text) → after_prefix p s ≡ some c → s ≡ p ++ c
unfolding after_prefix
after_prefix-some [] s c e = ground arith
after_prefix-some (a ∷ p) [] c e = ground arith
after_prefix-some (a ∷ p) (b ∷ s) c e = ground (arith, after_prefix-some p s c)

after_prefix-append : (p c : Text) → after_prefix p (p ++ c) ≡ some c
unfolding after_prefix
after_prefix-append [] c = refl
after_prefix-append (a ∷ p) c = ground (arith, after_prefix-append p c)

pub bearer_says : (s : Option Text) (c : Text) → credential_of s ≡ some c → s ≡ some (Bearer c)
unfolding credential_of
bearer_says none c e = ground arith
bearer_says (some s) c e = ap some (after_prefix-some bearer s c e)

pub says_bearer : (c : Text) → credential_of (some (Bearer c)) ≡ some c
unfolding credential_of
says_bearer c = after_prefix-append bearer c

after_dot-Secret :
    (s : Text)
    → (All (λ c. c ≢ 46) s × (after_dot s ≡ none))
      ⊎ ((id rest : Text) × All (λ c. c ≢ 46) id
          × (s ≡ id ++ 46 ∷ rest)
          × (after_dot s ≡ some rest))
after_dot-Secret [] = inl (tt, refl)
after_dot-Secret (c ∷ cs) = elim (ℕ_discrete c 46) [
  | yes is ↦ inr ([], cs, tt, ap (λ x. x ∷ cs) is, ground arith)
  | no isnt ↦ elim (after_dot-Secret cs) [
    | inl (none_in, missing) ↦ inl ((isnt, none_in), ground arith)
    | inr (id, rest, none_in, split, found) ↦
        inr (c ∷ id, rest, (isnt, none_in), ap (λ x. c ∷ x) split, ground arith)
  ]
]

pub secret_of-Secret : (c : Text) → Secret c (secret_of (some c))
unfolding secret_of
secret_of-Secret c = elim (after_dot-Secret c) [
  | inl (none_in, missing) ↦ rw missing (inl (none_in, refl))
  | inr (id, rest, none_in, split, found) ↦ rw found (inr (id, none_in, split))
]

dot_first : (id rest : Text) → All (λ c. c ≢ 46) id → after_dot (id ++ 46 ∷ rest) ≡ some rest
dot_first [] rest h = refl
dot_first (c ∷ id) rest h = let n = h.0 in ground (arith, dot_first id rest h.1)

no_dot : (s : Text) → All (λ c. c ≢ 46) s → after_dot s ≡ none
no_dot [] h = refl
no_dot (c ∷ s) h = let n = h.0 in ground (arith, no_dot s h.1)

pub Secret-unique : (c s : Text) → Secret c s → secret_of (some c) ≡ s
unfolding secret_of
Secret-unique c s (inl (none_in, same)) = rw (no_dot c none_in) (sym same)
Secret-unique c s (inr (id, none_in, split)) = rw (split, dot_first id s none_in) refl

number_from-decimal :
    (n : ℕ) (ds : List ℕ) → number_from n (map (λ d. 48 + d) ds) ≡ n * 10 ^ length ds + decimal ds
number_from-decimal n [] = omega arith
number_from-decimal n (d ∷ ds) =
    let next : n * 10 + (48 + d - 48) ≡ n * 10 + d = omega arith in
    let power = 10 ^ length ds in
    let scaled : (n * 10 + d) * power ≡ n * (power * 10) + d * power =
      add-mul (n * 10) d power
      ∙ ap (λ x. x + d * power) (mul_assoc n 10 power ∙ ap (λ x. n * x) (mul_comm 10 power)) in
    ap (λ m. number_from m (map (λ x. 48 + x) ds)) next
    ∙ number_from-decimal (n * 10 + d) ds
    ∙ ap (λ x. x + decimal ds) scaled
    ∙ add_assoc (n * (power * 10)) (d * power) (decimal ds)
    ∙ ap (λ x. n * x + (d * power + decimal ds)) (sym (pow-suc 10 (length ds)))

number_from_zero : (ds : List ℕ) → number_from 0 (map (λ d. 48 + d) ds) ≡ decimal ds
number_from_zero ds = number_from-decimal 0 ds ∙ omega arith

all_digits-map : (ds : List ℕ) → All (λ d. d < 10) ds → all_digits (map (λ d. 48 + d) ds) ≡ true
all_digits-map [] h = refl
all_digits-map (d ∷ ds) h = let lt = h.0 in ground (arith, all_digits-map ds h.1)

spelled_back : (s : Text) → all_digits s ≡ true → s ≡ map (λ d. 48 + d) (map (λ c. c - 48) s)
spelled_back [] h = refl
spelled_back (c ∷ s) h =
    let same : c ≡ 48 + (c - 48) = ground arith in
    ap (λ x. x ∷ s) same ∙ ap (λ x. (48 + (c - 48)) ∷ x) (spelled_back s (ground arith))

digits_below : (s : Text) → all_digits s ≡ true → All (λ d. d < 10) (map (λ c. c - 48) s)
digits_below [] h = tt
digits_below (c ∷ s) h = (ground arith, digits_below s (ground arith))

pub time_says :
    (t : Option Text) (n : ℕ) → timestamp_ms t ≡ some n → (s : Text) × (t ≡ some s) × Decimal s n
unfolding timestamp_ms
time_says none n h = ground arith
time_says (some []) n h = ground arith
time_says (some (c ∷ cs)) n h = elim (Bool-cases (all_digits (c ∷ cs))) [
  | inr isnt ↦ let no : ⊥ = ground arith in elim no [ ]
  | inl is ↦ (
    c ∷ cs,
    refl,
    record {
      digits = map (λ d. d - 48) (c ∷ cs);
      are_digits = digits_below (c ∷ cs) is;
      some_digit = omega arith;
      spelled = spelled_back (c ∷ cs) is;
      value =
          let shown = spelled_back (c ∷ cs) is in
          let read : number_from 0 (c ∷ cs) ≡ n = ground arith in
          sym read ∙ ap (number_from 0) shown ∙ number_from_zero (map (λ d. d - 48) (c ∷ cs));
    },
  )
]

of_digits :
    (n : ℕ) (ds : List ℕ)
    → All (λ d. d < 10) ds
    → 0 < length ds
    → n ≡ decimal ds
    → timestamp_ms (some (map (λ d. 48 + d) ds)) ≡ some n
unfolding timestamp_ms
of_digits n [] h nonempty value = ground arith
of_digits n (d ∷ ds) h nonempty value =
    let read = number_from_zero (d ∷ ds) in
    rw (all_digits-map (d ∷ ds) h) (ap some (read ∙ sym value))

pub says_time : (s : Text) (n : ℕ) → Decimal s n → timestamp_ms (some s) ≡ some n
unfolding timestamp_ms
says_time s n h = rw h.spelled (of_digits n h.digits h.are_digits h.some_digit h.value)
