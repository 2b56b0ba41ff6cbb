-- ===== src/Schema/Unique.antt =====
-- The names that `unique_name` gives: a search among more names than are used finds a free one.
use Prim.Native.String.{String, ◌++◌ as append}
use text.Mathlib.Text.{◌==◌ as str_eq}
use text.Mathlib.TextEquality.{eq_iff}
use text.Mathlib.TextLemmas.{append_cancel_left}
use zerobus_sdk.Common.{
  ℕ, zero, suc, ◌+◌, ◌≤◌, ◌<◌, ◌≡◌, ◌⊎◌, inl, inr, refl, arith, true, false, List, [], ◌∷◌, length,
  Bool-cases, if◌then◌else◌,
}
use zerobus_sdk.Common.Text.{to_string, to_string_inj}
use zerobus_sdk.Schema.Names.{MessageCollector, is_used, first_unused, unique_name}
use zerobus_sdk.Schema.Identifiers.{IsMessageName, IsMessageName-append, to_string-AllAlphanumeric}

abbrev candidate : String → ℕ → String
candidate base n = append base (to_string n)

candidates_differ :
    (base : String) (m n : ℕ) → m < n → str_eq (candidate base m) (candidate base n) ≡ false
candidates_differ base m n l = elim (Bool-cases (str_eq (candidate base m) (candidate base n))) [
  | inl h ↦
      let same = to_string_inj m n (
        append_cancel_left base (to_string m) (to_string n)
          ((eq_iff (candidate base m) (candidate base n)).0 h)) in
      absurd (omega (arith, same))
  | inr h ↦ h
]

without : String → List String → List String
without x [] = []
without x (n ∷ ns) = let rest = without x ns in if str_eq n x then rest else n ∷ rest

length-without_le : (x : String) (ns : List String) → length (without x ns) ≤ length ns
unfolding without
length-without_le x [] = omega arith
length-without_le x (n ∷ ns) = ground (arith, length-without_le x ns)

length-without :
    (x : String) (ns : List String) → is_used x ns ≡ true → length (without x ns) < length ns
unfolding without
length-without x [] h = cc
length-without x (n ∷ ns) h = elim (Bool-cases (str_eq n x)) [
  | inl e ↦ rw (e, without) (omega (arith, length-without_le x ns))
  | inr e ↦ rw (e, without) (omega (arith, length-without x ns (rw e at h)))
]

-- A name other than the one removed is still there.
is_used-without :
    (x y : String) (ns : List String)
    → str_eq x y ≡ false
    → is_used y ns ≡ true
    → is_used y (without x ns) ≡ true
unfolding without
is_used-without x y [] d h = h
is_used-without x y (n ∷ ns) d h =
    ground (arith, eq_iff n x, eq_iff n y, eq_iff x y, is_used-without x y ns d)

abbrev AllUsed : ℕ → List String → String → ℕ → Type 0
AllUsed zero used base n = Unit
AllUsed (suc k) used base n = (is_used (candidate base n) used ≡ true) × AllUsed k used base (n + 1)

AllUsed-without :
    (k : ℕ) (used : List String) (base : String) (m n : ℕ)
    → m < n
    → AllUsed k used base n
    → AllUsed k (without (candidate base m) used) base n
AllUsed-without zero used base m n l h = tt
AllUsed-without (suc k) used base m n l (h, hs) = (
  is_used-without (candidate base m) (candidate base n) used (candidates_differ base m n l) h,
  AllUsed-without k used base m (n + 1) (omega arith) hs,
)

-- There are no more candidates used than names used.
AllUsed-le :
    (k : ℕ) (used : List String) (base : String) (n : ℕ) → AllUsed k used base n → k ≤ length used
AllUsed-le zero used base n h = omega arith
AllUsed-le (suc k) used base n (h, hs) =
    let fewer = length-without (candidate base n) used h in
    let rest =
      AllUsed-le k (without (candidate base n) used) base (n + 1)
        (AllUsed-without k used base n (n + 1) (omega arith) hs) in
    omega (arith, fewer, rest)

first_unused_cases :
    (fuel : ℕ) (used : List String) (base : String) (n : ℕ)
    → (is_used (first_unused fuel used base n) used ≡ false) ⊎ AllUsed (suc fuel) used base n
unfolding first_unused
first_unused_cases zero used base n = elim (Bool-cases (is_used (candidate base n) used)) [
  | inl h ↦ inr (h, tt)
  | inr h ↦ inl h
]
first_unused_cases (suc fuel) used base n = elim (Bool-cases (is_used (candidate base n) used)) [
  | inl h ↦ elim (first_unused_cases fuel used base (n + 1)) [
    | inl e ↦ inl (rw (h, first_unused) e)
    | inr e ↦ inr (h, e)
  ]
  | inr h ↦ inl (rw (h, first_unused) h)
]

first_unused_free :
    (used : List String) (base : String) (n : ℕ)
    → is_used (first_unused (length used) used base n) used ≡ false
first_unused_free used base n = elim (first_unused_cases (length used) used base n) [
  | inl h ↦ h
  | inr h ↦ absurd (omega (arith, AllUsed-le (suc (length used)) used base n h))
]

first_unused-IsMessageName :
    (fuel : ℕ) (used : List String) (base : String) (n : ℕ)
    → IsMessageName base
    → IsMessageName (first_unused fuel used base n)
unfolding first_unused
first_unused-IsMessageName zero used base n h =
    IsMessageName-append base (to_string n) h (to_string-AllAlphanumeric n)
first_unused-IsMessageName (suc fuel) used base n h =
    elim (Bool-cases (is_used (candidate base n) used)) [
      | inl e ↦ rw (e, first_unused) (first_unused-IsMessageName fuel used base (n + 1) h)
      | inr e ↦
          rw (e, first_unused)
            (IsMessageName-append base (to_string n) h (to_string-AllAlphanumeric n))
    ]

-- The name given is the base where that is free, and in any case one that was not used and is the
-- name of a message; it is used from then on.
abbrev pub Fresh : MessageCollector → String × MessageCollector → Type 0
Fresh c (name, t) =
    (is_used name c.used ≡ false) × IsMessageName name × (t ≡ record c { used = name ∷ c.used })

pub unique_name-Fresh :
    (c : MessageCollector) (base : String) → IsMessageName base → Fresh c (unique_name c base)
unfolding unique_name
unique_name-Fresh c base h = elim (Bool-cases (is_used base c.used)) [
  | inl e ↦
      rw (e, unique_name)
        (
          first_unused_free c.used base 2,
          first_unused-IsMessageName (length c.used) c.used base 2 h,
          refl,
        )
  | inr e ↦ rw (e, unique_name) (e, h, refl)
]
