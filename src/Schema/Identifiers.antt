-- ===== src/Schema/Identifiers.antt =====
-- Which names are identifiers, and that the names of messages are.
use Prim.Native.Char.{Char, code}
use Prim.Native.String.{String, ◌++◌ as append}
use text.Mathlib.TextLemmas.{cons-append}
use zerobus_sdk.Common.{
  ℕ, ◌-◌, ◌≡◌, inl, inr, refl, ap, ◌∙◌, arith, Bool, true, false, if◌then◌else◌, Bool-cases,
}
use zerobus_sdk.Common.Text.{code-to_char, to_string, AllChars, AllChars-append, to_string-AllChars}
use zerobus_sdk.Schema.Types.{ok}
use zerobus_sdk.Schema.Names.{
  is_digit, is_lower, is_upper, is_alphabetic, is_alphanumeric, all_words, validate_field_name,
  to_ascii_uppercase, sanitize_loop, insert_letter, sanitize_message_name,
}

-- An identifier of protobuf: letters, digits and underscores of ASCII, and no digit first.
abbrev pub IsIdentifier : String → Type 0
IsIdentifier String.[] = ⊥
IsIdentifier (String.◌∷◌ c s) = (is_digit (code c) ≡ false) × (all_words (String.◌∷◌ c s) ≡ true)

pub validate_field_name-IsIdentifier :
    (name : String) → validate_field_name name ≡ ok tt → IsIdentifier name
unfolding validate_field_name all_words
validate_field_name-IsIdentifier String.[] h = cc
validate_field_name-IsIdentifier (String.◌∷◌ c s) h = ground arith

abbrev pub AllAlphanumeric : String → Type 0
AllAlphanumeric = AllChars (λ n. is_alphanumeric n ≡ true)

-- The name of a message: an upper letter, and then letters and digits.
abbrev pub IsMessageName : String → Type 0
IsMessageName String.[] = ⊥
IsMessageName (String.◌∷◌ c s) = (is_upper (code c) ≡ true) × AllAlphanumeric s

code-to_ascii_uppercase :
    (c : Char) → code (to_ascii_uppercase c) ≡ (if is_lower (code c) then code c - 32 else code c)
unfolding to_ascii_uppercase
code-to_ascii_uppercase c = elim (Bool-cases (is_lower (code c))) [
  | inl h ↦ rw h (code-to_char (code c - 32) (ground (arith, h)))
  | inr h ↦ rw h refl
]

to_ascii_uppercase_lem :
    (c : Char)
    → is_alphanumeric (code c) ≡ true
    → (is_alphanumeric (code (to_ascii_uppercase c)) ≡ true)
      × (is_lower (code (to_ascii_uppercase c)) ≡ false)
to_ascii_uppercase_lem c h = rw (code-to_ascii_uppercase c) (ground arith, ground arith)

-- What the loop pushes first after a character that it drops, or at the start, is no lower letter.
abbrev StartsWell : Bool → String → Type 0
StartsWell false s = Unit
StartsWell true String.[] = Unit
StartsWell true (String.◌∷◌ c s) = is_lower (code c) ≡ false

sanitize_loop_lem :
    (capitalize : Bool) (s : String)
    → AllAlphanumeric (sanitize_loop capitalize s)
      × StartsWell capitalize (sanitize_loop capitalize s)
unfolding sanitize_loop
sanitize_loop_lem true String.[] = (tt, tt)
sanitize_loop_lem false String.[] = (tt, tt)
sanitize_loop_lem true (String.◌∷◌ c s) = elim (Bool-cases (is_alphanumeric (code c))) [
  | inl h ↦
      let (alnum, upper) = to_ascii_uppercase_lem c h in
      rw (h, sanitize_loop) ((alnum, (sanitize_loop_lem false s).0), upper)
  | inr h ↦ rw (h, sanitize_loop) (sanitize_loop_lem true s)
]
sanitize_loop_lem false (String.◌∷◌ c s) = elim (Bool-cases (is_alphanumeric (code c))) [
  | inl h ↦ rw (h, sanitize_loop) ((h, (sanitize_loop_lem false s).0), tt)
  | inr h ↦ rw (h, sanitize_loop) ((sanitize_loop_lem true s).0, tt)
]

insert_letter-IsMessageName :
    (s : String) → AllAlphanumeric s → StartsWell true s → IsMessageName (insert_letter s)
unfolding insert_letter
insert_letter-IsMessageName String.[] a h = let m = code-to_char 77 (omega arith) in (rw m refl, tt)
insert_letter-IsMessageName (String.◌∷◌ c s) (a, rest) h =
    elim (Bool-cases (is_alphabetic (code c))) [
      | inl e ↦ rw (e, insert_letter) (ground arith, rest)
      | inr e ↦
          let m = code-to_char 77 (omega arith) in rw (e, insert_letter) (rw m refl, (a, rest))
    ]

pub sanitize_message_name-IsMessageName :
    (name : String) → IsMessageName (sanitize_message_name name)
unfolding sanitize_message_name
sanitize_message_name-IsMessageName name =
    let (alnum, upper) = sanitize_loop_lem true name in
    insert_letter-IsMessageName (sanitize_loop true name) alnum upper

sanitize_loop_same : (s : String) → AllAlphanumeric s → sanitize_loop false s ≡ s
unfolding sanitize_loop
sanitize_loop_same String.[] h = refl
sanitize_loop_same (String.◌∷◌ c s) (h, hs) =
    rw (h, sanitize_loop) (ap (String.◌∷◌ c) (sanitize_loop_same s hs))

sanitize_loop_first :
    (c : Char) (s : String)
    → is_upper (code c) ≡ true
    → sanitize_loop true (String.◌∷◌ c s) ≡ String.◌∷◌ c (sanitize_loop false s)
unfolding sanitize_loop to_ascii_uppercase
sanitize_loop_first c s h =
    let alnum : is_alphanumeric (code c) ≡ true = ground arith in
    let low : is_lower (code c) ≡ false = ground arith in
    rw (alnum, sanitize_loop) (rw (low, to_ascii_uppercase) refl)

insert_letter_first :
    (c : Char) (s : String)
    → is_upper (code c) ≡ true
    → insert_letter (String.◌∷◌ c s) ≡ String.◌∷◌ c s
unfolding insert_letter
insert_letter_first c s h =
    let alpha : is_alphabetic (code c) ≡ true = ground arith in rw (alpha, insert_letter) refl

-- A name of a message stays as it is.
pub sanitize_message_name_same :
    (name : String) → IsMessageName name → sanitize_message_name name ≡ name
unfolding sanitize_message_name
sanitize_message_name_same String.[] h = elim h [ ]
sanitize_message_name_same (String.◌∷◌ c s) (h, hs) =
    ap insert_letter (sanitize_loop_first c s h ∙ ap (String.◌∷◌ c) (sanitize_loop_same s hs))
    ∙ insert_letter_first c s h

pub IsMessageName-append :
    (s t : String) → IsMessageName s → AllAlphanumeric t → IsMessageName (append s t)
IsMessageName-append String.[] t h ht = elim h [ ]
IsMessageName-append (String.◌∷◌ c s) t (h, hs) ht =
    rw (cons-append c s t) (h, AllChars-append (λ n. is_alphanumeric n ≡ true) s t hs ht)

pub to_string-AllAlphanumeric : (n : ℕ) → AllAlphanumeric (to_string n)
to_string-AllAlphanumeric n =
    to_string-AllChars (λ n. is_alphanumeric n ≡ true) n (λ d h. ground arith)
