-- ===== src/Schema/Names.antt =====
-- rust/sdk/src/schema.rs: names of fields and messages, and the collector of nested messages.
use Prim.Native.Char.{Char, code}
use Prim.Native.String.{String, ◌++◌ as append}
use text.Mathlib.Text.{◌==◌ as str_eq}
use zerobus_sdk.Common.{
  ℕ, zero, suc, ◌+◌, ◌-◌, Bool, true, false, not, ◌&&◌, ◌||◌, List, [], ◌∷◌, length, leb, ◌==◌,
  if◌then◌else◌,
}
use zerobus_sdk.Common.Text.{to_char, to_string}
use zerobus_sdk.Zeroparser.Registry.{DescriptorProto, DescriptorProtos, nil, cons}
use zerobus_sdk.Schema.Types.{SchemaError, invalid_field_name, Result, ok, err}

abbrev pub is_digit : ℕ → Bool
is_digit c = leb 48 c && leb c 57

abbrev pub is_lower : ℕ → Bool
is_lower c = leb 97 c && leb c 122

abbrev pub is_upper : ℕ → Bool
is_upper c = leb 65 c && leb c 90

abbrev pub is_alphabetic : ℕ → Bool
is_alphabetic c = is_upper c || is_lower c

abbrev pub is_alphanumeric : ℕ → Bool
is_alphanumeric c = is_alphabetic c || is_digit c

-- The characters of an identifier: the letters and digits of ASCII and the underscore.
abbrev pub is_word : ℕ → Bool
is_word c = is_alphanumeric c || (c == 95)

unfoldable pub all_words : String → Bool
all_words String.[] = true
all_words (String.◌∷◌ c s) = is_word (code c) && all_words s

unfoldable pub validate_field_name : String → Result SchemaError Unit
unfolding all_words
validate_field_name String.[] = err (invalid_field_name String.[] "empty")
validate_field_name (String.◌∷◌ c s) =
    if is_digit (code c)
    then err (invalid_field_name (String.◌∷◌ c s) "cannot start with a digit")
    else if not (all_words (String.◌∷◌ c s))
    then err (invalid_field_name (String.◌∷◌ c s) "only alphanumeric and '_' characters allowed")
    else ok tt

unfoldable pub to_ascii_uppercase : Char → Char
unfolding to_char
to_ascii_uppercase c = if is_lower (code c) then to_char (code c - 32) else c

-- The loop of `sanitize_message_name`: what it pushes, from the flag `capitalize` on.
unfoldable pub sanitize_loop : Bool → String → String
unfolding to_ascii_uppercase
sanitize_loop capitalize String.[] = String.[]
sanitize_loop capitalize (String.◌∷◌ c s) = elim (is_alphanumeric (code c)) [
  | true ↦ String.◌∷◌ (if capitalize then to_ascii_uppercase c else c) (sanitize_loop false s)
  | false ↦ sanitize_loop true s
]

unfoldable pub insert_letter : String → String
insert_letter String.[] = String.◌∷◌ (to_char 77) String.[]
insert_letter (String.◌∷◌ c s) =
    if is_alphabetic (code c) then String.◌∷◌ c s else String.◌∷◌ (to_char 77) (String.◌∷◌ c s)

unfoldable pub sanitize_message_name : String → String
unfolding sanitize_loop insert_letter to_char
sanitize_message_name name = insert_letter (sanitize_loop true name)

pub record MessageCollector : Type 0 where
  pub nested : DescriptorProtos
  pub used : List String

abbrev pub new : MessageCollector
new = record { nested = nil; used = [] }

abbrev pub is_used : String → List String → Bool
is_used name [] = false
is_used name (n ∷ ns) = str_eq n name || is_used name ns

-- The loop of `unique_name`. A name is free after as many rounds as there are names used, so the
-- loop of the code ends there too; the counter, a u32, stays small while there are fewer names than
-- 2^32.
unfoldable pub first_unused : ℕ → List String → String → ℕ → String
unfolding to_string
first_unused zero used base n = append base (to_string n)
first_unused (suc fuel) used base n = elim (is_used (append base (to_string n)) used) [
  | true ↦ first_unused fuel used base (n + 1)
  | false ↦ append base (to_string n)
]

abbrev taken : String → MessageCollector → String × MessageCollector
taken name c = (name, record c { used = name ∷ c.used })

unfoldable pub unique_name : MessageCollector → String → String × MessageCollector
unfolding first_unused
unique_name c base =
    if is_used base c.used
    then taken (first_unused (length c.used) c.used base 2) c
    else taken base c

-- `push`: at the end.
abbrev pub snoc : DescriptorProtos → DescriptorProto → DescriptorProtos
snoc nil m = cons m nil
snoc (cons d ds) m = cons d (snoc ds m)

unfoldable pub push : MessageCollector → DescriptorProto → MessageCollector
push c m = record c { nested = snoc c.nested m }
