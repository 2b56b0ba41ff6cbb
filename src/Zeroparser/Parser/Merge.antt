-- ===== src/Zeroparser/Parser/Merge.antt =====
-- `merge_from` and `merge_or_set_message`.
use zerobus_sdk.Common.{true, false, List, [], ◌∷◌, ◌++◌, Option, none, some}
use zerobus_sdk.Zeroparser.Errors.{ParseResult, ok, ◌>>=◌}
use zerobus_sdk.Zeroparser.Types.{FieldValueRef}
use zerobus_sdk.Zeroparser.Registry.{FieldInfo, OneofMember}
use zerobus_sdk.Zeroparser.Parser.Message.{
  ParsedMessage, parsed, Slots, no_slots, slot, ComplexType, empty, message, repeated_scalar,
  repeated_message, map, Messages, MapEntries, scalars, complex, descriptor, is_set, clear_others,
  append_messages, extend_entries, index_slot, set_complex_slot,
}

-- The first member of a group that is set in the message.
unfoldable pub find_active : ParsedMessage → List OneofMember → ParseResult (Option OneofMember)
find_active other [] = ok none
find_active other (m ∷ group) = do
  set ← is_set other m.is_scalar m.storage_index
  let rest = find_active other group
  elim set [ true ↦ ok (some m) | false ↦ rest ]

-- For each group with a member set in `other`, the others are cleared in `self`.
unfoldable pub clear_active :
    List (List OneofMember) → ParsedMessage → ParsedMessage → ParseResult ParsedMessage
clear_active [] self other = ok self
clear_active (group ∷ groups) self other = do
  active ← find_active other group
  self' ← elim active [
    | none ↦ ok self
    | some m ↦ clear_others group m.is_scalar m.storage_index self
  ]
  clear_active groups self' other

-- The two slices zipped: what is set in `other` overwrites.
unfoldable pub merge_scalars :
    List (Option FieldValueRef) → List (Option FieldValueRef) → List (Option FieldValueRef)
merge_scalars [] others = []
merge_scalars (s ∷ ss) [] = s ∷ ss
merge_scalars (s ∷ ss) (none ∷ others) = s ∷ merge_scalars ss others
merge_scalars (s ∷ ss) (some v ∷ others) = some v ∷ merge_scalars ss others

abbrev pub joined_scalars : ComplexType → List FieldValueRef → ComplexType
joined_scalars (repeated_scalar sv) ov = repeated_scalar (sv ++ ov)
joined_scalars other ov = repeated_scalar ov

abbrev pub joined_messages : ComplexType → Messages → ComplexType
joined_messages (repeated_message sv) ov = repeated_message (append_messages sv ov)
joined_messages other ov = repeated_message ov

abbrev pub joined_maps : ComplexType → MapEntries → ComplexType
joined_maps (map sm) om = map (extend_entries sm om)
joined_maps other om = map om

-- A message merged into a slot, over the merge of two messages.
abbrev pub merged_message :
    (ParsedMessage → ParseResult ParsedMessage)
    → ComplexType
    → ParsedMessage
    → ParseResult ComplexType
merged_message merge (message sm) om = do m ← merge sm; ok (message m)
merged_message merge other om = ok (message om)

unfoldable mutual
  pub merge_from : ParsedMessage → ParsedMessage → ParseResult ParsedMessage
  merge_from self (parsed other_scalars other_complex d) = do
    cleared ←
        clear_active (descriptor self).oneof_groups self (parsed other_scalars other_complex d)
    merged ← merge_slots (complex cleared) other_complex
    ok (parsed (merge_scalars (scalars cleared) other_scalars) merged (descriptor self))

  pub merge_slots : Slots → Slots → ParseResult Slots
  merge_slots mine no_slots = ok mine
  merge_slots no_slots (slot other others) = ok no_slots
  merge_slots (slot c cs) (slot other others) = do
    c' ← merge_slot c other
    cs' ← merge_slots cs others
    ok (slot c' cs')

  pub merge_slot : ComplexType → ComplexType → ParseResult ComplexType
  merge_slot mine empty = ok mine
  merge_slot mine (message om) = merged_message (λ sm. merge_from sm om) mine om
  merge_slot mine (repeated_scalar ov) = ok (joined_scalars mine ov)
  merge_slot mine (repeated_message ov) = ok (joined_messages mine ov)
  merge_slot mine (map om) = ok (joined_maps mine om)

unfoldable pub merge_or_set_message :
    ParsedMessage → FieldInfo → ParsedMessage → ParseResult ParsedMessage
merge_or_set_message m info value = do
  c ← index_slot (complex m) info.storage_index
  c' ← merged_message (λ existing. merge_from existing value) c value
  set_complex_slot m info.storage_index c'
