-- ===== src/Zeroparser/Parser/Message.antt =====
-- `ParsedMessage` and `ComplexType`, with the operations that touch one slot of a message.
use Prim.Native.String.{String}
use zerobus_sdk.Common.{
  ℕ, zero, suc, Bool, true, false, ◌&&◌, not, List, [], ◌∷◌, ◌++◌, Option, none, some, replicate,
  if◌then◌else◌, ◌==◌,
}
use zerobus_sdk.Common.Int.{ℤ, eq_ℤ}
use zerobus_sdk.Zeroparser.Errors.{ParseResult, ok, err, panic, ◌>>=◌, complex_type_mismatch}
use zerobus_sdk.Zeroparser.Types.{FieldValueRef, MapKeyRef}
use zerobus_sdk.Zeroparser.Registry.{
  DescriptorWithFieldCache, FieldInfo, OneofMember, get_field, get_oneof_group,
}

-- A boxed slice of complex slots, a vector of messages and a map are lists of their own here,
-- since they hold messages; the order of a map's entries is not that of the source's `HashMap`.
mutual
  pub data ParsedMessage : Type 0 where
    parsed : List (Option FieldValueRef) → Slots → DescriptorWithFieldCache → ParsedMessage

  pub data Slots : Type 0 where
    no_slots : Slots
    slot : ComplexType → Slots → Slots

  pub data ComplexType : Type 0 where
    empty : ComplexType
    message : ParsedMessage → ComplexType
    repeated_scalar : List FieldValueRef → ComplexType
    repeated_message : Messages → ComplexType
    map : MapEntries → ComplexType

  pub data Messages : Type 0 where
    no_messages : Messages
    and_message : ParsedMessage → Messages → Messages

  pub data MapEntries : Type 0 where
    no_entries : MapEntries
    entry : MapKeyRef → ParsedMapValue → MapEntries → MapEntries

  pub data ParsedMapValue : Type 0 where
    scalar : FieldValueRef → ParsedMapValue
    nested : ParsedMessage → ParsedMapValue

abbrev pub scalars : ParsedMessage → List (Option FieldValueRef)
scalars (parsed s c d) = s

abbrev pub complex : ParsedMessage → Slots
complex (parsed s c d) = c

abbrev pub descriptor : ParsedMessage → DescriptorWithFieldCache
descriptor (parsed s c d) = d

unfoldable pub as_str : ComplexType → String
as_str empty = "empty"
as_str (message m) = "message"
as_str (repeated_scalar vs) = "repeated scalar"
as_str (repeated_message ms) = "repeated message"
as_str (map es) = "map"

-- Indexing a slice, for reading and for writing.
module _ {ℓ} {A : Type ℓ} where
  unfoldable pub index : List A → ℕ → ParseResult A
  index [] i = panic
  index (x ∷ xs) zero = ok x
  index (x ∷ xs) (suc i) = index xs i

  unfoldable pub write : List A → ℕ → A → ParseResult (List A)
  write [] i v = panic
  write (x ∷ xs) zero v = ok (v ∷ xs)
  write (x ∷ xs) (suc i) v = do ys ← write xs i v; ok (x ∷ ys)

unfoldable pub index_slot : Slots → ℕ → ParseResult ComplexType
index_slot no_slots i = panic
index_slot (slot c cs) zero = ok c
index_slot (slot c cs) (suc i) = index_slot cs i

unfoldable pub write_slot : Slots → ℕ → ComplexType → ParseResult Slots
write_slot no_slots i v = panic
write_slot (slot c cs) zero v = ok (slot v cs)
write_slot (slot c cs) (suc i) v = do ds ← write_slot cs i v; ok (slot c ds)

unfoldable pub empty_slots : ℕ → Slots
empty_slots zero = no_slots
empty_slots (suc n) = slot empty (empty_slots n)

unfoldable pub with_descriptor : DescriptorWithFieldCache → ParsedMessage
with_descriptor d = parsed (replicate d.scalar_count none) (empty_slots d.complex_count) d

unfoldable pub set_scalar_slot :
    ParsedMessage → ℕ → Option FieldValueRef → ParseResult ParsedMessage
set_scalar_slot (parsed s c d) i v = do s' ← write s i v; ok (parsed s' c d)

unfoldable pub set_complex_slot : ParsedMessage → ℕ → ComplexType → ParseResult ParsedMessage
set_complex_slot (parsed s c d) i v = do c' ← write_slot c i v; ok (parsed s c' d)

abbrev pub is_some {ℓ} : {A : Type ℓ} → Option A → Bool
is_some none = false
is_some (some a) = true

abbrev pub is_empty : ComplexType → Bool
is_empty empty = true
is_empty other = false

-- Whether a slot is in use: the test of `has_field` and of the oneof scan of `merge_from`.
unfoldable pub is_set : ParsedMessage → Bool → ℕ → ParseResult Bool
is_set m true i = do v ← index (scalars m) i; ok (is_some v)
is_set m false i = do c ← index_slot (complex m) i; ok (not (is_empty c))

unfoldable pub has_field : ParsedMessage → ℤ → ParseResult Bool
has_field m field_num = elim (get_field (descriptor m) field_num) [
  | none ↦ ok false
  | some info ↦ is_set m info.is_scalar info.storage_index
]

-- The slot of the field's index is read from the scalars, whatever the field is.
unfoldable pub get_scalar : ParsedMessage → ℤ → ParseResult (Option FieldValueRef)
get_scalar m field_num = elim (get_field (descriptor m) field_num) [
  | none ↦ ok none
  | some info ↦ index (scalars m) info.storage_index
]

abbrev pub as_message : ComplexType → Option ParsedMessage
as_message (message m) = some m
as_message other = none

unfoldable pub get_message : ParsedMessage → ℤ → ParseResult (Option ParsedMessage)
get_message m field_num = elim (get_field (descriptor m) field_num) [
  | none ↦ ok none
  | some info ↦ do c ← index_slot (complex m) info.storage_index; ok (as_message c)
]

abbrev pub as_repeated_scalar : ComplexType → List FieldValueRef
as_repeated_scalar (repeated_scalar vs) = vs
as_repeated_scalar other = []

unfoldable pub get_repeated_scalars : ParsedMessage → ℤ → ParseResult (List FieldValueRef)
get_repeated_scalars m field_num = elim (get_field (descriptor m) field_num) [
  | none ↦ ok []
  | some info ↦ do c ← index_slot (complex m) info.storage_index; ok (as_repeated_scalar c)
]

abbrev pub as_repeated_message : ComplexType → Messages
as_repeated_message (repeated_message ms) = ms
as_repeated_message other = no_messages

unfoldable pub get_repeated_messages : ParsedMessage → ℤ → ParseResult Messages
get_repeated_messages m field_num = elim (get_field (descriptor m) field_num) [
  | none ↦ ok no_messages
  | some info ↦ do c ← index_slot (complex m) info.storage_index; ok (as_repeated_message c)
]

abbrev pub as_map : ComplexType → MapEntries
as_map (map es) = es
as_map other = no_entries

unfoldable pub get_map_entries : ParsedMessage → ℤ → ParseResult MapEntries
get_map_entries m field_num = elim (get_field (descriptor m) field_num) [
  | none ↦ ok no_entries
  | some info ↦ do c ← index_slot (complex m) info.storage_index; ok (as_map c)
]

unfoldable pub set_scalar : ParsedMessage → FieldInfo → FieldValueRef → ParseResult ParsedMessage
set_scalar m info value = set_scalar_slot m info.storage_index (some value)

-- `push` at the end of a vector of messages.
unfoldable pub append_messages : Messages → Messages → Messages
append_messages no_messages more = more
append_messages (and_message m ms) more = and_message m (append_messages ms more)

abbrev beq_bytes : List ℕ → List ℕ → Bool
beq_bytes [] [] = true
beq_bytes [] (b ∷ bs) = false
beq_bytes (a ∷ as') [] = false
beq_bytes (a ∷ as') (b ∷ bs) = a == b && beq_bytes as' bs

abbrev beq_bool : Bool → Bool → Bool
beq_bool true b = b
beq_bool false b = not b

-- The derived equality of map keys.
unfoldable pub beq_key : MapKeyRef → MapKeyRef → Bool
beq_key (MapKeyRef.string a) (MapKeyRef.string b) = beq_bytes a b
beq_key (MapKeyRef.int32 a) (MapKeyRef.int32 b) = eq_ℤ a b
beq_key (MapKeyRef.int64 a) (MapKeyRef.int64 b) = eq_ℤ a b
beq_key (MapKeyRef.uint32 a) (MapKeyRef.uint32 b) = a == b
beq_key (MapKeyRef.uint64 a) (MapKeyRef.uint64 b) = a == b
beq_key (MapKeyRef.bool a) (MapKeyRef.bool b) = beq_bool a b
beq_key a b = false

-- `HashMap::insert`: the value of a key that is there is replaced.
unfoldable pub insert_entry : MapKeyRef → ParsedMapValue → MapEntries → MapEntries
insert_entry k v no_entries = entry k v no_entries
insert_entry k v (entry j w es) =
    if beq_key j k then entry j v es else entry j w (insert_entry k v es)

unfoldable pub find_entry : MapKeyRef → MapEntries → Option ParsedMapValue
find_entry k no_entries = none
find_entry k (entry j v es) = if beq_key j k then some v else find_entry k es

unfoldable pub extend_entries : MapEntries → MapEntries → MapEntries
extend_entries mine no_entries = mine
extend_entries mine (entry k v es) = extend_entries (insert_entry k v mine) es

unfoldable pub count_entries : MapEntries → ℕ
count_entries no_entries = 0
count_entries (entry k v es) = suc (count_entries es)

unfoldable pub get_map_entries_count : ParsedMessage → ℤ → ParseResult ℕ
get_map_entries_count m field_num = do es ← get_map_entries m field_num; ok (count_entries es)

abbrev pub pushed_scalar : ComplexType → FieldValueRef → ℤ → ParseResult ComplexType
pushed_scalar (repeated_scalar vs) value n = ok (repeated_scalar (vs ++ value ∷ []))
pushed_scalar empty value n = ok (repeated_scalar (value ∷ []))
pushed_scalar other value n = err (complex_type_mismatch "RepeatedScalar" (as_str other) n)

unfoldable pub add_repeated_scalar :
    ParsedMessage → FieldInfo → ℤ → FieldValueRef → ParseResult ParsedMessage
add_repeated_scalar m info field_num value = do
  c ← index_slot (complex m) info.storage_index
  c' ← pushed_scalar c value field_num
  set_complex_slot m info.storage_index c'

abbrev pub pushed_message : ComplexType → ParsedMessage → ℤ → ParseResult ComplexType
pushed_message (repeated_message ms) value n =
    ok (repeated_message (append_messages ms (and_message value no_messages)))
pushed_message empty value n = ok (repeated_message (and_message value no_messages))
pushed_message other value n = err (complex_type_mismatch "RepeatedMessage" (as_str other) n)

unfoldable pub add_repeated_message :
    ParsedMessage → FieldInfo → ℤ → ParsedMessage → ParseResult ParsedMessage
add_repeated_message m info field_num value = do
  c ← index_slot (complex m) info.storage_index
  c' ← pushed_message c value field_num
  set_complex_slot m info.storage_index c'

abbrev pub with_entry : ComplexType → MapKeyRef → ParsedMapValue → ℤ → ParseResult ComplexType
with_entry (map es) key value n = ok (map (insert_entry key value es))
with_entry empty key value n = ok (map (insert_entry key value no_entries))
with_entry other key value n = err (complex_type_mismatch "Map" (as_str other) n)

unfoldable pub add_map_entry :
    ParsedMessage → FieldInfo → ℤ → MapKeyRef → ParsedMapValue → ParseResult ParsedMessage
add_map_entry m info field_num key value = do
  c ← index_slot (complex m) info.storage_index
  c' ← with_entry c key value field_num
  set_complex_slot m info.storage_index c'

abbrev pub same_slot : OneofMember → Bool → ℕ → Bool
same_slot member is_scalar storage_index =
    beq_bool member.is_scalar is_scalar && member.storage_index == storage_index

unfoldable pub clear_member : ParsedMessage → OneofMember → ParseResult ParsedMessage
clear_member m member =
    if member.is_scalar
    then set_scalar_slot m member.storage_index none
    else set_complex_slot m member.storage_index empty

-- The loop over a group that clears every member but the one given by its slot.
unfoldable pub clear_others :
    List OneofMember → Bool → ℕ → ParsedMessage → ParseResult ParsedMessage
clear_others [] is_scalar storage_index m = ok m
clear_others (member ∷ group) is_scalar storage_index m = do
  m' ← if same_slot member is_scalar storage_index then ok m else clear_member m member
  clear_others group is_scalar storage_index m'

unfoldable pub clear_oneof_siblings : ParsedMessage → ℤ → FieldInfo → ParseResult ParsedMessage
clear_oneof_siblings m oneof_index info =
    clear_others (get_oneof_group (descriptor m) oneof_index) info.is_scalar info.storage_index m
