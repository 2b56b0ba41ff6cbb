-- ===== src/Zeroparser/Parser/SlotsEnd.antt =====
-- The operations on one message, and `merge_from`, end on every argument.
use zerobus_sdk.Common.{
  ℕ, zero, suc, Bool, true, false, List, [], ◌∷◌, Option, none, some, if◌then◌else◌, arith,
}
use zerobus_sdk.Common.Int.{ℤ}
use zerobus_sdk.Zeroparser.Errors.{ParseResult, ok, Ends, Ends->>=, ◌>>=◌}
use zerobus_sdk.Zeroparser.Types.{FieldValueRef, MapKeyRef}
use zerobus_sdk.Zeroparser.Registry.{FieldInfo, OneofMember, get_oneof_group}
use zerobus_sdk.Zeroparser.Parser.Message.{
  ParsedMessage, parsed, Slots, no_slots, slot, ComplexType, empty, message, repeated_scalar,
  repeated_message, map, ParsedMapValue, scalars, complex, descriptor, index, write, index_slot,
  write_slot, set_scalar_slot, set_complex_slot, is_set, set_scalar, add_repeated_scalar,
  add_repeated_message, add_map_entry, same_slot, clear_member, clear_others, clear_oneof_siblings,
  pushed_scalar, pushed_message, with_entry,
}
use zerobus_sdk.Zeroparser.Parser.Merge.{
  find_active, clear_active, merged_message, merge_from, merge_slots, merge_slot,
  merge_or_set_message,
}

module _ {ℓ} {A : Type ℓ} where
  index-Ends : (xs : List A) (i : ℕ) → Ends (index xs i)
  unfolding index
  index-Ends [] i = tt
  index-Ends (x ∷ xs) zero = tt
  index-Ends (x ∷ xs) (suc i) = index-Ends xs i

  write-Ends : (xs : List A) (i : ℕ) (v : A) → Ends (write xs i v)
  unfolding write
  write-Ends [] i v = tt
  write-Ends (x ∷ xs) zero v = tt
  write-Ends (x ∷ xs) (suc i) v = Ends->>= (write xs i v) _ (write-Ends xs i v) λ _. tt

pub index_slot-Ends : (s : Slots) (i : ℕ) → Ends (index_slot s i)
unfolding index_slot
index_slot-Ends no_slots i = tt
index_slot-Ends (slot c cs) zero = tt
index_slot-Ends (slot c cs) (suc i) = index_slot-Ends cs i

write_slot-Ends : (s : Slots) (i : ℕ) (v : ComplexType) → Ends (write_slot s i v)
unfolding write_slot
write_slot-Ends no_slots i v = tt
write_slot-Ends (slot c cs) zero v = tt
write_slot-Ends (slot c cs) (suc i) v =
    Ends->>= (write_slot cs i v) _ (write_slot-Ends cs i v) λ _. tt

set_scalar_slot-Ends :
    (m : ParsedMessage) (i : ℕ) (v : Option FieldValueRef) → Ends (set_scalar_slot m i v)
unfolding set_scalar_slot
set_scalar_slot-Ends (parsed s c d) i v = Ends->>= (write s i v) _ (write-Ends s i v) λ _. tt

pub set_complex_slot-Ends :
    (m : ParsedMessage) (i : ℕ) (v : ComplexType) → Ends (set_complex_slot m i v)
unfolding set_complex_slot
set_complex_slot-Ends (parsed s c d) i v =
    Ends->>= (write_slot c i v) _ (write_slot-Ends c i v) λ _. tt

pub set_scalar-Ends :
    (m : ParsedMessage) (info : FieldInfo) (v : FieldValueRef) → Ends (set_scalar m info v)
unfolding set_scalar
set_scalar-Ends m info v = set_scalar_slot-Ends m info.storage_index (some v)

-- The pattern of the three `add_` functions: read a slot, make a new value for it, write it.
updates_slot-Ends :
    (m : ParsedMessage) (i : ℕ) (f : ComplexType → ParseResult ComplexType)
    → ((c : ComplexType) → Ends (f c))
    → Ends (index_slot (complex m) i >>= λ c. f c >>= λ c'. set_complex_slot m i c')
updates_slot-Ends m i f h =
    Ends->>= (index_slot (complex m) i) _ (index_slot-Ends (complex m) i)
      λ c. Ends->>= (f c) _ (h c) λ c'. set_complex_slot-Ends m i c'

pushed_scalar-Ends : (c : ComplexType) (v : FieldValueRef) (n : ℤ) → Ends (pushed_scalar c v n)
pushed_scalar-Ends empty v n = tt
pushed_scalar-Ends (message m) v n = tt
pushed_scalar-Ends (repeated_scalar vs) v n = tt
pushed_scalar-Ends (repeated_message ms) v n = tt
pushed_scalar-Ends (map es) v n = tt

pushed_message-Ends : (c : ComplexType) (v : ParsedMessage) (n : ℤ) → Ends (pushed_message c v n)
pushed_message-Ends empty v n = tt
pushed_message-Ends (message m) v n = tt
pushed_message-Ends (repeated_scalar vs) v n = tt
pushed_message-Ends (repeated_message ms) v n = tt
pushed_message-Ends (map es) v n = tt

with_entry-Ends :
    (c : ComplexType) (k : MapKeyRef) (v : ParsedMapValue) (n : ℤ) → Ends (with_entry c k v n)
with_entry-Ends empty k v n = tt
with_entry-Ends (message m) k v n = tt
with_entry-Ends (repeated_scalar vs) k v n = tt
with_entry-Ends (repeated_message ms) k v n = tt
with_entry-Ends (map es) k v n = tt

pub add_repeated_scalar-Ends :
    (m : ParsedMessage) (info : FieldInfo) (n : ℤ) (v : FieldValueRef)
    → Ends (add_repeated_scalar m info n v)
unfolding add_repeated_scalar
add_repeated_scalar-Ends m info n v =
    updates_slot-Ends m info.storage_index (λ c. pushed_scalar c v n) λ c. pushed_scalar-Ends c v n

pub add_repeated_message-Ends :
    (m : ParsedMessage) (info : FieldInfo) (n : ℤ) (v : ParsedMessage)
    → Ends (add_repeated_message m info n v)
unfolding add_repeated_message
add_repeated_message-Ends m info n v =
    updates_slot-Ends m info.storage_index (λ c. pushed_message c v n)
      λ c. pushed_message-Ends c v n

pub add_map_entry-Ends :
    (m : ParsedMessage) (info : FieldInfo) (n : ℤ) (k : MapKeyRef) (v : ParsedMapValue)
    → Ends (add_map_entry m info n k v)
unfolding add_map_entry
add_map_entry-Ends m info n k v =
    updates_slot-Ends m info.storage_index (λ c. with_entry c k v n) λ c. with_entry-Ends c k v n

clear_member-Ends : (m : ParsedMessage) (member : OneofMember) → Ends (clear_member m member)
unfolding clear_member
clear_member-Ends m member = ground (
  arith,
  set_scalar_slot-Ends m member.storage_index none,
  set_complex_slot-Ends m member.storage_index empty,
)

clear_others-Ends :
    (group : List OneofMember) (is_scalar : Bool) (i : ℕ) (m : ParsedMessage)
    → Ends (clear_others group is_scalar i m)
unfolding clear_others
clear_others-Ends [] is_scalar i m = tt
clear_others-Ends (member ∷ group) is_scalar i m =
    Ends->>= (if same_slot member is_scalar i then ok m else clear_member m member) _
      (ground (arith, clear_member-Ends m member)) λ m'. clear_others-Ends group is_scalar i m'

pub clear_oneof_siblings-Ends :
    (m : ParsedMessage) (oneof_index : ℤ) (info : FieldInfo)
    → Ends (clear_oneof_siblings m oneof_index info)
unfolding clear_oneof_siblings
clear_oneof_siblings-Ends m oneof_index info =
    clear_others-Ends (get_oneof_group (descriptor m) oneof_index) info.is_scalar info.storage_index
      m

is_set-Ends : (m : ParsedMessage) (scalar : Bool) (i : ℕ) → Ends (is_set m scalar i)
unfolding is_set
is_set-Ends m true i = Ends->>= (index (scalars m) i) _ (index-Ends (scalars m) i) λ _. tt
is_set-Ends m false i =
    Ends->>= (index_slot (complex m) i) _ (index_slot-Ends (complex m) i) λ _. tt

chosen-Ends :
    (set : Bool) (m : OneofMember) (rest : ParseResult (Option OneofMember))
    → Ends rest
    → Ends (elim set [ true ↦ ok (some m) | false ↦ rest ])
chosen-Ends true m rest h = tt
chosen-Ends false m rest h = h

find_active-Ends :
    (other : ParsedMessage) (group : List OneofMember) → Ends (find_active other group)
unfolding find_active
find_active-Ends other [] = tt
find_active-Ends other (m ∷ group) =
    Ends->>= (is_set other m.is_scalar m.storage_index) _
      (is_set-Ends other m.is_scalar m.storage_index)
      λ set. chosen-Ends set m (find_active other group) (find_active-Ends other group)

cleared_group-Ends :
    (active : Option OneofMember) (group : List OneofMember) (self : ParsedMessage)
    → Ends (elim active [
      | none ↦ ok self
      | some m ↦ clear_others group m.is_scalar m.storage_index self
    ])
cleared_group-Ends none group self = tt
cleared_group-Ends (some m) group self = clear_others-Ends group m.is_scalar m.storage_index self

clear_active-Ends :
    (groups : List (List OneofMember)) (self other : ParsedMessage)
    → Ends (clear_active groups self other)
unfolding clear_active
clear_active-Ends [] self other = tt
clear_active-Ends (group ∷ groups) self other =
    Ends->>= (find_active other group) _ (find_active-Ends other group) λ active.
      Ends->>= _ _ (cleared_group-Ends active group self)
        λ self'. clear_active-Ends groups self' other

merged_message-Ends :
    (merge : ParsedMessage → ParseResult ParsedMessage) (c : ComplexType) (om : ParsedMessage)
    → ((sm : ParsedMessage) → Ends (merge sm))
    → Ends (merged_message merge c om)
merged_message-Ends merge empty om h = tt
merged_message-Ends merge (message sm) om h = Ends->>= (merge sm) _ (h sm) λ _. tt
merged_message-Ends merge (repeated_scalar vs) om h = tt
merged_message-Ends merge (repeated_message ms) om h = tt
merged_message-Ends merge (map es) om h = tt

mutual
  unfolding merge_from

  pub merge_from-Ends : (self other : ParsedMessage) → Ends (merge_from self other)
  merge_from-Ends self (parsed s c d) =
      Ends->>= (clear_active (descriptor self).oneof_groups self (parsed s c d)) _
        (clear_active-Ends (descriptor self).oneof_groups self (parsed s c d))
        λ cleared.
          Ends->>= (merge_slots (complex cleared) c) _ (merge_slots-Ends (complex cleared) c)
            λ _. tt

  merge_slots-Ends : (mine others : Slots) → Ends (merge_slots mine others)
  merge_slots-Ends mine no_slots = tt
  merge_slots-Ends no_slots (slot o os) = tt
  merge_slots-Ends (slot c cs) (slot o os) =
      Ends->>= (merge_slot c o) _ (merge_slot-Ends c o)
        λ _. Ends->>= (merge_slots cs os) _ (merge_slots-Ends cs os) λ _. tt

  merge_slot-Ends : (mine other : ComplexType) → Ends (merge_slot mine other)
  merge_slot-Ends mine empty = tt
  merge_slot-Ends mine (message om) =
      merged_message-Ends (λ sm. merge_from sm om) mine om λ sm. merge_from-Ends sm om
  merge_slot-Ends mine (repeated_scalar vs) = tt
  merge_slot-Ends mine (repeated_message ms) = tt
  merge_slot-Ends mine (map es) = tt

pub merge_or_set_message-Ends :
    (m : ParsedMessage) (info : FieldInfo) (value : ParsedMessage)
    → Ends (merge_or_set_message m info value)
unfolding merge_or_set_message
merge_or_set_message-Ends m info value =
    updates_slot-Ends m info.storage_index
      (λ c. merged_message (λ existing. merge_from existing value) c value)
      λ c.
        merged_message-Ends (λ existing. merge_from existing value) c value
          λ sm. merge_from-Ends sm value
