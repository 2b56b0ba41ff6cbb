-- ===== src/Schema/Collected.antt =====
-- The messages the collector takes in: map entries and structs.
use Prim.Native.String.{String, ◌++◌ as append}
use mathlib.Core.List.{append-nil}
use zerobus_sdk.Common.{sym, ◌++◌, ◌≡◌, inl, inr, refl, true, false, Option, some, List, [], All}
use zerobus_sdk.Zeroparser.Types.{FieldType}
use zerobus_sdk.Zeroparser.Registry.{FieldDescriptorProto, DescriptorProto, is_message}
use zerobus_sdk.Schema.Types.{
  SchemaError, Result, ok, err, ◌>>=◌, ForOk, PrimitiveType, string, long, integer, short, byte,
  double, float, boolean, binary, timestamp, timestamp_ntz, date, decimal, variant, ComplexType,
}
use zerobus_sdk.Schema.Names.{
  all_words, validate_field_name, MessageCollector, new, unique_name, push, is_used,
}
use zerobus_sdk.Schema.FieldTypes.{
  map_primitive_to_protobuf, validate_map_key, MapValue, primitive_value, message_value,
  generate_map_entry, finish_map,
}
use zerobus_sdk.Schema.Descriptor.{with_fields}
use zerobus_sdk.Schema.Identifiers.{
  IsIdentifier, IsMessageName, IsMessageName-append, validate_field_name-IsIdentifier,
}
use zerobus_sdk.Schema.Unique.{Fresh, unique_name-Fresh}
use zerobus_sdk.Schema.Scopes.{
  names, name_of, Includes-append, fields-weaken, IsTyped, IsField, WellFormed, AllWellFormed,
  IsCollector, Extends, Extends-trans, push-IsCollector,
}

pub primitive_no_message : (p : PrimitiveType) → is_message (map_primitive_to_protobuf p) ≡ false
unfolding map_primitive_to_protobuf
primitive_no_message string = refl
primitive_no_message long = refl
primitive_no_message integer = refl
primitive_no_message short = refl
primitive_no_message byte = refl
primitive_no_message double = refl
primitive_no_message float = refl
primitive_no_message boolean = refl
primitive_no_message binary = refl
primitive_no_message timestamp = refl
primitive_no_message timestamp_ntz = refl
primitive_no_message date = refl
primitive_no_message decimal = refl
primitive_no_message variant = refl

pub new-IsCollector : IsCollector new
unfolding AllWellFormed
new-IsCollector = (tt, tt, tt)

abbrev pub Mapped : MessageCollector → FieldType × Option String × MessageCollector → Type 0
Mapped c (t, name, d) = IsCollector d × Extends c d × IsTyped (names d.nested) t name

abbrev pub Fielded : MessageCollector → List FieldDescriptorProto × MessageCollector → Type 0
Fielded c (fields, d) = IsCollector d × Extends c d × All (IsField (names d.nested)) fields

pub Extends-refl : (c : MessageCollector) → Extends c c
Extends-refl c = ([], sym (append-nil (names c.nested)))

pub validated :
    (name : String) (r : Result SchemaError Unit)
    → validate_field_name name ≡ r
    → ForOk (λ (u : Unit). IsIdentifier name) r
validated name (ok u) e = validate_field_name-IsIdentifier name e
validated name (err f) e = tt

pub validate_map_key-ForOk :
    (key : ComplexType) (path : String)
    → ForOk (λ (p : PrimitiveType). Unit) (validate_map_key key path)
validate_map_key-ForOk key path =
    elim (validate_map_key key path) as (λ r. ForOk (λ (p : PrimitiveType). Unit) r) [
      | ok p ↦ tt
      | err e ↦ tt
    ]

-- The value of a map is a primitive, or one of the messages collected.
abbrev IsValue : List String → MapValue → Type 0
IsValue scope (primitive_value p) = Unit
IsValue scope (message_value n) = is_used n scope ≡ true

generate_map_entry-WellFormed :
    (scope : List String) (name : String) (key : PrimitiveType) (value : MapValue)
    → IsMessageName name
    → IsValue scope value
    → WellFormed scope (generate_map_entry name key value)
unfolding WellFormed generate_map_entry all_words
generate_map_entry-WellFormed scope name key (primitive_value p) ident h = (
  (name, refl, ident),
  (
    (("key", refl, (refl, refl)), inr (primitive_no_message key, refl)),
    ((("value", refl, (refl, refl)), inr (primitive_no_message p, refl)), tt),
  ),
  tt,
  tt,
)
generate_map_entry-WellFormed scope name key (message_value n) ident h = (
  (name, refl, ident),
  (
    (("key", refl, (refl, refl)), inr (primitive_no_message key, refl)),
    ((("value", refl, (refl, refl)), inl (refl, (n, refl, h))), tt),
  ),
  tt,
  tt,
)

pub finish_map-Mapped :
    (base : String) (key : PrimitiveType) (value : MapValue) (c : MessageCollector)
    → IsMessageName base
    → IsValue (names c.nested) value
    → IsCollector c
    → ForOk (Mapped c) (finish_map base key value c)
unfolding finish_map
finish_map-Mapped base key value c h v i =
    let (name, t) = unique_name c (append base "Entry") in
    let fresh =
      unique_name-Fresh c (append base "Entry")
        (IsMessageName-append base "Entry" h (refl, (refl, (refl, (refl, (refl, tt)))))) in
    let entry = generate_map_entry name key value in
    let (d, extends, found) =
      push-IsCollector c t entry name i fresh refl
        (generate_map_entry-WellFormed (names c.nested) name key value fresh.1 v) in
    (d, extends, inl (refl, (name, refl, found)))

-- What a struct's fields give is a message.
abbrev Built : String → List String → DescriptorProto → Type 0
Built name outer m = (name_of m ≡ some name) × WellFormed outer m

pub with_fields-Built :
    (name : String) (outer : List String)
    (r : Result SchemaError (List FieldDescriptorProto × MessageCollector))
    → IsMessageName name
    → ForOk (Fielded new) r
    → ForOk (Built name outer) (with_fields name r)
unfolding WellFormed
with_fields-Built name outer (err e) h f = tt
with_fields-Built name outer (ok (fields, c)) h ((all, distinct, used), extends, typed) = (
  refl,
  (
    (name, refl, h),
    fields-weaken (names c.nested) (names c.nested ++ outer) fields
        (Includes-append (names c.nested) outer) typed,
    distinct,
    all,
  ),
)

-- A struct under a fresh name.
pub collect-Mapped :
    (c : MessageCollector) (fresh : String × MessageCollector)
    (r : Result SchemaError DescriptorProto)
    → IsCollector c
    → Fresh c fresh
    → ForOk (Built fresh.0 (names c.nested)) r
    → ForOk (Mapped c) (r >>= λ msg. ok (FieldType.message, some fresh.0, push fresh.1 msg))
collect-Mapped c (name, t) (err e) i f h = tt
collect-Mapped c (name, t) (ok m) i f (named, w) =
    let (d, extends, found) = push-IsCollector c t m name i f named w in
    (d, extends, inl (refl, (name, refl, found)))

weaken-Mapped :
    (c d : MessageCollector) (r : Result SchemaError (FieldType × Option String × MessageCollector))
    → Extends c d
    → ForOk (Mapped d) r
    → ForOk (Mapped c) r
weaken-Mapped c d (err e) x h = tt
weaken-Mapped c d (ok (t, name, e)) x (i, y, typed) = (i, Extends-trans c d e x y, typed)

-- A map whose values are structs.
pub collect_value-Mapped :
    (base : String) (key : PrimitiveType) (c : MessageCollector) (fresh : String × MessageCollector)
    (r : Result SchemaError DescriptorProto)
    → IsMessageName base
    → IsCollector c
    → Fresh c fresh
    → ForOk (Built fresh.0 (names c.nested)) r
    → ForOk (Mapped c) (r >>= λ msg. finish_map base key (message_value fresh.0) (push fresh.1 msg))
collect_value-Mapped base key c (name, t) (err e) b i f h = tt
collect_value-Mapped base key c (name, t) (ok m) b i f (named, w) =
    let (d, extends, found) = push-IsCollector c t m name i f named w in
    weaken-Mapped c (push t m) (finish_map base key (message_value name) (push t m)) extends
      (finish_map-Mapped base key (message_value name) (push t m) b found d)
