-- ===== src/Schema/FieldTypes.antt =====
-- rust/sdk/src/schema.rs: the types of fields, their descriptors, and the entries of maps.
use Prim.Native.String.{String, ◌++◌ as append}
use zerobus_sdk.Common.{Bool, true, false, not, ◌&&◌, Option, none, some, [], ◌∷◌, if◌then◌else◌}
use zerobus_sdk.Common.Int.{ℤ, pos}
use zerobus_sdk.Zeroparser.Types.{FieldType}
use zerobus_sdk.Zeroparser.Registry.{FieldDescriptorProto, DescriptorProto, descriptor_proto, nil}
use zerobus_sdk.Schema.Types.{
  SchemaError, invalid, Result, ok, err, PrimitiveType, string, long, integer, short, byte, double,
  float, boolean, binary, timestamp, timestamp_ntz, date, decimal, variant, ComplexType, primitive,
}
use zerobus_sdk.Schema.Names.{MessageCollector, unique_name, push}

unfoldable pub map_primitive_to_protobuf : PrimitiveType → FieldType
map_primitive_to_protobuf string = FieldType.string
map_primitive_to_protobuf long = FieldType.int64
map_primitive_to_protobuf integer = FieldType.int32
map_primitive_to_protobuf short = FieldType.int32
map_primitive_to_protobuf byte = FieldType.int32
map_primitive_to_protobuf double = FieldType.double
map_primitive_to_protobuf float = FieldType.float
map_primitive_to_protobuf boolean = FieldType.bool
map_primitive_to_protobuf binary = FieldType.bytes
map_primitive_to_protobuf timestamp = FieldType.int64
map_primitive_to_protobuf timestamp_ntz = FieldType.int64
map_primitive_to_protobuf date = FieldType.int32
map_primitive_to_protobuf decimal = FieldType.string
map_primitive_to_protobuf variant = FieldType.string

unfoldable pub is_valid_map_key : PrimitiveType → Bool
is_valid_map_key double = false
is_valid_map_key float = false
is_valid_map_key binary = false
is_valid_map_key other = true

-- `{:?}` of a primitive type.
unfoldable pub debug : PrimitiveType → String
debug string = "String"
debug long = "Long"
debug integer = "Integer"
debug short = "Short"
debug byte = "Byte"
debug double = "Double"
debug float = "Float"
debug boolean = "Boolean"
debug binary = "Binary"
debug timestamp = "Timestamp"
debug timestamp_ntz = "TimestampNtz"
debug date = "Date"
debug decimal = "Decimal"
debug variant = "Variant"

abbrev pub unsupported_key : PrimitiveType → String → String → SchemaError
unsupported_key p path reason = invalid (
    append "unsupported map key type "
      (append (debug p) (append " for field '" (append path (append "' " reason)))))

unfoldable pub validate_map_key : ComplexType → String → Result SchemaError PrimitiveType
unfolding is_valid_map_key debug
validate_map_key (primitive p) path =
    if is_valid_map_key p
    then ok p
    else err (unsupported_key p path "(map keys must be integral, bool, or string)")
validate_map_key other path =
    err (invalid (append "map keys must be primitive types (field '" (append path "')")))

unfoldable pub shape_unsupported : String → String → SchemaError
shape_unsupported kind path =
    invalid (append kind (append " not supported for field '" (append path "'")))

abbrev label_of : Bool → Bool → ℤ
label_of nullable true = pos 3
label_of true false = pos 1
label_of false false = pos 2

unfoldable pub field_descriptor :
    String → ℤ → FieldType → Option String → Bool → Bool → FieldDescriptorProto
field_descriptor name number field_type type_name nullable repeated = record {
  name = some name;
  number = some number;
  label = some (label_of nullable repeated);
  type = field_type;
  type_name = type_name;
  oneof_index = none;
  json_name = some name;
  proto3_optional = some (nullable && not repeated);
}

pub data MapValue : Type 0 where
  primitive_value : PrimitiveType → MapValue
  message_value : String → MapValue

abbrev value_type : MapValue → FieldType × Option String
unfolding map_primitive_to_protobuf
value_type (primitive_value p) = (map_primitive_to_protobuf p, none)
value_type (message_value n) = (FieldType.message, some n)

unfoldable pub generate_map_entry : String → PrimitiveType → MapValue → DescriptorProto
unfolding map_primitive_to_protobuf value_type
generate_map_entry name key value =
    let key_field : FieldDescriptorProto = record {
      name = some "key";
      number = some (pos 1);
      label = some (pos 1);
      type = map_primitive_to_protobuf key;
      type_name = none;
      oneof_index = none;
      json_name = some "key";
      proto3_optional = some false;
    } in
    let value_field : FieldDescriptorProto = record {
      name = some "value";
      number = some (pos 2);
      label = some (pos 1);
      type = (value_type value).0;
      type_name = (value_type value).1;
      oneof_index = none;
      json_name = some "value";
      proto3_optional = some true;
    } in
    descriptor_proto (some name) (key_field ∷ value_field ∷ []) nil 0 (some (some true))

-- The end of a map: its entry message.
unfoldable pub finish_map :
    String
    → PrimitiveType
    → MapValue
    → MessageCollector
    → Result SchemaError (FieldType × Option String × MessageCollector)
unfolding unique_name generate_map_entry push
finish_map base key value collector =
    let (entry_name, c) = unique_name collector (append base "Entry") in
    ok (FieldType.message, some entry_name, push c (generate_map_entry entry_name key value))
