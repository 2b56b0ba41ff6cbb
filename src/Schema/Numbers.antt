-- ===== src/Schema/Numbers.antt =====
-- The numbers of the fields follow the positions of the columns.
use Prim.Native.String.{String}
use zerobus_sdk.Common.{ℕ, suc, ◌-◌, ◌^◌, ◌≤◌, ◌<◌, ◌≡◌, true, some, List, [], ◌∷◌, All}
use zerobus_sdk.Common.Int.{pos, ltb_ℤ}
use zerobus_sdk.Zeroparser.Registry.{FieldDescriptorProto, DescriptorProto, descriptor_proto}
use zerobus_sdk.Schema.Types.{UcColumn}
use zerobus_sdk.Schema.Names.{MessageCollector}
use zerobus_sdk.Schema.TypeJson.{Serde}
use zerobus_sdk.Schema.Descriptor.{add_one_i32}

abbrev pub fields_of : DescriptorProto → List FieldDescriptorProto
fields_of (descriptor_proto name fields nested oneofs options) = fields

-- A field for each column, under its name and with the number after its position.
abbrev pub Listed : List UcColumn → List FieldDescriptorProto → Type 0
Listed [] [] = Unit
Listed [] (f ∷ fs) = ⊥
Listed (c ∷ cs) [] = ⊥
Listed (c ∷ cs) (f ∷ fs) =
    (f.name ≡ some c.name) × (f.number ≡ some (add_one_i32 c.position)) × Listed cs fs

-- The numbers ascend from above `lo`.
abbrev pub Ascending : ℕ → List FieldDescriptorProto → Type 0
Ascending lo [] = Unit
Ascending lo (f ∷ fs) =
    (n : ℕ) × (f.number ≡ some (pos n)) × (lo < n) × (n < 2 ^ 31) × Ascending n fs

-- The columns stand in the order of their positions, from `lo` on.
abbrev InOrder : ℕ → List UcColumn → Type 0
InOrder lo [] = Unit
InOrder lo (c ∷ cs) =
    (n : ℕ) × (c.position ≡ pos n) × (lo ≤ n) × (n < 2 ^ 31 - 1) × InOrder (suc n) cs

abbrev pub InRange : List UcColumn → Type 0
InRange cs = All (λ (c : UcColumn). ltb_ℤ c.position (pos (2 ^ 31 - 1)) ≡ true) cs

module _ (serde : Serde) where
  OfColumn : UcColumn → FieldDescriptorProto × MessageCollector → Type 0
  OfColumn column built =
      (built.0.name ≡ some column.name) × (built.0.number ≡ some (add_one_i32 column.position))
