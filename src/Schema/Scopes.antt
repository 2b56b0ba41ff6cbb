-- ===== src/Schema/Scopes.antt =====
-- The messages nested in a message: their names differ, and what the fields name is one of them.
use Prim.Native.String.{String}
use text.Mathlib.Text.{◌==◌ as str_eq}
use text.Mathlib.TextEquality.{eq_iff}
use mathlib.Core.List.{append_assoc}
use zerobus_sdk.Common.{
  ◌≡◌, ◌⊎◌, inl, inr, refl, ap, ◌∙◌, sym, arith, true, false, ◌||◌, Option, none, some, List, [],
  ◌∷◌, ◌++◌, All, All-append, Bool-cases,
}
use zerobus_sdk.Zeroparser.Types.{FieldType}
use zerobus_sdk.Zeroparser.Registry.{
  FieldDescriptorProto, DescriptorProto, DescriptorProtos, descriptor_proto, nil, cons, is_message,
}
use zerobus_sdk.Schema.Names.{MessageCollector, is_used, snoc, push}
use zerobus_sdk.Schema.Identifiers.{IsIdentifier, IsMessageName}
use zerobus_sdk.Schema.Unique.{Fresh}

abbrev pub name_of : DescriptorProto → Option String
name_of (descriptor_proto name fields nested oneofs options) = name

abbrev add_name : Option String → List String → List String
add_name none ns = ns
add_name (some n) ns = n ∷ ns

abbrev pub names : DescriptorProtos → List String
names nil = []
names (cons d ds) = add_name (name_of d) (names ds)

abbrev pub Distinct : List String → Type 0
Distinct [] = Unit
Distinct (n ∷ ns) = (is_used n ns ≡ false) × Distinct ns

-- A message type names a message of the scope, and no other type names one.
abbrev pub IsTyped : List String → FieldType → Option String → Type 0
IsTyped scope t name =
    ((t ≡ FieldType.message) × ((n : String) × (name ≡ some n) × (is_used n scope ≡ true)))
    ⊎ ((is_message t ≡ false) × (name ≡ none))

abbrev pub IsField : List String → FieldDescriptorProto → Type 0
IsField scope f =
    ((n : String) × (f.name ≡ some n) × IsIdentifier n) × IsTyped scope f.type f.type_name

-- A field may name a message nested in its own message, or beside it in the enclosing one.
unfoldable mutual
  pub WellFormed : List String → DescriptorProto → Type 0
  WellFormed outer (descriptor_proto name fields nested oneofs options) =
      ((n : String) × (name ≡ some n) × IsMessageName n)
      × All (IsField (names nested ++ outer)) fields
      × Distinct (names nested)
      × AllWellFormed (names nested) nested

  pub AllWellFormed : List String → DescriptorProtos → Type 0
  AllWellFormed outer nil = Unit
  AllWellFormed outer (cons d ds) = WellFormed outer d × AllWellFormed outer ds

-- As `WellFormed`, but for the name of the message itself.
unfoldable pub IsScope : DescriptorProto → Type 0
unfolding AllWellFormed
IsScope (descriptor_proto name fields nested oneofs options) =
    All (IsField (names nested)) fields
    × Distinct (names nested)
    × AllWellFormed (names nested) nested

pub is_used-append :
    (x : String) (ns ms : List String) → is_used x (ns ++ ms) ≡ is_used x ns || is_used x ms
is_used-append x [] ms = refl
is_used-append x (n ∷ ns) ms = ground (arith, is_used-append x ns ms)

contains_same : (x : String) → is_used x (x ∷ []) ≡ true
contains_same x = ground (arith, eq_iff x x)

names-snoc :
    (ds : DescriptorProtos) (m : DescriptorProto) (n : String)
    → name_of m ≡ some n
    → names (snoc ds m) ≡ names ds ++ n ∷ []
names-snoc nil m n h = rw h refl
names-snoc (cons (descriptor_proto none fields nested oneofs options) ds) m n h =
    names-snoc ds m n h
names-snoc (cons (descriptor_proto (some k) fields nested oneofs options) ds) m n h =
    ap (◌∷◌ k) (names-snoc ds m n h)

Distinct-snoc :
    (ns : List String) (x : String) → Distinct ns → is_used x ns ≡ false → Distinct (ns ++ x ∷ [])
Distinct-snoc [] x d h = (refl, tt)
Distinct-snoc (n ∷ ns) x (h, d) e = (
  ground (arith, is_used-append n ns (x ∷ []), eq_iff n x, eq_iff x n),
  Distinct-snoc ns x d (ground (arith, e)),
)

-- `more` has the names of `scope`.
abbrev pub Includes : List String → List String → Type 0
Includes scope more = (x : String) → is_used x scope ≡ true → is_used x more ≡ true

pub Includes-append : (ns ms : List String) → Includes ns (ns ++ ms)
Includes-append ns ms x h = is_used-append x ns ms ∙ ground (arith, h)

Includes-append_left :
    (ns outer more : List String) → Includes outer more → Includes (ns ++ outer) (ns ++ more)
Includes-append_left ns outer more i x h =
    ground (arith, is_used-append x ns outer, is_used-append x ns more, i x)

pub IsTyped-weaken :
    (scope more : List String) (t : FieldType) (name : Option String)
    → Includes scope more
    → IsTyped scope t name
    → IsTyped more t name
IsTyped-weaken scope more t name i (inl (m, (n, e, h))) = inl (m, (n, e, i n h))
IsTyped-weaken scope more t name i (inr h) = inr h

pub fields-weaken :
    (scope more : List String) (fields : List FieldDescriptorProto)
    → Includes scope more
    → All (IsField scope) fields
    → All (IsField more) fields
fields-weaken scope more [] i h = tt
fields-weaken scope more (f ∷ fs) i ((n, t), h) =
    ((n, IsTyped-weaken scope more f.type f.type_name i t), fields-weaken scope more fs i h)

AllWellFormed-weaken :
    (outer more : List String) (ds : DescriptorProtos)
    → Includes outer more
    → AllWellFormed outer ds
    → AllWellFormed more ds
unfolding AllWellFormed
AllWellFormed-weaken outer more nil i h = tt
AllWellFormed-weaken outer more (cons (descriptor_proto name fields nested oneofs options) ds) i
      ((ident, typed, distinct, rest), hs) =
    (
      (
        ident,
        fields-weaken (names nested ++ outer) (names nested ++ more) fields
            (Includes-append_left (names nested) outer more i) typed,
        distinct,
        rest,
      ),
      AllWellFormed-weaken outer more ds i hs,
    )

AllWellFormed-snoc :
    (outer : List String) (ds : DescriptorProtos) (m : DescriptorProto)
    → AllWellFormed outer ds
    → WellFormed outer m
    → AllWellFormed outer (snoc ds m)
unfolding AllWellFormed
AllWellFormed-snoc outer nil m h w = (w, tt)
AllWellFormed-snoc outer (cons d ds) m (h, hs) w = (h, AllWellFormed-snoc outer ds m hs w)

abbrev pub AllIn : List String → List String → Type 0
AllIn used ns = All (λ (n : String). is_used n used ≡ true) ns

is_used-AllIn :
    (x : String) (used ns : List String)
    → AllIn used ns
    → is_used x ns ≡ true
    → is_used x used ≡ true
is_used-AllIn x used [] h e = cc
is_used-AllIn x used (n ∷ ns) (h, hs) e = elim (Bool-cases (str_eq n x)) [
  | inl same ↦ let p = (eq_iff n x).0 same in rw (sym p) h
  | inr other ↦ is_used-AllIn x used ns hs (rw other at e)
]

AllIn-weaken : (x : String) (used ns : List String) → AllIn used ns → AllIn (x ∷ used) ns
AllIn-weaken x used [] h = tt
AllIn-weaken x used (n ∷ ns) (h, hs) = (ground (arith, h), AllIn-weaken x used ns hs)

-- The messages collected are well formed, and their names differ and are used.
abbrev pub IsCollector : MessageCollector → Type 0
IsCollector c =
    AllWellFormed (names c.nested) c.nested
    × Distinct (names c.nested)
    × AllIn c.used (names c.nested)

abbrev pub Extends : MessageCollector → MessageCollector → Type 0
Extends c t = (more : List String) × (names t.nested ≡ names c.nested ++ more)

pub Extends-trans : (c d e : MessageCollector) → Extends c d → Extends d e → Extends c e
Extends-trans c d e (xs, p) (ys, q) =
    (xs ++ ys, q ∙ ap (λ ns. ns ++ ys) p ∙ append_assoc (names c.nested) xs ys)

pub Extends-Includes :
    (c d : MessageCollector) → Extends c d → Includes (names c.nested) (names d.nested)
Extends-Includes c d (more, p) = rw p (Includes-append (names c.nested) more)

-- A message under a fresh name is collected; it may name the messages collected before.
pub push-IsCollector :
    (c t : MessageCollector) (m : DescriptorProto) (n : String)
    → IsCollector c
    → Fresh c (n, t)
    → name_of m ≡ some n
    → WellFormed (names c.nested) m
    → IsCollector (push t m) × Extends c (push t m) × (is_used n (names (push t m).nested) ≡ true)
unfolding push
push-IsCollector c t m n (all, distinct, inside) (free, ident, same) e w =
    let old = names c.nested in
    let new_names : names (snoc c.nested m) ≡ old ++ n ∷ [] = names-snoc c.nested m n e in
    let unused : is_used n old ≡ false = elim (Bool-cases (is_used n old)) [
      | inl h ↦ let used = is_used-AllIn n c.used old inside h in cc
      | inr h ↦ h
    ] in
    rw same (
      (
        rw new_names (
            AllWellFormed-weaken old (old ++ n ∷ []) (snoc c.nested m)
              (Includes-append old (n ∷ [])) (AllWellFormed-snoc old c.nested m all w)),
        rw new_names (Distinct-snoc old n distinct unused),
        rw new_names (
            All-append (λ (k : String). is_used k (n ∷ c.used) ≡ true) old (n ∷ [])
              (AllIn-weaken n c.used old inside) (ground (arith, eq_iff n n), tt)),
      ),
      (n ∷ [], new_names),
      rw new_names (is_used-append n old (n ∷ []) ∙ ground (arith, contains_same n)),
    )
