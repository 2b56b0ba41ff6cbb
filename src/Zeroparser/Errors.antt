-- ===== src/Zeroparser/Errors.antt =====
-- rust/sdk/src/zeroparser/errors.rs: the errors of the parser, and its result type.
use zerobus_sdk.Common.{ℕ, ◌≡◌, refl, ◌⊎◌, inl, inr}
use zerobus_sdk.Common.Int.{ℤ}
use Prim.Native.String.{String}

-- The arguments of an error are in the order of the source's fields.
pub data ParseError : Type 0 where
  buffer_too_short : ℕ → ℕ → ℤ → ParseError
  complex_type_mismatch : String → String → ℤ → ParseError
  invalid_field_number : ℤ → ParseError
  invalid_map_key_type : ℤ → ParseError
  invalid_packed_field_type : ℤ → ParseError
  invalid_utf8 : ℤ → ParseError
  invalid_wire_type : ℕ → ParseError
  max_nesting_depth_exceeded : ℕ → ParseError
  truncated_varint : ParseError
  type_mismatch : String → String → ℤ → ParseError
  unknown_type_name : String → ParseError
  unsupported_group_field_type : ℤ → ParseError
  unsupported_group_wire_type : ParseError
  varint_too_long : ParseError

-- `panic` is an index out of bounds. `stuck` is no value of the source: a loop of the model ran
-- out of fuel.
pub data ParseResult {ℓ} (A : Type ℓ) : Type ℓ where
  ok : A → ParseResult A
  err : ParseError → ParseResult A
  panic stuck : ParseResult A

infixl 5 ◌>>=◌ ◌>>◌
abbrev pub ◌>>=◌ {ℓ κ} :
    {A : Type ℓ} {B : Type κ} → ParseResult A → (A → ParseResult B) → ParseResult B
ok a >>= f = f a
err e >>= f = err e
panic >>= f = panic
stuck >>= f = stuck

abbrev pub ◌>>◌ {ℓ} : {B : Type ℓ} → ParseResult (Unit {0}) → ParseResult B → ParseResult B
m >> k = m >>= λ _. k

-- The result is one of the source's own: a value or an error.
abbrev pub Returns {ℓ} : {A : Type ℓ} → ParseResult A → Type 0
Returns (ok a) = Unit {0}
Returns (err e) = Unit {0}
Returns panic = ⊥
Returns stuck = ⊥

pub Returns->>= {ℓ κ} :
    {A : Type ℓ} {B : Type κ} (m : ParseResult A) (f : A → ParseResult B)
    → Returns m
    → ((a : A) → m ≡ ok a → Returns (f a))
    → Returns (m >>= f)
Returns->>= (ok a) f h k = k a refl
Returns->>= (err e) f h k = tt
Returns->>= panic f h k = h
Returns->>= stuck f h k = h

-- Inversion of a bind that succeeds.
pub >>=-eq-ok {ℓ κ} :
    {A : Type ℓ} {B : Type κ} (first : ParseResult A) (next : A → ParseResult B) {y : B}
    → (first >>= next) ≡ ok y
    → (x : A) × (first ≡ ok x) × (next x ≡ ok y)
>>=-eq-ok (ok x) next e = (x, refl, e)
>>=-eq-ok (err problem) next e = cc
>>=-eq-ok panic next e = cc
>>=-eq-ok stuck next e = cc

pub Returns-cases {ℓ} :
    {A : Type ℓ} (m : ParseResult A)
    → Returns m
    → ((a : A) × (m ≡ ok a)) ⊎ ((e : ParseError) × (m ≡ err e))
Returns-cases (ok a) h = inl (a, refl)
Returns-cases (err e) h = inr (e, refl)
Returns-cases panic h = absurd h
Returns-cases stuck h = absurd h

-- The result is a value, an error or a panic of the source: no loop of the model ran out of fuel.
abbrev pub Ends {ℓ} : {A : Type ℓ} → ParseResult A → Type 0
Ends (ok a) = Unit {0}
Ends (err e) = Unit {0}
Ends panic = Unit {0}
Ends stuck = ⊥

pub Ends->>= {ℓ κ} :
    {A : Type ℓ} {B : Type κ} (m : ParseResult A) (f : A → ParseResult B)
    → Ends m
    → ((a : A) → Ends (f a))
    → Ends (m >>= f)
Ends->>= (ok a) f h k = k a
Ends->>= (err e) f h k = tt
Ends->>= panic f h k = tt
Ends->>= stuck f h k = h

pub Returns-Ends {ℓ} : {A : Type ℓ} (m : ParseResult A) → Returns m → Ends m
Returns-Ends (ok a) h = tt
Returns-Ends (err e) h = tt
Returns-Ends panic h = tt
Returns-Ends stuck h = h

pub Ends->>=_ok {ℓ κ} :
    {A : Type ℓ} {B : Type κ} (m : ParseResult A) (f : A → ParseResult B)
    → Ends m
    → ((a : A) → m ≡ ok a → Ends (f a))
    → Ends (m >>= f)
Ends->>=_ok (ok a) f h k = k a refl
Ends->>=_ok (err e) f h k = tt
Ends->>=_ok panic f h k = tt
Ends->>=_ok stuck f h k = h
