-- ===== src/Schema/Columns.antt =====
-- The columns that are kept, in the order of their positions: the order in which they come does not
-- matter where no two have one position.
use Prim.Native.String.{String}
use mathlib.Core.List.{Permᴰ}
use zerobus_sdk.Common.{
  ◌≡◌, refl, subst, ap, ◌∙◌, sym, arith, Bool, true, false, not, ◌&&◌, List, [], ◌∷◌, All,
  Bool-cases, inl, inr,
}
use zerobus_sdk.Common.Int.{ℤ, pos, ltb_ℤ, eq_ℤ}
use zerobus_sdk.Schema.Types.{UcColumn}
use zerobus_sdk.Schema.TypeJson.{Serde}
use zerobus_sdk.Schema.Descriptor.{
  keep_positioned, insert_column, sort_by_position, descriptor_from_uc_columns,
}
use zerobus_sdk.Schema.ArrowFields.{ArrowSchemaOptions, arrow_schema_from_uc_columns_with_options}

-- Two columns that are kept under one position.
abbrev pub clash : UcColumn → UcColumn → Bool
clash a b =
    not (ltb_ℤ a.position (pos 0)) && (not (ltb_ℤ b.position (pos 0)) && eq_ℤ a.position b.position)

abbrev pub Clashless : List UcColumn → Type 0
Clashless [] = Unit
Clashless (c ∷ cs) = All (λ (d : UcColumn). clash c d ≡ false) cs × Clashless cs

abbrev pub sorted : List UcColumn → List UcColumn
sorted cs = sort_by_position (keep_positioned cs)

pub sorted_drop :
    (c : UcColumn) (cs : List UcColumn)
    → ltb_ℤ c.position (pos 0) ≡ true
    → sorted (c ∷ cs) ≡ sorted cs
sorted_drop c cs h = rw h refl

pub sorted_keep :
    (c : UcColumn) (cs : List UcColumn)
    → ltb_ℤ c.position (pos 0) ≡ false
    → sorted (c ∷ cs) ≡ insert_column c (sorted cs)
sorted_keep c cs h = rw h refl

order : (a b : ℤ) → eq_ℤ a b ≡ false → ltb_ℤ a b ≡ not (ltb_ℤ b a)
order a b h = ground arith

insert_column_swap :
    (a b : UcColumn) (cs : List UcColumn)
    → eq_ℤ a.position b.position ≡ false
    → insert_column a (insert_column b cs) ≡ insert_column b (insert_column a cs)
insert_column_swap a b [] h = ground (arith, order a.position b.position h)
insert_column_swap a b (c ∷ cs) h =
    ground (arith, order a.position b.position h, insert_column_swap a b cs h)

-- The first two columns may change places.
sorted_swap :
    (a b : UcColumn) (cs : List UcColumn)
    → clash a b ≡ false
    → sorted (a ∷ b ∷ cs) ≡ sorted (b ∷ a ∷ cs)
sorted_swap a b cs h = elim (Bool-cases (ltb_ℤ a.position (pos 0))) [
  | inl p ↦ elim (Bool-cases (ltb_ℤ b.position (pos 0))) [
    | inl q ↦
        sorted_drop a (b ∷ cs) p
        ∙ sorted_drop b cs q
        ∙ sym (sorted_drop b (a ∷ cs) q ∙ sorted_drop a cs p)
    | inr q ↦
        sorted_drop a (b ∷ cs) p
        ∙ sorted_keep b cs q
        ∙ sym (sorted_keep b (a ∷ cs) q ∙ ap (insert_column b) (sorted_drop a cs p))
  ]
  | inr p ↦ elim (Bool-cases (ltb_ℤ b.position (pos 0))) [
    | inl q ↦
        sorted_keep a (b ∷ cs) p
        ∙ ap (insert_column a) (sorted_drop b cs q)
        ∙ sym (sorted_drop b (a ∷ cs) q ∙ sorted_keep a cs p)
    | inr q ↦
        sorted_keep a (b ∷ cs) p
        ∙ ap (insert_column a) (sorted_keep b cs q)
        ∙ insert_column_swap a b (sorted cs) (ground (arith, h, p, q))
        ∙ sym (sorted_keep b (a ∷ cs) q ∙ ap (insert_column b) (sorted_keep a cs p))
  ]
]

clash_comm : (a b : UcColumn) → clash a b ≡ false → clash b a ≡ false
clash_comm a b h = ground arith

All-perm : (P : UcColumn → Type 0) {xs ys : List UcColumn} → Permᴰ xs ys → All P xs → All P ys
All-perm P Permᴰ.nil h = tt
All-perm P (Permᴰ.cons e d) (h, hs) = (subst P e h, All-perm P d hs)
All-perm P (Permᴰ.swap e f) (h, (k, hs)) = (subst P f k, (subst P e h, hs))
All-perm P (Permᴰ.trans d e) h = All-perm P e (All-perm P d h)

Clashless-swap :
    (a b : UcColumn) (l : List UcColumn) → Clashless (a ∷ b ∷ l) → Clashless (b ∷ a ∷ l)
Clashless-swap a b l ((h, hs), (k, ks)) = ((clash_comm a b h, k), (hs, ks))

Clashless-perm : {xs ys : List UcColumn} → Permᴰ xs ys → Clashless xs → Clashless ys
Clashless-perm Permᴰ.nil h = tt
Clashless-perm (Permᴰ.cons {a} {b} {l₁ = xs} e d) (h, hs) = (
  All-perm (λ (x : UcColumn). clash b x ≡ false) d
      (subst (λ (a : UcColumn). All (λ (x : UcColumn). clash a x ≡ false) xs) e h),
  Clashless-perm d hs,
)
Clashless-perm (Permᴰ.swap {a} {b} {a'} {b'} {l} e f) h =
    subst (λ (x : UcColumn). Clashless (x ∷ b' ∷ l)) f
      (subst (λ (x : UcColumn). Clashless (b ∷ x ∷ l)) e (Clashless-swap a b l h))
Clashless-perm (Permᴰ.trans d e) h = Clashless-perm e (Clashless-perm d h)

sorted-perm_cons :
    (c : UcColumn) (xs ys : List UcColumn)
    → sorted xs ≡ sorted ys
    → sorted (c ∷ xs) ≡ sorted (c ∷ ys)
sorted-perm_cons c xs ys h = elim (Bool-cases (ltb_ℤ c.position (pos 0))) [
  | inl p ↦ sorted_drop c xs p ∙ h ∙ sym (sorted_drop c ys p)
  | inr p ↦ sorted_keep c xs p ∙ ap (insert_column c) h ∙ sym (sorted_keep c ys p)
]

sorted-perm : {xs ys : List UcColumn} → Permᴰ xs ys → Clashless xs → sorted xs ≡ sorted ys
sorted-perm Permᴰ.nil h = refl
sorted-perm (Permᴰ.cons {a} {b} {l₁ = xs} {l₂ = ys} e d) (h, hs) =
    rw e (sorted-perm_cons b xs ys (sorted-perm d hs))
sorted-perm (Permᴰ.swap {a} {b} {a'} {b'} {l} e f) ((h, hs), k) =
    rw (sym e, sym f) (sorted_swap a b l h)
sorted-perm (Permᴰ.trans d e) h = sorted-perm d h ∙ sorted-perm e (Clashless-perm d h)

module _ (serde : Serde) where
  -- Where no two of the columns that are kept have one position, the order in which the columns come
  -- changes neither the descriptor nor the Arrow schema, nor the error.
  pub schemas-perm :
      (xs ys : List UcColumn) (message_name : String) (options : ArrowSchemaOptions)
      → Permᴰ xs ys
      → Clashless xs
      → (descriptor_from_uc_columns serde xs message_name
          ≡ descriptor_from_uc_columns serde ys message_name)
        × (arrow_schema_from_uc_columns_with_options serde xs options
            ≡ arrow_schema_from_uc_columns_with_options serde ys options)
  unfolding descriptor_from_uc_columns arrow_schema_from_uc_columns_with_options
  schemas-perm xs ys message_name options d h =
      let same = sorted-perm d h in (rw same refl, rw same refl)
