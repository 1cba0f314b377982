-- ===== src/RoundTrip/Typed.antt =====
-- rust/src/ser.rs and rust/src/parser.rs: the element type of a list that is encoded is the one that
-- the parser gives its items.
use skg.Base.{
  true, false, Option, none, some, ◌≡◌, refl, ap, ◌∙◌, Bool-cases, inl, inr, arith, if◌then◌else◌,
}
use skg.Model.{
  ValueType, type_eq, type_beq, type_beq_iff, Value, Values, no_items, item, value_type,
}
use skg.Parser.Arrays.{join_type}
use skg.Encode.{homogeneous_from, first_type, array_element_type, type_or_null}
use skg.RoundTrip.{Joins, HasType, RowsFrom, AreRows, row_type}

join_type-same :
    (t ty : ValueType)
    → type_beq t ValueType.null ≡ false
    → (if type_beq ty ValueType.null then true else type_beq t ty) ≡ true
    → join_type (some t) ty ≡ some t
unfolding join_type
join_type-same ValueType.null ty h k = cc
join_type-same _ ty h k = ground (arith, h, k)

homogeneous-head :
    (t : ValueType) (v : Value) (vs : Values)
    → homogeneous_from (some t) (item v vs) ≡ true
    → ((if type_beq (value_type v) ValueType.null then true else type_beq t (value_type v)) ≡ true)
      × (homogeneous_from (some t) vs ≡ true)
unfolding homogeneous_from
homogeneous-head t v vs h = elim (Bool-cases (type_beq (value_type v) ValueType.null)) [
  | inl empty ↦ (rw empty refl, rw empty at h)
  | inr typed ↦ elim (Bool-cases (type_beq t (value_type v))) [
    | inl same ↦ (rw (typed, same) refl, rw (typed, same) at h)
    | inr other ↦ absurd (ground (arith, typed, other, h))
  ]
]

joins_same :
    (t : ValueType) (vs : Values)
    → type_beq t ValueType.null ≡ false
    → homogeneous_from (some t) vs ≡ true
    → Joins (some t) vs (some t)
joins_same t no_items h k = refl
joins_same t (item v vs) h k =
    let (head, rest) = homogeneous-head t v vs k in
    (t, join_type-same t (value_type v) h head, joins_same t vs h rest)

-- Behind nulls the first other item gives the type.
joins_null :
    (vs : Values)
    → homogeneous_from none vs ≡ true
    → Joins (some ValueType.null) vs (some (type_or_null (first_type vs)))
unfolding homogeneous_from first_type join_type
joins_null no_items h = refl
joins_null (item v vs) h = elim (Bool-cases (type_beq (value_type v) ValueType.null)) [
  | inl empty ↦
      let is_null : value_type v ≡ ValueType.null =
        (type_beq_iff (value_type v) ValueType.null).0 empty in
      rw empty (value_type v, refl, rw is_null (joins_null vs (rw empty at h)))
  | inr typed ↦ rw typed (value_type v, refl, joins_same (value_type v) vs typed (rw typed at h))
]

pub homogeneous-HasType :
    (xs : Values) → homogeneous_from none xs ≡ true → HasType (array_element_type xs) xs
unfolding homogeneous_from first_type array_element_type join_type
homogeneous-HasType no_items h = (none, refl, refl)
homogeneous-HasType (item v vs) h = elim (Bool-cases (type_beq (value_type v) ValueType.null)) [
  | inl empty ↦
      let is_null : value_type v ≡ ValueType.null =
        (type_beq_iff (value_type v) ValueType.null).0 empty in
      rw empty (
        some (type_or_null (first_type vs)),
        (value_type v, refl, rw is_null (joins_null vs (rw empty at h))),
        refl,
      )
  | inr typed ↦ rw typed (
    some (value_type v),
    (value_type v, refl, joins_same (value_type v) vs typed (rw typed at h)),
    refl,
  )
]

row_type-same :
    (ty : ValueType)
    → (if type_beq ty ValueType.null then true else type_beq ValueType.object ty) ≡ true
    → row_type (some ValueType.object) ty ≡ some ValueType.object
unfolding row_type
row_type-same ValueType.object h = refl
row_type-same ValueType.null h = refl
row_type-same _ h = cc

rows_same :
    (vs : Values)
    → homogeneous_from (some ValueType.object) vs ≡ true
    → RowsFrom (some ValueType.object) vs (some ValueType.object)
rows_same no_items k = (refl, tt)
rows_same (item v vs) k =
    let (head, rest) = homogeneous-head ValueType.object v vs k in
    (ValueType.object, row_type-same (value_type v) head, rows_same vs rest)

-- Nulls that objects follow.
rows_null :
    (o : Option ValueType) (vs : Values)
    → row_type o ValueType.null ≡ some ValueType.null
    → row_type o ValueType.object ≡ some ValueType.object
    → homogeneous_from none vs ≡ true
    → first_type vs ≡ some ValueType.object
    → RowsFrom o vs (some ValueType.object)
unfolding homogeneous_from first_type
rows_null o no_items n r h first = cc
rows_null o (item v vs) n r h first = elim (Bool-cases (type_beq (value_type v) ValueType.null)) [
  | inl empty ↦
      let is_null : value_type v ≡ ValueType.null =
        (type_beq_iff (value_type v) ValueType.null).0 empty in
      (
        ValueType.null,
        ap (row_type o) is_null ∙ n,
        rows_null (some ValueType.null) vs (unfold row_type in refl) (unfold row_type in refl)
            (rw empty at h) (rw empty at first),
      )
  | inr typed ↦
      let is_object : value_type v ≡ ValueType.object = cc (rw typed at first) in
      (
        ValueType.object,
        ap (row_type o) is_object ∙ r,
        rows_same vs (rw is_object at (rw typed at h)),
      )
]

pub homogeneous-AreRows :
    (xs : Values)
    → homogeneous_from none xs ≡ true
    → array_element_type xs ≡ ValueType.object
    → AreRows xs
unfolding array_element_type
homogeneous-AreRows no_items h e = cc
homogeneous-AreRows (item v vs) h e = (
  some ValueType.object,
  rows_null none (item v vs) (unfold row_type in refl) (unfold row_type in refl) h
      (first_object (first_type (item v vs)) e),
)
  where
    first_object :
        (o : Option ValueType) → type_or_null o ≡ ValueType.object → o ≡ some ValueType.object
    first_object none k = cc
    first_object (some t) k = ap some k
