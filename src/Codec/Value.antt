-- ===== src/Codec/Value.antt =====
-- `serde_json::Value`: what is read of a paste, and the two fields that the server writes.
-- Numbers that are no integers are kept as the text of the number.
use crosspaste_server.Prelude.{
  Bool, Bool-cases, Option, String, if◌then◌else◌, inl, inr, ltb, nat_Comparable, none, some,
  string_Comparable, ℕ, ◌==◌, ◌^◌, ◌≡◌, ◌≢◌,
}
use crosspaste_server.Prelude.Int.{int_Comparable, negsuc, pos, ℤ}
use crosspaste_server.Prelude.Map.{same_ne, same_refl}

mutual
  pub data Value : Type 0 where
    null : Value
    boolean : Bool → Value
    integer : ℤ → Value
    float : String → Value
    string : String → Value
    array : Values → Value
    object : Fields → Value

  pub data Values : Type 0 where
    no_values : Values
    value_then : Value → Values → Values

  -- The fields of an object, each name once.
  pub data Fields : Type 0 where
    no_fields : Fields
    field_then : String → Value → Fields → Fields

unfoldable pub field : String → Fields → Option Value
field key no_fields = none
field key (field_then name v rest) = if name == key then some v else field key rest

-- `Value::get` with a name.
unfoldable pub get : String → Value → Option Value
unfolding field
get key (object fields) = field key fields
get key _ = none

-- `Map::insert`; the order of the fields is not modelled.
unfoldable pub put_field : String → Value → Fields → Fields
put_field key v no_fields = field_then key v no_fields
put_field key v (field_then name w rest) =
    if name == key then field_then name v rest else field_then name w (put_field key v rest)

unfoldable pub put : String → Value → Value → Value
unfolding put_field
put key v (object fields) = object (put_field key v fields)
put key v other = other

unfoldable pub is_i64 : ℤ → Bool
is_i64 (pos n) = ltb n (2 ^ 63)
is_i64 (negsuc n) = ltb n (2 ^ 63)

unfoldable pub as_i64 : Value → Option ℤ
unfolding is_i64
as_i64 (integer n) = if is_i64 n then some n else none
as_i64 _ = none

unfoldable pub as_u64 : Value → Option ℕ
as_u64 (integer (pos n)) = if ltb n (2 ^ 64) then some n else none
as_u64 _ = none

pub field-put_field_self :
    (key : String) (v : Value) (fields : Fields) → field key (put_field key v fields) ≡ some v
unfolding field put_field
field-put_field_self key v no_fields = rw (same_refl key)
field-put_field_self key v (field_then name w rest) = elim (Bool-cases (name == key)) [
  | inl hit ↦ rw hit (rw hit)
  | inr miss ↦ rw miss (rw miss (field-put_field_self key v rest))
]

pub field-put_field_ne :
    (key other : String) (v : Value) (fields : Fields)
    → key ≢ other
    → field other (put_field key v fields) ≡ field other fields
unfolding field put_field
field-put_field_ne key other v no_fields h = rw (same_ne key other h)
field-put_field_ne key other v (field_then name w rest) h = elim (Bool-cases (name == key)) [
  | inl hit ↦
      let e : name ≡ key = (string_Comparable.same_iff name key).0 hit in
      rw hit (rw (e, same_ne key other h))
  | inr miss ↦ rw miss (rw (field-put_field_ne key other v rest h))
]
