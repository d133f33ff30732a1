-- ===== src/Middleware/Json.antt =====
-- serde_json::Value: its constructors and the accessors that the program uses. The parser is not
-- code of the repository. An object is the list of its fields, with no key twice.
use tokendog.Base.{
  ℕ, ◌≡◌, refl, String, List, [], ◌∷◌, Option, none, some, Bool, Outcome, ret, panic, arith, ap,
  ltb, ◌^◌, if◌then◌else◌, Bool-cases, inl, inr, some_eq,
}
use tokendog.Base.Int.{ℤ, pos, negsuc}
use tokendog.Base.Text.{str_eq, eq_iff}

-- A number of serde_json: a u64, an i64 below zero (`neg_int n` is -(n + 1)), or the bits of an f64.
pub data Number : Type 0 where
  pos_int neg_int float : ℕ → Number

mutual
  pub data Json : Type 0 where
    null : Json
    boolean : Bool → Json
    number : Number → Json
    string : String → Json
    array : Values → Json
    object : Fields → Json

  pub data Values : Type 0 where
    no_values : Values
    value : Json → Values → Values

  pub data Fields : Type 0 where
    no_fields : Fields
    field : String → Json → Fields → Fields

abbrev pub field_at : String → Fields → Option Json
field_at key no_fields = none
field_at key (field name v fields) = if str_eq name key then some v else field_at key fields

-- `Value::get` with a key: `None` unless the value is an object.
abbrev pub get : String → Json → Option Json
get key (object fields) = field_at key fields
get key _ = none

abbrev pub as_str : Json → Option String
as_str (string s) = some s
as_str _ = none

abbrev pub elements : Values → List Json
elements no_values = []
elements (value v values) = v ∷ elements values

abbrev pub as_array : Json → Option (List Json)
as_array (array values) = some (elements values)
as_array _ = none

abbrev pub as_u64 : Json → Option ℕ
as_u64 (number (pos_int n)) = some n
as_u64 _ = none

abbrev pub as_i64 : Json → Option ℤ
as_i64 (number (pos_int n)) = if ltb n (2 ^ 63) then some (pos n) else none
as_i64 (number (neg_int n)) = some (negsuc n)
as_i64 _ = none

abbrev pub as_bool : Json → Option Bool
as_bool (boolean b) = some b
as_bool _ = none

-- `Value::from` of an i64.
abbrev pub from_i64 : ℤ → Json
from_i64 (pos n) = number (pos_int n)
from_i64 (negsuc n) = number (neg_int n)

abbrev pub values_of : List Json → Values
values_of [] = no_values
values_of (v ∷ vs) = value v (values_of vs)

pub values_of-elements : (items : Values) → values_of (elements items) ≡ items
values_of-elements no_values = refl
values_of-elements (value v items) = ap (value v) (values_of-elements items)

pub elements-values_of : (vs : List Json) → elements (values_of vs) ≡ vs
elements-values_of [] = refl
elements-values_of (v ∷ vs) = ap (λ rest. v ∷ rest) (elements-values_of vs)

-- `Map::insert` and `Map::remove`.
abbrev pub set_field : String → Json → Fields → Fields
set_field key v no_fields = field key v no_fields
set_field key v (field name old fields) =
    let rest = set_field key v fields in
    if str_eq name key then field key v fields else field name old rest

abbrev pub remove_field : String → Fields → Fields
remove_field key no_fields = no_fields
remove_field key (field name v fields) =
    let rest = remove_field key fields in if str_eq name key then rest else field name v rest

-- `value[key] = v`: a null becomes an object; a value that is neither null nor an object panics.
abbrev pub index_set : String → Json → Json → Outcome Json
index_set key v (object fields) = ret (object (set_field key v fields))
index_set key v null = ret (object (field key v no_fields))
index_set key v _ = panic

pub field_at-set_field :
    (key name : String) (v : Json) (fields : Fields)
    → field_at key (set_field name v fields)
      ≡ (if str_eq name key then some v else field_at key fields)
field_at-set_field key name v no_fields = refl
field_at-set_field key name v (field other w fields) = ground (
  arith,
  eq_iff name key,
  eq_iff other key,
  eq_iff other name,
  field_at-set_field key name v fields,
)

pub field_at-remove_field :
    (key name : String) (fields : Fields)
    → field_at key (remove_field name fields)
      ≡ (if str_eq name key then none else field_at key fields)
field_at-remove_field key name no_fields = ground arith
field_at-remove_field key name (field other w fields) = ground (
  arith,
  eq_iff name key,
  eq_iff other key,
  eq_iff other name,
  field_at-remove_field key name fields,
)

-- Writing a field that is there already changes nothing.
pub set_field_self :
    (key : String) (v : Json) (fields : Fields)
    → field_at key fields ≡ some v
    → set_field key v fields ≡ fields
set_field_self key v no_fields e = absurd (ground arith)
set_field_self key v (field name w fields) e = elim (Bool-cases (str_eq name key)) [
  | inl same ↦
      let k : name ≡ key = (eq_iff name key).0 same in
      let x : w ≡ v = some_eq (rw same at e) in rw same (rw (k, x))
  | inr other ↦ rw other (ap (field name w) (set_field_self key v fields (rw other at e)))
]
