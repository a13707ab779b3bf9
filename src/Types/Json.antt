-- ===== src/Types/Json.antt =====
-- encoding/json as the types use it: the tree that a text stands for, the fields that a struct
-- writes, and `map[string]interface{}`. A number is an integer: `float_int64` is
-- its float64 as an int64, `float_ℤ` its float64 as an integer.
use disgo.Prelude.{
  ◌≡◌, refl, Bool, true, false, not, ◌&&◌, Option, none, some, ℤ, arith, if◌then◌else◌, float_int64,
  float_ℤ, float_ℤ_self, IsExact, ap, Bool-cases, inl, inr,
}
use disgo.Prelude.Text.{Bytes, ◌=ₛ◌}
use disgo.Types.Errors.{
  Error, Result, ok, err, panic, not_an_object, must_be_string, must_be_number,
}

mutual
  pub data Json : Type 0 where
    null : Json
    bool : Bool → Json
    num : ℤ → Json
    str : Bytes → Json
    arr : Items → Json
    obj : Fields → Json

  pub data Items : Type 0 where
    nil : Items
    cons : Json → Items → Items

  pub data Fields : Type 0 where
    end : Fields
    field : Bytes → Json → Fields → Fields

-- What decoding into `interface{}` makes of a tree: every number is a float64.
unfoldable mutual
  pub floats : Json → Json
  floats null = null
  floats (bool b) = bool b
  floats (num n) = num (float_ℤ n)
  floats (str s) = str s
  floats (arr items) = arr (float_items items)
  floats (obj fields) = obj (float_fields fields)

  pub float_items : Items → Items
  float_items nil = nil
  float_items (cons j items) = cons (floats j) (float_items items)

  pub float_fields : Fields → Fields
  float_fields end = end
  float_fields (field name j fields) = field name (floats j) (float_fields fields)

-- A tree whose numbers a float64 holds.
unfoldable mutual
  pub HasExact : Json → Type 0
  HasExact null = Unit
  HasExact (bool b) = Unit
  HasExact (num n) = IsExact n
  HasExact (str s) = Unit
  HasExact (arr items) = AreExact items
  HasExact (obj fields) = HaveExact fields

  pub AreExact : Items → Type 0
  AreExact nil = Unit
  AreExact (cons j items) = HasExact j × AreExact items

  pub HaveExact : Fields → Type 0
  HaveExact end = Unit
  HaveExact (field name j fields) = HasExact j × HaveExact fields

mutual
  unfolding floats HasExact

  pub floats_self : (j : Json) → HasExact j → floats j ≡ j
  floats_self null h = refl
  floats_self (bool b) h = refl
  floats_self (num n) h = ap num (float_ℤ_self n h)
  floats_self (str s) h = refl
  floats_self (arr items) h = ap arr (float_items_self items h)
  floats_self (obj fields) h = ap obj (float_fields_self fields h)

  pub float_items_self : (items : Items) → AreExact items → float_items items ≡ items
  float_items_self nil h = refl
  float_items_self (cons j items) (h, g) =
      λ i. cons (floats_self j h i) (float_items_self items g i)

  pub float_fields_self : (fields : Fields) → HaveExact fields → float_fields fields ≡ fields
  float_fields_self end h = refl
  float_fields_self (field name j fields) (h, g) =
      λ i. field name (floats_self j h i) (float_fields_self fields g i)

abbrev pub or_else {ℓ} : {A : Type ℓ} → Option A → Option A → Option A
or_else none b = b
or_else (some a) b = some a

-- One struct field; `omit` is the test of its `omitempty`.
unfoldable pub put : Bool → Bytes → Json → Fields → Fields
put omit name value rest = if omit then rest else field name value rest

-- jsonMap[name]: the last field of the name counts.
unfoldable pub find : Bytes → Fields → Option Json
find name end = none
find name (field j value rest) = or_else (find name rest) (if j =ₛ name then some value else none)

pub find-put :
    (name j : Bytes) (omit : Bool) (value : Json) (rest : Fields)
    → find name (put omit j value rest)
      ≡ or_else (find name rest) (if (j =ₛ name) && not omit then some value else none)
unfolding find put
find-put name j true value rest = elim (Bool-cases (j =ₛ name)) [
  | inl e ↦ rw e (ground arith)
  | inr e ↦ rw e (ground arith)
]
find-put name j false value rest = elim (Bool-cases (j =ₛ name)) [
  | inl e ↦ rw e refl
  | inr e ↦ rw e refl
]

pub find-end : (name : Bytes) → find name end ≡ none
unfolding find
find-end name = refl

-- json.Unmarshal into a map.
unfoldable pub as_map : Json → Result Fields
as_map (obj fields) = ok fields
as_map null = ok end
as_map _ = err not_an_object

-- `jsonMap[name] != nil`, then `.(string)`: with the second result of the assertion tested, ...
string_or : Error → Bytes → Option Json → Result Bytes
string_or e old none = ok old
string_or e old (some null) = ok old
string_or e old (some (str s)) = ok s
string_or e old (some _) = err e

unfoldable pub read_string : Bytes → Bytes → Fields → Result Bytes
unfolding string_or
read_string name old m = string_or (must_be_string name) old (find name m)

-- ... or not, where any other value panics.
assert_string : Bytes → Option Json → Result Bytes
assert_string old none = ok old
assert_string old (some null) = ok old
assert_string old (some (str s)) = ok s
assert_string old (some _) = panic

unfoldable pub must_string : Bytes → Bytes → Fields → Result Bytes
unfolding assert_string
must_string name old m = assert_string old (find name m)

-- The same for `.(float64)`, as an int64.
number_or : Error → ℤ → Option Json → Result ℤ
number_or e old none = ok old
number_or e old (some null) = ok old
number_or e old (some (num n)) = ok (float_int64 n)
number_or e old (some _) = err e

unfoldable pub read_number : Bytes → ℤ → Fields → Result ℤ
unfolding number_or
read_number name old m = number_or (must_be_number name) old (find name m)

assert_number : ℤ → Option Json → Result ℤ
assert_number old none = ok old
assert_number old (some null) = ok old
assert_number old (some (num n)) = ok (float_int64 n)
assert_number old (some _) = panic

unfoldable pub must_number : Bytes → ℤ → Fields → Result ℤ
unfolding assert_number
must_number name old m = assert_number old (find name m)

pub ruleset fields = (find-put, find-end)
