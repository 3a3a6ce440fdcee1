-- ===== src/Prelude/Json.antt =====
-- The values of the language that the program passes on without a look at them (`unknown`), and what
-- JSON.parse gives back of the text that JSON.stringify makes of them. Values that JSON.stringify
-- refuses (a cycle, a BigInt) and objects with a `toJSON` are not there.
use Prim.Native.Nat.{ℕ}
use Prim.Native.String.{String}
use mathlib.Core.Path.{◌≡◌, refl, ap}
use mathlib.Core.Bool.{Bool, true, false, ◌&&◌}
use mathlib.Core.Option.{Option, none, some}

mutual
  -- `failure` is an instance of Error with its message; `function` is a symbol too.
  pub data Value : Type 0 where
    undefined function null : Value
    boolean : Bool → Value
    number : ℕ → Value
    string : String → Value
    failure : String → Value
    array : Elements → Value
    object : Properties → Value

  pub data Properties : Type 0 where
    no_properties : Properties
    property : String → Value → Properties → Properties

  pub data Elements : Type 0 where
    no_elements : Elements
    element : Value → Elements → Elements

-- `none` is left out: JSON.stringify gives `undefined`, not a text.
abbrev pub or_null : Option Value → Value
or_null none = null
or_null (some v) = v

abbrev pub or_absent : Option Value → Value
or_absent none = undefined
or_absent (some v) = v

abbrev add_property : String → Option Value → Properties → Properties
add_property key none fields = fields
add_property key (some v) fields = property key v fields

-- JSON.parse of JSON.stringify: an array has `null` for what is left out, an object loses the property,
-- and an Error has no fields of its own that are written.
unfoldable mutual
  pub reread : Value → Option Value
  reread undefined = none
  reread function = none
  reread null = some null
  reread (boolean b) = some (boolean b)
  reread (number n) = some (number n)
  reread (string s) = some (string s)
  reread (failure message) = some (object no_properties)
  reread (array xs) = some (array (reread_elements xs))
  reread (object fs) = some (object (reread_properties fs))

  pub reread_elements : Elements → Elements
  reread_elements no_elements = no_elements
  reread_elements (element v xs) = element (or_null (reread v)) (reread_elements xs)

  pub reread_properties : Properties → Properties
  reread_properties no_properties = no_properties
  reread_properties (property key v fs) = add_property key (reread v) (reread_properties fs)

-- The values that JSON can write as they are.
unfoldable mutual
  pub is_data : Value → Bool
  is_data undefined = false
  is_data function = false
  is_data null = true
  is_data (boolean b) = true
  is_data (number n) = true
  is_data (string s) = true
  is_data (failure message) = false
  is_data (array xs) = are_elements xs
  is_data (object fs) = are_properties fs

  pub are_elements : Elements → Bool
  are_elements no_elements = true
  are_elements (element v xs) = is_data v && are_elements xs

  pub are_properties : Properties → Bool
  are_properties no_properties = true
  are_properties (property key v fs) = is_data v && are_properties fs

-- What is in an array, and what is in a property, after the way through JSON.
abbrev pub reread_item : Value → Value
reread_item v = or_null (reread v)

abbrev pub reread_field : Value → Value
reread_field v = or_absent (reread v)

-- A field that comes back as it was.
abbrev pub is_kept : Value → Bool
is_kept undefined = true
is_kept v = is_data v

and_true : (a b : Bool) → (a && b) ≡ true → (a ≡ true) × (b ≡ true)
and_true true true h = (refl, refl)
and_true true false h = absurd (cc h)
and_true false b h = absurd (cc h)

mutual
  unfolding reread is_data

  pub reread-data : (v : Value) → is_data v ≡ true → reread v ≡ some v
  reread-data undefined h = absurd (cc h)
  reread-data function h = absurd (cc h)
  reread-data null h = refl
  reread-data (boolean b) h = refl
  reread-data (number n) h = refl
  reread-data (string s) h = refl
  reread-data (failure message) h = absurd (cc h)
  reread-data (array xs) h = ap (λ ys. some (array ys)) (reread-elements xs h)
  reread-data (object fs) h = ap (λ gs. some (object gs)) (reread-properties fs h)

  reread-elements : (xs : Elements) → are_elements xs ≡ true → reread_elements xs ≡ xs
  reread-elements no_elements h = refl
  reread-elements (element v xs) h =
      let (p, q) = and_true (is_data v) (are_elements xs) h in
      rw (reread-data v p, reread-elements xs q) refl

  reread-properties : (fs : Properties) → are_properties fs ≡ true → reread_properties fs ≡ fs
  reread-properties no_properties h = refl
  reread-properties (property key v fs) h =
      let (p, q) = and_true (is_data v) (are_properties fs) h in
      rw (reread-data v p, reread-properties fs q) refl

kept-of_data : (v : Value) → is_data v ≡ true → reread_field v ≡ v
kept-of_data v h = ap or_absent (reread-data v h)

pub reread_field-kept : (v : Value) → is_kept v ≡ true → reread_field v ≡ v
unfolding reread
reread_field-kept undefined h = refl
reread_field-kept v h = kept-of_data v h
