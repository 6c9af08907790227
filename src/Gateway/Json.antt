-- ===== src/Gateway/Json.antt =====
-- What gateway/ uses of Boost.JSON, as a parameter, and exceptions as values.
use certos.Base.{ℕ, Bool, List, [], ◌∷◌, Option, none, some, Text, ℤ, ◌≡◌, if◌then◌else◌, text_beq}

-- What a call gives, or what the exception says that it throws.
pub data Try (A : Type 0) : Type 0 where
  threw : (what : Text) → Try A
  got : A → Try A

infixl 5 ◌>>=◌
abbrev pub ◌>>=◌ : {A B : Type 0} → Try A → (A → Try B) → Try B
threw what >>= f = threw what
got a >>= f = f a

pub record Json : Type 1 where
  pub Object : Type 0
  pub Value : Type 0
  pub null : Value
  pub empty : Object
  -- `o[key] = v`
  pub set : Text → Value → Object → Object
  pub member : Text → Object → Option Value
  pub of_bool : Bool → Value
  pub of_text : Text → Value
  pub of_number : ℕ → Value
  pub of_object : Object → Value
  pub of_array : List Value → Value
  -- `value_to<std::string>`, `as_string`, `as_bool` and `as_int64`
  pub value_to_text : Value → Try Text
  pub as_string : Value → Try Text
  pub as_bool : Value → Try Bool
  pub as_int64 : Value → Try ℤ
  -- `parse(s).as_object()`
  pub parse : Text → Try Object
  pub serialize : Object → Text
  -- what `at` throws
  pub no_member : Text

module _ (js : Json) where
  open js use {
    Object, Value, null, empty, set, member, value_to_text, as_string, as_bool, as_int64, no_member,
  }

  -- The members are set in order.
  abbrev pub with_members : Object → List (Text × Value) → Object
  with_members o [] = o
  with_members o ((key, v) ∷ ms) = with_members (set key v o) ms

  abbrev pub object : List (Text × Value) → Object
  object = with_members empty

  -- `o.at(key)`
  abbrev pub at : Text → Object → Try Value
  at key o = elim (member key o) [ none ↦ threw no_member | some v ↦ got v ]

  -- `o[key]`, which is null where there is no such member
  abbrev pub item : Text → Object → Value
  item key o = elim (member key o) [ none ↦ null | some v ↦ v ]

  -- A text that is set if it is there.
  abbrev pub optional_text : Text → Object → Try Text
  optional_text key o = elim (member key o) [ none ↦ got [] | some v ↦ value_to_text v ]

  -- What the program relies on. `IsWritable` holds of objects that the parser reads back as they were,
  -- such as those of texts in UTF-8; it refuses bytes that are no UTF-8, and objects nested too deep.
  pub record IsJson : Type 1 where
    pub IsWritable : Object → Type 0
    pub member-empty : (key : Text) → member key empty ≡ none
    pub member-set :
        (key j : Text) (v : Value) (o : Object)
        → member j (set key v o) ≡ (if text_beq key j then some v else member j o)
    pub value_to_text-of_text : (s : Text) → value_to_text (js.of_text s) ≡ got s
    pub as_string-of_text : (s : Text) → as_string (js.of_text s) ≡ got s
    pub as_bool-of_bool : (b : Bool) → as_bool (js.of_bool b) ≡ got b
    pub parse-serialize : (o : Object) → IsWritable o → js.parse (js.serialize o) ≡ got o
