-- ===== src/Gateway/Service/Samples.antt =====
-- Objects of texts in place of Boost.JSON, for tests: an object is a table, and its text lists the keys
-- and values, each with a zero behind it and every other number one greater.
use certos.Base.{
  zero, suc, [], ◌∷◌, ◌++◌, Bool, true, false, not, Option, none, some, ◌≡◌, refl, ◌∙◌, ap, Text,
  txt, Dict, find, assign, find-assign, if◌then◌else◌, is_empty, length, pos, append_assoc,
  append-nil,
}
use certos.Gateway.Json.{Json, IsJson, got}

abbrev encode : Text → Text → Text
encode [] rest = zero ∷ rest
encode (c ∷ s) rest = suc c ∷ encode s rest

abbrev serialize : Dict Text → Text
serialize [] = []
serialize ((key, v) ∷ o) = encode key (encode v (serialize o))

-- The table, with what was read of a key or a value, and the key if it is a value.
abbrev decode : Text → Option Text → Text → Dict Text
decode part key [] = []
decode part none (zero ∷ s) = decode [] (some part) s
decode part (some key) (zero ∷ s) = (key, part) ∷ decode [] none s
decode part none (suc c ∷ s) = decode (part ++ c ∷ []) none s
decode part (some key) (suc c ∷ s) = decode (part ++ c ∷ []) (some key) s

decode-key :
    (part key rest : Text)
    → decode part none (encode key rest) ≡ decode [] (some (part ++ key)) rest
decode-key part [] rest = rw (append-nil part) refl
decode-key part (c ∷ key) rest =
    decode-key (part ++ c ∷ []) key rest
    ∙ ap (λ k. decode [] (some k) rest) (append_assoc part (c ∷ []) key)

decode-value :
    (part key v rest : Text)
    → decode part (some key) (encode v rest) ≡ (key, part ++ v) ∷ decode [] none rest
decode-value part key [] rest = rw (append-nil part) refl
decode-value part key (c ∷ v) rest =
    decode-value (part ++ c ∷ []) key v rest
    ∙ ap (λ w. (key, w) ∷ decode [] none rest) (append_assoc part (c ∷ []) v)

decode-serialize : (o : Dict Text) → decode [] none (serialize o) ≡ o
decode-serialize [] = refl
decode-serialize ((key, v) ∷ o) =
    decode-key [] key (encode v (serialize o))
    ∙ (decode-value [] key v (serialize o) ∙ ap (λ r. (key, v) ∷ r) (decode-serialize o))

abbrev pub tables : Json
tables = record {
  Object = Dict Text;
  Value = Text;
  null = [];
  empty = [];
  set = assign;
  member = find;
  of_bool = λ b. if b then txt "true" else [];
  of_text = λ s. s;
  of_number = λ n. n ∷ [];
  of_object = serialize;
  of_array = λ vs. [];
  value_to_text = got;
  as_string = got;
  as_bool = λ v. got (not (is_empty v));
  as_int64 = λ v. got (pos (length v));
  parse = λ s. got (decode [] none s);
  serialize = serialize;
  no_member = txt "out of range";
}

as_bool-of_bool : (b : Bool) → tables.as_bool (tables.of_bool b) ≡ got b
as_bool-of_bool true = refl
as_bool-of_bool false = refl

pub tables-IsJson : IsJson tables
unfolding find
tables-IsJson = record {
  IsWritable = λ _. Unit;
  member-empty = λ key. refl;
  member-set = λ key j v o. find-assign key j v o;
  value_to_text-of_text = λ s. refl;
  as_string-of_text = λ s. refl;
  as_bool-of_bool = as_bool-of_bool;
  parse-serialize = λ o _. ap got (decode-serialize o);
}

pub tables-IsWritable : (o : tables.Object) → tables-IsJson.IsWritable o
unfolding tables-IsJson
tables-IsWritable o = tt
