-- ===== src/Auth/Tokens/Samples.antt =====
-- Tokens without a signature in place of jwt-cpp, for tests: two dots, and then the claims as a table.
use certos.Base.{
  ℕ, suc, sym, some_inj, ◌<◌, ◌≤◌, Bool, true, false, [], ◌∷◌, ◌++◌, Option, none, some, ◌≡◌, refl,
  ap, ◌∙◌, Text, txt, Dict, if◌then◌else◌, leb, ltb, arith, drop,
}
use certos.Gateway.Json.{threw, got}
use certos.Gateway.Service.Samples.{tables, tables-IsJson, tables-IsWritable}
use certos.Auth.Tokens.{Payload, JwtLibrary, dots}

abbrev number : Option ℕ → Text
number none = []
number (some n) = n ∷ []

abbrev number_of : Text → Option ℕ
number_of [] = none
number_of (n ∷ _) = some n

abbrev table : Payload → Dict Text
table p =
    (txt "iss", p.issuer)
    ∷ (txt "iat", number p.issued_at)
    ∷ (txt "exp", number p.expires_at)
    ∷ p.claims

abbrev payload_of : Dict Text → Payload
payload_of ((_, issuer) ∷ ((_, from) ∷ ((_, to) ∷ claims))) = record {
  issuer = issuer;
  issued_at = number_of from;
  expires_at = number_of to;
  claims = claims;
}
payload_of _ = record { issuer = []; issued_at = none; expires_at = none; claims = [] }

abbrev pub sign : Text → Text → Payload → Text
sign secret type p = txt ".." ++ tables.serialize (table p)

abbrev read : Text → Payload
read s = elim (tables.parse s) [ threw _ ↦ payload_of [] | got o ↦ payload_of o ]

abbrev pub decode : Text → Option Payload
decode token = if ltb (dots token) 2 then none else some (read (drop 2 token))

abbrev pub verify : Text → Text → ℕ → Payload → Bool
verify secret issuer now p = elim p.expires_at [ none ↦ true | some to ↦ leb now to ]

payload_of-table :
    (issuer : Text) (from to : Option ℕ) (claims : Dict Text)
    → let p : Payload = record {
      issuer = issuer;
      issued_at = from;
      expires_at = to;
      claims = claims;
    } in
      payload_of (table p) ≡ p
payload_of-table issuer none none claims = refl
payload_of-table issuer none (some b) claims = refl
payload_of-table issuer (some a) none claims = refl
payload_of-table issuer (some a) (some b) claims = refl

read-table : (p : Payload) → read (tables.serialize (table p)) ≡ p
read-table p =
    ap (λ t. elim t [ threw _ ↦ payload_of [] | got o ↦ payload_of o ])
      (tables-IsJson.parse-serialize (table p) (tables-IsWritable (table p)))
    ∙ payload_of-table p.issuer p.issued_at p.expires_at p.claims

two_dots : (n : ℕ) → ltb (suc (suc n)) 2 ≡ false
two_dots n = ground arith

decode_dotted : (s : Text) → decode (txt ".." ++ s) ≡ some (read s)
unfolding dots
decode_dotted s = rw (two_dots (dots s)) refl

pub few_dots : (token : Text) → dots token < 2 → decode token ≡ none
few_dots token h = let few : ltb (dots token) 2 ≡ true = ground arith in rw few refl

pub decode-sign : (secret type : Text) (p : Payload) → decode (sign secret type p) ≡ some p
decode-sign secret type p =
    decode_dotted (tables.serialize (table p)) ∙ ap (λ q. some q) (read-table p)

pub verify-sign :
    (p : Payload) (to now : ℕ) (secret type : Text) (d : Payload)
    → decode (sign secret type p) ≡ some d
    → p.expires_at ≡ some to
    → now ≤ to
    → verify secret p.issuer now d ≡ true
verify-sign p to now secret type d e at h =
    let same : p ≡ d = some_inj (sym (decode-sign secret type p) ∙ e) in
    let exp : d.expires_at ≡ some to = ap (λ q. q.expires_at) (sym same) ∙ at in
    ap (λ o. elim o [ none ↦ true | some t ↦ leb now t ]) exp ∙ ground arith

pub verify_expired :
    (secret issuer : Text) (d : Payload) (to now : ℕ)
    → d.expires_at ≡ some to
    → to < now
    → verify secret issuer now d ≡ false
verify_expired secret issuer d to now e h =
    ap (λ o. elim o [ none ↦ true | some t ↦ leb now t ]) e ∙ ground arith

unfoldable pub sample_jwt : JwtLibrary
sample_jwt = record {
  Decoded = Payload;
  payload = λ p. p;
  sign = sign;
  decode = decode;
  verify = verify;
  decode-sign = λ secret type p _. (p, decode-sign secret type p, refl, refl, λ key. refl);
  verify-sign = λ secret type p d from to now e _ at _ h. verify-sign p to now secret type d e at h;
  verify_expired = verify_expired;
  decode_dots = few_dots;
}
