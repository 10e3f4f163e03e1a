-- ===== src/Principal.antt =====
-- src/principal.rs: who is calling, and where their data lives. HMAC, SHA-256 and the hexadecimal
-- printer come from other packages and are parameters.
pub mod Identity
pub mod Tenant
pub mod Keys
mod Tests
use typst_mcp.Common.{
  ℕ, zero, suc, ◌+◌, ◌-◌, ◌*◌, ◌/◌, ◌%◌, ◌^◌, ◌≤◌, ◌<◌, ◌≡◌, refl, sym, ap, ◌∙◌, ◌≢◌, ◌↔◌, ◌⊎◌, inl,
  inr, Bool, true, false, ◌&&◌, ◌||◌, Option, none, some, List, [], ◌∷◌, ◌++◌, map, arith, ltb, leb,
  ◌==◌, if◌then◌else◌, not, Bool-cases, Option-cases, is_some, is_none, length, All, any, all, sum,
  Has, Has-All, AreDistinct, take, drop, get_or, Result, ok, err, ◌>>=◌, ok_or, map_err, bind-eq-ok,
  map_err-eq-ok,
}
use typst_mcp.Common.Text.{
  Str, lit, bytes, len, str_eq, is_empty, is_ascii_alphanumeric, trim, split, split_once,
}

abbrev pub tenant_len : ℕ
tenant_len = 16

abbrev pub min_api_key_bytes : ℕ
min_api_key_bytes = 32

abbrev pub max_api_key_label_bytes : ℕ
max_api_key_label_bytes = 64

abbrev pub alphabet : Str
alphabet = lit "0123456789abcdefghjkmnpqrstvwxyz"

pub data Principal : Type 0 where
  user : (subject issuer : Str) (name : Option Str) → Principal
  service : (label : Str) → Principal

-- `Principal::identity`; the separator is the character 0.
pub identity : Principal → Str
identity (user subject issuer name) = lit "oidc" ++ 0 ∷ (issuer ++ 0 ∷ subject)
identity (service label) = lit "key" ++ 0 ∷ label

pub display : Principal → Str
display (user subject issuer name) = subject
display (service label) = label

-- `TenantId`: a text of a shape that only `derive` and `parse` make.
pub record TenantId : Type 0 where
  pub text : Str

-- `ALPHABET[index]`.
pub digit : ℕ → ℕ
digit index = get_or alphabet index 0

-- The inner loop of `TenantId::derive`: it takes five bits in each round, so that the number of
-- bits is fuel enough. A byte is at most 255, so that a byte shifted in by `|` is a byte added, and
-- an index of five bits lies in the alphabet.
emit : ℕ → ℕ → ℕ → Str → ℕ × Str
emit zero buffer bits out = (bits, out)
emit (suc fuel) buffer bits out =
    let index = buffer / 2 ^ (bits - 5) % 32 in
    let more = emit fuel buffer (bits - 5) (out ++ digit index ∷ []) in
    if leb 5 bits && ltb (length out) tenant_len then more else (bits, out)

-- The outer loop, over the digest, with a buffer of 16 bits.
pub encode : List ℕ → ℕ → ℕ → Str → Str
unfolding emit
encode [] buffer bits out = out
encode (byte ∷ digest) buffer bits out =
    let buffer' = buffer * 256 % 2 ^ 16 + byte in
    let (bits', out') = emit (bits + 8) buffer' (bits + 8) out in
    let rest = encode digest buffer' bits' out' in if length out' == tenant_len then out' else rest

-- `TenantId::derive`, from the digest that the HMAC gives.
pub derive_from : List ℕ → TenantId
unfolding encode
derive_from digest = record { text = encode digest 0 0 [] }

pub derive : (List ℕ → List ℕ → List ℕ) → List ℕ → List ℕ → TenantId
unfolding derive_from
derive hmac salt message = derive_from (hmac salt message)

-- `Principal::tenant`.
pub tenant : (List ℕ → List ℕ → List ℕ) → Principal → List ℕ → TenantId
unfolding derive identity
tenant hmac p salt = derive hmac salt (bytes (identity p))

pub in_alphabet : ℕ → Bool
in_alphabet b = any (λ c. c == b) alphabet

-- `TenantId::parse`.
pub parse : Str → Option TenantId
parse value =
    if not (len value == tenant_len)
    then none
    else if all in_alphabet (bytes value)
    then some (record { text = value })
    else none
