-- ===== src/OauthProxy/Sealing.antt =====
-- `encode_state`, `decode_state`, `encode_code` and `decode_code` of src/oauth_proxy.rs.
pub mod Laws
mod Tests
use typst_mcp.Common.{
  ℕ, zero, suc, ◌+◌, ◌-◌, ◌*◌, ◌/◌, ◌%◌, ◌^◌, ◌≤◌, ◌<◌, ◌≡◌, refl, sym, ap, ◌∙◌, ◌≢◌, ◌↔◌, ◌⊎◌, inl,
  inr, Bool, true, false, ◌&&◌, ◌||◌, Option, none, some, List, [], ◌∷◌, ◌++◌, map, arith, ltb, leb,
  ◌==◌, if◌then◌else◌, not, Bool-cases, Option-cases, is_some, is_none, length, All, any, all, sum,
  Has, Has-All, AreDistinct, take, drop, get_or, Result, ok, err, ◌>>=◌, ok_or, map_err, bind-eq-ok,
  map_err-eq-ok, Result-cases, if-cases, unwrap_or,
}
use mathlib.Core.Option
use typst_mcp.Common.Text.{Str, lit, bytes, str_eq, split_once}
use typst_mcp.Store.Operations.{saturating_add}
use typst_mcp.OauthProxy.{pending_ttl, Pending, PendingCode, Packages}

abbrev pub state_label : List ℕ
state_label = lit "oauth-state" ++ 0 ∷ []

abbrev pub code_label : List ℕ
code_label = lit "oauth-code" ++ 0 ∷ []

module _ (p : Packages) (state_key : List ℕ) where
  -- A payload and its signature, both encoded, with a dot between them.
  pub seal : List ℕ → List ℕ → Str
  seal label payload =
      p.base64url payload ++ b'.' ∷ p.base64url (p.hmac state_key (label ++ payload))

  -- The payload, if the signature is right.
  unfoldable pub check_signature : List ℕ → List ℕ → List ℕ → Option (List ℕ)
  check_signature label payload signature =
      if str_eq (p.hmac state_key (label ++ payload)) signature then some payload else none

  unfoldable pub unseal : List ℕ → Str → Option (List ℕ)
  unfolding check_signature
  unseal label text = elim (split_once b'.' text) [
    | none ↦ none
    | some (left, right) ↦ elim (p.decode_base64url left) [
      | none ↦ none
      | some payload ↦ elim (p.decode_base64url right) [
        | none ↦ none
        | some signature ↦ check_signature label payload signature
      ]
    ]
  ]

  -- Issued at most a minute in the future and less than ten minutes ago.
  unfoldable pub is_fresh : ℕ → ℕ → Bool
  is_fresh now issued_at =
      not (ltb (saturating_add now 60) issued_at || leb pending_ttl (now - issued_at))

  unfoldable pub encode_state : Pending → Option Str
  unfolding seal
  encode_state pending = Option.map (λ payload. seal state_label payload) (p.pending_json pending)

  pub decode_state : ℕ → Str → Option Pending
  unfolding unseal is_fresh
  decode_state now state = elim (unseal state_label state) [
    | none ↦ none
    | some payload ↦ elim (p.parse_pending payload) [
      | none ↦ none
      | some pending ↦ if is_fresh now pending.issued_at then some pending else none
    ]
  ]

  pub encode_code : PendingCode → Option Str
  unfolding seal
  encode_code pending = Option.map (λ payload. seal code_label payload) (p.code_json pending)

  unfoldable pub decode_code : ℕ → Str → Option PendingCode
  unfolding unseal is_fresh
  decode_code now code = elim (unseal code_label code) [
    | none ↦ none
    | some payload ↦ elim (p.parse_code payload) [
      | none ↦ none
      | some pending ↦ if is_fresh now pending.issued_at then some pending else none
    ]
  ]
