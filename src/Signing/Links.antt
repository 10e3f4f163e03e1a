-- ===== src/Signing/Links.antt =====
-- A link that was signed is accepted until it expires, and what is signed names one document.
use typst_mcp.Common.{
  ℕ, ◌+◌, ◌%◌, ◌<◌, ◌≡◌, refl, ◌↔◌, some, List, ◌∷◌, ◌++◌, take, arith, ltb, if◌then◌else◌, ok, err,
}
use typst_mcp.Common.Text.{Str, bytes}
use typst_mcp.Common.Text.Laws.{str_eq_iff, str_eq_refl}
use typst_mcp.Common.Text.Split.{Lacks, append_sep_inj}
use typst_mcp.Common.Text.Decimal.{show, show_inj, parse_unsigned-show, u64_mod}
use typst_mcp.Principal.{TenantId}
use typst_mcp.Signing.{expired, message, Signer, sign, sign_for, verify, verify_params}

-- Messages of different documents or expiry times differ, if no `|` stands in the tenant id or in
-- the document id.
pub message_inj :
    (t u : TenantId) (id id' : Str) (e e' : ℕ)
    → Lacks b'|' t.text
    → Lacks b'|' u.text
    → Lacks b'|' id
    → Lacks b'|' id'
    → message t id e ≡ message u id' e'
    → (t ≡ u) × (id ≡ id') × (e ≡ e')
unfolding message
message_inj t u id id' e e' ht hu hi hi' h =
    let tail = id ++ b'|' ∷ show e in
    let tail' = id' ++ b'|' ∷ show e' in
    let first : (t.text ≡ u.text) × (tail ≡ tail') =
      append_sep_inj b'|' t.text tail u.text tail' ht hu (ground arith) in
    let second : (id ≡ id') × (show e ≡ show e') =
      append_sep_inj b'|' id (show e) id' (show e') hi hi' first.1 in
    (ground (arith, first.0), second.0, show_inj e e' second.1)

-- The encoded tag of a message, as the HTTP parameter carries it.
abbrev pub tag_of : Signer → Str → List ℕ
tag_of s m = bytes (s.base64url (take 16 (s.hmac s.secret (bytes m))))

verify-eq-ok :
    (s : Signer) (now : ℕ) (t : TenantId) (id : Str) (e : ℕ) (presented : Str)
    → (verify s now t id e presented ≡ ok tt)
      ↔ ((now < e) × (bytes presented ≡ tag_of s (message t id e)))
unfolding verify sign
verify-eq-ok s now t id e presented = (
  λ h. (ground arith, ground (arith, str_eq_iff (tag_of s (message t id e)) (bytes presented))),
  λ h. ground (arith, str_eq_iff (tag_of s (message t id e)) (bytes presented)),
)

-- The signature of one link is accepted for another exactly when both are for the same tenant, document
-- and expiry time and that time has not come, if the hash tells the messages of the two links apart
-- and no `|` stands in the tenant ids or in the document ids.
pub verify-sign_iff :
    (s : Signer) (now : ℕ) (t u : TenantId) (id id' : Str) (e e' : ℕ)
    → Lacks b'|' t.text
    → Lacks b'|' u.text
    → Lacks b'|' id
    → Lacks b'|' id'
    → (tag_of s (message u id' e') ≡ tag_of s (message t id e) → message t id e ≡ message u id' e')
    → (verify s now t id e (sign s u id' e') ≡ ok tt)
      ↔ ((now < e) × (t ≡ u) × (id ≡ id') × (e ≡ e'))
unfolding sign
verify-sign_iff s now t u id id' e e' ht hu hi hi' apart =
    let accepted = verify-eq-ok s now t id e (sign s u id' e') in
    (
      λ h.
          let (young, same) = accepted.0 h in
          let (tenants, ids, times) = message_inj t u id id' e e' ht hu hi hi' (apart same) in
          (young, tenants, ids, times),
      λ (young, tenants, ids, times). accepted.1 (young, rw (tenants, ids, times) refl),
    )

-- A link that is minted at one time, with an expiry time that fits 64 bits, is accepted from its query parameters
-- at every time before it expires, and is refused as expired from then on.
pub verify_params-sign_for :
    (s : Signer) (minted now : ℕ) (t : TenantId) (id : Str) (ttl : ℕ)
    → minted + ttl < u64_mod
    → let (signature, expires_at) = sign_for s minted t id ttl in
      verify_params s now t id (some (show expires_at)) (some signature)
      ≡ (if ltb now (minted + ttl) then ok tt else err expired)
unfolding verify_params sign_for verify
verify_params-sign_for s minted now t id ttl h =
    let expiry : (minted + ttl) % u64_mod ≡ minted + ttl = omega arith in
    rw (expiry, parse_unsigned-show u64_mod (minted + ttl) h)
      (ground (arith, str_eq_refl (bytes (sign s t id (minted + ttl)))))
