-- ===== src/OauthProxy/Sealing/Laws.antt =====
-- What a sealed state or code (src/oauth_proxy.rs) carries.
use typst_mcp.Common.{
  ℕ, ◌+◌, ◌≤◌, ◌<◌, ◌≡◌, refl, sym, ap, ◌∙◌, inl, inr, true, none, some, List, ◌++◌, arith,
  if◌then◌else◌, Bool-cases, Option-cases,
}
use typst_mcp.Common.Text.{Str, str_eq, split_once}
use typst_mcp.Common.Text.Laws.{str_eq_iff, str_eq_refl}
use typst_mcp.Common.Text.Split.{Lacks, split_once-append}
use typst_mcp.OauthProxy.{pending_ttl, Pending, PendingCode, Packages}
use typst_mcp.OauthProxy.Sealing.{
  state_label, code_label, seal, check_signature, unseal, is_fresh, encode_state, decode_state,
  decode_code,
}

-- What the encoder promises: its texts decode to what was encoded, and its alphabet has no dot.
pub record IsEncoder (p : Packages) : Type 0 where
  pub decodes : (b : List ℕ) → p.decode_base64url (p.base64url b) ≡ some b
  pub dotless : (b : List ℕ) → Lacks b'.' (p.base64url b)

module _ (p : Packages) (key : List ℕ) where
  unseal-seal :
      (label payload : List ℕ)
      → IsEncoder p
      → unseal p key label (seal p key label payload) ≡ some payload
  unfolding unseal seal check_signature
  unseal-seal label payload i =
      let signature = p.hmac key (label ++ payload) in
      let cut =
        split_once-append b'.' (p.base64url payload) (p.base64url signature) (i.dotless payload) in
      rw (cut, unseal)
        (rw (i.decodes payload) (rw (i.decodes signature) (rw (str_eq_refl signature) refl)))

  -- A text that carries the payload under the right signature.
  pub record IsSealed (label payload : List ℕ) (text : Str) : Type 0 where
    pub left : Str
    pub right : Str
    pub parts : split_once b'.' text ≡ some (left, right)
    pub carried : p.decode_base64url left ≡ some payload
    pub signed : p.decode_base64url right ≡ some (p.hmac key (label ++ payload))

  check_signature-eq-some :
      (label found signature payload : List ℕ)
      → check_signature p key label found signature ≡ some payload
      → (found ≡ payload) × (signature ≡ p.hmac key (label ++ found))
  unfolding check_signature
  check_signature-eq-some label found signature payload h =
      elim (Bool-cases (str_eq (p.hmac key (label ++ found)) signature)) [
        | inl e ↦
            let same : some found ≡ some payload = rw e at h in
            (cc same, sym ((str_eq_iff (p.hmac key (label ++ found)) signature).0 e))
        | inr e ↦ absurd (cc (rw e at h))
      ]

  unseal-IsSealed :
      (label payload : List ℕ) (text : Str)
      → unseal p key label text ≡ some payload
      → IsSealed label payload text
  unfolding unseal check_signature
  unseal-IsSealed label payload text h = elim (Option-cases (split_once b'.' text)) [
    | inl a ↦ absurd (cc (rw (a, unseal) at h))
    | inr ((left, right), a) ↦ elim (Option-cases (p.decode_base64url left)) [
      | inl b ↦ absurd (cc (rw b at (rw (a, unseal) at h)))
      | inr (found, b) ↦ elim (Option-cases (p.decode_base64url right)) [
        | inl c ↦ absurd (cc (rw c at (rw b at (rw (a, unseal) at h))))
        | inr (signature, c) ↦
            let tested : check_signature p key label found signature ≡ some payload =
              rw c at (rw b at (rw (a, unseal) at h)) in
            let (same, signed) = check_signature-eq-some label found signature payload tested in
            record {
              left = left;
              right = right;
              parts = a;
              carried = b ∙ ap some same;
              signed = c ∙ ap some signed ∙ ap (λ x. some (p.hmac key (label ++ x))) same;
            }
      ]
    ]
  ]

  -- A state that was encoded decodes to what it carried, while it is fresh, and to nothing
  -- otherwise, given that the encoder decodes its own texts and writes no dot, and that the JSON form
  -- parses back.
  pub decode_state-encode_state :
      (now : ℕ) (pending : Pending) (payload : List ℕ)
      → IsEncoder p
      → p.pending_json pending ≡ some payload
      → p.parse_pending payload ≡ some pending
      → (state : Str) × (encode_state p key pending ≡ some state)
        × (decode_state p key now state
            ≡ (if is_fresh p key now pending.issued_at then some pending else none))
  unfolding encode_state decode_state
  decode_state-encode_state now pending payload i json parsed = (
    seal p key state_label payload,
    rw json refl,
    rw (unseal-seal state_label payload i, decode_state) (rw parsed refl),
  )

  is_fresh_lem :
      (now issued_at : ℕ)
      → is_fresh p key now issued_at ≡ true
      → (issued_at ≤ now + 60) × (now < issued_at + pending_ttl)
  unfolding is_fresh
  is_fresh_lem now issued_at h = ground arith

  -- A state that is accepted is signed with the key, over the label of states and the payload that
  -- it is parsed from, and was issued less than ten minutes ago and at most a minute ahead.
  pub decode_state-IsSealed :
      (now : ℕ) (state : Str) (pending : Pending)
      → decode_state p key now state ≡ some pending
      → (payload : List ℕ) × IsSealed state_label payload state
        × (p.parse_pending payload ≡ some pending)
        × (pending.issued_at ≤ now + 60)
        × (now < pending.issued_at + pending_ttl)
  unfolding decode_state
  decode_state-IsSealed now state pending h = elim (Option-cases (unseal p key state_label state)) [
    | inl a ↦ absurd (cc (rw (a, decode_state) at h))
    | inr (payload, a) ↦ elim (Option-cases (p.parse_pending payload)) [
      | inl b ↦ absurd (cc (rw b at (rw (a, decode_state) at h)))
      | inr (found, b) ↦ elim (Bool-cases (is_fresh p key now found.issued_at)) [
        | inr c ↦ absurd (cc (rw c at (rw b at (rw (a, decode_state) at h))))
        | inl c ↦
            let same : some found ≡ some pending = rw c at (rw b at (rw (a, decode_state) at h)) in
            let eq : found ≡ pending = cc same in
            let fresh : is_fresh p key now pending.issued_at ≡ true = rw eq at c in
            let (ahead, young) = is_fresh_lem now pending.issued_at fresh in
            (payload, unseal-IsSealed state_label payload state a, b ∙ same, ahead, young)
      ]
    ]
  ]

  -- The same of a code, under the label of codes.
  pub decode_code-IsSealed :
      (now : ℕ) (code : Str) (pending : PendingCode)
      → decode_code p key now code ≡ some pending
      → (payload : List ℕ) × IsSealed code_label payload code
        × (p.parse_code payload ≡ some pending)
        × (pending.issued_at ≤ now + 60)
        × (now < pending.issued_at + pending_ttl)
  unfolding decode_code
  decode_code-IsSealed now code pending h = elim (Option-cases (unseal p key code_label code)) [
    | inl a ↦ absurd (cc (rw (a, decode_code) at h))
    | inr (payload, a) ↦ elim (Option-cases (p.parse_code payload)) [
      | inl b ↦ absurd (cc (rw b at (rw (a, decode_code) at h)))
      | inr (found, b) ↦ elim (Bool-cases (is_fresh p key now found.issued_at)) [
        | inr c ↦ absurd (cc (rw c at (rw b at (rw (a, decode_code) at h))))
        | inl c ↦
            let same : some found ≡ some pending = rw c at (rw b at (rw (a, decode_code) at h)) in
            let eq : found ≡ pending = cc same in
            let fresh : is_fresh p key now pending.issued_at ≡ true = rw eq at c in
            let (ahead, young) = is_fresh_lem now pending.issued_at fresh in
            (payload, unseal-IsSealed code_label payload code a, b ∙ same, ahead, young)
      ]
    ]
  ]
