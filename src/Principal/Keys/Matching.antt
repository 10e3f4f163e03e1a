-- ===== src/Principal/Keys/Matching.antt =====
-- `ApiKeys::authenticate` of src/principal.rs finds the configured key.
use typst_mcp.Common.{
  ℕ, ◌≡◌, refl, sym, ap, ◌∙◌, ◌≢◌, ◌↔◌, ◌⊎◌, inl, inr, Option, none, some, List, [], ◌∷◌, arith,
  if◌then◌else◌, All, Has, AreDistinct,
}
use mathlib.Core.Path.{subst}
use typst_mcp.Common.Text.{Str, bytes}
use typst_mcp.Common.Text.Laws.{str_eq_iff}
use typst_mcp.Principal.Keys.{ApiKey, matches, authenticate, authenticate_from}
use typst_mcp.Principal.Keys.Config.{AreSound}

module _ (sha256 : List ℕ → List ℕ) where
  abbrev digest : ApiKey → List ℕ
  digest k = sha256 (bytes k.secret)

  authenticate_from_sound :
      (found : Option ApiKey) (keys : List ApiKey) (presented : Str) (key : ApiKey)
      → authenticate_from sha256 found keys presented ≡ some key
      → (found ≡ some key) ⊎ (Has key keys × (digest key ≡ sha256 (bytes presented)))
  unfolding authenticate_from matches
  authenticate_from_sound found [] presented key h = inl h
  authenticate_from_sound found (k ∷ keys) presented key h =
      let rest =
        authenticate_from_sound (if matches sha256 k presented then some k else found) keys
          presented key h in
      ground (arith, rest, str_eq_iff (digest k) (sha256 (bytes presented)))

  authenticate_from-absent :
      (found : Option ApiKey) (keys : List ApiKey) (presented : Str)
      → All (λ k. digest k ≢ sha256 (bytes presented)) keys
      → authenticate_from sha256 found keys presented ≡ found
  unfolding authenticate_from matches
  authenticate_from-absent found [] presented h = refl
  authenticate_from-absent found (k ∷ keys) presented h = ground (
    arith,
    h.0,
    str_eq_iff (digest k) (sha256 (bytes presented)),
    authenticate_from-absent found keys presented h.1,
  )

  authenticate_from_found :
      (found : Option ApiKey) (keys : List ApiKey) (presented : Str) (key : ApiKey)
      → AreDistinct digest keys
      → Has key keys
      → digest key ≡ sha256 (bytes presented)
      → authenticate_from sha256 found keys presented ≡ some key
  unfolding authenticate_from matches
  authenticate_from_found found [] presented key d m e = absurd m
  authenticate_from_found found (k ∷ keys) presented key d (inl same) e =
      let own : digest k ≡ sha256 (bytes presented) = ap digest (sym same) ∙ e in
      let others = subst (λ z. All (λ y. digest y ≢ z) keys) own d.0 in
      ground (
        arith,
        authenticate_from-absent (some k) keys presented others,
        str_eq_iff (digest k) (sha256 (bytes presented)),
      )
  authenticate_from_found found (k ∷ keys) presented key d (inr m) e =
      authenticate_from_found (if matches sha256 k presented then some k else found) keys presented
        key d.1 m e

  -- With a sound configuration a presented credential is accepted as a key exactly when the key is
  -- configured and has the digest of the credential.
  pub authenticate_iff :
      (keys : List ApiKey) (presented : Str) (key : ApiKey)
      → AreSound sha256 keys
      → (authenticate sha256 keys presented ≡ some key)
        ↔ (Has key keys × (sha256 (bytes key.secret) ≡ sha256 (bytes presented)))
  unfolding authenticate
  authenticate_iff keys presented key a = (
    λ h. ground (arith, authenticate_from_sound none keys presented key h),
    λ h. authenticate_from_found none keys presented key a.secrets h.0 h.1,
  )
