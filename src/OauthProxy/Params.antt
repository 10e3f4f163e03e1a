-- ===== src/OauthProxy/Params.antt =====
-- Parameters of a request and their rewriting (src/oauth_proxy.rs).
pub mod Laws
use typst_mcp.Common.{
  ℕ, zero, suc, ◌+◌, ◌-◌, ◌*◌, ◌/◌, ◌%◌, ◌^◌, ◌≤◌, ◌<◌, ◌≡◌, refl, sym, ap, ◌∙◌, ◌≢◌, ◌↔◌, ◌⊎◌, inl,
  inr, Bool, true, false, ◌&&◌, ◌||◌, Option, none, some, List, [], ◌∷◌, ◌++◌, map, arith, ltb, leb,
  ◌==◌, if◌then◌else◌, not, Bool-cases, Option-cases, is_some, is_none, length, All, any, all, sum,
  Has, Has-All, AreDistinct, take, drop, get_or, Result, ok, err, ◌>>=◌, ok_or, map_err, bind-eq-ok,
  map_err-eq-ok, Result-cases, if-cases, unwrap_or,
}
use typst_mcp.Common.Text.{
  Str, lit, bytes, len, str_eq, join, is_ascii_alphanumeric, split_whitespace, last_piece,
  trim_end_slashes, trim_end_text,
}

abbrev pub Pair : Type 0
Pair = Str × Str

-- The values of the parameters of a name, in order.
unfoldable pub values_of : Str → List Pair → List Str
values_of name [] = []
values_of name ((k, v) ∷ pairs) =
    if str_eq k name then v ∷ values_of name pairs else values_of name pairs

-- The value of a parameter that is there once.
abbrev only : List Str → Option Str
only [] = none
only (v ∷ []) = some v
only (v ∷ w ∷ vs) = none

unfoldable pub exactly_one : List Pair → Str → Option Str
unfolding values_of
exactly_one pairs name = only (values_of name pairs)

unfoldable pub valid_code_challenge : Str → Bool
valid_code_challenge value =
    len value == 43 && all (λ b. is_ascii_alphanumeric b || b == b'-' || b == b'_') (bytes value)

unfoldable pub valid_code_verifier : Str → Bool
valid_code_verifier value =
    leb 43 (len value)
    && leb (len value) 128
    && all (λ b. is_ascii_alphanumeric b || b == b'-' || b == b'.' || b == b'_' || b == b'~')
        (bytes value)

unfoldable pub challenge_for : (sha256 : List ℕ → List ℕ) (base64url : List ℕ → Str) → Str → Str
challenge_for sha256 base64url verifier = base64url (sha256 (bytes verifier))

-- A scope, qualified where it is the one of the API.
qualify : Str → Str → Str
qualify api_scope s =
    if str_eq s (lit "render") || str_eq s (last_piece b'/' api_scope) then api_scope else s

-- A scope that is added if it is not there.
add_missing : Str → List Str → List Str
add_missing s parts = if any (λ t. str_eq t s) parts then parts else parts ++ s ∷ []

pub rewrite_scope : Str → Str → Str
unfolding qualify add_missing
rewrite_scope raw api_scope =
    let parts = map (qualify api_scope) (split_whitespace raw) in
    join (lit " ") (
      add_missing (lit "offline_access") (add_missing (lit "openid") (add_missing api_scope parts)))

pub rewrite_resource : Str → Str → Option Str
rewrite_resource raw mcp_resource =
    let trimmed = trim_end_slashes raw in
    let own = trim_end_slashes mcp_resource in
    if str_eq trimmed own || str_eq trimmed (trim_end_text (lit "/mcp") own)
    then some mcp_resource
    else none

-- `retain(|(k, _)| k != name)`.
pub without : Str → List Pair → List Pair
without name [] = []
without name ((k, v) ∷ pairs) =
    let rest = without name pairs in if str_eq k name then rest else (k, v) ∷ rest
