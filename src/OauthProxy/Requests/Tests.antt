-- ===== src/OauthProxy/Requests/Tests.antt =====
-- Concrete requests of the OAuth proxy (src/oauth_proxy.rs).
use typst_mcp.Common.{◌≡◌, refl, ◌⊎◌, none, some, List, [], ◌∷◌, All, Has, any, all, ok}
use typst_mcp.Common.Text.{
  Str, lit, bytes, len, utf8, str_eq, trim, trim_start, trim_end_matches, trim_start_matches,
  is_whitespace, split_once,
}
use typst_mcp.OauthRedirect.{
  Url, is_allowed_redirect_uri, validate_redirect_uri, check_url, check_scheme, contains,
}
use typst_mcp.OauthProxy.{Pending, PendingCode, Packages, Proxy}
use typst_mcp.OauthProxy.Sealing.{
  state_label, seal, encode_state, decode_code, unseal, check_signature, is_fresh,
}
use typst_mcp.OauthProxy.Params.{
  Pair, exactly_one, values_of, valid_code_challenge, valid_code_verifier, challenge_for,
}
use typst_mcp.OauthProxy.Requests.{
  client_state_of, check_authorize, authorize, authorize_pairs, redeem, token, token_pairs,
}
use typst_mcp.OauthProxy.Requests.Authorizing.{IsAuthorized, authorize_lem}
use typst_mcp.OauthProxy.Requests.Sent.{IsOwn}
use typst_mcp.OauthProxy.Requests.Exchanged.{IsFormOf}
use typst_mcp.OauthProxy.Requests.Redeeming.{IsRedeemed, redeem-IsRedeemed, token_lem}

abbrev home : Url
home = record {
  scheme = lit "app";
  host_str = none;
  path = lit "/";
  query = none;
  fragment = none;
  username = [];
  password = none;
}

abbrev address : Str
address = lit "app:/"

abbrev issued : PendingCode
issued = record {
  upstream_code = lit "upstream";
  client_redirect_uri = address;
  code_challenge = [];
  issued_at = 100;
}

-- Hashes and encoders that are easy to compute.
abbrev packages : Packages
packages = record {
  hmac = λ key message. [];
  sha256 = λ b. [];
  base64url = λ b. b;
  decode_base64url = λ s. some s;
  pending_json = λ _. some [];
  parse_pending = λ _. none;
  code_json = λ _. none;
  parse_code = λ _. some issued;
  parse_url = λ _. some home;
}

abbrev proxy : Proxy
proxy = record {
  entra_authorize = lit "https://login/authorize";
  entra_token = lit "https://login/token";
  callback_url = lit "https://here/oauth/callback";
  mcp_resource = lit "https://here/mcp";
  api_scope = lit "api://typst-mcp/render";
  client_id = lit "client";
  allowed_redirect_uris = address ∷ [];
  state_key = [];
}

abbrev asked : List Pair
asked =
    (lit "client_id", lit "client")
    ∷ (lit "response_type", lit "code")
    ∷ (lit "redirect_uri", address)
    ∷ (lit "code_challenge", lit "0123456789012345678901234567890123456789012")
    ∷ (lit "code_challenge_method", lit "S256")
    ∷ []

abbrev own_state : Str
own_state = seal packages [] state_label []

authorized : authorize packages proxy 100 asked ≡ ok (authorize_pairs proxy own_state asked)
unfolding authorize check_authorize client_state_of encode_state exactly_one values_of
    valid_code_challenge is_allowed_redirect_uri validate_redirect_uri check_url check_scheme
    contains trim trim_start trim_end_matches trim_start_matches is_whitespace str_eq len bytes utf8
    all any
authorized = refl

authorize_lem_example :
    (pending : Pending) × (state : Str) × IsAuthorized packages proxy 100 asked pending
    × (encode_state packages proxy.state_key pending ≡ some state)
    × All (IsOwn proxy state) (authorize_pairs proxy own_state asked)
    × Has (lit "redirect_uri", proxy.callback_url) (authorize_pairs proxy own_state asked)
    × Has (lit "state", state) (authorize_pairs proxy own_state asked)
authorize_lem_example =
    authorize_lem packages proxy 100 asked (authorize_pairs proxy own_state asked) authorized

abbrev presented : List Pair
presented =
    (lit "client_id", lit "client")
    ∷ (lit "grant_type", lit "authorization_code")
    ∷ (lit "redirect_uri", address)
    ∷ (lit "code", lit ".")
    ∷ (lit "code_verifier", lit "0123456789012345678901234567890123456789012")
    ∷ []

redeemed : redeem packages proxy 160 presented ≡ ok (lit "upstream")
unfolding redeem decode_code unseal check_signature is_fresh exactly_one values_of
    valid_code_verifier challenge_for is_allowed_redirect_uri validate_redirect_uri check_url
    check_scheme contains trim trim_start trim_end_matches trim_start_matches is_whitespace
    split_once str_eq len bytes utf8 all any
redeemed = refl

redeem-IsRedeemed_example : IsRedeemed packages proxy 160 presented (lit "upstream")
redeem-IsRedeemed_example = redeem-IsRedeemed packages proxy 160 presented (lit "upstream") redeemed

sent_on :
    token packages proxy 160 presented ≡ ok (token_pairs proxy (some (lit "upstream")) presented)
unfolding token exactly_one values_of str_eq
sent_on = rw redeemed refl

token_lem_example :
    let sent = token_pairs proxy (some (lit "upstream")) presented in
    (exactly_one presented (lit "client_id") ≡ some proxy.client_id)
    × (((upstream_code : Str) × (exactly_one presented (lit "grant_type")
            ≡ some (lit "authorization_code"))
          × IsRedeemed packages proxy 160 presented upstream_code
          × IsFormOf proxy (some upstream_code) presented sent)
        ⊎ ((exactly_one presented (lit "grant_type") ≡ some (lit "refresh_token"))
            × IsFormOf proxy none presented sent))
token_lem_example =
    token_lem packages proxy 160 presented (token_pairs proxy (some (lit "upstream")) presented)
      sent_on
