-- ===== src/OauthProxy/Sealing/Tests.antt =====
-- A concrete state (src/oauth_proxy.rs).
use typst_mcp.Common.{
  ℕ, ◌+◌, ◌-◌, ◌≤◌, ◌<◌, ◌≡◌, refl, ap, none, some, List, [], ◌∷◌, ◌++◌, arith, if◌then◌else◌,
}
use typst_mcp.Common.Text.{Str, lit}
use typst_mcp.Common.Text.Split.{Lacks}
use typst_mcp.OauthProxy.{pending_ttl, Pending, Packages}
use typst_mcp.OauthProxy.Sealing.{state_label, is_fresh, encode_state, decode_state}
use typst_mcp.OauthProxy.Sealing.Laws.{
  IsEncoder, IsSealed, decode_state-encode_state, decode_state-IsSealed,
}

-- Each byte becomes a character behind the dot, so that a text decodes and has no dot.
abbrev write_text : List ℕ → Str
write_text [] = []
write_text (b ∷ bs) = (b + 47) ∷ write_text bs

abbrev read_text : Str → List ℕ
read_text [] = []
read_text (c ∷ s) = (c - 47) ∷ read_text s

read_text-write_text : (b : List ℕ) → read_text (write_text b) ≡ b
read_text-write_text [] = refl
read_text-write_text (b ∷ bs) = ground (arith, read_text-write_text bs)

write_text-Lacks : (b : List ℕ) → Lacks b'.' (write_text b)
write_text-Lacks [] = tt
write_text-Lacks (b ∷ bs) = ((λ e. omega arith), write_text-Lacks bs)

abbrev pending : Pending
pending = record {
  client_redirect_uri = lit "app:/";
  client_state = some (lit "xyz");
  code_challenge = lit "abc";
  issued_at = 100;
}

abbrev packages : Packages
packages = record {
  hmac = λ key message. key ++ message;
  sha256 = λ b. b;
  base64url = write_text;
  decode_base64url = λ s. some (read_text s);
  pending_json = λ _. some (1 ∷ 2 ∷ []);
  parse_pending = λ _. some pending;
  code_json = λ _. none;
  parse_code = λ _. none;
  parse_url = λ _. none;
}

packages-IsEncoder : IsEncoder packages
packages-IsEncoder = record {
  decodes = λ b. ap some (read_text-write_text b);
  dotless = write_text-Lacks;
}

abbrev key : List ℕ
key = 7 ∷ []

decode_state-encode_state_example :
    (state : Str) × (encode_state packages key pending ≡ some state)
    × (decode_state packages key 160 state
        ≡ (if is_fresh packages key 160 100 then some pending else none))
decode_state-encode_state_example =
    decode_state-encode_state packages key 160 pending (1 ∷ 2 ∷ []) packages-IsEncoder refl refl

abbrev sealed_state :
    (state : Str) × (encode_state packages key pending ≡ some state)
    × (decode_state packages key 160 state
        ≡ (if is_fresh packages key 160 100 then some pending else none))
sealed_state =
    decode_state-encode_state packages key 160 pending (1 ∷ 2 ∷ []) packages-IsEncoder refl refl

accepted : decode_state packages key 160 sealed_state.0 ≡ some pending
unfolding is_fresh
accepted = sealed_state.2

decode_state-IsSealed_example :
    (payload : List ℕ) × IsSealed packages key state_label payload sealed_state.0
    × (packages.parse_pending payload ≡ some pending)
    × (pending.issued_at ≤ 160 + 60)
    × (160 < pending.issued_at + pending_ttl)
decode_state-IsSealed_example =
    decode_state-IsSealed packages key 160 sealed_state.0 pending accepted
