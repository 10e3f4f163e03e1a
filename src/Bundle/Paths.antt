-- ===== src/Bundle/Paths.antt =====
-- `normalise_path` of src/bundle.rs decides a description of the accepted paths, and returns its
-- input as it is.
use typst_mcp.Common.{
  ◌≤◌, ◌≡◌, refl, ◌≢◌, ◌↔◌, inl, inr, true, false, none, List, [], ◌∷◌, arith, ◌==◌, Bool-cases,
  Option-cases, All, ok, bind-eq-ok,
}
use typst_mcp.Common.Text.{Str, lit, len, starts_with_char, ends_with_char, split}
use typst_mcp.Common.Text.Laws.{str_eq_iff}
use typst_mcp.Common.Text.Split.{join-split}
use typst_mcp.Bundle.{
  is_allowed, find_bad_char, check_segment, check_segments, check_chars, normalise_path,
  max_path_bytes,
}

-- A segment that names a file or a folder below the one in which it stands.
pub record IsPlain (s : Str) : Type 0 where
  pub filled : s ≢ []
  pub no_leading_space : starts_with_char b' ' s ≡ false
  pub no_trailing_space : ends_with_char b' ' s ≡ false
  pub no_trailing_dot : ends_with_char b'.' s ≡ false

-- A relative path below the bundle's root.
pub record IsVirtualPath (p : Str) : Type 0 where
  pub filled : p ≢ []
  pub short : len p ≤ max_path_bytes
  pub allowed : All (λ c. is_allowed c ≡ true) p
  pub plain : All IsPlain (split b'/' p)

check_segment-IsPlain : (s : Str) → check_segment s ≡ ok s → IsPlain s
unfolding check_segment
check_segment-IsPlain s h = ground arith

check_segment-ok : (s : Str) → IsPlain s → check_segment s ≡ ok s
unfolding check_segment ends_with_char
check_segment-ok s h = ground (arith, str_eq_iff s (lit "."), str_eq_iff s (lit ".."))

check_segment-eq : (s t : Str) → check_segment s ≡ ok t → t ≡ s
unfolding check_segment
check_segment-eq s t h = ground arith

check_segments_lem : (ss ts : List Str) → check_segments ss ≡ ok ts → (ts ≡ ss) × All IsPlain ss
unfolding check_segments
check_segments_lem [] ts h = (ground arith, tt)
check_segments_lem (s ∷ ss) ts h =
    let (t, first, more) = bind-eq-ok (check_segment s) _ h in
    let (us, others, same) = bind-eq-ok (check_segments ss) _ more in
    let (rest, plain) = check_segments_lem ss us others in
    let e = check_segment-eq s t first in (cc, (check_segment-IsPlain s (cc), plain))

check_segments-ok : (ss : List Str) → All IsPlain ss → check_segments ss ≡ ok ss
unfolding check_segments
check_segments-ok [] h = refl
check_segments-ok (s ∷ ss) h = rw (check_segment-ok s h.0, check_segments-ok ss h.1)

find_bad_char-none : (s : Str) → find_bad_char s ≡ none → All (λ c. is_allowed c ≡ true) s
unfolding find_bad_char
find_bad_char-none [] h = tt
find_bad_char-none (c ∷ s) h = elim (Bool-cases (is_allowed c)) [
  | inl e ↦ (e, find_bad_char-none s (rw e at h))
  | inr e ↦ absurd (let k = rw e at h in cc)
]

find_bad_char-of_All : (s : Str) → All (λ c. is_allowed c ≡ true) s → find_bad_char s ≡ none
unfolding find_bad_char
find_bad_char-of_All [] h = refl
find_bad_char-of_All (c ∷ s) h = rw h.0 (find_bad_char-of_All s h.1)

check_chars_lem :
    (raw p : Str)
    → check_chars raw ≡ ok p
    → (p ≡ raw) × All (λ c. is_allowed c ≡ true) raw × All IsPlain (split b'/' raw)
unfolding check_chars
check_chars_lem raw p h = elim (Option-cases (find_bad_char raw)) [
  | inr (c, e) ↦ absurd (let k = rw (e, check_chars) at h in cc)
  | inl e ↦
      let (ss, checked, joined) =
        bind-eq-ok (check_segments (split b'/' raw)) _ (rw (e, check_chars) at h) in
      let (same, plain) = check_segments_lem (split b'/' raw) ss checked in
      let j = join-split b'/' raw in (cc, find_bad_char-none raw e, plain)
]

normalise_path_lem : (raw p : Str) → normalise_path raw ≡ ok p → (p ≡ raw) × IsVirtualPath raw
unfolding normalise_path
normalise_path_lem raw p h =
    let (same, allowed, plain) = check_chars_lem raw p (ground arith) in
    (same, record { filled = ground arith; short = ground arith; allowed = allowed; plain = plain })

-- An accepted path is returned as it was given.
pub normalise_path-eq : (raw p : Str) → normalise_path raw ≡ ok p → p ≡ raw
normalise_path-eq raw p h = (normalise_path_lem raw p h).0

starts_with_char-of_plain : (p : Str) → All IsPlain (split b'/' p) → starts_with_char b'/' p ≡ false
unfolding split
starts_with_char-of_plain [] h = refl
starts_with_char-of_plain (c ∷ s) h = elim (Bool-cases (c == b'/')) [
  | inl e ↦ absurd ((rw e at h).0.filled refl)
  | inr e ↦ e
]

normalise_path-ok : (p : Str) → IsVirtualPath p → normalise_path p ≡ ok p
unfolding normalise_path check_chars
normalise_path-ok p v = ground (
  arith,
  starts_with_char-of_plain p v.plain,
  find_bad_char-of_All p v.allowed,
  check_segments-ok (split b'/' p) v.plain,
  join-split b'/' p,
)

pub normalise_path-IsVirtualPath : (p : Str) → (normalise_path p ≡ ok p) ↔ IsVirtualPath p
normalise_path-IsVirtualPath p = (λ h. (normalise_path_lem p p h).1, normalise_path-ok p)

-- A path is accepted, and then as it was given, exactly when it is a non-empty relative path of at
-- most 255 bytes, made of allowed characters, each of whose segments between slashes is non-empty,
-- does not end in a dot and neither starts nor ends with a space.
pub normalise_path_iff : (p q : Str) → (normalise_path p ≡ ok q) ↔ ((q ≡ p) × IsVirtualPath p)
normalise_path_iff p q = (normalise_path_lem p q, λ (same, v). rw same (normalise_path-ok p v))
