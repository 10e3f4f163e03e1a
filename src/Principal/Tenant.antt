-- ===== src/Principal/Tenant.antt =====
-- Tenant ids.
use typst_mcp.Common.{
  ℕ, zero, suc, ◌+◌, ◌*◌, ◌/◌, ◌%◌, ◌^◌, ◌<◌, ◌≡◌, refl, sym, ap, ◌∙◌, ◌↔◌, true, ◌&&◌, ◌||◌, some,
  List, [], ◌∷◌, ◌++◌, arith, ltb, ◌==◌, not, length, All, any, all, take,
}
use native.Mathlib.Nat.{pow-suc}
use typst_mcp.Common.Text.{Str, len}
use typst_mcp.Common.Text.Laws.{bytes-ascii, all-append}
use typst_mcp.Common.Tests.{all_below, all_below_sound}
use typst_mcp.Common.Lists.{length-append, All-append}
use typst_mcp.Principal.{tenant_len, digit, encode, derive_from, parse, in_alphabet}

-- `k` digits of `n` in base 32, the most significant first.
unfoldable pub base32 : ℕ → ℕ → Str
base32 zero n = []
base32 (suc k) n = base32 k (n / 32) ++ digit (n % 32) ∷ []

-- The number that bytes spell, the most significant first.
unfoldable pub big_endian : ℕ → List ℕ → ℕ
big_endian acc [] = acc
big_endian acc (b ∷ bs) = big_endian (acc * 256 + b) bs

cons-digit : {a b : ℕ} {s t : Str} → a ≡ b → s ≡ t → digit a ∷ s ≡ digit b ∷ t
cons-digit p q = cc

-- Two groups of five bytes make two groups of eight digits.
encode-ten :
    (b₀ b₁ b₂ b₃ b₄ b₅ b₆ b₇ b₈ b₉ : ℕ) (rest : List ℕ)
    → All (λ b. b < 256) (b₀ ∷ b₁ ∷ b₂ ∷ b₃ ∷ b₄ ∷ b₅ ∷ b₆ ∷ b₇ ∷ b₈ ∷ b₉ ∷ [])
    → encode (b₀ ∷ b₁ ∷ b₂ ∷ b₃ ∷ b₄ ∷ b₅ ∷ b₆ ∷ b₇ ∷ b₈ ∷ b₉ ∷ rest) 0 0 []
      ≡ base32 16 (big_endian 0 (b₀ ∷ b₁ ∷ b₂ ∷ b₃ ∷ b₄ ∷ b₅ ∷ b₆ ∷ b₇ ∷ b₈ ∷ b₉ ∷ []))
unfolding encode base32 big_endian
encode-ten b₀ b₁ b₂ b₃ b₄ b₅ b₆ b₇ b₈ b₉ rest h = cons-digit (omega arith) (
    cons-digit (omega arith) (
      cons-digit (omega arith) (
        cons-digit (omega arith) (
          cons-digit (omega arith) (
            cons-digit (omega arith) (
              cons-digit (omega arith) (
                cons-digit (omega arith) (
                  cons-digit (omega arith) (
                    cons-digit (omega arith) (
                      cons-digit (omega arith) (
                        cons-digit (omega arith) (
                          cons-digit (omega arith) (
                            cons-digit (omega arith) (
                              cons-digit (omega arith) (cons-digit (omega arith) refl)))))))))))))))

-- What HMAC-SHA256 gives: 32 bytes.
abbrev pub IsDigest : List ℕ → Type 0
IsDigest d = (length d ≡ 32) × All (λ b. b < 256) d

-- The id of a digest of 32 bytes is the base-32 spelling of its first 80 bits.
pub derive_from-base32 :
    (digest : List ℕ)
    → IsDigest digest
    → (derive_from digest).text ≡ base32 16 (big_endian 0 (take 10 digest))
unfolding derive_from
derive_from-base32 (b₀ ∷ b₁ ∷ b₂ ∷ b₃ ∷ b₄ ∷ b₅ ∷ b₆ ∷ b₇ ∷ b₈ ∷ b₉ ∷ rest) h =
    encode-ten b₀ b₁ b₂ b₃ b₄ b₅ b₆ b₇ b₈ b₉ rest (omega arith)
derive_from-base32 digest h = absurd (omega arith)

digit-table : all_below 32 (λ i. in_alphabet (digit i) && ltb (digit i) 128) ≡ true
unfolding all_below in_alphabet digit any
digit-table = refl

digit-in_alphabet : (i : ℕ) → i < 32 → (in_alphabet (digit i) ≡ true) × (digit i < 128)
digit-in_alphabet i h = ground (arith, all_below_sound 32 _ i digit-table h)

base32-in_alphabet :
    (k n : ℕ) → (all in_alphabet (base32 k n) ≡ true) × All (λ c. c < 128) (base32 k n)
unfolding base32 all
base32-in_alphabet zero n = (refl, tt)
base32-in_alphabet (suc k) n =
    let (a, b) = base32-in_alphabet k (n / 32) in
    let (c, d) = digit-in_alphabet (n % 32) (omega arith) in
    (
      all-append in_alphabet (base32 k (n / 32)) (digit (n % 32) ∷ []) a (rw c),
      All-append (λ x. x < 128) (base32 k (n / 32)) (digit (n % 32) ∷ []) b (d, tt),
    )

length-base32 : (k n : ℕ) → length (base32 k n) ≡ k
unfolding base32
length-base32 zero n = refl
length-base32 (suc k) n =
    omega (arith, length-append (base32 k (n / 32)) (digit (n % 32) ∷ []), length-base32 k (n / 32))

parse-ok :
    (s : Str)
    → length s ≡ tenant_len
    → All (λ c. c < 128) s
    → all in_alphabet s ≡ true
    → parse s ≡ some (record { text = s })
unfolding parse len
parse-ok s h a k = rw (bytes-ascii s a) (ground arith)

-- The id that is derived from a digest of 32 bytes has the shape that `parse` accepts.
pub parse-derive_from :
    (digest : List ℕ)
    → IsDigest digest
    → parse (derive_from digest).text ≡ some (derive_from digest)
parse-derive_from digest h =
    let e = derive_from-base32 digest h in
    let n = big_endian 0 (take 10 digest) in
    let (a, b) = base32-in_alphabet 16 n in
    parse-ok (derive_from digest).text (rw e (length-base32 16 n)) (rw e b) (rw e a)

digits-differ : all_below 32 (λ i. all_below 32 (λ j. not (digit i == digit j) || i == j)) ≡ true
unfolding all_below digit
digits-differ = refl

digit_inj : (i j : ℕ) → i < 32 → j < 32 → digit i ≡ digit j → i ≡ j
digit_inj i j h k e =
    let row = all_below_sound 32 _ i digits-differ h in ground (arith, all_below_sound 32 _ j row k)

append-cons_inj : (s t : Str) (a b : ℕ) → s ++ a ∷ [] ≡ t ++ b ∷ [] → (s ≡ t) × (a ≡ b)
append-cons_inj [] [] a b e = ground arith
append-cons_inj [] (d ∷ []) a b e = ground arith
append-cons_inj [] (d ∷ d' ∷ t) a b e = ground arith
append-cons_inj (c ∷ []) [] a b e = ground arith
append-cons_inj (c ∷ c' ∷ s) [] a b e = ground arith
append-cons_inj (c ∷ s) (d ∷ t) a b e = ground (arith, append-cons_inj s t a b)

base32_inj : (k m n : ℕ) → m < 32 ^ k → n < 32 ^ k → base32 k m ≡ base32 k n → m ≡ n
unfolding base32
base32_inj zero m n h h' e = omega arith
base32_inj (suc k) m n h h' e =
    let (high, low) = append-cons_inj (base32 k (m / 32)) (base32 k (n / 32)) _ _ e in
    let hm : m < 32 ^ k * 32 = rw pow-suc at h in
    let hn : n < 32 ^ k * 32 = rw pow-suc at h' in
    omega (
      arith,
      base32_inj k (m / 32) (n / 32) (omega arith) (omega arith) high,
      digit_inj (m % 32) (n % 32) (omega arith) (omega arith) low,
    )

big_endian_inj :
    (a a' : ℕ) (s t : List ℕ)
    → length s ≡ length t
    → All (λ b. b < 256) s
    → All (λ b. b < 256) t
    → big_endian a s ≡ big_endian a' t
    → (a ≡ a') × (s ≡ t)
unfolding big_endian
big_endian_inj a a' [] [] l h k e = (e, refl)
big_endian_inj a a' [] (c ∷ t) l h k e = absurd (omega arith)
big_endian_inj a a' (b ∷ s) [] l h k e = absurd (omega arith)
big_endian_inj a a' (b ∷ s) (c ∷ t) l h k e =
    let (x, y) = big_endian_inj (a * 256 + b) (a' * 256 + c) s t (omega arith) h.1 k.1 e in
    ground arith

-- The first ten bytes of a digest.
take-ten :
    (d : List ℕ)
    → IsDigest d
    → (length (take 10 d) ≡ 10)
      × All (λ b. b < 256) (take 10 d)
      × (big_endian 0 (take 10 d) < 32 ^ 16)
unfolding big_endian
take-ten (b₀ ∷ b₁ ∷ b₂ ∷ b₃ ∷ b₄ ∷ b₅ ∷ b₆ ∷ b₇ ∷ b₈ ∷ b₉ ∷ rest) h =
    (refl, omega arith, omega arith)
take-ten digest h = absurd (omega arith)

-- Two digests of 32 bytes give the same id just when their first ten bytes agree.
pub derive_from_iff :
    (d e : List ℕ)
    → IsDigest d
    → IsDigest e
    → (derive_from d ≡ derive_from e) ↔ (take 10 d ≡ take 10 e)
derive_from_iff d e h k =
    let (l, b, m) = take-ten d h in
    let (l', b', m') = take-ten e k in
    let p = derive_from-base32 d h in
    let q = derive_from-base32 e k in
    (
      λ same.
          (big_endian_inj 0 0 (take 10 d) (take 10 e) (l ∙ sym l') b b'
            (base32_inj 16 _ _ m m' (sym p ∙ ap (λ t. t.text) same ∙ q))).1,
      λ same. let text = p ∙ ap (λ t. base32 16 (big_endian 0 t)) same ∙ sym q in cc,
    )
