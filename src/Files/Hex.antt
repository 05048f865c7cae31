-- ===== src/Files/Hex.antt =====
-- The text of a hash: two hexadecimal digits for each byte, which tell the bytes.
use buildsyspp.Shared.{
  ℕ, ◌*◌, ◌/◌, ◌%◌, ◌<◌, ◌≡◌, refl, ap, ◌↔◌, true, some, List, [], ◌∷◌, Text, length, All, arith,
}
use buildsyspp.Host.{Host}
use buildsyspp.Files.{hex_digit, to_hex, content_hash}
use buildsyspp.Git.{all_hex, is_hex_digit}

length-to_hex : (bytes : List ℕ) → length (to_hex bytes) ≡ 2 * length bytes
unfolding to_hex
length-to_hex [] = refl
length-to_hex (b ∷ bs) = omega (arith, length-to_hex bs)

hex_digit-is_hex : (n : ℕ) → n < 16 → is_hex_digit (hex_digit n) ≡ true
hex_digit-is_hex n h = ground arith

all_hex-to_hex : (bytes : List ℕ) → All (λ b. b < 256) bytes → all_hex (to_hex bytes) ≡ true
unfolding to_hex
all_hex-to_hex [] h = refl
all_hex-to_hex (b ∷ bs) h =
    rw
      (
        hex_digit-is_hex (b / 16) (omega (arith, h.0)),
        hex_digit-is_hex (b % 16) (omega arith),
        all_hex-to_hex bs h.1,
      )
      refl

hex_digit_injective : (a b : ℕ) → a < 16 → b < 16 → hex_digit a ≡ hex_digit b → a ≡ b
hex_digit_injective a b h k e = ground arith

same_byte : (a b : ℕ) → a / 16 ≡ b / 16 → a % 16 ≡ b % 16 → a ≡ b
same_byte a b high low = omega (arith, high, low)

same_cons : (a b : ℕ) (xs ys : List ℕ) → a ≡ b → xs ≡ ys → a ∷ xs ≡ b ∷ ys
same_cons a b xs ys e k = rw (e, k) refl

to_hex_injective :
    (as' bs : List ℕ)
    → All (λ b. b < 256) as'
    → All (λ b. b < 256) bs
    → to_hex as' ≡ to_hex bs
    → as' ≡ bs
unfolding to_hex
to_hex_injective [] [] h k e = refl
to_hex_injective [] (b ∷ bs) h k e = cc
to_hex_injective (a ∷ as') [] h k e = cc
to_hex_injective (a ∷ as') (b ∷ bs) h k e =
    let high =
      hex_digit_injective (a / 16) (b / 16) (omega (arith, h.0)) (omega (arith, k.0)) (cc e) in
    let low = hex_digit_injective (a % 16) (b % 16) (omega arith) (omega arith) (cc e) in
    same_cons a b as' bs (same_byte a b high low) (to_hex_injective as' bs h.1 k.1 (cc e))

module _ (h : Host) (sha256_bytes : (content : Text) → All (λ b. b < 256) (h.sha256 content)) where
  -- The hash of a file that can be read has two digits for each byte of its SHA-256 digest, all of
  -- them hexadecimal.
  pub content_hash_lem :
      (content : Text)
      → (length (content_hash h (some content)) ≡ 2 * length (h.sha256 content))
        × (all_hex (content_hash h (some content)) ≡ true)
  unfolding content_hash
  content_hash_lem content =
      (length-to_hex (h.sha256 content), all_hex-to_hex (h.sha256 content) (sha256_bytes content))

  -- Two files have one hash just where their SHA-256 digests are the same.
  pub content_hash_iff :
      (a b : Text) → (content_hash h (some a) ≡ content_hash h (some b)) ↔ (h.sha256 a ≡ h.sha256 b)
  unfolding content_hash
  content_hash_iff a b = (
    to_hex_injective (h.sha256 a) (h.sha256 b) (sha256_bytes a) (sha256_bytes b),
    λ e. ap to_hex e,
  )
