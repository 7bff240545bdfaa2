-- ===== src/Repl/Base64.antt =====
-- src/repl/repl_commands.cpp: the encoding of an image. `val` is an `int` that the code never masks, so it
-- wraps around, here as its 32 bits; `width` is the code's `bits` and 6 more.
use llama_cli.Base.{
  ℕ, zero, suc, ◌+◌, ◌-◌, ◌*◌, ◌/◌, ◌%◌, ◌^◌, ◌<◌, ◌≡◌, refl, ap, ◌∙◌, inl, inr, true, false, [],
  ◌∷◌, ◌++◌, arith, ltb, leb, ◌==◌, if◌then◌else◌, Bool-cases, length, All, Text, codes, char_at,
}

abbrev pub base64_digits : Text
base64_digits = codes "ABCDEFGHIJKLMNOPQRSTUVWXYZabcdefghijklmnopqrstuvwxyz0123456789+/"

abbrev pub digit : ℕ → ℕ
digit i = char_at base64_digits (i % 64)

-- the inner loop `while (bits >= 0)`, a round for each bit at most
unfoldable pub sextets : ℕ → ℕ → ℕ → Text × ℕ
sextets zero val width = ([], width)
sextets (suc rounds) val width = elim (leb 6 width) [
  | false ↦ ([], width)
  | true ↦
      let (later, left) = sextets rounds val (width - 6) in
      (digit (val / 2 ^ (width - 6)) ∷ later, left)
]

-- the loop over the bytes, and the bits that are left
unfoldable pub encode_from : ℕ → ℕ → Text → Text
encode_from val width [] =
    if ltb 0 width then digit ((val * 256) % 2 ^ 32 / 2 ^ (width + 2)) ∷ [] else []
encode_from val width (c ∷ data_bytes) =
    let val' = (val * 256 + c) % 2 ^ 32 in
    let (encoded, left) = sextets (width + 8) val' (width + 8) in
    encoded ++ encode_from val' left data_bytes

-- `while (encoded.size() % 4) encoded += '=';`
unfoldable pub with_padding : ℕ → Text → Text
with_padding zero encoded = encoded
with_padding (suc rounds) encoded = elim (length encoded % 4 == 0) [
  | true ↦ encoded
  | false ↦ with_padding rounds (encoded ++ codes "=")
]

unfoldable pub base64 : Text → Text
base64 image = with_padding 4 (encode_from 0 0 image)

-- Base64 as its standard has it, three bytes at a time.
abbrev pub standard : Text → Text
standard [] = []
standard (a ∷ []) = char_at base64_digits (a / 4) ∷ char_at base64_digits (a % 4 * 16) ∷ codes "=="
standard (a ∷ b ∷ []) =
    char_at base64_digits (a / 4)
    ∷ char_at base64_digits (a % 4 * 16 + b / 16)
    ∷ char_at base64_digits (b % 16 * 4)
    ∷ codes "="
standard (a ∷ b ∷ c ∷ image) =
    char_at base64_digits (a / 4)
    ∷ char_at base64_digits (a % 4 * 16 + b / 16)
    ∷ char_at base64_digits (b % 16 * 4 + c / 64)
    ∷ char_at base64_digits (c % 64)
    ∷ standard image

abbrev word : ℕ → ℕ → ℕ
word v c = (v * 256 + c) % 2 ^ 32

first : (v a : ℕ) → a < 256 → word v a / 4 % 64 ≡ a / 4
first v a h = omega arith

second : (v a b : ℕ) → a < 256 → b < 256 → word (word v a) b / 16 % 64 ≡ a % 4 * 16 + b / 16
second v a b h k = omega arith

third : (v b c : ℕ) → b < 256 → c < 256 → word (word v b) c / 64 % 64 ≡ b % 16 * 4 + c / 64
third v b c h k = omega arith

fourth : (v c : ℕ) → word v c / 1 % 64 ≡ c % 64
fourth v c = omega arith

end_of_one : (v a : ℕ) → word v a * 256 % 2 ^ 32 / 16 % 64 ≡ a % 4 * 16
end_of_one v a = omega arith

end_of_two : (v b : ℕ) → word v b * 256 % 2 ^ 32 / 64 % 64 ≡ b % 16 * 4
end_of_two v b = omega arith

-- what stands before the padding
abbrev unpadded : Text → Text
unpadded [] = []
unpadded (a ∷ []) = char_at base64_digits (a / 4) ∷ char_at base64_digits (a % 4 * 16) ∷ []
unpadded (a ∷ b ∷ []) =
    char_at base64_digits (a / 4)
    ∷ char_at base64_digits (a % 4 * 16 + b / 16)
    ∷ char_at base64_digits (b % 16 * 4)
    ∷ []
unpadded (a ∷ b ∷ c ∷ image) =
    char_at base64_digits (a / 4)
    ∷ char_at base64_digits (a % 4 * 16 + b / 16)
    ∷ char_at base64_digits (b % 16 * 4 + c / 64)
    ∷ char_at base64_digits (c % 64)
    ∷ unpadded image

cons_eq : {x y : ℕ} {s t : Text} → x ≡ y → s ≡ t → x ∷ s ≡ y ∷ t
cons_eq e f = cc

encode_from-unpadded :
    (val : ℕ) (image : Text) → All (λ c. c < 256) image → encode_from val 0 image ≡ unpadded image
unfolding encode_from sextets
encode_from-unpadded val [] h = refl
encode_from-unpadded val (a ∷ []) (ha, h) =
    cons_eq (ap (char_at base64_digits) (first val a ha))
      (cons_eq (ap (char_at base64_digits) (end_of_one val a)) refl)
encode_from-unpadded val (a ∷ b ∷ []) (ha, (hb, h)) =
    cons_eq (ap (char_at base64_digits) (first val a ha)) (
      cons_eq (ap (char_at base64_digits) (second val a b ha hb))
        (cons_eq (ap (char_at base64_digits) (end_of_two (word val a) b)) refl))
encode_from-unpadded val (a ∷ b ∷ c ∷ image) (ha, (hb, (hc, h))) =
    cons_eq (ap (char_at base64_digits) (first val a ha)) (
      cons_eq (ap (char_at base64_digits) (second val a b ha hb)) (
        cons_eq (ap (char_at base64_digits) (third (word val a) b c hb hc)) (
          cons_eq (ap (char_at base64_digits) (fourth (word (word val a) b) c))
            (encode_from-unpadded (word (word (word val a) b) c) image h))))

with_padding-four :
    (rounds : ℕ) (w x y z : ℕ) (encoded : Text)
    → with_padding rounds (w ∷ x ∷ y ∷ z ∷ encoded) ≡ w ∷ x ∷ y ∷ z ∷ with_padding rounds encoded
unfolding with_padding
with_padding-four zero w x y z encoded = refl
with_padding-four (suc rounds) w x y z encoded =
    let same : suc (suc (suc (suc (length encoded)))) % 4 ≡ length encoded % 4 = omega arith in
    elim (Bool-cases (length encoded % 4 == 0)) [
      | inl e ↦ rw (same, with_padding) (rw (e, with_padding) refl)
      | inr e ↦
          rw (same, with_padding)
            (rw (e, with_padding) (with_padding-four rounds w x y z (encoded ++ codes "=")))
    ]

with_padding-unpadded : (image : Text) → with_padding 4 (unpadded image) ≡ standard image
unfolding with_padding
with_padding-unpadded [] = refl
with_padding-unpadded (a ∷ []) = refl
with_padding-unpadded (a ∷ b ∷ []) = refl
with_padding-unpadded (a ∷ b ∷ c ∷ image) =
    with_padding-four 4 _ _ _ _ (unpadded image)
    ∙ cons_eq refl (cons_eq refl (cons_eq refl (cons_eq refl (with_padding-unpadded image))))

-- An image is encoded as the standard's Base64, with its padding, whatever its length: that `val` overflows
-- from the fourth byte on changes nothing.
pub base64-standard : (image : Text) → All (λ c. c < 256) image → base64 image ≡ standard image
unfolding base64
base64-standard image h =
    ap (with_padding 4) (encode_from-unpadded 0 image h) ∙ with_padding-unpadded image
