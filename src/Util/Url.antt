-- ===== src/Util/Url.antt =====
-- Decoding what `url_encode` writes.
use llama_cli.Util.Encode.{is_letter, is_unreserved, hex_upper, url_byte, url_encode}
use llama_cli.Base.{
  ℕ, ◌+◌, ◌-◌, ◌*◌, ◌/◌, ◌%◌, ◌<◌, ◌≡◌, refl, sym, ap, ◌∙◌, ◌≢◌, inl, inr, true, false, [], ◌∷◌,
  ◌++◌, arith, leb, ◌==◌, if◌then◌else◌, ne→beq, beq→eq, Bool-cases, All, Text,
}

-- the value of a hexadecimal digit in upper case
unfoldable pub hex_value : ℕ → ℕ
hex_value c = if leb c b'9' then c - b'0' else c - b'A' + 10

pub data Place : Type 0 where
  outside : Place
  first_digit : Place
  second_digit : ℕ → Place

-- The decoding of a form's text: a plus sign is a blank, `%XX` is a byte, and an unfinished one is
-- dropped.
unfoldable pub url_decode : Place → Text → Text
url_decode place [] = []
url_decode outside (c ∷ s) = elim (c == b'%') [
  | true ↦ url_decode first_digit s
  | false ↦ (if c == b'+' then b' ' else c) ∷ url_decode outside s
]
url_decode first_digit (d ∷ s) = url_decode (second_digit (hex_value d)) s
url_decode (second_digit h) (d ∷ s) = (h * 16 + hex_value d) ∷ url_decode outside s

-- The text is one of bytes.
abbrev pub IsBytes : Text → Type 0
IsBytes s = All (λ c. c < 256) s

hex_value-hex_upper : (d : ℕ) → d < 16 → hex_value (hex_upper d) ≡ d
unfolding hex_value hex_upper
hex_value-hex_upper d h = ground arith

unreserved_stays : (c : ℕ) → is_unreserved c ≡ true → (c ≢ b'%') × (c ≢ b'+')
unfolding is_unreserved is_letter
unreserved_stays c h = (
  λ e. let no : is_unreserved b'%' ≡ true = ap is_unreserved (sym e) ∙ h in cc,
  λ e. let no : is_unreserved b'+' ≡ true = ap is_unreserved (sym e) ∙ h in cc,
)

url_decode-url_byte :
    (c : ℕ) (s : Text) → c < 256 → url_decode outside (url_byte c ++ s) ≡ c ∷ url_decode outside s
unfolding url_byte url_decode
url_decode-url_byte c s lt = elim (Bool-cases (c == b' ')) [
  | inl blank ↦ rw (beq→eq c b' ' blank) refl
  | inr ink ↦ elim (Bool-cases (is_unreserved c)) [
    | inl plain ↦
        let (percent, plus) = unreserved_stays c plain in
        rw (ink, url_byte)
          (rw plain (rw (ne→beq c b'%' percent, url_decode) (rw (ne→beq c b'+' plus))))
    | inr coded ↦
        rw (ink, url_byte)
          (rw coded (
            ap (λ k. k ∷ url_decode outside s)
              (omega (
                arith,
                hex_value-hex_upper (c / 16) (omega arith),
                hex_value-hex_upper (c % 16) (omega arith),
              ))))
  ]
]

-- Decoding an encoded text of bytes gives it back.
pub url_decode-url_encode : (s : Text) → IsBytes s → url_decode outside (url_encode s) ≡ s
unfolding url_encode url_decode
url_decode-url_encode [] bytes = refl
url_decode-url_encode (c ∷ s) (lt, bytes) =
    url_decode-url_byte c (url_encode s) lt ∙ ap (◌∷◌ c) (url_decode-url_encode s bytes)
