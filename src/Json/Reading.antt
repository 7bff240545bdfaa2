-- ===== src/Json/Reading.antt =====
-- Reading a string back that `escape_json` has written, at any position of a longer text.
use llama_cli.Json.Escape.{escape_byte, escape_json, hex_digit}
use llama_cli.Json.Strings.{
  read_string, read_char, decode_escape, decode_unicode_escape, escape_map, backslashes,
  is_end_quote,
}
use llama_cli.Json.Hex.{stoul-digits}
use native.Mathlib.Numerals.{add-one}
use llama_cli.Base.{
  ℕ, zero, suc, ◌+◌, ◌-◌, ◌/◌, ◌%◌, ◌≤◌, ◌<◌, ◌≡◌, refl, sym, ap, ◌∙◌, ◌≢◌, inl, inr, false, some,
  [], ◌∷◌, ◌++◌, append-nil, append_assoc, arith, leb, ◌==◌, ne→beq, beq→eq, Bool-cases, length,
  drop, length-append, length-drop, drop-drop, get_or-drop, Text, char_at,
}

-- The three forms in which `escape_json` writes a byte.
pub data EscapeKind (c : ℕ) : Type 0 where
  plain : escape_byte c ≡ c ∷ [] → c ≢ b'"' → c ≢ b'\\' → EscapeKind c
  pair : (x : ℕ) → escape_byte c ≡ b'\\' ∷ x ∷ [] → escape_map x ≡ some c → EscapeKind c
  unicode :
      escape_byte c ≡ b'\\' ∷ b'u' ∷ b'0' ∷ b'0' ∷ hex_digit (c / 16) ∷ hex_digit (c % 16) ∷ []
      → c ≤ 31
      → EscapeKind c

pub escape_kind : (c : ℕ) → EscapeKind c
unfolding escape_byte
escape_kind c = elim (Bool-cases (c == b'"')) [
  | inl e ↦ pair b'"' (ground arith) (ground arith)
  | inr e₁ ↦ elim (Bool-cases (c == b'\\')) [
    | inl e ↦ pair b'\\' (ground arith) (ground arith)
    | inr e₂ ↦ elim (Bool-cases (c == 8)) [
      | inl e ↦ pair b'b' (ground arith) (ground arith)
      | inr e₃ ↦ elim (Bool-cases (c == 12)) [
        | inl e ↦ pair b'f' (ground arith) (ground arith)
        | inr e₄ ↦ elim (Bool-cases (c == b'\n')) [
          | inl e ↦ pair b'n' (ground arith) (ground arith)
          | inr e₅ ↦ elim (Bool-cases (c == b'\r')) [
            | inl e ↦ pair b'r' (ground arith) (ground arith)
            | inr e₆ ↦ elim (Bool-cases (c == b'\t')) [
              | inl e ↦ pair b't' (ground arith) (ground arith)
              | inr e₇ ↦ elim (Bool-cases (leb c 31)) [
                | inl e ↦ unicode (ground arith) (ground arith)
                | inr e ↦ plain (ground arith) (ground arith) (ground arith)
              ]
            ]
          ]
        ]
      ]
    ]
  ]
]

escape_byte_pos : (c : ℕ) → 0 < length (escape_byte c)
unfolding escape_byte
escape_byte_pos c = ground arith

module _ (json : Text) where
  char_at-drop : (i k : ℕ) {s : Text} → drop i json ≡ s → char_at json (i + k) ≡ char_at s k
  char_at-drop i k h = get_or-drop i k json 0 ∙ ap (λ t. char_at t k) h

  pub char_here : (i : ℕ) {c : ℕ} {s : Text} → drop i json ≡ c ∷ s → char_at json i ≡ c
  char_here i h = ap (char_at json) (let e : i ≡ i + 0 = omega arith in e) ∙ char_at-drop i 0 h

  pub drop-step : (i k : ℕ) {s : Text} → drop i json ≡ s → drop (i + k) json ≡ drop k s
  drop-step i k h = sym (drop-drop k i json) ∙ ap (drop k) h

  pub size_left : (i : ℕ) {s : Text} → drop i json ≡ s → length s ≡ length json - i
  size_left i h = ap length (sym h) ∙ length-drop i json

  not_behind :
      (i k : ℕ) (s : Text) → drop i json ≡ s → k < length s → leb (length json) (i + k) ≡ false
  not_behind i k s h lt = ground (arith, size_left i h)

  abbrev pub IsEven : ℕ → Type 0
  IsEven i = backslashes json i % 2 ≡ 0

  pub IsEven-after : (i : ℕ) (c : ℕ) → char_at json i ≡ c → c ≢ b'\\' → IsEven (i + 1)
  unfolding backslashes
  IsEven-after i c h ne = rw add-one (ground arith)

  IsEven-after_two :
      (i : ℕ)
      → char_at json i ≡ b'\\'
      → char_at json (i + 1) ≡ b'\\'
      → IsEven i
      → IsEven (i + 1 + 1)
  unfolding backslashes
  IsEven-after_two i h h' e =
      let h'' : char_at json (suc i) ≡ b'\\' = rw add-one at h' in
      rw (add-one, add-one) (ground (arith, h''))

  read_step :
      (rounds i j : ℕ) (result later : Text)
      → i < length json
      → is_end_quote json i ≡ false
      → read_char json i result ≡ some (j, later)
      → read_string json (suc rounds) i result ≡ read_string json rounds j later
  unfolding read_string
  read_step rounds i j result later h q e = ground (arith, q, e)

  not_end : (i c : ℕ) → char_at json i ≡ c → c ≢ b'"' → is_end_quote json i ≡ false
  unfolding is_end_quote
  not_end i c h ne = rw (h, ne→beq _ _ ne)

  read_plain :
      (rounds i : ℕ) (result : Text) (c : ℕ) (s : Text)
      → drop i json ≡ c ∷ s
      → c ≢ b'"'
      → c ≢ b'\\'
      → read_string json (suc rounds) i result ≡ read_string json rounds (i + 1) (result ++ c ∷ [])
  unfolding read_char
  read_plain rounds i result c s h ne ne' =
      read_step rounds i (i + 1) result (result ++ c ∷ []) (omega (arith, size_left i h))
        (not_end i c (char_here i h) ne) (rw (char_here i h, ne→beq _ _ ne'))

  read_escape :
      (rounds i skip c : ℕ) (result s : Text)
      → drop i json ≡ b'\\' ∷ s
      → decode_escape json i ≡ some (suc skip, c ∷ [])
      → read_string json (suc rounds) i result
        ≡ read_string json rounds (i + suc skip + 1) (result ++ c ∷ [])
  unfolding read_char
  read_escape rounds i skip c result s h e =
      read_step rounds i (i + suc skip + 1) result (result ++ c ∷ []) (omega (arith, size_left i h))
        (not_end i b'\\' (char_here i h) (omega arith)) (ground (arith, char_here i h, e))

  decode_pair :
      (i x c : ℕ) (s : Text)
      → drop i json ≡ b'\\' ∷ x ∷ s
      → escape_map x ≡ some c
      → decode_escape json i ≡ some (1, c ∷ [])
  unfolding decode_escape
  decode_pair i x c s h m =
      rw (not_behind i 1 (b'\\' ∷ x ∷ s) h (omega arith), char_at-drop i 1 h, m)

  decode_unicode :
      (i c : ℕ) (s : Text)
      → drop i json ≡ b'\\' ∷ b'u' ∷ b'0' ∷ b'0' ∷ hex_digit (c / 16) ∷ hex_digit (c % 16) ∷ s
      → c ≤ 31
      → 0 < length s
      → decode_escape json i ≡ some (5, c ∷ [])
  unfolding decode_escape decode_unicode_escape
  decode_unicode i c s h small more =
      rw (not_behind i 1 _ h (omega arith), char_at-drop i 1 h, not_behind i 5 _ h (omega arith))
        (rw (drop-step i 2 h, stoul-digits c small) (ground (arith, char_at-drop i 1 h)))

  read_end :
      (rounds i : ℕ) (result s : Text)
      → drop i json ≡ b'"' ∷ s
      → IsEven i
      → read_string json rounds i result ≡ some result
  unfolding read_string is_end_quote
  read_end zero i result s h e = refl
  read_end (suc rounds) i result s h e = ground (arith, char_here i h)

  IsEven-pair : (i x : ℕ) {s : Text} → drop i json ≡ b'\\' ∷ x ∷ s → IsEven i → IsEven (i + 1 + 1)
  IsEven-pair i x h e = elim (Bool-cases (x == b'\\')) [
    | inl y ↦ IsEven-after_two i (char_here i h) (char_at-drop i 1 h ∙ beq→eq _ _ y) e
    | inr n ↦ IsEven-after (i + 1) x (char_at-drop i 1 h) (ground arith)
  ]

  -- The bytes of a written string, read from the place where they stand.
  pub read-escape_json :
      (v s : Text) (rounds i : ℕ) (result : Text)
      → drop i json ≡ escape_json v ++ b'"' ∷ s
      → IsEven i
      → length (escape_json v) ≤ rounds
      → read_string json rounds i result ≡ some (result ++ v)
  unfolding escape_json
  read-escape_json [] s rounds i result h e fits = read_end rounds i result s h e ∙ rw append-nil
  read-escape_json (c ∷ v) s zero i result h e fits =
      absurd (omega (arith, length-append {0} (escape_byte c) (escape_json v), escape_byte_pos c))
  read-escape_json (c ∷ v) s (suc rounds) i result h e fits = elim (escape_kind c) [
    | plain w ne ne' ↦
        let at : drop i json ≡ c ∷ (escape_json v ++ b'"' ∷ s) =
          h ∙ ap (λ t. (t ++ escape_json v) ++ b'"' ∷ s) w in
        read_plain rounds i result c _ at ne ne'
        ∙ read-escape_json v s rounds (i + 1) (result ++ c ∷ []) (drop-step i 1 at)
            (IsEven-after i c (char_here i at) ne') (ground (arith, w))
        ∙ rw append_assoc
    | pair x w m ↦
        let at : drop i json ≡ b'\\' ∷ x ∷ (escape_json v ++ b'"' ∷ s) =
          h ∙ ap (λ t. (t ++ escape_json v) ++ b'"' ∷ s) w in
        read_escape rounds i 0 c result _ at (decode_pair i x c _ at m)
        ∙ read-escape_json v s rounds (i + 1 + 1) (result ++ c ∷ [])
            (drop-step (i + 1) 1 (drop-step i 1 at)) (IsEven-pair i x at e) (ground (arith, w))
        ∙ rw append_assoc
    | unicode w small ↦
        let at : drop i json
            ≡ b'\\'
              ∷ b'u'
              ∷ b'0'
              ∷ b'0'
              ∷ hex_digit (c / 16)
              ∷ hex_digit (c % 16)
              ∷ (escape_json v ++ b'"' ∷ s) =
          h ∙ ap (λ t. (t ++ escape_json v) ++ b'"' ∷ s) w in
        read_escape rounds i 4 c result _ at (
          decode_unicode i c _ at small
            (omega (arith, length-append {0} (escape_json v) (b'"' ∷ s))))
        ∙ read-escape_json v s rounds (i + 5 + 1) (result ++ c ∷ [])
            (drop-step (i + 5) 1 (drop-step i 5 at))
            (IsEven-after (i + 5) (hex_digit (c % 16)) (char_at-drop i 5 at) (ground arith))
            (ground (arith, w))
        ∙ rw append_assoc
  ]
