-- ===== src/Json/RoundTrip.antt =====
-- `json_extract_string` and `json_extract_int` on a text that holds the key with its value.
use llama_cli.Json.Scan.{find_key_value, needle, skip_ws, blanks, is_space}
use llama_cli.Json.Escape.{escape_json}
use llama_cli.Json.Strings.{extract_at, json_extract_string}
use llama_cli.Json.Numbers.{json_extract_int, read_int, is_digit, max_int}
use llama_cli.Json.Reading.{read-escape_json, char_here, IsEven-after, drop-step, size_left}
use llama_cli.Base.Search.{find_first, find_from_zero}
use llama_cli.Base.{
  ℕ, ◌+◌, ◌-◌, ◌*◌, ◌≤◌, ◌≡◌, refl, sym, ap, ◌∙◌, inl, inr, true, false, Option, none, some, [],
  ◌∷◌, ◌++◌, arith, leb, if◌then◌else◌, leb→le, Bool-cases, length, drop, length-append,
  drop-length-append, drop-drop, All, Text, find,
}

blanks-append :
    (ws s : Text) → All (λ c. is_space c ≡ true) ws → blanks s ≡ 0 → blanks (ws ++ s) ≡ length ws
unfolding blanks
blanks-append [] s h e = e
blanks-append (c ∷ ws) s (hc, h) e = rw (hc, blanks-append ws s h e) (omega arith)

pub blanks_end : (c : ℕ) (s : Text) → is_space c ≡ false → blanks (c ∷ s) ≡ 0
unfolding blanks
blanks_end c s h = rw h

-- The value's position, behind white space.
abbrev pub value_pos : Text → Text → Text → ℕ
value_pos pre key ws = length pre + length (needle key) + length ws

-- The key stands behind `pre` for the first time.
abbrev pub IsFirst : Text → Text → Type 0
IsFirst pre key = find (needle key) (pre ++ needle key) ≡ some (length pre)

abbrev pub keyed : Text → Text → Text → Text → Text
keyed pre key ws s = pre ++ (needle key ++ (ws ++ s))

module _ (pre key ws s : Text) where
  pub drop_value : drop (value_pos pre key ws) (keyed pre key ws s) ≡ s
  drop_value =
      sym (drop-drop (length ws) (length pre + length (needle key)) (keyed pre key ws s))
      ∙ ap (drop (length ws)) (
          sym (drop-drop (length (needle key)) (length pre) (keyed pre key ws s))
          ∙ ap (drop (length (needle key))) (drop-length-append pre (needle key ++ (ws ++ s)))
          ∙ drop-length-append (needle key) (ws ++ s))
      ∙ drop-length-append ws s

  pub find_key_value-keyed :
      IsFirst pre key
      → All (λ c. is_space c ≡ true) ws
      → blanks s ≡ 0
      → find_key_value (keyed pre key ws s) key ≡ some (value_pos pre key ws)
  unfolding find_key_value skip_ws
  find_key_value-keyed first h e =
      rw
        (
          find_from_zero (needle key) (keyed pre key ws s),
          find_first (needle key) pre (ws ++ s) first,
        )
        (ap some (
          let at : drop (length pre + length (needle key)) (keyed pre key ws s) ≡ ws ++ s =
            sym (drop-drop (length (needle key)) (length pre) (keyed pre key ws s))
            ∙ ap (drop (length (needle key))) (drop-length-append pre (needle key ++ (ws ++ s)))
            ∙ drop-length-append (needle key) (ws ++ s) in
          rw (at, blanks-append ws s h e)))

-- At an opening quote.
extract_at-quoted :
    (json : Text) (i : ℕ) (v rest : Text)
    → drop i json ≡ b'"' ∷ (escape_json v ++ b'"' ∷ rest)
    → extract_at json i ≡ some v
unfolding extract_at
extract_at-quoted json i v rest h =
    rw (in_text json i h, char_here json i h)
      (read-escape_json json v rest (length json - (i + 1)) (i + 1) [] (drop-step json i 1 h)
        (IsEven-after json i b'"' (char_here json i h) (omega arith))
        (omega (arith, size_left json i h, length-append {0} (escape_json v) (b'"' ∷ rest))))
  where
    in_text :
        (json : Text) (i : ℕ) {c : ℕ} {s : Text} → drop i json ≡ c ∷ s → leb (length json) i ≡ false
    in_text json i h = ground (arith, size_left json i h)

-- the number that digits spell behind `n`, with no bound
abbrev pub value : ℕ → Text → ℕ
value n [] = n
value n (c ∷ s) = value (n * 10 + (c - b'0')) s

le-value : (s : Text) (n : ℕ) → n ≤ value n s
le-value [] n = omega arith
le-value (c ∷ s) n = omega (arith, le-value s (n * 10 + (c - b'0')))

abbrev pub EndsNumber : Text → Type 0
EndsNumber [] = Unit
EndsNumber (c ∷ s) = is_digit c ≡ false

-- Either the whole value fits, or the loop overflows.
abbrev pub checked : ℕ → Option ℕ
checked n = if leb n max_int then some n else none

read_int-value :
    (ds rest : Text) (n : ℕ)
    → All (λ c. is_digit c ≡ true) ds
    → EndsNumber rest
    → n ≤ max_int
    → read_int (ds ++ rest) n ≡ checked (value n ds)
unfolding read_int
read_int-value [] [] n h e fits = ground arith
read_int-value [] (c ∷ rest) n h e fits = rw (e, read_int) (ground arith)
read_int-value (c ∷ ds) rest n (hc, h) e fits =
    let m = n * 10 + (c - b'0') in
    elim (Bool-cases (leb m max_int)) [
      | inl ok ↦ rw (hc, ok, read_int) (read_int-value ds rest m h e (leb→le m max_int ok))
      | inr over ↦ rw (hc, over, read_int) (ground (arith, le-value ds m))
    ]

module _ (pre key ws rest : Text) where
  -- A value that `escape_json` wrote behind its key is extracted byte for byte, and nothing is
  -- thrown: the key's first occurrence is the one in question, white space may stand before the
  -- value, and anything may follow it.
  pub extract-escape :
      (v : Text)
      → IsFirst pre key
      → All (λ c. is_space c ≡ true) ws
      → json_extract_string (keyed pre key ws (b'"' ∷ (escape_json v ++ b'"' ∷ rest))) key ≡ some v
  unfolding json_extract_string
  extract-escape v first h =
      rw
        (
          find_key_value-keyed pre key ws (b'"' ∷ (escape_json v ++ b'"' ∷ rest)) first h
              (blanks_end b'"' (escape_json v ++ b'"' ∷ rest) refl),
          json_extract_string,
        )
        (extract_at-quoted (keyed pre key ws (b'"' ∷ (escape_json v ++ b'"' ∷ rest)))
          (value_pos pre key ws) v rest
          (drop_value pre key ws (b'"' ∷ (escape_json v ++ b'"' ∷ rest))))

  -- The digits behind a key are extracted as the number that they spell, up to the first byte that
  -- is no digit, if that number is an `int`; any larger number overflows.
  pub extract_int-value :
      (d : ℕ) (ds : Text)
      → IsFirst pre key
      → All (λ c. is_space c ≡ true) ws
      → All (λ c. is_digit c ≡ true) (d ∷ ds)
      → EndsNumber rest
      → json_extract_int (keyed pre key ws (d ∷ (ds ++ rest))) key
        ≡ (if leb (value 0 (d ∷ ds)) max_int then some (value 0 (d ∷ ds)) else none)
  unfolding json_extract_int
  extract_int-value d ds first h digits e =
      rw
        (
          find_key_value-keyed pre key ws (d ∷ (ds ++ rest)) first h
              (blanks_end d (ds ++ rest) (ground arith)),
          drop_value pre key ws (d ∷ (ds ++ rest)),
          json_extract_int,
        )
        (read_int-value (d ∷ ds) rest 0 digits e (omega arith))
