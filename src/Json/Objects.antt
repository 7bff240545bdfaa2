-- ===== src/Json/Objects.antt =====
-- Extracting a nested object: the braces that strings hold do not count.
use llama_cli.Json.Escape.{escape_json}
use llama_cli.Json.Scan.{is_space}
use llama_cli.Json.Braces.{walk, extract_braced, json_extract_object}
use llama_cli.Json.RoundTrip.{
  keyed, IsFirst, value_pos, drop_value, find_key_value-keyed, blanks_end,
}
use llama_cli.Json.Reading.{char_here, size_left, escape_kind, plain, pair, unicode}
use llama_cli.Base.Int.{ℤ, pos}
use llama_cli.Base.{
  ℕ, suc, ◌+◌, ◌-◌, ◌≡◌, refl, sym, ap, ◌∙◌, ◌≢◌, true, false, some, [], ◌∷◌, ◌++◌, append_assoc,
  arith, ne→beq, length, drop, length-append, take-length-append, All, Text,
}

-- What may stand between the quotes of a string.
pub data Contents : Text → Type 0 where
  nil : Contents []
  char : {c : ℕ} {s : Text} → c ≢ b'"' → c ≢ b'\\' → Contents s → Contents (c ∷ s)
  escape : {c : ℕ} {s : Text} → Contents s → Contents (b'\\' ∷ c ∷ s)

-- What may stand between the braces of an object: bytes other than braces and quotes, whole
-- strings, and whole objects.
pub data Balanced : Text → Type 0 where
  nil : Balanced []
  char : {c : ℕ} {s : Text} → c ≢ b'"' → c ≢ b'{' → c ≢ b'}' → Balanced s → Balanced (c ∷ s)
  quoted : {q s : Text} → Contents q → Balanced s → Balanced (b'"' ∷ (q ++ b'"' ∷ s))
  nested : {s t : Text} → Balanced s → Balanced t → Balanced (b'{' ∷ (s ++ b'}' ∷ t))

walk-Contents :
    {q : Text} (t : Text) (i j : ℕ) (depth : ℤ)
    → Contents q
    → i + length q + 1 ≡ j
    → walk (q ++ b'"' ∷ t) i depth true false ≡ walk t j depth false false
unfolding walk
walk-Contents t i j depth Contents.nil at = ap (λ k. walk t k depth false false) (omega (arith, at))
walk-Contents t i j depth (Contents.char {c} {s} ne ne' h) at =
    rw (ne→beq c b'"' ne, ne→beq c b'\\' ne', walk)
      (walk-Contents t (1 + i) j depth h (omega arith))
walk-Contents t i j depth (Contents.escape {c} {s} h) at =
    walk-Contents t (1 + (1 + i)) j depth h (omega arith)

walk-Balanced :
    {s : Text} (t : Text) (i j d : ℕ)
    → Balanced s
    → i + length s ≡ j
    → walk (s ++ t) i (pos (suc d)) false false ≡ walk t j (pos (suc d)) false false
unfolding walk
walk-Balanced t i j d Balanced.nil at =
    ap (λ k. walk t k (pos (suc d)) false false) (omega (arith, at))
walk-Balanced t i j d (Balanced.char {c} {s} ne ne' ne'' h) at =
    rw (ne→beq c b'"' ne, ne→beq c b'{' ne', ne→beq c b'}' ne'', walk)
      (walk-Balanced t (1 + i) j d h (omega arith))
walk-Balanced t i j d (quoted {q} {s} hq h) at = rw (append_assoc q (b'"' ∷ s) t) (
    walk-Contents (s ++ t) (1 + i) (1 + i + length q + 1) (pos (suc d)) hq refl
    ∙ walk-Balanced t (1 + i + length q + 1) j d h (omega (arith, length-append q (b'"' ∷ s))))
walk-Balanced t i j d (nested {s} {t = u} h hu) at = rw (append_assoc s (b'}' ∷ u) t) (
    walk-Balanced (b'}' ∷ (u ++ t)) (1 + i) (1 + i + length s) (suc d) h refl
    ∙ walk-Balanced t (1 + (1 + i + length s)) j d hu (omega (arith, length-append s (b'}' ∷ u))))

extract_braced-Balanced :
    (json : Text) (i : ℕ) (s rest : Text)
    → drop i json ≡ b'{' ∷ (s ++ b'}' ∷ rest)
    → Balanced s
    → extract_braced json i ≡ b'{' ∷ (s ++ b'}' ∷ [])
unfolding extract_braced
extract_braced-Balanced json i s rest h bal =
    let closing : walk (drop i json) i (pos 0) false false ≡ some (i + length s + 1) =
      rw (h, walk) (walk-Balanced (b'}' ∷ rest) (1 + i) (i + length s + 1) 0 bal (omega arith)) in
    rw (closing, h, extract_braced)
      (let whole : b'{' ∷ (s ++ b'}' ∷ rest) ≡ (b'{' ∷ (s ++ b'}' ∷ [])) ++ rest =
          ap (◌∷◌ b'{') (sym (append_assoc s (b'}' ∷ []) rest)) in
        let size : i + length s + 1 - i + 1 ≡ length (b'{' ∷ (s ++ b'}' ∷ [])) =
          omega (arith, length-append s (b'}' ∷ [])) in
        rw (whole, size) (take-length-append (b'{' ∷ (s ++ b'}' ∷ [])) rest))

-- The whole nested object behind a key is extracted, whatever braces its strings hold.
pub extract_object-Balanced :
    (pre key ws s rest : Text)
    → IsFirst pre key
    → All (λ c. is_space c ≡ true) ws
    → Balanced s
    → json_extract_object (keyed pre key ws (b'{' ∷ (s ++ b'}' ∷ rest))) key
      ≡ b'{' ∷ (s ++ b'}' ∷ [])
unfolding json_extract_object
extract_object-Balanced pre key ws s rest first h bal =
    rw
      (
        find_key_value-keyed pre key ws (b'{' ∷ (s ++ b'}' ∷ rest)) first h
            (blanks_end b'{' (s ++ b'}' ∷ rest) refl),
        json_extract_object,
      )
      (let at = drop_value pre key ws (b'{' ∷ (s ++ b'}' ∷ rest)) in
        rw
          (extract_braced-Balanced (keyed pre key ws (b'{' ∷ (s ++ b'}' ∷ rest)))
            (value_pos pre key ws) s rest at bal)
          (ground (
            arith,
            char_here (keyed pre key ws (b'{' ∷ (s ++ b'}' ∷ rest))) (value_pos pre key ws) at,
            size_left (keyed pre key ws (b'{' ∷ (s ++ b'}' ∷ rest))) (value_pos pre key ws) at,
          )))

-- A string that `escape_json` wrote may stand in an object.
pub escape_json-Contents : (v : Text) → Contents (escape_json v)
unfolding escape_json
escape_json-Contents [] = Contents.nil
escape_json-Contents (c ∷ v) = elim (escape_kind c) [
  | plain w ne ne' ↦ rw w (Contents.char ne ne' (escape_json-Contents v))
  | pair x w m ↦ rw w (Contents.escape (escape_json-Contents v))
  | unicode w small ↦ rw w (
      Contents.escape (
        Contents.char (omega arith) (omega arith) (
          Contents.char (omega arith) (omega arith) (
            Contents.char (ground arith) (ground arith)
              (Contents.char (ground arith) (ground arith) (escape_json-Contents v))))))
]
