-- ===== src/Annotation/Attr.antt =====
-- The value of an attribute, and blocks that are found from a later position.
use llama_cli.Base.Search.{
  shift, find_from_behind, find-append_Lacks, find_self, find_from_zero, take_front, drop_front,
}
use llama_cli.Annotation.Block.{Block, block_at, find_block, open_start, close_tag, attr}
use llama_cli.Base.{
  ℕ, ◌+◌, ◌-◌, ◌≡◌, sym, ap, ◌∙◌, some, [], ◌∷◌, ◌++◌, append_assoc, arith, >>=-eq-some, length,
  take, length-append, Text, codes, substr, find_from, Lacks,
}

module _ (head : Text) (x : ℕ) (n value rest : Text) where
  abbrev pub key : Text
  key = (x ∷ n) ++ codes "=\""

  abbrev pub tag : Text
  tag = head ++ (key ++ (value ++ (codes "\"" ++ rest)))

  -- An attribute's value is what stands between its quotes.
  pub attr_here : Lacks x head → Lacks b'"' value → attr tag (x ∷ n) ≡ value
  unfolding attr
  attr_here no_x no_quote = rw (key_found, attr) (rw (value_end, attr) value_taken)
    where
      size : length head + 0 + length key ≡ length (head ++ key)
      size = omega (arith, length-append {0} head key)

      key_found : find_from key tag 0 ≡ some (length head + 0)
      key_found =
          find_from_zero key tag
          ∙ find-append_Lacks x (n ++ codes "=\"") head (key ++ (value ++ (codes "\"" ++ rest)))
              no_x
          ∙ ap (shift (length head)) (find_self key (value ++ (codes "\"" ++ rest)))

      value_end :
          find_from (codes "\"") tag (length head + 0 + length key)
          ≡ some (length (head ++ key) + (length value + 0))
      value_end =
          ap (λ t. find_from (codes "\"") t (length head + 0 + length key))
            (sym (append_assoc head key (value ++ (codes "\"" ++ rest))))
          ∙ find_from_behind (codes "\"") (head ++ key) (value ++ (codes "\"" ++ rest))
              (length head + 0 + length key) size
          ∙ ap (shift (length (head ++ key))) (
              find-append_Lacks b'"' [] value (codes "\"" ++ rest) no_quote
              ∙ ap (shift (length value)) (find_self (codes "\"") rest))

      value_taken :
          substr tag
            (length head + 0 + length key)
            (length (head ++ key) + (length value + 0) - (length head + 0 + length key))
          ≡ value
      value_taken =
          ap
            (λ t.
              substr t (length head + 0 + length key)
                (length (head ++ key) + (length value + 0) - (length head + 0 + length key)))
            (sym (append_assoc head key (value ++ (codes "\"" ++ rest))))
          ∙ ap (take (length (head ++ key) + (length value + 0) - (length head + 0 + length key))) (
              drop_front (length head + 0 + length key) (head ++ key)
                (value ++ (codes "\"" ++ rest)) size)
          ∙ take_front _ value (codes "\"" ++ rest) (omega (arith, size))

-- A block that is found from a later position is found from the start, if nothing opens before it.
pub find_block_later :
    (text tag_name : Text) (k : ℕ) (b : Block)
    → find_from (open_start tag_name) text 0 ≡ find_from (open_start tag_name) text k
    → find_block text tag_name k ≡ some b
    → find_block text tag_name 0 ≡ some b
unfolding find_block block_at
find_block_later text tag_name k b same h =
    let (start, e₁, h₁) = >>=-eq-some (find_from (open_start tag_name) text k) _ h in
    let (tag_end, e₂, h₂) = >>=-eq-some (find_from (codes ">") text start) _ h₁ in
    let (content_end, e₃, h₃) =
      >>=-eq-some (find_from (close_tag tag_name) text (tag_end + 1)) _ h₂ in
    rw (same, e₁, e₂, e₃) (ground arith)
