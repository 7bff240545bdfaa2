-- ===== src/Annotation/Found.antt =====
-- The block at the front of a text, and behind a text without tags.
use llama_cli.Base.Search.{
  shift, find_from_behind, find-append_Lacks, find_self, find_first, find_from_zero, take_front,
  drop_front,
}
use llama_cli.Annotation.Block.{block_at, find_block, open_start, close_tag}
use llama_cli.Base.{
  ℕ, ◌+◌, ◌-◌, ◌≡◌, ap, ◌∙◌, ◌≢◌, some, [], ◌∷◌, ◌++◌, append_assoc, arith, length, length-append,
  All-append, Text, codes, find, find_from, Lacks,
}

module _ (tag_name more content rest : Text) where
  -- an opening tag up to its `>`
  abbrev pub front : Text
  front = b'<' ∷ (tag_name ++ more)

  abbrev pub opening_of : Text
  opening_of = front ++ codes ">"

  abbrev pub block_text : Text
  block_text = opening_of ++ (content ++ (close_tag tag_name ++ rest))

  abbrev pub block_size : ℕ
  block_size = length opening_of + length content + length (close_tag tag_name)

  regroup :
      block_text
      ≡ open_start tag_name ++ (more ++ (codes ">" ++ (content ++ (close_tag tag_name ++ rest))))
  regroup = ap (◌∷◌ b'<') (simp append_assoc)

  regroup_front : block_text ≡ front ++ (codes ">" ++ (content ++ (close_tag tag_name ++ rest)))
  regroup_front = append_assoc front (codes ">") (content ++ (close_tag tag_name ++ rest))

  size_opening : length front + 1 ≡ length opening_of
  size_opening = omega (arith, length-append {0} front (codes ">"))

  opening_found : find_from (open_start tag_name) block_text 0 ≡ some 0
  opening_found =
      find_from_zero (open_start tag_name) block_text
      ∙ ap (find (open_start tag_name)) regroup
      ∙ find_self (open_start tag_name)
          (more ++ (codes ">" ++ (content ++ (close_tag tag_name ++ rest))))

  bracket_found :
      Lacks b'>' tag_name
      → Lacks b'>' more
      → find_from (codes ">") block_text 0 ≡ some (length front)
  bracket_found no_gt no_gt' =
      let tail = content ++ (close_tag tag_name ++ rest) in
      find_from_zero (codes ">") block_text
      ∙ ap (find (codes ">")) regroup_front
      ∙ find-append_Lacks b'>' [] front (codes ">" ++ tail)
          (omega arith, All-append (λ c. c ≢ b'>') tag_name more no_gt no_gt')
      ∙ ap (shift (length front)) (find_self (codes ">") tail)
      ∙ ap some (omega arith)

  closing_found :
      find (close_tag tag_name) (content ++ close_tag tag_name) ≡ some (length content)
      → find_from (close_tag tag_name) block_text (length front + 1)
        ≡ some (length opening_of + length content)
  closing_found first =
      find_from_behind (close_tag tag_name) opening_of (content ++ (close_tag tag_name ++ rest))
        (length front + 1) size_opening
      ∙ ap (shift (length opening_of)) (find_first (close_tag tag_name) content rest first)

  block_at_here :
      block_at block_text tag_name 0 0 (length front) (length opening_of + length content)
      ≡ some (record { start = 0; next = block_size; opening = opening_of; content = content })
  unfolding block_at
  block_at_here =
      let tail = content ++ (close_tag tag_name ++ rest) in
      rw
        (
          take_front (length front - 0 + 1) opening_of tail (omega (arith, size_opening)),
          drop_front (length front + 1) opening_of tail size_opening,
          take_front (length opening_of + length content - (length front + 1)) content
              (close_tag tag_name ++ rest) (omega (arith, size_opening)),
        )
        (ground arith)

  pub find_block_here :
      Lacks b'>' tag_name
      → Lacks b'>' more
      → find (close_tag tag_name) (content ++ close_tag tag_name) ≡ some (length content)
      → find_block block_text tag_name 0
        ≡ some (record { start = 0; next = block_size; opening = opening_of; content = content })
  unfolding find_block
  find_block_here no_gt no_gt' first =
      rw (opening_found, bracket_found no_gt no_gt', closing_found first) block_at_here
