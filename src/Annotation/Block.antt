-- ===== src/Annotation/Block.antt =====
-- src/annotation/annotation.cpp: `attr`, `find_block` and `child_content`.
use llama_cli.Base.{
  ℕ, ◌+◌, ◌-◌, Option, none, some, [], ◌∷◌, ◌++◌, leb, if◌then◌else◌, ◌>>=◌, length, Text, codes,
  substr, find_from,
}

-- the value of an attribute of an opening tag, empty if there is none
unfoldable pub attr : Text → Text → Text
attr tag name =
    let key = name ++ codes "=\"" in
    elim (find_from key tag 0) [
      | none ↦ []
      | some at ↦ elim (find_from (codes "\"") tag (at + length key)) [
        | none ↦ []
        | some end ↦ substr tag (at + length key) (end - (at + length key))
      ]
    ]

pub record Block : Type 0 where
  pub start : ℕ
  pub next : ℕ
  pub opening : Text
  pub content : Text

abbrev pub open_start : Text → Text
open_start tag_name = b'<' ∷ tag_name

abbrev pub close_tag : Text → Text
close_tag tag_name = b'<' ∷ b'/' ∷ (tag_name ++ b'>' ∷ [])

-- the block between these positions, unless it would not move `pos` forward
unfoldable pub block_at : Text → Text → ℕ → ℕ → ℕ → ℕ → Option Block
block_at text tag_name pos start tag_end content_end =
    if leb (content_end + length (close_tag tag_name)) pos
    then none
    else some (record {
      start = start;
      next = content_end + length (close_tag tag_name);
      opening = substr text start (tag_end - start + 1);
      content = substr text (tag_end + 1) (content_end - (tag_end + 1));
    })

-- the next complete block from `pos` on; `next` is the position behind its closing tag
unfoldable pub find_block : Text → Text → ℕ → Option Block
find_block text tag_name pos = do
  start ← find_from (open_start tag_name) text pos
  tag_end ← find_from (codes ">") text start
  content_end ← find_from (close_tag tag_name) text (tag_end + 1)
  block_at text tag_name pos start tag_end content_end

-- the content of the first such block, empty if there is none
unfoldable pub child_content : Text → Text → Text
child_content text tag = elim (find_block text tag 0) [ none ↦ [] | some b ↦ b.content ]
