-- ===== src/Annotation/Shift.antt =====
-- Blocks found behind a front: the same, at moved positions.
use llama_cli.Base.Search.{find_from-shift, drop-shift}
use llama_cli.Annotation.Block.{Block, block_at, find_block, open_start, close_tag}
use mathlib.Core.Option
use llama_cli.Base.{
  ℕ, ◌+◌, ◌-◌, ◌≡◌, refl, inl, inr, ◌++◌, arith, Option-cases, length, Text, codes, substr,
  find_from,
}

abbrev pub moved : ℕ → Block → Block
moved k b = record b { start = k + b.start; next = k + b.next }

module _ (pre s tag_name : Text) where
  add_shift : (a : ℕ) → length pre + a + 1 ≡ length pre + (a + 1)
  add_shift a = omega arith

  substr_shift : (a b n m : ℕ) → n ≡ m → b ≡ length pre + a → substr (pre ++ s) b n ≡ substr s a m
  substr_shift a b n m e at = rw (e, at, drop-shift pre s a)

  block_at_shift :
      (at start tag_end content_end : ℕ)
      → block_at
          (pre ++ s)
          tag_name
          (length pre + at)
          (length pre + start)
          (length pre + tag_end)
          (length pre + content_end)
        ≡ Option.map (moved (length pre)) (block_at s tag_name at start tag_end content_end)
  unfolding block_at
  block_at_shift at start tag_end content_end = ground (
    arith,
    substr_shift start (length pre + start) (length pre + tag_end - (length pre + start) + 1)
        (tag_end - start + 1) (omega arith) refl,
    substr_shift (tag_end + 1) (length pre + tag_end + 1)
        (length pre + content_end - (length pre + tag_end + 1)) (content_end - (tag_end + 1))
        (omega arith) (omega arith),
  )

  pub find_block_shift :
      (at : ℕ)
      → find_block (pre ++ s) tag_name (length pre + at)
        ≡ Option.map (moved (length pre)) (find_block s tag_name at)
  unfolding find_block
  find_block_shift at = elim (Option-cases (find_from (open_start tag_name) s at)) [
    | inl e ↦ rw (find_from-shift (open_start tag_name) pre s at, e)
    | inr (start, e) ↦
        rw (find_from-shift (open_start tag_name) pre s at, e)
          (elim (Option-cases (find_from (codes ">") s start)) [
            | inl e₂ ↦ rw (find_from-shift (codes ">") pre s start, e₂)
            | inr (tag_end, e₂) ↦
                rw
                  (
                    find_from-shift (codes ">") pre s start,
                    e₂,
                    add_shift tag_end,
                    find_from-shift (close_tag tag_name) pre s (tag_end + 1),
                  )
                  (elim (Option-cases (find_from (close_tag tag_name) s (tag_end + 1))) [
                    | inl e₃ ↦ rw e₃
                    | inr (content_end, e₃) ↦ rw e₃ (block_at_shift at start tag_end content_end)
                  ])
          ])
  ]
