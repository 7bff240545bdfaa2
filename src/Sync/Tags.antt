-- ===== src/Sync/Tags.antt =====
-- src/sync/sync.cpp: `parse_exec_tags` and `extract_resources`, two scanning loops.
use llama_cli.Base.Collect.{collect, Advances, collect_total}
use llama_cli.Base.Search.{find_from_bounds}
use llama_cli.Base.{
  ℕ, ◌+◌, ◌-◌, ◌≡◌, inl, inr, Option, none, some, List, [], ◌∷◌, arith, Option-cases, ◌>>=◌,
  >>=-eq-some, length, Text, codes, substr, find_from,
}

unfoldable pub exec_step : Text → ℕ → Option (ℕ × List Text)
exec_step text at = do
  pos ← find_from (codes "<exec>") text at
  let start = pos + length (codes "<exec>")
  end ← find_from (codes "</exec>") text start
  some (end + length (codes "</exec>"), substr text start (end - start) ∷ [])

unfoldable pub parse_exec_tags : Text → Option (List Text)
parse_exec_tags text = collect (exec_step text) (length text + 1) 0

unfoldable pub resource_step : Text → ℕ → Option (ℕ × List Text)
resource_step json at = find_from (codes "\"file://") json at >>= λ pos.
    let start = pos + length (codes "\"file://") in
    elim (find_from (codes "\"") json start) [
      | none ↦ some (start, [])
      | some end ↦ some (end + 1, substr json start (end - start) ∷ [])
    ]

unfoldable pub extract_resources : Text → Option (List Text)
extract_resources json = collect (resource_step json) (length json + 1) 0

exec_step-Advances : (text : Text) → Advances (exec_step text) (length text)
unfolding exec_step
exec_step-Advances text at next found h =
    let (pos, e₁, h₁) = >>=-eq-some (find_from (codes "<exec>") text at) _ h in
    let (end, e₂, h₂) =
      >>=-eq-some (find_from (codes "</exec>") text (pos + length (codes "<exec>"))) _ h₁ in
    ground (
      arith,
      find_from_bounds (codes "<exec>") text at pos e₁,
      find_from_bounds (codes "</exec>") text (pos + length (codes "<exec>")) end e₂,
    )

resource_step-Advances : (json : Text) → Advances (resource_step json) (length json)
unfolding resource_step
resource_step-Advances json at next found h =
    let (pos, e₁, h₁) = >>=-eq-some (find_from (codes "\"file://") json at) _ h in
    let start = pos + length (codes "\"file://") in
    let near = find_from_bounds (codes "\"file://") json at pos e₁ in
    elim (Option-cases (find_from (codes "\"") json start)) [
      | inl e ↦ ground (arith, near, h₁, e)
      | inr (end, e) ↦ ground (arith, near, h₁, e, find_from_bounds (codes "\"") json start end e)
    ]

-- The loop over `<exec>` tags ends on every text.
pub parse_exec_tags_total : (text : Text) → (cmds : List Text) × (parse_exec_tags text ≡ some cmds)
unfolding parse_exec_tags
parse_exec_tags_total text =
    collect_total (exec_step text) (length text) (exec_step-Advances text) (length text + 1) 0
      (omega arith) (omega arith)

-- The loop over resources ends on every text, one with an unclosed quote too.
pub extract_resources_total :
    (json : Text) → (paths : List Text) × (extract_resources json ≡ some paths)
unfolding extract_resources
extract_resources_total json =
    collect_total (resource_step json) (length json) (resource_step-Advances json) (length json + 1)
      0 (omega arith) (omega arith)
