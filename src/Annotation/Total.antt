-- ===== src/Annotation/Total.antt =====
-- Every `parse_*_annotations` loop ends on every text.
use llama_cli.Base.Search.{find_from_bounds}
use llama_cli.Base.Collect.{Advances, collect_total}
use llama_cli.Annotation.Block.{Block, block_at, find_block, open_start, close_tag}
use llama_cli.Annotation.Actions.{
  WriteAction, StrReplaceAction, ReadAction, SearchAction, AddLineAction, DeleteLineAction,
  DelegateAction,
}
use llama_cli.Annotation.Parse.{
  scan, next_tag, write_step, parse_write_annotations, str_replace_step,
  parse_str_replace_annotations, read_step, parse_read_annotations, search_step,
  parse_search_annotations, add_line_step, parse_add_line_annotations, delete_line_step,
  parse_delete_line_annotations, delegate_step, parse_delegate_annotations,
}
use llama_cli.Base.{
  ℕ, ◌+◌, ◌≤◌, ◌<◌, ◌≡◌, Option, some, List, arith, >>=-eq-some, length, Text, codes, find_from,
}

-- A block lies within the text, behind the position from which it was looked for.
pub find_block_bounds :
    (text tag_name : Text) (at : ℕ) (b : Block)
    → find_block text tag_name at ≡ some b
    → (at < b.next) × (b.next ≤ length text)
unfolding find_block block_at
find_block_bounds text tag_name at b h =
    let (start, e₁, h₁) = >>=-eq-some (find_from (open_start tag_name) text at) _ h in
    let (tag_end, e₂, h₂) = >>=-eq-some (find_from (codes ">") text start) _ h₁ in
    let (content_end, e₃, h₃) =
      >>=-eq-some (find_from (close_tag tag_name) text (tag_end + 1)) _ h₂ in
    ground (arith, find_from_bounds (close_tag tag_name) text (tag_end + 1) content_end e₃)

pub next_tag_bounds :
    (opening text : Text) (at : ℕ) (t : ℕ × Text)
    → next_tag opening text at ≡ some t
    → (at < t.0) × (t.0 ≤ length text)
unfolding next_tag
next_tag_bounds opening text at t h =
    let (start, e₁, h₁) = >>=-eq-some (find_from opening text at) _ h in
    let (tag_end, e₂, h₂) = >>=-eq-some (find_from (codes ">") text start) _ h₁ in
    ground (
      arith,
      find_from_bounds opening text at start e₁,
      find_from_bounds (codes ">") text start tag_end e₂,
    )

pub scan_total {ℓ} :
    {A : Type ℓ} (step : Text → ℕ → Option (ℕ × List A)) (text : Text)
    → Advances (step text) (length text)
    → (found : List A) × (scan step text ≡ some found)
scan_total step text adv =
    collect_total (step text) (length text) adv (length text + 1) 0 (omega arith) (omega arith)

pub write_step-Advances : (text : Text) → Advances (write_step text) (length text)
unfolding write_step
write_step-Advances text at next found h =
    let (b, e, h') = >>=-eq-some (find_block text (codes "write") at) _ h in
    ground (arith, find_block_bounds text (codes "write") at b e)

str_replace_step-Advances : (text : Text) → Advances (str_replace_step text) (length text)
unfolding str_replace_step
str_replace_step-Advances text at next found h =
    let (b, e, h') = >>=-eq-some (find_block text (codes "str_replace") at) _ h in
    ground (arith, find_block_bounds text (codes "str_replace") at b e)

search_step-Advances : (text : Text) → Advances (search_step text) (length text)
unfolding search_step
search_step-Advances text at next found h =
    let (b, e, h') = >>=-eq-some (find_block text (codes "search") at) _ h in
    ground (arith, find_block_bounds text (codes "search") at b e)

read_step-Advances : (text : Text) → Advances (read_step text) (length text)
unfolding read_step
read_step-Advances text at next found h =
    let (t, e, h') = >>=-eq-some (next_tag (codes "<read ") text at) _ h in
    ground (arith, next_tag_bounds (codes "<read ") text at t e)

add_line_step-Advances : (text : Text) → Advances (add_line_step text) (length text)
unfolding add_line_step
add_line_step-Advances text at next found h =
    let (t, e, h') = >>=-eq-some (next_tag (codes "<add_line ") text at) _ h in
    ground (arith, next_tag_bounds (codes "<add_line ") text at t e)

delete_line_step-Advances : (text : Text) → Advances (delete_line_step text) (length text)
unfolding delete_line_step
delete_line_step-Advances text at next found h =
    let (t, e, h') = >>=-eq-some (next_tag (codes "<delete_line ") text at) _ h in
    ground (arith, next_tag_bounds (codes "<delete_line ") text at t e)

delegate_step-Advances : (text : Text) → Advances (delegate_step text) (length text)
unfolding delegate_step
delegate_step-Advances text at next found h =
    let (start, e₁, h₁) = >>=-eq-some (find_from (codes "<delegate") text at) _ h in
    let (tag_end, e₂, h₂) = >>=-eq-some (find_from (codes ">") text start) _ h₁ in
    let (close, e₃, h₃) = >>=-eq-some (find_from (codes "</delegate>") text tag_end) _ h₂ in
    ground (
      arith,
      find_from_bounds (codes "<delegate") text at start e₁,
      find_from_bounds (codes ">") text start tag_end e₂,
      find_from_bounds (codes "</delegate>") text tag_end close e₃,
    )

-- Each of the seven loops that collect the annotations of an answer ends and gives a list, whatever
-- the text is: no tag, however malformed, makes it run on.
pub parsers_total :
    (text : Text)
    → ((found : List WriteAction) × (parse_write_annotations text ≡ some found))
      × ((found : List StrReplaceAction) × (parse_str_replace_annotations text ≡ some found))
      × ((found : List ReadAction) × (parse_read_annotations text ≡ some found))
      × ((found : List SearchAction) × (parse_search_annotations text ≡ some found))
      × ((found : List AddLineAction) × (parse_add_line_annotations text ≡ some found))
      × ((found : List DeleteLineAction) × (parse_delete_line_annotations text ≡ some found))
      × ((found : List DelegateAction) × (parse_delegate_annotations text ≡ some found))
unfolding parse_write_annotations parse_str_replace_annotations parse_read_annotations
    parse_search_annotations parse_add_line_annotations parse_delete_line_annotations
    parse_delegate_annotations
parsers_total text = (
  scan_total write_step text (write_step-Advances text),
  scan_total str_replace_step text (str_replace_step-Advances text),
  scan_total read_step text (read_step-Advances text),
  scan_total search_step text (search_step-Advances text),
  scan_total add_line_step text (add_line_step-Advances text),
  scan_total delete_line_step text (delete_line_step-Advances text),
  scan_total delegate_step text (delegate_step-Advances text),
)
