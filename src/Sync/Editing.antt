-- ===== src/Sync/Editing.antt =====
-- The laws of the three edits of a file.
use llama_cli.Base.Int.{ℤ, pos, negsuc}
use llama_cli.Base.Words.{getlines, getlines_from}
use llama_cli.Json.Numbers.{max_int}
use llama_cli.Base.Search.{find_first}
use llama_cli.Sync.Lines.{replace_first, clamp_index, insert_line, erase_line, unlines}
use llama_cli.Base.{
  ℕ, zero, suc, ◌≤◌, ◌<◌, ◌≡◌, refl, ap, ◌∙◌, ◌≢◌, true, false, some, List, [], ◌∷◌, ◌++◌,
  append-nil, append_assoc, arith, lt→ltb, le→not_ltb, ne→beq, length, get_elem?, take, drop,
  take-append-drop, drop-length-append, take-length-append, drop-drop, All, All-append, Text,
  text_eq, text_eq_iff, find, Lacks,
}

-- The first occurrence is replaced, and nothing else changes.
replace_first_here :
    (pre old_str post new_str : Text)
    → find old_str (pre ++ old_str) ≡ some (length pre)
    → replace_first (pre ++ (old_str ++ post)) old_str new_str ≡ some (pre ++ (new_str ++ post))
unfolding replace_first
replace_first_here pre old_str post new_str first =
    rw (find_first old_str pre post first, replace_first)
      (rw (take-length-append pre (old_str ++ post)) (
        rw (← drop-drop (length old_str) (length pre) (pre ++ (old_str ++ post)))
          (rw (drop-length-append pre (old_str ++ post), drop-length-append old_str post))))

clamp_index-le : (n : ℤ) (size : ℕ) → clamp_index n size ≤ size
unfolding clamp_index
clamp_index-le n size = ground arith

-- a list of texts without this one
abbrev pub LacksLine : Text → List Text → Type 0
LacksLine content = All (λ line. line ≢ content)

text_eq_refl : (s : Text) → text_eq s s ≡ true
text_eq_refl s = (text_eq_iff s s).1 refl

text_eq_ne : (s t : Text) → s ≢ t → text_eq s t ≡ false
text_eq_ne s t h = ground (arith, text_eq_iff s t)

erase_line-append :
    (front lines : List Text) (content : Text)
    → LacksLine content front
    → erase_line (front ++ content ∷ lines) content ≡ some (front ++ lines)
unfolding erase_line
erase_line-append [] lines content h = rw (text_eq_refl content, erase_line)
erase_line-append (line ∷ front) lines content (hl, h) =
    rw (text_eq_ne line content hl, erase_line) (rw (erase_line-append front lines content h))

All-take {ℓ κ} : {A : Type ℓ} (P : A → Type κ) (n : ℕ) (xs : List A) → All P xs → All P (take n xs)
All-take P zero xs h = tt
All-take P (suc n) [] h = tt
All-take P (suc n) (x ∷ xs) (hx, h) = (hx, All-take P n xs h)

All-drop {ℓ κ} : {A : Type ℓ} (P : A → Type κ) (n : ℕ) (xs : List A) → All P xs → All P (drop n xs)
All-drop P zero xs h = h
All-drop P (suc n) [] h = tt
All-drop P (suc n) (x ∷ xs) (hx, h) = All-drop P n xs h

erase-insert_line :
    (lines : List Text) (n : ℤ) (content : Text)
    → LacksLine content lines
    → erase_line (insert_line lines n content) content ≡ some lines
unfolding insert_line
erase-insert_line lines n content h =
    erase_line-append (take (clamp_index n (length lines)) lines)
      (drop (clamp_index n (length lines)) lines) content
      (All-take (λ line. line ≢ content) (clamp_index n (length lines)) lines h)
    ∙ ap some (take-append-drop (clamp_index n (length lines)) lines)

getlines_from-line :
    (line rest cur : Text)
    → Lacks b'\n' line
    → getlines_from b'\n' (line ++ (b'\n' ∷ rest)) cur ≡ (cur ++ line) ∷ getlines_from b'\n' rest []
unfolding getlines_from
getlines_from-line [] rest cur h = rw append-nil
getlines_from-line (c ∷ line) rest cur (hc, h) =
    rw (ne→beq c b'\n' hc, getlines_from)
      (getlines_from-line line rest (cur ++ c ∷ []) h ∙ rw append_assoc)

-- Lines that are written are read back, each as it was.
pub getlines-unlines :
    (lines : List Text) → All (Lacks b'\n') lines → getlines b'\n' (unlines lines) ≡ lines
unfolding getlines unlines
getlines-unlines [] h = unfold getlines_from in refl
getlines-unlines (line ∷ lines) (hl, h) =
    getlines_from-line line (unlines lines) [] hl ∙ ap (◌∷◌ line) (getlines-unlines lines h)

-- Deleting the line that was added, from the file as it was written back, leaves the lines that were
-- there: at any line number, out of range too, for a line that did not stand in the file before.
pub erase-add_line :
    (lines : List Text) (n : ℤ) (content : Text)
    → All (Lacks b'\n') lines
    → Lacks b'\n' content
    → LacksLine content lines
    → erase_line (getlines b'\n' (unlines (insert_line lines n content))) content ≡ some lines
unfolding insert_line
erase-add_line lines n content h hc new =
    let i = clamp_index n (length lines) in
    let kept : All (Lacks b'\n') (insert_line lines n content) =
      All-append (Lacks b'\n') (take i lines) (content ∷ drop i lines)
        (All-take (Lacks b'\n') i lines h) (hc, All-drop (Lacks b'\n') i lines h) in
    ap (λ ls. erase_line ls content) (getlines-unlines (insert_line lines n content) kept)
    ∙ erase-insert_line lines n content new

get_elem?-between {ℓ} :
    {A : Type ℓ} (k : ℕ) (xs : List A) (y : A)
    → k ≤ length xs
    → get_elem? (take k xs ++ y ∷ drop k xs) k ≡ some y
get_elem?-between zero xs y h = refl
get_elem?-between (suc k) [] y h = absurd (omega arith)
get_elem?-between (suc k) (x ∷ xs) y h = get_elem?-between k xs y (omega arith)

take_all {ℓ} : {A : Type ℓ} (xs : List A) → take (length xs) xs ≡ xs
take_all [] = refl
take_all (x ∷ xs) = ap (◌∷◌ x) (take_all xs)

drop_all {ℓ} : {A : Type ℓ} (xs : List A) → drop (length xs) xs ≡ []
drop_all [] = refl
drop_all (x ∷ xs) = drop_all xs

-- The line stands at its number, the first line has number 1, and a number out of range is moved to
-- the nearest end; but the least `int` stands for the end of the file, since its predecessor wraps
-- around. A file has less than 2 ^ 31 - 1 lines.
pub insert_line_position :
    (lines : List Text) (k : ℕ) (content : Text)
    → (k ≤ length lines → get_elem? (insert_line lines (pos (suc k)) content) k ≡ some content)
      × (length lines < k → insert_line lines (pos (suc k)) content ≡ lines ++ content ∷ [])
      × (insert_line lines (pos 0) content ≡ content ∷ lines)
      × (k < max_int → insert_line lines (negsuc k) content ≡ content ∷ lines)
      × (length lines < max_int
          → insert_line lines (negsuc max_int) content ≡ lines ++ content ∷ [])
unfolding insert_line clamp_index
insert_line_position lines k content = (
  λ h. rw (le→not_ltb (length lines) k h) (get_elem?-between k lines content h),
  λ h. rw (lt→ltb (length lines) k h, take_all lines, drop_all lines),
  refl,
  λ h. rw (ne→beq k max_int (λ e. absurd (omega (arith, e, h))), insert_line, clamp_index) refl,
  λ h. rw (lt→ltb (length lines) max_int h, take_all lines, drop_all lines),
)
