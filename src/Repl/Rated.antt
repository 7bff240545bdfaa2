-- ===== src/Repl/Rated.antt =====
-- What `/rate` with a number rates: `handle_rate` of src/repl/repl_commands.cpp.
use llama_cli.Base.Int.{pos}
use llama_cli.Base.Search.{find-append_Lacks, find_self, shift, take_front, drop_front}
use llama_cli.Annotation.Numbers.{stoi}
use llama_cli.Provider.Message.{Message}
use llama_cli.Repl.Console.{Desk}
use llama_cli.Repl.Panel.{Outside, Panel}
use llama_cli.Repl.Notes.{
  is_assistant, answer_index, rating_of, put_rating, target_index, rate_message, rate_target,
  rate_indexed, handle_rate,
}
use llama_cli.Base.{
  ℕ, suc, ◌+◌, ◌≡◌, refl, sym, ap, ◌∙◌, ◌≢◌, inl, inr, true, false, some, List, [], ◌∷◌, ◌++◌,
  append_assoc, arith, ltb, ◌==◌, if◌then◌else◌, lt→ltb, Bool-cases, length, drop, length-append,
  Text, codes, text_eq, text_eq_iff, find, Lacks,
}

-- the number of answers
abbrev pub answers : List Message → ℕ
answers [] = 0
answers (m ∷ history) = if is_assistant m then suc (answers history) else answers history

answer_index-here :
    (before : List Message) (m : Message) (after : List Message) (n count i : ℕ)
    → is_assistant m ≡ true
    → n ≡ suc (count + answers before)
    → answer_index (pos n) count i (before ++ m ∷ after) ≡ some (i + length before)
unfolding answer_index
answer_index-here [] m after n count i h e = ground (arith, h, e)
answer_index-here (x ∷ before) m after n count i h e = elim (Bool-cases (is_assistant x)) [
  | inl f ↦
      let num : n ≡ suc (suc count + answers before) = ground (arith, e, f) in
      let far : (n == suc count) ≡ false = ground (arith, num) in
      let to : suc i + length before ≡ i + suc (length before) = omega arith in
      rw (f, answer_index)
        (rw (far) (answer_index-here before m after n (suc count) (suc i) h num ∙ ap some to))
  | inr f ↦
      let num : n ≡ suc (count + answers before) = ground (arith, e, f) in
      let to : suc i + length before ≡ i + suc (length before) = omega arith in
      rw (f, answer_index) (answer_index-here before m after n count (suc i) h num ∙ ap some to)
]

put_rating-here :
    (before : List Message) (m : Message) (after : List Message) (rating : Text)
    → put_rating (length before) rating (before ++ m ∷ after)
      ≡ before ++ record m { rating = rating } ∷ after
unfolding put_rating
put_rating-here [] m after rating = refl
put_rating-here (x ∷ before) m after rating = ap (◌∷◌ x) (put_rating-here before m after rating)

-- A text with a blank differs from one without.
blank_differs : (a t s : Text) → Lacks b' ' s → text_eq (a ++ b' ' ∷ t) s ≡ false
unfolding text_eq
blank_differs [] t [] h = refl
blank_differs [] t (c ∷ s) (hc, h) = ground arith
blank_differs (x ∷ a) t [] h = refl
blank_differs (x ∷ a) t (c ∷ s) (hc, h) = ground (arith, blank_differs a t s h)

module _ (desk : Desk) (outside : Outside desk) where
  target_answer :
      (index : Text) (p : Panel desk) (before : List Message) (m : Message) (after : List Message)
      → p.history ≡ before ++ m ∷ after
      → is_assistant m ≡ true
      → text_eq index (codes "last") ≡ false
      → stoi index ≡ some (pos (suc (answers before)))
      → target_index desk outside index p ≡ some (pos (length before))
  unfolding target_index
  target_answer index p before m after split assistant no_last number =
      let all : suc (answers before) ≡ suc (0 + answers before) = omega arith in
      let start : 0 + length before ≡ length before = omega arith in
      let found =
        answer_index-here before m after (suc (answers before)) 0 0 assistant all ∙ ap some start in
      rw (no_last, number, target_index) (rw (split, found) refl)

  rate_indexed-here :
      (index t rating : Text) (p : Panel desk) (before : List Message) (m : Message)
      (after : List Message)
      → p.history ≡ before ++ m ∷ after
      → target_index desk outside index p ≡ some (pos (length before))
      → rating_of t ≡ some rating
      → (rate_indexed desk outside index t p).history
        ≡ before ++ record m { rating = rating } ∷ after
  unfolding rate_indexed rate_target rate_message
  rate_indexed-here index t rating p before m after split target word =
      let inside : ltb (length before) (length p.history) ≡ true =
        rw split (lt→ltb _ _ (omega (arith, length-append {0} before (m ∷ after)))) in
      let rated : put_rating (length before) rating p.history
          ≡ before ++ record m { rating = rating } ∷ after =
        rw split (put_rating-here before m after rating) in
      rw (target, rate_indexed) (rw (inside, rate_target) (rw (word, rate_message) rated))

  -- `/rate n`, with a word for a rating, rates the n-th answer of the conversation and changes no other message.
  pub handle_rate_number :
      (index t rating : Text) (p : Panel desk) (before : List Message) (m : Message)
      (after : List Message)
      → p.history ≡ before ++ m ∷ after
      → is_assistant m ≡ true
      → Lacks b' ' index
      → index ≢ codes "last"
      → stoi index ≡ some (pos (suc (answers before)))
      → rating_of t ≡ some rating
      → (handle_rate desk outside (index ++ b' ' ∷ t) p).history
        ≡ before ++ record m { rating = rating } ∷ after
  unfolding handle_rate
  handle_rate_number index t rating p before m after split assistant blank other number word =
      let at : find (codes " ") (index ++ b' ' ∷ t) ≡ some (length index) =
        find-append_Lacks b' ' [] index (b' ' ∷ t) blank
        ∙ ap (shift (length index)) (find_self (codes " ") t)
        ∙ ap some (omega arith) in
      let regroup : index ++ b' ' ∷ t ≡ (index ++ codes " ") ++ t = simp append_assoc refl in
      let behind : drop (length index + 1) (index ++ b' ' ∷ t) ≡ t =
        ap (drop (length index + 1)) regroup
        ∙ drop_front _ (index ++ codes " ") t (sym (length-append index (codes " "))) in
      let no_list = blank_differs index t (codes "list") (omega arith) in
      let no_last : text_eq index (codes "last") ≡ false =
        ground (arith, text_eq_iff index (codes "last")) in
      rw (no_list, at, handle_rate)
        (rw (take_front _ index (b' ' ∷ t) refl, behind)
          (rate_indexed-here index t rating p before m after split
            (target_answer index p before m after split assistant no_last number) word))
