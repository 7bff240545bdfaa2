-- ===== src/Command/Typed.antt =====
-- What `parse_input` makes of each kind of input.
use llama_cli.Base.Search.{shift, find-append_Lacks}
use llama_cli.Command.Input.{slash_command, is_exit, parse_slash, parse_input}
use llama_cli.Base.{
  suc, ◌+◌, ◌-◌, ◌≡◌, refl, sym, ap, ◌∙◌, Bool, true, false, ◌&&◌, some, [], ◌∷◌, ◌++◌,
  append_assoc, arith, ltb, length, take, drop, length-append, drop-length-append,
  take-length-append, Text, codes, text_eq, find, Lacks,
}

blank_differs : (w a t : Text) → Lacks b' ' t → text_eq (w ++ b' ' ∷ a) t ≡ false
unfolding text_eq
blank_differs [] a [] h = refl
blank_differs [] a (c ∷ t) (other, h) = ground (arith, other)
blank_differs (x ∷ w) a [] h = refl
blank_differs (x ∷ w) a (c ∷ t) (other, h) = ground (arith, blank_differs w a t h)

not_exit : (w a : Text) → is_exit (w ++ b' ' ∷ a) ≡ false
unfolding is_exit
not_exit w a = rw (
  blank_differs w a (codes "exit") (omega arith),
  blank_differs w a (codes "quit") (omega arith),
  blank_differs w a (codes "/exit") (omega arith),
  blank_differs w a (codes "/quit") (omega arith),
)

first_blank : (w a : Text) → Lacks b' ' w → find (codes " ") (w ++ b' ' ∷ a) ≡ some (length w)
first_blank w a h =
    find-append_Lacks b' ' [] w (b' ' ∷ a) h
    ∙ ap (shift (length w)) here
    ∙ ap some (let e : length w + 0 ≡ length w = omega arith in e)
  where
    here : find (codes " ") (b' ' ∷ a) ≡ some 0
    here = unfold find in refl

named : (name arg : Text) → take (suc (length name) - 1) (name ++ b' ' ∷ arg) ≡ name
named name arg =
    ap (λ n. take n (name ++ b' ' ∷ arg))
      (let e : suc (length name) - 1 ≡ length name = omega arith in e)
    ∙ take-length-append name (b' ' ∷ arg)

behind : (name arg : Text) → drop (suc (length name) + 1) (b'/' ∷ (name ++ b' ' ∷ arg)) ≡ arg
behind name arg =
    let front = b'/' ∷ (name ++ b' ' ∷ []) in
    let size : suc (length name) + 1 ≡ length front =
      omega (arith, length-append name (b' ' ∷ [])) in
    ap (λ n. drop n (b'/' ∷ (name ++ b' ' ∷ arg))) size
    ∙ ap (drop (length front)) (ap (◌∷◌ b'/') (sym (append_assoc name (b' ' ∷ []) arg)))
    ∙ drop-length-append front arg

and_false : (b : Bool) → (b && false) ≡ false
and_false true = refl
and_false false = refl

parse_slash_blank :
    (name arg : Text)
    → Lacks b' ' name
    → parse_slash (b'/' ∷ (name ++ b' ' ∷ arg))
      ≡ record { type = slash_command; command = name; arg = arg }
unfolding parse_slash
parse_slash_blank name arg h =
    let at : find (codes " ") (b'/' ∷ (name ++ b' ' ∷ arg)) ≡ some (suc (length name)) =
      first_blank (b'/' ∷ name) arg (omega arith, h) in
    rw (at, parse_slash)
      (ap
          (λ c. record {
            type = slash_command;
            command = c;
            arg = drop (suc (length name) + 1) (b'/' ∷ (name ++ b' ' ∷ arg));
          })
          (named name arg)
        ∙ ap (λ a. record { type = slash_command; command = name; arg = a }) (behind name arg))

-- A slash command with an argument is split at the first blank: the name has none, the argument may
-- have any. No argument makes it an exit.
parse_input_slash :
    (name arg : Text)
    → Lacks b' ' name
    → parse_input (b'/' ∷ (name ++ b' ' ∷ arg))
      ≡ record { type = slash_command; command = name; arg = arg }
unfolding parse_input
parse_input_slash name arg h = rw (not_exit (b'/' ∷ name) arg) (
    rw (and_false (ltb 2 (suc (length (name ++ b' ' ∷ arg)))))
      (rw (and_false (ltb 1 (suc (length (name ++ b' ' ∷ arg))))) (parse_slash_blank name arg h)))
