-- ===== src/Sync/Commands.antt =====
-- What `is_read_only` looks at: the first word of each segment of a pipeline, and no more.
use llama_cli.Base.Words.{getlines, getlines_from, drop_while, take_while, any, is_one_of}
use llama_cli.Sync.ReadOnly.{read_only_commands, is_blank, is_safe_segment, all_safe, is_read_only}
use llama_cli.Base.{
  ℕ, ◌≡◌, refl, ◌∙◌, ◌≢◌, Bool, true, false, not, ◌&&◌, ◌||◌, [], ◌∷◌, ◌++◌, append-nil,
  append_assoc, arith, ◌==◌, if◌then◌else◌, ne→beq, All, All-append, Text, is_empty, Lacks,
}

any-append : (p : ℕ → Bool) (s t : Text) → any p (s ++ t) ≡ (any p s || any p t)
unfolding any
any-append p [] t = refl
any-append p (c ∷ s) t = ground (arith, any-append p s t)

all_safe-pipe :
    (a b line : Text)
    → all_safe (getlines_from b'|' (a ++ b'|' ∷ b) line)
      ≡ (all_safe (getlines_from b'|' a line) && all_safe (getlines_from b'|' b []))
unfolding getlines_from all_safe
all_safe-pipe [] b [] = unfold is_safe_segment drop_while in refl
all_safe-pipe [] b (x ∷ line) = ground arith
all_safe-pipe (c ∷ a) b line =
    ground (arith, all_safe-pipe a b [], all_safe-pipe a b (line ++ c ∷ []))

-- A pipeline is read-only exactly if both of its sides are.
pub is_read_only-pipe :
    (a b : Text) → is_read_only (a ++ b'|' ∷ b) ≡ (is_read_only a && is_read_only b)
unfolding is_read_only getlines any
is_read_only-pipe a b =
    ground (arith, any-append (λ c. c == b'>') a (b'|' ∷ b), all_safe-pipe a b [])

getlines-Lacks :
    (s line : Text)
    → Lacks b'|' s
    → getlines_from b'|' s line ≡ (if is_empty (line ++ s) then [] else (line ++ s) ∷ [])
unfolding getlines_from
getlines-Lacks [] line h = rw append-nil
getlines-Lacks (c ∷ s) line (hc, h) =
    rw (ne→beq c b'|' hc, getlines_from) (getlines-Lacks s (line ++ c ∷ []) h ∙ rw append_assoc)

any-Lacks : (b : ℕ) (s : Text) → Lacks b s → any (λ c. c == b) s ≡ false
unfolding any
any-Lacks b [] h = refl
any-Lacks b (c ∷ s) (hc, h) = rw (ne→beq c b hc, any-Lacks b s h)

take_while-word :
    (w rest : Text)
    → All (λ c. is_blank c ≡ false) w
    → take_while (λ c. not (is_blank c)) (w ++ b' ' ∷ rest) ≡ w
unfolding take_while
take_while-word [] rest h = refl
take_while-word (c ∷ w) rest (hc, h) = rw (hc, take_while-word w rest h)

safe_word :
    (c : ℕ) (w arguments : Text)
    → is_one_of read_only_commands (c ∷ w) ≡ true
    → All (λ x. is_blank x ≡ false) (c ∷ w)
    → is_safe_segment ((c ∷ w) ++ b' ' ∷ arguments) ≡ true
unfolding is_safe_segment
safe_word c w arguments listed word =
    let start : drop_while is_blank ((c ∷ w) ++ b' ' ∷ arguments) ≡ (c ∷ w) ++ b' ' ∷ arguments =
      unfold drop_while in rw (word.0) in
    rw (start, take_while-word (c ∷ w) arguments word, listed)

-- The arguments of a command of the list are not looked at: whatever they are, a `;`, a `$(…)` or a
-- flag that deletes files among them, the command passes for read-only, as long as they hold no `>`
-- and no `|`.
pub is_read_only_any_arguments :
    (c : ℕ) (w arguments : Text)
    → is_one_of read_only_commands (c ∷ w) ≡ true
    → All (λ x. is_blank x ≡ false) (c ∷ w)
    → Lacks b'>' (c ∷ w)
    → Lacks b'|' (c ∷ w)
    → Lacks b'>' arguments
    → Lacks b'|' arguments
    → is_read_only ((c ∷ w) ++ b' ' ∷ arguments) ≡ true
unfolding is_read_only getlines all_safe
is_read_only_any_arguments c w arguments listed word no_gt no_bar no_gt' no_bar' =
    rw
      (
        any-Lacks b'>' ((c ∷ w) ++ b' ' ∷ arguments)
            (All-append (λ x. x ≢ b'>') (c ∷ w) (b' ' ∷ arguments) no_gt (omega arith, no_gt')),
        getlines-Lacks ((c ∷ w) ++ b' ' ∷ arguments) []
            (All-append (λ x. x ≢ b'|') (c ∷ w) (b' ' ∷ arguments) no_bar (omega arith, no_bar')),
      )
      (rw (safe_word c w arguments listed word))
