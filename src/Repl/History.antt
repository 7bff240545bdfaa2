-- ===== src/Repl/History.antt =====
-- src/repl/repl_chat.cpp: `trim_history`, the window of messages that the model is sent.
use llama_cli.Base.Cases.{if-cases}
use llama_cli.Base.Int.{ℤ, pos, negsuc}
use llama_cli.Provider.Message.{Message}
use llama_cli.Base.{
  ℕ, zero, suc, ◌+◌, ◌-◌, ◌*◌, ◌≤◌, ◌≡◌, refl, sym, ap, ◌∙◌, Bool, true, List, [], ◌∷◌, ◌++◌, arith,
  ltb, if◌then◌else◌, ltb→lt, not_ltb→le, length, take, drop, length-append, drop-length-append,
  take-length-append, drop-drop, All, codes, text_eq,
}

abbrev pub is_system : Message → Bool
is_system m = text_eq m.role (codes "system")

-- the loop that counts the system messages at the front
unfoldable pub system_count : List Message → ℕ
system_count [] = 0
system_count (m ∷ history) = if is_system m then suc (system_count history) else 0

-- the erased range lies between the system messages at the front and the newest `keep`
unfoldable pub trim_to : List Message → ℕ → List Message
trim_to history keep =
    let sys_count = system_count history in
    if ltb keep (length history - sys_count)
    then take sys_count history ++ drop (length history - keep) history
    else history

unfoldable pub trim_history : List Message → ℤ → List Message
trim_history history (pos zero) = history
trim_history history (pos (suc n)) = trim_to history (suc n * 2)
trim_history history (negsuc n) = history

system_count_le : (history : List Message) → system_count history ≤ length history
unfolding system_count
system_count_le [] = omega arith
system_count_le (m ∷ history) = ground (arith, system_count_le history)

abbrev pub AllSystem : List Message → Type 0
AllSystem = All (λ m. is_system m ≡ true)

system_count-append :
    (sys rest : List Message)
    → AllSystem sys
    → system_count rest ≡ 0
    → system_count (sys ++ rest) ≡ length sys
unfolding system_count
system_count-append [] rest h e = e
system_count-append (m ∷ sys) rest (hm, h) e = rw hm (ap suc (system_count-append sys rest h e))

-- The system messages at the front all stay, and of what follows them the newest, twice the limit, in
-- their order; with no more than that, all.
pub trim_history_lem :
    (sys rest : List Message) (n : ℕ)
    → AllSystem sys
    → system_count rest ≡ 0
    → trim_history (sys ++ rest) (pos (suc n)) ≡ sys ++ drop (length rest - suc n * 2) rest
unfolding trim_history trim_to
trim_history_lem sys rest n h e =
    let keep = suc n * 2 in
    let size = length-append {0} sys rest in
    rw (system_count-append sys rest h e) (
      if-cases (λ t. t ≡ sys ++ drop (length rest - keep) rest)
        (ltb keep (length (sys ++ rest) - length sys))
        (λ more.
          let lt = ltb→lt _ _ more in
          let at : length (sys ++ rest) - keep ≡ length sys + (length rest - keep) = omega arith in
          rw (at, take-length-append sys rest)
            (ap (λ t. sys ++ t)
              (sym (drop-drop (length rest - keep) (length sys) (sys ++ rest))
                ∙ ap (drop (length rest - keep)) (drop-length-append sys rest))))
        (λ le.
          let ge = not_ltb→le _ _ le in
          let at : length rest - keep ≡ 0 = omega arith in rw at refl))
