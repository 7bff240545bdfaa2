-- ===== src/Config/Refines.antt =====
-- What `save_to_dotenv` of src/config/config.cpp promises: the file is a map from keys to values, as
-- `load_dotenv` reads it, and saving updates the map.
use mathlib.Core.Path.{fun_ext}
use llama_cli.Base.Cases.{if-cases}
use llama_cli.Base.Words.{getlines_from, getlines}
use llama_cli.Base.Lines.{getlines-line, getlines-Lacks}
use llama_cli.Config.View.{
  clean, update, later, entry, later-none, later-later, later_same, lookup, view, IsKey,
  setting-entry, own-entry, foreign-entry,
}
use llama_cli.Config.Store.{
  replace_lines, with_newlines, saved_lines, lines_of, save_to_dotenv, setting_line,
}
use llama_cli.Base.{
  ◌≡◌, refl, sym, ap, ◌∙◌, inl, inr, false, Option, none, some, List, [], ◌∷◌, ◌++◌, arith,
  if◌then◌else◌, Bool-cases, All, All-append, Text, codes, text_eq, text_eq_iff, starts_with, Lacks,
}

module _ (key value : Text) (ok : IsKey key) where
  -- other keys keep their values
  replaced-other :
      (lines : List Text) (k : Text)
      → text_eq k key ≡ false
      → lookup (replace_lines key value lines).0 k ≡ lookup lines k
  unfolding replace_lines lookup
  replaced-other [] k other = refl
  replaced-other (line ∷ lines) k other = elim (Bool-cases (starts_with (key ++ codes "=") line)) [
    | inl e ↦
        rw (e, replace_lines)
          (rw
            (
              own-entry key line k ok e other,
              replaced-other lines k other,
              setting-entry key value k ok,
              other,
            )
            refl)
    | inr e ↦ rw (e, replace_lines) (rw (replaced-other lines k other) refl)
  ]

  -- the key has the new value if a line was replaced, and none else
  replaced-own :
      (lines : List Text)
      → lookup (replace_lines key value lines).0 key
        ≡ (if (replace_lines key value lines).1 then some (clean value) else none)
  unfolding replace_lines lookup
  replaced-own [] = refl
  replaced-own (line ∷ lines) = elim (Bool-cases (starts_with (key ++ codes "=") line)) [
    | inl e ↦
        rw (e, replace_lines)
          (rw (replaced-own lines, setting-entry key value key ok, (text_eq_iff key key).1 refl)
            (later_same (clean value) (replace_lines key value lines).1))
    | inr e ↦
        rw (e, replace_lines) (rw (foreign-entry key line e, replaced-own lines) (later-none _))
  ]

lookup-append :
    (xs ys : List Text) (k : Text) → lookup (xs ++ ys) k ≡ later (lookup ys k) (lookup xs k)
unfolding lookup
lookup-append [] ys k = sym (later-none _)
lookup-append (x ∷ xs) ys k =
    ap (λ o. later o (entry x k)) (lookup-append xs ys k)
    ∙ later-later (lookup ys k) (lookup xs k) (entry x k)

setting_line-Lacks :
    (key value : Text) → IsKey key → Lacks b'\n' value → Lacks b'\n' (setting_line key value)
setting_line-Lacks key value ok hv =
    All-append _ key (b'=' ∷ value) ok.no_newline ((λ e. ground arith), hv)

replace_lines-Lacks :
    (key value : Text) (lines : List Text)
    → IsKey key
    → Lacks b'\n' value
    → All (λ l. Lacks b'\n' l) lines
    → All (λ l. Lacks b'\n' l) (replace_lines key value lines).0
unfolding replace_lines
replace_lines-Lacks key value [] ok hv h = tt
replace_lines-Lacks key value (line ∷ lines) ok hv (hl, h) =
    let later_lines = replace_lines-Lacks key value lines ok hv h in
    elim (Bool-cases (starts_with (key ++ codes "=") line)) [
      | inl e ↦ rw (e, replace_lines) (setting_line-Lacks key value ok hv, later_lines)
      | inr e ↦ rw (e, replace_lines) (hl, later_lines)
    ]

getlines-with_newlines :
    (lines : List Text)
    → All (λ l. Lacks b'\n' l) lines
    → getlines b'\n' (with_newlines lines) ≡ lines
unfolding getlines with_newlines getlines_from
getlines-with_newlines [] h = refl
getlines-with_newlines (line ∷ lines) (hl, h) =
    getlines-line b'\n' line [] (with_newlines lines) hl
    ∙ ap (◌∷◌ line) (getlines-with_newlines lines h)

-- The lines that are saved, as a map.
saved_lines-update :
    (key value : Text) (lines : List Text) (k : Text)
    → IsKey key
    → lookup (saved_lines key value lines) k ≡ update key (clean value) (lookup lines) k
unfolding saved_lines lookup
saved_lines-update key value lines k ok =
    let (replaced, found) = replace_lines key value lines in
    if-cases (λ l. lookup l k ≡ update key (clean value) (lookup lines) k) found
      (λ f. elim (Bool-cases (text_eq k key)) [
        | inl e ↦ rw (e, (text_eq_iff k key).0 e, replaced-own key value ok lines, f) refl
        | inr e ↦ rw e (replaced-other key value ok lines k e)
      ])
      (λ f.
        lookup-append replaced (setting_line key value ∷ []) k ∙ elim (Bool-cases (text_eq k key)) [
          | inl e ↦ rw (setting-entry key value k ok, e) refl
          | inr e ↦ rw (setting-entry key value k ok, e) (replaced-other key value ok lines k e)
        ])

saved_lines-Lacks :
    (key value : Text) (lines : List Text)
    → IsKey key
    → Lacks b'\n' value
    → All (λ l. Lacks b'\n' l) lines
    → All (λ l. Lacks b'\n' l) (saved_lines key value lines)
unfolding saved_lines
saved_lines-Lacks key value lines ok hv h =
    let kept = replace_lines-Lacks key value lines ok hv h in
    if-cases (All (λ l. Lacks b'\n' l)) (replace_lines key value lines).1 (λ _. kept)
      (λ _.
        All-append _ _ (setting_line key value ∷ []) kept (setting_line-Lacks key value ok hv, tt))

lines_of-Lacks : (content : Option Text) → All (λ l. Lacks b'\n' l) (lines_of content)
unfolding lines_of
lines_of-Lacks none = tt
lines_of-Lacks (some text) = getlines-Lacks b'\n' text

-- Saving a key updates the map that the file stands for: the key has the value that was saved, as the
-- settings will see it, and each other key has what it had, whatever the file holds, and if there is none.
pub save_to_dotenv-update :
    (key value : Text) (content : Option Text)
    → IsKey key
    → Lacks b'\n' value
    → view (some (save_to_dotenv key value content)) ≡ update key (clean value) (view content)
unfolding save_to_dotenv lines_of
save_to_dotenv-update key value content ok hv =
    let lines = lines_of content in
    ap lookup (
      getlines-with_newlines (saved_lines key value lines)
        (saved_lines-Lacks key value lines ok hv (lines_of-Lacks content)))
    ∙ fun_ext (λ k. saved_lines-update key value lines k ok)
