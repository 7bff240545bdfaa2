-- ===== src/Config/View.antt =====
-- What a file `.env` stands for: a map from keys to values, as `load_dotenv` of src/config/config.cpp reads it.
use mathlib.Core.Option.{some-injective}
use llama_cli.Base.Search.{
  starts_with-append, find_sound, find-append_Lacks, find_here, starts_with_split, take_front,
  drop_front,
}
use llama_cli.Config.Dotenv.{read_line, strip_comment, strip_quotes, trim_space_end}
use llama_cli.Config.Store.{lines_of, setting_line}
use llama_cli.Base.{
  ℕ, ◌+◌, ◌≡◌, refl, sym, ap, ◌∙◌, inl, inr, Bool, true, false, ◌||◌, Option, none, some, List, [],
  ◌∷◌, ◌++◌, append_assoc, arith, ◌==◌, if◌then◌else◌, Bool-cases, Option-cases, length, take, drop,
  length-append, take-append-drop, Text, codes, is_empty, text_eq, text_eq_iff, char_at,
  starts_with, find, Lacks,
}

-- the value that the settings see
abbrev pub clean : Text → Text
clean value = trim_space_end (strip_quotes (strip_comment none value))

-- The abstract file: the value of each key.
abbrev pub Env : Type 0
Env = Text → Option Text

abbrev pub update : Text → Text → Env → Env
update key value env = λ k. if text_eq k key then some value else env k

-- the later of two values
abbrev pub later : Option Text → Option Text → Option Text
later none o = o
later (some v) o = some v

abbrev pub entry : Text → Env
entry line k = elim (read_line line) [
  | none ↦ none
  | some (key, value) ↦ if text_eq k key then some value else none
]

pub later-none : (o : Option Text) → later o none ≡ o
later-none none = refl
later-none (some v) = refl

pub later-later : (a b c : Option Text) → later (later a b) c ≡ later a (later b c)
later-later none b c = refl
later-later (some v) b c = refl

pub later_same : (v : Text) (b : Bool) → later (if b then some v else none) (some v) ≡ some v
later_same v true = refl
later_same v false = refl

unfoldable pub lookup : List Text → Env
lookup [] k = none
lookup (line ∷ lines) k = later (lookup lines k) (entry line k)

-- the map of a file, of which the last line of a key counts; a file that is not there is empty
abbrev pub view : Option Text → Env
view content = lookup (lines_of content)

-- A key that can be saved: no line of it is a comment or broken.
pub record IsKey (key : Text) : Type 0 where
  pub no_equals : Lacks b'=' key
  pub no_newline : Lacks b'\n' key
  pub no_comment : (char_at key 0 == b'#') ≡ false

first_equals :
    (key rest : Text) → Lacks b'=' key → find (codes "=") (key ++ b'=' ∷ rest) ≡ some (length key)
first_equals key rest h =
    find-append_Lacks b'=' [] key (b'=' ∷ rest) h
    ∙ rw (find_here (codes "=") (b'=' ∷ rest) (starts_with-append (codes "=") rest))
        (ap some (omega arith))

behind_equals : (key rest : Text) → drop (length key + 1) (key ++ b'=' ∷ rest) ≡ rest
behind_equals key rest =
    ap (drop (length key + 1)) (simp append_assoc refl)
    ∙ drop_front (length key + 1) (key ++ b'=' ∷ []) rest
        (omega (arith, length-append {0} key (b'=' ∷ [])))

pub read_line-setting :
    (key rest : Text) → IsKey key → read_line (key ++ b'=' ∷ rest) ≡ some (key, clean rest)
unfolding read_line
read_line-setting [] rest ok = rw (first_equals [] rest tt) refl
read_line-setting (c ∷ key) rest ok =
    rw (ok.no_comment, first_equals (c ∷ key) rest ok.no_equals)
      (rw (take_front (length (c ∷ key)) (c ∷ key) (b'=' ∷ rest) refl, behind_equals (c ∷ key) rest)
        refl)

-- what a saved line gives each key
pub setting-entry :
    (key value k : Text)
    → IsKey key
    → entry (setting_line key value) k ≡ (if text_eq k key then some (clean value) else none)
setting-entry key value k ok = rw (read_line-setting key value ok, entry) refl

-- A line that begins with the key and its sign belongs to the key.
pub own-entry :
    (key line k : Text)
    → IsKey key
    → starts_with (key ++ codes "=") line ≡ true
    → text_eq k key ≡ false
    → entry line k ≡ none
own-entry key line k ok h other =
    let rest = drop (length (key ++ codes "=")) line in
    let whole : line ≡ setting_line key rest =
      starts_with_split (key ++ codes "=") line h ∙ simp append_assoc refl in
    ap (λ l. entry l k) whole ∙ setting-entry key rest k ok ∙ rw other refl

take-drop-equals :
    (line : Text) (eq : ℕ)
    → find (codes "=") line ≡ some eq
    → starts_with (take eq line ++ codes "=") line ≡ true
take-drop-equals line eq h =
    let (le, sw) = find_sound (codes "=") line eq h in
    let whole : line ≡ (take eq line ++ codes "=") ++ drop 1 (drop eq line) =
      sym (take-append-drop eq line)
      ∙ ap (λ t. take eq line ++ t) (starts_with_split (codes "=") (drop eq line) sw)
      ∙ simp append_assoc refl in
    ap (starts_with (take eq line ++ codes "=")) whole
    ∙ starts_with-append (take eq line ++ codes "=") _

read_line-key :
    (line key value : Text)
    → read_line line ≡ some (key, value)
    → starts_with (key ++ codes "=") line ≡ true
unfolding read_line
read_line-key line key value h = elim (Bool-cases (is_empty line || char_at line 0 == b'#')) [
  | inl e ↦ let h₁ = rw (e, read_line) at h in cc
  | inr e ↦ elim (Option-cases (find (codes "=") line)) [
    | inl f ↦ let h₁ = rw (e, f, read_line) at h in cc
    | inr (eq, f) ↦
        let h₁ = rw (e, f, read_line) at h in
        let same : take eq line ≡ key = ap (λ o. o.0) (some-injective _ _ h₁) in
        ap (λ k. starts_with (k ++ codes "=") line) (sym same) ∙ take-drop-equals line eq f
  ]
]

-- Any other line does not.
pub foreign-entry :
    (key line : Text) → starts_with (key ++ codes "=") line ≡ false → entry line key ≡ none
foreign-entry key line h = elim (Option-cases (read_line line)) [
  | inl e ↦ rw (e, entry) refl
  | inr ((k, v), e) ↦ elim (Bool-cases (text_eq key k)) [
    | inr differs ↦ rw (e, entry) (rw differs refl)
    | inl same ↦
        let is_key : key ≡ k = (text_eq_iff key k).0 same in
        let begins : starts_with (key ++ codes "=") line ≡ true =
          ap (λ t. starts_with (t ++ codes "=") line) is_key ∙ read_line-key line k v e in
        cc
  ]
]
