-- ===== src/Config/Layers.antt =====
-- Which of the layers of src/config/config.cpp gives a field its value.
use llama_cli.Base.Cases.{if-cases}
use llama_cli.Base.Words.{getlines}
use llama_cli.Config.Settings.{Config}
use llama_cli.Config.View.{entry, later, lookup, view}
use llama_cli.Config.Dotenv.{
  read_line, Setting, dotenv_settings, set_first, set_key, load_line, load_lines, load_dotenv,
  env_set, load_variables,
}
use llama_cli.Config.Store.{lines_of}
use llama_cli.Base.{
  ◌≡◌, refl, sym, ap, ◌∙◌, inl, inr, false, Option, none, some, List, [], ◌∷◌, ◌++◌, if◌then◌else◌,
  Bool-cases, Option-cases, All, Text, text_eq, text_eq_iff,
}

-- the value, if there is one
abbrev pub or_else : Option Text → Text → Text
or_else none d = d
or_else (some v) d = v

pub or_else-later : (a b : Option Text) (d : Text) → or_else (later a b) d ≡ or_else a (or_else b d)
or_else-later none b d = refl
or_else-later (some v) b d = refl

module _ (field : Config → Text) where
  abbrev Leaves : (Text → Config → Config) → Type 0
  Leaves store = (val : Text) (c : Config) → field (store val c) ≡ field c

  env_set-other :
      (o : Option Text) (store : Text → Config → Config) (c : Config)
      → Leaves store
      → field (env_set o store c) ≡ field c
  unfolding env_set
  env_set-other none store c h = refl
  env_set-other (some val) store c h = h val c

  load_variables-other :
      (getenv : Text → Option Text) (settings : List Setting) (c : Config)
      → All (λ (s : Setting). Leaves s.1) settings
      → field (load_variables getenv settings c) ≡ field c
  unfolding load_variables
  load_variables-other getenv [] c h = refl
  load_variables-other getenv ((n, store) ∷ settings) c (hs, h) =
      load_variables-other getenv settings (env_set (getenv n) store c) h
      ∙ env_set-other (getenv n) store c hs

module _ (field : Config → Text) (name : Text) where
  -- the rows of other names leave the field alone
  abbrev OthersLeave : List Setting → Type 0
  OthersLeave = All (λ (s : Setting). text_eq name s.0 ≡ false → Leaves field s.1)

  set_first-other :
      (settings : List Setting) (key val : Text) (c : Config)
      → OthersLeave settings
      → text_eq name key ≡ false
      → field (set_first settings key val c) ≡ field c
  unfolding set_first
  set_first-other [] key val c h other = refl
  set_first-other ((n, store) ∷ settings) key val c (hs, h) other =
      if-cases (λ t. field t ≡ field c) (text_eq key n)
        (λ same. hs (ap (text_eq name) (sym ((text_eq_iff key n).0 same)) ∙ other) val c)
        (λ _. set_first-other settings key val c h other)

  module _ (others : OthersLeave dotenv_settings)
      (own : (val : Text) (c : Config) → field (set_key name val c) ≡ val) where
    set_key-field :
        (key val : Text) (c : Config)
        → field (set_key key val c)
          ≡ or_else (if text_eq name key then some val else none) (field c)
    unfolding set_key
    set_key-field key val c = elim (Bool-cases (text_eq name key)) [
      | inl e ↦ rw (e, ← (text_eq_iff name key).0 e) (own val c)
      | inr e ↦ rw e (set_first-other dotenv_settings key val c others e)
    ]

    load_line-field :
        (line : Text) (c : Config) → field (load_line line c) ≡ or_else (entry line name) (field c)
    unfolding load_line
    load_line-field line c = elim (Option-cases (read_line line)) [
      | inl e ↦ rw (e, load_line, entry) refl
      | inr ((key, val), e) ↦ rw (e, load_line, entry) (set_key-field key val c)
    ]

    load_lines-field :
        (lines : List Text) (c : Config)
        → field (load_lines lines c) ≡ or_else (lookup lines name) (field c)
    unfolding load_lines lookup
    load_lines-field [] c = refl
    load_lines-field (line ∷ lines) c =
        load_lines-field lines (load_line line c)
        ∙ ap (or_else (lookup lines name)) (load_line-field line c)
        ∙ sym (or_else-later (lookup lines name) (entry line name) (field c))

    -- the file over what was there
    pub load_dotenv-field :
        (dotenv : Option Text) (c : Config)
        → field (load_dotenv dotenv c) ≡ or_else (view dotenv name) (field c)
    unfolding load_dotenv lookup lines_of
    load_dotenv-field none c = refl
    load_dotenv-field (some content) c = load_lines-field (getlines b'\n' content) c

load_variables-append :
    (getenv : Text → Option Text) (xs ys : List Setting) (c : Config)
    → load_variables getenv (xs ++ ys) c ≡ load_variables getenv ys (load_variables getenv xs c)
unfolding load_variables
load_variables-append getenv [] ys c = refl
load_variables-append getenv ((n, store) ∷ xs) ys c =
    load_variables-append getenv xs ys (env_set (getenv n) store c)

-- the variable of a row over what was there, where the other rows leave the field alone
pub load_variables-row :
    (field : Config → Text) (getenv : Text → Option Text) (before after : List Setting)
    (name : Text) (store : Text → Config → Config) (c : Config)
    → All (λ (s : Setting). Leaves field s.1) before
    → All (λ (s : Setting). Leaves field s.1) after
    → ((val : Text) (c : Config) → field (store val c) ≡ val)
    → field (load_variables getenv (before ++ (name, store) ∷ after) c)
      ≡ or_else (getenv name) (field c)
unfolding env_set load_variables
load_variables-row field getenv before after name store c hb ha own =
    let c₁ = load_variables getenv before c in
    ap field (load_variables-append getenv before ((name, store) ∷ after) c)
    ∙ load_variables-other field getenv after (env_set (getenv name) store c₁) ha
    ∙ own_value (getenv name) c₁ (load_variables-other field getenv before c hb)
  where
    own_value :
        (o : Option Text) (d : Config)
        → field d ≡ field c
        → field (env_set o store d) ≡ or_else o (field c)
    own_value none d e = e
    own_value (some val) d e = own val d
