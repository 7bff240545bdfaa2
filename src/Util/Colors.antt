-- ===== src/Util/Colors.antt =====
-- src/util/util.cpp: `color_name_to_ansi` and `ansi_to_name`, chains of tests with a default.
use llama_cli.Base.{
  ◌≡◌, refl, sym, ◌∙◌, ◌≢◌, inl, inr, Bool, true, ◌&&◌, List, [], ◌∷◌, arith, if◌then◌else◌,
  Bool-cases, Text, codes, text_eq, text_eq_iff,
}

-- the chain of tests, the first one that holds
unfoldable pub lookup_or : Text → List (Text × Text) → Text → Text
lookup_or default [] s = default
lookup_or default ((key, value) ∷ table) s =
    if text_eq s key then value else lookup_or default table s

-- "none", "default" and unknown names have no code
unfoldable pub color_table : List (Text × Text)
color_table =
    (codes "black", codes "30")
    ∷ (codes "red", codes "31")
    ∷ (codes "green", codes "32")
    ∷ (codes "yellow", codes "33")
    ∷ (codes "blue", codes "34")
    ∷ (codes "magenta", codes "35")
    ∷ (codes "cyan", codes "36")
    ∷ (codes "white", codes "37")
    ∷ (codes "bright-red", codes "91")
    ∷ (codes "bright-green", codes "92")
    ∷ (codes "bright-yellow", codes "93")
    ∷ (codes "bright-blue", codes "94")
    ∷ (codes "bright-magenta", codes "95")
    ∷ (codes "bright-cyan", codes "96")
    ∷ (codes "bright-white", codes "97")
    ∷ (codes "orange", codes "38;5;208")
    ∷ (codes "pink", codes "38;5;213")
    ∷ (codes "purple", codes "38;5;129")
    ∷ (codes "lime", codes "38;5;118")
    ∷ []

unfoldable pub color_name_to_ansi : Text → Text
color_name_to_ansi name = lookup_or [] color_table name

unfoldable pub name_table : List (Text × Text)
name_table =
    (codes "30", codes "black")
    ∷ (codes "31", codes "red")
    ∷ (codes "32", codes "green")
    ∷ (codes "33", codes "yellow")
    ∷ (codes "34", codes "blue")
    ∷ (codes "35", codes "magenta")
    ∷ (codes "36", codes "cyan")
    ∷ (codes "37", codes "white")
    ∷ (codes "91", codes "bright-red")
    ∷ (codes "92", codes "bright-green")
    ∷ (codes "93", codes "bright-yellow")
    ∷ (codes "94", codes "bright-blue")
    ∷ (codes "95", codes "bright-magenta")
    ∷ (codes "96", codes "bright-cyan")
    ∷ (codes "97", codes "bright-white")
    ∷ (codes "38;5;208", codes "orange")
    ∷ (codes "38;5;213", codes "pink")
    ∷ (codes "38;5;129", codes "purple")
    ∷ (codes "38;5;118", codes "lime")
    ∷ []

unfoldable pub ansi_to_name : Text → Text
ansi_to_name code = lookup_or (codes "none") name_table code

inverts : List (Text × Text) → Bool
inverts [] = true
inverts ((name, code) ∷ table) = text_eq (ansi_to_name code) name && inverts table

inverts_table : inverts color_table ≡ true
unfolding inverts color_table ansi_to_name lookup_or name_table text_eq
inverts_table = refl

ansi_to_name-lookup_or :
    (table : List (Text × Text)) (name : Text)
    → inverts table ≡ true
    → lookup_or [] table name ≢ []
    → ansi_to_name (lookup_or [] table name) ≡ name
unfolding inverts lookup_or
ansi_to_name-lookup_or [] name h known = absurd (known refl)
ansi_to_name-lookup_or ((key, code) ∷ table) name h known = elim (Bool-cases (text_eq name key)) [
  | inl here ↦
      rw (here, lookup_or)
        ((text_eq_iff (ansi_to_name code) key).0 (ground (arith, h))
          ∙ sym ((text_eq_iff name key).0 here))
  | inr later ↦
      rw (later, lookup_or)
        (ansi_to_name-lookup_or table name (ground (arith, h))
          (λ e. known (rw (later, lookup_or) e)))
]

-- `ansi_to_name` gives the name of every colour back that has a code.
pub ansi_to_name-color_name_to_ansi :
    (name : Text) → color_name_to_ansi name ≢ [] → ansi_to_name (color_name_to_ansi name) ≡ name
unfolding color_name_to_ansi
ansi_to_name-color_name_to_ansi name known =
    ansi_to_name-lookup_or color_table name inverts_table known
