-- ===== src/Config/Delegation.antt =====
-- src/config/delegation.cpp: the roles that an answer can delegate to, and their models.
use llama_cli.Base.Words.{getlines, drop_while}
use llama_cli.Base.{
  ℕ, ◌+◌, Bool, true, false, not, ◌&&◌, ◌||◌, Option, none, some, List, [], ◌∷◌, ltb, ◌==◌,
  if◌then◌else◌, length, take, drop, Text, codes, is_empty, text_eq, char_at, find,
}

pub record DelegationTarget : Type 0 where
  pub model : Text
  pub host : Text
  pub port : Text

unfoldable pub parse_target : Text → DelegationTarget
parse_target value = elim (find (codes "@") value) [
  | none ↦ record { model = value; host = []; port = [] }
  | some at ↦
      let host_port = drop (at + 1) value in
      elim (find (codes ":") host_port) [
        | some colon ↦ record {
          model = take at value;
          host = take colon host_port;
          port = drop (colon + 1) host_port;
        }
        | none ↦ record { model = take at value; host = host_port; port = [] }
      ]
]

abbrev pub Roles : Type 0
Roles = List (Text × DelegationTarget)

-- `roles[key] = target`
unfoldable pub set_role : Text → DelegationTarget → Roles → Roles
set_role key target [] = (key, target) ∷ []
set_role key target ((k, t) ∷ roles) =
    if text_eq key k then (k, target) ∷ roles else (k, t) ∷ set_role key target roles

unfoldable pub is_quote_or_blank : ℕ → Bool
is_quote_or_blank c = c == b' ' || c == b'"'

-- without blanks and quotes at the end
unfoldable pub trim_value_end : Text → Text
trim_value_end [] = []
trim_value_end (c ∷ s) =
    let rest = trim_value_end s in if is_empty rest && is_quote_or_blank c then [] else c ∷ rest

unfoldable pub trim_value : Text → Text
trim_value val = trim_value_end (drop_while is_quote_or_blank val)

-- a line `  key: value` under `roles:`
unfoldable pub read_role : Text → Roles → Roles
read_role line roles = elim (find (codes ":") line) [
  | none ↦ roles
  | some colon ↦
      let key = drop_while (λ c. c == b' ') (take colon line) in
      let val = trim_value (drop (colon + 1) line) in
      if not (is_empty key) && not (is_empty val)
      then set_role key (parse_target val) roles
      else roles
]

unfoldable pub read_role_lines : List Text → Bool → Roles → Roles
read_role_lines [] in_roles roles = roles
read_role_lines (line ∷ lines) in_roles roles = elim (is_empty line || char_at line 0 == b'#') [
  | true ↦ read_role_lines lines in_roles roles
  | false ↦ elim (text_eq line (codes "roles:") || text_eq line (codes "roles: ")) [
    | true ↦ read_role_lines lines true roles
    | false ↦ read_role_lines lines in_roles (
        if in_roles && (ltb 2 (length line) && char_at line 0 == b' ')
        then read_role line roles
        else roles)
  ]
]

-- The first of the three files that opens.
unfoldable pub load_roles : List (Option Text) → Roles
load_roles [] = []
load_roles (none ∷ files) = load_roles files
load_roles (some file ∷ files) = read_role_lines (getlines b'\n' file) false []

-- an unknown role has an empty target
unfoldable pub resolve_delegation : Roles → Text → DelegationTarget
resolve_delegation [] role = record { model = []; host = []; port = [] }
resolve_delegation ((key, target) ∷ roles) role =
    if text_eq role key then target else resolve_delegation roles role
