-- ===== src/Sync/Paths.antt =====
-- src/sync/sync.cpp: `path_allowed`. `realpath` is the system's: the absolute path without links,
-- or nothing if the path does not exist.
use llama_cli.Base.Words.{rfind}
use llama_cli.Base.{
  Bool, false, ◌||◌, Option, none, some, ◌++◌, take, Text, codes, text_eq, starts_with,
}

unfoldable pub is_within : Text → Text → Bool
is_within resolved root = text_eq resolved root || starts_with (root ++ codes "/") resolved

unfoldable pub parent_of : Text → Text
parent_of path = elim (rfind b'/' path) [ none ↦ codes "." | some slash ↦ take slash path ]

module _ (realpath : Text → Option Text) where
  unfoldable pub path_allowed : Text → Text → Bool
  path_allowed path sandbox = elim (realpath sandbox) [
    | none ↦ false
    | some root ↦ elim (realpath path) [
      | some resolved ↦ is_within resolved root
      | none ↦ elim (realpath (parent_of path)) [
        | none ↦ false
        | some resolved ↦ is_within resolved root
      ]
    ]
  ]
