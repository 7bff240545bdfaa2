-- ===== src/Sync/ReadOnly.antt =====
-- src/sync/sync.cpp: `is_read_only`.
use llama_cli.Base.Words.{getlines, drop_while, take_while, any, is_one_of}
use llama_cli.Base.{ℕ, Bool, true, not, ◌&&◌, ◌||◌, List, [], ◌∷◌, ◌==◌, Text, codes, is_empty}

abbrev pub read_only_commands : List Text
read_only_commands =
    codes "cat"
    ∷ codes "ls"
    ∷ codes "find"
    ∷ codes "grep"
    ∷ codes "head"
    ∷ codes "tail"
    ∷ codes "wc"
    ∷ codes "stat"
    ∷ codes "tree"
    ∷ codes "du"
    ∷ codes "df"
    ∷ codes "file"
    ∷ codes "diff"
    ∷ codes "sort"
    ∷ codes "uniq"
    ∷ codes "awk"
    ∷ codes "sed"
    ∷ codes "less"
    ∷ codes "more"
    ∷ codes "realpath"
    ∷ codes "dirname"
    ∷ codes "basename"
    ∷ []

abbrev pub is_blank : ℕ → Bool
is_blank c = c == b' ' || c == b'\t'

-- a segment of a pipeline is all blank, or its first word is a safe command
unfoldable pub is_safe_segment : Text → Bool
is_safe_segment segment =
    let words = drop_while is_blank segment in
    is_empty words || is_one_of read_only_commands (take_while (λ c. not (is_blank c)) words)

unfoldable pub all_safe : List Text → Bool
all_safe [] = true
all_safe (segment ∷ segments) = is_safe_segment segment && all_safe segments

unfoldable pub is_read_only : Text → Bool
is_read_only cmd = not (any (λ c. c == b'>') cmd) && all_safe (getlines b'|' cmd)
