-- ===== src/Tests/Sync.antt =====
-- src/sync on concrete answers and commands.
use llama_cli.Base.Int.{pos, negsuc}
use llama_cli.Base.Words.{getlines, is_one_of, drop_while, take_while, any}
use llama_cli.Sync.Caps.{has_cap}
use llama_cli.Sync.Granted.{has_cap-is_one_of}
use llama_cli.Sync.ReadOnly.{is_read_only, is_safe_segment, all_safe}
use llama_cli.Sync.Commands.{is_read_only-pipe, is_read_only_any_arguments}
use llama_cli.Sync.Lines.{insert_line, erase_line, unlines}
use llama_cli.Json.Numbers.{max_int}
use llama_cli.Sync.Editing.{erase-add_line, insert_line_position}
use llama_cli.Sync.Process.{System, SyncConfig, Sync, process_sync_annotations}
use llama_cli.Sync.Safety.{process-IsCovered, IsCovered}
use llama_cli.Base.{
  ◌≤◌, ◌<◌, ◌≡◌, refl, true, false, ◌&&◌, some, [], ◌∷◌, ◌++◌, arith, length, get_elem?, All, Text,
  codes, find_from,
}

no_prefix : has_cap (codes "readonly,exec") (codes "read") ≡ false
unfolding has_cap find_from
no_prefix = refl

grep_passes : is_read_only (codes "cat a | grep b") ≡ true
unfolding is_read_only getlines all_safe is_safe_segment drop_while take_while any is_one_of
grep_passes = refl

has_cap-is_one_of_example :
    has_cap (codes "read,exec") (codes "exec")
    ≡ is_one_of (getlines b',' (codes "read,exec")) (codes "exec")
has_cap-is_one_of_example = has_cap-is_one_of (codes "read,exec") b'e' (codes "xec") (omega arith)

is_read_only-pipe_example :
    is_read_only (codes "cat a" ++ b'|' ∷ codes "rm b")
    ≡ (is_read_only (codes "cat a") && is_read_only (codes "rm b"))
is_read_only-pipe_example = is_read_only-pipe (codes "cat a") (codes "rm b")

is_read_only_any_arguments_example : is_read_only (codes "cat" ++ b' ' ∷ codes "a; rm -rf b") ≡ true
is_read_only_any_arguments_example =
    is_read_only_any_arguments b'c' (codes "at") (codes "a; rm -rf b") (unfold is_one_of in refl)
      (refl, (refl, (refl, tt))) (omega arith) (omega arith) (omega arith) (omega arith)

erase-add_line_example :
    erase_line
      (getlines b'\n' (unlines (insert_line (codes "x" ∷ []) (pos 9) (codes "y"))))
      (codes "y")
    ≡ some (codes "x" ∷ [])
erase-add_line_example =
    erase-add_line (codes "x" ∷ []) (pos 9) (codes "y") (omega arith) (omega arith)
      (ground arith, tt)

insert_line_position_example :
    (1 ≤ length (codes "x" ∷ [])
      → get_elem? (insert_line (codes "x" ∷ []) (pos 2) (codes "y")) 1 ≡ some (codes "y"))
    × (length (codes "x" ∷ []) < 1
        → insert_line (codes "x" ∷ []) (pos 2) (codes "y") ≡ (codes "x" ∷ []) ++ codes "y" ∷ [])
    × (insert_line (codes "x" ∷ []) (pos 0) (codes "y") ≡ codes "y" ∷ codes "x" ∷ [])
    × (1 < max_int
        → insert_line (codes "x" ∷ []) (negsuc 1) (codes "y") ≡ codes "y" ∷ codes "x" ∷ [])
    × (length (codes "x" ∷ []) < max_int
        → insert_line (codes "x" ∷ []) (negsuc max_int) (codes "y")
          ≡ (codes "x" ∷ []) ++ codes "y" ∷ [])
insert_line_position_example = insert_line_position (codes "x" ∷ []) 1 (codes "y")

-- a file system with one file, and a shell that prints nothing
abbrev one_file : System
one_file = record {
  State = Text;
  realpath = λ state path. some path;
  read = λ state path. some state;
  write = λ state path content. some content;
  run = λ state cmd timeout limit. (state, []);
}

abbrev config : SyncConfig
config = record {
  capabilities = codes "read,write";
  sandbox = codes "/w";
  exec_timeout = 5;
  max_output = 100;
}

process-IsCovered_example :
    (s : Sync one_file) × (process_sync_annotations one_file
        (λ a. [])
        (codes "<write file=\"/w/a\">x</write>")
        config
        []
      ≡ some s)
    × All (IsCovered one_file config) s.trace
process-IsCovered_example =
    process-IsCovered one_file config (λ a. []) (codes "<write file=\"/w/a\">x</write>") []
