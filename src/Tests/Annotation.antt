-- ===== src/Tests/Annotation.antt =====
-- src/annotation/annotation.cpp on concrete answers.
use llama_cli.Base.Int.{pos}
use llama_cli.Base.Collect.{collect}
use llama_cli.Annotation.Actions.{
  WriteAction, StrReplaceAction, ReadAction, SearchAction, AddLineAction, DeleteLineAction,
  DelegateAction,
}
use llama_cli.Annotation.Block.{attr, block_at, find_block, child_content}
use llama_cli.Annotation.Numbers.{stoi}
use llama_cli.Annotation.Parse.{
  parse_write_annotations, parse_str_replace_annotations, str_replace_step, parse_read_annotations,
  read_step, read_action, line_range, next_tag, parse_add_line_annotations,
  parse_delegate_annotations, delegate_step, trim_front, trim_back, parse_search_annotations,
  parse_delete_line_annotations,
}
use llama_cli.Annotation.Total.{parsers_total}
use llama_cli.Annotation.RoundTrip.{answer_text, IsWritable, parse_write-answer_text}
use llama_cli.Annotation.Strip.{
  strip_annotations, rewrite, summary, reset, strip_write_step, strip_str_replace_step,
  strip_read_step, strip_search_step, strip_add_line_step, strip_delete_line_step,
}
use llama_cli.Annotation.Runaway.{runaway, strip-runaway}
use llama_cli.Base.{◌≡◌, refl, none, some, List, [], ◌∷◌, ◌++◌, arith, codes, find, find_from}

replaced :
    parse_str_replace_annotations
      (codes "<str_replace path=\"a.c\"><old>x</old><new>y</new></str_replace>")
    ≡ some (record { path = codes "a.c"; old_str = codes "x"; new_str = codes "y" } ∷ [])
unfolding parse_str_replace_annotations collect str_replace_step find_block block_at attr
    child_content find_from
replaced = refl

-- the first number stays where the second is missing
half_range :
    parse_read_annotations (codes "<read path=\"a\" lines=\"10-\"/>")
    ≡ some (record { path = codes "a"; from_line = pos 10; to_line = pos 0; search = [] } ∷ [])
unfolding parse_read_annotations collect read_step next_tag read_action line_range stoi attr
    find_from
half_range = refl

delegated :
    parse_delegate_annotations (codes "<delegate type=\"code\">\n\ndo it\n</delegate>")
    ≡ some (record { role = codes "code"; prompt = codes "do it" } ∷ [])
unfolding parse_delegate_annotations collect delegate_step trim_front trim_back attr find_from
delegated = refl

stripped :
    strip_annotations [] [] 3 (codes "a <write file=\"p\">c</write> b")
    ≡ some (codes "a " ++ (codes "[proposed: write p]" ++ (reset ++ codes " b")))
unfolding strip_annotations rewrite summary strip_write_step strip_str_replace_step strip_read_step
    strip_search_step strip_add_line_step strip_delete_line_step find_from
stripped = refl

parsers_total_example :
    ((found : List WriteAction) × (parse_write_annotations (codes "<write file=") ≡ some found))
    × ((found : List StrReplaceAction) × (parse_str_replace_annotations (codes "<write file=")
          ≡ some found))
    × ((found : List ReadAction) × (parse_read_annotations (codes "<write file=") ≡ some found))
    × ((found : List SearchAction) × (parse_search_annotations (codes "<write file=") ≡ some found))
    × ((found : List AddLineAction) × (parse_add_line_annotations (codes "<write file=")
          ≡ some found))
    × ((found : List DeleteLineAction) × (parse_delete_line_annotations (codes "<write file=")
          ≡ some found))
    × ((found : List DelegateAction) × (parse_delegate_annotations (codes "<write file=")
          ≡ some found))
parsers_total_example = parsers_total (codes "<write file=")

abbrev hello : WriteAction
hello = record { path = codes "a.txt"; content = codes "<b>hi</b>\n" }

hello-IsWritable : IsWritable (codes "Sure: ") hello
hello-IsWritable = record {
  no_tag = omega arith;
  path_ne_nil = cc;
  no_quote = omega arith;
  no_bracket = omega arith;
  closed = unfold find in refl;
}

parse_write-answer_text_example :
    parse_write_annotations (answer_text ((codes "Sure: ", hello) ∷ []) (codes " Done."))
    ≡ some (hello ∷ [])
parse_write-answer_text_example =
    parse_write-answer_text ((codes "Sure: ", hello) ∷ []) (codes " Done.") (hello-IsWritable, tt)
      (omega arith)

strip-runaway_example : strip_annotations [] [] 1000 (runaway (codes "ok ") (codes " ") []) ≡ none
strip-runaway_example =
    strip-runaway [] [] (codes "ok ") (codes " ") [] tt (omega arith) (omega arith)
      (unfold find in refl) 1000
