-- ===== src/Planner/Classify.antt =====
-- src/planner/planner.cpp: `classify_prompt`.
use llama_cli.Base.Words.{contains_any}
use llama_cli.Config.Options.{words_from}
use llama_cli.Base.{
  ℕ, suc, ◌+◌, Bool, ◌&&◌, ◌||◌, List, [], ◌∷◌, map, ltb, leb, ◌==◌, if◌then◌else◌, length, Text,
  codes,
}

pub data Complexity : Type 0 where
  simple_prompt : Complexity
  medium_prompt : Complexity
  complex_prompt : Complexity

-- `std::tolower` of a byte
abbrev pub lower_byte : ℕ → ℕ
lower_byte c = if leb b'A' c && leb c b'Z' then c + 32 else c

unfoldable pub to_lower : Text → Text
to_lower s = map lower_byte s

unfoldable pub word_count : Text → ℕ
word_count s = length (words_from s [])

unfoldable pub count_byte : ℕ → Text → ℕ
count_byte b [] = 0
count_byte b (c ∷ s) = if c == b then suc (count_byte b s) else count_byte b s

unfoldable pub code_markers : List Text
code_markers =
    codes "function"
    ∷ codes "class "
    ∷ codes "def "
    ∷ codes "import "
    ∷ codes "include"
    ∷ codes "struct "
    ∷ codes "async"
    ∷ codes "await"
    ∷ codes "->"
    ∷ codes "=>"
    ∷ codes "```"
    ∷ codes "compile"
    ∷ codes "debug"
    ∷ codes "refactor"
    ∷ codes "implement"
    ∷ codes "algorithm"
    ∷ []

unfoldable pub complexity_markers : List Text
complexity_markers =
    codes "explain"
    ∷ codes "compare"
    ∷ codes "design"
    ∷ codes "architect"
    ∷ codes "tradeoff"
    ∷ codes "pros and cons"
    ∷ codes "step by step"
    ∷ codes "analyze"
    ∷ codes "review"
    ∷ codes "why does"
    ∷ codes "how would you"
    ∷ []

unfoldable pub has_code_markers : Text → Bool
has_code_markers prompt = contains_any code_markers (to_lower prompt)

unfoldable pub has_complexity_markers : Text → Bool
has_complexity_markers prompt = contains_any complexity_markers (to_lower prompt)

unfoldable pub classify_prompt : Text → Complexity
classify_prompt prompt =
    let words = word_count prompt in
    let questions = count_byte b'?' prompt in
    if has_code_markers prompt
      || (ltb 2 questions || (ltb 90 words || has_complexity_markers prompt))
    then complex_prompt
    else if ltb 30 words || ltb 0 questions
    then medium_prompt
    else simple_prompt
