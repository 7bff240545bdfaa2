-- ===== src/Command/Read.antt =====
-- src/command/command.cpp: `cmd_read`. `content` is the file read to its end, none if it does not open;
-- `to_string` prints a count as an `int`.
use llama_cli.Provider.Message.{Message}
use llama_cli.Planner.Classify.{count_byte}
use llama_cli.Base.{ℕ, Bool, true, false, Option, none, some, List, [], ◌∷◌, ◌++◌, Text, codes}

pub record ReadOutcome : Type 0 where
  pub history : List Message
  pub out : Text
  pub result : Bool

-- the dash is three bytes
unfoldable pub cmd_read : (ℕ → Text) → Option Text → Text → List Message → Text → ReadOutcome
cmd_read to_string none path history out = record {
  history = history;
  out = out ++ (codes "Error: could not read " ++ (path ++ codes "\n"));
  result = false;
}
cmd_read to_string (some content) path history out = record {
  history =
      history
      ++ record {
        role = codes "user";
        content = codes "[file: " ++ (path ++ (codes "]\n" ++ content));
        rating = [];
        images = [];
      }
        ∷ [];
  out =
      out
      ++ (codes "[loaded "
          ++ (path
              ++ (codes " "
                  ++ 226
                    ∷ 128
                    ∷ 148
                    ∷ (codes " " ++ (to_string (count_byte b'\n' content) ++ codes " lines]\n")))));
  result = true;
}
