-- ===== src/Tests/Rounds.antt =====
-- The commands and the loop of src/repl on concrete input.
use llama_cli.Base.Int.{pos}
use llama_cli.Base.Words.{rfind}
use llama_cli.Annotation.Numbers.{stoi}
use llama_cli.Provider.Message.{Message}
use llama_cli.Provider.Registry.{ModelEntry, cloud_entry, free_tier, general}
use llama_cli.Config.Settings.{default_config}
use llama_cli.Repl.Chat.{message}
use llama_cli.Repl.Chats.{
  save_chat, load_chat, load_chat_from, chat_step, chat_content, chat_lines, chat_object,
  chat_escape, chat_byte, up_to_quote,
}
use llama_cli.Repl.Reload.{load_chat-save_chat, texts_only}
use llama_cli.Repl.Base64.{base64, encode_from, sextets, with_padding, standard, base64-standard}
use llama_cli.Repl.Panel.{Outside, running, Extras, Panel, Shell}
use llama_cli.Repl.Notes.{is_assistant, rating_of, handle_rate}
use llama_cli.Repl.Rated.{answers, handle_rate_number}
use llama_cli.Repl.Switch.{handle_use}
use llama_cli.Repl.Fits.{Suits, wanted_text}
use llama_cli.Repl.Picked.{Takes, handle_use-Takes}
use llama_cli.Repl.Loop.{run_repl, path_completions, names_with, resolved_dir}
use llama_cli.Repl.Session.{Agreed, run_repl-Consented}
use llama_cli.Repl.Consented.{Ends}
use llama_cli.Tests.Repl.{desk, session, never}
use llama_cli.Base.{
  suc, suc, ◌≡◌, refl, true, false, none, some, List, [], ◌∷◌, ◌++◌, arith, codes, text_eq,
  starts_with, find,
}

abbrev outside : Outside desk
outside = record {
  make_dir = λ files path. files;
  remove = λ files path. none;
  entries = λ files path. none;
  paste = λ files. none;
  ask = λ files history. (files, []);
  scan = λ files. [];
  poll = λ files task. running;
  switch_to = none;
  display_name = λ host. host;
  messages_of = λ name. 0;
  chat_dir = codes "chats/";
  subnet = [];
  version = codes "1";
  help_text = λ all. [];
  page_size = 21;
  personas = [];
  prompt_of = λ name. [];
}

abbrev registry : List ModelEntry
registry =
    record (cloud_entry (codes "qwen:7b") (codes "ollama") free_tier (general ∷ [])) {
      host = codes "box:1";
    }
    ∷ []

abbrev extras : Extras desk
extras = record {
  bofh = false;
  warmup = false;
  mask_pii = false;
  private_mode = false;
  spinner_name = [];
  prompt_color = [];
  system_prompt = [];
  config = default_config [];
  registry = registry;
}

abbrev shell : Shell desk
shell = record {
  repl = session (codes "/clear" ∷ codes "!ls" ∷ codes "exit" ∷ []) (codes "build");
  extras = extras;
}

abbrev panel : Panel desk
panel = record {
  state = [];
  input = [];
  out = [];
  color = false;
  markdown = false;
  tips_enabled = true;
  ai_color = [];
  last_assistant_idx = pos 0;
  history = message (codes "user") (codes "hi") ∷ message (codes "assistant") (codes "yes") ∷ [];
  tasks = [];
  active_agent = [];
  exec_timeout = 9;
  agents = [];
  extras = extras;
}

run_repl-Consented_example :
    Ends true
      (Agreed desk outside
        (λ command arg p. p)
        never
        (λ files agent text history. (files, []))
        (codes "1")
        false
        false
        true)
      (run_repl desk outside
        (λ command arg p. p)
        never
        (λ files agent text history. (files, []))
        (codes "1")
        3
        9
        shell)
run_repl-Consented_example =
    run_repl-Consented desk outside (λ command arg p. p) never
      (λ files agent text history. (files, [])) (codes "1") false false true 3 9 shell
      (record { consented = tt; trusted = λ e. cc; confirming = refl; mode = refl })

abbrev talk : List Message
talk =
    message (codes "user") (codes "say \"hi\"\n") ∷ message (codes "assistant") (codes "\\o/") ∷ []

load_chat-save_chat_example : load_chat (save_chat talk) ≡ some (texts_only talk)
load_chat-save_chat_example = load_chat-save_chat talk (
  ((omega arith, (omega arith, (omega arith, (omega arith, tt)))), omega arith),
  (
    (
      (
        omega arith,
        (
          omega arith,
          (
            omega arith,
            (
              omega arith,
              (omega arith, (omega arith, (omega arith, (omega arith, (omega arith, tt))))),
            ),
          ),
        ),
      ),
      omega arith,
    ),
    tt,
  ),
)

-- A content that ends in a backslash runs on into the next message.
runs_on :
    load_chat (save_chat (message (codes "user") (codes "a\\") ∷ []))
    ≡ some (message (codes "user") (codes "a\\\"}\n]\n") ∷ [])
unfolding load_chat save_chat load_chat_from chat_step chat_content chat_lines chat_object
    chat_escape chat_byte up_to_quote find starts_with
runs_on = refl

base64-standard_example : base64 (codes "light") ≡ standard (codes "light")
base64-standard_example =
    base64-standard (codes "light")
      (omega arith, (omega arith, (omega arith, (omega arith, (omega arith, tt)))))

encodes : base64 (codes "Ma") ≡ codes "TWE="
unfolding base64 encode_from sextets with_padding
encodes = refl

handle_use-Takes_example :
    Takes desk outside
      (Suits (codes "box") (codes "ollama") (codes "qwen"))
      registry
      (default_config [])
      (handle_use desk outside
        (wanted_text (codes "box") (codes "ollama") (codes "qwen"))
        panel).extras.config
handle_use-Takes_example =
    handle_use-Takes desk outside (codes "box") (codes "ollama") (codes "qwen") panel
      (omega arith, (omega arith, (omega arith, tt)))
      (omega arith, (omega arith, (omega arith, (omega arith, (omega arith, (omega arith, tt))))))

is_answer : is_assistant (message (codes "assistant") (codes "yes")) ≡ true
unfolding text_eq
is_answer = refl

is_first : stoi (codes "1") ≡ some (pos (suc (answers (message (codes "user") (codes "hi") ∷ []))))
unfolding text_eq stoi
is_first = refl

is_good : rating_of (codes "+") ≡ some (codes "positive")
unfolding rating_of text_eq
is_good = refl

handle_rate_number_example :
    (handle_rate desk outside (codes "1" ++ b' ' ∷ codes "+") panel).history
    ≡ message (codes "user") (codes "hi")
      ∷ record (message (codes "assistant") (codes "yes")) { rating = codes "positive" }
      ∷ []
handle_rate_number_example =
    handle_rate_number desk outside (codes "1") (codes "+") (codes "positive") panel
      (message (codes "user") (codes "hi") ∷ []) (message (codes "assistant") (codes "yes")) [] refl
      is_answer (omega arith, tt) (λ e. cc) is_first is_good

-- Completion in the current directory puts a dot before the name.
completed :
    path_completions (λ dir. some ((codes "foo", false) ∷ [])) none (codes "f") (codes "!")
    ≡ codes "!.foo" ∷ []
unfolding path_completions names_with resolved_dir rfind text_eq starts_with
completed = refl
