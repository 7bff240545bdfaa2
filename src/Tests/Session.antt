-- ===== src/Tests/Session.antt =====
-- src/session and src/orchestrator on concrete conversations and plans.
use llama_cli.Provider.Message.{Message}
use llama_cli.Json.Escape.{escape_json, escape_byte, unescape_json}
use llama_cli.Session.Store.{saved_object, load_object, save_session, saved_lines}
use llama_cli.Session.Reload.{load-saved_object}
use llama_cli.Base.{◌≡◌, refl, some, [], ◌∷◌, ◌++◌, codes, find}

-- a path with a backslash before an `n`
abbrev windows_path : Message
windows_path = record { role = codes "user"; content = codes "C:\\new"; rating = []; images = [] }

saved :
    save_session (windows_path ∷ [])
    ≡ codes "[\n  {\"role\":\"user\",\"content\":\"C:\\\\new\"}\n]\n"
unfolding save_session saved_lines saved_object escape_json escape_byte
saved = refl

user_plain : escape_json (codes "user") ≡ codes "user"
unfolding escape_json escape_byte
user_plain = refl

load-saved_object_example :
    load_object (saved_object windows_path ++ codes ",\n")
    ≡ some (
        record {
          role = codes "user";
          content = unescape_json (codes "C:\\new");
          rating = [];
          images = [];
        }
        ∷ [])
load-saved_object_example =
    load-saved_object windows_path (codes ",\n") (cc, (user_plain, unfold find in refl))

-- The content has a newline in the place of the backslash and the `n`.
decoded_twice : unescape_json (codes "C:\\new") ≡ codes "C:\new"
unfolding unescape_json
decoded_twice = refl
