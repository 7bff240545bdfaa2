-- ===== src/Config/Hosts.antt =====
-- src/config/config.cpp: the registry of hosts, `load_hosts_json` and `save_hosts_json`.
use llama_cli.Base.Collect.{collect}
use llama_cli.Json.Braces.{json_extract_object_at}
use llama_cli.Json.Strings.{json_extract_string}
use llama_cli.Json.Escape.{escape_json}
use llama_cli.Config.Settings.{HostEntry}
use llama_cli.Base.{
  ℕ, ◌+◌, Option, none, some, List, [], ◌∷◌, ◌++◌, if◌then◌else◌, ◌>>=◌, length, Text, codes,
  is_empty, find_from,
}

-- the objects of the file, each from a brace on
unfoldable pub object_step : Text → ℕ → Option (ℕ × List Text)
object_step content at = do
  brace ← find_from (codes "{") content at
  let obj = json_extract_object_at content brace
  if is_empty obj then none else some (brace + length obj, obj ∷ [])

-- the entry of an object; `none` is an exception of the decoder of strings
unfoldable pub host_entry : Text → Option HostEntry
host_entry obj = do
  name ← json_extract_string obj (codes "name")
  host ← json_extract_string obj (codes "host")
  p ← json_extract_string obj (codes "port")
  note ← json_extract_string obj (codes "note")
  ip ← json_extract_string obj (codes "ip")
  some (record {
    name = name;
    host = host;
    port = if is_empty p then codes "11434" else p;
    note = note;
    ip = ip;
  })

-- the entries that have a host
unfoldable pub host_entries : List Text → Option (List HostEntry)
host_entries [] = some []
host_entries (obj ∷ objs) = do
  e ← host_entry obj
  entries ← host_entries objs
  some (if is_empty e.host then entries else e ∷ entries)

-- no content is a file that cannot be opened; the fuel is a round for each byte
unfoldable pub load_hosts_json : Option Text → Option (List HostEntry)
load_hosts_json none = some []
load_hosts_json (some content) = do
  objs ← collect (object_step content) (length content + 1) 0
  host_entries objs

unfoldable pub host_line : HostEntry → Text
host_line e =
    codes "  { \"name\": \""
    ++ (escape_json e.name
        ++ (codes "\", \"host\": \""
            ++ (escape_json e.host
                ++ (codes "\", \"port\": \""
                    ++ (e.port
                        ++ (codes "\", \"ip\": \""
                            ++ (escape_json e.ip
                                ++ (codes "\", \"note\": \""
                                    ++ (escape_json e.note ++ codes "\" }")))))))))

unfoldable pub host_lines : List HostEntry → Text
host_lines [] = []
host_lines (e ∷ []) = host_line e ++ codes "\n"
host_lines (e ∷ f ∷ hosts) = host_line e ++ (codes ",\n" ++ host_lines (f ∷ hosts))

-- the content that is written
unfoldable pub save_hosts_json : List HostEntry → Text
save_hosts_json hosts = codes "[\n" ++ (host_lines hosts ++ codes "]\n")
