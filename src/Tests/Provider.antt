-- ===== src/Tests/Provider.antt =====
-- Runs of the router at two hosts, of which the first never answers.
use llama_cli.Provider.Message.{Message}
use llama_cli.Provider.MultiHost.{
  Backend, HostEntry, MultiHost, endpoint, create, failover, list_models, is_small_model,
  small_tags, find_host_for_model,
}
use llama_cli.Provider.Failover.{IsValid, failover_lem, Switched, Stranded, marked_down}
use llama_cli.Provider.Routing.{IsChoice, find_host_for_model-IsChoice}
use llama_cli.Provider.Models.{offered, Distinct, list_models_lem}
use llama_cli.Provider.Calls.{chats, chats_total}
use llama_cli.Base.Words.{is_one_of, contains_any}
use llama_cli.Base.{
  ℕ, suc, ◌<◌, ◌≡◌, refl, ◌⊎◌, Bool, true, false, some, List, [], ◌∷◌, arith, if◌then◌else◌, length,
  Text, codes, text_eq, find,
}

-- The world counts the requests.
abbrev two_servers : Backend
two_servers = record {
  World = ℕ;
  models_of = λ server w. (codes "gemma" ∷ [], w);
  infos_of = λ server w. ([], w);
  running = λ server name w. (true, w);
  ask = λ server messages w. (if text_eq server.host (codes "b") then codes "hi" else [], suc w);
  ask_stream = λ server messages w. ([], suc w);
  small_system_prompt = codes "short";
}

abbrev two_hosts : List Text
two_hosts = codes "a:1" ∷ codes "b" ∷ []

abbrev hello : Message
hello = record { role = codes "user"; content = codes "hello"; rating = []; images = [] }

abbrev router : MultiHost
router = (create two_servers two_hosts (codes "gemma") 0).0

split_port : endpoint (codes "a:1") [] ≡ record { host = codes "a"; port = codes "1"; model = [] }
unfolding endpoint find
split_port = refl

small : is_small_model (codes "gemma:2b") ≡ true
unfolding is_small_model contains_any small_tags find
small = refl

chats_total_example :
    (r : List Text × (MultiHost × ℕ)) × ((chats two_servers
          ((hello ∷ []) ∷ [])
          (create two_servers two_hosts (codes "gemma") 0).0
          (create two_servers two_hosts (codes "gemma") 0).1
        ≡ some r)
      × ((length r.0 ≡ 1) × IsValid r.1.0))
chats_total_example = chats_total two_servers two_hosts (codes "gemma") 0 ((hello ∷ []) ∷ []) cc

abbrev entry : Text → Bool → HostEntry
entry hp up = record { provider = endpoint hp []; models = codes "gemma" ∷ []; healthy = up }

abbrev three : MultiHost
three = record {
  hosts = entry (codes "a") true ∷ entry (codes "b") false ∷ entry (codes "c") true ∷ [];
  target = codes "gemma";
  active_idx = 2;
}

failover_lem_example :
    (h : HostEntry) × ((r : Bool × MultiHost) × ((failover three ≡ some r)
        × ((r.1.hosts ≡ marked_down three h)
            × ((r.1.target ≡ codes "gemma")
                × (((r.0 ≡ true) × Switched three r.1) ⊎ ((r.0 ≡ false) × Stranded three r.1))))))
failover_lem_example = failover_lem three (omega arith)

find_host_for_model-IsChoice_example :
    (find_host_for_model three.hosts (codes "gemma") < 3)
    × IsChoice (codes "gemma") three.hosts (find_host_for_model three.hosts (codes "gemma"))
find_host_for_model-IsChoice_example = find_host_for_model-IsChoice three.hosts (codes "gemma") cc

list_models_lem_example :
    ((t : Text) → is_one_of (list_models three) t ≡ offered three.hosts t)
    × Distinct (list_models three)
list_models_lem_example = list_models_lem three
