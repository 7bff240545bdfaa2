-- ===== src/Provider/MultiHost.antt =====
-- src/provider/multi_host_provider.cpp: `MultiHostProvider`. A host's server is a backend that a
-- request changes. `none` is a read outside of `hosts_`.
use llama_cli.Base.Words.{is_one_of, contains_any}
use llama_cli.Provider.Message.{Message, ModelInfo}
use llama_cli.Base.{
  ℕ, zero, suc, ◌+◌, ◌-◌, ◌%◌, Bool, true, false, not, ◌&&◌, Option, none, some, List, [], ◌∷◌,
  ◌++◌, if◌then◌else◌, ◌>>=◌, length, get_elem?, set, take, drop, Text, codes, is_empty, text_eq,
  find,
}

pub record Endpoint : Type 0 where
  pub host : Text
  pub port : Text
  pub model : Text

-- the requests of an `OllamaProvider`, and a prompt that the build generates
pub record Backend : Type 1 where
  pub World : Type 0
  pub models_of : Endpoint → World → List Text × World
  pub infos_of : Endpoint → World → List ModelInfo × World
  pub running : Endpoint → Text → World → Bool × World
  pub ask : Endpoint → List Message → World → Text × World
  pub ask_stream : Endpoint → List Message → World → Text × World
  pub small_system_prompt : Text

pub record HostEntry : Type 0 where
  pub provider : Endpoint
  pub models : List Text
  pub healthy : Bool

pub record MultiHost : Type 0 where
  pub hosts : List HostEntry
  pub target : Text
  pub active_idx : ℕ

unfoldable pub endpoint : Text → Text → Endpoint
endpoint hp model = elim (find (codes ":") hp) [
  | none ↦ record { host = hp; port = codes "11434"; model = model }
  | some colon ↦ record { host = take colon hp; port = drop (colon + 1) hp; model = model }
]

unfoldable pub small_tags : List Text
small_tags =
    codes ":1b"
    ∷ codes ":2b"
    ∷ codes ":3b"
    ∷ codes ":4b"
    ∷ codes ":7b"
    ∷ codes ":1B"
    ∷ codes ":2B"
    ∷ codes ":3B"
    ∷ codes ":4B"
    ∷ codes ":7B"
    ∷ codes ":e2b"
    ∷ codes ":e4b"
    ∷ codes ":E2B"
    ∷ codes ":E4B"
    ∷ []

unfoldable pub is_small_model : Text → Bool
is_small_model = contains_any small_tags

-- the first loop of `find_host_for_model`
unfoldable pub serving_host : Text → List HostEntry → ℕ → Option ℕ
serving_host name [] i = none
serving_host name (h ∷ hosts) i =
    let later = serving_host name hosts (suc i) in
    if not h.healthy then later else if is_one_of h.models name then some i else later

-- the second one
unfoldable pub healthy_host : List HostEntry → ℕ → Option ℕ
healthy_host [] i = none
healthy_host (h ∷ hosts) i =
    let later = healthy_host hosts (suc i) in if h.healthy then some i else later

unfoldable pub find_host_for_model : List HostEntry → Text → ℕ
find_host_for_model hosts name = elim (serving_host name hosts 0) [
  | some i ↦ i
  | none ↦ elim (healthy_host hosts 0) [ some i ↦ i | none ↦ 0 ]
]

unfoldable pub healthy_at : List HostEntry → ℕ → Bool
healthy_at hosts i = elim (get_elem? hosts i) [ none ↦ false | some h ↦ h.healthy ]

-- the loop of `failover`, which counts `i` up to the number of hosts
unfoldable pub next_healthy : List HostEntry → ℕ → ℕ → ℕ → Option ℕ
next_healthy hosts active i zero = none
next_healthy hosts active i (suc rounds) =
    let idx = (active + i) % length hosts in
    let later = next_healthy hosts active (suc i) rounds in
    if healthy_at hosts idx then some idx else later

unfoldable pub failover : MultiHost → Option (Bool × MultiHost)
failover m = elim (get_elem? m.hosts m.active_idx) [
  | none ↦ none
  | some h ↦
      let hosts = set m.hosts m.active_idx (record h { healthy = false }) in
      elim (next_healthy hosts m.active_idx 1 (length hosts - 1)) [
        | some idx ↦ some (true, record m { hosts = hosts; active_idx = idx })
        | none ↦ some (false, record m { hosts = hosts })
      ]
]

-- `m` is pushed unless `std::find` finds it
unfoldable pub add_new : List Text → List Text → List Text
add_new [] all = all
add_new (m ∷ models) all = add_new models (if is_one_of all m then all else all ++ m ∷ [])

unfoldable pub list_models_from : List HostEntry → List Text → List Text
list_models_from [] all = all
list_models_from (h ∷ hosts) all =
    if h.healthy then list_models_from hosts (add_new h.models all) else list_models_from hosts all

unfoldable pub list_models : MultiHost → List Text
list_models m = list_models_from m.hosts []

unfoldable pub adjust : Text → Text → List Message → List Message
adjust prompt name [] = []
adjust prompt name (first ∷ messages) =
    if is_small_model name && text_eq first.role (codes "system")
    then record first { content = prompt } ∷ messages
    else first ∷ messages

module _ (backend : Backend) where
  open backend use {World, models_of, infos_of, running, ask, ask_stream, small_system_prompt}

  -- the loop of the constructor: each host is asked for its models
  unfoldable pub probe : List Text → Text → World → List HostEntry × World
  probe [] model w = ([], w)
  probe (hp ∷ hosts) model w =
      let (models, w₁) = models_of (endpoint hp model) w in
      let (entries, w₂) = probe hosts model w₁ in
      (
        record {
          provider = endpoint hp model;
          models = models;
          healthy = elim models [ [] ↦ false | _ ∷ _ ↦ true ];
        }
            ∷ entries,
        w₂,
      )

  unfoldable pub create : List Text → Text → World → MultiHost × World
  create hosts model w =
      let (entries, w₁) = probe hosts model w in
      (
        record { hosts = entries; target = model; active_idx = find_host_for_model entries model },
        w₁,
      )

  -- a request to the active host, and once more to the next one when the answer is empty
  unfoldable pub request :
      (Endpoint → World → Text × World) → MultiHost → World → Option (Text × (MultiHost × World))
  request call m w = do
    h ← get_elem? m.hosts m.active_idx
    let (result, w₁) = call h.provider w
    if not (is_empty result)
        then some (result, (m, w₁))
        else failover m >>= λ (switched, m₁).
            if not switched
            then some (result, (m₁, w₁))
            else get_elem? m₁.hosts m₁.active_idx >>= λ next.
                let (again, w₂) = call next.provider w₁ in some (again, (m₁, w₂))

  unfoldable pub chat : List Message → MultiHost → World → Option (Text × (MultiHost × World))
  chat messages = request (λ server. ask server messages)

  unfoldable pub chat_stream :
      List Message → MultiHost → World → Option (Text × (MultiHost × World))
  chat_stream messages m =
      request (λ server. ask_stream server (adjust small_system_prompt m.target messages)) m

  unfoldable pub get_model_info : List HostEntry → World → List ModelInfo × World
  get_model_info [] w = ([], w)
  get_model_info (h ∷ hosts) w =
      if h.healthy
      then (let (infos, w₁) = infos_of h.provider w in
          let (all, w₂) = get_model_info hosts w₁ in (infos ++ all, w₂))
      else get_model_info hosts w

  unfoldable pub is_model_running : MultiHost → Text → World → Option (Bool × World)
  is_model_running m name w = do
    h ← get_elem? m.hosts m.active_idx
    some (running h.provider name w)

unfoldable pub host : MultiHost → Option Text
host m = do h ← get_elem? m.hosts m.active_idx; some h.provider.host
