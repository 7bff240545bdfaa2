-- ===== src/Planner/Route.antt =====
-- src/planner/planner.cpp: `find_model_on_host`, `pick_route` and `plan_route`. `infos` asks a server for
-- its models. The floating-point numbers are a parameter.
use llama_cli.Provider.Message.{ModelInfo}
use llama_cli.Planner.Classify.{
  Complexity, simple_prompt, medium_prompt, complex_prompt, classify_prompt,
}
use llama_cli.Base.{
  ℕ, ◌+◌, Bool, false, Option, none, some, List, [], ◌∷◌, ◌++◌, ◌&&◌, if◌then◌else◌, take, drop,
  Text, codes, is_empty, find,
}

pub record RouteTarget : Type 0 where
  pub host : Text
  pub model : Text
  pub reason : Text

abbrev route : Text → Text → Text → RouteTarget
route host model reason = record { host = host; model = model; reason = reason }

-- the sizes that suit, in billions
abbrev pub range : Complexity → ℕ × ℕ
range simple_prompt = (1, 4)
range medium_prompt = (7, 16)
range complex_prompt = (20, 999)

abbrev pub arrow : Text
arrow = 32 ∷ 226 ∷ 134 ∷ 146 ∷ 32 ∷ []

abbrev pub reason_for : Complexity → Text
reason_for simple_prompt = codes "simple" ++ (arrow ++ codes "small model (fast)")
reason_for medium_prompt = codes "medium" ++ (arrow ++ codes "mid model")
reason_for complex_prompt = codes "complex" ++ (arrow ++ codes "large model")

-- `double`: the value of a whole number, `<=`, and `std::stod`, none where it throws
pub record Doubles : Type 1 where
  pub Number : Type 0
  pub whole : ℕ → Number
  pub le : Number → Number → Bool
  pub stod : Text → Option Number

module _ (infos : Text → Text → List ModelInfo) (doubles : Doubles) where
  open doubles use {whole, le, stod}

  -- is the size at least `low` and at most `high`; one that is no number is passed over
  unfoldable pub is_size_in : ℕ → ℕ → Text → Bool
  is_size_in low high size = elim (stod size) [
    | none ↦ false
    | some params ↦ le (whole low) params && le params (whole high)
  ]

  -- the models of an address, `host:port` or a host
  unfoldable pub models_at : Text → List ModelInfo
  models_at host_port = elim (find (codes ":") host_port) [
    | none ↦ infos host_port (codes "11434")
    | some colon ↦ infos (take colon host_port) (drop (colon + 1) host_port)
  ]

  -- a model that is not for embedding, of a size that suits
  unfoldable pub suits : ℕ → ℕ → ModelInfo → Bool
  suits low high info = elim (find (codes "embed") info.family) [
    | some at ↦ false
    | none ↦ is_size_in low high info.params
  ]

  unfoldable pub first_fitting : ℕ → ℕ → List ModelInfo → Option ModelInfo
  first_fitting low high [] = none
  first_fitting low high (info ∷ models) =
      if suits low high info then some info else first_fitting low high models

  unfoldable pub find_model_on_host : Text → ℕ → ℕ → RouteTarget
  find_model_on_host host_port low high = elim (first_fitting low high (models_at host_port)) [
    | none ↦ route [] [] []
    | some info ↦ route host_port info.name []
  ]

  -- the loop over the hosts; a route without a host is none
  unfoldable pub route_among : Complexity → List Text → Option RouteTarget
  route_among level [] = none
  route_among level (h ∷ hosts) =
      let r = find_model_on_host h (range level).0 (range level).1 in
      if is_empty r.host
      then route_among level hosts
      else some (record r { reason = reason_for level })

  unfoldable pub pick_route : Text → Text → Text → Complexity → List Text → RouteTarget
  pick_route host port model level hosts = elim (route_among level hosts) [
    | some r ↦ r
    | none ↦
        route (host ++ (codes ":" ++ port)) model
          (codes "fallback" ++ (arrow ++ codes "current config"))
  ]

  unfoldable pub plan_route : Text → Text → Text → Text → List Text → RouteTarget
  plan_route host port model prompt hosts =
      pick_route host port model (classify_prompt prompt) hosts

  -- All that fits: for each host with a name, its models that suit, in their order.
  abbrev pub fitting : Complexity → Text → List ModelInfo → List RouteTarget
  fitting level h [] = []
  fitting level h (info ∷ models) =
      if suits (range level).0 (range level).1 info
      then route h info.name (reason_for level) ∷ fitting level h models
      else fitting level h models

  abbrev pub candidates : Complexity → List Text → List RouteTarget
  candidates level [] = []
  candidates level (h ∷ hosts) =
      (if is_empty h then [] else fitting level h (models_at h)) ++ candidates level hosts

  abbrev pub head? : List RouteTarget → Option RouteTarget
  head? [] = none
  head? (r ∷ rs) = some r
