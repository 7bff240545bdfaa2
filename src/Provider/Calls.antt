-- ===== src/Provider/Calls.antt =====
-- Sequences of chats with the hosts, from the constructor on.
use llama_cli.Provider.Message.{Message}
use llama_cli.Provider.MultiHost.{
  Backend, Endpoint, MultiHost, probe, create, failover, request, chat,
}
use llama_cli.Provider.Failover.{IsValid, active_host, failover_lem}
use llama_cli.Provider.Routing.{find_host_for_model-IsChoice}
use llama_cli.Base.{
  suc, ◌≡◌, refl, ap, ◌∙◌, ◌≢◌, inl, inr, Bool, Option, some, List, [], ◌∷◌, arith, Bool-cases,
  ◌>>=◌, length, length-set, Text, is_empty,
}

module _ (backend : Backend) where
  open backend use {World}

  -- the answers to one request after the other
  unfoldable pub chats :
      List (List Message) → MultiHost → World → Option (List Text × (MultiHost × World))
  chats [] m w = some ([], (m, w))
  chats (messages ∷ later) m w = do
    (answer, (m₁, w₁)) ← chat backend messages m w
    (answers, rest) ← chats later m₁ w₁
    some (answer ∷ answers, rest)

  -- After `failover` the index is in range again.
  failover-IsValid :
      (m : MultiHost) → IsValid m → (r : Bool × MultiHost) × ((failover m ≡ some r) × IsValid r.1)
  failover-IsValid m valid =
      let (h, (r, (e, (hosts, (_, outcome))))) = failover_lem m valid in
      let size : length r.1.hosts ≡ length m.hosts =
        ap length hosts ∙ length-set m.hosts m.active_idx _ in
      (
        r,
        (
          e,
          elim outcome [
            | inl (_, switched) ↦ switched.0
            | inr (_, stranded) ↦ omega (arith, stranded.0)
          ],
        ),
      )

  -- A request to a valid router returns an answer and a valid router.
  request_total :
      (call : Endpoint → World → Text × World) (m : MultiHost) (w : World)
      → IsValid m
      → (r : Text × (MultiHost × World)) × ((request backend call m w ≡ some r) × IsValid r.1.0)
  unfolding request
  request_total call m w valid =
      let (h, at) = active_host m.hosts m.active_idx valid in
      let first = call h.provider w in
      elim (Bool-cases (is_empty first.0)) [
        | inr answered ↦ ((first.0, (m, first.1)), (rw (at) (rw answered), valid))
        | inl empty ↦
            let (r, (e, valid₁)) = failover-IsValid m valid in
            elim (Bool-cases r.0) [
              | inr stays ↦
                  ((first.0, (r.1, first.1)), (rw at (rw empty (rw e (rw stays))), valid₁))
              | inl moved ↦
                  let (next, at₁) = active_host r.1.hosts r.1.active_idx valid₁ in
                  let again = call next.provider first.1 in
                  ((again.0, (r.1, again.1)), (rw at (rw empty (rw e (rw moved (rw at₁)))), valid₁))
            ]
      ]

  probe_cons :
      (hosts : List Text) (model : Text) (w : World)
      → hosts ≢ []
      → (probe backend hosts model w).0 ≢ []
  unfolding probe
  probe_cons [] model w h = absurd (h refl)
  probe_cons (hp ∷ hosts) model w h = cc

  create-IsValid :
      (hosts : List Text) (model : Text) (w : World)
      → hosts ≢ []
      → IsValid (create backend hosts model w).0
  unfolding create
  create-IsValid hosts model w h =
      (find_host_for_model-IsChoice (probe backend hosts model w).0 model
        (probe_cons hosts model w h)).0

  chats-IsValid :
      (requests : List (List Message)) (m : MultiHost) (w : World)
      → IsValid m
      → (r : List Text × (MultiHost × World)) × ((chats requests m w ≡ some r)
          × ((length r.0 ≡ length requests) × IsValid r.1.0))
  unfolding chats chat
  chats-IsValid [] m w valid = (([], (m, w)), (refl, (refl, valid)))
  chats-IsValid (messages ∷ later) m w valid =
      let (r, (e, valid₁)) = request_total (λ server. backend.ask server messages) m w valid in
      let (rest, (e', (n, valid₂))) = chats-IsValid later r.1.0 r.1.1 valid₁ in
      ((r.0 ∷ rest.0, rest.1), (rw e (rw e'), (ap suc n, valid₂)))

  -- A router that is made from at least one host answers every sequence of chats, one answer for each
  -- request: it never reads outside of its hosts, and its active host is one of them afterwards.
  pub chats_total :
      (hosts : List Text) (model : Text) (w : World) (requests : List (List Message))
      → hosts ≢ []
      → (r : List Text × (MultiHost × World)) × ((chats requests
              (create backend hosts model w).0
              (create backend hosts model w).1
            ≡ some r)
          × ((length r.0 ≡ length requests) × IsValid r.1.0))
  chats_total hosts model w requests h =
      chats-IsValid requests _ (create backend hosts model w).1 (create-IsValid hosts model w h)
