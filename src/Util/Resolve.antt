-- ===== src/Util/Resolve.antt =====
-- src/util/util.cpp: `resolve_display_name`. The named hosts, the test of a numeric address
-- (`getaddrinfo`) and the reverse lookup (`getnameinfo`) are arguments. The cache is a list of what
-- was stored, the newest first; a host is stored once.
use llama_cli.Base.Words.{any, rfind}
use llama_cli.Util.Encode.{is_letter}
use llama_cli.Base.{
  ◌+◌, ◌≡◌, refl, sym, ap, ◌∙◌, inl, inr, Bool, true, not, ◌||◌, Option, none, some, List, [], ◌∷◌,
  ◌++◌, if◌then◌else◌, Option-cases, take, drop, Text, codes, is_empty, text_eq, text_eq_iff,
}

abbrev pub Cache : Type 0
Cache = List (Text × Text)

unfoldable pub cached : Text → Cache → Option Text
cached key [] = none
cached key ((k, v) ∷ cache) = if text_eq key k then some v else cached key cache

-- An address that a reverse lookup finds no name for has `none`, or an empty one.
pub record Resolver : Type 0 where
  pub host_display_name : Text → Text
  pub is_address : Text → Bool
  pub name_of : Text → Option Text

module _ (resolver : Resolver) where
  open resolver use {host_display_name, is_address, name_of}

  -- the lookup, for a host that is not in the cache
  unfoldable pub look_up : Text → Text
  look_up host_port = elim (rfind b':' host_port) [
    | none ↦ host_port
    | some colon ↦
        let ip = take colon host_port in
        if any is_letter ip || not (is_address ip) then host_port else elim (name_of ip) [
          | none ↦ host_port
          | some hostname ↦
              if is_empty hostname
              then host_port
              else hostname ++ (codes ":" ++ drop (colon + 1) host_port)
        ]
  ]

  unfoldable pub resolve_display_name : Text → Cache → Text × Cache
  resolve_display_name host_port cache =
      let named = host_display_name host_port in
      if not (text_eq named host_port) then (named, cache) else elim (cached host_port cache) [
        | some name ↦ (name, cache)
        | none ↦ (look_up host_port, (host_port, look_up host_port) ∷ cache)
      ]

module _ (host_port : Text) where
  unnamed : (s : Text) → s ≡ host_port → text_eq s host_port ≡ true
  unnamed s e = (text_eq_iff s host_port).1 e

  resolve_hit :
      (r : Resolver) (cache : Cache) (name : Text)
      → r.host_display_name host_port ≡ host_port
      → cached host_port cache ≡ some name
      → resolve_display_name r host_port cache ≡ (name, cache)
  unfolding resolve_display_name
  resolve_hit r cache name h e = rw (unnamed _ h) (rw e)

  resolve_miss :
      (r : Resolver) (cache : Cache)
      → r.host_display_name host_port ≡ host_port
      → cached host_port cache ≡ none
      → resolve_display_name r host_port cache
        ≡ (look_up r host_port, (host_port, look_up r host_port) ∷ cache)
  unfolding resolve_display_name
  resolve_miss r cache h e = rw (unnamed _ h) (rw e)

  cached_self :
      (name : Text) (cache : Cache) → cached host_port ((host_port, name) ∷ cache) ≡ some name
  unfolding cached
  cached_self name cache = rw (unnamed host_port refl)

  -- A host without a name of its own keeps the name that it is shown with: resolved again, it has
  -- the same one, whatever a lookup would find now, and the cache does not change.
  resolve_again :
      (r later : Resolver) (cache : Cache)
      → r.host_display_name host_port ≡ host_port
      → later.host_display_name host_port ≡ host_port
      → resolve_display_name later host_port (resolve_display_name r host_port cache).1
        ≡ resolve_display_name r host_port cache
  resolve_again r later cache h k = elim (Option-cases (cached host_port cache)) [
    | inr (name, e) ↦
        let first = resolve_hit r cache name h e in
        ap (λ x. resolve_display_name later host_port x.1) first
        ∙ resolve_hit later cache name k e
        ∙ sym first
    | inl e ↦
        let first = resolve_miss r cache h e in
        ap (λ x. resolve_display_name later host_port x.1) first
        ∙ resolve_hit later _ (look_up r host_port) k (cached_self (look_up r host_port) cache)
        ∙ sym first
  ]
