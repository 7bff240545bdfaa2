-- ===== src/Repl/Fits.antt =====
-- What `/use` of src/repl/repl_commands.cpp reads, and which models fit.
use llama_cli.Base.Search.{
  HasPart, find-HasPart, find-none-HasPart, find-append_Lacks, find_self, starts_with_split,
  starts_with-append, shift, take_front, drop_front,
}
use llama_cli.Provider.Registry.{ModelEntry}
use llama_cli.Repl.Switch.{Wanted, with_model, parse_wanted, is_part_of, fits}
use llama_cli.Base.{
  ◌+◌, ◌≡◌, refl, sym, ap, ◌∙◌, inl, inr, Bool, true, false, some, [], ◌∷◌, ◌++◌, append_assoc,
  arith, Bool-cases, Option-cases, length, drop, length-append, Text, codes, is_empty, find, Lacks,
  ◌⊎◌, ◌↔◌, starts_with, text_eq, text_eq_iff, ◌&&◌, ◌||◌, append-nil,
}

-- `@host:provider:model`
abbrev pub wanted_text : Text → Text → Text → Text
wanted_text host provider model = b'@' ∷ (host ++ (codes ":" ++ (provider ++ (codes ":" ++ model))))

abbrev pub wanted : Text → Text → Text → Wanted
wanted host provider model = record { host_part = host; prov_part = provider; model_part = model }

pub colon_at :
    (front rest : Text)
    → Lacks b':' front
    → find (codes ":") (front ++ (codes ":" ++ rest)) ≡ some (length front)
colon_at front rest h =
    find-append_Lacks b':' [] front (codes ":" ++ rest) h
    ∙ ap (shift (length front)) (find_self (codes ":") rest)
    ∙ ap some (omega arith)

pub behind_colon :
    (front rest : Text) → drop (length front + 1) (front ++ (codes ":" ++ rest)) ≡ rest
behind_colon front rest =
    let split : front ++ (codes ":" ++ rest) ≡ (front ++ codes ":") ++ rest =
      simp append_assoc refl in
    ap (drop (length front + 1)) split
    ∙ drop_front _ (front ++ codes ":") rest (sym (length-append front (codes ":")))

pub parse_wanted-text :
    (host provider model : Text)
    → Lacks b':' host
    → Lacks b':' provider
    → parse_wanted (wanted_text host provider model) ≡ wanted host provider model
unfolding parse_wanted with_model
parse_wanted-text host provider model hh hp =
    rw (colon_at host (provider ++ (codes ":" ++ model)) hh, parse_wanted)
      (rw
        (
          behind_colon host (provider ++ (codes ":" ++ model)),
          take_front _ host (codes ":" ++ (provider ++ (codes ":" ++ model))) refl,
        )
        (rw (colon_at provider model hp, with_model)
          (rw (behind_colon provider model, take_front _ provider (codes ":" ++ model) refl) refl)))

-- The text has this part at its front.
abbrev pub Begins : Text → Text → Type 0
Begins front s = (rest : Text) × (s ≡ front ++ rest)

-- What is asked of a model: an empty part asks for nothing.
abbrev pub Suits : Text → Text → Text → ModelEntry → Type 0
Suits host provider model m =
    (m.available ≡ true)
    × (((provider ≡ []) ⊎ (m.provider ≡ provider)) × (HasPart host m.host × Begins model m.name))

is_part_of-HasPart : (part s : Text) → (is_part_of part s ≡ true) ↔ HasPart part s
is_part_of-HasPart part s = elim (Option-cases (find part s)) [
  | inl f ↦ ((λ e. absurd (ground (arith, e, f))), (λ h. absurd (find-none-HasPart part s f h)))
  | inr (i, f) ↦ ((λ e. find-HasPart part s i f), (λ h. rw (f, is_part_of) refl))
]

starts_with-Begins : (front s : Text) → (starts_with front s ≡ true) ↔ Begins front s
starts_with-Begins front s = (
  λ e. (drop (length front) s, starts_with_split front s e),
  λ h. let (rest, same) = h in rw (same) (starts_with-append front rest),
)

host_fits : (part s : Text) → ((is_empty part || is_part_of part s) ≡ true) ↔ HasPart part s
host_fits [] s = ((λ e. ([], (s, refl))), (λ h. refl))
host_fits (c ∷ part) s = is_part_of-HasPart (c ∷ part) s

provider_fits :
    (provider s : Text)
    → ((is_empty provider || text_eq s provider) ≡ true) ↔ ((provider ≡ []) ⊎ (s ≡ provider))
provider_fits [] s = ((λ e. inl refl), (λ h. refl))
provider_fits (c ∷ provider) s = (
  λ e. inr ((text_eq_iff s (c ∷ provider)).0 e),
  λ h. elim h [ inl empty ↦ absurd (cc) | inr same ↦ (text_eq_iff s (c ∷ provider)).1 same ],
)

name_fits :
    (front s : Text)
    → ((is_empty front || (text_eq s front || starts_with front s)) ≡ true) ↔ Begins front s
name_fits [] s = ((λ e. (s, refl)), (λ h. refl))
name_fits (c ∷ front) s = (
  λ e. elim (Bool-cases (text_eq s (c ∷ front))) [
    | inl same ↦ ([], (text_eq_iff s (c ∷ front)).0 same ∙ sym (append-nil (c ∷ front)))
    | inr other ↦ (starts_with-Begins (c ∷ front) s).0 (ground (arith, e, other))
  ],
  λ h. ground (arith, (starts_with-Begins (c ∷ front) s).1 h),
)

and_iff : (a b : Bool) → ((a && b) ≡ true) ↔ ((a ≡ true) × (b ≡ true))
and_iff true b = ((λ e. (refl, e)), (λ h. h.1))
and_iff false b = ((λ e. absurd (cc)), (λ h. absurd (let (e, _) = h in cc)))

pub fits-Suits :
    (host provider model : Text) (m : ModelEntry)
    → (fits (wanted host provider model) m ≡ true) ↔ Suits host provider model m
fits-Suits host provider model m = (
  λ e.
      let (h, r₁) = (and_iff _ _).0 e in
      let (p, r₂) = (and_iff _ _).0 r₁ in
      let (n, a) = (and_iff _ _).0 r₂ in
      (
        a,
        (
          (provider_fits provider m.provider).0 p,
          ((host_fits host m.host).0 h, (name_fits model m.name).0 n),
        ),
      ),
  λ s.
      let (a, (p, (h, n))) = s in
      (and_iff _ _).1 (
        (host_fits host m.host).1 h,
        (and_iff _ _).1 (
          (provider_fits provider m.provider).1 p,
          (and_iff _ _).1 ((name_fits model m.name).1 n, a),
        ),
      ),
)
