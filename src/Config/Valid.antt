-- ===== src/Config/Valid.antt =====
-- Which settings `validate_config` of src/config/config.cpp accepts, and what `parse_host_port` reads.
use mathlib.Core.Option.{some-injective}
use llama_cli.Base.Int.{ℤ, pos, negsuc}
use llama_cli.Annotation.Numbers.{stoi}
use llama_cli.Config.Settings.{Config}
use llama_cli.Config.Store.{port_errors, config_errors, validate_config, is_positive, error_if}
use llama_cli.Base.{
  ℕ, zero, suc, ◌≤◌, ◌≡◌, refl, ap, ◌≢◌, ◌↔◌, true, not, Option, none, some, List, [], ◌∷◌, ◌++◌,
  arith, Text, codes, is_empty,
}

abbrev pub IsPositive : ℤ → Type 0
IsPositive z = (n : ℕ) × (z ≡ pos (suc n))

-- what the settings must be
pub record IsValid (c : Config) : Type 0 where
  pub has_host : c.host ≢ []
  pub has_model : c.model ≢ []
  pub timeout_positive : IsPositive c.timeout
  pub exec_timeout_positive : IsPositive c.exec_timeout
  pub port_in_range : (p : ℕ) × (stoi c.port ≡ some (pos p)) × (p ≤ 65535)

no_errors-append :
    (xs ys : List Text)
    → (is_empty (xs ++ ys) ≡ true) ↔ ((is_empty xs ≡ true) × (is_empty ys ≡ true))
no_errors-append [] ys = ((λ e. (refl, e)), (λ h. h.1))
no_errors-append (x ∷ xs) ys = ((λ e. cc), (λ h. let (e, _) = h in cc))

filled_text : (s : Text) (line : Text) → (is_empty (error_if (is_empty s) line) ≡ true) ↔ (s ≢ [])
filled_text [] line = ground arith
filled_text (c ∷ s) line = ground arith

timeout_number :
    (z : ℤ) (line : Text) → (is_empty (error_if (not (is_positive z)) line) ≡ true) ↔ IsPositive z
timeout_number (pos zero) line = ((λ e. cc), (λ h. let (x, e) = h in cc))
timeout_number (pos (suc n)) line = ((λ _. (n, refl)), (λ _. refl))
timeout_number (negsuc n) line = ((λ e. cc), (λ h. let (x, e) = h in cc))

abbrev magnitude : ℤ → ℕ
magnitude (pos n) = n
magnitude (negsuc n) = n

number_in_range :
    (o : Option ℤ)
    → (is_empty (port_errors o) ≡ true) ↔ ((p : ℕ) × (o ≡ some (pos p)) × (p ≤ 65535))
unfolding port_errors
number_in_range none = ((λ e. cc), (λ h. let (p, e, _) = h in cc))
number_in_range (some (negsuc p)) = ((λ e. cc), (λ h. let (p, e, _) = h in cc))
number_in_range (some (pos p)) = (
  (λ e. (p, refl, ground arith)),
  (λ h.
      let (q, e, le) = h in
      let same : p ≡ q = ap (λ z. magnitude z) (some-injective _ _ e) in ground arith),
)

-- The settings are accepted exactly if there is a host and a model, both timeouts are positive, and
-- the port begins with a number from 0 to 65535, as `std::stoi` reads it: what follows its digits is
-- not looked at.
pub validate_config-IsValid : (c : Config) → (validate_config c ≡ true) ↔ IsValid c
unfolding validate_config config_errors
validate_config-IsValid c =
    let host = filled_text c.host (codes "OLLAMA_HOST cannot be empty") in
    let model = filled_text c.model (codes "OLLAMA_MODEL cannot be empty") in
    let timeout = timeout_number c.timeout (codes "timeout must be positive") in
    let exec_timeout = timeout_number c.exec_timeout (codes "exec_timeout must be positive") in
    let port = number_in_range (stoi c.port) in
    (
      (λ e.
          let (e₁, r₁) = (no_errors-append _ _).0 e in
          let (e₂, r₂) = (no_errors-append _ _).0 r₁ in
          let (e₃, r₃) = (no_errors-append _ _).0 r₂ in
          let (e₄, e₅) = (no_errors-append _ _).0 r₃ in
          record {
            has_host = host.0 e₁;
            has_model = model.0 e₂;
            timeout_positive = timeout.0 e₃;
            exec_timeout_positive = exec_timeout.0 e₄;
            port_in_range = port.0 e₅;
          }),
      (λ v. (no_errors-append _ _).1 (
        host.1 v.has_host,
        (no_errors-append _ _).1 (
          model.1 v.has_model,
          (no_errors-append _ _).1 (
            timeout.1 v.timeout_positive,
            (no_errors-append _ _).1
                (exec_timeout.1 v.exec_timeout_positive, port.1 v.port_in_range),
          ),
        ),
      )),
    )
