-- ===== src/Session/Reload.antt =====
-- What is read back of a saved conversation.
use llama_cli.Base.Collect.{collect_total}
use llama_cli.Base.Search.{find_from_bounds}
use llama_cli.Json.Escape.{escape_json, unescape_json}
use llama_cli.Json.Strings.{json_extract_string}
use llama_cli.Json.RoundTrip.{extract-escape, IsFirst, keyed}
use llama_cli.Provider.Message.{Message}
use llama_cli.Session.Store.{saved_object, role_key, role_step, role_positions, load_object}
use llama_cli.Base.{
  ℕ, ◌+◌, ◌≤◌, ◌<◌, ◌≡◌, refl, ap, ◌∙◌, ◌≢◌, inl, inr, false, some, List, [], ◌∷◌, ◌++◌,
  append_assoc, arith, Option-cases, length, Text, codes, is_empty, find, find_from,
}

role_step-Advances :
    (json : Text) (at next : ℕ) (found : List ℕ)
    → role_step json at ≡ some (next, found)
    → (at < next) × (next ≤ length json)
unfolding role_step
role_step-Advances json at next found e = elim (Option-cases (find_from role_key json at)) [
  | inl none_there ↦ ground (arith, none_there, e)
  | inr (i, there) ↦ ground (arith, there, e, find_from_bounds role_key json at i there)
]

-- On every text the loop over the messages of a session ends.
pub role_positions_total :
    (json : Text) → (positions : List ℕ) × (role_positions json ≡ some positions)
unfolding role_positions
role_positions_total json =
    collect_total (role_step json) (length json) (role_step-Advances json) (length json + 1) 0
      (omega arith) (omega arith)

-- The role is written without escapes, so it must need none.
abbrev pub IsRole : Text → Type 0
IsRole r =
    (r ≢ [])
    × ((escape_json r ≡ r) × IsFirst (codes "{\"role\":\"" ++ (r ++ codes "\",")) (codes "content"))

module _ (m : Message) (rest : Text) where
  content_end : Text
  content_end = escape_json m.content ++ b'"' ∷ (codes "}" ++ rest)

  as_role :
      escape_json m.role ≡ m.role
      → saved_object m ++ rest
        ≡ keyed
            (codes "{")
            (codes "role")
            []
            (b'"' ∷ (escape_json m.role ++ b'"' ∷ (codes ",\"content\":\"" ++ content_end)))
  unfolding saved_object content_end
  as_role plain = rw plain (simp append_assoc refl)

  as_content :
      saved_object m ++ rest
      ≡ keyed
          (codes "{\"role\":\"" ++ (m.role ++ codes "\","))
          (codes "content")
          []
          (b'"' ∷ content_end)
  unfolding saved_object content_end
  as_content = simp append_assoc refl

  role_read :
      IsRole m.role → json_extract_string (saved_object m ++ rest) (codes "role") ≡ some m.role
  role_read (_, (plain, _)) =
      ap (λ t. json_extract_string t (codes "role")) (as_role plain)
      ∙ extract-escape (codes "{") (codes "role") [] (codes ",\"content\":\"" ++ content_end) m.role
          (unfold find in refl) tt

  content_read :
      IsRole m.role
      → json_extract_string (saved_object m ++ rest) (codes "content") ≡ some m.content
  unfolding content_end
  content_read (_, (_, first)) =
      ap (λ t. json_extract_string t (codes "content")) as_content
      ∙ extract-escape (codes "{\"role\":\"" ++ (m.role ++ codes "\",")) (codes "content") []
          (codes "}" ++ rest) m.content first tt

-- A message whose role needs no escapes is read back with its role, but its content is decoded
-- twice: once as a JSON text and once more by `unescape_json`.
pub load-saved_object :
    (m : Message) (rest : Text)
    → IsRole m.role
    → load_object (saved_object m ++ rest)
      ≡ some (
          record { role = m.role; content = unescape_json m.content; rating = []; images = [] }
          ∷ [])
unfolding load_object
load-saved_object m rest is_role =
    rw (role_read m rest is_role)
      (rw (content_read m rest is_role) (rw (not_empty m.role is_role.0)))
  where
    not_empty : (r : Text) → r ≢ [] → is_empty r ≡ false
    not_empty [] h = absurd (h refl)
    not_empty (c ∷ r) h = refl
