-- ===== src/Config/HostPort.antt =====
-- What `parse_host_port` of src/config/config.cpp reads of an address with a port.
use llama_cli.Base.Words.{rfind}
use llama_cli.Base.Search.{find-append_Lacks, find_here, starts_with-append, take_front, drop_front}
use llama_cli.Config.Settings.{parse_bracketed, parse_host_port}
use llama_cli.Base.{
  ℕ, suc, ◌+◌, ◌-◌, ◌<◌, ◌≡◌, refl, ap, ◌∙◌, ◌≢◌, true, false, not, ◌&&◌, none, some, [], ◌∷◌, ◌++◌,
  append_assoc, arith, ltb, ◌==◌, lt→ltb, eq→beq, ne→beq, length, take, drop, length-append,
  take-length-append, get_or-length-append, Text, codes, is_empty, char_at, find, Lacks,
}

rfind-Lacks : (c : ℕ) (s : Text) → Lacks c s → rfind c s ≡ none
unfolding rfind
rfind-Lacks c [] h = refl
rfind-Lacks c (d ∷ s) (hd, h) = rw (rfind-Lacks c s h, ne→beq d c hd) refl

rfind-append : (c : ℕ) (s t : Text) → Lacks c t → rfind c (s ++ c ∷ t) ≡ some (length s)
unfolding rfind
rfind-append c [] t h = rw (rfind-Lacks c t h, eq→beq c) refl
rfind-append c (d ∷ s) t h = rw (rfind-append c s t h) (ap some (omega arith))

find-byte : (c : ℕ) (s t : Text) → Lacks c s → find (c ∷ []) (s ++ c ∷ t) ≡ some (length s)
find-byte c s t h =
    find-append_Lacks c [] s (c ∷ t) h
    ∙ rw (find_here (c ∷ []) (c ∷ t) (starts_with-append (c ∷ []) t)) (ap some (omega arith))

drop-byte : (c : ℕ) (s t : Text) → drop (length s + 1) (s ++ c ∷ t) ≡ t
drop-byte c s t =
    ap (drop (length s + 1)) (simp append_assoc refl)
    ∙ drop_front (length s + 1) (s ++ c ∷ []) t (omega (arith, length-append {0} s (c ∷ [])))

nonempty : (s : Text) → s ≢ [] → 0 < length s
nonempty [] h = absurd (h refl)
nonempty (c ∷ s) h = omega arith

plain_address :
    (host port : Text) (old : Text × Text)
    → Lacks b':' host
    → Lacks b':' port
    → (char_at (host ++ b':' ∷ port) 0 == b'[') ≡ false
    → parse_host_port (host ++ b':' ∷ port) old ≡ (host, port)
unfolding parse_host_port
plain_address host port old hh hp bracket =
    let whole = host ++ b':' ∷ port in
    let plain : (not (is_empty whole) && char_at whole 0 == b'[') ≡ false = ground arith in
    rw (plain, find-byte b':' host port hh, rfind-append b':' host port hp, eq→beq (length host))
      (rw (take-length-append host (b':' ∷ port), drop-byte b':' host port) refl)

bracketed_address :
    (host port : Text) (old : Text × Text)
    → Lacks b']' host
    → port ≢ []
    → parse_host_port (b'[' ∷ (host ++ b']' ∷ b':' ∷ port)) old ≡ (host, port)
unfolding parse_host_port parse_bracketed
bracketed_address host port old hh hp =
    let rest = host ++ b']' ∷ b':' ∷ port in
    let size = length-append {0} host (b']' ∷ b':' ∷ port) in
    let more : ltb (suc (length host) + 2) (length (b'[' ∷ rest)) ≡ true =
      lt→ltb _ _ (omega (arith, nonempty port hp)) in
    let colon : char_at (b'[' ∷ rest) (suc (length host) + 1) ≡ b':' =
      let front = b'[' ∷ (host ++ b']' ∷ []) in
      let regrouped : b'[' ∷ rest ≡ front ++ b':' ∷ port = simp append_assoc refl in
      let at : suc (length host) + 1 ≡ length front =
        omega (arith, length-append {0} host (b']' ∷ [])) in
      ap (λ s. char_at s (suc (length host) + 1)) regrouped
      ∙ ap (char_at (front ++ b':' ∷ port)) at
      ∙ get_or-length-append front b':' port 0 in
    let name : take (suc (length host) - 1) rest ≡ host =
      take_front (suc (length host) - 1) host (b']' ∷ b':' ∷ port) (omega arith) in
    let number : drop (suc (length host) + 2) (b'[' ∷ rest) ≡ port =
      let front = b'[' ∷ (host ++ b']' ∷ b':' ∷ []) in
      let regrouped : b'[' ∷ rest ≡ front ++ port = simp append_assoc refl in
      ap (drop (suc (length host) + 2)) regrouped
      ∙ drop_front (suc (length host) + 2) front port
          (omega (arith, length-append {0} host (b']' ∷ b':' ∷ []))) in
    let found : find (codes "]") (b'[' ∷ rest) ≡ some (suc (length host)) =
      find-byte b']' (b'[' ∷ host) (b':' ∷ port) ((λ e. ground arith), hh) in
    rw (found, parse_host_port, parse_bracketed) (rw (more, colon) (rw (name, number) refl))

-- The two forms of an address with a port, the second that of IPv6.
pub data Address : Type 0 where
  plain : Text → Text → Address
  bracketed : Text → Text → Address

abbrev pub address_text : Address → Text
address_text (plain host port) = host ++ b':' ∷ port
address_text (bracketed host port) = b'[' ∷ (host ++ b']' ∷ b':' ∷ port)

abbrev pub parts : Address → Text × Text
parts (plain host port) = (host, port)
parts (bracketed host port) = (host, port)

-- One colon and no bracket in front, or a name without a closing bracket and a port behind it.
abbrev pub IsAddress : Address → Type 0
IsAddress (plain host port) =
    Lacks b':' host × Lacks b':' port × ((char_at (host ++ b':' ∷ port) 0 == b'[') ≡ false)
IsAddress (bracketed host port) = Lacks b']' host × (port ≢ [])

-- The host and the port of an address are read back, whatever they were before.
parse_host_port-address_text :
    (a : Address) (old : Text × Text) → IsAddress a → parse_host_port (address_text a) old ≡ parts a
parse_host_port-address_text (plain host port) old (hh, hp, front) =
    plain_address host port old hh hp front
parse_host_port-address_text (bracketed host port) old (hh, hp) =
    bracketed_address host port old hh hp
