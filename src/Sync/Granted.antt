-- ===== src/Sync/Granted.antt =====
-- `has_cap` looks a capability up in the comma-separated list.
use mathlib.Core.Path.{ap₂}
use llama_cli.Base.Search.{find_sound, find_here, shift, starts_with-append, starts_with_split}
use llama_cli.Base.Words.{getlines, getlines_from, take_while, is_one_of}
use llama_cli.Sync.Caps.{has_cap, has_cap_from}
use llama_cli.Base.{
  ℕ, zero, suc, ◌+◌, ◌-◌, ◌≤◌, ◌<◌, ◌≡◌, refl, sym, ap, ◌∙◌, inl, inr, Bool, true, false, not, ◌&&◌,
  ◌||◌, none, some, [], ◌∷◌, ◌++◌, append-nil, append_assoc, arith, leb, ◌==◌, le→not_ltb, ne→beq,
  Bool-cases, Option-cases, length, drop, length-drop, drop-length-append, drop-drop, get_or-drop,
  Text, text_eq, char_at, starts_with, find, find_from, Lacks,
}

abbrev ends : Text → Bool
ends [] = true
ends (c ∷ s) = c == b','

-- the flag behind `i` bytes
abbrev flag : Bool → Text → ℕ → Bool
flag start s zero = start
flag start s (suc i) = char_at s i == b','

flag_next :
    (start : Bool) (c : ℕ) (s : Text) (i : ℕ) → flag (c == b',') s i ≡ flag start (c ∷ s) (suc i)
flag_next start c s zero = refl
flag_next start c s (suc i) = refl

module _ (cap : Text) where
  -- Does an entry of the list begin and end here, or further on? The flag tells whether an entry may
  -- begin at the first byte.
  entry : Bool → Text → Bool
  entry start [] = false
  entry start (c ∷ s) =
      (start && (starts_with cap (c ∷ s) && ends (drop (length cap) (c ∷ s))))
      || entry (c == b',') s

  entry-none : (start : Bool) (s : Text) → find cap s ≡ none → entry start s ≡ false
  unfolding entry find
  entry-none start [] h = refl
  entry-none start (c ∷ s) h = ground (arith, entry-none (c == b',') s)

  entry_skip :
      (start : Bool) (s : Text) (i : ℕ)
      → find cap s ≡ some i
      → entry start s ≡ entry (flag start s i) (drop i s)
  unfolding entry
  entry_skip start s zero h = refl
  entry_skip start [] (suc i) h = refl
  entry_skip start (c ∷ s) (suc i) h = elim (Bool-cases (starts_with cap (c ∷ s))) [
    | inl e ↦ absurd (ground (arith, e, h, find_here cap (c ∷ s) e))
    | inr e ↦
        let next : find cap s ≡ some i = unfold find in ground (arith, e, h) in
        rw e (ground (arith, entry_skip (c == b',') s i next, flag_next start c s i))
  ]

  entry_inside : (w tail : Text) → Lacks b',' w → entry false (w ++ tail) ≡ entry false tail
  unfolding entry
  entry_inside [] tail h = refl
  entry_inside (c ∷ w) tail (hc, h) = rw (ne→beq c b',' hc, entry_inside w tail h)

abbrev field_of : Text → Text
field_of = take_while (λ c. not (c == b','))

ends_field :
    (cap s : Text)
    → Lacks b',' cap
    → (starts_with cap s && ends (drop (length cap) s)) ≡ text_eq cap (field_of s)
unfolding starts_with text_eq take_while
ends_field [] [] h = refl
ends_field [] (c ∷ s) h = ground arith
ends_field (x ∷ cap) [] h = refl
ends_field (x ∷ cap) (c ∷ s) (hx, h) = ground (arith, ends_field cap s h)

module _ (x : ℕ) (c : Text) (plain : Lacks b',' (x ∷ c)) where
  abbrev cap : Text
  cap = x ∷ c

  entry-true : (s : Text) → entry cap true s ≡ (text_eq cap (field_of s) || entry cap false s)
  unfolding entry
  entry-true [] = unfold text_eq take_while in refl
  entry-true (d ∷ s) = rw (← ends_field cap (d ∷ s) plain)

  getlines-entry :
      (s cur : Text)
      → is_one_of (getlines_from b',' s cur) cap
        ≡ (text_eq cap (cur ++ field_of s) || entry cap false s)
  unfolding getlines_from is_one_of take_while entry
  getlines-entry [] [] = refl
  getlines-entry [] (d ∷ cur) = rw append-nil (ground arith)
  getlines-entry (d ∷ s) cur = elim (Bool-cases (d == b',')) [
    | inl e ↦ rw (e, getlines_from, append-nil) (ground (arith, getlines-entry s [], entry-true s))
    | inr e ↦ rw (e, getlines_from) (getlines-entry s (cur ++ d ∷ []) ∙ rw append_assoc)
  ]

ends-drop :
    (caps : Text) (p : ℕ) → (leb (length caps) p || char_at caps p == b',') ≡ ends (drop p caps)
ends-drop [] zero = refl
ends-drop [] (suc p) = ground arith
ends-drop (c ∷ s) zero = ground arith
ends-drop (c ∷ s) (suc p) = ground (arith, ends-drop s p)

last_plain :
    (x : ℕ) (c tail : Text)
    → Lacks b',' (x ∷ c)
    → (char_at (x ∷ (c ++ tail)) (length c) == b',') ≡ false
last_plain x [] tail (hx, h) = ne→beq x b',' hx
last_plain x (y ∷ c) tail (hx, h) = last_plain y c tail h

-- may an entry begin at this position
abbrev before : Text → ℕ → Bool
before caps pos = pos == 0 || char_at caps (pos - 1) == b','

flag-before :
    (caps : Text) (pos i : ℕ) → flag (before caps pos) (drop pos caps) i ≡ before caps (pos + i)
flag-before caps pos zero = ap (before caps) (omega arith)
flag-before caps pos (suc i) =
    let at : pos + suc i - 1 ≡ pos + i = omega arith in
    rw (at, ne→beq (pos + suc i) 0 (omega arith), get_or-drop pos i caps 0)

find_of_find_from :
    (n s : Text) (pos : ℕ) → pos ≤ length s → find_from n s pos ≡ shift pos (find n (drop pos s))
unfolding find_from
find_of_find_from n s pos h = rw (le→not_ltb (length s) pos h)

module _ (caps : Text) (x : ℕ) (c : Text) (plain : Lacks b',' (x ∷ c)) where
  abbrev here : ℕ → Bool
  here at = before caps at && ends (drop (at + length (x ∷ c)) caps)

  entry_front :
      (start : Bool) (tail : Text)
      → entry (x ∷ c) start ((x ∷ c) ++ tail) ≡ ((start && ends tail) || entry (x ∷ c) false tail)
  unfolding entry
  entry_front start tail = rw (
    starts_with-append (x ∷ c) tail,
    drop-length-append (x ∷ c) tail,
    ne→beq x b',' plain.0,
    entry_inside (x ∷ c) c tail plain.1,
  )

  entry_at :
      (at : ℕ) (start : Bool)
      → starts_with (x ∷ c) (drop at caps) ≡ true
      → entry (x ∷ c) start (drop at caps) ≡ (
          (start && ends (drop (at + length (x ∷ c)) caps))
          || entry (x ∷ c) false (drop (at + length (x ∷ c)) caps))
  entry_at at start h =
      ap (entry (x ∷ c) start) (starts_with_split (x ∷ c) (drop at caps) h)
      ∙ entry_front start (drop (length (x ∷ c)) (drop at caps))
      ∙ ap (λ t. (start && ends t) || entry (x ∷ c) false t) (drop-drop (length (x ∷ c)) at caps)

  -- an occurrence of the name: an entry, or nothing up to its end
  entry_found :
      (pos i : ℕ)
      → find (x ∷ c) (drop pos caps) ≡ some i
      → entry (x ∷ c) (before caps pos) (drop pos caps)
        ≡ (here (pos + i) || entry (x ∷ c) false (drop (pos + i + length (x ∷ c)) caps))
  entry_found pos i h =
      let same : drop i (drop pos caps) ≡ drop (pos + i) caps = drop-drop i pos caps in
      let found = (find_sound (x ∷ c) (drop pos caps) i h).1 in
      entry_skip (x ∷ c) (before caps pos) (drop pos caps) i h
      ∙ ap₂ (entry (x ∷ c)) (flag-before caps pos i) same
      ∙ entry_at (pos + i) (before caps (pos + i)) (rw (drop-drop i pos caps) at found)

  not_before :
      (at : ℕ)
      → starts_with (x ∷ c) (drop at caps) ≡ true
      → before caps (at + length (x ∷ c)) ≡ false
  not_before at h =
      let tail = drop (length (x ∷ c)) (drop at caps) in
      let last : at + length (x ∷ c) - 1 ≡ at + length c = omega arith in
      let byte : char_at caps (at + length c) ≡ char_at (x ∷ (c ++ tail)) (length c) =
        get_or-drop at (length c) caps 0
        ∙ ap (λ t. char_at t (length c)) (starts_with_split (x ∷ c) (drop at caps) h) in
      rw (ne→beq (at + length (x ∷ c)) 0 (omega arith), last, byte, last_plain x c tail plain)

  loop :
      (rounds pos : ℕ)
      → length caps < pos + rounds
      → pos ≤ length caps
      → has_cap_from caps (x ∷ c) rounds pos ≡ entry (x ∷ c) (before caps pos) (drop pos caps)
  unfolding has_cap_from
  loop zero pos h le = absurd (omega arith)
  loop (suc rounds) pos h le = elim (Option-cases (find (x ∷ c) (drop pos caps))) [
    | inl e ↦
        rw (find_of_find_from (x ∷ c) caps pos le, e, has_cap_from)
          (sym (entry-none (x ∷ c) (before caps pos) (drop pos caps) e))
    | inr (i, e) ↦
        let bounds = find_sound (x ∷ c) (drop pos caps) i e in
        let found : starts_with (x ∷ c) (drop (pos + i) caps) ≡ true =
          rw (drop-drop i pos caps) at bounds.1 in
        let next =
          loop rounds (pos + i + length (x ∷ c)) (omega arith)
            (omega (arith, length-drop pos caps, bounds.0)) in
        rw (find_of_find_from (x ∷ c) caps pos le, e, has_cap_from)
          (rw (ends-drop caps (pos + i + length (x ∷ c)), next, not_before (pos + i) found)
            (ground (arith, entry_found pos i e)))
  ]

-- `has_cap` is exact: it holds if and only if the capability is one of the comma-separated entries,
-- for any list and any capability that is not empty and holds no comma. No entry that only contains
-- the name, or begins or ends with it, grants it.
pub has_cap-is_one_of :
    (caps : Text) (x : ℕ) (c : Text)
    → Lacks b',' (x ∷ c)
    → has_cap caps (x ∷ c) ≡ is_one_of (getlines b',' caps) (x ∷ c)
unfolding has_cap getlines
has_cap-is_one_of caps x c plain =
    loop caps x c plain (length caps + 1) 0 (omega arith) (omega arith)
    ∙ entry-true x c plain caps
    ∙ sym (getlines-entry x c plain caps [])
