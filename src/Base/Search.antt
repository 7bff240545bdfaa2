-- ===== src/Base/Search.antt =====
-- What `find` returns: an occurrence, the first one, wherever the text stands in a longer one.
use Prim.Native.Nat.{ℕ, suc, ◌+◌, ◌≤◌}
use mathlib.Core.Path.{◌≡◌, refl, sym, ap, ◌∙◌}
use mathlib.Core.Logic.{inl, inr, ◌≢◌}
use mathlib.Core.Bool.{Bool, true, false, ◌&&◌, ◌||◌, not}
use mathlib.Core.Option
use mathlib.Core.Option.{Option, none, some}
use mathlib.Core.List.{[], ◌∷◌, ◌++◌, append_assoc}
use native.Mathlib.Omega.{arith}
use llama_cli.Base.Tests.{◌==◌, eq→beq, ne→beq, le→not_ltb, Bool-cases, Option-cases}
use llama_cli.Base.Lists.{
  length, drop, length-append, drop-length-append, take-length-append, take, length-drop, drop-drop,
  take-append-drop,
}
use llama_cli.Base.Bytes.{Text, starts_with, find, find_from, Lacks}

-- moving a position behind a front of `k` bytes
abbrev pub shift : ℕ → Option ℕ → Option ℕ
shift k = Option.map (λ i. k + i)

pub shift-shift : (a b : ℕ) (o : Option ℕ) → shift a (shift b o) ≡ shift (a + b) o
shift-shift a b none = refl
shift-shift a b (some i) = ap some (omega arith)

pub shift_zero : (o : Option ℕ) → shift 0 o ≡ o
shift_zero none = refl
shift_zero (some i) = ap some (omega arith)

pub starts_with-append : (n s : Text) → starts_with n (n ++ s) ≡ true
unfolding starts_with
starts_with-append [] s = refl
starts_with-append (x ∷ n) s = rw (eq→beq x) (starts_with-append n s)

pub starts_with_split : (n s : Text) → starts_with n s ≡ true → s ≡ n ++ drop (length n) s
unfolding starts_with
starts_with_split [] s h = refl
starts_with_split (x ∷ n) [] h = cc
starts_with_split (x ∷ n) (c ∷ s) h = ground (arith, starts_with_split n s)

pub starts_with-length : (n s : Text) → starts_with n s ≡ true → length n ≤ length s
unfolding starts_with
starts_with-length [] s h = omega arith
starts_with-length (x ∷ n) [] h = cc
starts_with-length (x ∷ n) (c ∷ s) h = ground (arith, starts_with-length n s)

-- What stands behind the first bytes does not matter.
pub starts_with-append_right :
    (n s t : Text) → length n ≤ length s → starts_with n (s ++ t) ≡ starts_with n s
unfolding starts_with
starts_with-append_right [] s t h = refl
starts_with-append_right (x ∷ n) [] t h = absurd (omega arith)
starts_with-append_right (x ∷ n) (c ∷ s) t h = rw (starts_with-append_right n s t (omega arith))

pub find_here : (n s : Text) → starts_with n s ≡ true → find n s ≡ some 0
unfolding find starts_with
find_here [] [] h = refl
find_here (x ∷ n) [] h = cc
find_here n (c ∷ s) h = rw h

pub find_self : (n s : Text) → find n (n ++ s) ≡ some 0
find_self n s = find_here n (n ++ s) (starts_with-append n s)

-- A front without the needle's first byte is passed over.
pub find-append_Lacks :
    (x : ℕ) (n pre s : Text)
    → Lacks x pre
    → find (x ∷ n) (pre ++ s) ≡ shift (length pre) (find (x ∷ n) s)
unfolding find
find-append_Lacks x n [] s h = sym (shift_zero _)
find-append_Lacks x n (c ∷ pre) s (hc, h) =
    rw (ne→beq x c (λ e. hc (sym e)), find-append_Lacks x n pre s h)
      (shift-shift 1 (length pre) _
        ∙ ap (λ k. shift k (find (x ∷ n) s))
            (let e : 1 + length pre ≡ suc (length pre) = omega arith in e))

-- The first occurrence stays the first when text is added behind it.
pub find-append_right :
    (n s rest : Text)
    → find n (s ++ n) ≡ some (length s)
    → find n (s ++ n ++ rest) ≡ some (length s)
unfolding find
find-append_right n [] rest h = find_here n (n ++ rest) (starts_with-append n rest)
find-append_right n (c ∷ s) rest h =
    let short : length n ≤ length (c ∷ (s ++ n)) = omega (arith, length-append s n) in
    let same : starts_with n (c ∷ ((s ++ n) ++ rest)) ≡ starts_with n (c ∷ (s ++ n)) =
      starts_with-append_right n (c ∷ (s ++ n)) rest short in
    ground (arith, same, append_assoc s n rest, find-append_right n s rest)

pub find_first :
    (n s rest : Text)
    → find n (s ++ n) ≡ some (length s)
    → find n (s ++ (n ++ rest)) ≡ some (length s)
find_first n s rest h = rw (← append_assoc s n rest) (find-append_right n s rest h)

pub find_from_zero : (n s : Text) → find_from n s 0 ≡ find n s
unfolding find_from
find_from_zero n s = rw (le→not_ltb (length s) 0 (omega arith)) (shift_zero (find n s))

pub find_sound :
    (n s : Text) (i : ℕ)
    → find n s ≡ some i
    → (i + length n ≤ length s) × (starts_with n (drop i s) ≡ true)
unfolding find
find_sound [] [] i h = ground (arith, starts_with-append [] [])
find_sound (x ∷ n) [] i h = cc
find_sound n (c ∷ s) i h = elim (Bool-cases (starts_with n (c ∷ s))) [
  | inl e ↦ ground (arith, e, h, starts_with-length n (c ∷ s) e)
  | inr e ↦ elim (Option-cases (find n s)) [
    | inl e' ↦ absurd (ground (arith, e, e', h))
    | inr (j, e') ↦
        let at : suc j ≡ i = ground (arith, e, e', h) in
        rw (← at) (ground (arith, find_sound n s j e'))
  ]
]

pub drop-shift : (pre s : Text) (pos : ℕ) → drop (length pre + pos) (pre ++ s) ≡ drop pos s
drop-shift pre s pos =
    sym (drop-drop pos (length pre) (pre ++ s)) ∙ ap (drop pos) (drop-length-append pre s)

-- Searching from a position.
pub find_from_bounds :
    (n s : Text) (pos i : ℕ) → find_from n s pos ≡ some i → (pos ≤ i) × (i + length n ≤ length s)
unfolding find_from
find_from_bounds n s pos i h = elim (Option-cases (find n (drop pos s))) [
  | inl e ↦ ground arith
  | inr (j, e) ↦ ground (arith, find_sound n (drop pos s) j e, length-drop pos s)
]

pub find_from-shift :
    (n pre s : Text) (pos : ℕ)
    → find_from n (pre ++ s) (length pre + pos) ≡ shift (length pre) (find_from n s pos)
unfolding find_from
find_from-shift n pre s pos =
    rw (drop-shift pre s pos) (ground (arith, length-append pre s, find n (drop pos s)))

-- Searching from the end of a front.
pub find_from_behind :
    (n pre s : Text) (k : ℕ)
    → k ≡ length pre
    → find_from n (pre ++ s) k ≡ shift (length pre) (find n s)
find_from_behind n pre s k e =
    ap (find_from n (pre ++ s)) (let at : k ≡ length pre + 0 = omega (arith, e) in at)
    ∙ find_from-shift n pre s 0
    ∙ ap (shift (length pre)) (find_from_zero n s)

-- The parts of a text with a known front.
pub take_front : (n : ℕ) (pre s : Text) → n ≡ length pre → take n (pre ++ s) ≡ pre
take_front n pre s e = rw e (take-length-append pre s)

pub drop_front : (n : ℕ) (pre s : Text) → n ≡ length pre → drop n (pre ++ s) ≡ s
drop_front n pre s e = rw e (drop-length-append pre s)

-- A needle that differs from the text within the bytes that both have.
abbrev pub clash : Text → Text → Bool
clash (x ∷ n) (c ∷ s) = not (x == c) || clash n s
clash _ _ = false

-- No occurrence begins in this front, whatever follows it.
abbrev pub is_clear : Text → Text → Bool
is_clear n [] = true
is_clear n (c ∷ s) = clash n (c ∷ s) && is_clear n s

starts_with-clash : (n s t : Text) → clash n s ≡ true → starts_with n (s ++ t) ≡ false
unfolding starts_with
starts_with-clash (x ∷ n) (c ∷ s) t h = ground (arith, starts_with-clash n s t)
starts_with-clash _ _ t h = cc

pub find-append_clear :
    (n front s : Text)
    → is_clear n front ≡ true
    → find n (front ++ s) ≡ shift (length front) (find n s)
unfolding find
find-append_clear n [] s h = sym (shift_zero _)
find-append_clear n (c ∷ front) s h =
    let here : clash n (c ∷ front) ≡ true = ground arith in
    let later : is_clear n front ≡ true = ground arith in
    rw (starts_with-clash n (c ∷ front) s here, find-append_clear n front s later)
      (shift-shift 1 (length front) _
        ∙ ap (λ k. shift k (find n s))
            (let e : 1 + length front ≡ suc (length front) = omega arith in e))

-- The text has this part somewhere.
abbrev pub HasPart : Text → Text → Type 0
HasPart part s = (a : Text) × ((b : Text) × (s ≡ a ++ (part ++ b)))

find_there : (part a b : Text) → find part (a ++ (part ++ b)) ≢ none
unfolding find
find_there part [] b e = ground (arith, e, find_self part b)
find_there part (c ∷ a) b e = ground (arith, e, find_there part a b)

-- `find` finds a part exactly if there is one.
pub find-HasPart : (part s : Text) (i : ℕ) → find part s ≡ some i → HasPart part s
find-HasPart part s i f =
    let (le, sw) = find_sound part s i f in
    (
      take i s,
      (
        drop (length part) (drop i s),
        sym (take-append-drop i s) ∙ ap (λ t. take i s ++ t) (starts_with_split part (drop i s) sw),
      ),
    )

pub find-none-HasPart : (part s : Text) → find part s ≡ none → ¬ (HasPart part s)
find-none-HasPart part s f (a, (b, same)) = find_there part a b (rw (← same) f)
