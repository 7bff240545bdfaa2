-- ===== src/Tui/Feed.antt =====
-- How StreamRenderer takes in the tokens of an answer.
use llama_cli.Tui.Stream.{
  Display, StreamRenderer, Flushed, returned, thrown, and_then, flush_line, feed, write,
}
use llama_cli.Base.{
  ◌-◌, ◌≡◌, refl, sym, ap, ◌∙◌, ◌≢◌, ◌⊎◌, inl, inr, List, [], ◌∷◌, ◌++◌, append-nil, append_assoc,
  arith, ne→beq, length, take, length-append, take-length-append, All, Text,
}

-- The text is one line, or a part of one.
abbrev pub OneLine : Text → Type 0
OneLine w = All (λ c. c ≢ b'\n') w

-- all tokens, one after the other
unfoldable pub write_all : Display → List Text → StreamRenderer → StreamRenderer
write_all display [] s = s
write_all display (token ∷ tokens) s = write_all display tokens (write display token s)

unfoldable pub joined : List Text → Text
joined [] = []
joined (token ∷ tokens) = token ++ joined tokens

Flushed-cases :
    (o : Flushed)
    → ((s : StreamRenderer) × (o ≡ returned s)) ⊎ ((s : StreamRenderer) × (o ≡ thrown s))
Flushed-cases (returned s) = inl (s, refl)
Flushed-cases (thrown s) = inr (s, refl)

abbrev state_of : Flushed → StreamRenderer
state_of (returned s) = s
state_of (thrown s) = s

and_then_assoc :
    (o : Flushed) (f g h : StreamRenderer → Flushed)
    → ((s : StreamRenderer) → h s ≡ and_then (f s) g)
    → and_then o h ≡ and_then (and_then o f) g
and_then_assoc (returned s) f g h law = law s
and_then_assoc (thrown s) f g h law = refl

module _ (display : Display) where
  pub feed-append :
      (a b : Text) (s : StreamRenderer)
      → feed display (a ++ b) s ≡ and_then (feed display a s) (feed display b)
  unfolding feed
  feed-append [] b s = refl
  feed-append (c ∷ a) b s =
      and_then_assoc _ (feed display a) (feed display b) (feed display (a ++ b)) (feed-append a b)

  pub write-feed :
      (token : Text) (s s₁ : StreamRenderer)
      → feed display token s ≡ returned s₁
      → write display token s ≡ s₁
  unfolding write
  write-feed token s s₁ e = rw (e, write) refl

  -- Where nothing throws, it does not matter how the answer is cut into tokens.
  pub write_all-feed :
      (tokens : List Text) (s last : StreamRenderer)
      → feed display (joined tokens) s ≡ returned last
      → write_all display tokens s ≡ last
  unfolding write_all joined feed
  write_all-feed [] s last e = ap state_of e
  write_all-feed (token ∷ tokens) s last e =
      let whole = sym (feed-append token (joined tokens) s) ∙ e in
      elim (Flushed-cases (feed display token s)) [
        | inl (s₁, f) ↦
            let later : feed display (joined tokens) s₁ ≡ returned last = rw f at whole in
            rw (write-feed token s s₁ f) (write_all-feed tokens s₁ last later)
        | inr (s₁, f) ↦ let stuck : thrown s₁ ≡ returned last = rw f at whole in absurd (cc)
      ]

  -- Within a line the renderer only buffers.
  pub feed-OneLine :
      (w : Text) (s : StreamRenderer)
      → OneLine w
      → feed display w s ≡ returned (record s { buf = s.buf ++ w })
  unfolding feed
  feed-OneLine [] s one = ap (λ b. returned (record s { buf = b })) (sym (append-nil s.buf))
  feed-OneLine (c ∷ w) s (other, one) =
      rw (ne→beq c b'\n' other, feed)
        (feed-OneLine w (record s { buf = s.buf ++ c ∷ [] }) one
          ∙ ap (λ b. returned (record s { buf = b })) (append_assoc s.buf (c ∷ []) w))

  feed_newline :
      (rest : Text) (s : StreamRenderer)
      → feed display (b'\n' ∷ rest) s
        ≡ and_then (flush_line display (record s { buf = s.buf ++ b'\n' ∷ [] })) (feed display rest)
  unfolding feed
  feed_newline rest s = refl

  pub feed_line :
      (w rest : Text) (s : StreamRenderer)
      → OneLine w
      → s.buf ≡ []
      → feed display (w ++ b'\n' ∷ rest) s
        ≡ and_then (flush_line display (record s { buf = w ++ b'\n' ∷ [] })) (feed display rest)
  feed_line w rest s one fresh =
      feed-append w (b'\n' ∷ rest) s
      ∙ ap (λ o. and_then o (feed display (b'\n' ∷ rest))) (feed-OneLine w s one)
      ∙ feed_newline rest (record s { buf = s.buf ++ w })
      ∙ ap
          (λ b.
            and_then (flush_line display (record s { buf = b ++ w ++ b'\n' ∷ [] }))
              (feed display rest))
          fresh

  pub take_content : (w : Text) → take (length (w ++ b'\n' ∷ []) - 1) (w ++ b'\n' ∷ []) ≡ w
  take_content w =
      ap (λ n. take n (w ++ b'\n' ∷ []))
        (let e : length (w ++ b'\n' ∷ []) - 1 ≡ length w =
            omega (arith, length-append w (b'\n' ∷ [])) in
          e)
      ∙ take-length-append w (b'\n' ∷ [])
