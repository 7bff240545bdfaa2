-- ===== src/Sync/Caps.antt =====
-- src/sync/sync.cpp: `has_cap`.
use llama_cli.Base.{
  ℕ, zero, suc, ◌+◌, ◌-◌, Bool, true, false, ◌&&◌, ◌||◌, none, some, leb, ◌==◌, if◌then◌else◌,
  length, Text, char_at, find_from,
}

-- The loop: each round that finds `cap` moves behind it, so that a round for each byte and one more
-- is enough for any capability but the empty one.
unfoldable pub has_cap_from : Text → Text → ℕ → ℕ → Bool
has_cap_from caps cap zero pos = false
has_cap_from caps cap (suc rounds) pos = elim (find_from cap caps pos) [
  | none ↦ false
  | some at ↦
      let at_start = at == 0 || char_at caps (at - 1) == b',' in
      let at_end = leb (length caps) (at + length cap) || char_at caps (at + length cap) == b',' in
      let later = has_cap_from caps cap rounds (at + length cap) in
      if at_start && at_end then true else later
]

unfoldable pub has_cap : Text → Text → Bool
unfolding has_cap_from
has_cap caps cap = has_cap_from caps cap (length caps + 1) 0
