-- ===== src/Prelude/Loops.antt =====
-- Counted loops, `for (k = i; k < i + n; k++) s = body k s`, by recursion on the rounds left.
use Prim.Native.Nat.{ℕ, zero, suc, ◌+◌}

unfoldable pub for_range {ℓ} : {S : Type ℓ} → (rounds from : ℕ) → (ℕ → S → S) → S → S
for_range zero from round state = state
for_range (suc rounds) from round state = for_range rounds (from + 1) round (round from state)

-- An invariant that each round keeps holds at the end.
pub for_range_keeps {ℓ κ} :
    {S : Type ℓ} (P : S → Type κ) (round : ℕ → S → S) (rounds from : ℕ) (state : S)
    → ((i : ℕ) (t : S) → P t → P (round i t))
    → P state
    → P (for_range rounds from round state)
unfolding for_range
for_range_keeps P round zero from state keep holds = holds
for_range_keeps P round (suc rounds) from state keep holds =
    for_range_keeps P round rounds (from + 1) (round from state) keep (keep from state holds)
