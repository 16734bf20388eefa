-- ===== src/Kmalloc/Tiling.antt =====
-- The blocks of the heap lie side by side: what a list of them covers.
use matrix_os.Prelude.{
  ℕ, ◌+◌, ◌≤◌, ◌<◌, ◌≡◌, refl, ap, ◌⊎◌, inl, inr, Bool, false, ◌&&◌, List, [], ◌∷◌, arith, leb, ltb,
  if◌then◌else◌, Bool-cases,
}
use matrix_os.Kmalloc.{Block}

-- Whether an address is one of the block's, as 0 or 1.
abbrev pub in_block : Block → ℕ → ℕ
in_block b x = if leb b.addr x && ltb x (b.addr + b.size) then 1 else 0

-- In how many blocks that are in use an address lies.
abbrev pub held : List Block → ℕ → ℕ
held [] x = 0
held (b ∷ rest) x = (if b.is_free then 0 else in_block b x) + held rest x

-- The blocks fill the addresses from `from` up to `to`, in this order, each with room for its header.
abbrev pub Tiles : ℕ → ℕ → List Block → Type 0
Tiles from to [] = from ≡ to
Tiles from to (b ∷ rest) = (b.addr ≡ from) × (16 ≤ b.size) × Tiles (from + b.size) to rest

abbrev pub In : Block → List Block → Type 0
In b [] = ⊥
In b (c ∷ rest) = (c ≡ b) ⊎ In b rest

pub In-above : (b : Block) (from to : ℕ) (l : List Block) → Tiles from to l → In b l → from ≤ b.addr
In-above b from to [] tiles none_in = absurd none_in
In-above b from to (c ∷ l) tiles (inl here) = omega (arith, ap (λ t. t.addr) here, tiles.0)
In-above b from to (c ∷ l) tiles (inr later) =
    omega (arith, In-above b (from + c.size) to l tiles.2 later)

held_before : (from to : ℕ) (l : List Block) (x : ℕ) → Tiles from to l → x < from → held l x ≡ 0
held_before from to [] x tiles before = refl
held_before from to (b ∷ l) x tiles before =
    let rest : held l x ≡ 0 = held_before (from + b.size) to l x tiles.2 (omega arith) in
    ground (arith, rest, tiles.0)

-- No address lies in two blocks.
pub held_le_one : (from to : ℕ) (l : List Block) (x : ℕ) → Tiles from to l → held l x ≤ 1
held_le_one from to [] x tiles = omega arith
held_le_one from to (b ∷ l) x tiles = elim (Bool-cases (ltb x (from + b.size))) [
  | inl before ↦
      let rest : held l x ≡ 0 = held_before (from + b.size) to l x tiles.2 (ground arith) in
      ground (arith, rest)
  | inr after ↦
      let outside : in_block b x ≡ 0 = ground (arith, tiles.0) in
      ground (arith, outside, held_le_one (from + b.size) to l x tiles.2)
]

-- Whether the first block of the chain is free.
abbrev pub head_free : List Block → Bool
head_free [] = false
head_free (b ∷ l) = b.is_free

-- No free block has a free successor.
abbrev pub IsCoalesced : List Block → Type 0
IsCoalesced [] = Unit
IsCoalesced (b ∷ l) = ((b.is_free && head_free l) ≡ false) × IsCoalesced l
