-- ===== src/Kmalloc/Release.antt =====
-- kfree on a well-formed heap: what it gives back, and which blocks it joins.
use matrix_os.Prelude.{
  ℕ, ◌+◌, ◌^◌, ◌≤◌, ◌<◌, ◌≡◌, refl, ap, ◌∙◌, subst, inl, inr, true, false, ◌&&◌, List, [], ◌∷◌,
  some, arith, ◌==◌, Bool-cases, ne→==_false,
}
use matrix_os.Prelude.Word.{sub32}
use matrix_os.Kmalloc.{Block, Heap, block_at, absorb_next, starts_at, release, kfree}
use matrix_os.Kmalloc.Tiling.{in_block, held, Tiles, In, In-above, head_free, IsCoalesced}

Tiles-le : (from to : ℕ) (l : List Block) → Tiles from to l → from ≤ to
Tiles-le from to [] tiles = omega arith
Tiles-le from to (b ∷ l) tiles = omega (arith, Tiles-le (from + b.size) to l tiles.2)

In-below :
    (b : Block) (from to : ℕ) (l : List Block) → Tiles from to l → In b l → b.addr + b.size ≤ to
In-below b from to [] tiles member = absurd member
In-below b from to (c ∷ l) tiles (inl here) = omega (
  arith,
  tiles.0,
  Tiles-le (from + c.size) to l tiles.2,
  ap (λ t. t.addr) here,
  ap (λ t. t.size) here,
)
In-below b from to (c ∷ l) tiles (inr later) = In-below b (from + c.size) to l tiles.2 later

In-size : (b : Block) (from to : ℕ) (l : List Block) → Tiles from to l → In b l → 16 ≤ b.size
In-size b from to [] tiles member = absurd member
In-size b from to (c ∷ l) tiles (inl here) = omega (arith, tiles.1, ap (λ t. t.size) here)
In-size b from to (c ∷ l) tiles (inr later) = In-size b (from + c.size) to l tiles.2 later

block_at-In :
    (b : Block) (from to : ℕ) (l : List Block)
    → Tiles from to l
    → In b l
    → block_at b.addr l ≡ some b
unfolding block_at
block_at-In b from to [] tiles member = absurd member
block_at-In b from to (c ∷ l) tiles (inl here) =
    let test : (c.addr == b.addr) ≡ true = ground (arith, ap (λ t. t.addr) here) in
    rw (test) (ap some here)
block_at-In b from to (c ∷ l) tiles (inr later) =
    let above : c.addr < b.addr =
      omega (arith, In-above b (from + c.size) to l tiles.2 later, tiles.0, tiles.1) in
    rw (ne→==_false c.addr b.addr (omega (arith, above)))
      (block_at-In b (from + c.size) to l tiles.2 later)

absorb_next-Tiles :
    (from to : ℕ) (b : Block) (l : List Block)
    → Tiles from to (b ∷ l)
    → Tiles from to (absorb_next b l)
unfolding absorb_next
absorb_next-Tiles from to b [] tiles = tiles
absorb_next-Tiles from to b (c ∷ l) tiles = elim (Bool-cases c.is_free) [
  | inl joins ↦
      let whole : from + b.size + c.size ≡ from + (b.size + c.size) = omega arith in
      rw (joins) (tiles.0, omega (arith, tiles.1), subst (λ (t : ℕ). Tiles t to l) whole tiles.2.2)
  | inr apart ↦ rw (apart) tiles
]

held-absorb_next :
    (b : Block) (l : List Block) (x : ℕ) → b.is_free ≡ true → held (absorb_next b l) x ≡ held l x
unfolding absorb_next
held-absorb_next b [] x free = rw (free) refl
held-absorb_next b (c ∷ l) x free = elim (Bool-cases c.is_free) [
  | inl joins ↦ rw (joins) (rw (free) refl)
  | inr apart ↦ rw (apart) (rw (free) (omega arith))
]

-- What the release of a used block does to the chain.
record Releases (b : Block) (from to : ℕ) (l t : List Block) : Type 0 where
  tiles : Tiles from to t
  holds : (x : ℕ) → held t x + in_block b x ≡ held l x

release-Releases :
    (b : Block) (from to : ℕ) (l : List Block)
    → Tiles from to l
    → In b l
    → b.is_free ≡ false
    → Releases b from to l (release b.addr l)
unfolding release
release-Releases b from to [] tiles member used = absurd member
release-Releases b from to (c ∷ l) tiles (inl here) used =
    let test : (c.addr == b.addr) ≡ true = ground (arith, ap (λ t. t.addr) here) in
    let c_used : c.is_free ≡ false = ap (λ t. t.is_free) here ∙ used in
    rw (test) (record {
      tiles = absorb_next-Tiles from to (record c { is_free = true }) l tiles;
      holds = λ x.
          let freed = held-absorb_next (record c { is_free = true }) l x refl in
          let same : in_block c x ≡ in_block b x = ap (λ t. in_block t x) here in
          rw (c_used) (omega (arith, freed, same));
    })
release-Releases b from to (c ∷ l) tiles (inr later) used =
    let above : c.addr < b.addr =
      omega (arith, In-above b (from + c.size) to l tiles.2 later, tiles.0, tiles.1) in
    let rest = release-Releases b (from + c.size) to l tiles.2 later used in
    rw (ne→==_false c.addr b.addr (omega (arith, above)))
      (elim (Bool-cases (starts_at b.addr l && c.is_free)) [
        | inl joins ↦
            let c_free : c.is_free ≡ true = ground (arith, joins) in
            rw (joins) (record {
              tiles = absorb_next-Tiles from to c (release b.addr l) (tiles.0, tiles.1, rest.tiles);
              holds = λ x.
                  let kept = held-absorb_next c (release b.addr l) x c_free in
                  let orig : held (c ∷ l) x ≡ held l x = rw (c_free) (omega arith) in
                  omega (arith, kept, orig, rest.holds x);
            })
        | inr apart ↦ rw (apart) (record {
          tiles = (tiles.0, tiles.1, rest.tiles);
          holds = λ x. omega (arith, rest.holds x);
        })
      ])

absorb_next-IsCoalesced :
    (b : Block) (l : List Block) → b.is_free ≡ true → IsCoalesced l → IsCoalesced (absorb_next b l)
unfolding absorb_next
absorb_next-IsCoalesced b [] free apart = (ground arith, tt)
absorb_next-IsCoalesced b (c ∷ l) free apart = elim (Bool-cases c.is_free) [
  | inl joins ↦
      let next_used : head_free l ≡ false = rw (joins) at apart.0 in
      rw (joins) (ground (arith, next_used), apart.1)
  | inr used ↦ rw (used) (ground (arith, used), (refl, apart.1))
]

head_free-absorb_next : (b : Block) (l : List Block) → head_free (absorb_next b l) ≡ b.is_free
unfolding absorb_next
head_free-absorb_next b [] = refl
head_free-absorb_next b (c ∷ l) = ground arith

-- A release further down the chain does not free its first block.
head_free-release :
    (addr : ℕ) (l : List Block)
    → starts_at addr l ≡ false
    → head_free (release addr l) ≡ head_free l
unfolding release
head_free-release addr [] other = refl
head_free-release addr (b ∷ l) other =
    rw (other) (elim (Bool-cases (starts_at addr l && b.is_free)) [
      | inl joins ↦ rw (joins) (head_free-absorb_next b (release addr l))
      | inr apart ↦ rw (apart) refl
    ])

release-IsCoalesced : (addr : ℕ) (l : List Block) → IsCoalesced l → IsCoalesced (release addr l)
unfolding release
release-IsCoalesced addr [] apart = tt
release-IsCoalesced addr (b ∷ l) apart = elim (Bool-cases (b.addr == addr)) [
  | inl here ↦ rw (here) (absorb_next-IsCoalesced (record b { is_free = true }) l refl apart.1)
  | inr later ↦
      let rest = release-IsCoalesced addr l apart.1 in
      rw (later) (elim (Bool-cases (starts_at addr l)) [
        | inl next ↦ elim (Bool-cases b.is_free) [
          | inl free ↦
              let joins : (starts_at addr l && b.is_free) ≡ true = ground (arith, next, free) in
              rw (joins) (absorb_next-IsCoalesced b (release addr l) free rest)
          | inr used ↦
              let apart_here : (starts_at addr l && b.is_free) ≡ false =
                ground (arith, next, used) in
              rw (apart_here) (ground (arith, used), rest)
        ]
        | inr away ↦
            let apart_here : (starts_at addr l && b.is_free) ≡ false = ground (arith, away) in
            rw (apart_here) (ground (arith, head_free-release addr l away, apart.0), rest)
      ])
]

-- A pointer that `kmalloc` handed out comes back: on a heap below 4 GB whose blocks lie side by side with no
-- two free ones next to one another, `kfree` of the data of a used block gives exactly that block's
-- addresses back, whatever neighbours it is joined with; the blocks still fill the heap, and no free block
-- has a free successor.
pub kfree_lem :
    (from to : ℕ) (h : Heap) (b : Block) (x : ℕ)
    → Tiles from to h.blocks
    → to < 2 ^ 32
    → In b h.blocks
    → b.is_free ≡ false
    → IsCoalesced h.blocks
    → Tiles from to (kfree (b.addr + 16) h).blocks
      × (held (kfree (b.addr + 16) h).blocks x + in_block b x ≡ held h.blocks x)
      × IsCoalesced (kfree (b.addr + 16) h).blocks
unfolding kfree
kfree_lem from to h b x tiles small member used apart =
    let below = In-below b from to h.blocks tiles member in
    let large = In-size b from to h.blocks tiles member in
    let header : sub32 (b.addr + 16) 16 ≡ b.addr = omega (arith, below, large) in
    let given : (b.addr + 16 == 0) ≡ false = ground arith in
    let released = release-Releases b from to h.blocks tiles member used in
    rw (given, kfree)
      (rw (header) (
        rw (block_at-In b from to h.blocks tiles member) (
          rw (used) (released.tiles, released.holds x, release-IsCoalesced b.addr h.blocks apart))))
