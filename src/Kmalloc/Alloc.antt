-- ===== src/Kmalloc/Alloc.antt =====
-- kmalloc on a well-formed heap: what it hands out.
use matrix_os.Prelude.{
  ℕ, ◌+◌, ◌-◌, ◌≤◌, ◌<◌, ◌≡◌, ◌≢◌, refl, sym, ap, subst, ◌⊎◌, inl, inr, Bool, true, false, ◌&&◌,
  List, [], ◌∷◌, Option, none, some, arith, ◌==◌, leb, ltb, if◌then◌else◌, Bool-cases, Option-cases,
  ne→==_false,
}
use matrix_os.Prelude.Word.{add32}
use matrix_os.CString.{Memory, memset}
use matrix_os.CString.Blocks.{within, memset_lem}
use matrix_os.Kmalloc.{
  Block, Heap, actual_size, is_better, best_from, is_split, granted, carve_block, carve, kmalloc,
}
use matrix_os.Kmalloc.Tiling.{in_block, held, Tiles, In, In-above, held_le_one}

-- A block that a request for `need` bytes, header included, can be given.
abbrev pub Fits : ℕ → Block → Type 0
Fits need b = (b.is_free ≡ true) × (need ≤ b.size)

abbrev fits : ℕ → Block → Bool
fits need b = b.is_free && leb need b.size

taken :
    (need : ℕ) (b : Block) (best : Option Block)
    → (b.is_free && leb need b.size && is_better b best) ≡ true
    → Fits need b
taken need b best e = ground arith

some-same : (b c : Block) → some b ≡ some c → b ≡ c
some-same b c e = ap (λ o. elim o [ none ↦ b | some d ↦ d ]) e

pub best_from-In :
    (need : ℕ) (best : Option Block) (l : List Block) (b : Block)
    → best_from need best l ≡ some b
    → (best ≡ some b) ⊎ (In b l × Fits need b)
unfolding best_from
best_from-In need best [] b e = inl e
best_from-In need best (c ∷ l) b e =
    elim (Bool-cases (c.is_free && leb need c.size && is_better c best)) [
      | inl better ↦ elim (best_from-In need (some c) l b (rw (better) at e)) [
        | inl kept ↦
            let same : c ≡ b = some-same c b kept in
            inr (inl same, subst (Fits need) same (taken need c best better))
        | inr later ↦ inr (inr later.0, later.1)
      ]
      | inr worse ↦ elim (best_from-In need best l b (rw (worse) at e)) [
        | inl kept ↦ inl kept
        | inr later ↦ inr (inr later.0, later.1)
      ]
    ]

-- What the carving of a free block does to the chain: it still fills the heap, and exactly the part that
-- is handed out is in use besides what was.
record Carves (need : ℕ) (b : Block) (from to : ℕ) (l t : List Block) : Type 0 where
  tiles : Tiles from to t
  holds : (x : ℕ) → held t x ≡ held l x + in_block (record b { size = granted need b }) x

carve_block-Carves :
    (need from to : ℕ) (b : Block) (rest : List Block)
    → 16 ≤ need
    → Fits need b
    → Tiles from to (b ∷ rest)
    → Carves need b from to (b ∷ rest) (carve_block need b rest)
carve_block-Carves need from to b rest large fit tiles = elim (Bool-cases (is_split need b)) [
  | inl split ↦
      let whole : from + b.size ≡ from + need + (b.size - need) = omega (arith, fit.1) in
      let room : 16 ≤ b.size - need = ground arith in
      rw (split) (record {
        tiles = (
          tiles.0,
          large,
          (omega (arith, tiles.0), room, subst (λ (t : ℕ). Tiles t to rest) whole tiles.2),
        );
        holds = λ x. rw (split, fit.0) (ground arith);
      })
  | inr whole ↦ rw (whole) (record { tiles = tiles; holds = λ x. rw (whole, fit.0) (ground arith) })
]

carve-Carves :
    (need from to : ℕ) (b : Block) (l : List Block)
    → 16 ≤ need
    → Fits need b
    → Tiles from to l
    → In b l
    → Carves need b from to l (carve need b.addr l)
unfolding carve
carve-Carves need from to b [] large fit tiles member = absurd member
carve-Carves need from to b (c ∷ l) large fit tiles (inl here) =
    let at : c.addr ≡ b.addr = ap (λ t. t.addr) here in
    let test : (c.addr == b.addr) ≡ true = ground (arith, at) in
    rw (test) (
      subst (λ (t : Block). Carves need b from to (t ∷ l) (carve_block need t l)) (sym here)
        (carve_block-Carves need from to b l large fit
          (subst (λ (t : Block). Tiles from to (t ∷ l)) here tiles)))
carve-Carves need from to b (c ∷ l) large fit tiles (inr later) =
    let above : c.addr < b.addr =
      omega (arith, In-above b (from + c.size) to l tiles.2 later, tiles.0, tiles.1) in
    let rest = carve-Carves need (from + c.size) to b l large fit tiles.2 later in
    rw (ne→==_false c.addr b.addr (omega (arith, above)))
      (record { tiles = (tiles.0, tiles.1, rest.tiles); holds = λ x. omega (arith, rest.holds x) })

-- What a successful request does: the chain still fills the heap and no address is in two of its blocks;
-- the new block, of `length` bytes from `addr` on, has room for a header and `size` bytes and is in use
-- besides what was; the `size` bytes behind its header are zero, and no other byte has changed.
pub record Hands (size from to : ℕ) (h : Heap) (m : Memory) (result : ℕ × Heap × Memory)
    : Type 0 where
  pub addr : ℕ
  pub length : ℕ
  pub returned : result.0 ≡ addr + 16
  pub room : size + 16 ≤ length
  pub tiles : Tiles from to result.1.blocks
  pub alone : (x : ℕ) → held result.1.blocks x ≤ 1
  pub holds :
      (x : ℕ) → held result.1.blocks x ≡ held h.blocks x + (if within addr length x then 1 else 0)
  pub zeroed : (x : ℕ) → result.2 x ≡ (if within (addr + 16) size x then 0 else m x)

granted_le : (need : ℕ) (b : Block) → need ≤ b.size → need ≤ granted need b
granted_le need b room = ground arith

found-Hands :
    (size from to : ℕ) (h : Heap) (m : Memory) (b : Block)
    → Tiles from to h.blocks
    → best_from (actual_size size) none h.blocks ≡ some b
    → Hands size from to h m (
      b.addr + 16,
      record h {
        blocks = carve (actual_size size) b.addr h.blocks;
        total_allocated = add32 h.total_allocated size;
        current_usage = add32 h.current_usage (granted (actual_size size) b);
      },
      memset (b.addr + 16) 0 size m,
    )
found-Hands size from to h m b tiles found =
    elim (best_from-In (actual_size size) none h.blocks b found) [
      | inl absent ↦ absurd (ground arith)
      | inr (member, fit) ↦
          let carved =
            carve-Carves (actual_size size) from to b h.blocks (omega arith) fit tiles member in
          record {
            addr = b.addr;
            length = granted (actual_size size) b;
            returned = refl;
            room = omega (arith, granted_le (actual_size size) b fit.1);
            tiles = carved.tiles;
            alone = λ x. held_le_one from to _ x carved.tiles;
            holds = λ x. carved.holds x;
            zeroed = λ x. memset_lem (b.addr + 16) 0 size m x;
          }
    ]

-- On a heap whose blocks lie side by side, `kmalloc` either answers NULL and changes nothing, or hands out
-- a block with room for the request, which no block in use shared an address with: it zeroes the bytes
-- asked for and changes no other byte, takes nothing else in use, and the blocks still fill the heap.
pub kmalloc_lem :
    (size from to : ℕ) (h : Heap) (m : Memory)
    → Tiles from to h.blocks
    → (kmalloc size h m ≡ (0, h, m)) ⊎ Hands size from to h m (kmalloc size h m)
unfolding kmalloc
kmalloc_lem size from to h m tiles = elim (Bool-cases (size == 0)) [
  | inl none_asked ↦ rw (none_asked) (inl refl)
  | inr some_asked ↦ elim (Bool-cases (ltb 4194304 size)) [
    | inl large ↦ rw (some_asked) (rw (large) (inl refl))
    | inr small ↦ elim (Option-cases (best_from (actual_size size) none h.blocks)) [
      | inl full ↦ rw (some_asked, kmalloc) (rw (small) (rw (full) (inl refl)))
      | inr (b, found) ↦
          rw (some_asked, kmalloc)
            (rw (small) (rw (found) (inr (found-Hands size from to h m b tiles found))))
    ]
  ]
]

best_from-some : (need : ℕ) (best : Block) (l : List Block) → best_from need (some best) l ≢ none
unfolding best_from
best_from-some need best [] = λ e. ground arith
best_from-some need best (c ∷ l) =
    elim (Bool-cases (c.is_free && leb need c.size && is_better c (some best))) [
      | inl better ↦ rw (better) (best_from-some need c l)
      | inr worse ↦ rw (worse) (best_from-some need best l)
    ]

best_from-found :
    (need : ℕ) (l : List Block) (b : Block) → In b l → Fits need b → best_from need none l ≢ none
unfolding best_from
best_from-found need [] b member fit = absurd member
best_from-found need (c ∷ l) b member fit = elim (Bool-cases (c.is_free && leb need c.size)) [
  | inl first ↦
      let taken_first : (c.is_free && leb need c.size && is_better c none) ≡ true = ground arith in
      rw (taken_first) (best_from-some need c l)
  | inr skipped ↦
      let left : (c.is_free && leb need c.size && is_better c none) ≡ false = ground arith in
      rw (left) (elim member [
        | inl here ↦
            let fit_here : Fits need c = subst (Fits need) (sym here) fit in
            absurd (ground (arith, fit_here.0, fit_here.1))
        | inr later ↦ best_from-found need l b later fit
      ])
]

-- A request of 1 byte to 4 MB is given a block, on a heap whose blocks lie side by side, whenever some free
-- block of it has room for the request and a header, rounded up to 8 bytes.
pub kmalloc_succeeds :
    (size from to : ℕ) (h : Heap) (m : Memory) (b : Block)
    → Tiles from to h.blocks
    → 0 < size
    → size ≤ 4194304
    → In b h.blocks
    → b.is_free ≡ true
    → actual_size size ≤ b.size
    → Hands size from to h m (kmalloc size h m)
unfolding kmalloc
kmalloc_succeeds size from to h m b tiles positive small member free room =
    let asked : (size == 0) ≡ false = ground arith in
    let allowed : ltb 4194304 size ≡ false = ground arith in
    elim (Option-cases (best_from (actual_size size) none h.blocks)) [
      | inl full ↦ absurd (best_from-found (actual_size size) h.blocks b member (free, room) full)
      | inr (c, found) ↦
          rw (asked, kmalloc)
            (rw (allowed) (rw (found) (found-Hands size from to h m c tiles found)))
    ]
