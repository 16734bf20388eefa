-- ===== src/Pmm/Alloc.antt =====
-- pmm_alloc_pages: what it hands out, and what it leaves free.
use Prim.Native.Nat.{bit_xor}
use matrix_os.Prelude.{
  ℕ, zero, suc, ◌+◌, ◌-◌, ◌*◌, ◌^◌, ◌≤◌, ◌<◌, ◌≡◌, refl, ap, ◌∙◌, ◌⊎◌, inl, inr, arith, ltb, true,
  List, [], ◌∷◌, Option, none, some, Bool-cases, ltb→lt, ltb_false→le, le→ltb_false,
}
use matrix_os.Pmm.{
  Buddy, area, find_area, split, take_first, hand_out, pmm_alloc_pages, push_block, mark,
  page_index, max_order,
}
use matrix_os.Pmm.Xor.{
  block_size, block_size-suc, times-block_size, multiple-below, two_pow_twelve, bit_xor-even,
}
use matrix_os.Pmm.Cover.{in_block, cover, IsBlock, IsValid, in_block-halves}
use matrix_os.Pmm.Updates.{
  hand_out-SameLists, SameLists-IsValid, SameLists-cover, cover-push_block, push_block-IsValid,
  cover-take_first, base-push_block, base-take_first, first-IsBlock, take_first-IsValid,
}

List-cases : (l : List ℕ) → (l ≡ []) ⊎ ((a : ℕ) × (r : List ℕ) × (l ≡ a ∷ r))
List-cases [] = inl refl
List-cases (a ∷ r) = inr (a, r, refl)

-- What the search over `n` orders from `k` on finds: nothing, where all those lists are empty, or
-- the first entry of the first list that is not.
abbrev Finds : ℕ → ℕ → Buddy → Option (ℕ × ℕ × List ℕ) → Type 0
Finds n k s none = (j : ℕ) → k ≤ j → j < k + n → (area s j).free_list ≡ []
Finds n k s (some (c, addr, rest)) =
    (k ≤ c)
    × (c < k + n)
    × ((area s c).free_list ≡ addr ∷ rest)
    × ((j : ℕ) → k ≤ j → j < c → (area s j).free_list ≡ [])

Finds-step :
    (n k : ℕ) (s : Buddy) (o : Option (ℕ × ℕ × List ℕ))
    → (area s k).free_list ≡ []
    → Finds n (k + 1) s o
    → Finds (suc n) k s o
Finds-step n k s none e f = λ j l u. elim (Bool-cases (ltb k j)) [
  | inl above ↦ f j (ground arith) (omega arith)
  | inr at ↦ let same : j ≡ k = ground arith in rw same e
]
Finds-step n k s (some (c, addr, rest)) e f = (
  omega arith,
  omega arith,
  f.2,
  λ j l u. elim (Bool-cases (ltb k j)) [
    | inl above ↦ f.3 j (ground arith) u
    | inr at ↦ let same : j ≡ k = ground arith in rw same e
  ],
)

find_area-Finds : (n k : ℕ) (s : Buddy) → Finds n k s (find_area n k s)
unfolding find_area
find_area-Finds zero k s = λ j l u. absurd (omega arith)
find_area-Finds (suc n) k s = elim (List-cases (area s k).free_list) [
  | inl none_here ↦
      rw (none_here, find_area) (Finds-step n k s _ none_here (find_area-Finds n (k + 1) s))
  | inr (a, r, here) ↦
      rw (here, find_area) (omega arith, omega arith, here, λ j l u. absurd (omega arith))
]

-- The halves of a block, and the address at which the code finds the upper one.
module _ (base k a : ℕ) (b : IsBlock base (suc k) a) where
  lower-IsBlock : IsBlock base k a
  lower-IsBlock = record {
    index = b.index * 2;
    starts = omega (arith, b.starts, times-block_size b.index k);
    ends = omega (arith, b.ends, block_size-suc k);
  }

  upper-IsBlock : IsBlock base k (a + block_size k)
  upper-IsBlock = record {
    index = b.index * 2 + 1;
    starts = omega (arith, b.starts, times-block_size b.index k);
    ends = omega (arith, b.ends, block_size-suc k);
  }

  upper_address :
      (m : ℕ) → base ≡ m * block_size (suc k) → bit_xor a (2 ^ (k + 12)) ≡ a + block_size k
  upper_address m h =
      let doubled : a ≡ 2 * (m + b.index) * 2 ^ (k + 12) = omega (
        arith,
        b.starts,
        h,
        times-block_size m k,
        times-block_size b.index k,
        ap (λ (t : ℕ). m * t) (two_pow_twelve k),
        ap (λ (t : ℕ). b.index * t) (two_pow_twelve k),
      ) in
      ap (λ t. bit_xor t (2 ^ (k + 12))) doubled
      ∙ bit_xor-even (k + 12) (m + b.index)
      ∙ omega (arith, doubled, two_pow_twelve k)

-- What the split of a block of order `top` down to `order` does.
record Splits (order top addr : ℕ) (s t : Buddy) : Type 0 where
  covers : (x : ℕ) → cover t x + in_block order addr x ≡ cover s x + in_block top addr x
  valid : IsValid t
  bases : t.base_addr ≡ s.base_addr
  block : IsBlock s.base_addr order addr

split-Splits :
    (n order top addr : ℕ) (s : Buddy)
    → top ≡ order + n
    → top < 12
    → IsValid s
    → IsBlock s.base_addr top addr
    → Splits order top addr s (split n order addr s)
unfolding split
split-Splits zero order top addr s e h v b =
    let at : top ≡ order = omega arith in
    record { covers = λ x. rw at refl; valid = v; bases = refl; block = rw at at b }
split-Splits (suc n) order top addr s e h v b =
    let at : top ≡ suc (order + n) = omega arith in
    let b' : IsBlock s.base_addr (suc (order + n)) addr = rw at at b in
    let (m, multiple) =
      multiple-below (10 - (order + n)) (suc (order + n)) 11 s.base_addr v.base_multiple
        (omega arith) v.base in
    let k = order + n in
    let up = addr + block_size k in
    let t : Buddy = mark true (page_index up s) (push_block k up s) in
    let base : t.base_addr ≡ s.base_addr = base-push_block k up s in
    let valid : IsValid t =
      SameLists-IsValid {s = push_block k up s} (record { lists = refl; bases = refl })
        (push_block-IsValid k up s v (omega arith) (upper-IsBlock s.base_addr k addr b')) in
    let rest =
      split-Splits n order k addr t refl (omega arith) valid
        (rw base (lower-IsBlock s.base_addr k addr b')) in
    rw (upper_address s.base_addr k addr b' m multiple) (record {
      covers = λ x. rw at (
          omega (
            arith,
            rest.covers x,
            cover-push_block k up s v (omega arith) x,
            in_block-halves k addr x,
          ));
      valid = rest.valid;
      bases = rest.bases ∙ base;
      block = rw base at rest.block;
    })

-- What an allocation of order `order` at `addr` does: the block of that order at `addr` was free and
-- is free no longer, every other address is as free as before, and the state stays valid.
pub record Allocates (order addr : ℕ) (s t : Buddy) : Type 0 where
  pub covers : (x : ℕ) → cover t x + in_block order addr x ≡ cover s x
  pub valid : IsValid t
  pub bases : t.base_addr ≡ s.base_addr
  pub block : IsBlock s.base_addr order addr

-- What `pmm_alloc_pages` does with each request: it hands out a block, or it answers 0 and leaves the
-- state as it was, which it does for an order above 11, and where no list from that order on has one.
abbrev pub Answers : ℕ → Buddy → Type 0
Answers order s =
    Allocates order (pmm_alloc_pages order s).0 s (pmm_alloc_pages order s).1
    ⊎ ((pmm_alloc_pages order s ≡ (0, s))
        × ((j : ℕ) → order ≤ j → j ≤ max_order → (area s j).free_list ≡ []))

alloc_found :
    (order c addr : ℕ) (rest : List ℕ) (s : Buddy)
    → IsValid s
    → order ≤ c
    → c < 12
    → (area s c).free_list ≡ addr ∷ rest
    → Allocates order addr s
        (hand_out addr order (split (c - order) order addr (take_first c rest s)))
alloc_found order c addr rest s v l u e =
    let taken = take_first c rest s in
    let base = base-take_first c rest s in
    let parts =
      split-Splits (c - order) order c addr taken (omega arith) u
        (take_first-IsValid c addr rest s v u e) (rw base (first-IsBlock c addr rest s v u e)) in
    let same = hand_out-SameLists addr order (split (c - order) order addr taken) in
    record {
      covers = λ x.
          omega
            (arith, SameLists-cover x same, parts.covers x, cover-take_first c addr rest s v u e x);
      valid = SameLists-IsValid same parts.valid;
      bases = same.bases ∙ parts.bases ∙ base;
      block = rw base at parts.block;
    }

alloc_cases :
    (order : ℕ) (s : Buddy) (o : Option (ℕ × ℕ × List ℕ))
    → IsValid s
    → order ≤ 11
    → find_area (12 - order) order s ≡ o
    → Finds (12 - order) order s o
    → Answers order s
unfolding pmm_alloc_pages
alloc_cases order s none v h e f =
    rw (le→ltb_false 11 order h, e, pmm_alloc_pages) (inr (refl, λ j l u. f j l (omega arith)))
alloc_cases order s (some (c, addr, rest)) v h e f =
    rw (le→ltb_false 11 order h, e, pmm_alloc_pages)
      (inl (alloc_found order c addr rest s v f.0 (omega (arith, f.1)) f.2))

refuse : (order : ℕ) (s : Buddy) → ltb 11 order ≡ true → pmm_alloc_pages order s ≡ (0, s)
unfolding pmm_alloc_pages
refuse order s e = rw e

pmm_alloc_pages-Answers : (order : ℕ) (s : Buddy) → IsValid s → Answers order s
pmm_alloc_pages-Answers order s v = elim (Bool-cases (ltb 11 order)) [
  | inl invalid ↦
      inr (refuse order s invalid, λ j l u. absurd (omega (arith, ltb→lt 11 order invalid)))
  | inr valid ↦
      alloc_cases order s (find_area (12 - order) order s) v (ltb_false→le 11 order valid) refl
        (find_area-Finds (12 - order) order s)
]

-- `pmm_alloc_pages` either answers 0 and changes nothing, or allocates: the block that it returns is
-- of the order asked for, aligned to its size, and was free; it is free no longer, every other address
-- is as free as before, and the state stays valid.
pub pmm_alloc_pages_lem :
    (order : ℕ) (s : Buddy)
    → IsValid s
    → (pmm_alloc_pages order s ≡ (0, s))
      ⊎ Allocates order (pmm_alloc_pages order s).0 s (pmm_alloc_pages order s).1
pmm_alloc_pages_lem order s v = elim (pmm_alloc_pages-Answers order s v) [
  | inl done ↦ inr done
  | inr refused ↦ inl refused.0
]

-- A request succeeds whenever a block of its order or of a higher one is free.
pub pmm_alloc_pages_succeeds :
    (order k addr : ℕ) (rest : List ℕ) (s : Buddy)
    → IsValid s
    → order ≤ k
    → k ≤ 11
    → (area s k).free_list ≡ addr ∷ rest
    → Allocates order (pmm_alloc_pages order s).0 s (pmm_alloc_pages order s).1
pmm_alloc_pages_succeeds order k addr rest s v l u e = elim (pmm_alloc_pages-Answers order s v) [
  | inl done ↦ done
  | inr refused ↦ cc (refused.1 k l u)
]
