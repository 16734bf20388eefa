-- ===== src/Pmm/Pairs.antt =====
-- The buddy of a block by the formulas of pmm_free_pages, and what the two make up.
use Prim.Native.Nat.{bit_xor}
use native.Mathlib.Nat.{pow-suc, one-le-pow}
use matrix_os.Prelude.{
  ℕ, suc, ◌+◌, ◌-◌, ◌*◌, ◌/◌, ◌%◌, ◌^◌, ◌≤◌, ◌<◌, ◌≡◌, refl, ap, ◌∙◌, ◌⊎◌, inl, inr, arith, ltb,
  if◌then◌else◌, Bool-cases, ltb→lt, ltb_false→le, lt→ltb, le→ltb_false,
}
use matrix_os.Prelude.Word.{add32, mul32}
use matrix_os.Pmm.{find_buddy_pfn}
use matrix_os.Pmm.Xor.{
  block_size, block_size-suc, times-block_size, multiple-below, bit_xor-even, bit_xor-odd,
}
use matrix_os.Pmm.Cover.{in_block, IsBlock, in_block-halves}

-- A block together with the page index of its start.
pub record IsPlaced (base k a idx : ℕ) : Type 0 where
  pub block : IsBlock base k a
  pub at : idx ≡ block.index * 2 ^ k

mul_mono : (c m b : ℕ) → c ≤ m → c * b ≤ m * b
mul_mono c m b h = grind arith

-- A block of a size that divides 2 ^ 32, at a multiple of it below 2 ^ 32, ends within 32 bits.
fits : (c m b : ℕ) → c * b < m * b → (c + 1) * b ≤ m * b
fits c m b h = elim (Bool-cases (ltb c m)) [
  | inl below ↦ mul_mono (c + 1) m b (omega (arith, ltb→lt c m below))
  | inr above ↦ absurd (omega (arith, mul_mono m c b (ltb_false→le c m above)))
]

parity : (q : ℕ) → ((p : ℕ) × (q ≡ 2 * p)) ⊎ ((p : ℕ) × (q ≡ 2 * p + 1))
parity q = elim (Bool-cases (ltb 0 (q % 2))) [
  | inl odd ↦ inr (q / 2, ground arith)
  | inr even ↦ inl (q / 2, ground arith)
]

-- A block, its buddy by pmm.c's formulas, and what the two make up.
pub record IsPair (base k a idx buddy buddy_idx : ℕ) : Type 0 where
  pub joined :
      IsPlaced base
        (suc k)
        (if ltb buddy a then buddy else a)
        (if ltb buddy a then buddy_idx else idx)
  pub halves :
      (x : ℕ)
      → in_block (suc k) (if ltb buddy a then buddy else a) x ≡ in_block k a x + in_block k buddy x

two_pow-suc : (p k : ℕ) → p * 2 ^ suc k ≡ 2 * p * 2 ^ k
two_pow-suc p k = omega (arith, ap (λ (t : ℕ). p * t) (pow-suc 2 k))

module _ (base k a idx m p : ℕ) (v : IsPlaced base k a idx) (h : k < 11)
    (multiple : base ≡ m * block_size 11) where
  abbrev buddy_at : ℕ → ℕ
  buddy_at i = add32 base (mul32 i 4096)

  positive : 0 < 2 ^ k
  positive = one-le-pow k 2 (omega arith)

  -- The lower half of a pair has room for the upper one.
  room : v.block.index ≡ 2 * p → a + block_size (suc k) ≤ 2 ^ 32
  room e =
      let (c, base_c) = multiple-below (10 - k) (suc k) 11 base m (omega arith) multiple in
      let (w, word) = multiple-below (10 - k) (suc k) 11 (2 ^ 32) 512 (omega arith) refl in
      let start : a ≡ (c + p) * block_size (suc k) = omega (
        arith,
        v.block.starts,
        base_c,
        ap (λ (t : ℕ). t * block_size k) e,
        times-block_size p k,
        times-block_size c k,
      ) in
      let inside : (c + p) * block_size (suc k) < w * block_size (suc k) =
        omega (arith, start, word, v.block.ends, positive) in
      omega (arith, start, word, fits (c + p) w (block_size (suc k)) inside)

  even_buddy :
      v.block.index ≡ 2 * p
      → (find_buddy_pfn idx k ≡ idx + 2 ^ k) × (buddy_at (find_buddy_pfn idx k) ≡ a + block_size k)
  unfolding find_buddy_pfn
  even_buddy e =
      let idx_p : idx ≡ 2 * p * 2 ^ k = omega (arith, v.at, ap (λ (t : ℕ). t * 2 ^ k) e) in
      let flip : bit_xor idx (2 ^ k) ≡ idx + 2 ^ k =
        ap (λ t. bit_xor t (2 ^ k)) idx_p ∙ bit_xor-even k p ∙ omega (arith, idx_p) in
      (flip, rw flip (omega (arith, v.at, v.block.starts, room e, block_size-suc k, positive)))

  even-IsPair :
      v.block.index ≡ 2 * p
      → IsPair base k a idx (buddy_at (find_buddy_pfn idx k)) (find_buddy_pfn idx k)
  even-IsPair e =
      let (pfn, address) = even_buddy e in
      let above = le→ltb_false (a + block_size k) a (omega arith) in
      rw (address, pfn)
        (record {
          joined = rw above (record {
            block = record {
              index = p;
              starts =
                  omega (
                    arith,
                    v.block.starts,
                    ap (λ (t : ℕ). t * block_size k) e,
                    times-block_size p k,
                  );
              ends = room e;
            };
            at = omega (arith, v.at, ap (λ (t : ℕ). t * 2 ^ k) e, two_pow-suc p k);
          });
          halves = λ x. rw above (in_block-halves k a x);
        })

  odd_buddy :
      v.block.index ≡ 2 * p + 1
      → (find_buddy_pfn idx k ≡ 2 * p * 2 ^ k)
        × (buddy_at (find_buddy_pfn idx k) ≡ base + 2 * p * block_size k)
        × (a ≡ base + 2 * p * block_size k + block_size k)
  unfolding find_buddy_pfn
  odd_buddy e =
      let idx_p : idx ≡ 2 * p * 2 ^ k + 2 ^ k = omega (arith, v.at, ap (λ (t : ℕ). t * 2 ^ k) e) in
      let flip : bit_xor idx (2 ^ k) ≡ 2 * p * 2 ^ k =
        ap (λ t. bit_xor t (2 ^ k)) idx_p ∙ bit_xor-odd k p in
      let start : a ≡ base + 2 * p * block_size k + block_size k =
        omega (arith, v.block.starts, ap (λ (t : ℕ). t * block_size k) e) in
      (flip, rw flip (omega (arith, start, v.block.ends, positive)), start)

  odd-IsPair :
      v.block.index ≡ 2 * p + 1
      → IsPair base k a idx (buddy_at (find_buddy_pfn idx k)) (find_buddy_pfn idx k)
  odd-IsPair e =
      let (pfn, address, start) = odd_buddy e in
      let low = base + 2 * p * block_size k in
      let below = lt→ltb low a (omega (arith, start, positive)) in
      rw (address, pfn)
        (record {
          joined = rw below (record {
            block = record {
              index = p;
              starts = omega (arith, times-block_size p k);
              ends = omega (arith, start, v.block.ends, block_size-suc k);
            };
            at = omega (arith, two_pow-suc p k);
          });
          halves = λ x.
              rw below (omega (arith, in_block-halves k low x, ap (λ t. in_block k t x) start));
        })

pub merge-IsPair :
    (base k a idx m : ℕ)
    → IsPlaced base k a idx
    → k < 11
    → base ≡ m * block_size 11
    → IsPair base k a idx (add32 base (mul32 (find_buddy_pfn idx k) 4096)) (find_buddy_pfn idx k)
merge-IsPair base k a idx m v h multiple = elim (parity v.block.index) [
  | inl (p, even) ↦ even-IsPair base k a idx m p v h multiple even
  | inr (p, odd) ↦ odd-IsPair base k a idx m p v h multiple odd
]
