-- ===== src/CString/Blocks.antt =====
-- What the mem functions of lib/string.c leave in memory.
use matrix_os.Prelude.{
  ℕ, zero, suc, ◌+◌, ◌-◌, ◌%◌, ◌≤◌, ◌<◌, ◌≡◌, refl, ap, ◌↔◌, ◌⊎◌, inl, inr, ◌&&◌, Bool, arith, ◌==◌,
  leb, ltb, if◌then◌else◌, Bool-cases,
}
use matrix_os.Prelude.Int.{pos, sub_ℕ}
use matrix_os.Prelude.Loops.{for_range}
use matrix_os.CString.{
  Memory, store, memset, copy_up, copy_down, memcpy, memmove, memcmp_from, memcmp,
}

-- Whether `x` is one of the `n` addresses from `p` on.
abbrev pub within : ℕ → ℕ → ℕ → Bool
within p n x = leb p x && ltb x (p + n)

fill_lem :
    (p v n i : ℕ) (m : Memory) (x : ℕ)
    → for_range n i (λ j m. store m (p + j) v) m x ≡ (if within (p + i) n x then v else m x)
unfolding for_range
fill_lem p v zero i m x = ground arith
fill_lem p v (suc n) i m x = ground (arith, fill_lem p v n (i + 1) (store m (p + i) v) x)

-- `memset` writes the low byte of `value` to the block, and nothing else.
pub memset_lem :
    (p value n : ℕ) (m : Memory) (x : ℕ)
    → memset p value n m x ≡ (if within p n x then value % 256 else m x)
unfolding memset
memset_lem p value n m x = ground (arith, fill_lem p (value % 256) n 0 m x)

copy_up_from :
    (d s n i : ℕ) (m : Memory) (x : ℕ)
    → (d ≤ s) ⊎ (s + i + n ≤ d)
    → for_range n i (λ j m. store m (d + j) (m (s + j))) m x
      ≡ (if within (d + i) n x then m (x - d + s) else m x)
unfolding for_range
copy_up_from d s zero i m x h = ground arith
copy_up_from d s (suc n) i m x h = elim (Bool-cases (x == d + i)) [
  | inl here ↦
      let same : m (x - d + s) ≡ m (s + i) = ap m (ground arith) in
      ground (arith, same, copy_up_from d s n (i + 1) (store m (d + i) (m (s + i))) x)
  | inr other ↦ ground (arith, copy_up_from d s n (i + 1) (store m (d + i) (m (s + i))) x)
]

copy_down_lem :
    (d s n : ℕ) (m : Memory) (x : ℕ)
    → s ≤ d
    → copy_down d s n m x ≡ (if within d n x then m (x - d + s) else m x)
unfolding copy_down
copy_down_lem d s zero m x h = ground arith
copy_down_lem d s (suc n) m x h = elim (Bool-cases (x == d + n)) [
  | inl here ↦
      let same : m (x - d + s) ≡ m (s + n) = ap m (ground arith) in
      ground (arith, same, copy_down_lem d s n (store m (d + n) (m (s + n))) x)
  | inr other ↦ ground (arith, copy_down_lem d s n (store m (d + n) (m (s + n))) x)
]

-- `memcpy` copies the block as it was before the call, where the destination is not above the source
-- inside it, and changes nothing outside the destination.
pub memcpy_lem :
    (d s n : ℕ) (m : Memory) (x : ℕ)
    → (d ≤ s) ⊎ (s + n ≤ d)
    → memcpy d s n m x ≡ (if within d n x then m (x - d + s) else m x)
unfolding memcpy copy_up
memcpy_lem d s n m x h = ground (arith, copy_up_from d s n 0 m x)

-- `memmove` copies the block as it was before the call, however source and destination overlap, and
-- changes nothing outside the destination.
pub memmove_lem :
    (d s n : ℕ) (m : Memory) (x : ℕ)
    → memmove d s n m x ≡ (if within d n x then m (x - d + s) else m x)
unfolding memmove copy_up
memmove_lem d s n m x = ground (arith, copy_up_from d s n 0 m x, copy_down_lem d s n m x)

sub_ℕ-zero : (a b : ℕ) → sub_ℕ a b ≡ pos 0 → a ≡ b
sub_ℕ-zero a b h = ground arith

memcmp_from-zero :
    (n i p q : ℕ) (m : Memory)
    → memcmp_from n i p q m ≡ pos 0
    → (k : ℕ) → i ≤ k
    → k < i + n
    → m (p + k) ≡ m (q + k)
unfolding memcmp_from
memcmp_from-zero zero i p q m e k l u = absurd (omega arith)
memcmp_from-zero (suc n) i p q m e k l u = elim (Bool-cases (k == i)) [
  | inl here ↦
      let at : k ≡ i = ground arith in rw at (ground (arith, sub_ℕ-zero (m (p + i)) (m (q + i))))
  | inr later ↦
      memcmp_from-zero n (i + 1) p q m (ground (arith, sub_ℕ-zero (m (p + i)) (m (q + i)))) k
        (ground arith) (omega arith)
]

memcmp_from_same :
    (n i p q : ℕ) (m : Memory)
    → ((k : ℕ) → i ≤ k → k < i + n → m (p + k) ≡ m (q + k))
    → memcmp_from n i p q m ≡ pos 0
unfolding memcmp_from
memcmp_from_same zero i p q m h = refl
memcmp_from_same (suc n) i p q m h = ground (
  arith,
  h i (omega arith) (omega arith),
  memcmp_from_same n (i + 1) p q m (λ k l u. h k (omega arith) (omega arith)),
)

-- `memcmp` returns 0 exactly when the two blocks hold the same bytes.
pub memcmp_iff :
    (p q n : ℕ) (m : Memory) → (memcmp p q n m ≡ pos 0) ↔ ((k : ℕ) → k < n → m (p + k) ≡ m (q + k))
unfolding memcmp
memcmp_iff p q n m = (
  λ e k u. memcmp_from-zero n 0 p q m e k (omega arith) (omega arith),
  λ h. memcmp_from_same n 0 p q m (λ k l u. h k (omega arith)),
)
