-- ===== src/Paging/Words.antt =====
-- Words in memory: what a store leaves at its own address and elsewhere, and the flags of an entry.
use matrix_os.Prelude.{
  ℕ, zero, suc, ◌+◌, ◌*◌, ◌/◌, ◌%◌, ◌^◌, ◌≤◌, ◌<◌, ◌≡◌, ◌⊎◌, refl, arith, inl, inr,
}
use matrix_os.Prelude.Word.{digits_enough}
use matrix_os.CString.{Memory}
use Prim.Native.Nat.{bit_or, bit_or-bitwise, max}
use matrix_os.Paging.{load_word, store_word}

-- Two words that share no byte.
abbrev pub Apart : ℕ → ℕ → Type 0
Apart a b = (a + 4 ≤ b) ⊎ (b + 4 ≤ a)

module _ (m : Memory) (a w : ℕ) where
  byte_first : store_word m a w a ≡ w % 256
  unfolding store_word
  byte_first = ground arith

  byte_second : store_word m a w (a + 1) ≡ w / 2 ^ 8 % 256
  unfolding store_word
  byte_second = ground arith

  byte_third : store_word m a w (a + 2) ≡ w / 2 ^ 16 % 256
  unfolding store_word
  byte_third = ground arith

  byte_last : store_word m a w (a + 3) ≡ w / 2 ^ 24 % 256
  unfolding store_word
  byte_last = ground arith

  pub load_word-store_word : w < 2 ^ 32 → load_word (store_word m a w) a ≡ w
  unfolding load_word
  load_word-store_word small = omega (arith, byte_first, byte_second, byte_third, byte_last)

  pub byte_elsewhere : (x : ℕ) → (x < a) ⊎ (a + 4 ≤ x) → store_word m a w x ≡ m x
  unfolding store_word
  byte_elsewhere x (inl h) = ground arith
  byte_elsewhere x (inr h) = ground arith

  pub load_word-elsewhere : (b : ℕ) → Apart a b → load_word (store_word m a w) b ≡ load_word m b
  unfolding load_word
  load_word-elsewhere b (inl h) = omega (
    arith,
    byte_elsewhere b (inr h),
    byte_elsewhere (b + 1) (inr (omega arith)),
    byte_elsewhere (b + 2) (inr (omega arith)),
    byte_elsewhere (b + 3) (inr (omega arith)),
  )
  load_word-elsewhere b (inr h) = omega (
    arith,
    byte_elsewhere b (inl (omega arith)),
    byte_elsewhere (b + 1) (inl (omega arith)),
    byte_elsewhere (b + 2) (inl (omega arith)),
    byte_elsewhere (b + 3) (inl (omega arith)),
  )

-- One binary digit of `x | flags`.
bit_or-lowest :
    (x flags : ℕ) → bit_or x flags ≡ bit_or (x / 2) (flags / 2) * 2 + max (x % 2) (flags % 2)
bit_or-lowest zero flags = omega (arith, bit_or-bitwise 0 (flags / 2), bit_or-bitwise 0 flags)
bit_or-lowest (suc x) flags =
    let half = suc x / 2 in
    let enough = digits_enough (λ b. b) max half (flags / 2) x half (omega arith) (omega arith) in
    omega (arith, enough, bit_or-bitwise half (flags / 2), bit_or-bitwise (suc x) flags)

bit_or-none : (fuel x : ℕ) → x ≤ fuel → bit_or x 0 ≡ x
bit_or-none fuel zero below = refl
bit_or-none (suc fuel) (suc x) below =
    let upper = bit_or-none fuel (suc x / 2) (omega arith) in
    omega (arith, upper, bit_or-lowest (suc x) 0)
bit_or-none zero (suc x) below = absurd (omega arith)

le→max : (d : ℕ) → d < 2 → max d 1 ≡ 1
le→max zero small = refl
le→max (suc zero) small = refl
le→max (suc (suc d)) small = absurd (omega arith)

highest_digit : (x : ℕ) → max (x % 2) 1 ≡ 1
highest_digit x = le→max (x % 2) (omega arith)

pub bit_or-one : (x : ℕ) → bit_or x 1 ≡ x / 2 * 2 + 1
bit_or-one x =
    omega (arith, bit_or-none (x / 2) (x / 2) (omega arith), highest_digit x, bit_or-lowest x 1)

pub bit_or-three : (x : ℕ) → bit_or x 3 ≡ x / 4 * 4 + 3
bit_or-three x = omega (arith, bit_or-one (x / 2), highest_digit x, bit_or-lowest x 3)

pub bit_or-seven : (x : ℕ) → bit_or x 7 ≡ x / 8 * 8 + 7
bit_or-seven x = omega (arith, bit_or-three (x / 2), highest_digit x, bit_or-lowest x 7)
