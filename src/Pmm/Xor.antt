-- ===== src/Pmm/Xor.antt =====
-- Buddies: at a block's alignment the exclusive or of pmm.c adds or takes away one block size.
use Prim.Native.Nat.{bit_xor, differ, bit_xor-bitwise}
use native.Mathlib.Nat.{pow-suc}
use matrix_os.Prelude.Word.{digits_enough}
use matrix_os.Prelude.{ℕ, zero, suc, ◌+◌, ◌*◌, ◌/◌, ◌%◌, ◌^◌, ◌≤◌, ◌<◌, ◌≡◌, refl, ap, ◌∙◌, arith}

differ-none_left : (bit : ℕ) → bit < 2 → differ 0 bit ≡ bit
differ-none_left zero h = refl
differ-none_left (suc zero) h = refl
differ-none_left (suc (suc d)) h = absurd (omega arith)

differ-none_right : (bit : ℕ) → bit < 2 → differ bit 0 ≡ bit
differ-none_right zero below = refl
differ-none_right (suc bit) below = refl

-- One binary digit of `x ^ mask`.
bit_xor-lowest :
    (x mask : ℕ) → bit_xor x mask ≡ bit_xor (x / 2) (mask / 2) * 2 + differ (x % 2) (mask % 2)
bit_xor-lowest zero mask =
    let low = differ-none_left (mask % 2) (omega arith) in
    omega (arith, low, bit_xor-bitwise 0 (mask / 2), bit_xor-bitwise 0 mask)
bit_xor-lowest (suc x) mask =
    let half = suc x / 2 in
    let enough = digits_enough (λ b. b) differ half (mask / 2) x half (omega arith) (omega arith) in
    omega (arith, enough, bit_xor-bitwise half (mask / 2), bit_xor-bitwise (suc x) mask)

-- The size of a block of order `k` in bytes.
abbrev pub block_size : ℕ → ℕ
block_size k = 2 ^ k * 4096

pub two_pow_twelve : (k : ℕ) → 2 ^ (k + 12) ≡ block_size k
two_pow_twelve k = ap (λ e. 2 ^ e) e ∙ simp pow-suc (omega arith)
  where
    e : k + 12 ≡ suc (suc (suc (suc (suc (suc (suc (suc (suc (suc (suc (suc k)))))))))))
    e = omega arith

pub block_size-suc : (k : ℕ) → block_size (suc k) ≡ 2 * block_size k
block_size-suc k = omega (arith, pow-suc 2 k)

bit_xor-none : (fuel x : ℕ) → x ≤ fuel → bit_xor x 0 ≡ x
bit_xor-none fuel zero below = refl
bit_xor-none (suc fuel) (suc x) below =
    let upper = bit_xor-none fuel (suc x / 2) (omega arith) in
    let low = differ-none_right (suc x % 2) (omega arith) in
    omega (arith, upper, low, bit_xor-lowest (suc x) 0)
bit_xor-none zero (suc x) below = absurd (omega arith)

bit_xor-zero : (x : ℕ) → bit_xor x 0 ≡ x
bit_xor-zero x = bit_xor-none x x (omega arith)

-- The buddy of the lower block of a pair is the upper one.
pub bit_xor-even : (k a : ℕ) → bit_xor (2 * a * 2 ^ k) (2 ^ k) ≡ 2 * a * 2 ^ k + 2 ^ k
bit_xor-even zero a =
    let d : (2 * a * 2 ^ 0) % 2 ≡ 0 = omega arith in
    let h : (2 * a * 2 ^ 0) / 2 ≡ a = omega arith in
    bit_xor-lowest (2 * a * 2 ^ 0) 1 ∙ rw (d, h, bit_xor-zero a) (omega arith)
bit_xor-even (suc k) a =
    let p : 2 ^ suc k ≡ 2 ^ k * 2 = pow-suc 2 k in
    let d : (2 * a * (2 ^ k * 2)) % 2 ≡ 0 = omega arith in
    let h : (2 * a * (2 ^ k * 2)) / 2 ≡ 2 * a * 2 ^ k = omega arith in
    let d' : (2 ^ k * 2) % 2 ≡ 0 = omega arith in
    let h' : (2 ^ k * 2) / 2 ≡ 2 ^ k = omega arith in
    rw p (
      bit_xor-lowest (2 * a * (2 ^ k * 2)) (2 ^ k * 2)
      ∙ rw (d, h, d', h', bit_xor-even k a) (omega arith))

-- And the other way round.
pub bit_xor-odd : (k a : ℕ) → bit_xor (2 * a * 2 ^ k + 2 ^ k) (2 ^ k) ≡ 2 * a * 2 ^ k
bit_xor-odd zero a =
    let d : (2 * a * 2 ^ 0 + 2 ^ 0) % 2 ≡ 1 = omega arith in
    let h : (2 * a * 2 ^ 0 + 2 ^ 0) / 2 ≡ a = omega arith in
    bit_xor-lowest (2 * a * 2 ^ 0 + 2 ^ 0) 1 ∙ rw (d, h, bit_xor-zero a) (omega arith)
bit_xor-odd (suc k) a =
    let p : 2 ^ suc k ≡ 2 ^ k * 2 = pow-suc 2 k in
    let d : (2 * a * (2 ^ k * 2) + 2 ^ k * 2) % 2 ≡ 0 = omega arith in
    let h : (2 * a * (2 ^ k * 2) + 2 ^ k * 2) / 2 ≡ 2 * a * 2 ^ k + 2 ^ k = omega arith in
    let d' : (2 ^ k * 2) % 2 ≡ 0 = omega arith in
    let h' : (2 ^ k * 2) / 2 ≡ 2 ^ k = omega arith in
    rw p (
      bit_xor-lowest (2 * a * (2 ^ k * 2) + 2 ^ k * 2) (2 ^ k * 2)
      ∙ rw (d, h, d', h', bit_xor-odd k a) (omega arith))

pub times-block_size : (q k : ℕ) → q * block_size (suc k) ≡ 2 * (q * block_size k)
times-block_size q k = omega (arith, ap (λ (t : ℕ). q * t) (block_size-suc k))

-- A multiple of a block size is one of every smaller block size.
pub multiple-below :
    (n k j base m : ℕ) → j ≡ k + n → base ≡ m * block_size j → (c : ℕ) × (base ≡ c * block_size k)
multiple-below zero k j base m e b = let at : j ≡ k = omega arith in (m, rw at at b)
multiple-below (suc n) k j base m e b =
    let (c, h) = multiple-below n (suc k) j base m (omega arith) b in
    (c * 2, h ∙ omega (arith, times-block_size c k))
