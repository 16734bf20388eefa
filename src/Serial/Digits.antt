-- ===== src/Serial/Digits.antt =====
-- itoa_dec and itoa_hex: the text they leave, read back as a number.
use matrix_os.Prelude.{
  ℕ, zero, suc, ◌+◌, ◌-◌, ◌%◌, ◌^◌, ◌≤◌, ◌<◌, ◌≡◌, ◌≢◌, refl, ap, ◌∙◌, List, [], ◌∷◌, ◌++◌, arith,
  ltb, ◌==◌, length, Bool-cases, ltb→lt, ltb_false→le, inl, inr, Option, some, ==→eq, ne→==_false,
}
use matrix_os.Prelude.Int.{ℤ, pos, negsuc, signed32, unsigned32, sub_ℕ}
use mathlib.Core.List.{reverse, reverse_aux}
use matrix_os.Serial.{negate, itoa_dec, itoa_hex}
use matrix_os.Serial.Reversal.{reverse_in_place_lem}
use matrix_os.Serial.Loops.{
  dec_digit, hex_digit, read_dec, read_hex, read_from-reverse_aux, read_dec-reverse, dec_loop_lem,
  hex_loop_lem,
}

reverse_aux-last :
    (text done : List ℕ) (c : ℕ) → reverse_aux (text ++ (c ∷ [])) done ≡ c ∷ reverse_aux text done
reverse_aux-last [] done c = refl
reverse_aux-last (d ∷ text) done c = reverse_aux-last text (d ∷ done) c

reverse_aux-length :
    (text done : List ℕ) → length (reverse_aux text done) ≡ length text + length done
reverse_aux-length [] done = omega arith
reverse_aux-length (c ∷ text) done = omega (arith, reverse_aux-length text (c ∷ done))

-- The text that itoa leaves: at most `room` characters, and it reads as the number.
Leaves : {A : Type 0} → (List ℕ → A) → A → ℕ → Option (List ℕ) → Type 0
Leaves read num room result =
    (text : List ℕ) × (result ≡ some text) × (length text ≤ room) × (read text ≡ num)

negate_small : (n : ℕ) → suc n < 2 ^ 31 → negate (negsuc n) ≡ pos (suc n)
negate_small n small = ground arith

positive_text : (n : ℕ) → 0 < n → n < 2 ^ 31 → Leaves read_dec (pos n) 11 (itoa_dec (pos n))
unfolding itoa_dec Leaves
positive_text n nonzero small =
    let w = dec_loop_lem 9 n (omega arith) in
    (
      reverse w.text,
      rw (ne→==_false (n % 2 ^ 32) 0 (λ e. omega (arith, e)), w.returns)
          (ap some (reverse_in_place_lem w.text)),
      omega (arith, reverse_aux-length w.text [], w.fits),
      read_dec-reverse w.text w.unsigned ∙ ap pos w.value,
    )

below_zero : (n : ℕ) → sub_ℕ 0 (suc n) ≡ negsuc n
below_zero n = ground arith

negative_text : (n : ℕ) → suc n < 2 ^ 31 → Leaves read_dec (negsuc n) 11 (itoa_dec (negsuc n))
unfolding itoa_dec Leaves
negative_text n small =
    let w = dec_loop_lem 9 (suc n) (omega arith) in
    let reads = read_from-reverse_aux 10 dec_digit w.text [] in
    let nonzero = ne→==_false (unsigned32 (negsuc n)) 0 (λ e. omega (arith, e)) in
    (
      b'-' ∷ reverse w.text,
      rw (nonzero, negate_small n small, w.returns)
          (ap some (reverse_in_place_lem (w.text ++ (45 ∷ [])) ∙ reverse_aux-last w.text [] 45)),
      omega (arith, reverse_aux-length w.text [], w.fits),
      ap (sub_ℕ 0) (reads ∙ w.value) ∙ below_zero n,
    )

int_zero : itoa_dec (pos 0) ≡ some (b'0' ∷ [])
unfolding itoa_dec
int_zero = refl

least_int : (n : ℕ) → 2 ^ 31 ≤ suc n → suc n ≢ 2 ^ 31 → suc (2 ^ 32 - suc n - 1) < 2 ^ 31
least_int n large other = elim (Bool-cases (suc n == 2 ^ 31)) [
  | inl e ↦ absurd (other (==→eq (suc n) (2 ^ 31) e))
  | inr e ↦ ground arith
]

with_terminator :
    {num : ℤ} {result : Option (List ℕ)}
    → Leaves read_dec num 11 result
    → (text : List ℕ) × (result ≡ some text) × (length text + 1 ≤ 12) × (read_dec text ≡ num)
unfolding Leaves
with_terminator (text, returns, fits, reads) = (text, returns, omega (arith, fits), reads)

-- Every int but the least comes out of itoa_dec as at most eleven characters and a terminator, which
-- the 16 bytes of the caller's buffer hold, and the text read as a decimal number, with an optional
-- minus sign, is the int.
pub itoa_dec_lem :
    (w : ℕ)
    → w < 2 ^ 32
    → w ≢ 2 ^ 31
    → (text : List ℕ) × (itoa_dec (signed32 w) ≡ some text)
      × (length text + 1 ≤ 12)
      × (read_dec text ≡ signed32 w)
unfolding Leaves
itoa_dec_lem zero word not_least = (b'0' ∷ [], int_zero, omega arith, refl)
itoa_dec_lem (suc n) word not_least = elim (Bool-cases (ltb (suc n) (2 ^ 31))) [
  | inl e ↦
      let small = ltb→lt (suc n) (2 ^ 31) e in
      rw e (with_terminator (positive_text (suc n) (omega arith) small))
  | inr e ↦
      let large = ltb_false→le (suc n) (2 ^ 31) e in
      let least = least_int n large not_least in
      rw e (with_terminator (negative_text (2 ^ 32 - suc n - 1) least))
]

-- Every 32-bit word comes out of itoa_hex as at most eight digits and a terminator, which reads
-- as the word.
pub itoa_hex_lem :
    (w : ℕ)
    → w < 2 ^ 32
    → (text : List ℕ) × (itoa_hex w ≡ some text) × (length text + 1 ≤ 9) × (read_hex text ≡ w)
unfolding itoa_hex
itoa_hex_lem zero word = (b'0' ∷ [], refl, omega arith, refl)
itoa_hex_lem (suc n) word =
    let w = hex_loop_lem 7 1 (suc n) (omega arith) (omega arith) in
    (
      reverse w.text,
      rw (ne→==_false (suc n) 0 (λ e. omega (arith, e)), w.returns)
          (ap some (reverse_in_place_lem w.text)),
      omega (arith, reverse_aux-length w.text [], w.fits),
      read_from-reverse_aux 16 hex_digit w.text [] ∙ w.value,
    )
