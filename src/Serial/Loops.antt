-- ===== src/Serial/Loops.antt =====
-- The digit loops of itoa_dec and itoa_hex: the digits that they leave, the lowest first.
use matrix_os.Prelude.{
  ℕ, zero, suc, ◌+◌, ◌-◌, ◌*◌, ◌/◌, ◌%◌, ◌^◌, ◌≤◌, ◌<◌, ◌≡◌, refl, ap, ◌∙◌, List, [], ◌∷◌, arith,
  ltb, leb, ◌==◌, if◌then◌else◌, length, Bool-cases, ltb_false→le, lt→ltb, le→ltb_false, inl, inr,
  Option, some, ◌>>=◌, ==→eq, ne→==_false,
}
use matrix_os.Prelude.Int.{ℤ, pos, sub_ℕ}
use matrix_os.Prelude.Word.{bit_and-fifteen}
use mathlib.Core.List.{reverse, reverse_aux}
use matrix_os.Serial.{dec_loop, hex_char, hex_loop}

-- A number read digit by digit, the first digit the highest.
abbrev pub read_from : ℕ → (ℕ → ℕ) → ℕ → List ℕ → ℕ
read_from base digit acc [] = acc
read_from base digit acc (c ∷ text) = read_from base digit (acc * base + digit c) text

abbrev pub dec_digit : ℕ → ℕ
dec_digit c = c - b'0'

abbrev pub hex_digit : ℕ → ℕ
hex_digit c = if leb c b'9' then c - b'0' else c - b'a' + 10

abbrev pub read_dec : List ℕ → ℤ
read_dec [] = pos 0
read_dec (c ∷ text) =
    if c == b'-'
    then sub_ℕ 0 (read_from 10 dec_digit 0 text)
    else pos (read_from 10 dec_digit 0 (c ∷ text))

abbrev pub read_hex : List ℕ → ℕ
read_hex text = read_from 16 hex_digit 0 text

-- The value of digits that stand with the lowest first.
pub lowest_first : ℕ → (ℕ → ℕ) → List ℕ → ℕ
lowest_first base digit [] = 0
lowest_first base digit (c ∷ text) = lowest_first base digit text * base + digit c

pub read_from-reverse_aux :
    (base : ℕ) (digit : ℕ → ℕ) (text done : List ℕ)
    → read_from base digit 0 (reverse_aux text done)
      ≡ read_from base digit (lowest_first base digit text) done
unfolding lowest_first
read_from-reverse_aux base digit [] done = refl
read_from-reverse_aux base digit (c ∷ text) done = read_from-reverse_aux base digit text (c ∷ done)

-- Text without a minus sign.
pub Unsigned : List ℕ → Type 0
Unsigned [] = Unit
Unsigned (c ∷ text) = (b'0' ≤ c) × Unsigned text

reverse_aux-Unsigned :
    (text done : List ℕ) → Unsigned text → Unsigned done → Unsigned (reverse_aux text done)
unfolding Unsigned
reverse_aux-Unsigned [] done u v = v
reverse_aux-Unsigned (c ∷ text) done u v = reverse_aux-Unsigned text (c ∷ done) u.1 (u.0, v)

read_dec-Unsigned :
    (text : List ℕ) → Unsigned text → read_dec text ≡ pos (read_from 10 dec_digit 0 text)
unfolding Unsigned
read_dec-Unsigned [] u = refl
read_dec-Unsigned (c ∷ text) u = rw (ne→==_false c b'-' (λ e. omega (arith, e, u.0))) refl

pub read_dec-reverse :
    (text : List ℕ) → Unsigned text → read_dec (reverse text) ≡ pos (lowest_first 10 dec_digit text)
unfolding Unsigned
read_dec-reverse text u =
    read_dec-Unsigned (reverse text) (reverse_aux-Unsigned text [] u tt)
    ∙ ap pos (read_from-reverse_aux 10 dec_digit text [])

-- What a loop leaves in the buffer for the number `n`, within `room` characters.
pub record Written (base : ℕ) (digit : ℕ → ℕ) (n room : ℕ) (result : Option (List ℕ)) : Type 0 where
  pub text : List ℕ
  pub returns : result ≡ some text
  pub fits : length text ≤ room
  pub value : lowest_first base digit text ≡ n
  pub unsigned : Unsigned text

-- One digit alone, and one in front of the rest.
one_digit :
    (base : ℕ) (digit : ℕ → ℕ) (n room c : ℕ)
    → digit c ≡ n
    → b'0' ≤ c
    → Written base digit n (suc room) (some (c ∷ []))
unfolding lowest_first Unsigned
one_digit base digit n room c value unsigned = record {
  text = c ∷ [];
  returns = refl;
  fits = omega arith;
  value = omega (arith, value);
  unsigned = (unsigned, tt);
}

next_digit :
    (base : ℕ) (digit : ℕ → ℕ) (n m room c : ℕ) (result : Option (List ℕ))
    → m * base + digit c ≡ n
    → b'0' ≤ c
    → Written base digit m room result
    → Written base digit n (suc room) (do rest ← result; some (c ∷ rest))
unfolding lowest_first Unsigned
next_digit base digit n m room c result value unsigned w = record {
  text = c ∷ w.text;
  returns = rw w.returns refl;
  fits = omega (arith, w.fits);
  value = ap (λ (v : ℕ). v * base + digit c) w.value ∙ value;
  unsigned = (unsigned, w.unsigned);
}

pub dec_loop_lem :
    (fuel n : ℕ)
    → n < 10 ^ suc fuel
    → Written 10 dec_digit n (suc fuel) (dec_loop (suc fuel) (pos n))
unfolding dec_loop
dec_loop_lem zero n small =
    let single = ltb_false→le 0 (n / 10) in
    rw (le→ltb_false 0 (n / 10) (omega arith))
      (one_digit 10 dec_digit n 0 (b'0' + n % 10) (omega arith) (omega arith))
dec_loop_lem (suc fuel) n small = elim (Bool-cases (ltb 0 (n / 10))) [
  | inl e ↦ rw e (
      next_digit 10 dec_digit n (n / 10) (suc fuel) (b'0' + n % 10)
        (dec_loop (suc fuel) (pos (n / 10))) (omega arith) (omega arith)
        (dec_loop_lem fuel (n / 10) (omega arith)))
  | inr e ↦
      let single = ltb_false→le 0 (n / 10) e in
      rw e (one_digit 10 dec_digit n (suc fuel) (b'0' + n % 10) (omega arith) (omega arith))
]

hex_digit-hex_char : (d : ℕ) → d < 16 → hex_digit (hex_char d) ≡ d
hex_digit-hex_char d h = ground arith

hex_char-unsigned : (d : ℕ) → b'0' ≤ hex_char d
hex_char-unsigned d = ground arith

module _ (n : ℕ) where
  hex_here : hex_digit (hex_char (n % 16)) ≡ n % 16
  hex_here = hex_digit-hex_char (n % 16) (omega arith)

  hex_alone :
      (fuel : ℕ) → n < 16 → Written 16 hex_digit n (suc fuel) (some (hex_char (n % 16) ∷ []))
  hex_alone fuel small =
      one_digit 16 hex_digit n fuel (hex_char (n % 16)) (omega (arith, hex_here))
        (hex_char-unsigned (n % 16))

  hex_before :
      (fuel : ℕ) (result : Option (List ℕ))
      → Written 16 hex_digit (n / 16) fuel result
      → Written 16 hex_digit n (suc fuel) (do rest ← result; some (hex_char (n % 16) ∷ rest))
  hex_before fuel result rest =
      next_digit 16 hex_digit n (n / 16) fuel (hex_char (n % 16)) result (omega (arith, hex_here))
        (hex_char-unsigned (n % 16)) rest

pub hex_loop_lem :
    (fuel count n : ℕ)
    → count + fuel ≡ 8
    → n < 16 ^ suc fuel
    → Written 16 hex_digit n (suc fuel) (hex_loop (suc fuel) count n)
unfolding hex_loop
hex_loop_lem zero count n sum small =
    let last : n / 16 ≡ 0 = omega arith in
    rw (bit_and-fifteen n, last) (hex_alone n 0 (omega arith))
hex_loop_lem (suc fuel) count n sum small =
    let rest = hex_loop_lem fuel (count + 1) (n / 16) (omega arith) (omega arith) in
    let again = hex_before n (suc fuel) (hex_loop (suc fuel) (count + 1) (n / 16)) rest in
    rw (bit_and-fifteen n) elim (Bool-cases (n / 16 == 0)) [
      | inl e ↦ let last = ==→eq (n / 16) 0 e in rw e (hex_alone n (suc fuel) (omega arith))
      | inr e ↦ rw (e, lt→ltb count 8 (omega arith)) again
    ]
