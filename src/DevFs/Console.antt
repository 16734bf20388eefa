-- ===== src/DevFs/Console.antt =====
-- A read of the console: a line of the typed characters, or as much of it as fits.
use matrix_os.Prelude.{
  ℕ, zero, suc, ◌+◌, ◌≡◌, refl, sym, ap, ◌∙◌, subst, inl, inr, arith, ◌==◌, if◌then◌else◌, List, [],
  ◌∷◌, ◌++◌, Bool-cases, length,
}
use matrix_os.CString.{Memory, store}
use matrix_os.Keyboard.{Keyboard, keyboard_get_char}
use matrix_os.Keyboard.Queue.{IsValid, contents, keyboard_get_char_lem, advance}
use matrix_os.DevFs.{read_console}

-- The first `count` characters, or fewer where a line ends before: the newline is the last one taken.
abbrev pub take_line : ℕ → List ℕ → List ℕ
take_line zero q = []
take_line (suc n) [] = []
take_line (suc n) (c ∷ q) = if c == 10 then c ∷ [] else c ∷ take_line n q

-- Memory after a text is stored at `buf`.
abbrev pub store_text : List ℕ → ℕ → Memory → Memory
store_text [] buf m = m
store_text (c ∷ q) buf m = store_text q (buf + 1) (store m buf c)

-- What a read has done with the queue `q`: it took the characters `line` off its front, after `done` others.
pub record Reads (line : List ℕ) (done buf : ℕ) (q : List ℕ) (m : Memory)
    (r : ℕ × Keyboard × Memory) : Type 0 where
  pub count : r.0 ≡ done + length line
  pub rest : q ≡ line ++ contents r.1
  pub valid : IsValid r.1
  pub stored : r.2 ≡ store_text line (buf + done) m

-- The characters that a round and the rounds after it take.
abbrev round_line : ℕ → List ℕ → List ℕ
round_line c later = if c == 0 then [] else if c == 10 then c ∷ [] else c ∷ later

round_line-take_line :
    (n c : ℕ) (q q' : List ℕ)
    → q ≡ (if c == 0 then [] else c ∷ q')
    → take_line (suc n) q ≡ round_line c (take_line n q')
round_line-take_line n c q q' front = elim (Bool-cases (c == 0)) [
  | inl empty ↦ let gone : q ≡ [] = rw (empty) at front in rw (gone, empty) refl
  | inr waits ↦ let there : q ≡ c ∷ q' = rw (waits) at front in rw (there) (rw (waits) refl)
]

-- One round: `c` and `k'` are what `keyboard_get_char` gave, `later` is what the rounds after it give.
round-Reads :
    (n done buf c : ℕ) (line q : List ℕ) (k' : Keyboard) (m : Memory)
    (later : ℕ × Keyboard × Memory)
    → q ≡ (if c == 0 then [] else c ∷ contents k')
    → (if c == 0 then contents k' else []) ≡ []
    → IsValid k'
    → Reads line (done + 1) buf (contents k') (store m (buf + done) c) later
    → Reads (round_line c line) done buf q m (
        if c == 0
        then (done, k', m)
        else if c == 10
        then (done + 1, k', store m (buf + done) c)
        else later)
round-Reads n done buf c line q k' m later front none_left valid rest = elim (Bool-cases (c == 0)) [
  | inl empty ↦ rw (front) (
      rw (empty) (record {
        count = omega arith;
        rest = sym (rw (empty) at none_left);
        valid = valid;
        stored = refl;
      }))
  | inr waits ↦ elim (Bool-cases (c == 10)) [
    | inl newline ↦ rw (front) (
        rw (waits) (
          rw (newline) (record { count = omega arith; rest = refl; valid = valid; stored = refl })))
    | inr other ↦ rw (front) (
        rw (waits) (
          rw (other) (record {
            count = omega (arith, rest.count);
            rest = ap (◌∷◌ c) rest.rest;
            valid = rest.valid;
            stored =
                rest.stored ∙ ap (λ a. store_text line a (store m (buf + done) c)) (omega arith);
          })))
  ]
]

none_follows :
    (c : ℕ) (k k' : Keyboard)
    → contents k ≡ (if c == 0 then [] else c ∷ contents k')
    → k' ≡ (if c == 0 then k else advance k)
    → (if c == 0 then contents k' else []) ≡ []
none_follows c k k' front moved = elim (Bool-cases (c == 0)) [
  | inl empty ↦
      let gone : contents k ≡ [] = rw (empty) at front in
      let still : k' ≡ k = rw (empty) at moved in rw (empty) (ap contents still ∙ gone)
  | inr waits ↦ rw (waits) refl
]

read_console-Reads :
    (n done buf : ℕ) (k : Keyboard) (m : Memory)
    → IsValid k
    → Reads (take_line n (contents k)) done buf (contents k) m (read_console n done buf k m)
unfolding read_console
read_console-Reads zero done buf k m valid = record {
  count = omega arith;
  rest = refl;
  valid = valid;
  stored = refl;
}
read_console-Reads (suc n) done buf k m valid =
    let (front, valid', moved) = keyboard_get_char_lem k valid in
    let c = (keyboard_get_char k).0 in
    let k' = (keyboard_get_char k).1 in
    let m' = store m (buf + done) c in
    subst
      (λ (line : List ℕ). Reads line done buf (contents k) m (read_console (suc n) done buf k m))
      (sym (round_line-take_line n c (contents k) (contents k') front))
      (round-Reads n done buf c (take_line n (contents k')) (contents k) k' m
        (read_console n (done + 1) buf k' m') front (none_follows c k k' front moved) valid'
        (read_console-Reads n (done + 1) buf k' m' valid'))

-- A read of the console takes from the waiting characters a line, its newline included, but at most
-- `n` characters: it returns their number, stores them in the buffer and nothing else, and leaves the ring
-- well formed with the characters that follow.
pub read_console_lem :
    (n buf : ℕ) (k : Keyboard) (m : Memory)
    → IsValid k
    → Reads (take_line n (contents k)) 0 buf (contents k) m (read_console n 0 buf k m)
read_console_lem n buf k m valid = read_console-Reads n 0 buf k m valid
