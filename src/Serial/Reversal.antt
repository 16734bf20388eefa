-- ===== src/Serial/Reversal.antt =====
-- The in-place reversal at the end of itoa_dec and itoa_hex.
use matrix_os.Prelude.{
  ℕ, zero, suc, ◌+◌, ◌-◌, ◌≤◌, ◌<◌, ◌≡◌, ◌≢◌, ◌⊎◌, refl, sym, ap, ◌∙◌, List, [], ◌∷◌, arith, ltb,
  get_or, set, length, length-set, get_or-set_self, get_or-set_ne, Bool-cases, ltb→lt, ltb_false→le,
  inl, inr, ◌==◌, ==→eq, ==_false→ne, ne_above,
}
use mathlib.Core.List.{reverse, reverse_aux}
use matrix_os.Serial.{swap_ends, reverse_in_place}

-- A round of the loop.
swap_round : ℕ → ℕ → List ℕ → List ℕ
swap_round lo hi text = set (set text hi (get_or text lo 0)) lo (get_or text hi 0)

swap_round-length : (lo hi : ℕ) (text : List ℕ) → length (swap_round lo hi text) ≡ length text
unfolding swap_round
swap_round-length lo hi text =
    length-set (set text hi (get_or text lo 0)) lo (get_or text hi 0)
    ∙ length-set text hi (get_or text lo 0)

swap_ends-length :
    (fuel lo hi : ℕ) (text : List ℕ) → length (swap_ends fuel lo hi text) ≡ length text
unfolding swap_ends swap_round
swap_ends-length zero lo hi text = refl
swap_ends-length (suc fuel) lo hi text = elim (Bool-cases (ltb lo hi)) [
  | inl e ↦ rw e (
      swap_ends-length fuel (lo + 1) (hi - 1) (swap_round lo hi text)
      ∙ swap_round-length lo hi text)
  | inr e ↦ rw e refl
]

-- Two lists of one length with the same entries.
pub same_entries :
    (xs ys : List ℕ)
    → length xs ≡ length ys
    → ((k : ℕ) → k < length xs → get_or xs k 0 ≡ get_or ys k 0)
    → xs ≡ ys
same_entries [] [] lengths entries = refl
same_entries [] (y ∷ ys) lengths entries = absurd (omega arith)
same_entries (x ∷ xs) [] lengths entries = absurd (omega arith)
same_entries (x ∷ xs) (y ∷ ys) lengths entries =
    let rest = same_entries xs ys (omega arith) (λ k h. entries (suc k) (omega arith)) in
    rw (entries 0 (omega arith)) (ap (◌∷◌ y) rest)

module _ (lo hi : ℕ) (text : List ℕ) (below : lo < hi) (inside : hi < length text) where
  swap_round-lo : get_or (swap_round lo hi text) lo 0 ≡ get_or text hi 0
  unfolding swap_round
  swap_round-lo =
      get_or-set_self (set text hi (get_or text lo 0)) lo (get_or text hi 0) 0
        (omega (arith, length-set text hi (get_or text lo 0)))

  swap_round-hi : get_or (swap_round lo hi text) hi 0 ≡ get_or text lo 0
  unfolding swap_round
  swap_round-hi =
      get_or-set_ne (set text hi (get_or text lo 0)) lo hi (get_or text hi 0) 0
        (λ e. omega (arith, e))
      ∙ get_or-set_self text hi (get_or text lo 0) 0 inside

  swap_round-other :
      (k : ℕ) → lo ≢ k → hi ≢ k → get_or (swap_round lo hi text) k 0 ≡ get_or text k 0
  unfolding swap_round
  swap_round-other k not_lo not_hi =
      get_or-set_ne (set text hi (get_or text lo 0)) lo k (get_or text hi 0) 0 not_lo
      ∙ get_or-set_ne text hi k (get_or text lo 0) 0 not_hi

outside_wider : (lo hi k : ℕ) → lo < hi → (k < lo) ⊎ (hi < k) → (k < lo + 1) ⊎ (hi - 1 < k)
outside_wider lo hi k below (inl h) = inl (omega arith)
outside_wider lo hi k below (inr h) = inr (omega arith)

-- Outside of the ends nothing changes.
swap_ends-outside :
    (fuel lo hi : ℕ) (text : List ℕ) (k : ℕ)
    → hi < length text
    → (k < lo) ⊎ (hi < k)
    → get_or (swap_ends fuel lo hi text) k 0 ≡ get_or text k 0
unfolding swap_ends swap_round
swap_ends-outside zero lo hi text k inside out = refl
swap_ends-outside (suc fuel) lo hi text k inside out = elim (Bool-cases (ltb lo hi)) [
  | inl e ↦
      let below = ltb→lt lo hi e in
      let still = swap_round-length lo hi text in
      let wider = λ (o : (k < lo) ⊎ (hi < k)). outside_wider lo hi k below o in
      let beyond =
        swap_ends-outside fuel (lo + 1) (hi - 1) (swap_round lo hi text) k (omega (arith, still))
          (wider out) in
      rw e (
        beyond
        ∙ swap_round-other lo hi text below inside k
            (λ same. elim out [ inl h ↦ omega (arith, same) | inr h ↦ omega (arith, same) ])
            (λ same. elim out [ inl h ↦ omega (arith, same) | inr h ↦ omega (arith, same) ]))
  | inr e ↦ rw e refl
]

-- Between them each entry moves to its mirror place.
swap_ends-mirror :
    (fuel lo hi : ℕ) (text : List ℕ) (k j : ℕ)
    → hi - lo ≤ fuel
    → hi < length text
    → lo ≤ k
    → k + j ≡ lo + hi
    → lo ≤ j
    → get_or (swap_ends fuel lo hi text) k 0 ≡ get_or text j 0
unfolding swap_ends swap_round
swap_ends-mirror zero lo hi text k j enough inside from mirror to =
    ap (λ (i : ℕ). get_or text i 0) (omega arith)
swap_ends-mirror (suc fuel) lo hi text k j enough inside from mirror to =
    elim (Bool-cases (ltb lo hi)) [
      | inl e ↦
          let below = ltb→lt lo hi e in
          let still = swap_round-length lo hi text in
          let swapped = swap_round lo hi text in
          rw e elim (Bool-cases (k == lo)) [
            | inl first ↦
                let is_lo = ==→eq k lo first in
                swap_ends-outside fuel (lo + 1) (hi - 1) swapped k (omega (arith, still))
                  (inl (omega arith))
                ∙ (ap (λ (i : ℕ). get_or swapped i 0) is_lo
                    ∙ (swap_round-lo lo hi text below inside
                        ∙ ap (λ (i : ℕ). get_or text i 0) (omega arith)))
            | inr not_first ↦ elim (Bool-cases (k == hi)) [
              | inl last ↦
                  let is_hi = ==→eq k hi last in
                  swap_ends-outside fuel (lo + 1) (hi - 1) swapped k (omega (arith, still))
                    (inr (omega arith))
                  ∙ (ap (λ (i : ℕ). get_or swapped i 0) is_hi
                      ∙ (swap_round-hi lo hi text below inside
                          ∙ ap (λ (i : ℕ). get_or text i 0) (omega arith)))
              | inr not_last ↦
                  let off_lo = ==_false→ne k lo not_first in
                  let off_hi = ==_false→ne k hi not_last in
                  swap_ends-mirror fuel (lo + 1) (hi - 1) swapped k j (omega arith)
                    (omega (arith, still)) (ne_above lo k from off_lo) (omega arith)
                    (ne_above lo j to (λ same. off_hi (omega (arith, same))))
                  ∙ swap_round-other lo hi text below inside j
                      (λ same. off_hi (omega (arith, same))) (λ same. off_lo (omega (arith, same)))
            ]
          ]
      | inr e ↦
          let met = ltb_false→le lo hi e in rw e (ap (λ (i : ℕ). get_or text i 0) (omega arith))
    ]

reverse_aux-length : (xs done : List ℕ) → length (reverse_aux xs done) ≡ length xs + length done
reverse_aux-length [] done = omega arith
reverse_aux-length (x ∷ xs) done = omega (arith, reverse_aux-length xs (x ∷ done))

-- What stands in front goes behind what is there, and past it.
reverse_aux-done :
    (xs done : List ℕ) (k : ℕ) → get_or (reverse_aux xs done) (length xs + k) 0 ≡ get_or done k 0
reverse_aux-done [] done k = ap (λ (i : ℕ). get_or done i 0) (omega arith)
reverse_aux-done (x ∷ xs) done k =
    ap (λ (i : ℕ). get_or (reverse_aux xs (x ∷ done)) i 0) (omega arith)
    ∙ reverse_aux-done xs (x ∷ done) (suc k)

reverse_aux-mirror :
    (xs done : List ℕ) (k j : ℕ)
    → k + j + 1 ≡ length xs
    → get_or (reverse_aux xs done) k 0 ≡ get_or xs j 0
reverse_aux-mirror [] done k j sum = absurd (omega arith)
reverse_aux-mirror (x ∷ xs) done k zero sum =
    ap (λ (i : ℕ). get_or (reverse_aux xs (x ∷ done)) i 0) (omega arith)
    ∙ reverse_aux-done xs (x ∷ done) 0
reverse_aux-mirror (x ∷ xs) done k (suc j) sum = reverse_aux-mirror xs (x ∷ done) k j (omega arith)

-- The two pointers that meet in the middle reverse the whole text.
pub reverse_in_place_lem : (text : List ℕ) → reverse_in_place text ≡ reverse text
unfolding reverse_in_place swap_ends
reverse_in_place_lem [] = refl
reverse_in_place_lem (c ∷ text) =
    let whole = c ∷ text in
    let last = length whole - 1 in
    let still = swap_ends-length (length whole) 0 last whole in
    let mirrored = reverse_aux-length whole [] in
    same_entries (swap_ends (length whole) 0 last whole) (reverse whole)
      (omega (arith, still, mirrored))
      (λ k h.
        swap_ends-mirror (length whole) 0 last whole k (last - k) (omega arith) (omega arith)
          (omega arith) (omega (arith, still)) (omega arith)
        ∙ sym (reverse_aux-mirror whole [] k (last - k) (omega (arith, still))))
