-- ===== src/Paging/Slots.antt =====
-- The slots of temporary mappings as the list of which are in use.
use matrix_os.Prelude.{
  ℕ, zero, suc, ◌+◌, ◌*◌, ◌^◌, ◌<◌, ◌≡◌, refl, ap, ◌∙◌, arith, Bool, true, false, List, [], ◌∷◌,
  Option, none, some, ◌==◌, if◌then◌else◌, ◌&&◌, not, ltb, ltb→lt, and_left, and_right, length,
  get_or, set, map,
}
use matrix_os.Prelude.Word.{sub32}
use Prim.Native.Nat.{bit_and, bit_or, bit_xor}
use matrix_os.Paging.{TempManager, set_lock, take_slot, count_down, free_slot, first_slot}

abbrev pub count : Bool → ℕ
count used = if used then 1 else 0

abbrev pub free_bits : List Bool → ℕ
free_bits [] = 0
free_bits (used ∷ others) = (if used then 0 else 1) + free_bits others * 2

-- The manager's data where no call is under way.
abbrev pub slots : List Bool → TempManager
slots used = record { lock = false; available_slots = free_bits used; ref_count = map count used }

-- A test of every list of `n` Booleans.
every : ℕ → (List Bool → Bool) → Bool
every zero test = test []
every (suc n) test = every n (λ l. test (false ∷ l)) && every n (λ l. test (true ∷ l))

every_sound :
    (n : ℕ) (test : List Bool → Bool) (used : List Bool)
    → length used ≡ n
    → every n test ≡ true
    → test used ≡ true
unfolding every
every_sound zero test [] size passed = passed
every_sound zero test (u ∷ used) size passed = absurd (omega arith)
every_sound (suc n) test [] size passed = absurd (omega arith)
every_sound (suc n) test (false ∷ used) size passed =
    every_sound n (λ l. test (false ∷ l)) used (omega arith)
      (and_left (every n (λ l. test (false ∷ l))) (every n (λ l. test (true ∷ l))) passed)
every_sound (suc n) test (true ∷ used) size passed =
    every_sound n (λ l. test (true ∷ l)) used (omega arith)
      (and_right (every n (λ l. test (false ∷ l))) (every n (λ l. test (true ∷ l))) passed)

-- The bits that change with one slot.
abbrev taking : ℕ → List Bool → Bool
taking slot used =
    bit_and (free_bits used) (bit_xor 0xFFFF_FFFF (2 ^ slot)) == free_bits (set used slot true)

abbrev freeing : ℕ → List Bool → Bool
freeing slot used = bit_or (free_bits used) (2 ^ slot) == free_bits (set used slot false)

abbrev for_slots : (ℕ → Bool) → Bool
for_slots test = test 0 && (test 1 && (test 2 && test 3))

for_slots_sound : (test : ℕ → Bool) (slot : ℕ) → slot < 4 → for_slots test ≡ true → test slot ≡ true
for_slots_sound test zero below passed = ground arith
for_slots_sound test (suc zero) below passed = ground arith
for_slots_sound test (suc (suc zero)) below passed = ground arith
for_slots_sound test (suc (suc (suc zero))) below passed = ground arith
for_slots_sound test (suc (suc (suc (suc slot)))) below passed = absurd (omega arith)

bits_passed : every 4 (λ used. for_slots (λ slot. taking slot used && freeing slot used)) ≡ true
unfolding every
bits_passed = refl

module _ (used : List Bool) (four : length used ≡ 4) (slot : ℕ) (below : slot < 4) where
  both_bits : taking slot used && freeing slot used ≡ true
  both_bits =
      for_slots_sound (λ slot. taking slot used && freeing slot used) slot below
        (every_sound 4 (λ used. for_slots (λ slot. taking slot used && freeing slot used)) used four
          bits_passed)

  take_bits :
      bit_and (free_bits used) (bit_xor 0xFFFF_FFFF (2 ^ slot)) ≡ free_bits (set used slot true)
  take_bits = ground (arith, both_bits)

  free_slot_bits : bit_or (free_bits used) (2 ^ slot) ≡ free_bits (set used slot false)
  free_slot_bits = ground (arith, both_bits)

map-set :
    (used : List Bool) (slot : ℕ) (u : Bool)
    → set (map count used) slot (count u) ≡ map count (set used slot u)
map-set [] slot u = refl
map-set (v ∷ used) zero u = refl
map-set (v ∷ used) (suc slot) u = ap (◌∷◌ (count v)) (map-set used slot u)

pub get_or-map :
    (used : List Bool) (slot : ℕ) → get_or (map count used) slot 0 ≡ count (get_or used slot false)
get_or-map [] slot = refl
get_or-map (v ∷ used) zero = refl
get_or-map (v ∷ used) (suc slot) = get_or-map used slot

-- What the search for a slot gives: a free one, or none where all four are in use.
abbrev found : List Bool → Option ℕ → Bool
found used none = for_slots (λ k. get_or used k true)
found used (some slot) = ltb slot 4 && not (get_or used slot true)

search_passed : every 4 (λ used. found used (first_slot 4 0 (free_bits used))) ≡ true
unfolding every first_slot
search_passed = refl

pub data Choice (used : List Bool) : Option ℕ → Type 0 where
  free : (slot : ℕ) → slot < 4 → get_or used slot true ≡ false → Choice used (some slot)
  full : ((k : ℕ) → k < 4 → get_or used k true ≡ true) → Choice used none

found-Choice :
    (used : List Bool) (choice : Option ℕ) → found used choice ≡ true → Choice used choice
found-Choice used none passed =
    full (λ k below. for_slots_sound (λ k. get_or used k true) k below passed)
found-Choice used (some slot) passed =
    free slot (ltb→lt slot 4 (and_left (ltb slot 4) (not (get_or used slot true)) passed))
      (ground (arith, and_right (ltb slot 4) (not (get_or used slot true)) passed))

pub first_slot-Choice :
    (used : List Bool) → length used ≡ 4 → Choice used (first_slot 4 0 (free_bits used))
first_slot-Choice used four =
    found-Choice used (first_slot 4 0 (free_bits used))
      (every_sound 4 (λ used. found used (first_slot 4 0 (free_bits used))) used four search_passed)

pub all_in_use :
    (used : List Bool)
    → length used ≡ 4
    → ((k : ℕ) → k < 4 → get_or used k true ≡ true)
    → used ≡ true ∷ true ∷ true ∷ true ∷ []
all_in_use (a ∷ b ∷ c ∷ d ∷ []) four all =
    rw (all 0 (omega arith), all 1 (omega arith), all 2 (omega arith), all 3 (omega arith)) refl
all_in_use [] four all = absurd (omega arith)
all_in_use (a ∷ []) four all = absurd (omega arith)
all_in_use (a ∷ b ∷ []) four all = absurd (omega arith)
all_in_use (a ∷ b ∷ c ∷ []) four all = absurd (omega arith)
all_in_use (a ∷ b ∷ c ∷ d ∷ e ∷ more) four all = absurd (omega arith)

-- The default of a read inside the list does not matter.
pub get_or_inside :
    (used : List Bool) (slot : ℕ) (u v : Bool)
    → slot < length used
    → get_or used slot u ≡ get_or used slot v
get_or_inside [] slot u v below = absurd (omega arith)
get_or_inside (x ∷ used) zero u v below = refl
get_or_inside (x ∷ used) (suc slot) u v below = get_or_inside used slot u v (omega arith)

module _ (used : List Bool) (four : length used ≡ 4) (slot : ℕ) (below : slot < 4) where
  pub take_slot-slots :
      get_or used slot true ≡ false
      → set_lock false (take_slot slot (set_lock true (slots used))) ≡ slots (set used slot true)
  take_slot-slots unused =
      let zero_count =
        get_or-map used slot
        ∙ ap count (get_or_inside used slot false true (omega arith) ∙ unused) in
      rw (zero_count, take_bits used four slot below, map-set used slot true) refl

  module _ (in_use : get_or used slot false ≡ true) where
    pub used_count : get_or (map count used) slot 0 ≡ 1
    used_count = get_or-map used slot ∙ ap count in_use

    pub last_count :
        set (map count used) slot (sub32 (get_or (map count used) slot 0) 1)
        ≡ map count (set used slot false)
    last_count = rw used_count (map-set used slot false)

    pub free_slot-slots :
        set_lock false (free_slot slot (count_down slot (set_lock true (slots used))))
        ≡ slots (set used slot false)
    free_slot-slots = rw (last_count, free_slot_bits used four slot below) refl
