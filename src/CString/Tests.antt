-- ===== src/CString/Tests.antt =====
-- lib/string.c on concrete strings, and its theorems at concrete inputs.
use matrix_os.Prelude.{ℕ, ◌≡◌, refl, List, [], ◌∷◌, if◌then◌else◌}
use matrix_os.Prelude.Int.{pos, negsuc}
use matrix_os.Prelude.Loops.{for_range}
use matrix_os.CString.{Memory, memcpy, memmove, strlen, strcmp, strncmp, strncpy}
use matrix_os.CString.Blocks.{within, memmove_lem}

-- Each address holds its own number.
abbrev numbered : Memory
numbered x = x

-- "ab", with what stands behind the terminator.
abbrev ab : List ℕ
ab = b'a' ∷ b'b' ∷ 0 ∷ b'z' ∷ []

abbrev abc : List ℕ
abc = b'a' ∷ b'b' ∷ b'c' ∷ 0 ∷ []

abbrev room : List ℕ
room = 1 ∷ 2 ∷ 3 ∷ 4 ∷ 5 ∷ 6 ∷ []

-- An upward overlapping move, which a plain upward copy would spoil.
memmove_overlaps :
    (memmove 11 10 3 numbered 11 ≡ 10)
    × (memmove 11 10 3 numbered 13 ≡ 12)
    × (memcpy 11 10 3 numbered 13 ≡ 10)
unfolding memmove memcpy for_range
memmove_overlaps = (refl, refl, refl)

comparisons :
    (strcmp ab abc ≡ negsuc 98)
    × (strncmp ab abc 2 ≡ pos 0)
    × (strncmp ab abc 3 ≡ negsuc 98)
    × (strlen ab ≡ 2)
unfolding strcmp strncmp strlen
comparisons = (refl, refl, refl, refl)

-- A byte above 127 sorts below every ASCII character for `strncmp`, and above them for `strcmp`.
signed_bytes :
    (strncmp (200 ∷ []) (b'a' ∷ []) 1 ≡ negsuc 152) × (strcmp (200 ∷ []) (b'a' ∷ []) ≡ pos 103)
unfolding strncmp strcmp
signed_bytes = (refl, refl)

padded : strncpy room ab 5 ≡ b'a' ∷ b'b' ∷ 0 ∷ 0 ∷ 0 ∷ 6 ∷ []
unfolding strncpy
padded = refl

memmove_lem_example : memmove 11 10 3 numbered 13 ≡ (if within 11 3 13 then numbered 12 else 13)
memmove_lem_example = memmove_lem 11 10 3 numbered 13
