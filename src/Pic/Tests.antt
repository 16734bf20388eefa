-- ===== src/Pic/Tests.antt =====
-- pic.c on concrete interrupt lines.
use matrix_os.Prelude.{ℕ, ◌≡◌, refl, [], ◌∷◌}
use matrix_os.Pic.{pic_eoi, pic_clear_mask}

abbrev all_masked : ℕ → ℕ
all_masked port = 0xFF

-- The keyboard line is enabled, and a line of the second controller acknowledged to both.
keyboard_line :
    (pic_clear_mask 1 all_masked [] ≡ (0x21, 0xFD) ∷ [])
    × (pic_eoi 12 [] ≡ (0x20, 0x20) ∷ (0xA0, 0x20) ∷ [])
unfolding pic_clear_mask pic_eoi
keyboard_line = (refl, refl)
