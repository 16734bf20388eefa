-- ===== src/FrameBuffer/Tests.antt =====
-- fb.c on concrete screens, and its theorems at these inputs.
use matrix_os.Prelude.{ℕ, ◌<◌, ◌≡◌, refl, arith, List, [], ◌∷◌, some}
use matrix_os.FrameBuffer.{Screen, fb_write}
use matrix_os.FrameBuffer.Bounds.{fb_write_lem}
use matrix_os.CString.{strlen}

-- Each byte of the video memory holds its own index, and the cursor stands on the last cell.
abbrev full : Screen
full = record { vram = λ x. x; cursor_pos = 1999; current_fg = 7; current_bg = 0; io = [] }

abbrev top : Screen
top = record full { cursor_pos = 3 }

abbrev hi : List ℕ
hi = b'h' ∷ b'i' ∷ []

-- A tab in the last cell: four cells, of which three are off the screen, then one scroll.
abbrev tab : List ℕ
tab = 9 ∷ []

fb_write_lem_example :
    ((fb_write (some tab) 1 full).1.cursor_pos < 2000)
    × ((fb_write (some tab) 1 full).1.vram 4001 ≡ 4001)
    × ((fb_write (some tab) 1 full).1.current_fg ≡ 7)
    × ((fb_write (some tab) 1 full).1.current_bg ≡ 0)
    × ((fb_write (some tab) 1 full).0 ≡ 1)
fb_write_lem_example = fb_write_lem (some tab) 1 full 4001 (omega arith) (omega arith)

abbrev hi_text : List ℕ
hi_text = b'h' ∷ b'i' ∷ 0 ∷ []

two_long : strlen hi_text ≡ 2
two_long = unfold strlen in refl
