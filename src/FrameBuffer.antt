-- ===== src/FrameBuffer.antt =====
-- kernel/drivers/fb.c: the text screen of 25 lines of 80 cells, two bytes a cell. `vram` is the video
-- memory by byte index from 0xC00B8000; a text is the list of the bytes from its pointer on, `none`
-- for NULL. Port writes are a list, newest first.
pub mod Cells
pub mod Bounds
pub mod Text
mod Tests
use matrix_os.Prelude.{
  ℕ, zero, suc, ◌+◌, ◌-◌, ◌*◌, ◌/◌, ◌%◌, ◌<◌, List, [], ◌∷◌, Option, none, some, ◌==◌, ltb, leb,
  if◌then◌else◌, get_or,
}
use matrix_os.Prelude.Loops.{for_range}
use matrix_os.Prelude.Word.{add32}
use matrix_os.Pic.{Ports}
use matrix_os.CString.{Memory, store, strlen}

pub record Screen : Type 0 where
  pub vram : Memory
  pub cursor_pos : ℕ
  pub current_fg : ℕ
  pub current_bg : ℕ
  pub io : Ports

-- The cells of the screen, 80 * 25.
abbrev pub cells : ℕ
cells = 2000

-- `((fg & 0x0F) << 4) | (bg & 0x0F)`.
abbrev pub attribute : ℕ → ℕ → ℕ
attribute fg bg = fg % 16 * 16 + bg % 16

unfoldable pub fb_write_cell : ℕ → ℕ → ℕ → ℕ → Screen → Screen
fb_write_cell pos c fg bg s =
    if ltb pos cells
    then record s { vram = store (store s.vram (pos * 2) c) (pos * 2 + 1) (attribute fg bg) }
    else s

-- `fb_write_cell(pos, ' ', current_fg, current_bg)`.
abbrev pub blank_cell : ℕ → Screen → Screen
blank_cell pos s = fb_write_cell pos b' ' s.current_fg s.current_bg s

unfoldable pub fb_clear_line : ℕ → Screen → Screen
fb_clear_line line s =
    if ltb line 25 then for_range 80 0 (λ i s. blank_cell (line * 80 + i) s) s else s

-- The copy of one cell to the cell above it.
abbrev pub lift_cell : ℕ → Screen → Screen
lift_cell i s =
    let first : Memory = store s.vram ((i - 80) * 2) (s.vram (i * 2)) in
    record s { vram = store first ((i - 80) * 2 + 1) (first (i * 2 + 1)) }

unfoldable pub fb_scroll : Screen → Screen
fb_scroll s = fb_clear_line 24 (for_range 1920 80 lift_cell s)

-- The position is cut to the last cell; its low byte goes out first.
unfoldable pub fb_set_cursor : ℕ → Screen → Screen
fb_set_cursor position s =
    let p = if leb cells position then cells - 1 else position in
    record s {
      io = (0x3D5, p / 256 % 256) ∷ (0x3D4, 0x0E) ∷ (0x3D5, p % 256) ∷ (0x3D4, 0x0F) ∷ s.io;
    }

abbrev pub move_to : ℕ → Screen → Screen
move_to pos s = record s { cursor_pos = pos }

-- `fb_write_cell(cursor_pos, c, …); cursor_pos++`.
unfoldable pub put_cell : ℕ → Screen → Screen
put_cell c s =
    move_to (add32 s.cursor_pos 1) (fb_write_cell s.cursor_pos c s.current_fg s.current_bg s)

-- The branches of `fb_write` for one character: newline, tab, return, backspace, and the rest.
unfoldable pub put_byte : ℕ → Screen → Screen
put_byte c s =
    if c == 10
    then move_to (add32 s.cursor_pos 80 / 80 * 80) s
    else if c == 9
    then put_cell b' ' (put_cell b' ' (put_cell b' ' (put_cell b' ' s)))
    else if c == 13
    then move_to (s.cursor_pos / 80 * 80) s
    else if c == 8
    then (if ltb 0 s.cursor_pos
        then blank_cell (s.cursor_pos - 1) (move_to (s.cursor_pos - 1) s)
        else s)
    else put_cell c s

-- `if (cursor_pos >= 80 * 25) { fb_scroll(); cursor_pos = 80 * 24; }`.
unfoldable pub keep_visible : Screen → Screen
keep_visible s = if leb cells s.cursor_pos then move_to 1920 (fb_scroll s) else s

-- The loop of `fb_write` over the `n` bytes from index `i` on.
unfoldable pub write_from : ℕ → ℕ → List ℕ → Screen → Screen
write_from zero i buf s = s
write_from (suc n) i buf s = write_from n (i + 1) buf (keep_visible (put_byte (get_or buf i 0) s))

unfoldable pub fb_write : Option (List ℕ) → ℕ → Screen → ℕ × Screen
fb_write none len s = (0, s)
fb_write (some buf) len s =
    if len == 0
    then (0, s)
    else (let t = write_from len 0 buf s in (len, fb_set_cursor t.cursor_pos t))

unfoldable pub fb_putchar : ℕ → Screen → Screen
fb_putchar c s = (fb_write (some (c ∷ [])) 1 s).1

abbrev pub fb_strlen : List ℕ → ℕ
fb_strlen str = strlen str

-- One byte more than the text has.
unfoldable pub fb_puts : Option (List ℕ) → Screen → Screen
fb_puts none s = s
fb_puts (some str) s = (fb_write (some str) (add32 (fb_strlen str) 1) s).1

unfoldable pub fb_clear : Screen → Screen
fb_clear s = fb_set_cursor 0 (move_to 0 (for_range 2000 0 blank_cell s))

-- FB_LIGHT_GRAY on FB_BLACK.
unfoldable pub fb_init : Screen → Screen
fb_init s = record (fb_clear s) { cursor_pos = 0; current_fg = 7; current_bg = 0 }

unfoldable pub fb_set_color : ℕ → ℕ → Screen → Screen
fb_set_color foreground background s = record s {
  current_fg = foreground % 16;
  current_bg = background % 16;
}

unfoldable pub fb_direct_write : ℕ → ℕ → ℕ → ℕ → Screen → Screen
fb_direct_write position c fg bg s =
    if ltb position cells then fb_write_cell position c fg bg s else s

unfoldable pub fb_get_color : Screen → ℕ × ℕ
fb_get_color s = (s.current_fg, s.current_bg)
