-- ===== src/FrameBuffer/Text.antt =====
-- fb_write on text without control characters: it appears in the cells from the cursor on.
use matrix_os.Prelude.{
  ℕ, zero, suc, ◌+◌, ◌-◌, ◌*◌, ◌/◌, ◌%◌, ◌<◌, ◌≡◌, ◌≢◌, ap, ◌∙◌, ◌⊎◌, inl, inr, ◌&&◌, arith, leb,
  ltb, ◌==◌, if◌then◌else◌, Bool-cases, ne→==_false, List, [], ◌∷◌, some, get_or, length,
}
use matrix_os.FrameBuffer.{
  Screen, fb_puts, attribute, put_cell, put_byte, keep_visible, write_from, fb_write, fb_set_cursor,
}
use matrix_os.Prelude.Word.{add32}
use matrix_os.CString.{strlen}
use matrix_os.FrameBuffer.Cells.{cell_byte, vram-fb_write_cell, fb_write_cell-SameState}

-- No backspace, tab, newline or return.
abbrev pub IsPrintable : ℕ → Type 0
IsPrintable c = (c ≢ 8) × (c ≢ 9) × (c ≢ 10) × (c ≢ 13)

abbrev pub AllPrintable : List ℕ → Type 0
AllPrintable [] = Unit
AllPrintable (c ∷ buf) = IsPrintable c × AllPrintable buf

get_or-IsPrintable : (buf : List ℕ) (k : ℕ) → AllPrintable buf → IsPrintable (get_or buf k 0)
get_or-IsPrintable [] k h = omega arith
get_or-IsPrintable (c ∷ buf) zero h = h.0
get_or-IsPrintable (c ∷ buf) (suc k) h = get_or-IsPrintable buf k h.1

-- The byte at `x` of a text shown from cell `pos` on, from its character `i` on.
abbrev pub shown_byte : ℕ → ℕ → List ℕ → ℕ → ℕ → ℕ
shown_byte pos i buf attr x = if x % 2 == 0 then get_or buf ((x - pos * 2) / 2 + i) 0 else attr

record PutsCell (c : ℕ) (s t : Screen) : Type 0 where
  cursor : t.cursor_pos ≡ s.cursor_pos + 1
  fg : t.current_fg ≡ s.current_fg
  bg : t.current_bg ≡ s.current_bg
  byte :
      (x : ℕ)
      → t.vram x ≡ cell_byte s.cursor_pos c (attribute s.current_fg s.current_bg) (s.vram x) x

put_cell-PutsCell : (c : ℕ) (s : Screen) → s.cursor_pos < 2000 → PutsCell c s (put_cell c s)
unfolding put_cell
put_cell-PutsCell c s h =
    let same = fb_write_cell-SameState s.cursor_pos c s.current_fg s.current_bg s in
    record {
      cursor = omega arith;
      fg = same.fg;
      bg = same.bg;
      byte = λ x. vram-fb_write_cell s.cursor_pos c s.current_fg s.current_bg s x h;
    }

put_byte-printable : (c : ℕ) (s : Screen) → IsPrintable c → put_byte c s ≡ put_cell c s
unfolding put_byte
put_byte-printable c s h =
    rw (ne→==_false c 10 h.2, ne→==_false c 9 h.1, ne→==_false c 13 h.3, ne→==_false c 8 h.0)

keep_visible-fits : (s : Screen) → s.cursor_pos < 2000 → keep_visible s ≡ s
unfolding keep_visible
keep_visible-fits s h = elim (Bool-cases (leb 2000 s.cursor_pos)) [
  | inl scrolls ↦ absurd (ground arith)
  | inr fits ↦ rw fits
]

shows-PutsCell :
    (c : ℕ) (s : Screen)
    → IsPrintable c
    → s.cursor_pos + 1 < 2000
    → PutsCell c s (keep_visible (put_byte c s))
shows-PutsCell c s p h =
    let cell = put_cell-PutsCell c s (omega arith) in
    rw (put_byte-printable c s p, keep_visible-fits (put_cell c s) (omega (arith, cell.cursor)))
      cell

record Shows (n i : ℕ) (buf : List ℕ) (s t : Screen) : Type 0 where
  cursor : t.cursor_pos ≡ s.cursor_pos + n
  byte :
      (x : ℕ)
      → t.vram x ≡ (
          if leb (s.cursor_pos * 2) x && ltb x ((s.cursor_pos + n) * 2)
          then shown_byte s.cursor_pos i buf (attribute s.current_fg s.current_bg) x
          else s.vram x)

shown-suc :
    (pos n i : ℕ) (buf : List ℕ) (attr old x : ℕ)
    → (if leb ((pos + 1) * 2) x && ltb x ((pos + 1 + n) * 2)
        then shown_byte (pos + 1) (i + 1) buf attr x
        else cell_byte pos (get_or buf i 0) attr old x)
      ≡ (if leb (pos * 2) x && ltb x ((pos + suc n) * 2) then shown_byte pos i buf attr x else old)
shown-suc pos n i buf attr old x = elim (Bool-cases (ltb x ((pos + 1) * 2))) [
  | inl before ↦
      let at : ((x - pos * 2) / 2 + i ≡ i) ⊎ (x < pos * 2) ⊎ (pos * 2 + 1 < x) = ground arith in
      elim at [ inl here ↦ ground (arith, ap (λ k. get_or buf k 0) here) | inr away ↦ ground arith ]
  | inr after ↦
      let same : (x - (pos + 1) * 2) / 2 + (i + 1) ≡ (x - pos * 2) / 2 + i = ground arith in
      ground (arith, ap (λ k. get_or buf k 0) same)
]

write_from-Shows :
    (n i : ℕ) (buf : List ℕ) (s : Screen)
    → AllPrintable buf
    → s.cursor_pos + n < 2000
    → Shows n i buf s (write_from n i buf s)
unfolding write_from
write_from-Shows zero i buf s p h = record { cursor = omega arith; byte = λ x. ground arith }
write_from-Shows (suc n) i buf s p h =
    let t = keep_visible (put_byte (get_or buf i 0) s) in
    let cell = shows-PutsCell (get_or buf i 0) s (get_or-IsPrintable buf i p) (omega arith) in
    let rest = write_from-Shows n (i + 1) buf t p (omega (arith, cell.cursor)) in
    record {
      cursor = omega (arith, rest.cursor, cell.cursor);
      byte = λ x.
          rest.byte x
          ∙ rw (cell.cursor, cell.fg, cell.bg, cell.byte x)
              (shown-suc s.cursor_pos n i buf (attribute s.current_fg s.current_bg) (s.vram x) x);
    }

-- Text without control characters that fits on the screen behind the cursor stands in the cells from
-- the cursor on, in the current colours; the cursor stands behind it, and no other byte has changed.
pub fb_write-printable :
    (buf : List ℕ) (s : Screen) (x : ℕ)
    → AllPrintable buf
    → s.cursor_pos + length buf < 2000
    → let t = (fb_write (some buf) (length buf) s).1 in
      (t.cursor_pos ≡ s.cursor_pos + length buf)
      × (t.vram x ≡ (
          if leb (s.cursor_pos * 2) x && ltb x ((s.cursor_pos + length buf) * 2)
          then shown_byte s.cursor_pos 0 buf (attribute s.current_fg s.current_bg) x
          else s.vram x))
unfolding fb_write fb_set_cursor
fb_write-printable [] s x p h = (omega arith, ground arith)
fb_write-printable (c ∷ buf) s x p h =
    let shown = write_from-Shows (length (c ∷ buf)) 0 (c ∷ buf) s p h in
    rw (ne→==_false (suc (length buf)) 0 (omega arith)) (shown.cursor, shown.byte x)

fb_write-Shows :
    (buf : List ℕ) (n : ℕ) (s : Screen)
    → AllPrintable buf
    → s.cursor_pos + suc n < 2000
    → Shows (suc n) 0 buf s (fb_write (some buf) (suc n) s).1
unfolding fb_write fb_set_cursor
fb_write-Shows buf n s p h =
    let shown = write_from-Shows (suc n) 0 buf s p h in
    rw (ne→==_false (suc n) 0 (omega arith)) (record { cursor = shown.cursor; byte = shown.byte })

fb_puts-fb_write :
    (str : List ℕ) (s : Screen)
    → strlen str < 2000
    → fb_puts (some str) s ≡ (fb_write (some str) (suc (strlen str)) s).1
unfolding fb_puts
fb_puts-fb_write str s h =
    let n : add32 (strlen str) 1 ≡ suc (strlen str) = omega arith in
    ap (λ n. (fb_write (some str) n s).1) n

last_byte :
    (p n : ℕ) (buf : List ℕ) (attr old : ℕ)
    → (if leb (p * 2) ((p + n) * 2) && ltb ((p + n) * 2) ((p + suc n) * 2)
        then shown_byte p 0 buf attr ((p + n) * 2)
        else old)
      ≡ get_or buf n 0
last_byte p n buf attr old =
    let at : ((p + n) * 2 - p * 2) / 2 + 0 ≡ n = omega arith in
    ground (arith, ap (λ k. get_or buf k 0) at)

-- `fb_puts` prints its terminator too: for a text without control characters before a terminator, the
-- cursor ends one cell behind the text's end, and the cell at the end holds the byte of the terminator.
pub fb_puts_lem :
    (str : List ℕ) (s : Screen)
    → AllPrintable str
    → s.cursor_pos + strlen str + 1 < 2000
    → ((fb_puts (some str) s).cursor_pos ≡ s.cursor_pos + strlen str + 1)
      × ((fb_puts (some str) s).vram ((s.cursor_pos + strlen str) * 2) ≡ get_or str (strlen str) 0)
fb_puts_lem str s p h =
    let shown = fb_write-Shows str (strlen str) s p (omega arith) in
    rw (fb_puts-fb_write str s (omega arith)) (
      omega (arith, shown.cursor),
      shown.byte ((s.cursor_pos + strlen str) * 2)
          ∙ last_byte s.cursor_pos (strlen str) str (attribute s.current_fg s.current_bg)
              (s.vram ((s.cursor_pos + strlen str) * 2)),
    )
