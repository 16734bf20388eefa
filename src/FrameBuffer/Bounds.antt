-- ===== src/FrameBuffer/Bounds.antt =====
-- fb_write keeps the cursor on the screen and writes nothing outside it.
use matrix_os.Prelude.{
  ℕ, zero, suc, ◌+◌, ◌-◌, ◌*◌, ◌/◌, ◌≤◌, ◌<◌, ◌≡◌, refl, ap, ◌∙◌, inl, inr, arith, leb, ltb, ◌==◌,
  if◌then◌else◌, Bool-cases, ne→==_false, List, Option, none, some, get_or,
}
use matrix_os.Prelude.Word.{add32}
use matrix_os.FrameBuffer.{
  Screen, fb_write_cell, blank_cell, put_cell, put_byte, keep_visible, move_to, write_from,
  fb_write, fb_set_cursor,
}
use matrix_os.FrameBuffer.Cells.{
  vram-fb_write_cell, fb_write_cell-SameState, off_screen, fb_scroll_lem, fb_scroll-SameState,
}

-- No byte outside the screen changes, and the colours stay.
pub record KeepsOutside (s t : Screen) : Type 0 where
  pub outside : (x : ℕ) → 4000 ≤ x → t.vram x ≡ s.vram x
  pub fg : t.current_fg ≡ s.current_fg
  pub bg : t.current_bg ≡ s.current_bg

KeepsOutside-trans : {s t u : Screen} → KeepsOutside s t → KeepsOutside t u → KeepsOutside s u
KeepsOutside-trans p q = record {
  outside = λ x h. q.outside x h ∙ p.outside x h;
  fg = q.fg ∙ p.fg;
  bg = q.bg ∙ p.bg;
}

KeepsOutside-refl : (s : Screen) → KeepsOutside s s
KeepsOutside-refl s = record { outside = λ x h. refl; fg = refl; bg = refl }

fb_write_cell-KeepsOutside :
    (pos c fg bg : ℕ) (s : Screen) → KeepsOutside s (fb_write_cell pos c fg bg s)
fb_write_cell-KeepsOutside pos c fg bg s =
    let same = fb_write_cell-SameState pos c fg bg s in
    record {
      outside = λ x h. elim (Bool-cases (ltb pos 2000)) [
        | inl on ↦ ground (arith, vram-fb_write_cell pos c fg bg s x)
        | inr off ↦ ap (λ t. t.vram x) (off_screen pos c fg bg s (ground arith))
      ];
      fg = same.fg;
      bg = same.bg;
    }

put_cell-KeepsOutside : (c : ℕ) (s : Screen) → KeepsOutside s (put_cell c s)
unfolding put_cell
put_cell-KeepsOutside c s =
    let same = fb_write_cell-KeepsOutside s.cursor_pos c s.current_fg s.current_bg s in
    record { outside = same.outside; fg = same.fg; bg = same.bg }

cursor-put_cell :
    (c : ℕ) (s : Screen) → s.cursor_pos < 3000 → (put_cell c s).cursor_pos ≡ s.cursor_pos + 1
unfolding put_cell
cursor-put_cell c s h = omega arith

-- What one step of the loop keeps.
record Writes (s t : Screen) : Type 0 where
  outside : KeepsOutside s t
  near : t.cursor_pos < 2004

four_cells :
    (s : Screen)
    → s.cursor_pos < 2000
    → Writes s (put_cell b' ' (put_cell b' ' (put_cell b' ' (put_cell b' ' s))))
four_cells s h =
    let one = put_cell b' ' s in
    let two = put_cell b' ' one in
    let three = put_cell b' ' two in
    let c1 = cursor-put_cell b' ' s (omega arith) in
    let c2 = cursor-put_cell b' ' one (omega arith) in
    let c3 = cursor-put_cell b' ' two (omega arith) in
    let c4 = cursor-put_cell b' ' three (omega arith) in
    record {
      outside = KeepsOutside-trans (put_cell-KeepsOutside b' ' s) (
          KeepsOutside-trans (put_cell-KeepsOutside b' ' one) (
            KeepsOutside-trans (put_cell-KeepsOutside b' ' two)
              (put_cell-KeepsOutside b' ' three)));
      near = omega arith;
    }

moved-Writes : (pos : ℕ) (s : Screen) → pos < 2004 → Writes s (move_to pos s)
moved-Writes pos s h = record {
  outside = record { outside = λ x l. refl; fg = refl; bg = refl };
  near = h;
}

backspace-Writes :
    (s : Screen)
    → s.cursor_pos < 2000
    → Writes s (
        if ltb 0 s.cursor_pos
        then blank_cell (s.cursor_pos - 1) (move_to (s.cursor_pos - 1) s)
        else s)
backspace-Writes s h = elim (Bool-cases (ltb 0 s.cursor_pos)) [
  | inl some_left ↦
      let back = move_to (s.cursor_pos - 1) s in
      let cell = fb_write_cell-KeepsOutside back.cursor_pos b' ' s.current_fg s.current_bg back in
      let same = fb_write_cell-SameState back.cursor_pos b' ' s.current_fg s.current_bg back in
      rw some_left (record {
        outside = record { outside = cell.outside; fg = cell.fg; bg = cell.bg };
        near = omega (arith, same.cursor);
      })
  | inr at_start ↦ rw at_start (record { outside = KeepsOutside-refl s; near = omega arith })
]

put_byte-Writes : (c : ℕ) (s : Screen) → s.cursor_pos < 2000 → Writes s (put_byte c s)
unfolding put_byte
put_byte-Writes c s h = elim (Bool-cases (c == 10)) [
  | inl newline ↦ rw newline (moved-Writes (add32 s.cursor_pos 80 / 80 * 80) s (omega arith))
  | inr c1 ↦ elim (Bool-cases (c == 9)) [
    | inl tab ↦ rw (c1, tab) (four_cells s h)
    | inr c2 ↦ elim (Bool-cases (c == 13)) [
      | inl return ↦ rw (c1, c2, return) (moved-Writes (s.cursor_pos / 80 * 80) s (omega arith))
      | inr c3 ↦ elim (Bool-cases (c == 8)) [
        | inl backspace ↦ rw (c1, c2, c3, backspace) (backspace-Writes s h)
        | inr c4 ↦
            rw (c1, c2, c3, c4)
              (record {
                outside = put_cell-KeepsOutside c s;
                near = omega (arith, cursor-put_cell c s (omega arith));
              })
      ]
    ]
  ]
]

keep_visible-KeepsOutside : (s : Screen) → KeepsOutside s (keep_visible s)
unfolding keep_visible
keep_visible-KeepsOutside s = elim (Bool-cases (leb 2000 s.cursor_pos)) [
  | inl scrolls ↦
      let same = fb_scroll-SameState s in
      rw scrolls
        (record { outside = λ x h. fb_scroll_lem s x ∙ ground arith; fg = same.fg; bg = same.bg })
  | inr fits ↦ rw fits (KeepsOutside-refl s)
]

cursor-keep_visible : (s : Screen) → (keep_visible s).cursor_pos < 2000
unfolding keep_visible
cursor-keep_visible s = elim (Bool-cases (leb 2000 s.cursor_pos)) [
  | inl scrolls ↦ rw scrolls (omega arith)
  | inr fits ↦ rw fits (ground arith)
]

-- The loop of `fb_write`, from a cursor on the screen.
record Printed (s t : Screen) : Type 0 where
  outside : KeepsOutside s t
  cursor : t.cursor_pos < 2000

write_from-Printed :
    (n i : ℕ) (buf : List ℕ) (s : Screen) → s.cursor_pos < 2000 → Printed s (write_from n i buf s)
unfolding write_from
write_from-Printed zero i buf s h = record { outside = KeepsOutside-refl s; cursor = h }
write_from-Printed (suc n) i buf s h =
    let step = put_byte-Writes (get_or buf i 0) s h in
    let shown = put_byte (get_or buf i 0) s in
    let rest = write_from-Printed n (i + 1) buf (keep_visible shown) (cursor-keep_visible shown) in
    record {
      outside =
          KeepsOutside-trans step.outside
            (KeepsOutside-trans (keep_visible-KeepsOutside shown) rest.outside);
      cursor = rest.cursor;
    }

-- From a cursor on the screen `fb_write` ends with the cursor on the screen, whatever the text, has
-- written no byte outside the 4000 of the screen, has kept the colours, and returns the length, or 0
-- for NULL.
pub fb_write_lem :
    (buf : Option (List ℕ)) (len : ℕ) (s : Screen) (x : ℕ)
    → s.cursor_pos < 2000
    → 4000 ≤ x
    → ((fb_write buf len s).1.cursor_pos < 2000)
      × ((fb_write buf len s).1.vram x ≡ s.vram x)
      × ((fb_write buf len s).1.current_fg ≡ s.current_fg)
      × ((fb_write buf len s).1.current_bg ≡ s.current_bg)
      × ((fb_write buf len s).0 ≡ elim buf [ none ↦ 0 | some _ ↦ len ])
unfolding fb_write fb_set_cursor
fb_write_lem none len s x h o = (h, refl, refl, refl, refl)
fb_write_lem (some buf) zero s x h o = (h, refl, refl, refl, refl)
fb_write_lem (some buf) (suc n) s x h o =
    let done = write_from-Printed (suc n) 0 buf s h in
    rw (ne→==_false (suc n) 0 (omega arith))
      (done.cursor, done.outside.outside x o, done.outside.fg, done.outside.bg, refl)
