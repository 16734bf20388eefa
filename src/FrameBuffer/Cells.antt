-- ===== src/FrameBuffer/Cells.antt =====
-- What the cell loops of fb.c do to the video memory: clearing a line, and scrolling.
use matrix_os.Prelude.{
  ℕ, zero, suc, ◌+◌, ◌-◌, ◌*◌, ◌%◌, ◌≤◌, ◌<◌, ◌≡◌, refl, ap, ◌∙◌, inl, inr, ◌&&◌, arith, leb, ltb,
  ◌==◌, if◌then◌else◌, Bool-cases,
}
use matrix_os.Prelude.Loops.{for_range}
use matrix_os.FrameBuffer.{
  Screen, attribute, fb_write_cell, blank_cell, fb_clear_line, lift_cell, fb_scroll,
}

-- The byte at `x` after cell `pos` has been written, where that is on the screen.
abbrev pub cell_byte : ℕ → ℕ → ℕ → ℕ → ℕ → ℕ
cell_byte pos c attr old x = if x == pos * 2 + 1 then attr else if x == pos * 2 then c else old

pub vram-fb_write_cell :
    (pos c fg bg : ℕ) (s : Screen) (x : ℕ)
    → pos < 2000
    → (fb_write_cell pos c fg bg s).vram x ≡ cell_byte pos c (attribute fg bg) (s.vram x) x
unfolding fb_write_cell
vram-fb_write_cell pos c fg bg s x h = ground arith

-- A cell off the screen is not written, and no call changes the cursor, the colours or the ports.
pub record SameState (s t : Screen) : Type 0 where
  pub cursor : t.cursor_pos ≡ s.cursor_pos
  pub fg : t.current_fg ≡ s.current_fg
  pub bg : t.current_bg ≡ s.current_bg
  pub ports : t.io ≡ s.io

pub fb_write_cell-SameState :
    (pos c fg bg : ℕ) (s : Screen) → SameState s (fb_write_cell pos c fg bg s)
unfolding fb_write_cell
fb_write_cell-SameState pos c fg bg s = ground arith

pub off_screen : (pos c fg bg : ℕ) (s : Screen) → 2000 ≤ pos → fb_write_cell pos c fg bg s ≡ s
unfolding fb_write_cell
off_screen pos c fg bg s h = ground arith

-- The byte of a blank cell in the current colours.
abbrev pub blank_byte : Screen → ℕ → ℕ
blank_byte s x = if x % 2 == 0 then b' ' else attribute s.current_fg s.current_bg

abbrev blanks : ℕ → ℕ → ℕ → Screen → Screen
blanks base n i s = for_range n i (λ j t. blank_cell (base + j) t) s

blanks-SameState : (base n i : ℕ) (s : Screen) → SameState s (blanks base n i s)
unfolding for_range
blanks-SameState base zero i s = record { cursor = refl; fg = refl; bg = refl; ports = refl }
blanks-SameState base (suc n) i s =
    let here = fb_write_cell-SameState (base + i) b' ' s.current_fg s.current_bg s in
    let rest = blanks-SameState base n (i + 1) (blank_cell (base + i) s) in
    record {
      cursor = rest.cursor ∙ here.cursor;
      fg = rest.fg ∙ here.fg;
      bg = rest.bg ∙ here.bg;
      ports = rest.ports ∙ here.ports;
    }

vram-blanks :
    (base n i : ℕ) (s : Screen) (x : ℕ)
    → base + i + n ≤ 2000
    → (blanks base n i s).vram x
      ≡ (if leb ((base + i) * 2) x && ltb x ((base + i + n) * 2) then blank_byte s x else s.vram x)
unfolding for_range
vram-blanks base zero i s x h = ground arith
vram-blanks base (suc n) i s x h =
    let here = fb_write_cell-SameState (base + i) b' ' s.current_fg s.current_bg s in
    ground (
      arith,
      here.fg,
      here.bg,
      vram-fb_write_cell (base + i) b' ' s.current_fg s.current_bg s x,
      vram-blanks base n (i + 1) (blank_cell (base + i) s) x,
    )

pub fb_clear_line-SameState : (line : ℕ) (s : Screen) → SameState s (fb_clear_line line s)
unfolding fb_clear_line
fb_clear_line-SameState line s = elim (Bool-cases (ltb line 25)) [
  | inl on ↦ rw on (blanks-SameState (line * 80) 80 0 s)
  | inr off ↦ rw off (record { cursor = refl; fg = refl; bg = refl; ports = refl })
]

-- `fb_clear_line` blanks the 160 bytes of a line on the screen, in the current colours, and nothing
-- else; a line off the screen is left alone.
pub fb_clear_line_lem :
    (line : ℕ) (s : Screen) (x : ℕ)
    → (fb_clear_line line s).vram x ≡ (
        if ltb line 25 && (leb (line * 160) x && ltb x (line * 160 + 160))
        then blank_byte s x
        else s.vram x)
unfolding fb_clear_line
fb_clear_line_lem line s x = elim (Bool-cases (ltb line 25)) [
  | inl on ↦ rw on (ground (arith, vram-blanks (line * 80) 80 0 s x))
  | inr off ↦ rw off refl
]

vram-lift_cell :
    (i : ℕ) (s : Screen) (x : ℕ)
    → 80 ≤ i
    → (lift_cell i s).vram x ≡ cell_byte (i - 80) (s.vram (i * 2)) (s.vram (i * 2 + 1)) (s.vram x) x
vram-lift_cell i s x h = ground arith

abbrev lifts : ℕ → ℕ → Screen → Screen
lifts n i s = for_range n i lift_cell s

lifts-SameState : (n i : ℕ) (s : Screen) → SameState s (lifts n i s)
unfolding for_range
lifts-SameState zero i s = record { cursor = refl; fg = refl; bg = refl; ports = refl }
lifts-SameState (suc n) i s =
    let rest = lifts-SameState n (i + 1) (lift_cell i s) in
    record { cursor = rest.cursor; fg = rest.fg; bg = rest.bg; ports = rest.ports }

vram-lifts :
    (n i : ℕ) (s : Screen) (x : ℕ)
    → 80 ≤ i
    → (lifts n i s).vram x
      ≡ (if leb ((i - 80) * 2) x && ltb x ((i - 80 + n) * 2) then s.vram (x + 160) else s.vram x)
unfolding for_range
vram-lifts zero i s x h = ground arith
vram-lifts (suc n) i s x h =
    let rest = vram-lifts n (i + 1) (lift_cell i s) x (omega arith) in
    let here = vram-lift_cell i s x h in
    let below = vram-lift_cell i s (x + 160) h in
    elim (Bool-cases (x == (i - 80) * 2)) [
      | inl even ↦
          let same : s.vram (x + 160) ≡ s.vram (i * 2) = ap s.vram (ground arith) in
          ground (arith, rest, here, same)
      | inr other ↦ elim (Bool-cases (x == (i - 80) * 2 + 1)) [
        | inl odd ↦
            let same : s.vram (x + 160) ≡ s.vram (i * 2 + 1) = ap s.vram (ground arith) in
            ground (arith, rest, here, same)
        | inr apart ↦ ground (arith, rest, here, below)
      ]
    ]

pub fb_scroll-SameState : (s : Screen) → SameState s (fb_scroll s)
unfolding fb_scroll
fb_scroll-SameState s =
    let up = lifts-SameState 1920 80 s in
    let last = fb_clear_line-SameState 24 (lifts 1920 80 s) in
    record {
      cursor = last.cursor ∙ up.cursor;
      fg = last.fg ∙ up.fg;
      bg = last.bg ∙ up.bg;
      ports = last.ports ∙ up.ports;
    }

lines :
    (blank up old x : ℕ)
    → (if leb 3840 x && ltb x 4000 then blank else if leb 0 x && ltb x 3840 then up else old)
      ≡ (if ltb x 3840 then up else if ltb x 4000 then blank else old)
lines blank up old x = ground arith

-- `fb_scroll` moves each of the lines 1 to 24 one line up, blanks the last line in the current colours,
-- and changes no byte outside the screen.
pub fb_scroll_lem :
    (s : Screen) (x : ℕ)
    → (fb_scroll s).vram x
      ≡ (if ltb x 3840 then s.vram (x + 160) else if ltb x 4000 then blank_byte s x else s.vram x)
unfolding fb_scroll
fb_scroll_lem s x =
    let up = lifts-SameState 1920 80 s in
    let last : (fb_clear_line 24 (lifts 1920 80 s)).vram x
        ≡ (if leb 3840 x && ltb x 4000 then blank_byte s x else (lifts 1920 80 s).vram x) =
      fb_clear_line_lem 24 (lifts 1920 80 s) x ∙ rw (up.fg, up.bg) refl in
    last
    ∙ rw (vram-lifts 1920 80 s x (omega arith))
        (lines (blank_byte s x) (s.vram (x + 160)) (s.vram x) x)
