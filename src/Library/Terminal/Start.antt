-- ===== src/Library/Terminal/Start.antt =====
-- lib_terminal of library/shared/terminal.c: a fresh terminal fits its window.
use fern_night.Prelude.{ℕ, ◌+◌, ◌-◌, ◌*◌, ◌/◌, ◌%◌, ◌^◌, ◌≤◌, ◌<◌, List, ◌≡◌, ap, sym, ◌∙◌, arith}
use fern_night.Library.Terminal.{
  Font, Terminal, font_width, font_height, lib_terminal_cursor_switch, lib_terminal_cursor_disable,
  lib_terminal_cursor_enable, lib_terminal_drain, lib_terminal, lib_terminal_string,
}
use fern_night.Library.Terminal.Bounds.{mul_mono}
use fern_night.Library.Terminal.Cursor.{IsPlaced, terminal_string-IsPlaced}
use fern_night.Library.Terminal.Window.{IsFitting, Beyond, Draws}
use fern_night.Library.Terminal.Frame.{terminal_string_frame}

-- The sizes of a terminal, where no position is left.
record IsFresh (t u : Terminal) : Type 0 where
  pub same_width : u.width ≡ t.width
  pub same_height : u.height ≡ t.height
  pub same_base : u.base_address ≡ t.base_address
  pub same_line : u.scanline_pixel ≡ t.scanline_pixel
  pub columns : u.width_char ≡ (t.width / font_width + 2 ^ 16 - 1) % 2 ^ 16
  pub rows : u.height_char ≡ (t.height / font_height + 2 ^ 16 - 1) % 2 ^ 16
  pub char : u.scanline_char ≡ t.width / ((t.width / font_width + 2 ^ 16 - 1) % 2 ^ 16)
  pub lines : u.scanline_line ≡ t.scanline_pixel * font_height % 2 ^ 32
  pub left : u.cursor_x ≡ 0
  pub top : u.cursor_y ≡ 0
  pub start : u.pointer ≡ t.base_address

lib_terminal-IsFresh : (t : Terminal) → IsFresh t (lib_terminal t)
unfolding lib_terminal lib_terminal_drain lib_terminal_cursor_disable lib_terminal_cursor_enable
    lib_terminal_cursor_switch
lib_terminal-IsFresh t = ground arith

-- A window of at least 136 columns of pixels has cells that are as wide as a character.
cell_width : (w : ℕ) → 136 ≤ w → w / (w / 8 - 1) ≡ 8
cell_width w h = grind arith

-- A window of at least 136 columns and 16 lines of pixels, and less than 2 ^ 32 pixels.
pub record IsWindow (t : Terminal) : Type 0 where
  pub wide : (136 ≤ t.width) × (t.width < 2 ^ 16)
  pub high : (16 ≤ t.height) × (t.height < 2 ^ 16)
  pub lines : t.width ≤ t.scanline_pixel
  pub small : t.scanline_pixel * t.height < 2 ^ 32

module _ (t u : Terminal) (window : IsWindow t) (fresh : IsFresh t u) where
  columns_of : u.width_char ≡ t.width / 8 - 1
  columns_of = omega arith

  rows_of : u.height_char ≡ t.height / 16 - 1
  rows_of = omega arith

  char_of : u.scanline_char ≡ 8
  char_of =
      fresh.char
      ∙ ap (λ (n : ℕ). t.width / n) (sym fresh.columns ∙ columns_of)
      ∙ cell_width t.width window.wide.0

  -- The lines of pixels that the lines of characters take.
  tall_enough : t.height / 16 * (t.scanline_pixel * 16) ≤ t.scanline_pixel * t.height
  tall_enough = grind (arith, mul_mono (t.height / 16 * 16) t.height t.scanline_pixel)

  last_row : u.height_char + 1 ≡ t.height / 16
  last_row = omega (arith, rows_of)

  one_row : t.scanline_pixel * 16 ≤ t.scanline_pixel * t.height
  one_row = grind (arith, mul_mono 16 t.height t.scanline_pixel window.high.0)

  fresh-IsFitting : IsFitting u
  fresh-IsFitting = record {
    lines = omega arith;
    wide = omega (arith, columns_of, ap (λ (n : ℕ). u.width_char * n) char_of);
    tall = rw (last_row, fresh.same_line, fresh.same_height) tall_enough;
    small = rw (fresh.same_line, fresh.same_height) window.small;
    line = omega (arith, one_row, ap (λ (n : ℕ). n * 16) fresh.same_line);
  }

  fresh-IsPlaced : IsPlaced u
  fresh-IsPlaced = record {
    column = omega arith;
    row = omega arith;
    narrow = omega arith;
    low = omega arith;
    at_cell = omega (
      arith,
      ap (λ (n : ℕ). n * (u.scanline_pixel * font_height)) fresh.top,
      ap (λ (n : ℕ). n * u.scanline_char) fresh.left,
    );
  }

-- In such a window the cells of a fresh terminal fit, and its cursor stands on the screen.
pub fresh_terminal :
    (t : Terminal) → IsWindow t → IsFitting (lib_terminal t) × IsPlaced (lib_terminal t)
fresh_terminal t window =
    let fresh = lib_terminal-IsFresh t in
    (
      fresh-IsFitting t (lib_terminal t) window fresh,
      fresh-IsPlaced t (lib_terminal t) window fresh,
    )

-- In a window of at least 136 columns and 16 lines of pixels, with sizes of 16 bits and less than 2
-- ^ 32 pixels, whose lines are as long as the window is wide or longer, and with a lib_font that
-- draws in the cell of a character only: after lib_terminal and a string of any bytes the cursor
-- stands on the screen with the pointer at its cell, and no word outside of the window was changed
-- since lib_terminal.
pub terminal_string-lib_terminal :
    (font : Font) (t : Terminal) (string : List ℕ)
    → Draws font
    → IsWindow t
    → IsPlaced (lib_terminal_string font (lib_terminal t) string)
      × ((i : ℕ)
          → Beyond (lib_terminal t) i
          → (lib_terminal_string font (lib_terminal t) string).pixels i ≡ (lib_terminal t).pixels i)
terminal_string-lib_terminal font t string draws window =
    let u = lib_terminal t in
    let (f, p) = fresh_terminal t window in
    (
      terminal_string-IsPlaced font u string p,
      λ i o. terminal_string_frame font draws u string i f p o,
    )
