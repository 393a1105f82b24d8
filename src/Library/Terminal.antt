-- ===== src/Library/Terminal.antt =====
-- library/shared/terminal.c: a screen of characters in the pixels of a window. Addresses of pixels
-- count words of 32 bits. lib_font, which draws a character, is the argument `font`: the pixels, the
-- address, the character, its colour and the length of a line give the new pixels.
pub mod Cursor
pub mod Bounds
pub mod Window
pub mod Frame
pub mod Start
pub mod Keeps
pub mod Value
use fern_night.Prelude.{
  ℕ, zero, suc, ◌+◌, ◌-◌, ◌*◌, ◌/◌, ◌%◌, ◌^◌, bit_and, bit_or, Bool, not, ◌&&◌, List, [], ◌∷◌, ltb,
  leb, ◌==◌, if◌then◌else◌,
}
use fern_night.Prelude.Machine.{add64}

-- `LIB_FONT_WIDTH_pixel` and `LIB_FONT_HEIGHT_pixel`
abbrev pub font_width : ℕ
font_width = 8

abbrev pub font_height : ℕ
font_height = 16

-- `LIBRARY_TERMINAL_TAB_length`
abbrev pub tab_length : ℕ
tab_length = 8

-- `LIBRARY_TERMINAL_FLAG_clean`
abbrev pub flag_clean : ℕ
flag_clean = 1

-- `struct LIB_TERMINAL_STRUCTURE`, and the words of memory.
pub record Terminal : Type 0 where
  pub width : ℕ
  pub height : ℕ
  pub base_address : ℕ
  pub scanline_pixel : ℕ
  pub scanline_line : ℕ
  pub pointer : ℕ
  pub color_foreground : ℕ
  pub color_background : ℕ
  pub alpha : ℕ
  pub flags : ℕ
  pub width_char : ℕ
  pub height_char : ℕ
  pub scanline_char : ℕ
  pub cursor_x : ℕ
  pub cursor_y : ℕ
  pub lock : ℕ
  pub pixels : ℕ → ℕ

abbrev pub Font : Type 0
Font = (ℕ → ℕ) → ℕ → ℕ → ℕ → ℕ → ℕ → ℕ

-- `color_background - (alpha << 24)` of 32 bits
pub background : Terminal → ℕ
background t = (t.color_background + 2 ^ 32 - t.alpha * 2 ^ 24 % 2 ^ 32) % 2 ^ 32

-- `left` words from `at` on, in one colour
pub fill_words : ℕ → ℕ → ℕ → (ℕ → ℕ) → ℕ → ℕ
fill_words zero at color pixels = pixels
fill_words (suc left) at color pixels =
    fill_words left (at + 1) color (λ i. if i == at then color else pixels i)

-- `left` lines of `count` words, the first at `at`, `scanline` words apart
pub fill_lines : ℕ → ℕ → ℕ → ℕ → ℕ → (ℕ → ℕ) → ℕ → ℕ
fill_lines zero count scanline at color pixels = pixels
fill_lines (suc left) count scanline at color pixels =
    fill_lines left count scanline (at + scanline) color (fill_words count at color pixels)

pub lib_terminal_char_drain : Terminal → Terminal
lib_terminal_char_drain t = record t {
  pixels = fill_lines font_height font_width t.scanline_pixel t.pointer (background t) t.pixels;
}

-- A pixel with its colour inverted and its alpha channel kept.
pub inverted : ℕ → ℕ
inverted pixel = pixel / 2 ^ 24 * 2 ^ 24 + (2 ^ 24 - 1 - pixel % 2 ^ 24)

-- `left` pixels below one another
pub invert_column : ℕ → ℕ → ℕ → (ℕ → ℕ) → ℕ → ℕ
invert_column zero scanline at pixels = pixels
invert_column (suc left) scanline at pixels =
    invert_column left scanline (at + scanline)
      (λ i. if i == at then inverted (pixels i) else pixels i)

pub lib_terminal_cursor_switch : Terminal → Terminal
lib_terminal_cursor_switch t = record t {
  pixels = invert_column font_height t.scanline_pixel t.pointer t.pixels;
}

pub lib_terminal_cursor_disable : Terminal → Terminal
lib_terminal_cursor_disable t =
    let locked = record t { lock = add64 t.lock 1 } in
    if locked.lock == 1 then lib_terminal_cursor_switch locked else locked

pub lib_terminal_cursor_enable : Terminal → Terminal
lib_terminal_cursor_enable t =
    let unlocked = record t { lock = t.lock - 1 } in
    if t.lock == 0
    then t
    else if unlocked.lock == 0
    then lib_terminal_cursor_switch unlocked
    else unlocked

pub lib_terminal_drain_line : Terminal → Terminal
lib_terminal_drain_line t = record t {
  pixels =
      fill_lines font_height t.width t.scanline_pixel
        (t.base_address + t.cursor_y * (t.scanline_pixel * font_height) % 2 ^ 32) (background t)
        t.pixels;
}

-- `left` words from `at` on, each taken from `distance` words further
pub move_words : ℕ → ℕ → ℕ → (ℕ → ℕ) → ℕ → ℕ
move_words zero at distance pixels = pixels
move_words (suc left) at distance pixels =
    move_words left (at + 1) distance (λ i. if i == at then pixels (i + distance) else pixels i)

pub lib_terminal_scroll_up : Terminal → Terminal
lib_terminal_scroll_up t = lib_terminal_drain_line (record t {
  pixels =
      move_words (t.height_char * t.scanline_line % 2 ^ 32) t.base_address t.scanline_line t.pixels;
})

-- "position the pointer to the cursor position", in 32 bits
pub placed : Terminal → Terminal
placed t = record t {
  pointer =
      t.base_address
      + (t.cursor_y * (t.scanline_pixel * font_height) + t.cursor_x * t.scanline_char) % 2 ^ 32;
}

-- "cursor outside the space to the right?"
pub wrapped : Terminal → Terminal
wrapped t =
    if ltb t.width_char t.cursor_x
    then record t { cursor_x = 0; cursor_y = (t.cursor_y + 1) % 2 ^ 16 }
    else t

pub lib_terminal_cursor_set : Terminal → Terminal
lib_terminal_cursor_set t =
    let u = wrapped t in
    if ltb u.height_char u.cursor_y
    then lib_terminal_scroll_up (placed (record u { cursor_y = u.cursor_y - 1 }))
    else placed u

pub lib_terminal_drain : Terminal → Terminal
lib_terminal_drain t =
    let u = lib_terminal_cursor_disable t in
    lib_terminal_cursor_enable (record u {
      pixels = fill_lines u.height u.width u.scanline_pixel u.base_address (background u) u.pixels;
      cursor_x = 0;
      cursor_y = 0;
      pointer = u.base_address;
    })

-- A `width_char` of 0 is a division by zero in C.
pub lib_terminal : Terminal → Terminal
lib_terminal t =
    let width_char = (t.width / font_width + 2 ^ 16 - 1) % 2 ^ 16 in
    lib_terminal_drain (
      lib_terminal_cursor_enable (record t {
        width_char = width_char;
        height_char = (t.height / font_height + 2 ^ 16 - 1) % 2 ^ 16;
        scanline_char = t.width / width_char;
        scanline_line = t.scanline_pixel * font_height % 2 ^ 32;
        cursor_x = 0;
        cursor_y = 0;
        pointer = t.base_address;
        lock = 1;
      }))

-- A character drawn, with the space under it cleared if that is asked for
pub printed : Font → Terminal → ℕ → Terminal
printed font t ascii =
    let u = if bit_and t.flags flag_clean == 0 then t else lib_terminal_char_drain t in
    record u {
      pixels = font u.pixels u.pointer ascii u.color_foreground u.scanline_pixel;
      cursor_x = (u.cursor_x + 1) % 2 ^ 16;
    }

-- The other characters: new line, return, backspace, tabulator.
pub controlled : Terminal → ℕ → Terminal
controlled t ascii =
    if ascii == 0x0A
    then record t { cursor_x = 0; cursor_y = (t.cursor_y + 1) % 2 ^ 16 }
    else if ascii == 0x0D
    then record t { cursor_x = 0 }
    else if ascii == 0x08
    then if t.cursor_x == 0
      then if t.cursor_y == 0
        then t
        else record t { cursor_y = t.cursor_y - 1; cursor_x = t.width_char }
      else record t { cursor_x = t.cursor_x - 1 }
    else if ascii == 0x09
    then record t { cursor_x = (t.cursor_x + (tab_length - t.cursor_x % tab_length)) % 2 ^ 16 }
    else t

-- "printable character?"
pub acted : Font → Terminal → ℕ → Terminal
acted font t ascii =
    if leb 0x20 ascii && leb ascii 0x7F then printed font t ascii else controlled t ascii

pub lib_terminal_char : Font → Terminal → ℕ → Terminal
lib_terminal_char font t ascii =
    let u = lib_terminal_cursor_disable t in
    let v = lib_terminal_cursor_set (acted font u ascii) in
    lib_terminal_cursor_enable (if ascii == 0x08 then lib_terminal_char_drain v else v)

pub show_all : Font → Terminal → List ℕ → Terminal
show_all font t [] = t
show_all font t (c ∷ string) = show_all font (lib_terminal_char font t c) string

pub lib_terminal_string : Font → Terminal → List ℕ → Terminal
lib_terminal_string font t string =
    lib_terminal_cursor_enable (show_all font (lib_terminal_cursor_disable t) string)
