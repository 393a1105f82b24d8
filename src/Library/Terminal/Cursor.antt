-- ===== src/Library/Terminal/Cursor.antt =====
-- The cursor of library/shared/terminal.c stays on the screen, and its pointer follows it.
use fern_night.Prelude.{
  ℕ, ◌+◌, ◌*◌, ◌%◌, ◌^◌, ◌≤◌, ◌<◌, ◌&&◌, List, [], ◌∷◌, leb, ◌==◌, if◌then◌else◌, ◌≡◌, arith,
  Bool-cases, inl, inr,
}
use fern_night.Library.Terminal.{
  Font, Terminal, font_height, lib_terminal_char_drain, lib_terminal_cursor_switch,
  lib_terminal_cursor_disable, lib_terminal_cursor_enable, lib_terminal_drain_line,
  lib_terminal_scroll_up, placed, wrapped, lib_terminal_cursor_set, printed, controlled, acted,
  lib_terminal_char, show_all, lib_terminal_string,
}

-- The address of the cell of a cursor position.
abbrev pub cell : Terminal → ℕ → ℕ → ℕ
cell t x y = t.base_address + (y * (t.scanline_pixel * font_height) + x * t.scanline_char) % 2 ^ 32

-- The cursor on a screen whose sizes leave room to the limits of their type, and the pointer at its
-- cell.
pub record IsPlaced (t : Terminal) : Type 0 where
  pub column : t.cursor_x ≤ t.width_char
  pub row : t.cursor_y ≤ t.height_char
  pub narrow : t.width_char + 8 < 2 ^ 16
  pub low : t.height_char + 2 < 2 ^ 16
  pub at_cell : t.pointer ≡ cell t t.cursor_x t.cursor_y

-- Terminals that differ in their pixels and their lock only.
pub record SameCursor (t u : Terminal) : Type 0 where
  pub same_width : u.width_char ≡ t.width_char
  pub same_height : u.height_char ≡ t.height_char
  pub same_base : u.base_address ≡ t.base_address
  pub same_line : u.scanline_pixel ≡ t.scanline_pixel
  pub same_char : u.scanline_char ≡ t.scanline_char
  pub same_x : u.cursor_x ≡ t.cursor_x
  pub same_y : u.cursor_y ≡ t.cursor_y
  pub same_pointer : u.pointer ≡ t.pointer

pub disable-SameCursor : (t : Terminal) → SameCursor t (lib_terminal_cursor_disable t)
unfolding lib_terminal_cursor_disable lib_terminal_cursor_switch
disable-SameCursor t = ground arith

pub enable-SameCursor : (t : Terminal) → SameCursor t (lib_terminal_cursor_enable t)
unfolding lib_terminal_cursor_enable lib_terminal_cursor_switch
enable-SameCursor t = ground arith

pub IsPlaced-SameCursor : (t u : Terminal) → SameCursor t u → IsPlaced t → IsPlaced u
IsPlaced-SameCursor t u s p = ground arith

-- Where the cursor may be before it is set: at most a tabulator to the right and one row below.
pub record IsNear (t : Terminal) : Type 0 where
  pub row : t.cursor_y ≤ t.height_char + 1
  pub corner : t.cursor_y ≡ t.height_char + 1 → t.cursor_x ≤ t.width_char
  pub narrow : t.width_char + 8 < 2 ^ 16
  pub low : t.height_char + 2 < 2 ^ 16

pub cursor_set-IsPlaced : (t : Terminal) → IsNear t → IsPlaced (lib_terminal_cursor_set t)
unfolding lib_terminal_cursor_set wrapped placed lib_terminal_scroll_up lib_terminal_drain_line
cursor_set-IsPlaced t n = ground arith

pub printed-IsNear :
    (font : Font) (t : Terminal) (ascii : ℕ) → IsPlaced t → IsNear (printed font t ascii)
unfolding printed lib_terminal_char_drain
printed-IsNear font t ascii p = ground arith

pub controlled-IsNear : (t : Terminal) (ascii : ℕ) → IsPlaced t → IsNear (controlled t ascii)
unfolding controlled
controlled-IsNear t ascii p = ground arith

pub drain-SameCursor : (t : Terminal) → SameCursor t (lib_terminal_char_drain t)
unfolding lib_terminal_char_drain
drain-SameCursor t = ground arith

pub acted-IsNear :
    (font : Font) (t : Terminal) (ascii : ℕ) → IsPlaced t → IsNear (acted font t ascii)
unfolding acted
acted-IsNear font t ascii p = elim (Bool-cases (leb 0x20 ascii && leb ascii 0x7F)) [
  | inl e ↦ rw e (printed-IsNear font t ascii p)
  | inr e ↦ rw e (controlled-IsNear t ascii p)
]

-- A character, whatever it is, leaves the cursor on the screen and the pointer at its cell.
pub char-IsPlaced :
    (font : Font) (t : Terminal) (ascii : ℕ)
    → IsPlaced t
    → IsPlaced (lib_terminal_char font t ascii)
unfolding lib_terminal_char
char-IsPlaced font t ascii p =
    let u = lib_terminal_cursor_disable t in
    let v = lib_terminal_cursor_set (acted font u ascii) in
    let q =
      cursor_set-IsPlaced (acted font u ascii)
        (acted-IsNear font u ascii (IsPlaced-SameCursor t u (disable-SameCursor t) p)) in
    let w = if ascii == 0x08 then lib_terminal_char_drain v else v in
    let drained : IsPlaced w = elim (Bool-cases (ascii == 0x08)) [
      | inl e ↦ rw e (IsPlaced-SameCursor v (lib_terminal_char_drain v) (drain-SameCursor v) q)
      | inr e ↦ rw e q
    ] in
    IsPlaced-SameCursor w (lib_terminal_cursor_enable w) (enable-SameCursor w) drained

pub show_all-IsPlaced :
    (font : Font) (t : Terminal) (string : List ℕ) → IsPlaced t → IsPlaced (show_all font t string)
unfolding show_all
show_all-IsPlaced font t [] p = p
show_all-IsPlaced font t (c ∷ string) p =
    show_all-IsPlaced font (lib_terminal_char font t c) string (char-IsPlaced font t c p)

-- Let the cursor stand on a screen whose sizes in characters leave room to the limits of their
-- type, and the pointer at its cell. After a string of any bytes the same is so, whatever lib_font
-- draws.
pub terminal_string-IsPlaced :
    (font : Font) (t : Terminal) (string : List ℕ)
    → IsPlaced t
    → IsPlaced (lib_terminal_string font t string)
unfolding lib_terminal_string
terminal_string-IsPlaced font t string p =
    let u = lib_terminal_cursor_disable t in
    let v = show_all font u string in
    IsPlaced-SameCursor v (lib_terminal_cursor_enable v) (enable-SameCursor v)
      (show_all-IsPlaced font u string (IsPlaced-SameCursor t u (disable-SameCursor t) p))
