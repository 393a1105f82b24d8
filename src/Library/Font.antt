-- ===== src/Library/Font.antt =====
-- library/shared/font.c: strings drawn in pixels. Addresses of pixels count words of 32 bits. The
-- bytes of lib_font_matrix, the pictures of the characters, are the argument `matrix`.
pub mod Frame
pub mod Screen
pub mod Tests
use fern_night.Prelude.{
  ℕ, zero, suc, ◌+◌, ◌-◌, ◌*◌, ◌/◌, ◌%◌, ◌^◌, bit_and, bit_or, Bool, true, false, not, ◌&&◌, ◌||◌,
  Option, none, some, List, [], ◌∷◌, length, get_or, replicate, ltb, leb, ◌==◌, if◌then◌else◌,
}
use fern_night.Library.Color.{lib_color_blend}

-- `LIB_FONT_ALIGN_left`, `_center` and `_right`
abbrev pub align_left : ℕ
align_left = 1

abbrev pub align_center : ℕ
align_center = 2

abbrev pub align_right : ℕ
align_right = 4

-- `LIB_FONT_FAMILY_ROBOTO_MONO` and `LIB_FONT_FAMILY_ROBOTO`
abbrev pub roboto_mono : ℕ
roboto_mono = 0

abbrev pub roboto : ℕ
roboto = 1

-- `LIB_FONT_MATRIX_width_pixel` and `_height_pixel`
abbrev pub matrix_width : ℕ
matrix_width = 1481

abbrev pub matrix_height : ℕ
matrix_height = 16

-- `LIB_FONT_FAMILY_ROBOTO_offset`
abbrev pub roboto_offset : ℕ
roboto_offset = 760

-- `LIB_FONT_FAMILY_ROBOTO_MONO_KERNING`
abbrev pub mono_kerning : ℕ
mono_kerning = 8

abbrev pub lib_font_family_roboto_kerning : List ℕ
lib_font_family_roboto_kerning =
    4 ∷ 4 ∷ 5 ∷ 9 ∷ 8 ∷ 11 ∷ 9 ∷ 3 ∷ 5 ∷ 5 ∷ 6 ∷ 9 ∷ 3 ∷ 4 ∷ 4 ∷ 6 ∷ 8 ∷ 8 ∷ 8 ∷ 8 ∷ 8 ∷ 8 ∷ 8 ∷ 8
    ∷ 8 ∷ 8 ∷ 4 ∷ 3 ∷ 8 ∷ 8 ∷ 8 ∷ 7 ∷ 13 ∷ 10 ∷ 9 ∷ 10 ∷ 10 ∷ 9 ∷ 8 ∷ 10 ∷ 11 ∷ 4 ∷ 8 ∷ 9 ∷ 8 ∷ 13
    ∷ 11 ∷ 10 ∷ 9 ∷ 10 ∷ 9 ∷ 9 ∷ 9 ∷ 10 ∷ 10 ∷ 13 ∷ 9 ∷ 9 ∷ 9 ∷ 4 ∷ 6 ∷ 4 ∷ 6 ∷ 7 ∷ 5 ∷ 8 ∷ 8 ∷ 8
    ∷ 8 ∷ 8 ∷ 5 ∷ 8 ∷ 8 ∷ 4 ∷ 4 ∷ 8 ∷ 4 ∷ 13 ∷ 8 ∷ 9 ∷ 8 ∷ 9 ∷ 5 ∷ 8 ∷ 5 ∷ 8 ∷ 7 ∷ 11 ∷ 7 ∷ 7 ∷ 7
    ∷ 5 ∷ 4 ∷ 5 ∷ 10 ∷ []

abbrev pub kerning : ℕ → ℕ
kerning character = get_or lib_font_family_roboto_kerning character 0

-- The loop from `i` on, for the characters that are left.
pub offset_from : ℕ → ℕ → ℕ → ℕ → ℕ
offset_from zero font i offset = offset
offset_from (suc left) font i offset =
    let mono = if font == roboto_mono then offset + mono_kerning else offset in
    offset_from left font (i + 1) (if font == roboto then mono + kerning i else mono)

pub lib_font_offset : ℕ → ℕ → ℕ
lib_font_offset font character = offset_from character font 0 0

unfoldable pub lib_font_length_char : ℕ → ℕ → ℕ
lib_font_length_char font character = if font == roboto then kerning character else mono_kerning

-- "move pointer of matrix array to selected character"
pub picture : ℕ → ℕ → ℕ
picture font character =
    (if font == roboto then roboto_offset else 0) + lib_font_offset font character

-- `(color & 0x00FFFFFF) | matrix[ ... ] << 24`
pub tinted : ℕ → ℕ → ℕ
tinted color alpha = bit_or (bit_and color 0x00FFFFFF) (alpha * 2 ^ 24 % 2 ^ 32)

-- `left` pixels of a row from `x` on; the row starts at `at` in the pixels and at `from` in the matrix.
unfoldable pub draw_row : (ℕ → ℕ) → ℕ → ℕ → ℕ → ℕ → ℕ → (ℕ → ℕ) → ℕ → ℕ
draw_row matrix zero from at color x pixels = pixels
draw_row matrix (suc left) from at color x pixels = draw_row matrix left from at color (x + 1) (λ i.
    if i == at + x && not (matrix (from + x) == 0)
    then lib_color_blend (pixels i) (tinted color (matrix (from + x)))
    else pixels i)

-- `left` rows from `y` on.
unfoldable pub draw_rows : (ℕ → ℕ) → ℕ → ℕ → ℕ → ℕ → ℕ → ℕ → ℕ → (ℕ → ℕ) → ℕ → ℕ
draw_rows matrix zero width from at color line y pixels = pixels
draw_rows matrix (suc left) width from at color line y pixels =
    draw_rows matrix left width from at color line (y + 1)
      (draw_row matrix width (from + y * matrix_width) (at + y * line) color 0 pixels)

-- The pixels and the width.
unfoldable pub lib_font_char : (ℕ → ℕ) → ℕ → ℕ → ℕ → ℕ → ℕ → (ℕ → ℕ) → (ℕ → ℕ) × ℕ
lib_font_char matrix font line at character color pixels =
    let width = lib_font_length_char font character in
    (draw_rows matrix matrix_height width (picture font character) at color line 0 pixels, width)

-- "apply matrix offset of character if is printable", with the width so far
unfoldable pub width_from : List ℕ → ℕ → ℕ
width_from [] width = width
width_from (c ∷ string) width =
    let rest = width_from string (width + kerning (c - 0x20)) in
    if leb 0x20 c && leb c 0x7E then rest else 0

unfoldable pub lib_font_length_string : ℕ → List ℕ → ℕ
lib_font_length_string font string =
    if font == roboto then width_from string 0 else length string * mono_kerning

-- "print all characters from string"
unfoldable pub print_all : (ℕ → ℕ) → ℕ → ℕ → ℕ → ℕ → List ℕ → (ℕ → ℕ) → ℕ → ℕ
print_all matrix font line at color [] pixels = pixels
print_all matrix font line at color (c ∷ string) pixels =
    let (drawn, width) =
      lib_font_char matrix font line at ((c + 0x100 - 0x20) % 2 ^ 8) color pixels in
    print_all matrix font line (at + width) color string drawn

-- "move pointer of destination according of alignment"
unfoldable pub aligned : ℕ → ℕ → ℕ → ℕ
aligned align width at =
    let centred =
      if not (bit_and align align_center == 0) then (at + 2 ^ 62 - width / 2) % 2 ^ 62 else at in
    if not (bit_and align align_right == 0) then (centred + 2 ^ 62 - width) % 2 ^ 62 else centred

-- The width and the pixels; with more than 255 characters the 8-bit index never gets to the end.
unfoldable pub lib_font : (ℕ → ℕ) → ℕ → List ℕ → ℕ → ℕ → ℕ → ℕ → (ℕ → ℕ) → Option (ℕ × (ℕ → ℕ))
lib_font matrix font string color at line align pixels =
    let width = lib_font_length_string font string in
    if width == 0
    then some (0, pixels)
    else if ltb 255 (length string)
    then none
    else some (width, print_all matrix font line (aligned align width at) color string pixels)

-- The characters in front of those that were stored; a value of 64 bits has at most 64 digits.
unfoldable pub value_digits : ℕ → ℕ → ℕ → List ℕ → List ℕ
value_digits zero value base string = string
value_digits (suc fuel) value base string =
    let digit = bit_or (value % base) 0x30 in
    let rest =
      value_digits fuel (value / base) base
        ((if ltb 0x39 digit then digit + 7 else digit) ∷ string) in
    if value == 0 then string else rest

unfoldable pub lib_font_value : (ℕ → ℕ) → ℕ → ℕ → ℕ → ℕ → ℕ → ℕ → ℕ → (ℕ → ℕ) → Option (ℕ × (ℕ → ℕ))
lib_font_value matrix font value base color at line align pixels =
    let string = if value == 0 then 0x30 ∷ [] else value_digits 64 value base [] in
    if ltb base 2 || ltb 36 base
    then some (0, pixels)
    else lib_font matrix font string color at line align pixels
