-- ===== src/Library/Interface/Draw.antt =====
-- How library/shared/interface.c draws a window and its elements. The bytes of lib_font_matrix are the
-- argument `matrix`.
use fern_night.Prelude.{
  ℕ, zero, suc, ◌+◌, ◌-◌, ◌*◌, ◌/◌, ◌%◌, ◌^◌, bit_and, Option, none, some, List, take, ltb, leb,
  ◌==◌, if◌then◌else◌,
}
use fern_night.Library.Font.{
  lib_font, lib_font_length_string, roboto, align_left, align_center, align_right,
}
use fern_night.Library.Terminal.{fill_lines}
use fern_night.Library.Interface.{
  Element, Interface, origin, type_mmc_close, type_mmc_minimize, type_mmc_maximize, flag_hover,
}

abbrev pub color_background : ℕ
color_background = 0xFF141414

abbrev pub color_foreground : ℕ
color_foreground = 0xFFF5F5F5

-- `LIB_INTERFACE_ELEMENT_BUTTON_COLOR_background` and `..._light`
abbrev pub button_background : ℕ
button_background = 0xFF202020

abbrev pub button_background_light : ℕ
button_background_light = 0xFF282828

-- `LIB_INTERFACE_ELEMENT_MMC_CLOSE_COLOR_background_hover`
abbrev pub close_background : ℕ
close_background = 0xFF208020

-- `LIB_INTERFACE_HEADER_HEIGHT_pixel` and `LIB_INTERFACE_ELEMENT_MANAGEMENT_size`
abbrev pub header_height : ℕ
header_height = 22

abbrev pub management_size : ℕ
management_size = 10

-- `interface -> base_address + (y * interface -> width) + x`
abbrev pub pixel_of : Interface → ℕ → ℕ → ℕ
pixel_of s x y = (s.base_address + y * s.width + x + 2 ^ 62 - origin * s.width - origin) % 2 ^ 62

-- "limit string length": the length that fits, or `none` where the loop returns as it gets to 0.
unfoldable pub limit : ℕ → List ℕ → ℕ → Option ℕ
limit width name zero = some 0
limit width name (suc n) =
    let rest = if n == 0 then none else limit width name n in
    if ltb width (lib_font_length_string roboto (take (suc n) name)) then rest else some (suc n)

-- The pixels after lib_font, which is not called with more than 255 characters.
abbrev pub text : (ℕ → ℕ) → Interface → List ℕ → ℕ → ℕ → ℕ → ℕ → ℕ
text matrix s string color at align =
    elim (lib_font matrix roboto string color at s.width align s.pixels) [
      | none ↦ s.pixels
      | some (_, pixels) ↦ pixels
    ]

-- `left` words from `at` on, `step` words apart.
unfoldable pub spaced : ℕ → ℕ → ℕ → ℕ → (ℕ → ℕ) → ℕ → ℕ
spaced zero at step color pixels = pixels
spaced (suc left) at step color pixels =
    spaced left (at + step) step color (λ i. if i == at then color else pixels i)

unfoldable pub lib_interface_clean : Interface → Interface
lib_interface_clean s = record s {
  pixels = fill_lines s.height s.width s.width s.base_address color_background s.pixels;
}

-- "horizontal align of element content"
abbrev pub horizontal : Element → ℕ
horizontal o =
    (if bit_and o.flags align_center == 0 then 0 else o.width / 2)
    + (if bit_and o.flags align_right == 0 then 0 else o.width)

-- The element, whose length can be less, and the window.
unfoldable pub lib_interface_element_label : (ℕ → ℕ) → Interface → Element → Element × Interface
lib_interface_element_label matrix s o = elim (limit o.width o.name o.length) [
  | none ↦ (record o { length = 0 }, s)
  | some n ↦
      let at = pixel_of s o.x o.y in
      let t = record s {
        pixels = fill_lines o.height o.width s.width at color_background s.pixels;
      } in
      let lower = if ltb 16 o.height then (o.height - 16) / 2 * s.width else 0 in
      (
        record o { length = n },
        record t {
          pixels =
              text matrix t (take n o.name) color_foreground (at + lower + horizontal o) o.flags;
        },
      )
]

unfoldable pub lib_interface_element_button : (ℕ → ℕ) → Interface → Element → Element × Interface
lib_interface_element_button matrix s o =
    let at = pixel_of s o.x o.y in
    let background =
      if bit_and o.flags flag_hover == 0 then button_background else button_background_light in
    let t = record s { pixels = fill_lines o.height o.width s.width at background s.pixels } in
    let align = if leb 16 o.height then o.height - 16 else o.height in
    let padding = if bit_and o.flags align_left == 0 then 0 else 4 in
    elim (limit o.width o.name o.length) [
      | none ↦ (record o { length = 0 }, t)
      | some n ↦ (
        record o { length = n },
        record t {
          pixels =
              text matrix t (take n o.name) color_foreground
                (at + align / 2 * s.width + padding + horizontal o) o.flags;
        },
      )
    ]

-- The sign on a button of the header, at `at`.
unfoldable pub sign : ℕ → ℕ → ℕ → (ℕ → ℕ) → ℕ → ℕ
sign type line at pixels =
    let last = management_size * line in
    if type == type_mmc_minimize
    then spaced 11 (at + last) 1 color_foreground pixels
    else if type == type_mmc_maximize
    then spaced 11 (at + last) 1 color_foreground (
        spaced 11 (at + management_size) line color_foreground
          (spaced 11 at line color_foreground (spaced 11 at 1 color_foreground pixels)))
    else if type == type_mmc_close
    then spaced 11 (at + management_size) (line - 1) color_foreground
        (spaced 11 at (line + 1) color_foreground pixels)
    else pixels

unfoldable pub lib_interface_element_mmc : Interface → Element → Interface
lib_interface_element_mmc s o =
    let background =
      if bit_and o.flags flag_hover == 0
      then color_background
      else if o.type == type_mmc_close
      then close_background
      else button_background_light in
    let square = pixel_of s o.x origin in
    record s {
      pixels =
          sign o.type s.width (square + 6 * s.width + 6)
            (fill_lines header_height header_height s.width square background s.pixels);
    }
