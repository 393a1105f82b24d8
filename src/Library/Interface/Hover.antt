-- ===== src/Library/Interface/Hover.antt =====
-- The pointer over the elements of a window, the event of the mouse, and a window drawn as a whole.
pub mod Kept
pub mod Marks
use fern_night.Prelude.{
  ℕ, zero, suc, ◌+◌, ◌-◌, ◌*◌, ◌/◌, ◌%◌, ◌^◌, ◌<◌, min, max, bit_and, bit_or, Bool, true, false,
  not, ◌&&◌, ◌||◌, ◌≡◌, ◌≢◌, refl, sym, ap, ap₂, ◌∙◌, Option, none, some, List, [], ◌∷◌, take, ltb,
  leb, ◌==◌, if◌then◌else◌, Bool-cases, Option-cases, inl, inr, arith,
}
use fern_night.Prelude.Bits.{
  bit_at, bit_at-lt, bit_at-bit_and, bit_at-bit_or, bit_at-pow_self, bit_at-pow_ne,
  bit_at-complement, bit_and-pow,
}
use fern_night.Library.Interface.{
  Element, Interface, type_label, type_button, type_mmc_close, type_mmc_minimize, type_mmc_maximize,
  flag_hover, flag_flush, is_under, click_all,
}
use fern_night.Library.Terminal.{fill_lines}
use fern_night.Library.Font.{align_left}
use fern_night.Library.Interface.Draw.{
  limit, text, color_background, header_height, lib_interface_element_label,
  lib_interface_element_button, lib_interface_element_mmc,
}

abbrev pub is_mmc : Element → Bool
is_mmc o = o.type == type_mmc_close || (o.type == type_mmc_maximize || o.type == type_mmc_minimize)

-- "redraw element inside object"
unfoldable pub redrawn : (ℕ → ℕ) → Interface → Element → Element × Interface
redrawn matrix s o =
    if is_mmc o
    then (o, lib_interface_element_mmc s o)
    else if o.type == type_button
    then lib_interface_element_button matrix s o
    else (o, s)

-- "mark as hovered", "mark as not hovered"
unfoldable pub hover_flags : Interface → Element → ℕ
hover_flags s o =
    if is_under s o then bit_or o.flags flag_hover else bit_and o.flags (0xFF - flag_hover)

-- One element, with the pixels and the flags of the window.
unfoldable pub hover : (ℕ → ℕ) → Interface → Element → Element × Interface
hover matrix s o =
    let (p, t) = redrawn matrix s (record o { flags = hover_flags s o }) in
    if hover_flags s o == o.flags
    then (o, s)
    else (p, record t { flags = bit_or t.flags flag_flush })

-- "check every element of interface", for those that are left
unfoldable pub hover_all : (ℕ → ℕ) → Interface → List Element → List Element × Interface
hover_all matrix s [] = ([], s)
hover_all matrix s (o ∷ elements) =
    let (p, t) = hover matrix s o in let (later, u) = hover_all matrix t elements in (p ∷ later, u)

unfoldable pub lib_interface_hover : (ℕ → ℕ) → Interface → Interface
lib_interface_hover matrix s =
    let (elements, t) = hover_all matrix s s.elements in record t { elements = elements }

-- The functions that are called; `message` is the status of the mouse that was received, if any.
unfoldable pub lib_interface_event : (ℕ → ℕ) → Interface → Option ℕ → List ℕ × Interface
lib_interface_event matrix s none = ([], lib_interface_hover matrix s)
lib_interface_event matrix s (some status) =
    let (called, t) = click_all s s.elements in
    if bit_and status 1 == 0
    then ([], lib_interface_hover matrix s)
    else (called, lib_interface_hover matrix t)

-- What lib_interface_draw does at an element; lists are not modelled.
unfoldable pub drawn : (ℕ → ℕ) → Interface → Element → Element × Interface
drawn matrix s o =
    if is_mmc o
    then (o, lib_interface_element_mmc s o)
    else if o.type == type_label
    then lib_interface_element_label matrix s o
    else if o.type == type_button
    then lib_interface_element_button matrix s o
    else (o, s)

unfoldable pub draw_all : (ℕ → ℕ) → Interface → List Element → List Element × Interface
draw_all matrix s [] = ([], s)
draw_all matrix s (o ∷ elements) =
    let (p, t) = drawn matrix s o in let (later, u) = draw_all matrix t elements in (p ∷ later, u)

unfoldable pub lib_interface_draw : (ℕ → ℕ) → Interface → Interface
lib_interface_draw matrix s =
    let (elements, t) = draw_all matrix s s.elements in record t { elements = elements }

-- The name in the header; the sums are of 64 bits.
unfoldable pub lib_interface_name : (ℕ → ℕ) → Interface → Interface
lib_interface_name matrix s =
    let buttons = header_height * s.mmc_length in
    elim (limit ((s.width + 2 ^ 64 - 7 - buttons) % 2 ^ 64) s.name s.length) [
      | none ↦ record s { length = 0 }
      | some n ↦
          let columns = (s.width + 2 ^ 64 - 1 - buttons) % 2 ^ 64 - 1 in
          let cleared =
            fill_lines 20 columns s.width (s.base_address + s.width + 1) color_background
              s.pixels in
          let t = record s { length = n; pixels = cleared } in
          record t {
            pixels =
                text matrix t (take n s.name) 0xFFFEFEFE (s.base_address + 3 * s.width + 5)
                  align_left;
          }
    ]
