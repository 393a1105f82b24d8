-- ===== src/Library/Interface.antt =====
-- library/shared/interface.c: the elements of a window, how they are drawn and what a click on them
-- does. Coordinates of int16_t have 2 ^ 15 added; addresses of pixels count words of 32 bits. The
-- elements, which stand one behind another up to one of type null, are a list.
pub mod Draw
pub mod Hover
pub mod Header
pub mod Tests
use fern_night.Prelude.{
  ℕ, zero, suc, ◌+◌, ◌-◌, ◌*◌, ◌/◌, ◌%◌, ◌^◌, bit_and, bit_or, Bool, true, false, not, ◌&&◌, ◌||◌,
  Option, none, some, List, [], ◌∷◌, ◌++◌, ltb, leb, ◌==◌, if◌then◌else◌,
}

abbrev pub origin : ℕ
origin = 2 ^ 15

-- `LIB_INTERFACE_ELEMENT_TYPE_...`
abbrev pub type_label : ℕ
type_label = 2

abbrev pub type_button : ℕ
type_button = 3

abbrev pub type_mmc_close : ℕ
type_mmc_close = 4

abbrev pub type_mmc_minimize : ℕ
type_mmc_minimize = 5

abbrev pub type_mmc_maximize : ℕ
type_mmc_maximize = 6

-- `LIB_INTERFACE_ELEMENT_FLAG_hover`
abbrev pub flag_hover : ℕ
flag_hover = 0x10

-- `WM_DESCRIPTOR_FLAG_flush` and `WM_DESCRIPTOR_FLAG_minimize`
abbrev pub flag_flush : ℕ
flag_flush = 0x01

abbrev pub flag_minimize : ℕ
flag_minimize = 0x02

-- `struct LIB_INTERFACE_STRUCTURE_ELEMENT` and what labels and buttons have besides; `event` is 0
-- where there is no function.
pub record Element : Type 0 where
  pub type : ℕ
  pub event : ℕ
  pub flags : ℕ
  pub id : ℕ
  pub x : ℕ
  pub y : ℕ
  pub width : ℕ
  pub height : ℕ
  pub length : ℕ
  pub name : List ℕ

-- `struct LIB_INTERFACE_STRUCTURE` with the descriptor of its window, and the words of memory.
pub record Interface : Type 0 where
  pub elements : List Element
  pub length : ℕ
  pub name : List ℕ
  pub width : ℕ
  pub height : ℕ
  pub base_address : ℕ
  pub mmc_length : ℕ
  pub flags : ℕ
  pub pointer_x : ℕ
  pub pointer_y : ℕ
  pub pixels : ℕ → ℕ

-- "cursor overlaps this element?"
unfoldable pub is_under : Interface → Element → Bool
is_under s o =
    leb o.x (s.pointer_x + origin)
    && leb o.y (s.pointer_y + origin)
    && ltb (s.pointer_x + origin) (o.x + o.width)
    && ltb (s.pointer_y + origin) (o.y + o.height)

-- The first element with the number; `none` where the source returns EMPTY.
unfoldable pub lib_interface_element_by_id : List Element → ℕ → Option Element
lib_interface_element_by_id [] id = none
lib_interface_element_by_id (o ∷ elements) id =
    if o.id == id then some o else lib_interface_element_by_id elements id

-- What a click does at an element: the functions that are called, and the flags of the window.
unfoldable pub click : Interface → Element → List ℕ × ℕ
click s o =
    if not (is_under s o)
    then ([], s.flags)
    else if o.type == type_mmc_close || o.type == type_button
    then ((if o.event == 0 then [] else o.event ∷ []), s.flags)
    else if o.type == type_mmc_minimize
    then ([], bit_or s.flags flag_minimize)
    else ([], s.flags)

-- "check which element is under cursor position", for the elements that are left. A function that is
-- called is the program's and is only told here.
unfoldable pub click_all : Interface → List Element → List ℕ × Interface
click_all s [] = ([], s)
click_all s (o ∷ elements) =
    let (called, flags) = click s o in
    let (later, t) = click_all (record s { flags = flags }) elements in (called ++ later, t)
