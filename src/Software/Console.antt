-- ===== src/Software/Console.antt =====
-- software/console.c: what the console does with the bytes that the programs send to it. Sequences of
-- characters after "^[" rename the window, change the colours, clear the terminal or move its cursor;
-- all other bytes are shown by the terminal.
pub mod Sound
pub mod Steps
pub mod Stream
pub mod Tests
use fern_night.Prelude.{
  ℕ, zero, suc, ◌+◌, ◌-◌, ◌%◌, ◌^◌, bit_and, bit_or, Bool, true, false, not, ◌&&◌, Option, none,
  some, List, [], ◌∷◌, ◌++◌, take, drop, min, get_or, ltb, ◌==◌, if◌then◌else◌, ◌>>=◌,
}
use fern_night.Library.Font.Screen.{terminal_font}
use fern_night.Library.Interface.{Interface}
use fern_night.Library.Interface.Hover.{lib_interface_name}
use fern_night.Library.Terminal.{
  Terminal, flag_clean, lib_terminal_cursor_disable, lib_terminal_cursor_enable,
  lib_terminal_cursor_set, lib_terminal_drain, lib_terminal_drain_line, lib_terminal_char,
}

-- The variables of the console that the stream changes. The window of the terminal and the one of the
-- interface, with the header, are parts of one memory: its words are the `pixels` of the terminal.
-- `requests` are the names that the window manager was asked to give to the window, the last one first.
pub record Console : Type 0 where
  pub terminal : Terminal
  pub cursor_x : ℕ
  pub cursor_y : ℕ
  pub interface : Interface
  pub requests : List (List ℕ)

-- `WM_OBJECT_NAME_length`, and `LIB_INTERFACE_NAME_length + 1`, the size of the array for the name
abbrev pub request_limit : ℕ
request_limit = 38

abbrev pub name_size : ℕ
name_size = 39

abbrev pub console_colors : List ℕ
console_colors =
    0xFF000000 ∷ 0xFF1947B0 ∷ 0xFF19B04F ∷ 0xFF7AC5CD ∷ 0xFFB01921 ∷ 0xFFDF1FFF ∷ 0xFFA300FF
    ∷ 0xFFBFBFBF ∷ 0xFF5D5D5D ∷ 0xFF2668FF ∷ 0xFF26FF73 ∷ 0xFFDC7CFF ∷ 0xFFFF2430 ∷ 0xFFA33EFF
    ∷ 0xFFD9E385 ∷ 0xFFFEFEFE ∷ []

-- `STATIC_SEQUENCE_LENGTH`
abbrev pub sequence_length : ℕ
sequence_length = 4

-- "number of characters for name of window", with the 8-bit counter: `none` where the loop does not
-- end, as it reads the same 256 characters again and again.
unfoldable pub name_length : ℕ → (ℕ → ℕ) → ℕ → ℕ → Option ℕ
name_length zero stream at n = none
name_length (suc left) stream at n =
    let rest = name_length left stream at (n + 1) in
    if stream (at + n) == b']' then some n else rest

-- `left` characters of the name, from `at` on
unfoldable pub name_from : ℕ → (ℕ → ℕ) → ℕ → List ℕ
name_from zero stream at = []
name_from (suc left) stream at = stream at ∷ name_from left stream (at + 1)

-- "get the color number", and the entry of the table; `behind` is what the memory holds behind it.
unfoldable pub color_of : (ℕ → ℕ) → ℕ → ℕ
color_of behind character =
    let c = (character + 2 ^ 8 - b'0') % 2 ^ 8 in
    let index = if ltb 9 c then c - 7 else c in get_or console_colors index (behind index)

abbrev pub with_terminal : Console → Terminal → Console
with_terminal s t = record s { terminal = t }

-- "color change?"
unfoldable pub recolored : (ℕ → ℕ) → Console → ℕ → ℕ → Console
recolored behind s back fore =
    let t = s.terminal in
    let u = if back == b'*' then t else record t { color_background = color_of behind back } in
    with_terminal s
      (if fore == b'*' then u else record u { color_foreground = color_of behind fore })

-- "clear functions?"
unfoldable pub cleared : Console → ℕ → Console
cleared s operation =
    let t = s.terminal in
    if operation == b'0'
    then with_terminal s (lib_terminal_drain t)
    else if operation == b'1'
    then with_terminal s (lib_terminal_drain_line t)
    else if operation == b'2'
    then with_terminal s (record t { flags = bit_or t.flags flag_clean })
    else if operation == b'3'
    then with_terminal s (record t { flags = bit_and t.flags (2 ^ 8 - 1 - flag_clean) })
    else s

-- The cursor at another position.
unfoldable pub at_position : Console → ℕ → ℕ → Console
at_position s x y =
    with_terminal s (lib_terminal_cursor_set (record (s.terminal) { cursor_x = x; cursor_y = y }))

-- "cursor position manipulation"
unfoldable pub moved : Console → ℕ → Console
moved s operation =
    let t = s.terminal in
    if operation == b'0'
    then at_position s 0 0
    else if operation == b'1'
    then with_terminal s (lib_terminal_cursor_enable t)
    else if operation == b'2'
    then with_terminal s (lib_terminal_cursor_disable t)
    else if operation == b'3'
    then record s { cursor_x = t.cursor_x; cursor_y = t.cursor_y }
    else if operation == b'4'
    then at_position s s.cursor_x s.cursor_y
    else if operation == b'5'
    then at_position s t.cursor_x (t.cursor_y - 1)
    else if operation == b'6'
    then at_position s t.cursor_x ((t.cursor_y + 1) % 2 ^ 16)
    else if operation == b'7'
    then at_position s (t.cursor_x - 1) t.cursor_y
    else if operation == b'8'
    then at_position s ((t.cursor_x + 1) % 2 ^ 16) t.cursor_y
    else s

-- "update inteface properties", "rename the window" and "request window rename", for a name of `n` bytes
-- that the array has room for
unfoldable pub with_name : (ℕ → ℕ) → Console → List ℕ → ℕ → Console
with_name matrix s name n =
    let v = lib_interface_name matrix (record (s.interface) {
      name = name ++ drop n s.interface.name;
      length = n;
      pixels = s.terminal.pixels;
    }) in
    record s {
      terminal = record (s.terminal) { pixels = v.pixels };
      interface = v;
      requests = take (min n request_limit) v.name ∷ s.requests;
    }

-- "modify window header?"; the name is not taken over where the console has no window (`master`).
-- `none`: the bracket is missing, or the name is written behind its array, over the other properties of
-- the interface.
unfoldable pub renamed : (ℕ → ℕ) → Bool → Console → (ℕ → ℕ) → ℕ → Option (Console × ℕ)
renamed matrix master s stream i = do
  n ← name_length 256 stream (i + 3) 0
  t ←
      (if master
        then some s
        else if ltb name_size n
        then none
        else some (with_name matrix s (name_from n stream (i + 3)) n))
  some (t, i + sequence_length + n)

-- The characters at `i`: the console, and the next position. `matrix` has the pictures of the font.
unfoldable pub step : (ℕ → ℕ) → (ℕ → ℕ) → Bool → Console → (ℕ → ℕ) → ℕ → Option (Console × ℕ)
step matrix behind master s stream i =
    let is_sequence = stream i == b'^' && stream (i + 1) == b'[' in
    let kind = stream (i + 2) in
    let shown =
      some
        (with_terminal s (lib_terminal_char (terminal_font matrix) s.terminal (stream i)), i + 1) in
    if not is_sequence
    then shown
    else if kind == b'h'
    then renamed matrix master s stream i
    else if kind == b'c'
    then some (recolored behind s (stream (i + 3)) (stream (i + 4)), i + sequence_length + 1)
    else if kind == b't' && stream (i + 3) == b'0'
    then some (cleared s (stream (i + 4)), i + sequence_length + 1)
    else if kind == b't' && stream (i + 3) == b'2'
    then some (moved s (stream (i + 4)), i + sequence_length + 1)
    else shown

-- "parse all characters from stream", on fuel
unfoldable pub parse : ℕ → (ℕ → ℕ) → (ℕ → ℕ) → Bool → Console → (ℕ → ℕ) → ℕ → ℕ → Option Console
parse zero matrix behind master s stream length i = if ltb i length then none else some s
parse (suc fuel) matrix behind master s stream length i =
    let rest = step matrix behind master s stream i >>= λ (t, j).
    parse fuel matrix behind master t stream length j in
    if ltb i length then rest else some s

-- A round of the main loop with `length` bytes, which are more than none; in every round at least one
-- byte is done.
unfoldable pub receive : (ℕ → ℕ) → (ℕ → ℕ) → Bool → Console → (ℕ → ℕ) → ℕ → Option Console
receive matrix behind master s stream length = do
  t ←
      parse length matrix behind master (with_terminal s (lib_terminal_cursor_disable s.terminal))
        stream length 0
  some (with_terminal t (lib_terminal_cursor_enable t.terminal))
