-- ===== src/Library/Font/Screen.antt =====
-- The terminal with lib_font as the font.
use native.Mathlib.Nat.{mul-le-mul_right}
use fern_night.Prelude.{ℕ, ◌+◌, ◌*◌, ◌<◌, ◌≤◌, none, some, List, [], ◌∷◌, ◌≡◌, arith}
use fern_night.Library.Font.{lib_font, lib_font_length_string, aligned, roboto_mono, align_left}
use fern_night.Library.Font.Frame.{print_all_frame, drawn_width_mono}
use fern_night.Library.Terminal.{Font, Terminal, lib_terminal, lib_terminal_string}
use fern_night.Library.Terminal.Cursor.{IsPlaced}
use fern_night.Library.Terminal.Window.{Draws, Beyond}
use fern_night.Library.Terminal.Bounds.{Outside}
use fern_night.Library.Terminal.Start.{IsWindow, terminal_string-lib_terminal}

-- lib_font as terminal.c calls it.
abbrev pub terminal_font : (ℕ → ℕ) → Font
terminal_font matrix pixels at ascii color line =
    elim (lib_font matrix roboto_mono (ascii ∷ []) color at line align_left pixels) [
      | none ↦ pixels
      | some (_, drawn) ↦ drawn
    ]

-- A word outside of all words from the first row to the last one is beside each row.
pub off_row :
    (at line width i y : ℕ)
    → y < 16
    → Outside at (at + 15 * line + width) i
    → Outside (at + y * line) (at + y * line + width) i
off_row at line width i y l o =
    let e : y * line ≤ 15 * line = mul-le-mul_right line (omega (arith, l)) in ground (arith, e)

pub terminal_font-Draws : (matrix : ℕ → ℕ) → Draws (terminal_font matrix)
unfolding lib_font aligned lib_font_length_string
terminal_font-Draws matrix pixels at ascii color line i o =
    print_all_frame matrix roboto_mono line at color (ascii ∷ []) pixels i
      (λ y l. rw (drawn_width_mono (ascii ∷ [])) (off_row at line 8 i y l o))

-- In a window of at least 136 columns and 16 lines of pixels, with sizes of 16 bits and less than
-- 2 ^ 32 pixels, whose lines are as long as the window is wide or longer, and with lib_font, whatever
-- the pictures of its characters are: after lib_terminal and a string of any bytes the cursor stands
-- on the screen with the pointer at its cell, and no word outside of the window was changed since
-- lib_terminal.
pub terminal_string-lib_font :
    (matrix : ℕ → ℕ) (t : Terminal) (string : List ℕ)
    → IsWindow t
    → IsPlaced (lib_terminal_string (terminal_font matrix) (lib_terminal t) string)
      × ((i : ℕ)
          → Beyond (lib_terminal t) i
          → (lib_terminal_string (terminal_font matrix) (lib_terminal t) string).pixels i
            ≡ (lib_terminal t).pixels i)
terminal_string-lib_font matrix t string window =
    terminal_string-lib_terminal (terminal_font matrix) t string (terminal_font-Draws matrix) window
