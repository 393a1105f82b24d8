-- ===== src/Library/Terminal/Keeps.antt =====
-- Operations of library/shared/terminal.c that keep the cursor on the screen and to the window.
use fern_night.Prelude.{ℕ, zero, suc, ◌+◌, ◌*◌, ◌≤◌, ◌≡◌, refl, arith}
use fern_night.Library.Terminal.{
  Font, Terminal, font_height, background, lib_terminal_cursor_disable, lib_terminal_cursor_enable,
  lib_terminal_cursor_set, lib_terminal_drain, lib_terminal_drain_line, lib_terminal_char,
  fill_lines,
}
use fern_night.Library.Terminal.Bounds.{Outside, fill_lines_frame}
use fern_night.Library.Terminal.Cursor.{
  IsPlaced, IsNear, disable-SameCursor, enable-SameCursor, IsPlaced-SameCursor, cursor_set-IsPlaced,
  char-IsPlaced,
}
use fern_night.Library.Terminal.Window.{
  IsFitting, SameWindow, Draws, SameWindow-refl, SameWindow-trans, IsFitting-SameWindow,
  disable-SameWindow, enable-SameWindow,
}
use fern_night.Library.Terminal.Frame.{
  char-SameWindow, drain_line-SameWindow, cursor_set-SameWindow,
}

-- An operation that keeps the cursor on the screen and to the window.
pub record Keeps (t u : Terminal) : Type 0 where
  pub window : SameWindow t u
  pub placed : IsPlaced u

pub Keeps-refl : (t : Terminal) → IsPlaced t → Keeps t t
Keeps-refl t p = record { window = SameWindow-refl t; placed = p }

pub Keeps-trans : (t u v : Terminal) → Keeps t u → Keeps u v → Keeps t v
Keeps-trans t u v a b = record {
  window = SameWindow-trans t u v a.window b.window;
  placed = b.placed;
}

-- Lines of pixels that are filled in a window of as many lines.
filled_frame :
    (height width line at color : ℕ) (pixels : ℕ → ℕ)
    → width ≤ line
    → (i : ℕ) → Outside at (at + line * height) i
    → fill_lines height width line at color pixels i ≡ pixels i
unfolding fill_lines
filled_frame zero width line at color pixels l i o = refl
filled_frame (suc left) width line at color pixels l i o =
    let e : line * suc left ≡ left * line + line = grind arith in
    fill_lines_frame left width line at color pixels i (ground (arith, e))

no_rows : (n : ℕ) → 0 * n ≡ 0
no_rows n = omega arith

module _ (t : Terminal) (f : IsFitting t) (p : IsPlaced t) where
  pub disable-Keeps : Keeps t (lib_terminal_cursor_disable t)
  disable-Keeps = record {
    window = disable-SameWindow t f p;
    placed = IsPlaced-SameCursor t (lib_terminal_cursor_disable t) (disable-SameCursor t) p;
  }

  pub enable-Keeps : Keeps t (lib_terminal_cursor_enable t)
  enable-Keeps = record {
    window = enable-SameWindow t f p;
    placed = IsPlaced-SameCursor t (lib_terminal_cursor_enable t) (enable-SameCursor t) p;
  }

  pub char-Keeps : (font : Font) (c : ℕ) → Draws font → Keeps t (lib_terminal_char font t c)
  char-Keeps font c draws = record {
    window = char-SameWindow font draws t c f p;
    placed = char-IsPlaced font t c p;
  }

  pub drain_line-Keeps : Keeps t (lib_terminal_drain_line t)
  unfolding lib_terminal_drain_line
  drain_line-Keeps = record { window = drain_line-SameWindow t f p.row; placed = omega arith }

  -- Colours and flags
  pub colored-Keeps :
      (back fore flags : ℕ)
      → Keeps t (record t { color_background = back; color_foreground = fore; flags = flags })
  colored-Keeps back fore flags = record {
    window = record {
      same_width = refl;
      same_height = refl;
      same_columns = refl;
      same_rows = refl;
      same_base = refl;
      same_line = refl;
      same_lines = refl;
      same_char = refl;
      frame = λ i o. refl;
    };
    placed = omega arith;
  }

  -- The cursor near the screen, before it is set.
  pub set-Keeps :
      (x y : ℕ)
      → y ≤ t.height_char + 1
      → (y ≡ t.height_char + 1 → x ≤ t.width_char)
      → Keeps t (lib_terminal_cursor_set (record t { cursor_x = x; cursor_y = y }))
  set-Keeps x y row corner =
      let u = record t { cursor_x = x; cursor_y = y } in
      let near : IsNear u = record { row = row; corner = corner; narrow = p.narrow; low = p.low } in
      let same : SameWindow t u = record {
        same_width = refl;
        same_height = refl;
        same_columns = refl;
        same_rows = refl;
        same_base = refl;
        same_line = refl;
        same_lines = refl;
        same_char = refl;
        frame = λ i o. refl;
      } in
      record {
        window =
            SameWindow-trans t u (lib_terminal_cursor_set u) same
              (cursor_set-SameWindow u (IsFitting-SameWindow t u same f) near);
        placed = cursor_set-IsPlaced u near;
      }

  -- The pixels of the whole window, and the cursor in its corner.
  emptied-Keeps : Keeps t (record t {
    pixels = fill_lines t.height t.width t.scanline_pixel t.base_address (background t) t.pixels;
    cursor_x = 0;
    cursor_y = 0;
    pointer = t.base_address;
  })
  emptied-Keeps = record {
    window = record {
      same_width = refl;
      same_height = refl;
      same_columns = refl;
      same_rows = refl;
      same_base = refl;
      same_line = refl;
      same_lines = refl;
      same_char = refl;
      frame =
          filled_frame t.height t.width t.scanline_pixel t.base_address (background t) t.pixels
            f.lines;
    };
    placed = record {
      column = omega arith;
      row = omega arith;
      narrow = p.narrow;
      low = p.low;
      at_cell = omega (arith, no_rows (t.scanline_pixel * font_height), no_rows t.scanline_char);
    };
  }

pub drain-Keeps : (t : Terminal) → IsFitting t → IsPlaced t → Keeps t (lib_terminal_drain t)
unfolding lib_terminal_drain
drain-Keeps t f p =
    let u = lib_terminal_cursor_disable t in
    let a = disable-Keeps t f p in
    let g = IsFitting-SameWindow t u a.window f in
    let b = emptied-Keeps u g a.placed in
    let ab = Keeps-trans t u _ a b in
    Keeps-trans t _ _ ab (enable-Keeps _ (IsFitting-SameWindow t _ ab.window f) ab.placed)
