-- ===== src/Library/Terminal/Frame.antt =====
-- Characters and strings of library/shared/terminal.c are written in the window only.
use fern_night.Prelude.{
  ℕ, ◌+◌, ◌-◌, ◌*◌, ◌%◌, ◌^◌, ◌≤◌, ◌&&◌, List, [], ◌∷◌, ltb, leb, ◌==◌, if◌then◌else◌, ◌≡◌, refl,
  ap, arith, Bool-cases, inl, inr,
}
use fern_night.Library.Terminal.{
  Font, Terminal, font_height, background, lib_terminal_char_drain, lib_terminal_cursor_disable,
  lib_terminal_cursor_enable, lib_terminal_drain_line, lib_terminal_scroll_up, placed, wrapped,
  lib_terminal_cursor_set, controlled, acted, lib_terminal_char, show_all, lib_terminal_string,
  move_words,
}
use fern_night.Library.Terminal.Bounds.{
  fill_lines_frame, move_words_frame, mul_mono, suc_mul, plus_one,
}
use fern_night.Library.Terminal.Cursor.{
  IsPlaced, IsNear, disable-SameCursor, IsPlaced-SameCursor, cursor_set-IsPlaced, acted-IsNear,
  char-IsPlaced, show_all-IsPlaced, drain-SameCursor,
}
use fern_night.Library.Terminal.Window.{
  IsFitting, Beyond, SameWindow, Draws, SameWindow-refl, SameWindow-trans, IsFitting-SameWindow,
  repainted, advanced, within_window, drain-SameWindow, disable-SameWindow, enable-SameWindow,
  printed-SameWindow,
}

controlled-SameWindow : (t : Terminal) (ascii : ℕ) → SameWindow t (controlled t ascii)
unfolding controlled
controlled-SameWindow t ascii = record {
  same_width = ground arith;
  same_height = ground arith;
  same_columns = ground arith;
  same_rows = ground arith;
  same_base = ground arith;
  same_line = ground arith;
  same_lines = ground arith;
  same_char = ground arith;
  frame = λ i o. ground arith;
}

wrapped-SameWindow : (t : Terminal) → SameWindow t (wrapped t)
unfolding wrapped
wrapped-SameWindow t = elim (Bool-cases (ltb t.width_char t.cursor_x)) [
  | inl e ↦ rw e (advanced t t.pixels 0 ((t.cursor_y + 1) % 2 ^ 16) (λ i o. refl))
  | inr e ↦ rw e (SameWindow-refl t)
]

placed-SameWindow : (t : Terminal) → SameWindow t (placed t)
unfolding placed
placed-SameWindow t = record {
  same_width = refl;
  same_height = refl;
  same_columns = refl;
  same_rows = refl;
  same_base = refl;
  same_line = refl;
  same_lines = refl;
  same_char = refl;
  frame = λ i o. refl;
}

pub drain_line-SameWindow :
    (t : Terminal)
    → IsFitting t
    → t.cursor_y ≤ t.height_char
    → SameWindow t (lib_terminal_drain_line t)
unfolding lib_terminal_drain_line
drain_line-SameWindow t f row =
    let bound = mul_mono t.cursor_y t.height_char (t.scanline_pixel * font_height) row in
    let last = suc_mul t.height_char (t.scanline_pixel * font_height) in
    let next = ap (λ (n : ℕ). n * (t.scanline_pixel * font_height)) (plus_one t.height_char) in
    let at = t.base_address + t.cursor_y * (t.scanline_pixel * font_height) % 2 ^ 32 in
    repainted t _ t.lock λ i o.
      fill_lines_frame 15 t.width t.scanline_pixel at (background t) t.pixels i (
        within_window t.base_address (t.base_address + t.scanline_pixel * t.height) at
          (at + 15 * t.scanline_pixel + t.width) i (omega arith)
          (omega (arith, bound, last, next, f.tall, f.small, f.lines)) o)

scroll_up-SameWindow :
    (t : Terminal)
    → IsFitting t
    → t.cursor_y ≤ t.height_char
    → SameWindow t (lib_terminal_scroll_up t)
unfolding lib_terminal_scroll_up
scroll_up-SameWindow t f row =
    let count = t.height_char * t.scanline_line % 2 ^ 32 in
    let pixels = move_words count t.base_address t.scanline_line t.pixels in
    let u = record t { pixels = pixels } in
    let last = suc_mul t.height_char (t.scanline_pixel * font_height) in
    let next = ap (λ (n : ℕ). n * (t.scanline_pixel * font_height)) (plus_one t.height_char) in
    let moved : SameWindow t u = repainted t pixels t.lock λ i o.
      move_words_frame count t.base_address t.scanline_line t.pixels i (
        within_window t.base_address (t.base_address + t.scanline_pixel * t.height) t.base_address
          (t.base_address + count) i (omega arith)
          (omega (arith, last, next, f.tall, f.small, ap (λ (n : ℕ). t.height_char * n) f.line))
          o) in
    SameWindow-trans t u (lib_terminal_drain_line u) moved
      (drain_line-SameWindow u (IsFitting-SameWindow t u moved f) row)

corrected_row :
    (t : Terminal)
    → IsNear t
    → (placed (record (wrapped t) { cursor_y = (wrapped t).cursor_y - 1 })).cursor_y
      ≤ (placed (record (wrapped t) { cursor_y = (wrapped t).cursor_y - 1 })).height_char
unfolding wrapped placed
corrected_row t n = ground arith

pub cursor_set-SameWindow :
    (t : Terminal) → IsFitting t → IsNear t → SameWindow t (lib_terminal_cursor_set t)
unfolding lib_terminal_cursor_set
cursor_set-SameWindow t f n =
    let u = wrapped t in
    let s = wrapped-SameWindow t in
    elim (Bool-cases (ltb u.height_char u.cursor_y)) [
      | inl e ↦
          let v = record u { cursor_y = u.cursor_y - 1 } in
          let w = placed v in
          let r =
            SameWindow-trans t v w
              (SameWindow-trans t u v s
                (advanced u u.pixels u.cursor_x (u.cursor_y - 1) (λ i o. refl)))
              (placed-SameWindow v) in
          rw e (
            SameWindow-trans t w (lib_terminal_scroll_up w) r
              (scroll_up-SameWindow w (IsFitting-SameWindow t w r f) (corrected_row t n)))
      | inr e ↦ rw e (SameWindow-trans t u (placed u) s (placed-SameWindow u))
    ]

module _ (font : Font) (draws : Draws font) where
  acted-SameWindow :
      (t : Terminal) (ascii : ℕ) → IsFitting t → IsPlaced t → SameWindow t (acted font t ascii)
  unfolding acted
  acted-SameWindow t ascii f p = elim (Bool-cases (leb 0x20 ascii && leb ascii 0x7F)) [
    | inl e ↦ rw e (printed-SameWindow font t ascii draws f p)
    | inr e ↦ rw e (controlled-SameWindow t ascii)
  ]

  pub char-SameWindow :
      (t : Terminal) (ascii : ℕ)
      → IsFitting t
      → IsPlaced t
      → SameWindow t (lib_terminal_char font t ascii)
  unfolding lib_terminal_char
  char-SameWindow t ascii f p =
      let u = lib_terminal_cursor_disable t in
      let s = disable-SameWindow t f p in
      let g = IsFitting-SameWindow t u s f in
      let q = IsPlaced-SameCursor t u (disable-SameCursor t) p in
      let v = acted font u ascii in
      let r = SameWindow-trans t u v s (acted-SameWindow u ascii g q) in
      let near = acted-IsNear font u ascii q in
      let w = lib_terminal_cursor_set v in
      let r =
        SameWindow-trans t v w r (cursor_set-SameWindow v (IsFitting-SameWindow t v r f) near) in
      let placed_w = cursor_set-IsPlaced v near in
      let x = if ascii == 0x08 then lib_terminal_char_drain w else w in
      let last : SameWindow t x × IsPlaced x = elim (Bool-cases (ascii == 0x08)) [
        | inl e ↦ rw e (
          SameWindow-trans t w (lib_terminal_char_drain w) r
              (drain-SameWindow w (IsFitting-SameWindow t w r f) placed_w),
          IsPlaced-SameCursor w (lib_terminal_char_drain w) (drain-SameCursor w) placed_w,
        )
        | inr e ↦ rw e (r, placed_w)
      ] in
      SameWindow-trans t x (lib_terminal_cursor_enable x) last.0
        (enable-SameWindow x (IsFitting-SameWindow t x last.0 f) last.1)

  show_all-SameWindow :
      (t : Terminal) (string : List ℕ)
      → IsFitting t
      → IsPlaced t
      → SameWindow t (show_all font t string)
  unfolding show_all
  show_all-SameWindow t [] f p = SameWindow-refl t
  show_all-SameWindow t (c ∷ string) f p =
      let u = lib_terminal_char font t c in
      let s = char-SameWindow t c f p in
      SameWindow-trans t u (show_all font u string) s
        (show_all-SameWindow u string (IsFitting-SameWindow t u s f) (char-IsPlaced font t c p))

  -- Let the cells of a window of less than 2 ^ 32 pixels lie in its lines, and its lines of
  -- characters in it, let the cursor stand on the screen with the pointer at its cell, and let
  -- lib_font draw in the cell of a character only. A string of any bytes leaves every word outside
  -- of the window as it was.
  pub terminal_string_frame :
      (t : Terminal) (string : List ℕ) (i : ℕ)
      → IsFitting t
      → IsPlaced t
      → Beyond t i
      → (lib_terminal_string font t string).pixels i ≡ t.pixels i
  unfolding lib_terminal_string
  terminal_string_frame t string i f p o =
      let u = lib_terminal_cursor_disable t in
      let s = disable-SameWindow t f p in
      let g = IsFitting-SameWindow t u s f in
      let q = IsPlaced-SameCursor t u (disable-SameCursor t) p in
      let v = show_all font u string in
      let r = SameWindow-trans t u v s (show_all-SameWindow u string g q) in
      let last =
        SameWindow-trans t v (lib_terminal_cursor_enable v) r (
          enable-SameWindow v (IsFitting-SameWindow t v r f) (show_all-IsPlaced font u string q)) in
      last.frame i o
