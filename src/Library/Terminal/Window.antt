-- ===== src/Library/Terminal/Window.antt =====
-- The operations of library/shared/terminal.c write in the window only.
use fern_night.Prelude.{
  ℕ, ◌+◌, ◌-◌, ◌*◌, ◌^◌, ◌≤◌, ◌<◌, bit_and, ◌==◌, ◌≡◌, refl, ap, ◌∙◌, arith, Bool-cases, inl, inr,
}
use fern_night.Prelude.Machine.{add64}
use fern_night.Library.Terminal.{
  Font, Terminal, font_width, font_height, background, lib_terminal_char_drain,
  lib_terminal_cursor_switch, lib_terminal_cursor_disable, lib_terminal_cursor_enable, printed,
}
use fern_night.Library.Terminal.Bounds.{
  Outside, fill_lines_frame, invert_column_frame, mul_mono, suc_mul, plus_one,
}
use fern_night.Library.Terminal.Cursor.{IsPlaced, IsPlaced-SameCursor, drain-SameCursor}

-- A window whose cells lie in its lines, and whose lines of characters lie in it.
pub record IsFitting (t : Terminal) : Type 0 where
  pub lines : t.width ≤ t.scanline_pixel
  pub wide : t.width_char * t.scanline_char + font_width ≤ t.scanline_pixel
  pub tall : (t.height_char + 1) * (t.scanline_pixel * font_height) ≤ t.scanline_pixel * t.height
  pub small : t.scanline_pixel * t.height < 2 ^ 32
  pub line : t.scanline_line ≡ t.scanline_pixel * font_height

-- Outside of the window.
abbrev pub Beyond : Terminal → ℕ → Type 0
Beyond t i = Outside t.base_address (t.base_address + t.scanline_pixel * t.height) i

-- Two terminals with one window, and the words outside of it the same.
pub record SameWindow (t u : Terminal) : Type 0 where
  pub same_width : u.width ≡ t.width
  pub same_height : u.height ≡ t.height
  pub same_columns : u.width_char ≡ t.width_char
  pub same_rows : u.height_char ≡ t.height_char
  pub same_base : u.base_address ≡ t.base_address
  pub same_line : u.scanline_pixel ≡ t.scanline_pixel
  pub same_lines : u.scanline_line ≡ t.scanline_line
  pub same_char : u.scanline_char ≡ t.scanline_char
  pub frame : (i : ℕ) → Beyond t i → u.pixels i ≡ t.pixels i

pub SameWindow-refl : (t : Terminal) → SameWindow t t
SameWindow-refl t = record {
  same_width = refl;
  same_height = refl;
  same_columns = refl;
  same_rows = refl;
  same_base = refl;
  same_line = refl;
  same_lines = refl;
  same_char = refl;
  frame = λ i o. refl;
}

pub Beyond-SameWindow : (t u : Terminal) → SameWindow t u → (i : ℕ) → Beyond t i → Beyond u i
Beyond-SameWindow t u s i o = rw (s.same_base, s.same_line, s.same_height) o

pub SameWindow-trans : (t u v : Terminal) → SameWindow t u → SameWindow u v → SameWindow t v
SameWindow-trans t u v s r = record {
  same_width = r.same_width ∙ s.same_width;
  same_height = r.same_height ∙ s.same_height;
  same_columns = r.same_columns ∙ s.same_columns;
  same_rows = r.same_rows ∙ s.same_rows;
  same_base = r.same_base ∙ s.same_base;
  same_line = r.same_line ∙ s.same_line;
  same_lines = r.same_lines ∙ s.same_lines;
  same_char = r.same_char ∙ s.same_char;
  frame = λ i o. r.frame i (Beyond-SameWindow t u s i o) ∙ s.frame i o;
}

pub IsFitting-SameWindow : (t u : Terminal) → SameWindow t u → IsFitting t → IsFitting u
IsFitting-SameWindow t u s f = record {
  lines = rw (s.same_width, s.same_line) f.lines;
  wide = rw (s.same_columns, s.same_char, s.same_line) f.wide;
  tall = rw (s.same_rows, s.same_line, s.same_height) f.tall;
  small = rw (s.same_line, s.same_height) f.small;
  line = rw (s.same_lines, s.same_line) f.line;
}

-- The cell of a position on the screen, 16 lines of 8 pixels, is inside the window.
cell_inside :
    (t : Terminal)
    → IsFitting t
    → IsPlaced t
    → (t.base_address ≤ t.pointer)
      × (t.pointer + 15 * t.scanline_pixel + font_width
          ≤ t.base_address + t.scanline_pixel * t.height)
cell_inside t f p = omega (
  arith,
  p.at_cell,
  f.wide,
  f.tall,
  f.small,
  mul_mono t.cursor_x t.width_char t.scanline_char p.column,
  mul_mono t.cursor_y t.height_char (t.scanline_pixel * font_height) p.row,
  suc_mul t.height_char (t.scanline_pixel * font_height),
  ap (λ (n : ℕ). n * (t.scanline_pixel * font_height)) (plus_one t.height_char),
)

-- A change of the pixels that keeps those outside of the window.
pub repainted :
    (t : Terminal) (pixels : ℕ → ℕ) (lock : ℕ)
    → ((i : ℕ) → Beyond t i → pixels i ≡ t.pixels i)
    → SameWindow t (record t { pixels = pixels; lock = lock })
repainted t pixels lock h = record {
  same_width = refl;
  same_height = refl;
  same_columns = refl;
  same_rows = refl;
  same_base = refl;
  same_line = refl;
  same_lines = refl;
  same_char = refl;
  frame = h;
}

pub within_window :
    (from until low high i : ℕ)
    → from ≤ low
    → high ≤ until
    → Outside from until i
    → Outside low high i
within_window from until low high i a b (inl h) = inl (omega arith)
within_window from until low high i a b (inr h) = inr (omega arith)

module _ (t : Terminal) (f : IsFitting t) (p : IsPlaced t) where
  -- The words of the cell, and of parts of it.
  in_cell :
      (last i : ℕ)
      → last ≤ font_width
      → Beyond t i
      → Outside t.pointer (t.pointer + 15 * t.scanline_pixel + last) i
  in_cell last i small o =
      let (low, high) = cell_inside t f p in
      within_window t.base_address (t.base_address + t.scanline_pixel * t.height) t.pointer
        (t.pointer + 15 * t.scanline_pixel + last) i low (omega arith) o

  switch-SameWindow : SameWindow t (lib_terminal_cursor_switch t)
  unfolding lib_terminal_cursor_switch
  switch-SameWindow = repainted t _ t.lock λ i o.
      invert_column_frame 15 t.scanline_pixel t.pointer t.pixels i (in_cell 1 i (omega arith) o)

  pub drain-SameWindow : SameWindow t (lib_terminal_char_drain t)
  unfolding lib_terminal_char_drain
  drain-SameWindow = repainted t _ t.lock λ i o.
      fill_lines_frame 15 font_width t.scanline_pixel t.pointer (background t) t.pixels i
        (in_cell font_width i (omega arith) o)

locked-SameWindow : (t : Terminal) (lock : ℕ) → SameWindow t (record t { lock = lock })
locked-SameWindow t lock = repainted t t.pixels lock (λ i o. refl)

locked-IsPlaced : (t : Terminal) (lock : ℕ) → IsPlaced t → IsPlaced (record t { lock = lock })
locked-IsPlaced t lock p = omega arith

-- A change of the lock that may show or hide the cursor.
switched-SameWindow :
    (t : Terminal) (lock : ℕ)
    → IsFitting t
    → IsPlaced t
    → SameWindow t (lib_terminal_cursor_switch (record t { lock = lock }))
switched-SameWindow t lock f p =
    let u = record t { lock = lock } in
    SameWindow-trans t u (lib_terminal_cursor_switch u) (locked-SameWindow t lock) (
      switch-SameWindow u (IsFitting-SameWindow t u (locked-SameWindow t lock) f)
        (locked-IsPlaced t lock p))

pub disable-SameWindow :
    (t : Terminal) → IsFitting t → IsPlaced t → SameWindow t (lib_terminal_cursor_disable t)
unfolding lib_terminal_cursor_disable
disable-SameWindow t f p = elim (Bool-cases (add64 t.lock 1 == 1)) [
  | inl e ↦ rw e (switched-SameWindow t (add64 t.lock 1) f p)
  | inr e ↦ rw e (locked-SameWindow t (add64 t.lock 1))
]

pub enable-SameWindow :
    (t : Terminal) → IsFitting t → IsPlaced t → SameWindow t (lib_terminal_cursor_enable t)
unfolding lib_terminal_cursor_enable
enable-SameWindow t f p = elim (Bool-cases (t.lock == 0)) [
  | inl e ↦ rw e (SameWindow-refl t)
  | inr e ↦ elim (Bool-cases (t.lock - 1 == 0)) [
    | inl z ↦ rw (e, z) (switched-SameWindow t (t.lock - 1) f p)
    | inr z ↦ rw (e, z) (locked-SameWindow t (t.lock - 1))
  ]
]

-- A font draws in the cell of a character only.
abbrev pub Draws : Font → Type 0
Draws font =
    (pixels : ℕ → ℕ) (at ascii color line i : ℕ)
    → Outside at (at + 15 * line + font_width) i
    → font pixels at ascii color line i ≡ pixels i

-- The cursor's column changed, and the pixels.
pub advanced :
    (t : Terminal) (pixels : ℕ → ℕ) (x y : ℕ)
    → ((i : ℕ) → Beyond t i → pixels i ≡ t.pixels i)
    → SameWindow t (record t { pixels = pixels; cursor_x = x; cursor_y = y })
advanced t pixels x y h = record {
  same_width = refl;
  same_height = refl;
  same_columns = refl;
  same_rows = refl;
  same_base = refl;
  same_line = refl;
  same_lines = refl;
  same_char = refl;
  frame = h;
}

pub printed-SameWindow :
    (font : Font) (t : Terminal) (ascii : ℕ)
    → Draws font
    → IsFitting t
    → IsPlaced t
    → SameWindow t (printed font t ascii)
unfolding printed
printed-SameWindow font t ascii draws f p = elim (Bool-cases (bit_and t.flags 1 == 0)) [
  | inl e ↦ rw e (
      advanced t _ _ t.cursor_y λ i o.
        draws t.pixels t.pointer ascii t.color_foreground t.scanline_pixel i
          (in_cell t f p font_width i (omega arith) o))
  | inr e ↦
      let u = lib_terminal_char_drain t in
      let s = drain-SameWindow t f p in
      let g = IsFitting-SameWindow t u s f in
      let q = IsPlaced-SameCursor t u (drain-SameCursor t) p in
      rw e (
        SameWindow-trans t u _ s (
          advanced u _ _ u.cursor_y λ i o.
            draws u.pixels u.pointer ascii u.color_foreground u.scanline_pixel i
              (in_cell u g q font_width i (omega arith) o)))
]
