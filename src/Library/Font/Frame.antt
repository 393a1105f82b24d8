-- ===== src/Library/Font/Frame.antt =====
-- Where lib_font draws.
use native.Mathlib.Decide.{ℕ_discrete}
use fern_night.Prelude.{
  ℕ, zero, suc, ◌+◌, ◌-◌, ◌*◌, ◌%◌, ◌^◌, ◌≤◌, ◌<◌, ◌≡◌, ◌⊎◌, inl, inr, refl, sym, ◌∙◌, false, not,
  ◌&&◌, some, List, [], ◌∷◌, length, ltb, leb, ◌==◌, if◌then◌else◌, Bool-cases, arith,
}
use fern_night.Library.Font.{
  lib_font_length_char, draw_row, draw_rows, lib_font_char, width_from, lib_font_length_string,
  print_all, aligned, lib_font, kerning, roboto, roboto_mono, align_left, tinted, picture,
  matrix_width,
}
use fern_night.Library.Color.{lib_color_blend}
use fern_night.Library.Terminal.Bounds.{Outside}

draw_row_frame :
    (matrix : ℕ → ℕ) (left from at color x : ℕ) (pixels : ℕ → ℕ) (i : ℕ)
    → Outside (at + x) (at + x + left) i
    → draw_row matrix left from at color x pixels i ≡ pixels i
unfolding draw_row
draw_row_frame matrix zero from at color x pixels i o = refl
draw_row_frame matrix (suc left) from at color x pixels i o =
    let ih =
      draw_row_frame matrix left from at color (x + 1)
        (λ j.
          if j == at + x && not (matrix (from + x) == 0)
          then lib_color_blend (pixels j) (tinted color (matrix (from + x)))
          else pixels j)
        i (ground arith) in
    let other : (i == at + x) ≡ false = ground arith in ih ∙ rw other refl

-- A word that is in none of `n` rows of `width` words, the first of them at `at` and each `line` words
-- behind the one before.
abbrev pub Beside : ℕ → ℕ → ℕ → ℕ → ℕ → Type 0
Beside n at line width i = (y : ℕ) → y < n → Outside (at + y * line) (at + y * line + width) i

draw_rows_frame :
    (matrix : ℕ → ℕ) (left width from at color line y : ℕ) (pixels : ℕ → ℕ) (i : ℕ)
    → Beside (y + left) at line width i
    → draw_rows matrix left width from at color line y pixels i ≡ pixels i
unfolding draw_rows
draw_rows_frame matrix zero width from at color line y pixels i o = refl
draw_rows_frame matrix (suc left) width from at color line y pixels i o =
    let row = draw_row matrix width (from + y * matrix_width) (at + y * line) color 0 pixels in
    draw_rows_frame matrix left width from at color line (y + 1) row i
      (λ z l. o z (omega (arith, l)))
    ∙ draw_row_frame matrix width (from + y * matrix_width) (at + y * line) color 0 pixels i
        (ground (arith, o y (omega arith)))

-- A character is drawn in its 16 rows and its width.
pub font_char_frame :
    (matrix : ℕ → ℕ) (font line at character color : ℕ) (pixels : ℕ → ℕ) (i : ℕ)
    → Beside 16 at line (lib_font_length_char font character) i
    → (lib_font_char matrix font line at character color pixels).0 i ≡ pixels i
unfolding lib_font_char
font_char_frame matrix font line at character color pixels i o =
    draw_rows_frame matrix 16 (lib_font_length_char font character) (picture font character) at
      color line 0 pixels i o

-- The width of the characters as they are drawn.
unfoldable pub drawn_width : ℕ → List ℕ → ℕ
drawn_width font [] = 0
drawn_width font (c ∷ string) =
    lib_font_length_char font ((c + 0x100 - 0x20) % 2 ^ 8) + drawn_width font string

pub print_all_frame :
    (matrix : ℕ → ℕ) (font line at color : ℕ) (string : List ℕ) (pixels : ℕ → ℕ) (i : ℕ)
    → Beside 16 at line (drawn_width font string) i
    → print_all matrix font line at color string pixels i ≡ pixels i
unfolding print_all drawn_width lib_font_char
print_all_frame matrix font line at color [] pixels i o = refl
print_all_frame matrix font line at color (c ∷ string) pixels i o =
    let k = (c + 0x100 - 0x20) % 2 ^ 8 in
    let (drawn, width) = lib_font_char matrix font line at k color pixels in
    print_all_frame matrix font line (at + width) color string drawn i
      (λ y l. ground (arith, o y l))
    ∙ font_char_frame matrix font line at k color pixels i (λ y l. ground (arith, o y l))

width_from-drawn :
    (string : List ℕ) (width : ℕ)
    → (width_from string width ≡ 0) ⊎ (width_from string width ≡ width + drawn_width roboto string)
unfolding width_from drawn_width lib_font_length_char
width_from-drawn [] width = inr (omega arith)
width_from-drawn (c ∷ string) width = elim (Bool-cases (leb 0x20 c && leb c 0x7E)) [
  | inr e ↦ rw e (inl refl)
  | inl e ↦
      let k : (c + 0x100 - 0x20) % 2 ^ 8 ≡ c - 0x20 = ground arith in
      rw (e, k)
        (elim (width_from-drawn string (width + kerning (c - 0x20))) [
          | inl z ↦ inl z
          | inr w ↦ inr (omega (arith, w))
        ])
]

pub drawn_width_mono : (string : List ℕ) → drawn_width roboto_mono string ≡ length string * 8
unfolding drawn_width lib_font_length_char
drawn_width_mono [] = refl
drawn_width_mono (c ∷ string) = omega (arith, drawn_width_mono string)

length_string-drawn :
    (font : ℕ) (string : List ℕ)
    → (font ≡ roboto) ⊎ (font ≡ roboto_mono)
    → (lib_font_length_string font string ≡ 0)
      ⊎ (lib_font_length_string font string ≡ drawn_width font string)
unfolding lib_font_length_string
length_string-drawn font string (inl e) =
    rw e (elim (width_from-drawn string 0) [ inl z ↦ inl z | inr w ↦ inr (omega (arith, w)) ])
length_string-drawn font string (inr e) = rw e (inr (sym (drawn_width_mono string)))

-- A string that is aligned to the left, of at most 255 characters, is drawn by lib_font, in either
-- family: the answer is its width, which is 0 for a string that is empty or, in the family that is
-- not monospaced, has a character that is not printable. All that is drawn lies in 16 rows of that
-- width, the first of which starts at the pixel and each other one a line further: every word that is
-- in none of these rows is as before.
pub font_frame :
    (matrix : ℕ → ℕ) (font : ℕ) (string : List ℕ) (color at line : ℕ) (pixels : ℕ → ℕ)
    → (font ≡ roboto) ⊎ (font ≡ roboto_mono)
    → length string ≤ 255
    → (drawn : ℕ → ℕ) × (lib_font matrix font string color at line align_left pixels
        ≡ some (lib_font_length_string font string, drawn))
      × ((i : ℕ) → Beside 16 at line (lib_font_length_string font string) i → drawn i ≡ pixels i)
unfolding lib_font aligned
font_frame matrix font string color at line pixels f l =
    let width = lib_font_length_string font string in
    elim (ℕ_discrete width 0) [
      | yes z ↦ rw z (pixels, refl, λ i o. refl)
      | no ne ↦
          let e : (width == 0) ≡ false = ground arith in
          let short : ltb 255 (length string) ≡ false = ground arith in
          let whole : width ≡ drawn_width font string = elim (length_string-drawn font string f) [
            | inl z ↦ absurd (ne z)
            | inr w ↦ w
          ] in
          rw (e, short)
            (
              print_all matrix font line at color string pixels,
              refl,
              λ i o. print_all_frame matrix font line at color string pixels i (rw whole at o),
            )
    ]
