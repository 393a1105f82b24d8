-- ===== src/Library/Interface/Header.antt =====
-- lib_interface_name draws the name of a window in its header.
use fern_night.Prelude.{
  ℕ, zero, suc, ◌+◌, ◌-◌, ◌*◌, ◌%◌, ◌^◌, ◌≤◌, ◌<◌, ◌≡◌, inl, inr, refl, ◌∙◌, none, some, List, [],
  ◌∷◌, length, take, ltb, ◌==◌, Bool-cases, Option-cases, arith,
}
use fern_night.Library.Terminal.{fill_lines}
use fern_night.Library.Terminal.Bounds.{Outside, fill_lines_frame}
use fern_night.Library.Font.{width_from, lib_font_length_string, roboto, align_left}
use fern_night.Library.Font.Frame.{Beside, font_frame}
use fern_night.Library.Font.Screen.{off_row}
use fern_night.Library.Interface.{Interface}
use fern_night.Library.Interface.Draw.{limit, text, color_background}
use fern_night.Library.Interface.Hover.{lib_interface_name}

-- The window has room for the controls and for a border beside the name.
pub record HasHeader (s : Interface) : Type 0 where
  pub room : 22 * s.mmc_length + 7 ≤ s.width
  pub word : s.width < 2 ^ 16

-- A word out of the 22 lines of the header.
abbrev pub OffHeader : Interface → ℕ → Type 0
OffHeader s i = Outside s.base_address (s.base_address + 22 * s.width) i

-- The text is drawn beside no row of its width; a text of more than 255 characters is not drawn.
text_frame :
    (matrix : ℕ → ℕ) (s : Interface) (string : List ℕ) (color at i : ℕ)
    → length string ≤ 255
    → Beside 16 at s.width (lib_font_length_string roboto string) i
    → text matrix s string color at align_left i ≡ s.pixels i
text_frame matrix s string color at i l o =
    let (drawn, e, frame) =
      font_frame matrix roboto string color at s.width s.pixels (inl refl) l in
    rw (text, e) (frame i o)

width_nil : lib_font_length_string roboto [] ≡ 0
unfolding lib_font_length_string width_from
width_nil = refl

length-take : (n : ℕ) (xs : List ℕ) → length (take n xs) ≤ n
length-take zero xs = omega arith
length-take (suc n) [] = omega arith
length-take (suc n) (x ∷ xs) = omega (arith, length-take n xs)

-- The name is cut to the width.
limit-fits :
    (width : ℕ) (name : List ℕ) (m n : ℕ)
    → limit width name m ≡ some n
    → (n ≤ m) × (lib_font_length_string roboto (take n name) ≤ width)
unfolding limit
limit-fits width name zero n e = let z : n ≡ 0 = cc in rw z (omega arith, omega (arith, width_nil))
limit-fits width name (suc m) n e =
    elim (Bool-cases (ltb width (lib_font_length_string roboto (take (suc m) name)))) [
      | inr f ↦
          let h : some (suc m) ≡ some n = rw f at e in
          let z : n ≡ suc m = cc in rw z (omega arith, ground arith)
      | inl f ↦ elim (Bool-cases (m == 0)) [
        | inl k ↦ let h : none ≡ some n = rw (f, k) at e in ground arith
        | inr k ↦
            let h : limit width name m ≡ some n = rw (f, k) at e in
            let (a, b) = limit-fits width name m n h in (omega (arith, a), b)
      ]
    ]

-- lib_interface_name keeps the place and the size of the window, and draws in the header only.
pub interface_name_frame :
    (matrix : ℕ → ℕ) (s : Interface)
    → HasHeader s
    → s.length ≤ 255
    → ((lib_interface_name matrix s).base_address ≡ s.base_address)
      × ((lib_interface_name matrix s).width ≡ s.width)
      × ((lib_interface_name matrix s).mmc_length ≡ s.mmc_length)
      × ((i : ℕ) → OffHeader s i → (lib_interface_name matrix s).pixels i ≡ s.pixels i)
unfolding lib_interface_name
interface_name_frame matrix s h l =
    let wide : (s.width + 2 ^ 64 - 7 - 22 * s.mmc_length) % 2 ^ 64
        ≡ s.width - 7 - 22 * s.mmc_length =
      omega (arith, h.room, h.word) in
    elim (Option-cases
      (limit ((s.width + 2 ^ 64 - 7 - 22 * s.mmc_length) % 2 ^ 64) s.name s.length)) [
        | inl e ↦ rw (lib_interface_name, e) (refl, refl, refl, λ i o. refl)
        | inr (n, e) ↦
            let (short, fits) = limit-fits _ s.name s.length n e in
            let name = take n s.name in
            let at = s.base_address + s.width + 1 in
            let columns = (s.width + 2 ^ 64 - 1 - 22 * s.mmc_length) % 2 ^ 64 - 1 in
            let t = record s {
              length = n;
              pixels = fill_lines 20 columns s.width at color_background s.pixels;
            } in
            rw (lib_interface_name, e)
              (
                refl,
                refl,
                refl,
                λ i o.
                    text_frame matrix t name 0xFFFEFEFE (s.base_address + 3 * s.width + 5) i
                      (omega (arith, length-take n s.name))
                      (λ y b.
                        off_row (s.base_address + 3 * s.width + 5) s.width
                          (lib_font_length_string roboto name) i y b
                          (omega (arith, fits, wide, h.room, h.word, o)))
                    ∙ fill_lines_frame 19 columns s.width at color_background s.pixels i
                        (ground (arith, h.room, h.word)),
              )
      ]
