-- ===== src/Library/Font/Tests.antt =====
-- The theorem on lib_font, at a word on lines of 100 pixels.
use fern_night.Prelude.{ℕ, ◌≡◌, inl, refl, some, List, [], ◌∷◌, arith}
use fern_night.Library.Font.{lib_font, lib_font_length_string, roboto, align_left}
use fern_night.Library.Font.Frame.{Beside, font_frame}

abbrev word : List ℕ
word = b'f' ∷ b'e' ∷ b'r' ∷ b'n' ∷ []

font_frame_example :
    (drawn : ℕ → ℕ) × (lib_font (λ i. 0xFF) roboto word 0xFFFFFF 500 100 align_left (λ i. 0)
      ≡ some (lib_font_length_string roboto word, drawn))
    × ((i : ℕ) → Beside 16 500 100 (lib_font_length_string roboto word) i → drawn i ≡ 0)
font_frame_example =
    font_frame (λ i. 0xFF) roboto word 0xFFFFFF 500 100 (λ i. 0) (inl refl) (omega arith)
