-- ===== src/Library/Terminal/Bounds.antt =====
-- What library/shared/terminal.c writes lies in the pixels of its window.
use fern_night.Prelude.{
  ℕ, zero, suc, ◌+◌, ◌*◌, ◌≤◌, ◌<◌, ◌⊎◌, ◌==◌, if◌then◌else◌, ◌≡◌, refl, arith,
}
use fern_night.Library.Terminal.{inverted, fill_words, fill_lines, invert_column, move_words}

-- A word that is not among those from `from` up to `until`.
abbrev pub Outside : ℕ → ℕ → ℕ → Type 0
Outside from until i = (i < from) ⊎ (until ≤ i)

pub suc_mul : (a b : ℕ) → suc a * b ≡ a * b + b
suc_mul a b = grind arith

pub plus_one : (a : ℕ) → a + 1 ≡ suc a
plus_one a = omega arith

pub mul_mono : (a b c : ℕ) → a ≤ b → a * c ≤ b * c
mul_mono a b c h = grind arith

pub fill_words_frame :
    (left at color : ℕ) (pixels : ℕ → ℕ) (i : ℕ)
    → Outside at (at + left) i
    → fill_words left at color pixels i ≡ pixels i
unfolding fill_words
fill_words_frame zero at color pixels i o = refl
fill_words_frame (suc left) at color pixels i o =
    ground
      (arith, fill_words_frame left (at + 1) color (λ j. if j == at then color else pixels j) i)

pub fill_lines_frame :
    (left count scanline at color : ℕ) (pixels : ℕ → ℕ) (i : ℕ)
    → Outside at (at + left * scanline + count) i
    → fill_lines (suc left) count scanline at color pixels i ≡ pixels i
unfolding fill_lines
fill_lines_frame zero count scanline at color pixels i o =
    fill_words_frame count at color pixels i (omega arith)
fill_lines_frame (suc left) count scanline at color pixels i o = ground (
  arith,
  suc_mul left scanline,
  fill_lines_frame left count scanline (at + scanline) color (fill_words count at color pixels) i,
  fill_words_frame count at color pixels i,
)

pub invert_column_frame :
    (left scanline at : ℕ) (pixels : ℕ → ℕ) (i : ℕ)
    → Outside at (at + left * scanline + 1) i
    → invert_column (suc left) scanline at pixels i ≡ pixels i
unfolding invert_column
invert_column_frame zero scanline at pixels i o = ground arith
invert_column_frame (suc left) scanline at pixels i o = ground (
  arith,
  suc_mul left scanline,
  invert_column_frame left scanline (at + scanline)
      (λ j. if j == at then inverted (pixels j) else pixels j) i,
)

pub move_words_frame :
    (left at distance : ℕ) (pixels : ℕ → ℕ) (i : ℕ)
    → Outside at (at + left) i
    → move_words left at distance pixels i ≡ pixels i
unfolding move_words
move_words_frame zero at distance pixels i o = refl
move_words_frame (suc left) at distance pixels i o = ground (
  arith,
  move_words_frame left (at + 1) distance (λ j. if j == at then pixels (j + distance) else pixels j)
      i,
)
