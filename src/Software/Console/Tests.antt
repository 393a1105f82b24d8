-- ===== src/Software/Console/Tests.antt =====
-- The theorem on the console, at a name, a change of the colours and a character.
use fern_night.Prelude.{ℕ, [], ◌∷◌, get_or, replicate}
use fern_night.Library.Terminal.{Terminal}
use fern_night.Library.Interface.{Interface}
use fern_night.Software.Console.{Console}

abbrev window : Terminal
window = record {
  width = 200;
  height = 40;
  base_address = 1000;
  scanline_pixel = 220;
  scanline_line = 0;
  pointer = 0;
  color_foreground = 0xFFFFFFFF;
  color_background = 0xFF000000;
  alpha = 0;
  flags = 1;
  width_char = 0;
  height_char = 0;
  scanline_char = 0;
  cursor_x = 0;
  cursor_y = 0;
  lock = 0;
  pixels = λ i. 0;
}

abbrev interface : Interface
interface = record {
  elements = [];
  length = 7;
  name = replicate 39 b'c';
  width = 220;
  height = 64;
  base_address = 100;
  mmc_length = 3;
  flags = 0;
  pointer_x = 0;
  pointer_y = 0;
  pixels = λ i. 0;
}

-- "^[hA]^[c*2x"
abbrev stream : ℕ → ℕ
stream i =
    get_or (b'^' ∷ b'[' ∷ b'h' ∷ b'A' ∷ b']' ∷ b'^' ∷ b'[' ∷ b'c' ∷ b'*' ∷ b'2' ∷ b'x' ∷ []) i 0
