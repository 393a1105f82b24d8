-- ===== src/Library/Interface/Tests.antt =====
-- The theorem on lib_interface_hover, at a window with a button under the pointer.
use fern_night.Prelude.{ℕ, ◌+◌, ◌≡◌, ◌⊎◌, true, false, [], ◌∷◌}
use fern_night.Prelude.Bits.{bit_at}
use fern_night.Library.Interface.{Element, Interface, origin, type_button, type_label}
use fern_night.Library.Interface.Hover.{lib_interface_hover}
use fern_night.Library.Interface.Hover.Marks.{AllHovered, changes, interface_hover_lem}

abbrev element : ℕ → ℕ → Element
element type x = record {
  type = type;
  event = 7;
  flags = 1;
  id = 3;
  x = origin + x;
  y = origin + 30;
  width = 40;
  height = 20;
  length = 2;
  name = b'o' ∷ b'k' ∷ [];
}

abbrev shown : Interface
shown = record {
  elements = element type_button 10 ∷ element type_label 60 ∷ [];
  length = 1;
  name = b'x' ∷ [];
  width = 120;
  height = 80;
  base_address = 1000;
  mmc_length = 0;
  flags = 0;
  pointer_x = 20;
  pointer_y = 35;
  pixels = λ i. 0;
}

interface_hover_lem_example :
    AllHovered shown shown.elements (lib_interface_hover (λ i. 0xFF) shown).elements
    × ((changes shown shown.elements ≡ true)
          × (bit_at (lib_interface_hover (λ i. 0xFF) shown).flags 0 ≡ 1)
        ⊎ (changes shown shown.elements ≡ false) × (lib_interface_hover (λ i. 0xFF) shown ≡ shown))
interface_hover_lem_example = interface_hover_lem (λ i. 0xFF) shown
