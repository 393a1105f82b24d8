-- ===== src/Library/Interface/Hover/Kept.antt =====
-- What drawing an element in lib_interface_hover leaves of the element and of the window.
use fern_night.Prelude.{ℕ, ◌≡◌, refl, ◌==◌, Bool-cases, Option-cases, inl, inr}
use fern_night.Library.Interface.{Element, Interface, type_button}
use fern_night.Library.Interface.Draw.{
  limit, lib_interface_element_button, lib_interface_element_mmc,
}
use fern_night.Library.Interface.Hover.{is_mmc, redrawn}

-- The place, the role and the flags of an element, and the pointer of the window.
pub record Leaves (s t : Interface) (o p : Element) : Type 0 where
  pub at_place : (p.x ≡ o.x) × (p.y ≡ o.y) × (p.width ≡ o.width) × (p.height ≡ o.height)
  pub in_role : (p.type ≡ o.type) × (p.event ≡ o.event) × (p.id ≡ o.id)
  pub with_flags : p.flags ≡ o.flags
  pub pointer : (t.pointer_x ≡ s.pointer_x) × (t.pointer_y ≡ s.pointer_y)

-- Only pixels of the window and the length of the element's text are changed.
drawn-Leaves :
    (s : Interface) (o : Element) (n : ℕ) (drawn : ℕ → ℕ)
    → Leaves s (record s { pixels = drawn }) o (record o { length = n })
drawn-Leaves s o n drawn = record {
  at_place = (refl, refl, refl, refl);
  in_role = (refl, refl, refl);
  with_flags = refl;
  pointer = (refl, refl);
}

button-Leaves :
    (matrix : ℕ → ℕ) (s : Interface) (o : Element)
    → Leaves s
        (lib_interface_element_button matrix s o).1
        o
        (lib_interface_element_button matrix s o).0
unfolding lib_interface_element_button
button-Leaves matrix s o = elim (Option-cases (limit o.width o.name o.length)) [
  | inl e ↦ rw (lib_interface_element_button, e) (drawn-Leaves s o _ _)
  | inr (n, e) ↦ rw (lib_interface_element_button, e) (drawn-Leaves s o _ _)
]

pub redrawn-Leaves :
    (matrix : ℕ → ℕ) (s : Interface) (o : Element)
    → Leaves s (redrawn matrix s o).1 o (redrawn matrix s o).0
unfolding redrawn lib_interface_element_mmc
redrawn-Leaves matrix s o = elim (Bool-cases (is_mmc o)) [
  | inl e ↦ rw e (drawn-Leaves s o _ _)
  | inr e ↦ elim (Bool-cases (o.type == type_button)) [
    | inl f ↦ rw (e, f) (button-Leaves matrix s o)
    | inr f ↦ rw (e, f) (drawn-Leaves s o _ _)
  ]
]
