-- ===== src/Library/Interface/Hover/Marks.antt =====
-- Which elements lib_interface_hover marks, and when it draws.
use mathlib.Core.Bool.{true≢false}
use fern_night.Prelude.{
  ℕ, ◌-◌, ◌<◌, bit_and, bit_or, Bool, true, false, not, ◌||◌, ◌≡◌, ◌≢◌, refl, sym, ap, ◌∙◌, List,
  [], ◌∷◌, ◌==◌, Bool-cases, ◌⊎◌, inl, inr, arith,
}
use fern_night.Prelude.Bits.{
  bit_at, bit_at-lt, bit_at-bit_and, bit_at-bit_or, bit_at-pow_self, bit_at-pow_ne,
  bit_at-complement, bit_and-pow,
}
use fern_night.Library.Interface.{Element, Interface, flag_hover, flag_flush, is_under}
use fern_night.Library.Interface.Hover.{redrawn, hover_flags, hover, hover_all, lib_interface_hover}
use fern_night.Library.Interface.Hover.Kept.{redrawn-Leaves}

-- An element, and the one after the pointer was compared with it.
pub record IsHovered (s : Interface) (o p : Element) : Type 0 where
  pub same_place : (p.x ≡ o.x) × (p.y ≡ o.y) × (p.width ≡ o.width) × (p.height ≡ o.height)
  pub same_role : (p.type ≡ o.type) × (p.event ≡ o.event) × (p.id ≡ o.id)
  pub marked : (bit_and p.flags flag_hover == 0) ≡ not (is_under s o)
  pub other_flags : (k : ℕ) → k < 8 → k ≢ 4 → bit_at p.flags k ≡ bit_at o.flags k

pub data AllHovered (s : Interface) : List Element → List Element → Type 0 where
  nil : AllHovered s [] []
  cons :
      {o p : Element} {os ps : List Element}
      → IsHovered s o p
      → AllHovered s os ps
      → AllHovered s (o ∷ os) (p ∷ ps)

marks :
    (s : Interface) (o : Element) → (bit_and (hover_flags s o) flag_hover == 0) ≡ not (is_under s o)
unfolding hover_flags
marks s o = elim (Bool-cases (is_under s o)) [
  | inl e ↦ rw e (
      ground (
        arith,
        bit_and-pow (bit_or o.flags flag_hover) 4,
        bit_at-bit_or o.flags flag_hover 4,
        bit_at-pow_self 4,
      ))
  | inr e ↦ rw e (
      ground (
        arith,
        bit_and-pow (bit_and o.flags (0xFF - flag_hover)) 4,
        bit_at-bit_and o.flags (0xFF - flag_hover) 4,
        bit_at-complement 8 flag_hover 4 (omega arith) (omega arith),
        bit_at-pow_self 4,
      ))
]

keeps :
    (s : Interface) (o : Element) (k : ℕ)
    → k < 8
    → k ≢ 4
    → bit_at (hover_flags s o) k ≡ bit_at o.flags k
unfolding hover_flags
keeps s o k l ne = elim (Bool-cases (is_under s o)) [
  | inl e ↦
      rw e (ground (arith, bit_at-bit_or o.flags flag_hover k, bit_at-pow_ne 4 k (λ q. ne (sym q))))
  | inr e ↦ rw e (
      ground (
        arith,
        bit_at-bit_and o.flags (0xFF - flag_hover) k,
        bit_at-complement 8 flag_hover k (omega arith) l,
        bit_at-pow_ne 4 k (λ q. ne (sym q)),
        bit_at-lt o.flags k,
      ))
]

hover-IsHovered :
    (matrix : ℕ → ℕ) (s : Interface) (o : Element)
    → IsHovered s o (hover matrix s o).0
      × ((hover matrix s o).1.pointer_x ≡ s.pointer_x)
      × ((hover matrix s o).1.pointer_y ≡ s.pointer_y)
unfolding hover
hover-IsHovered matrix s o =
    let l = redrawn-Leaves matrix s (record o { flags = hover_flags s o }) in
    elim (Bool-cases (hover_flags s o == o.flags)) [
      | inl e ↦
          let q : hover_flags s o ≡ o.flags = ground arith in
          let marked_so : (bit_and o.flags flag_hover == 0) ≡ not (is_under s o) =
            rw q at (marks s o) in
          rw e (
            record {
              same_place = (refl, refl, refl, refl);
              same_role = (refl, refl, refl);
              marked = marked_so;
              other_flags = λ k a b. refl;
            },
            refl,
            refl,
          )
      | inr e ↦ rw e (
        record {
          same_place = l.at_place;
          same_role = l.in_role;
          marked = rw l.with_flags (marks s o);
          other_flags = λ k a b. rw l.with_flags (keeps s o k a b);
        },
        l.pointer.0,
        l.pointer.1,
      )
    ]

under-pointer :
    (s t : Interface) (o : Element)
    → t.pointer_x ≡ s.pointer_x
    → t.pointer_y ≡ s.pointer_y
    → is_under t o ≡ is_under s o
unfolding is_under
under-pointer s t o e f = rw (e, f) refl

moved_pointer :
    (s t : Interface) (o p : Element)
    → t.pointer_x ≡ s.pointer_x
    → t.pointer_y ≡ s.pointer_y
    → IsHovered t o p
    → IsHovered s o p
moved_pointer s t o p e f h = record {
  same_place = h.same_place;
  same_role = h.same_role;
  marked = h.marked ∙ ap not (under-pointer s t o e f);
  other_flags = h.other_flags;
}

hover_all-AllHovered :
    (matrix : ℕ → ℕ) (s t : Interface) (elements : List Element)
    → t.pointer_x ≡ s.pointer_x
    → t.pointer_y ≡ s.pointer_y
    → AllHovered s elements (hover_all matrix t elements).0
unfolding hover_all
hover_all-AllHovered matrix s t [] e f = nil
hover_all-AllHovered matrix s t (o ∷ elements) e f =
    let (h, x, y) = hover-IsHovered matrix t o in
    cons (moved_pointer s t o (hover matrix t o).0 e f h)
      (hover_all-AllHovered matrix s (hover matrix t o).1 elements (x ∙ e) (y ∙ f))

-- Whether some element is marked in another way than before.
unfoldable pub changes : Interface → List Element → Bool
changes s [] = false
changes s (o ∷ elements) = not (hover_flags s o == o.flags) || changes s elements

hover_all_same :
    (matrix : ℕ → ℕ) (s : Interface) (elements : List Element)
    → changes s elements ≡ false
    → hover_all matrix s elements ≡ (elements, s)
unfolding hover_all hover changes
hover_all_same matrix s [] h = refl
hover_all_same matrix s (o ∷ elements) h = elim (Bool-cases (hover_flags s o == o.flags)) [
  | inl e ↦
      let rest : changes s elements ≡ false = rw e at h in
      rw (e, hover_all_same matrix s elements rest) refl
  | inr e ↦ absurd (true≢false (rw e at h))
]

flushed : (f : ℕ) → bit_at (bit_or f flag_flush) 0 ≡ 1
flushed f = ground (arith, bit_at-bit_or f flag_flush 0, bit_at-pow_self 0, bit_at-lt f 0)

hover_flags-set :
    (matrix : ℕ → ℕ) (s : Interface) (o : Element)
    → bit_at s.flags 0 ≡ 1
    → bit_at (hover matrix s o).1.flags 0 ≡ 1
unfolding hover
hover_flags-set matrix s o h = elim (Bool-cases (hover_flags s o == o.flags)) [
  | inl e ↦ rw e h
  | inr e ↦ rw e (flushed (redrawn matrix s (record o { flags = hover_flags s o })).1.flags)
]

hover_all-set :
    (matrix : ℕ → ℕ) (s : Interface) (elements : List Element)
    → bit_at s.flags 0 ≡ 1
    → bit_at (hover_all matrix s elements).1.flags 0 ≡ 1
unfolding hover_all
hover_all-set matrix s [] h = h
hover_all-set matrix s (o ∷ elements) h =
    hover_all-set matrix (hover matrix s o).1 elements (hover_flags-set matrix s o h)

hover_all-changes :
    (matrix : ℕ → ℕ) (s : Interface) (elements : List Element)
    → changes s elements ≡ true
    → bit_at (hover_all matrix s elements).1.flags 0 ≡ 1
unfolding hover_all hover changes
hover_all-changes matrix s [] h = absurd (true≢false (sym h))
hover_all-changes matrix s (o ∷ elements) h = elim (Bool-cases (hover_flags s o == o.flags)) [
  | inl e ↦ rw e (hover_all-changes matrix s elements (rw e at h))
  | inr e ↦ rw e (
      hover_all-set matrix _ elements
        (flushed (redrawn matrix s (record o { flags = hover_flags s o })).1.flags))
]

-- lib_interface_hover marks exactly the elements under the pointer as hovered, and keeps their other
-- flags of 8 bits, their places, types, events and numbers. Either some flags change, and then the
-- window is marked to be flushed, or none do, and then the window is as before.
pub interface_hover_lem :
    (matrix : ℕ → ℕ) (s : Interface)
    → AllHovered s s.elements (lib_interface_hover matrix s).elements
      × ((changes s s.elements ≡ true) × (bit_at (lib_interface_hover matrix s).flags 0 ≡ 1)
          ⊎ (changes s s.elements ≡ false) × (lib_interface_hover matrix s ≡ s))
unfolding lib_interface_hover
interface_hover_lem matrix s = (
  hover_all-AllHovered matrix s s s.elements refl refl,
  elim (Bool-cases (changes s s.elements)) [
    | inl e ↦ inl (e, hover_all-changes matrix s s.elements e)
    | inr e ↦ inr (e, rw (hover_all_same matrix s s.elements e) refl)
  ],
)
