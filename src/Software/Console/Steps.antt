-- ===== src/Software/Console/Steps.antt =====
-- Each step of the console keeps it sound and gets on in the stream.
use fern_night.Prelude.{
  ℕ, ◌+◌, ◌≤◌, ◌<◌, Bool, true, false, not, ◌&&◌, Option, some, ◌≡◌, refl, ltb, ◌==◌, if◌then◌else◌,
  arith,
}
use fern_night.Library.Font.Screen.{terminal_font, terminal_font-Draws}
use fern_night.Library.Interface.{Interface}
use fern_night.Library.Interface.Header.{HasHeader}
use fern_night.Library.Terminal.{Terminal, lib_terminal_char}
use fern_night.Library.Terminal.Keeps.{char-Keeps}
use fern_night.Software.Console.{Console, name_size, with_terminal, name_length, renamed, step}
use fern_night.Software.Console.Sound.{
  IsSound, kept-IsSound, recolored-IsSound, cleared-IsSound, moved-IsSound, with_name-IsSound,
}

-- Wherever a sequence for a name starts in front of `length`, a closing bracket follows within 256
-- characters, and within 39 where the console has a window.
abbrev pub IsClosed : Bool → (ℕ → ℕ) → ℕ → Type 0
IsClosed master stream length =
    (i : ℕ)
    → i < length
    → (stream i ≡ b'^') × (stream (i + 1) ≡ b'[') × (stream (i + 2) ≡ b'h')
    → (n : ℕ) × (name_length 256 stream (i + 3) 0 ≡ some n) × (master ≡ false → n ≤ 39)

-- A step gives a sound console and a later position.
abbrev pub Steps : Terminal → Interface → ℕ → Option (Console × ℕ) → Type 0
Steps t w i o = (s : Console) × (j : ℕ) × (o ≡ some (s, j)) × (i < j) × IsSound t w s

choice-Steps :
    (t : Terminal) (w : Interface) (i : ℕ) (b : Bool) (x y : Option (Console × ℕ))
    → (b ≡ true → Steps t w i x)
    → (b ≡ false → Steps t w i y)
    → Steps t w i (if b then x else y)
choice-Steps t w i true x y h k = h refl
choice-Steps t w i false x y h k = k refl

renamed-Steps :
    (t : Terminal) (w : Interface) (matrix : ℕ → ℕ) (master : Bool) (s : Console) (stream : ℕ → ℕ)
    (i n : ℕ)
    → HasHeader w
    → name_length 256 stream (i + 3) 0 ≡ some n
    → (master ≡ false → n ≤ 39)
    → IsSound t w s
    → Steps t w i (renamed matrix master s stream i)
unfolding renamed
renamed-Steps t w matrix true s stream i n header found short h =
    rw found (_, _, refl, omega arith, h)
renamed-Steps t w matrix false s stream i n header found short h =
    let inside : ltb name_size n ≡ false = ground (arith, short refl) in
    rw (found, inside)
      (_, _, refl, omega arith, with_name-IsSound t w s h matrix _ n header (short refl))

pub step-Steps :
    (t : Terminal) (w : Interface) (matrix behind : ℕ → ℕ) (master : Bool) (s : Console)
    (stream : ℕ → ℕ) (length i : ℕ)
    → HasHeader w
    → IsClosed master stream length
    → i < length
    → IsSound t w s
    → Steps t w i (step matrix behind master s stream i)
unfolding step
step-Steps t w matrix behind master s stream length i header closed l h =
    let kind = stream (i + 2) in
    let shown : Steps t w i (
        some (
          with_terminal s (lib_terminal_char (terminal_font matrix) s.terminal (stream i)),
          i + 1,
        )) =
      (
        _,
        i + 1,
        refl,
        omega arith,
        kept-IsSound t w s h _ (
            char-Keeps s.terminal h.fits h.keeps.placed (terminal_font matrix) (stream i)
              (terminal_font-Draws matrix)),
      ) in
    choice-Steps t w i (not (stream i == b'^' && stream (i + 1) == b'[')) _ _ (λ e. shown)
      λ e.
        choice-Steps t w i (kind == b'h') _ _
          (λ f.
            let (n, found, short) = closed i l (ground arith, ground arith, ground arith) in
            renamed-Steps t w matrix master s stream i n header found short h)
          λ f.
            choice-Steps t w i (kind == b'c') _ _
              (λ g. (_, _, refl, omega arith, recolored-IsSound t w s h behind _ _))
              λ g.
                choice-Steps t w i (kind == b't' && stream (i + 3) == b'0') _ _
                  (λ k. (_, _, refl, omega arith, cleared-IsSound t w s h _))
                  λ k.
                    choice-Steps t w i (kind == b't' && stream (i + 3) == b'2') _ _
                      (λ m. (_, _, refl, omega arith, moved-IsSound t w s h _)) λ m. shown
