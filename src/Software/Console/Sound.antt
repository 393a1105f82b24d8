-- ===== src/Software/Console/Sound.antt =====
-- Whatever bytes the console gets, its terminal keeps its cursor on the screen and to its window.
use fern_night.Prelude.{
  ℕ, ◌+◌, ◌-◌, ◌%◌, ◌^◌, ◌≤◌, Bool, true, false, ◌≡◌, refl, ◌∙◌, List, ◌++◌, drop, ◌==◌,
  if◌then◌else◌, arith,
}
use fern_night.Library.Interface.{Interface}
use fern_night.Library.Interface.Header.{HasHeader, OffHeader, interface_name_frame}
use fern_night.Library.Terminal.{Terminal}
use fern_night.Library.Terminal.Window.{IsFitting, IsFitting-SameWindow, Beyond, Beyond-SameWindow}
use fern_night.Library.Terminal.Keeps.{
  Keeps, Keeps-refl, Keeps-trans, disable-Keeps, enable-Keeps, drain_line-Keeps, colored-Keeps,
  set-Keeps, drain-Keeps,
}
use fern_night.Software.Console.{
  Console, with_name, with_terminal, color_of, recolored, cleared, at_position, moved,
}

-- The terminal has the window of `t`, in which its cells fit, its cursor stands on the screen, and so
-- does the position that was saved; the interface has the window of `w`; and no word is changed but
-- those of the terminal's window and of the header.
pub record IsSound (t : Terminal) (w : Interface) (s : Console) : Type 0 where
  pub keeps : Keeps (record t { pixels = s.terminal.pixels }) s.terminal
  pub fits : IsFitting s.terminal
  pub saved_x : s.cursor_x ≤ s.terminal.width_char
  pub saved_y : s.cursor_y ≤ s.terminal.height_char
  pub same_place : s.interface.base_address ≡ w.base_address
  pub same_width : s.interface.width ≡ w.width
  pub same_controls : s.interface.mmc_length ≡ w.mmc_length
  pub frame : (i : ℕ) → Beyond t i → OffHeader w i → s.terminal.pixels i ≡ t.pixels i

-- A terminal with other words.
repainted-Keeps :
    (t u : Terminal) (p drawn : ℕ → ℕ)
    → Keeps (record t { pixels = p }) u
    → Keeps (record t { pixels = drawn }) (record u { pixels = drawn })
repainted-Keeps t u p drawn k = record {
  window = record {
    same_width = k.window.same_width;
    same_height = k.window.same_height;
    same_columns = k.window.same_columns;
    same_rows = k.window.same_rows;
    same_base = k.window.same_base;
    same_line = k.window.same_line;
    same_lines = k.window.same_lines;
    same_char = k.window.same_char;
    frame = λ i o. refl;
  };
  placed = record {
    column = k.placed.column;
    row = k.placed.row;
    narrow = k.placed.narrow;
    low = k.placed.low;
    at_cell = k.placed.at_cell;
  };
}

repainted-IsFitting :
    (u : Terminal) (drawn : ℕ → ℕ) → IsFitting u → IsFitting (record u { pixels = drawn })
repainted-IsFitting u drawn f = record {
  lines = f.lines;
  wide = f.wide;
  tall = f.tall;
  small = f.small;
  line = f.line;
}

module _ (t : Terminal) (w : Interface) where
  with_terminal-IsSound :
      (s : Console) (u : Terminal)
      → IsSound t w s
      → Keeps s.terminal u
      → IsSound t w (with_terminal s u)
  with_terminal-IsSound s u h k = record {
    keeps =
        repainted-Keeps t u s.terminal.pixels u.pixels
          (Keeps-trans (record t { pixels = s.terminal.pixels }) s.terminal u h.keeps k);
    fits = IsFitting-SameWindow s.terminal u k.window h.fits;
    saved_x = omega (arith, h.saved_x, k.window.same_columns);
    saved_y = omega (arith, h.saved_y, k.window.same_rows);
    same_place = h.same_place;
    same_width = h.same_width;
    same_controls = h.same_controls;
    frame = λ i b o.
        k.window.frame i (
          Beyond-SameWindow (record t { pixels = s.terminal.pixels }) s.terminal h.keeps.window i b)
        ∙ h.frame i b o;
  }

  -- Both branches of a test
  choice-IsSound :
      (b : Bool) (x y : Console) → IsSound t w x → IsSound t w y → IsSound t w (if b then x else y)
  choice-IsSound true x y h k = h
  choice-IsSound false x y h k = k

  choice-Keeps :
      (u : Terminal) (b : Bool) (x y : Terminal)
      → Keeps u x
      → Keeps u y
      → Keeps u (if b then x else y)
  choice-Keeps u true x y h k = h
  choice-Keeps u false x y h k = k

  module _ (s : Console) (h : IsSound t w s) where
    -- A change of the terminal that keeps it.
    pub kept-IsSound : (u : Terminal) → Keeps s.terminal u → IsSound t w (with_terminal s u)
    kept-IsSound u k = with_terminal-IsSound s u h k

    pub recolored-IsSound :
        (behind : ℕ → ℕ) (back fore : ℕ) → IsSound t w (recolored behind s back fore)
    unfolding recolored
    recolored-IsSound behind back fore =
        let v = s.terminal in
        let p = h.keeps.placed in
        let u = if back == b'*' then v else record v { color_background = color_of behind back } in
        let k : Keeps v u =
          choice-Keeps v (back == b'*') _ _ (Keeps-refl v p)
            (colored-Keeps v h.fits p (color_of behind back) v.color_foreground v.flags) in
        let f = IsFitting-SameWindow v u k.window h.fits in
        kept-IsSound _ (
          choice-Keeps v (fore == b'*') _ _ k (
            Keeps-trans v u _ k
              (colored-Keeps u f k.placed u.color_background (color_of behind fore) u.flags)))

    pub cleared-IsSound : (operation : ℕ) → IsSound t w (cleared s operation)
    unfolding cleared
    cleared-IsSound operation =
        let u = s.terminal in
        let p = h.keeps.placed in
        let flags : (n : ℕ) → IsSound t w (with_terminal s (record u { flags = n })) =
          λ n. kept-IsSound _ (colored-Keeps u h.fits p u.color_background u.color_foreground n) in
        choice-IsSound (operation == b'0') _ _ (kept-IsSound _ (drain-Keeps u h.fits p)) (
          choice-IsSound (operation == b'1') _ _ (kept-IsSound _ (drain_line-Keeps u h.fits p)) (
            choice-IsSound (operation == b'2') _ _ (flags _)
              (choice-IsSound (operation == b'3') _ _ (flags _) h)))

    -- A position near the screen.
    at_position-IsSound :
        (x y : ℕ)
        → y ≤ s.terminal.height_char + 1
        → (y ≡ s.terminal.height_char + 1 → x ≤ s.terminal.width_char)
        → IsSound t w (at_position s x y)
    unfolding at_position
    at_position-IsSound x y row corner =
        kept-IsSound _ (set-Keeps s.terminal h.fits h.keeps.placed x y row corner)

    pub moved-IsSound : (operation : ℕ) → IsSound t w (moved s operation)
    unfolding moved
    moved-IsSound operation =
        let u = s.terminal in
        let p = h.keeps.placed in
        let saved : IsSound t w (record s { cursor_x = u.cursor_x; cursor_y = u.cursor_y }) =
          record {
            keeps = h.keeps;
            fits = h.fits;
            saved_x = p.column;
            saved_y = p.row;
            same_place = h.same_place;
            same_width = h.same_width;
            same_controls = h.same_controls;
            frame = h.frame;
          } in
        let restored =
          at_position-IsSound s.cursor_x s.cursor_y (omega (arith, h.saved_y)) (λ e. h.saved_x) in
        choice-IsSound (operation == b'0') _ _
          (at_position-IsSound 0 0 (omega arith) (λ e. omega arith))
          (choice-IsSound (operation == b'1') _ _ (kept-IsSound _ (enable-Keeps u h.fits p)) (
            choice-IsSound (operation == b'2') _ _ (kept-IsSound _ (disable-Keeps u h.fits p)) (
              choice-IsSound (operation == b'3') _ _ saved (
                choice-IsSound (operation == b'4') _ _ restored (
                  choice-IsSound (operation == b'5') _ _
                    (at_position-IsSound u.cursor_x (u.cursor_y - 1) (omega (arith, p.row))
                      (λ e. p.column))
                    (choice-IsSound (operation == b'6') _ _
                      (at_position-IsSound u.cursor_x ((u.cursor_y + 1) % 2 ^ 16)
                        (omega (arith, p.row, p.low)) (λ e. p.column))
                      (choice-IsSound (operation == b'7') _ _
                        (at_position-IsSound (u.cursor_x - 1) u.cursor_y (omega (arith, p.row))
                          (λ e. omega (arith, p.column)))
                        (choice-IsSound (operation == b'8') _ _
                          (at_position-IsSound ((u.cursor_x + 1) % 2 ^ 16) u.cursor_y
                            (omega (arith, p.row)) (λ e. absurd (omega (arith, e, p.row))))
                          h))))))))

    -- The header is drawn for a name that its array has room for.
    pub with_name-IsSound :
        (matrix : ℕ → ℕ) (name : List ℕ) (n : ℕ)
        → HasHeader w
        → n ≤ 39
        → IsSound t w (with_name matrix s name n)
    unfolding with_name
    with_name-IsSound matrix name n header short =
        let v = record (s.interface) {
          name = name ++ drop n s.interface.name;
          length = n;
          pixels = s.terminal.pixels;
        } in
        let room : HasHeader v = record {
          room = omega (arith, header.room, h.same_width, h.same_controls);
          word = omega (arith, header.word, h.same_width);
        } in
        let (place, width, controls, frame) =
          interface_name_frame matrix v room (omega (arith, short)) in
        record {
          keeps = repainted-Keeps t s.terminal s.terminal.pixels _ h.keeps;
          fits = repainted-IsFitting s.terminal _ h.fits;
          saved_x = h.saved_x;
          saved_y = h.saved_y;
          same_place = place ∙ h.same_place;
          same_width = width ∙ h.same_width;
          same_controls = controls ∙ h.same_controls;
          frame = λ i b o. frame i (rw (h.same_place, h.same_width) o) ∙ h.frame i b o;
        }
