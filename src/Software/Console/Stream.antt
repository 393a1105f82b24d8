-- ===== src/Software/Console/Stream.antt =====
-- A whole stream of bytes at the console.
use fern_night.Prelude.{
  ℕ, zero, suc, ◌+◌, ◌≤◌, Bool, false, some, [], ◌≡◌, refl, ltb, Bool-cases, inl, inr, arith,
}
use fern_night.Library.Interface.{Interface}
use fern_night.Library.Interface.Header.{HasHeader}
use fern_night.Library.Terminal.{
  Terminal, lib_terminal, lib_terminal_cursor_disable, lib_terminal_cursor_enable,
}
use fern_night.Library.Terminal.Keeps.{disable-Keeps, enable-Keeps}
use fern_night.Software.Console.{Console, with_terminal, parse, receive}
use fern_night.Software.Console.Sound.{IsSound, kept-IsSound}
use fern_night.Software.Console.Steps.{IsClosed, step-Steps}

module _ (t : Terminal) (w : Interface) (matrix behind : ℕ → ℕ) (master : Bool) (stream : ℕ → ℕ)
    (length : ℕ) (header : HasHeader w) (closed : IsClosed master stream length) where
  parse-IsSound :
      (fuel : ℕ) (s : Console) (i : ℕ)
      → length ≤ i + fuel
      → IsSound t w s
      → (u : Console) × (parse fuel matrix behind master s stream length i ≡ some u) × IsSound t w u
  unfolding parse
  parse-IsSound zero s i l h = let e : ltb i length ≡ false = ground arith in rw e (s, refl, h)
  parse-IsSound (suc fuel) s i l h = elim (Bool-cases (ltb i length)) [
    | inr e ↦ rw e (s, refl, h)
    | inl e ↦
        let (u, j, f, later, sound) =
          step-Steps t w matrix behind master s stream length i header closed (ground arith) h in
        rw (e, f) (parse-IsSound fuel u j (omega (arith, later)) sound)
  ]

  pub receive-IsSound :
      (s : Console)
      → IsSound t w s
      → (u : Console) × (receive matrix behind master s stream length ≡ some u) × IsSound t w u
  unfolding receive
  receive-IsSound s h =
      let off = with_terminal s (lib_terminal_cursor_disable s.terminal) in
      let (u, e, sound) =
        parse-IsSound length off 0 (omega arith)
          (kept-IsSound t w s h _ (disable-Keeps s.terminal h.fits h.keeps.placed)) in
      rw e (
        with_terminal u (lib_terminal_cursor_enable u.terminal),
        refl,
        kept-IsSound t w u sound _ (enable-Keeps u.terminal sound.fits sound.keeps.placed),
      )

-- The console as it starts, with a terminal that is set up, and with the interface `w`.
abbrev pub started : Terminal → Interface → Console
started t w = record {
  terminal = lib_terminal t;
  cursor_x = 0;
  cursor_y = 0;
  interface = w;
  requests = [];
}
