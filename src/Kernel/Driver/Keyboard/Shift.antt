-- ===== src/Kernel/Driver/Keyboard/Shift.antt =====
-- Keys that are pressed while SHIFT is held.
use fern_night.Prelude.{
  ℕ, ◌+◌, Bool, true, false, not, ◌≡◌, ◌⊎◌, refl, sym, ap, ap₂, ◌∙◌, List, [], ◌∷◌, ◌++◌, map,
  append-nil, append_assoc, ◌==◌, if◌then◌else◌, inl, inr, arith,
}
use fern_night.Kernel.Driver.Keyboard.{
  Keyboard, is_toggle, accept, composed, translated, driver_ps2_keyboard, key_release, sequence,
  sequence_alternative,
}
use fern_night.Kernel.Driver.Keyboard.Letters.{cased, AreLetters, letters_given}
use fern_night.Kernel.Driver.Keyboard.Queue.{kept}
use fern_night.Kernel.Driver.Keyboard.Typed.{type, codes, codes_of, is_prefix}

-- Bytes that start no sequence and have a key code which is not 0 and changes no matrix.
abbrev pub IsPlain : (Bool → ℕ → ℕ) → Bool → List ℕ → Type 0
IsPlain behind m [] = Unit {0}
IsPlain behind m (b ∷ bytes) =
    (is_prefix b ≡ false)
    × ((translated behind m b == 0) ≡ false)
    × (is_toggle (translated behind m b) ≡ false)
    × IsPlain behind m bytes

-- The state but for the buffer.
abbrev pub Stands : Bool → Keyboard → Type 0
Stands m s = (s.matrix ≡ m) × (s.scancode ≡ 0)

codes-append :
    (behind : Bool → ℕ → ℕ) (s : Keyboard) (xs ys : List ℕ)
    → codes behind s (xs ++ ys) ≡ codes behind s xs ++ codes behind (type behind s xs) ys
unfolding codes type
codes-append behind s [] ys = refl
codes-append behind s (x ∷ xs) ys =
    let t = driver_ps2_keyboard behind s x in
    ap (λ (zs : List ℕ). codes_of behind s x ++ zs) (codes-append behind t xs ys)
    ∙ sym (
        append_assoc (codes_of behind s x) (codes behind t xs) (codes behind (type behind t xs) ys))

type-append :
    (behind : Bool → ℕ → ℕ) (s : Keyboard) (xs ys : List ℕ)
    → type behind s (xs ++ ys) ≡ type behind (type behind s xs) ys
unfolding type
type-append behind s [] ys = refl
type-append behind s (x ∷ xs) ys = type-append behind (driver_ps2_keyboard behind s x) xs ys

-- A key code that is complete, of a byte that starts no sequence.
interrupt-Stands :
    (behind : Bool → ℕ → ℕ) (m : Bool) (s : Keyboard) (b : ℕ)
    → Stands m s
    → is_prefix b ≡ false
    → (codes_of behind s b ≡ kept (translated behind m b))
      × Stands
          (if is_toggle (translated behind m b) then not m else m)
          (driver_ps2_keyboard behind s b)
unfolding driver_ps2_keyboard accept composed
interrupt-Stands behind m s b (e, z) p =
    let f : (b == sequence) ≡ false = ground arith in
    let g : (b == sequence_alternative) ≡ false = ground arith in
    rw (f, g, z, e) (refl, (refl, refl))

codes-IsPlain :
    (behind : Bool → ℕ → ℕ) (m : Bool) (s : Keyboard) (bytes : List ℕ)
    → Stands m s
    → IsPlain behind m bytes
    → (codes behind s bytes ≡ map (translated behind m) bytes) × Stands m (type behind s bytes)
unfolding codes type
codes-IsPlain behind m s [] h p = (refl, h)
codes-IsPlain behind m s (b ∷ bytes) h (p, n, t, rest) =
    let (c, st) = interrupt-Stands behind m s b h p in
    let st' = rw t at st in
    let (cs, end) = codes-IsPlain behind m (driver_ps2_keyboard behind s b) bytes st' rest in
    let c' : kept (translated behind m b) ≡ translated behind m b ∷ [] = rw n refl in
    (ap₂ (λ (xs ys : List ℕ). xs ++ ys) (c ∙ c') cs, end)

-- The press and the release of a SHIFT key, in both matrices.
shift_key :
    (behind : Bool → ℕ → ℕ) (m : Bool) (hold : ℕ)
    → (hold ≡ 0x2A) ⊎ (hold ≡ 0x36)
    → (is_prefix hold ≡ false)
      × (translated behind m hold ≡ hold + 0xE000)
      × (is_toggle (hold + 0xE000) ≡ true)
      × (is_prefix (hold + key_release) ≡ false)
      × (translated behind m (hold + key_release) ≡ hold + 0xE080)
      × (is_toggle (hold + 0xE080) ≡ true)
unfolding translated is_toggle
shift_key behind true hold (inl e) = rw e (refl, refl, refl, refl, refl, refl)
shift_key behind true hold (inr e) = rw e (refl, refl, refl, refl, refl, refl)
shift_key behind false hold (inl e) = rw e (refl, refl, refl, refl, refl, refl)
shift_key behind false hold (inr e) = rw e (refl, refl, refl, refl, refl, refl)

not-not : (m : Bool) → not (not m) ≡ m
not-not true = refl
not-not false = refl

-- A byte whose key code is that of a SHIFT key.
toggled :
    (behind : Bool → ℕ → ℕ) (m : Bool) (s : Keyboard) (b c : ℕ)
    → Stands m s
    → is_prefix b ≡ false
    → translated behind m b ≡ c
    → is_toggle c ≡ true
    → (c == 0) ≡ false
    → (codes_of behind s b ≡ c ∷ []) × Stands (not m) (driver_ps2_keyboard behind s b)
toggled behind m s b c h p e t z =
    let (k, st) = interrupt-Stands behind m s b h p in
    let k' : kept (translated behind m b) ≡ c ∷ [] = rw e (rw z refl) in (k ∙ k', rw (e, t) at st)

-- The bytes while a SHIFT key is held, whose codes are those of the other matrix, up to its release.
held-IsPlain :
    (behind : Bool → ℕ → ℕ) (m : Bool) (s : Keyboard) (hold : ℕ) (bytes : List ℕ)
    → (hold ≡ 0x2A) ⊎ (hold ≡ 0x36)
    → Stands m s
    → IsPlain behind (not m) bytes
    → (codes behind s (hold ∷ bytes ++ (hold + key_release) ∷ [])
        ≡ (hold + 0xE000) ∷ map (translated behind (not m)) bytes ++ (hold + 0xE080) ∷ [])
      × Stands m (type behind s (hold ∷ bytes ++ (hold + key_release) ∷ []))
unfolding codes type
held-IsPlain behind m s hold bytes h st p =
    let (a, k, t, a', _, _) = shift_key behind m hold h in
    let (_, _, _, _, k', t') = shift_key behind (not m) hold h in
    let (c, st') = toggled behind m s hold (hold + 0xE000) st a k t (ground arith) in
    let held = driver_ps2_keyboard behind s hold in
    let (cs, st'') = codes-IsPlain behind (not m) held bytes st' p in
    let last = type behind held bytes in
    let up = hold + key_release in
    let (c', end) = toggled behind (not m) last up (hold + 0xE080) st'' a' k' t' (ground arith) in
    let e : codes behind last (up ∷ []) ≡ (hold + 0xE080) ∷ [] =
      append-nil (codes_of behind last up) ∙ c' in
    let rest : codes behind held (bytes ++ up ∷ [])
        ≡ map (translated behind (not m)) bytes ++ (hold + 0xE080) ∷ [] =
      codes-append behind held bytes (up ∷ []) ∙ ap₂ (λ (xs ys : List ℕ). xs ++ ys) cs e in
    let stands : Stands (not (not m)) (type behind held (bytes ++ up ∷ [])) =
      rw (type-append behind held bytes (up ∷ [])) end in
    (ap₂ (λ (xs ys : List ℕ). xs ++ ys) c rest, rw (not-not m) at stands)

letters-IsPlain :
    (behind : Bool → ℕ → ℕ) (m : Bool) (bytes : List ℕ)
    → AreLetters bytes
    → IsPlain behind m bytes × (map (translated behind m) bytes ≡ map (cased m) bytes)
letters-IsPlain behind m [] h = (tt, refl)
letters-IsPlain behind m (b ∷ bytes) (k, h) =
    let (p, n, t, e) = letters_given behind m b k in
    let (rest, f) = letters-IsPlain behind m bytes h in
    ((p, n, t, rest), ap₂ (λ (x : ℕ) (xs : List ℕ). x ∷ xs) e f)

-- Let no sequence be started, and let `hold` be the scancode of a SHIFT key. Of keys of letters, whose
-- scancodes are those of the rows from "q", "a" and "z" on, the presses and releases while SHIFT is
-- held give the letters in upper case, and those after it is released in lower case; the codes of
-- releases are 0x80 more. Where the matrix of capital letters was chosen before, as by CAPSLOCK, it
-- is the other way round.
pub codes-shift :
    (behind : Bool → ℕ → ℕ) (m : Bool) (s : Keyboard) (hold : ℕ) (bytes later : List ℕ)
    → (hold ≡ 0x2A) ⊎ (hold ≡ 0x36)
    → Stands m s
    → AreLetters bytes
    → AreLetters later
    → codes behind s ((hold ∷ bytes ++ (hold + key_release) ∷ []) ++ later)
      ≡ ((hold + 0xE000) ∷ map (cased (not m)) bytes ++ (hold + 0xE080) ∷ []) ++ map (cased m) later
codes-shift behind m s hold bytes later h st b l =
    let (p, e) = letters-IsPlain behind (not m) bytes b in
    let (q, f) = letters-IsPlain behind m later l in
    let (c, stands) = held-IsPlain behind m s hold bytes h st p in
    let held = hold ∷ bytes ++ (hold + key_release) ∷ [] in
    codes-append behind s held later
    ∙ ap₂ (λ (xs ys : List ℕ). xs ++ ys)
        (c ∙ ap (λ (xs : List ℕ). (hold + 0xE000) ∷ xs ++ (hold + 0xE080) ∷ []) e)
        ((codes-IsPlain behind m (type behind s held) later stands q).0 ∙ f)
