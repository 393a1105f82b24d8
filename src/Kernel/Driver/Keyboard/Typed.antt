-- ===== src/Kernel/Driver/Keyboard/Typed.antt =====
-- Keys that are typed and then read by the framebuffer's manager.
use fern_night.Prelude.{
  ℕ, zero, suc, Bool, true, ◌≡◌, refl, sym, ap, ap₂, ◌∙◌, List, [], ◌∷◌, ◌++◌, take, append-nil,
  append_assoc, ◌==◌, if◌then◌else◌, Bool-cases, inl, inr, arith,
}
use fern_night.Kernel.Driver.Keyboard.{
  Keyboard, sequence, sequence_alternative, accept, composed, driver_ps2_keyboard,
  driver_ps2_keyboard_key_read,
}
use fern_night.Kernel.Driver.Keyboard.Queue.{
  waiting, IsBuffer, kept, head, tail, save-IsBuffer, waiting-save, take-waiting, take-take_append,
  forward-IsBuffer,
}

-- The keyboard after an interrupt for each byte.
unfoldable pub type : (Bool → ℕ → ℕ) → Keyboard → List ℕ → Keyboard
type behind s [] = s
type behind s (b ∷ bytes) = type behind (driver_ps2_keyboard behind s b) bytes

-- A byte that only starts a sequence.
abbrev pub is_prefix : ℕ → Bool
is_prefix b = if b == sequence then true else b == sequence_alternative

-- What a byte changes but for the buffer: the next scancode and matrix.
abbrev pub codes_of : (Bool → ℕ → ℕ) → Keyboard → ℕ → List ℕ
codes_of behind s b = if is_prefix b then [] else kept (composed behind s b)

-- The key codes of bytes, in order.
unfoldable pub codes : (Bool → ℕ → ℕ) → Keyboard → List ℕ → List ℕ
codes behind s [] = []
codes behind s (b ∷ bytes) =
    codes_of behind s b ++ codes behind (driver_ps2_keyboard behind s b) bytes

-- The key codes that the manager `pid` reads in `n` calls.
unfoldable pub reads : ℕ → ℕ → Keyboard → List ℕ
reads pid zero s = []
reads pid (suc n) s = let (k, t) = driver_ps2_keyboard_key_read pid pid s in k ∷ reads pid n t

-- A queue read `n` times; 0 where it is empty.
unfoldable pub served : ℕ → List ℕ → List ℕ
served zero q = []
served (suc n) q = head q ∷ served n (tail q)

module _ (behind : Bool → ℕ → ℕ) where
  interrupt-IsBuffer :
      (s : Keyboard) (b : ℕ)
      → IsBuffer 7 s.storage
      → IsBuffer 7 (driver_ps2_keyboard behind s b).storage
        × (waiting (driver_ps2_keyboard behind s b).storage
            ≡ take 7 (waiting s.storage ++ codes_of behind s b))
  unfolding driver_ps2_keyboard accept
  interrupt-IsBuffer s b v =
      let kept_as : waiting s.storage ≡ take 7 (waiting s.storage ++ []) =
        sym (ap (λ (q : List ℕ). take 7 q) (append-nil (waiting s.storage)) ∙ take-waiting v) in
      elim (Bool-cases (b == sequence)) [
        | inl e ↦ rw e (v, kept_as)
        | inr e ↦ elim (Bool-cases (b == sequence_alternative)) [
          | inl f ↦ rw (e, f) (v, kept_as)
          | inr f ↦
              rw (e, f)
                (save-IsBuffer (composed behind s b) v, waiting-save (composed behind s b) v)
        ]
      ]

  type-IsBuffer :
      (s : Keyboard) (bytes : List ℕ)
      → IsBuffer 7 s.storage
      → IsBuffer 7 (type behind s bytes).storage
        × (waiting (type behind s bytes).storage
            ≡ take 7 (waiting s.storage ++ codes behind s bytes))
  unfolding type codes
  type-IsBuffer s [] v =
      (v, sym (ap (λ (q : List ℕ). take 7 q) (append-nil (waiting s.storage)) ∙ take-waiting v))
  type-IsBuffer s (b ∷ bytes) v =
      let t = driver_ps2_keyboard behind s b in
      let q = waiting s.storage in
      let (v', e) = interrupt-IsBuffer s b v in
      let (v'', f) = type-IsBuffer t bytes v' in
      (
        v'',
        f
            ∙ ap (λ (xs : List ℕ). take 7 (xs ++ codes behind t bytes)) e
            ∙ take-take_append 7 (q ++ codes_of behind s b) (codes behind t bytes)
            ∙ ap (λ (xs : List ℕ). take 7 xs)
                (append_assoc q (codes_of behind s b) (codes behind t bytes)),
      )

reads-served :
    (pid n : ℕ) (s : Keyboard) → IsBuffer 7 s.storage → reads pid n s ≡ served n (waiting s.storage)
unfolding reads served driver_ps2_keyboard_key_read
reads-served pid zero s v = refl
reads-served pid (suc n) s v =
    let e : (pid == pid) ≡ true = ground arith in
    let (h, t, v') = forward-IsBuffer v in
    rw e (ap₂ (λ (k : ℕ) (q : List ℕ). k ∷ q) h (reads-served pid n _ v' ∙ ap (served n) t))

-- Let the buffer of the keyboard be valid: key codes, then free entries, the last of them free. Of
-- the key codes that waited and those that bytes of the controller stand for, in this order and
-- without those that are 0, the first seven are what the manager of the framebuffer reads, one for
-- each call; then it reads 0.
pub reads-type :
    (behind : Bool → ℕ → ℕ) (pid n : ℕ) (s : Keyboard) (bytes : List ℕ)
    → IsBuffer 7 s.storage
    → reads pid n (type behind s bytes)
      ≡ served n (take 7 (waiting s.storage ++ codes behind s bytes))
reads-type behind pid n s bytes v =
    let (v', e) = type-IsBuffer behind s bytes v in
    reads-served pid n (type behind s bytes) v' ∙ ap (served n) e
