-- ===== src/Kernel/Driver/Keyboard/Letters.antt =====
-- The keys of letters, and what they give in the two matrices.
use fern_night.Prelude.{
  ℕ, ◌+◌, ◌-◌, Bool, true, false, not, ◌&&◌, ◌≡◌, ◌⊎◌, refl, List, [], ◌∷◌, ltb, get_or, ◌==◌,
  if◌then◌else◌, inl, inr, arith,
}
use fern_night.Kernel.Driver.Keyboard.{translated, is_toggle, key_release}
use fern_night.Kernel.Driver.Keyboard.Typed.{is_prefix}

-- The letters of the keyboard, by the number of the key in its row, from the scancode of the row on.
abbrev letter : ℕ → ℕ
letter b =
    if ltb b 0x1E
    then get_or (b'q' ∷ b'w' ∷ b'e' ∷ b'r' ∷ b't' ∷ b'y' ∷ b'u' ∷ b'i' ∷ b'o' ∷ b'p' ∷ [])
        (b - 0x10) 0
    else if ltb b 0x2C
    then get_or (b'a' ∷ b's' ∷ b'd' ∷ b'f' ∷ b'g' ∷ b'h' ∷ b'j' ∷ b'k' ∷ b'l' ∷ []) (b - 0x1E) 0
    else get_or (b'z' ∷ b'x' ∷ b'c' ∷ b'v' ∷ b'b' ∷ b'n' ∷ b'm' ∷ []) (b - 0x2C) 0

-- What a key gives that is pressed: the letter, in upper case or in lower case; a key that is released
-- gives 0x80 more.
abbrev pub cased : Bool → ℕ → ℕ
cased upper b =
    let letter_of = λ (k : ℕ). if upper then letter k - b'a' + b'A' else letter k in
    if ltb b key_release then letter_of b else letter_of (b - key_release) + key_release

-- The scancodes of the 26 letters.
abbrev pub letters : List ℕ
letters =
    0x10 ∷ 0x11 ∷ 0x12 ∷ 0x13 ∷ 0x14 ∷ 0x15 ∷ 0x16 ∷ 0x17 ∷ 0x18 ∷ 0x19 ∷ 0x1E ∷ 0x1F ∷ 0x20 ∷ 0x21
    ∷ 0x22 ∷ 0x23 ∷ 0x24 ∷ 0x25 ∷ 0x26 ∷ 0x2C ∷ 0x2D ∷ 0x2E ∷ 0x2F ∷ 0x30 ∷ 0x31 ∷ 0x32 ∷ []

-- The press or the release of one of some keys.
abbrev pub IsKey : List ℕ → ℕ → Type 0
IsKey [] b = ⊥
IsKey (k ∷ keys) b = (b ≡ k) ⊎ (b ≡ k + key_release) ⊎ IsKey keys b

abbrev pub AreLetters : List ℕ → Type 0
AreLetters [] = Unit {0}
AreLetters (b ∷ bytes) = IsKey letters b × AreLetters bytes

both : (a b : Bool) → a && b ≡ true → (a ≡ true) × (b ≡ true)
both a b h = (ground arith, ground arith)

-- Whether a byte is plain and its key gives the letter in the case of the matrix.
abbrev gives : (Bool → ℕ → ℕ) → Bool → ℕ → Bool
gives behind m b =
    let code = translated behind m b in
    not (is_prefix b) && (not (code == 0) && (not (is_toggle code) && code == cased m b))

abbrev all_give : (Bool → ℕ → ℕ) → Bool → List ℕ → Bool
all_give behind m [] = true
all_give behind m (k ∷ keys) =
    gives behind m k && (gives behind m (k + key_release) && all_give behind m keys)

all_give-IsKey :
    (behind : Bool → ℕ → ℕ) (m : Bool) (keys : List ℕ) (b : ℕ)
    → all_give behind m keys ≡ true
    → IsKey keys b
    → gives behind m b ≡ true
all_give-IsKey behind m [] b h e = elim e [ ]
all_give-IsKey behind m (k ∷ keys) b h (inl e) = rw e (both (gives behind m k) _ h).0
all_give-IsKey behind m (k ∷ keys) b h (inr (inl e)) =
    rw e (both (gives behind m (k + key_release)) _ (both (gives behind m k) _ h).1).0
all_give-IsKey behind m (k ∷ keys) b h (inr (inr e)) =
    all_give-IsKey behind m keys b
      (both (gives behind m (k + key_release)) _ (both (gives behind m k) _ h).1).1 e

all_give-letters : (behind : Bool → ℕ → ℕ) (m : Bool) → all_give behind m letters ≡ true
unfolding translated is_toggle
all_give-letters behind true = refl
all_give-letters behind false = refl

parts :
    (a b c : Bool) (x y : ℕ)
    → not a && (not b && (not c && x == y)) ≡ true
    → (a ≡ false) × (b ≡ false) × (c ≡ false) × (x ≡ y)
parts a b c x y h = (ground arith, ground arith, ground arith, ground arith)

-- The press or the release of a letter starts no sequence, has a code, changes no matrix and gives the
-- letter.
pub letters_given :
    (behind : Bool → ℕ → ℕ) (m : Bool) (b : ℕ)
    → IsKey letters b
    → (is_prefix b ≡ false)
      × ((translated behind m b == 0) ≡ false)
      × (is_toggle (translated behind m b) ≡ false)
      × (translated behind m b ≡ cased m b)
letters_given behind m b k =
    parts (is_prefix b) (translated behind m b == 0) (is_toggle (translated behind m b))
      (translated behind m b) (cased m b)
      (all_give-IsKey behind m letters b (all_give-letters behind m) k)
