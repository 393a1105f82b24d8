-- ===== src/Kernel/Driver/Keyboard/Queue.antt =====
-- The buffer of the keyboard is a queue of at most seven key codes.
use native.Mathlib.Decide.{ℕ_discrete}
use fern_night.Prelude.{
  ℕ, zero, suc, false, ◌≡◌, ◌≢◌, refl, ap, ◌∙◌, List, [], ◌∷◌, ◌++◌, get_or, set, take, replicate,
  ◌==◌, if◌then◌else◌, arith,
}
use fern_night.Kernel.Driver.Keyboard.{save, forward}

-- The key codes that wait: those in front of the first free entry.
unfoldable pub waiting : List ℕ → List ℕ
waiting [] = []
waiting (k ∷ storage) = if k == 0 then [] else k ∷ waiting storage

-- Room for `n` key codes, the first of which are taken, and a free entry.
pub data IsBuffer : ℕ → List ℕ → Type 0 where
  all_free : (n : ℕ) → IsBuffer n (replicate (suc n) 0)
  holds : {k n : ℕ} {storage : List ℕ} → k ≢ 0 → IsBuffer n storage → IsBuffer (suc n) (k ∷ storage)

-- A key code as one that is kept; 0 is none.
abbrev pub kept : ℕ → List ℕ
kept k = if k == 0 then [] else k ∷ []

take-nil : (n : ℕ) → take {A = ℕ} n [] ≡ []
take-nil zero = refl
take-nil (suc n) = refl

pub save-IsBuffer :
    {n : ℕ} {storage : List ℕ} (k : ℕ) → IsBuffer n storage → IsBuffer n (save n storage k)
unfolding save
save-IsBuffer k (all_free zero) = all_free zero
save-IsBuffer k (all_free (suc n)) = elim (ℕ_discrete k 0) [
  | yes e ↦ rw e (all_free (suc n))
  | no ne ↦ holds ne (all_free n)
]
save-IsBuffer k (holds {k = j} ne b) =
    let e : (j == 0) ≡ false = ground arith in rw e (holds ne (save-IsBuffer k b))

pub waiting-save :
    {n : ℕ} {storage : List ℕ} (k : ℕ)
    → IsBuffer n storage
    → waiting (save n storage k) ≡ take n (waiting storage ++ kept k)
unfolding save waiting
waiting-save k (all_free zero) = refl
waiting-save k (all_free (suc n)) = elim (ℕ_discrete k 0) [
  | yes e ↦ rw e refl
  | no ne ↦ let e : (k == 0) ≡ false = ground arith in rw (e, take-nil n) refl
]
waiting-save k (holds {k = j} ne b) =
    let e : (j == 0) ≡ false = ground arith in
    rw e (rw e (ap (λ (xs : List ℕ). j ∷ xs) (waiting-save k b)))

-- The round at one index moves a list without its head in the same way.
forward-cons :
    (n i x : ℕ) (storage : List ℕ) → forward n (suc i) (x ∷ storage) ≡ x ∷ forward n i storage
unfolding forward
forward-cons zero i x storage = refl
forward-cons (suc n) i x storage =
    forward-cons n (suc i) x (set storage i (get_or storage (suc i) 0))

forward-free : (n : ℕ) → forward n 0 (replicate (suc n) 0) ≡ replicate (suc n) 0
unfolding forward
forward-free zero = refl
forward-free (suc n) =
    forward-cons n 0 0 (replicate (suc n) 0) ∙ ap (λ (xs : List ℕ). 0 ∷ xs) (forward-free n)

abbrev pub tail : List ℕ → List ℕ
tail [] = []
tail (x ∷ xs) = xs

abbrev pub head : List ℕ → ℕ
head [] = 0
head (x ∷ xs) = x

-- A buffer, and what is left of it when its first key code is gone.
forward-holds :
    {n : ℕ} {storage : List ℕ} (k : ℕ)
    → IsBuffer n storage
    → (waiting (forward (suc n) 0 (k ∷ storage)) ≡ waiting storage)
      × IsBuffer (suc n) (forward (suc n) 0 (k ∷ storage))
unfolding forward waiting
forward-holds k (all_free n) =
    rw (forward-cons n 0 0 (replicate (suc n) 0), forward-free n) (refl, all_free (suc n))
forward-holds k (holds {k = j} {n = n} {storage = storage} ne b) =
    let e : (j == 0) ≡ false = ground arith in
    let ih = forward-holds j b in
    rw (forward-cons (suc n) 0 j (j ∷ storage), e)
      (ap (λ (xs : List ℕ). j ∷ xs) ih.0, holds ne ih.1)

-- A key code is taken from the front.
pub forward-IsBuffer :
    {n : ℕ} {storage : List ℕ}
    → IsBuffer n storage
    → (get_or storage 0 0 ≡ head (waiting storage))
      × (waiting (forward n 0 storage) ≡ tail (waiting storage))
      × IsBuffer n (forward n 0 storage)
unfolding waiting
forward-IsBuffer (all_free n) = rw (forward-free n) (refl, refl, all_free n)
forward-IsBuffer (holds {k = j} ne b) =
    let e : (j == 0) ≡ false = ground arith in let (w, v) = forward-holds j b in rw e (refl, w, v)

-- A buffer for `n` key codes has no more of them.
pub take-waiting :
    {n : ℕ} {storage : List ℕ} → IsBuffer n storage → take n (waiting storage) ≡ waiting storage
unfolding waiting
take-waiting (all_free n) = take-nil n
take-waiting (holds {k = j} ne b) =
    let e : (j == 0) ≡ false = ground arith in rw e (ap (λ (xs : List ℕ). j ∷ xs) (take-waiting b))

pub take-take_append : (n : ℕ) (xs ys : List ℕ) → take n (take n xs ++ ys) ≡ take n (xs ++ ys)
take-take_append zero xs ys = refl
take-take_append (suc n) [] ys = refl
take-take_append (suc n) (x ∷ xs) ys = ap (λ (zs : List ℕ). x ∷ zs) (take-take_append n xs ys)
