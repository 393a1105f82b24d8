-- ===== src/Kernel/Driver/Keyboard/Tests.antt =====
-- The theorems on the keyboard, at the key "a" with and without SHIFT.
use fern_night.Prelude.{arith, ℕ, false, not, ◌≡◌, ◌+◌, refl, List, [], ◌∷◌, ◌++◌, map, take, inl}
use fern_night.Kernel.Driver.Keyboard.{initial, key_release}
use fern_night.Kernel.Driver.Keyboard.Queue.{waiting, all_free}
use fern_night.Kernel.Driver.Keyboard.Typed.{type, codes, reads, served, reads-type}
use fern_night.Kernel.Driver.Keyboard.Shift.{codes-shift}
use fern_night.Kernel.Driver.Keyboard.Letters.{IsKey, letters, cased}

-- The key is pressed, released, and pressed while SHIFT is held.
abbrev bytes : List ℕ
bytes = 0x1E ∷ 0x9E ∷ 0x2A ∷ 0x1E ∷ []

reads-type_example :
    reads 5 6 (type (λ m i. 0) initial bytes)
    ≡ served 6 (take 7 (waiting initial.storage ++ codes (λ m i. 0) initial bytes))
reads-type_example = reads-type (λ m i. 0) 5 6 initial bytes (all_free 7)

q_down-IsKey : IsKey letters 0x10
q_down-IsKey = inl refl

a_down-IsKey : IsKey letters 0x1E
a_down-IsKey = ground arith

a_up-IsKey : IsKey letters 0x9E
a_up-IsKey = ground arith

-- "a" and "q" are pressed while SHIFT is held, and "a" is released after it.
codes-shift_example :
    codes (λ m i. 0) initial ((0x2A ∷ (0x1E ∷ 0x10 ∷ []) ++ (0x2A + key_release) ∷ []) ++ 0x9E ∷ [])
    ≡ ((0x2A + 0xE000) ∷ map (cased (not false)) (0x1E ∷ 0x10 ∷ []) ++ (0x2A + 0xE080) ∷ [])
      ++ map (cased false) (0x9E ∷ [])
codes-shift_example =
    codes-shift (λ m i. 0) false initial 0x2A (0x1E ∷ 0x10 ∷ []) (0x9E ∷ []) (inl refl) (refl, refl)
      (a_down-IsKey, (q_down-IsKey, tt)) (a_up-IsKey, tt)
