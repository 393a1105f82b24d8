-- ===== src/Software/Wm/Objects/Stacking.antt =====
-- The order of the object list of software/wm/object.c: arbiters and the cursor stay in front.
use fern_night.Prelude.{
  ℕ, zero, suc, ◌<◌, Bool, true, false, ◌&&◌, List, [], ◌∷◌, ◌++◌, length, if◌then◌else◌, ◌≡◌, ◌≢◌,
  refl, arith,
}
use fern_night.Software.Wm.{Object, has_flag, flag_cursor}
use fern_night.Software.Wm.Objects.{
  is_upper, list_limit, insert_into, wm_object_insert, sink, wm_object_move_up, remove_entry,
}

-- Lists of objects that give way, and of objects that stay in front.
abbrev pub AllLower : (ℕ → Object) → List ℕ → Type 0
AllLower objects [] = Unit {0}
AllLower objects (p ∷ list) = (is_upper (objects p) ≡ false) × AllLower objects list

abbrev pub AllUpper : (ℕ → Object) → List ℕ → Type 0
AllUpper objects [] = Unit {0}
AllUpper objects (p ∷ list) = (is_upper (objects p) ≡ true) × AllUpper objects list

-- An object is not on a list.
abbrev pub Missing : ℕ → List ℕ → Type 0
Missing p [] = Unit {0}
Missing p (q ∷ list) = (q ≢ p) × Missing p list

module _ (objects : ℕ → Object) (p : ℕ) where
  insert_into_lem :
      (left : ℕ) (lower upper : List ℕ)
      → AllLower objects lower
      → AllUpper objects upper
      → is_upper (objects p) ≡ false
      → length lower < left
      → insert_into left objects p (lower ++ upper) ≡ lower ++ (p ∷ upper)
  unfolding insert_into
  insert_into_lem zero lower upper a b low room = absurd (omega arith)
  insert_into_lem (suc left) [] [] a b low room = refl
  insert_into_lem (suc left) [] (q ∷ upper) a (front, b) low room = ground arith
  insert_into_lem (suc left) (q ∷ lower) upper (back, a) b low room =
      ground (arith, insert_into_lem left lower upper a b low (omega arith))

  -- A new object that gives way comes in front of all others that do, and behind those that stay in
  -- front, if the objects that give way leave room in the list.
  pub wm_object_insert_lem :
      (lower upper : List ℕ)
      → AllLower objects lower
      → AllUpper objects upper
      → is_upper (objects p) ≡ false
      → length lower < list_limit
      → wm_object_insert objects p (lower ++ upper) ≡ lower ++ (p ∷ upper)
  unfolding wm_object_insert
  wm_object_insert_lem lower upper a b low room =
      insert_into_lem list_limit lower upper a b low room

  insert_cursor :
      (left : ℕ) (list : List ℕ)
      → has_flag (objects p) flag_cursor ≡ true
      → length list < left
      → insert_into left objects p list ≡ list ++ (p ∷ [])
  unfolding insert_into
  insert_cursor zero list c room = absurd (omega arith)
  insert_cursor (suc left) [] c room = refl
  insert_cursor (suc left) (q ∷ list) c room =
      ground (arith, insert_cursor left list c (omega arith))

  -- A cursor comes in front of everything.
  pub wm_object_insert-cursor :
      (list : List ℕ)
      → has_flag (objects p) flag_cursor ≡ true
      → length list < list_limit
      → wm_object_insert objects p list ≡ list ++ (p ∷ [])
  unfolding wm_object_insert
  wm_object_insert-cursor list c room = insert_cursor list_limit list c room

  sink_lem :
      (lower upper : List ℕ)
      → AllLower objects lower
      → AllUpper objects upper
      → sink objects p (lower ++ upper) ≡ lower ++ (p ∷ upper)
  unfolding sink
  sink_lem [] [] a b = refl
  sink_lem [] (q ∷ upper) a (front, b) = ground arith
  sink_lem (q ∷ lower) upper (back, a) b = ground (arith, sink_lem lower upper a b)

  -- An object that is moved up comes in front of the objects that give way behind it in the list, and
  -- stays behind those that stay in front; the others keep their order.
  pub wm_object_move_up_lem :
      (below lower upper : List ℕ)
      → Missing p below
      → AllLower objects lower
      → AllUpper objects upper
      → wm_object_move_up objects p (below ++ (p ∷ (lower ++ upper)))
        ≡ below ++ (lower ++ (p ∷ upper))
  unfolding wm_object_move_up
  wm_object_move_up_lem [] lower upper m a b = ground (arith, sink_lem lower upper a b)
  wm_object_move_up_lem (q ∷ below) lower upper (apart, m) a b =
      ground (arith, wm_object_move_up_lem below lower upper m a b)

  -- Moving an object up that is not on the list changes nothing.
  pub wm_object_move_up-Missing :
      (list : List ℕ) → Missing p list → wm_object_move_up objects p list ≡ list
  unfolding wm_object_move_up
  wm_object_move_up-Missing [] m = refl
  wm_object_move_up-Missing (q ∷ list) (apart, m) = ground (arith, wm_object_move_up-Missing list m)

  -- A removed object leaves the others in their order.
  pub remove_entry_lem :
      (below above : List ℕ)
      → Missing p below
      → remove_entry p (below ++ (p ∷ above)) ≡ below ++ above
  unfolding remove_entry
  remove_entry_lem [] [] m = refl
  remove_entry_lem [] (q ∷ above) m = ground arith
  remove_entry_lem (q ∷ []) above (apart, m) = ground (arith, remove_entry_lem [] above tt)
  remove_entry_lem (q ∷ r ∷ below) above (apart, m) =
      ground (arith, remove_entry_lem (r ∷ below) above m)

-- Whether all that stays in front comes last.
abbrev pub all_upper : (ℕ → Object) → List ℕ → Bool
all_upper objects [] = true
all_upper objects (p ∷ list) = is_upper (objects p) && all_upper objects list

abbrev pub is_layered : (ℕ → Object) → List ℕ → Bool
is_layered objects [] = true
is_layered objects (p ∷ list) =
    if is_upper (objects p) then all_upper objects list else is_layered objects list

module _ (objects : ℕ → Object) where
  all_upper-is_layered :
      (list : List ℕ) → all_upper objects list ≡ true → is_layered objects list ≡ true
  all_upper-is_layered [] h = refl
  all_upper-is_layered (p ∷ list) h = ground arith

  module _ (p : ℕ) where
    insert_all_upper :
        (left : ℕ) (list : List ℕ)
        → is_upper (objects p) ≡ true
        → all_upper objects list ≡ true
        → all_upper objects (insert_into left objects p list) ≡ true
    unfolding insert_into
    insert_all_upper zero list u h = h
    insert_all_upper (suc left) [] u h = ground arith
    insert_all_upper (suc left) (q ∷ list) u h = ground (arith, insert_all_upper left list u)

    insert_layered :
        (left : ℕ) (list : List ℕ)
        → is_layered objects list ≡ true
        → is_layered objects (insert_into left objects p list) ≡ true
    unfolding insert_into
    insert_layered zero list h = h
    insert_layered (suc left) [] h = ground arith
    insert_layered (suc left) (q ∷ list) h =
        ground (arith, insert_layered left list, insert_all_upper left list)

    sink-all_upper :
        (list : List ℕ)
        → is_upper (objects p) ≡ true
        → all_upper objects list ≡ true
        → all_upper objects (sink objects p list) ≡ true
    unfolding sink
    sink-all_upper [] u h = ground arith
    sink-all_upper (q ∷ list) u h = ground (arith, sink-all_upper list u)

    sink_layered :
        (list : List ℕ)
        → is_layered objects (p ∷ list) ≡ true
        → is_layered objects (sink objects p list) ≡ true
    unfolding sink
    sink_layered [] h = ground arith
    sink_layered (q ∷ list) h = ground (arith, sink_layered list)

    move_up_all_upper :
        (list : List ℕ)
        → all_upper objects list ≡ true
        → all_upper objects (wm_object_move_up objects p list) ≡ true
    unfolding wm_object_move_up
    move_up_all_upper [] h = refl
    move_up_all_upper (q ∷ list) h = ground (arith, move_up_all_upper list, sink-all_upper list)

    move_up_layered :
        (list : List ℕ)
        → is_layered objects list ≡ true
        → is_layered objects (wm_object_move_up objects p list) ≡ true
    unfolding wm_object_move_up
    move_up_layered [] h = refl
    move_up_layered (q ∷ list) h =
        ground (arith, move_up_layered list, move_up_all_upper list, sink_layered list)

    remove_all_upper :
        (list : List ℕ)
        → all_upper objects list ≡ true
        → all_upper objects (remove_entry p list) ≡ true
    unfolding remove_entry
    remove_all_upper [] h = refl
    remove_all_upper (q ∷ []) h = refl
    remove_all_upper (q ∷ r ∷ list) h = ground (arith, remove_all_upper (r ∷ list))

    remove_layered :
        (list : List ℕ)
        → is_layered objects list ≡ true
        → is_layered objects (remove_entry p list) ≡ true
    unfolding remove_entry
    remove_layered [] h = refl
    remove_layered (q ∷ []) h = refl
    remove_layered (q ∷ r ∷ list) h = ground (
      arith,
      remove_layered (r ∷ list),
      remove_all_upper (r ∷ list),
      all_upper-is_layered (r ∷ list),
    )

    -- If no object that gives way stands in front of an arbiter or a cursor, then that is so after
    -- any object is inserted, moved up or removed.
    pub stacking :
        (list : List ℕ)
        → is_layered objects list ≡ true
        → (is_layered objects (wm_object_insert objects p list) ≡ true)
          × (is_layered objects (wm_object_move_up objects p list) ≡ true)
          × (is_layered objects (remove_entry p list) ≡ true)
    unfolding wm_object_insert
    stacking list h =
        (insert_layered list_limit list h, move_up_layered list h, remove_layered list h)
