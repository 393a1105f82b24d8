-- ===== src/Software/Wm/Input/Cursor.antt =====
-- The mouse in software/wm/event.c: the cursor follows it.
use fern_night.Prelude.{
  ℕ, ◌+◌, ◌-◌, ◌%◌, ◌^◌, bit_and, ◌≤◌, ◌<◌, true, false, not, ◌&&◌, some, List, [], ◌∷◌, ◌==◌,
  if◌then◌else◌, ◌≡◌, ◌≢◌, refl, ap, ◌∙◌, arith, Option-cases, inl, inr,
}
use fern_night.Software.Wm.{Object, origin, has_flag, flag_cursor}
use fern_night.Software.Wm.Moving.{wm_object_move}
use fern_night.Software.Wm.Objects.{
  Desk, put, is_hit, wm_object_find, wm_object_fragile, hide_fragile, hide_object,
}
use fern_night.Software.Wm.Objects.Find.{top, wm_object_find_lem}
use fern_night.Software.Wm.Passes.{notify_taskbar}
use fern_night.Software.Wm.Event.{Seat, status_left_button}
use fern_night.Software.Wm.Input.{
  Mouse, wm_ipc_mouse, delta, pointer, pointed, point_all, lift, choose, select, button, drag,
  cursor_moved, move_cursor, handle_mouse,
}

-- Objects at the same place with the same marks, the flags aside.
pub record SamePlace (o r : Object) : Type 0 where
  pub same_x : o.x ≡ r.x
  pub same_y : o.y ≡ r.y

-- The lower limit of the X axis is tested with the way on the Y axis: where the cursor comes to an
-- object that it would not be in with that way, the object is told another position than the
-- cursor's.
pub pointer-wrong :
    (at by_low by start size : ℕ)
    → start + origin ≤ at + by
    → at + by < start + size + origin
    → size < 2 ^ 16
    → at + by_low < start + origin
    → (pointer at by by start size ≡ at + by - start - origin)
      × (pointer at by_low by start size ≡ 2 ^ 16 - 1)
      × (pointer at by by start size ≢ pointer at by_low by start size)
unfolding pointer
pointer-wrong at by_low by start size a b c e = ground arith

wm_ipc_mouse_kept :
    (s : Seat) (status : ℕ)
    → ((wm_ipc_mouse s status).desk ≡ s.desk)
      × ((wm_ipc_mouse s status).selected ≡ s.selected)
      × ((wm_ipc_mouse s status).cursor ≡ s.cursor)
unfolding wm_ipc_mouse
wm_ipc_mouse_kept s status = ground arith

module _ (q : ℕ) where
  point_all-SamePlace :
      (cursor : Object) (dx dy : ℕ) (list : List ℕ) (objects : ℕ → Object)
      → SamePlace (point_all cursor dx dy list objects q) (objects q)
  unfolding point_all pointed put
  point_all-SamePlace cursor dx dy [] objects = record { same_x = refl; same_y = refl }
  point_all-SamePlace cursor dx dy (p ∷ list) objects = ground (
    arith,
    point_all-SamePlace cursor dx dy list (put objects p (pointed cursor dx dy (objects p))),
  )

  hide_object-SamePlace : (d : Desk) (p : ℕ) → SamePlace ((hide_object d p).objects q) (d.objects q)
  unfolding hide_object put
  hide_object-SamePlace d p = ground arith

  hide_fragile-SamePlace :
      (list : List ℕ) (d : Desk) → SamePlace ((hide_fragile list d).objects q) (d.objects q)
  unfolding hide_fragile
  hide_fragile-SamePlace [] d = record { same_x = refl; same_y = refl }
  hide_fragile-SamePlace (p ∷ list) d =
      ground (arith, hide_fragile-SamePlace list (hide_object d p), hide_object-SamePlace d p)

  lift-SamePlace : (s : Seat) (d : Desk) (p : ℕ) → SamePlace ((lift s d p).objects q) (d.objects q)
  unfolding lift put
  lift-SamePlace s d p = ground arith

  drag-SamePlace :
      (s : Seat) (dx dy : ℕ) (d : Desk)
      → s.selected ≢ q
      → SamePlace ((drag s dx dy d).objects q) (d.objects q)
  unfolding drag wm_object_move put
  drag-SamePlace s dx dy d other = ground arith

  choose-SamePlace :
      (s : Seat) (p dx dy : ℕ) → SamePlace ((choose s p dx dy).desk.objects q) (s.desk.objects q)
  unfolding choose notify_taskbar
  choose-SamePlace s p dx dy = ground (arith, lift-SamePlace s (notify_taskbar s.desk) p)

  select-SamePlace :
      (s : Seat) (p dx dy : ℕ) → SamePlace ((select s p dx dy).desk.objects q) (s.desk.objects q)
  unfolding select wm_object_fragile
  select-SamePlace s p dx dy =
      let t = wm_ipc_mouse (choose s p dx dy) status_left_button in
      ground (
        arith,
        choose-SamePlace s p dx dy,
        wm_ipc_mouse_kept (choose s p dx dy) status_left_button,
        hide_fragile-SamePlace t.desk.list t.desk,
      )

  select_kept :
      (s : Seat) (p dx dy : ℕ)
      → ((select s p dx dy).selected ≡ p) × ((select s p dx dy).cursor ≡ s.cursor)
  unfolding select choose
  select_kept s p dx dy = ground (arith, wm_ipc_mouse_kept (choose s p dx dy) status_left_button)

  -- An object that is found is no cursor.
  found-ne :
      (s : Seat) (mouse : Mouse) (p : ℕ)
      → wm_object_find s.desk.objects s.desk.list mouse.x mouse.y false ≡ some p
      → has_flag (s.desk.objects q) flag_cursor ≡ true
      → p ≢ q
  unfolding is_hit
  found-ne s mouse p e cursor same =
      elim ((wm_object_find_lem s.desk.objects mouse.x mouse.y false s.desk.list p).0 e) [
        | top below above split hit clear ↦
            ground (arith, ap (λ t. has_flag (s.desk.objects t) flag_cursor) same)
      ]

  button-SamePlace :
      (s t : Seat) (mouse : Mouse) (dx dy : ℕ)
      → button s mouse dx dy ≡ some t
      → has_flag (s.desk.objects q) flag_cursor ≡ true
      → s.selected ≢ q
      → SamePlace (t.desk.objects q) (s.desk.objects q) × (t.selected ≢ q) × (t.cursor ≡ s.cursor)
  unfolding button
  button-SamePlace s t mouse dx dy e cursor other =
      elim (Option-cases (wm_object_find s.desk.objects s.desk.list mouse.x mouse.y false)) [
        | inl lost ↦ ground arith
        | inr (p, found) ↦ ground (
          arith,
          select-SamePlace s p dx dy,
          select_kept s p dx dy,
          found-ne s mouse p found cursor,
        )
      ]

point_all-flags :
    (q : ℕ) (cursor : Object) (dx dy : ℕ) (list : List ℕ) (objects : ℕ → Object)
    → (point_all cursor dx dy list objects q).flags ≡ (objects q).flags
unfolding point_all pointed put
point_all-flags q cursor dx dy [] objects = refl
point_all-flags q cursor dx dy (p ∷ list) objects =
    ground (
      arith,
      point_all-flags q cursor dx dy list (put objects p (pointed cursor dx dy (objects p))),
    )

-- A coordinate of 16 bits goes to the mouse.
delta_lem :
    (mouse at : ℕ)
    → mouse < 2 ^ 15
    → at < 2 ^ 16
    → ((at + delta mouse at + 2 ^ 15) % 2 ^ 16 ≡ mouse + origin)
      × (delta mouse at ≡ origin → at ≡ mouse + origin)
unfolding delta
delta_lem mouse at h k = (omega arith, λ e. omega arith)

move_cursor_lem :
    (s : Seat) (dx dy : ℕ)
    → s.selected ≢ s.cursor
    → (((move_cursor s dx dy).desk.objects s.cursor).x ≡ (
        if dx == origin && dy == origin
        then (s.desk.objects s.cursor).x
        else ((s.desk.objects s.cursor).x + dx + 2 ^ 15) % 2 ^ 16))
      × (((move_cursor s dx dy).desk.objects s.cursor).y ≡ (
          if dx == origin && dy == origin
          then (s.desk.objects s.cursor).y
          else ((s.desk.objects s.cursor).y + dy + 2 ^ 15) % 2 ^ 16))
unfolding move_cursor cursor_moved put
move_cursor_lem s dx dy other =
    ground (arith, drag-SamePlace s.cursor s dx dy (cursor_moved s dx dy) other)

-- Let the mouse be at coordinates below 2 ^ 15, and let the cursor be marked as such, not be the
-- selected object, and have coordinates of 16 bits. If handling the mouse does not fail, the cursor
-- is where the mouse is.
pub handle_mouse-cursor :
    (s t : Seat) (mouse : Mouse)
    → mouse.x < 2 ^ 15
    → mouse.y < 2 ^ 15
    → (s.desk.objects s.cursor).x < 2 ^ 16
    → (s.desk.objects s.cursor).y < 2 ^ 16
    → has_flag (s.desk.objects s.cursor) flag_cursor ≡ true
    → s.selected ≢ s.cursor
    → handle_mouse s mouse ≡ some t
    → ((t.desk.objects s.cursor).x ≡ mouse.x + origin)
      × ((t.desk.objects s.cursor).y ≡ mouse.y + origin)
unfolding handle_mouse
handle_mouse-cursor s t mouse h k a b cursor other e =
    let o = s.desk.objects s.cursor in
    let dx = delta mouse.x o.x in
    let dy = delta mouse.y o.y in
    let pointed = point_all o dx dy s.desk.list s.desk.objects in
    let r = record s { desk = record s.desk { objects = pointed } } in
    elim (Option-cases (button r mouse dx dy)) [
      | inl lost ↦ ground arith
      | inr (u, pressed) ↦
          let marked : has_flag (pointed s.cursor) flag_cursor ≡ true =
            ap (λ (n : ℕ). not (bit_and n flag_cursor == 0))
              (point_all-flags s.cursor o dx dy s.desk.list s.desk.objects)
            ∙ cursor in
          let (same, apart, kept) =
            button-SamePlace s.cursor r u mouse dx dy pressed marked other in
          let place = point_all-SamePlace s.cursor o dx dy s.desk.list s.desk.objects in
          let moved = move_cursor_lem u dx dy (λ clash. apart (clash ∙ kept)) in
          ground (
            arith,
            moved,
            delta_lem mouse.x o.x h a,
            delta_lem mouse.y o.y k b,
            kept,
            place.same_x,
            place.same_y,
            same.same_x,
            same.same_y,
          )
    ]
