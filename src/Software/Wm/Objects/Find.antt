-- ===== src/Software/Wm/Objects/Find.antt =====
-- wm_object_find of software/wm/object.c, and what is seen where it looks.
use fern_night.Prelude.{
  ℕ, ◌+◌, ◌/◌, ◌^◌, ◌<◌, Bool, true, false, ◌&&◌, none, some, List, [], ◌∷◌, ◌++◌, length, ◌≡◌, ◌≢◌,
  ◌↔◌, refl, ap, subst, arith, inl, inr, Option-cases,
}
use fern_night.Software.Wm.{Object, Zone, Framebuffer, origin, zone_limit, has_flag, flag_cursor}
use fern_night.Software.Wm.Fill.{color_at}
use fern_night.Software.Wm.Fill.Loops.{pixel}
use fern_night.Software.Wm.Fill.Painter.{shows, IsClear}
use fern_night.Software.Wm.Zones.Clip.{covers, IsScreen}
use fern_night.Software.Wm.Zones.Split.{AreWindows}
use fern_night.Software.Wm.Redraw.{redraw, IsRegion, redraw-opaque}
use fern_night.Software.Wm.Objects.{is_hit, wm_object_find, wm_object_by_id}

module _ (objects : ℕ → Object) (x y : ℕ) where
  -- No object of a list is at the point.
  abbrev pub NoHit : Bool → List ℕ → Type 0
  NoHit hidden [] = Unit {0}
  NoHit hidden (p ∷ list) = (is_hit (objects p) x y hidden ≡ false) × NoHit hidden list

  -- An object that is found is the last of the list at the point.
  pub data IsTop (hidden : Bool) (p : ℕ) (list : List ℕ) : Type 0 where
    top :
        (below above : List ℕ)
        → list ≡ below ++ (p ∷ above)
        → is_hit (objects p) x y hidden ≡ true
        → NoHit hidden above
        → IsTop hidden p list

  behind :
      {hidden : Bool} {p : ℕ} {list : List ℕ} (q : ℕ)
      → IsTop hidden p list
      → IsTop hidden p (q ∷ list)
  behind q (top below above e hit clear) = top (q ∷ below) above (ap (λ t. q ∷ t) e) hit clear

  find_none :
      (hidden : Bool) (list : List ℕ)
      → wm_object_find objects list x y hidden ≡ none
      → NoHit hidden list
  unfolding wm_object_find
  find_none hidden [] e = tt
  find_none hidden (p ∷ list) e = (ground arith, find_none hidden list (ground arith))

  find_top :
      (hidden : Bool) (list : List ℕ) (p : ℕ)
      → wm_object_find objects list x y hidden ≡ some p
      → IsTop hidden p list
  unfolding wm_object_find
  find_top hidden [] p e = cc
  find_top hidden (q ∷ list) p e = elim (Option-cases (wm_object_find objects list x y hidden)) [
    | inl last ↦
        let same : q ≡ p = ground arith in
        top [] list (ap (λ t. t ∷ list) same) (ground arith) (find_none hidden list last)
    | inr (r, found) ↦ behind q (find_top hidden list p (ground arith))
  ]

  find_clear :
      (hidden : Bool) (list : List ℕ)
      → NoHit hidden list
      → wm_object_find objects list x y hidden ≡ none
  unfolding wm_object_find
  find_clear hidden [] clear = refl
  find_clear hidden (p ∷ list) (miss, clear) = ground (arith, find_clear hidden list clear)

  find_below :
      (hidden : Bool) (below above : List ℕ) (p : ℕ)
      → is_hit (objects p) x y hidden ≡ true
      → NoHit hidden above
      → wm_object_find objects (below ++ (p ∷ above)) x y hidden ≡ some p
  unfolding wm_object_find
  find_below hidden [] above p hit clear = ground (arith, find_clear hidden above clear)
  find_below hidden (q ∷ below) above p hit clear =
      ground (arith, find_below hidden below above p hit clear)

  find_of_top :
      (hidden : Bool) (list : List ℕ) (p : ℕ)
      → IsTop hidden p list
      → wm_object_find objects list x y hidden ≡ some p
  find_of_top hidden list p (top below above e hit clear) =
      rw e (find_below hidden below above p hit clear)

  -- An object is found exactly if it is at the point, visible unless hidden ones count too, and no
  -- cursor, and no such object stands behind it in the list.
  pub wm_object_find_lem :
      (hidden : Bool) (list : List ℕ) (p : ℕ)
      → (wm_object_find objects list x y hidden ≡ some p) ↔ IsTop hidden p list
  wm_object_find_lem hidden list p = (find_top hidden list p, find_of_top hidden list p)

  -- The cursors of a list do not show at the point.
  abbrev pub NoCursor : List ℕ → Type 0
  NoCursor [] = Unit {0}
  NoCursor (p ∷ list) =
      ((has_flag (objects p) flag_cursor && shows objects x y p) ≡ false) × NoCursor list

  NoCursor-above : (below above : List ℕ) (p : ℕ) → NoCursor (below ++ (p ∷ above)) → NoCursor above
  NoCursor-above [] above p (h, c) = c
  NoCursor-above (q ∷ below) above p (h, c) = NoCursor-above below above p c

  IsClear-above : (above : List ℕ) → NoHit false above → NoCursor above → IsClear objects x y above
  unfolding is_hit
  IsClear-above [] miss cursors = tt
  IsClear-above (p ∷ above) (h, miss) (c, cursors) =
      (ground arith, IsClear-above above miss cursors)

-- On a screen with sizes of 15 bits, let a region that does not reach beyond both opposite edges of
-- the screen be drawn again, with an object list of windows that leaves room in the list of zones.
-- The object that is found among the visible ones at a pixel of the region on the screen is the one
-- that is seen there, if it is opaque at the pixel and no cursor shows at it.
pub redraw-wm_object_find :
    (objects : ℕ → Object) (list : List ℕ) (z : Zone) (f : Framebuffer) (x y p : ℕ)
    → IsScreen f
    → IsRegion f z
    → AreWindows objects list
    → length list < zone_limit
    → x < f.width
    → y < f.height
    → wm_object_find objects list x y false ≡ some p
    → color_at (objects p) x y / 2 ^ 24 ≡ 255
    → NoCursor objects x y list
    → covers z (x + origin) (y + origin) ≡ true
    → pixel (redraw objects list z f) x y ≡ color_at (objects p) x y
unfolding is_hit
redraw-wm_object_find objects list z f x y p screen region windows few h k found opaque cursors
      inside =
    elim (find_top objects x y false list p found) [
      | top below above e hit clear ↦
          redraw-opaque objects list z f x y screen region windows few h k below above p e
            (ground arith) opaque
            (IsClear-above objects x y above clear
              (NoCursor-above objects x y below above p (subst (NoCursor objects x y) e cursors)))
            inside
    ]

-- No object of a list has a number.
abbrev pub NoId : (ℕ → Object) → ℕ → List ℕ → Type 0
NoId objects id [] = Unit {0}
NoId objects id (p ∷ list) = ((objects p).id ≢ id) × NoId objects id list

pub wm_object_by_id-none :
    (objects : ℕ → Object) (id : ℕ) (list : List ℕ)
    → NoId objects id list
    → wm_object_by_id objects list id ≡ 0
unfolding wm_object_by_id
wm_object_by_id-none objects id [] n = refl
wm_object_by_id-none objects id (p ∷ list) (other, n) =
    ground (arith, wm_object_by_id-none objects id list n)

-- The first object of the list with the number is returned.
pub wm_object_by_id_lem :
    (objects : ℕ → Object) (id : ℕ) (below above : List ℕ) (p : ℕ)
    → NoId objects id below
    → (objects p).id ≡ id
    → wm_object_by_id objects (below ++ (p ∷ above)) id ≡ p
unfolding wm_object_by_id
wm_object_by_id_lem objects id [] above p n e = ground arith
wm_object_by_id_lem objects id (q ∷ below) above p (other, n) e =
    ground (arith, wm_object_by_id_lem objects id below above p n e)
