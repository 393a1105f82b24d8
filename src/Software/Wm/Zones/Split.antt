-- ===== src/Software/Wm/Zones/Split.antt =====
-- wm_zone of software/wm/zone.c: what the loops over the zones and the objects add to the list.
use fern_night.Prelude.{
  ℕ, zero, suc, ◌+◌, ◌≤◌, ◌<◌, true, ◌&&◌, none, some, List, [], ◌∷◌, ◌++◌, length, length-append,
  get_elem?, append_assoc, append-nil, if◌then◌else◌, ◌≡◌, ◌≢◌, refl, ap, subst, sym, ◌∙◌, arith,
  inl, inr, Bool-cases,
}
use fern_night.Software.Wm.{Object, Zone, Framebuffer, zone_limit, flag_visible, has_flag}
use fern_night.Software.Wm.Zones.{overlap, fragment, analyze, process, wm_zone, wm_zone_insert}
use fern_night.Software.Wm.Zones.Clip.{
  IsScreen, IsOnScreen, IsWindow, fragment-IsOnScreen, truncated_inside, inside_screen,
}

-- The fragments of a zone, in the order of the objects.
abbrev pub fragments : (ℕ → Object) → Zone → List ℕ → List Zone
fragments objects z [] = []
fragments objects z (p ∷ list) =
    if has_flag (objects p) flag_visible && overlap z (objects p)
    then fragment z (objects p) p ∷ fragments objects z list
    else fragments objects z list

-- Those of each zone of a list.
abbrev pub all_fragments : (ℕ → Object) → List Zone → List ℕ → List Zone
all_fragments objects [] list = []
all_fragments objects (z ∷ zones) list =
    fragments objects z list ++ all_fragments objects zones list

-- Pointers to windows.
abbrev pub AreWindows : (ℕ → Object) → List ℕ → Type 0
AreWindows objects [] = Unit {0}
AreWindows objects (p ∷ list) = (p ≢ 0) × IsWindow (objects p) × AreWindows objects list

-- Zones on screen that await processing.
abbrev pub ArePending : Framebuffer → List Zone → Type 0
ArePending f [] = Unit {0}
ArePending f (z ∷ zones) = (z.object_address ≡ 0) × IsOnScreen f z × ArePending f zones

-- Zones that have an object.
abbrev AreAssigned : List Zone → Type 0
AreAssigned [] = Unit {0}
AreAssigned (z ∷ zones) = (z.object_address ≢ 0) × AreAssigned zones

AreAssigned-append :
    (zones more : List Zone) → AreAssigned zones → AreAssigned more → AreAssigned (zones ++ more)
AreAssigned-append [] more a b = b
AreAssigned-append (z ∷ zones) more (h, a) b = (h, AreAssigned-append zones more a b)

module _ (f : Framebuffer) (objects : ℕ → Object) (screen : IsScreen f) where
  -- A zone on screen is inserted whole.
  wm_zone_insert-on_screen :
      (zones : List Zone) (z : Zone)
      → IsOnScreen f z
      → length zones < zone_limit
      → wm_zone_insert f zones z true ≡ zones ++ (z ∷ [])
  unfolding wm_zone_insert
  wm_zone_insert-on_screen zones z on room =
      ground (arith, inside_screen f z screen on, truncated_inside f z screen on)

  analyze-fragments :
      (z : Zone) (list : List ℕ) (zones : List Zone)
      → IsOnScreen f z
      → AreWindows objects list
      → length zones + length (fragments objects z list) ≤ zone_limit
      → analyze f objects z list zones ≡ zones ++ fragments objects z list
  unfolding analyze
  analyze-fragments z [] zones on windows room = sym (append-nil zones)
  analyze-fragments z (p ∷ list) zones on (_, window, windows) room =
      elim (Bool-cases (has_flag (objects p) flag_visible && overlap z (objects p))) [
        | inl e ↦
            let last = fragment z (objects p) p ∷ [] in
            rw e (
              rw
                (wm_zone_insert-on_screen zones (fragment z (objects p) p)
                  (fragment-IsOnScreen f z (objects p) p screen on window (ground arith))
                  (ground arith))
                (analyze-fragments z list (zones ++ last) on windows
                    (ground (arith, length-append zones last))
                  ∙ append_assoc zones last (fragments objects z list)))
        | inr e ↦ rw e (analyze-fragments z list zones on windows (ground arith))
      ]

  fragments-AreAssigned :
      (z : Zone) (list : List ℕ) → AreWindows objects list → AreAssigned (fragments objects z list)
  unfolding fragment
  fragments-AreAssigned z [] w = tt
  fragments-AreAssigned z (p ∷ list) (filled, window, windows) =
      ground (arith, fragments-AreAssigned z list windows)

  pub all_fragments-AreAssigned :
      (zones : List Zone) (list : List ℕ)
      → AreWindows objects list
      → AreAssigned (all_fragments objects zones list)
  all_fragments-AreAssigned [] list w = tt
  all_fragments-AreAssigned (z ∷ zones) list w =
      AreAssigned-append (fragments objects z list) (all_fragments objects zones list)
        (fragments-AreAssigned z list w) (all_fragments-AreAssigned zones list w)

get_elem?-length {ℓ} :
    {A : Type ℓ} (done rest : List A) (z : A)
    → get_elem? (done ++ (z ∷ rest)) (length done) ≡ some z
get_elem?-length [] rest z = refl
get_elem?-length (t ∷ done) rest z = get_elem?-length done rest z

get_elem?-end {ℓ} : {A : Type ℓ} (done : List A) → get_elem? done (length done) ≡ none
get_elem?-end [] = refl
get_elem?-end (t ∷ done) = get_elem?-end done

regroup :
    (done rest more new : List Zone) (z : Zone)
    → (done ++ (z ∷ (rest ++ more))) ++ new ≡ (done ++ (z ∷ [])) ++ (rest ++ (more ++ new))
regroup done rest more new z = simp append_assoc

module _ (f : Framebuffer) (objects : ℕ → Object) (list : List ℕ) where
  -- Zones that have an object are passed over.
  process-assigned :
      (fuel : ℕ) (done rest : List Zone)
      → AreAssigned rest
      → process fuel f objects list (length done) (done ++ rest) ≡ done ++ rest
  unfolding process
  process-assigned zero done rest a = refl
  process-assigned (suc fuel) done [] a = ground (arith, append-nil done, get_elem?-end done)
  process-assigned (suc fuel) done (z ∷ rest) (filled, a) =
      let next = done ++ (z ∷ []) in
      ground (
        arith,
        get_elem?-length done rest z,
        process-assigned fuel next rest a,
        append_assoc done (z ∷ []) rest,
        length-append done (z ∷ []),
      )

  -- Pending zones are split one after the other.
  module _ (screen : IsScreen f) (windows : AreWindows objects list) where
    process-pending :
        (fuel : ℕ) (done rest more : List Zone)
        → ArePending f rest
        → AreAssigned more
        → length rest ≤ fuel
        → length done + length rest + length more + length (all_fragments objects rest list)
          ≤ zone_limit
        → process fuel f objects list (length done) (done ++ (rest ++ more))
          ≡ done ++ (rest ++ (more ++ all_fragments objects rest list))
    unfolding process
    process-pending zero done (z ∷ rest) more pending a h room = elim h [ ]
    process-pending zero done [] more pending a h room = rw (append-nil more)
    process-pending (suc fuel) done [] more pending a h room =
        process-assigned (suc fuel) done more a ∙ ap (λ t. done ++ t) (sym (append-nil more))
    process-pending (suc fuel) done (z ∷ rest) more (empty, on, pending) a h room =
        let next = done ++ (z ∷ []) in
        let new = fragments objects z list in
        let old = done ++ (z ∷ (rest ++ more)) in
        ground (
          arith,
          get_elem?-length done (rest ++ more) z,
          analyze-fragments f objects screen z list old on windows (
              omega (
                arith,
                length-append done (z ∷ (rest ++ more)),
                length-append rest more,
                length-append new (all_fragments objects rest list),
              )),
          process-pending fuel next rest (more ++ new) pending
              (AreAssigned-append more new a
                (fragments-AreAssigned f objects screen z list windows))
              (omega arith)
              (omega (
                arith,
                length-append done (z ∷ []),
                length-append more new,
                length-append new (all_fragments objects rest list),
              )),
          regroup done rest more new z,
          append_assoc done (z ∷ []) (rest ++ ((more ++ new) ++ all_fragments objects rest list)),
          append_assoc more new (all_fragments objects rest list),
          length-append done (z ∷ []),
        )

    -- wm_zone puts the fragments of each pending zone behind the zones, if the list has room for them.
    pub wm_zone_fragments :
        (zones : List Zone)
        → ArePending f zones
        → length zones + length (all_fragments objects zones list) ≤ zone_limit
        → wm_zone f objects list zones ≡ zones ++ all_fragments objects zones list
    unfolding wm_zone
    wm_zone_fragments zones pending room =
        subst
          (λ t. process zone_limit f objects list 0 t ≡ zones ++ all_fragments objects zones list)
          (append-nil zones)
          (process-pending zone_limit [] zones [] pending tt (omega arith) (omega arith))
