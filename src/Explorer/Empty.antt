-- ===== src/Explorer/Empty.antt =====
-- The arrows in a listing without entries.
use lavoro_l.Base.{ℕ, ◌≡◌, refl, true, false, [], ◌∷◌, arith, ap}
use lavoro_l.Base.Int.{pos, negsuc}
use lavoro_l.Explorer.{
  Platform, Explorer, fault, enter, right, list_entries, draw_page, and_then, move_on, open_entry,
  press, run,
}
use lavoro_l.Explorer.Index.{draw-hidden}

module _ (p : Platform) (e : Explorer) where
  draw_page-drawn : e.drawn ≡ true → draw_page p e ≡ e
  unfolding draw_page
  draw_page-drawn h = rw (h, draw_page) refl

  -- One step to the right of nothing.
  move_on-empty :
      e.page ≡ 1
      → e.count ≡ 0
      → e.active ≡ pos 0
      → move_on 1 e ≡ record e { active = negsuc 0; drawn = false }
  unfolding move_on
  move_on-empty one c a = ground arith

  -- A new listing leaves the index -1 as it is.
  draw_page-negative :
      e.page ≡ 1
      → e.drawn ≡ false
      → e.active ≡ negsuc 0
      → ((draw_page p e).page ≡ 1) × ((draw_page p e).active ≡ negsuc 0)
  unfolding draw_page list_entries
  draw_page-negative one d a = ground arith

press-negative :
    (p : Platform) (columns : ℕ) (e : Explorer)
    → e.page ≡ 1
    → e.active ≡ negsuc 0
    → press p columns enter e ≡ fault
unfolding press open_entry
press-negative p columns e one a = ground arith

-- In a directory without entries the right arrow makes the index -1, and an Enter on page 1 then uses
-- the cells before the arrays, whatever is listed meanwhile.
pub run-empty_fault :
    (p : Platform) (columns : ℕ) (e : Explorer)
    → e.page ≡ 1
    → e.drawn ≡ true
    → e.count ≡ 0
    → e.active ≡ pos 0
    → run p columns (right ∷ enter ∷ []) e ≡ fault
unfolding run press
run-empty_fault p columns e one drawn none_listed first =
    let minus : Explorer = record e { active = negsuc 0; drawn = false } in
    let again = draw_page-negative p minus one refl refl in
    rw
      (
        draw-hidden p e (ground arith),
        draw_page-drawn p e drawn,
        move_on-empty p e one none_listed first,
        draw-hidden p minus (ground arith),
      )
      (ap (λ o. and_then o (run p columns []))
        (press-negative p columns (draw_page p minus) again.0 again.1))
