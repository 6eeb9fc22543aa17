-- ===== src/Explorer/Listing.antt =====
-- The numbers of the main loop that stay in range, and the drawing of a page.
use lavoro_l.Base.{
  ℕ, zero, suc, ◌≤◌, ◌<◌, ◌≡◌, ◌≢◌, refl, Bool, true, false, none, List, [], ◌∷◌, ◌==◌,
  if◌then◌else◌, length, drop, arith, length-append, length-drop, Bool-cases, inl, inr,
}
use lavoro_l.Base.Int.{ℤ, pos, negsuc, ltb_ℤ}
use lavoro_l.Explorer.{
  Entry, Platform, Explorer, max_entries, entry_at, listing, list_entries, draw_page,
}

-- The index is that of a cell of the arrays.
abbrev pub IsCell : ℤ → Type 0
IsCell (pos n) = n < max_entries
IsCell (negsuc n) = ⊥

pub record IsInRange (e : Explorer) : Type 0 where
  pub page_in : e.page ≤ 3
  pub active_in : IsCell e.active
  pub count_in : e.count ≤ max_entries
  pub cells : length e.entries ≡ max_entries
  pub listed : e.drawn ≡ true → e.page ≡ 1 → 1 ≤ e.count

-- Every volume list and every directory has an entry, and none has more than the arrays hold.
pub record HasShortListings (p : Platform) : Type 0 where
  pub some_entry : (e : Explorer) → 1 ≤ length (listing p e)
  pub at_most : (e : Explorer) → length (listing p e) ≤ max_entries

pub entry_at-IsCell :
    (i : ℤ) (es : List Entry) → IsCell i → length es ≡ max_entries → entry_at i es ≢ none
entry_at-IsCell (negsuc n) es c l = absurd c
entry_at-IsCell (pos n) es c l = within n es (omega arith)
  where
    within : (n : ℕ) (es : List Entry) → n < length es → entry_at (pos n) es ≢ none
    within n [] h = absurd (omega arith)
    within zero (e ∷ es) h = cc
    within (suc n) (e ∷ es) h = within n es (omega arith)

IsCell-reset : (b : Bool) (i : ℤ) → IsCell i → IsCell (if b then pos 0 else i)
IsCell-reset true i c = omega arith
IsCell-reset false i c = c

module _ {p : Platform} (short : HasShortListings p) where
  pub list_entries-IsInRange : {e : Explorer} → IsInRange e → IsInRange (list_entries p e)
  unfolding list_entries
  list_entries-IsInRange {e} v = record {
    page_in = v.page_in;
    active_in = IsCell-reset (ltb_ℤ (pos (length (listing p e))) e.active) e.active v.active_in;
    count_in = short.at_most e;
    cells =
        let few = short.at_most e in
        let full = v.cells in
        omega (
          arith,
          length-append (listing p e) (drop (length (listing p e)) e.entries),
          length-drop (length (listing p e)) e.entries,
        );
    listed = λ d q. short.some_entry e;
  }

  pub draw_page-IsInRange : {e : Explorer} → IsInRange e → IsInRange (draw_page p e)
  unfolding draw_page
  draw_page-IsInRange {e} v = elim (Bool-cases e.drawn) [
    | inl done ↦ rw (drawn-same done) v
    | inr new ↦ elim (Bool-cases (e.page == 1)) [
      | inl files ↦ rw (drawn-list new files) (list_entries-IsInRange v)
      | inr still ↦ rw (drawn-still new still) (record {
        page_in = v.page_in;
        active_in = v.active_in;
        count_in = v.count_in;
        cells = v.cells;
        listed = λ d q. ground arith;
      })
    ]
  ]
    where
      drawn-same : e.drawn ≡ true → draw_page p e ≡ e
      drawn-same h = rw (h, draw_page) refl

      drawn-list : e.drawn ≡ false → (e.page == 1) ≡ true → draw_page p e ≡ list_entries p e
      drawn-list h k = rw (h, draw_page) (rw k refl)

      drawn-still :
          e.drawn ≡ false → (e.page == 1) ≡ false → draw_page p e ≡ record e { drawn = true }
      drawn-still h k = rw (h, draw_page) (rw k refl)

  pub drawn-draw_page : (e : Explorer) → (draw_page p e).drawn ≡ true
  unfolding draw_page list_entries
  drawn-draw_page e = ground arith

-- An arrow key on page 1 stays among the entries.
