-- ===== src/Explorer/Volumes.antt =====
-- Choosing a volume: F2, the right arrow and Enter.
use lavoro_l.Base.{
  ℕ, zero, suc, ◌+◌, ◌≤◌, ◌<◌, ◌≡◌, refl, true, false, none, some, List, [], ◌∷◌, ◌++◌, ◌∙◌, ap,
  arith, length, drop, take, ltb, ◌^◌,
}
use lavoro_l.Base.Int.{pos, ◌+ℤ◌, ltb_ℤ, leb_ℤ}
use lavoro_l.Explorer.{
  Entry, Platform, Explorer, Key, f2, right, enter, running, start, max_entries, entry_at,
  volume_entries, listing, list_entries, draw_page, draw, move_on, open_at, open_entry, press, run,
}

-- The text of an `int` is read back.
pub record IsReadBack (p : Platform) : Type 0 where
  pub atoi_decimal : (n : ℕ) → n < 2 ^ 31 → p.atoi (p.decimal n) ≡ n

length-volume_entries : (decimal : ℕ → List ℕ) (n i : ℕ) → length (volume_entries decimal n i) ≡ n
unfolding volume_entries
length-volume_entries decimal zero i = refl
length-volume_entries decimal (suc n) i = ap suc (length-volume_entries decimal n (i + 1))

entry_at-volume_entries :
    (decimal : ℕ → List ℕ) (n i k : ℕ) (es : List Entry)
    → k < n
    → entry_at (pos k) (volume_entries decimal n i ++ es)
      ≡ some (record { name = decimal (i + k); directory = true })
unfolding volume_entries
entry_at-volume_entries decimal zero i k es h = absurd (omega arith)
entry_at-volume_entries decimal (suc n) i zero es h = let e : i + 0 ≡ i = omega arith in rw e refl
entry_at-volume_entries decimal (suc n) i (suc k) es h =
    let e : i + suc k ≡ i + 1 + k = omega arith in
    rw e (entry_at-volume_entries decimal n (i + 1) k es (omega arith))

-- The right arrow, so often, then Enter.
abbrev pub to_right : ℕ → List Key
to_right zero = enter ∷ []
to_right (suc k) = right ∷ to_right k

module _ {p : Platform} (reads : IsReadBack p) (columns : ℕ) where
  -- The list of volumes, not yet drawn, with the index `j`; and drawn.
  abbrev undrawn : ℕ → List ℕ → ℕ → List Entry → Explorer
  undrawn j path count entries = record {
    page = 1;
    drawn = false;
    volume = none;
    path = path;
    active = pos j;
    count = count;
    entries = entries;
  }

  abbrev behind : List Entry → List Entry
  behind entries = drop (length (volume_entries p.decimal p.volumes 0)) entries

  abbrev listed : ℕ → List ℕ → List Entry → Explorer
  listed j path entries = record {
    page = 1;
    drawn = true;
    volume = none;
    path = path;
    active = pos j;
    count = length (volume_entries p.decimal p.volumes 0);
    entries = volume_entries p.decimal p.volumes 0 ++ behind entries;
  }

  draw-undrawn :
      (j : ℕ) (path : List ℕ) (count : ℕ) (entries : List Entry)
      → j < p.volumes
      → draw p (undrawn j path count entries) ≡ running (listed j path entries)
  unfolding draw draw_page list_entries listing
  draw-undrawn j path count entries h =
      let n = length-volume_entries p.decimal p.volumes 0 in
      let inside : ltb_ℤ (pos (length (volume_entries p.decimal p.volumes 0))) (pos j) ≡ false =
        ground arith in
      rw inside refl

  move_on-listed :
      (j : ℕ) (path : List ℕ) (entries : List Entry)
      → j + 1 < p.volumes
      → move_on 1 (listed j path entries)
        ≡ undrawn
            (j + 1)
            path
            (length (volume_entries p.decimal p.volumes 0))
            (volume_entries p.decimal p.volumes 0 ++ behind entries)
  unfolding move_on
  move_on-listed j path entries h =
      let n = length-volume_entries p.decimal p.volumes 0 in
      let within : leb_ℤ (pos (length (volume_entries p.decimal p.volumes 0))) (pos (j + 1))
          ≡ false =
        ground arith in
      let next : pos j +ℤ pos 1 ≡ pos (j + 1) = ground arith in rw next (rw within refl)

  -- The volume at the index is entered at its root.
  enter-listed :
      (j : ℕ) (path : List ℕ) (entries : List Entry)
      → p.volumes ≤ max_entries
      → j < p.volumes
      → press p columns enter (listed j path entries)
        ≡ running
            (record (listed j path entries) { volume = some j; path = 92 ∷ []; drawn = false })
  unfolding press open_entry open_at
  enter-listed j path entries few h =
      rw (entry_at-volume_entries p.decimal p.volumes 0 j (behind entries) h) (
        let back : p.atoi (p.decimal (0 + j)) ≡ j =
          reads.atoi_decimal (0 + j) (omega arith) ∙ omega arith in
        let counted : ltb j p.volumes ≡ true = ground arith in rw back (rw counted refl))

  right-listed :
      (j : ℕ) (path : List ℕ) (entries : List Entry)
      → j + 1 < p.volumes
      → press p columns right (listed j path entries)
        ≡ running (
            undrawn
              (j + 1)
              path
              (length (volume_entries p.decimal p.volumes 0))
              (volume_entries p.decimal p.volumes 0 ++ behind entries))
  unfolding press
  right-listed j path entries h = ap running (move_on-listed j path entries h)

  choose_from :
      (k j : ℕ) (path : List ℕ) (count : ℕ) (entries : List Entry)
      → p.volumes ≤ max_entries
      → j + k < p.volumes
      → (e : Explorer) × (run p columns (to_right k) (undrawn j path count entries) ≡ running e)
        × (e.volume ≡ some (j + k))
        × (e.path ≡ 92 ∷ [])
        × (e.page ≡ 1)
        × (e.drawn ≡ false)
  unfolding run
  choose_from zero j path count entries few h =
      let e : j + 0 ≡ j = omega arith in
      (
        record (listed j path entries) { volume = some j; path = 92 ∷ []; drawn = false },
        rw (draw-undrawn j path count entries (omega arith))
            (rw (enter-listed j path entries few (omega arith)) refl),
        rw e refl,
        refl,
        refl,
        refl,
      )
  choose_from (suc k) j path count entries few h =
      let e : j + suc k ≡ j + 1 + k = omega arith in
      rw (draw-undrawn j path count entries (omega arith), e)
        (rw (right-listed j path entries (omega arith))
          (choose_from k (j + 1) path _ _ few (omega arith)))

  take-append : (xs ys : List Entry) → take (length xs) (xs ++ ys) ≡ xs
  take-append [] ys = refl
  take-append (x ∷ xs) ys = ap (λ t. x ∷ t) (take-append xs ys)

  -- The root of a volume that was just chosen is drawn.
  draw-chosen :
      (e : Explorer) (v : ℕ)
      → e.volume ≡ some v
      → e.path ≡ 92 ∷ []
      → e.page ≡ 1
      → e.drawn ≡ false
      → (e' : Explorer) × (draw p e ≡ running e')
        × (e'.count ≡ length (p.list_directory v (92 ∷ [])))
        × (take e'.count e'.entries ≡ p.list_directory v (92 ∷ []))
  unfolding draw draw_page list_entries listing
  draw-chosen e v chosen root one undrawn_page = (
    list_entries p e,
    rw (undrawn_page, one) refl,
    rw (chosen, root) refl,
    rw (chosen, root) (take-append (p.list_directory v (92 ∷ [])) _),
  )

  -- Where `Atoi` reads back the text of an `int`, from the start: F2, the right arrow `k` times and Enter choose volume `k`, if there is one and the
  -- volumes fit the arrays, at its root. The page is then drawn anew: it lists the entries of that root,
  -- in order, and these only.
  pub run-volume :
      (k : ℕ) (junk path : List ℕ)
      → p.volumes ≤ max_entries
      → k < p.volumes
      → (e : Explorer) × (run p columns (f2 ∷ to_right k) (start junk path) ≡ running e)
        × (e.volume ≡ some k)
        × (e.path ≡ 92 ∷ [])
        × (e.page ≡ 1)
        × ((e' : Explorer) × (draw p e ≡ running e')
            × (e'.count ≡ length (p.list_directory k (92 ∷ [])))
            × (take e'.count e'.entries ≡ p.list_directory k (92 ∷ [])))
  unfolding run draw draw_page press
  run-volume k junk path few h =
      let e : 0 + k ≡ k = omega arith in
      let chosen = rw e at (choose_from k 0 path 0 (start junk path).entries few (omega arith)) in
      (
        chosen.0,
        chosen.1,
        chosen.2,
        chosen.3,
        chosen.4,
        draw-chosen chosen.0 k chosen.2 chosen.3 chosen.4 chosen.5,
      )
