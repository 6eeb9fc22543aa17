-- ===== src/Explorer/Icons/Grid.antt =====
-- The places of the icons.
use native.Mathlib.Nat.{
  div-mul-le_self, lt-div-mul-add, mul-add-mod_self_right, mul-add-div_right, mod-eq_of_lt,
  div-eq_of_lt,
}
use lavoro_l.Base.{
  ℕ, ◌+◌, ◌-◌, ◌*◌, ◌/◌, ◌%◌, ◌≤◌, ◌<◌, ◌≡◌, refl, Bool, true, false, List, [], ◌∷◌, ◌==◌, leb, ◌≢◌,
  ◌⊎◌, ap, arith, Bool-cases, inl, inr, ◌∙◌,
}
use lavoro_l.Base.Int.{ℤ, pos, negsuc}
use lavoro_l.Explorer.{Entry}
use lavoro_l.Explorer.Icons.{
  Icon, Picture, activedisk, disk, activefolder, folder, activefile, file, is_at, picture_of, icons,
  draw_entries,
}

-- The columns: as many pictures as stand side by side with something left at the right edge.
abbrev pub columns_of : ℕ → ℕ → ℕ
columns_of width w = (width - 1) / w

-- The row and column of a number.
cell_mod : (q r k : ℕ) → r < k → (q * k + r) % k ≡ r
cell_mod q r k l = mul-add-mod_self_right q k r ∙ mod-eq_of_lt l

cell_div : (q r k : ℕ) → r < k → (q * k + r) / k ≡ q
cell_div q r k l =
    let some_columns : 0 < k = omega arith in
    mul-add-div_right some_columns q r ∙ omega (arith, div-eq_of_lt l)

-- The picture of entry `i`: the highlighted ones are those of the active entry, the disks are volumes,
-- and the folders are directories of a volume.
abbrev pub IsPictureOf : Bool → ℤ → ℕ → Bool → Picture → Type 0
IsPictureOf chosen active i directory activedisk =
    (directory ≡ true) × (chosen ≡ false) × (active ≡ pos i)
IsPictureOf chosen active i directory disk =
    (directory ≡ true) × (chosen ≡ false) × (active ≢ pos i)
IsPictureOf chosen active i directory activefolder =
    (directory ≡ true) × (chosen ≡ true) × (active ≡ pos i)
IsPictureOf chosen active i directory folder =
    (directory ≡ true) × (chosen ≡ true) × (active ≢ pos i)
IsPictureOf chosen active i directory activefile = (directory ≡ false) × (active ≡ pos i)
IsPictureOf chosen active i directory file = (directory ≡ false) × (active ≢ pos i)

is_at-cases :
    (active : ℤ) (i : ℕ)
    → ((is_at active i ≡ true) × (active ≡ pos i)) ⊎ ((is_at active i ≡ false) × (active ≢ pos i))
is_at-cases (pos n) i = elim (Bool-cases (i == n)) [
  | inl same ↦ let e : n ≡ i = ground arith in inl (same, ap pos e)
  | inr other ↦ inr (other, λ e. ground arith)
]
is_at-cases (negsuc n) i = inr (refl, λ e. ground arith)

picture_of-IsPictureOf :
    (chosen : Bool) (active : ℤ) (i : ℕ) (directory : Bool)
    → IsPictureOf chosen active i directory (picture_of chosen (is_at active i) directory)
picture_of-IsPictureOf true active i true = elim (is_at-cases active i) [
  | inl (e, same) ↦ rw e (refl, refl, same)
  | inr (e, other) ↦ rw e (refl, refl, other)
]
picture_of-IsPictureOf false active i true = elim (is_at-cases active i) [
  | inl (e, same) ↦ rw e (refl, refl, same)
  | inr (e, other) ↦ rw e (refl, refl, other)
]
picture_of-IsPictureOf chosen active i false = elim (is_at-cases active i) [
  | inl (e, same) ↦ rw e (refl, same)
  | inr (e, other) ↦ rw e (refl, other)
]

module _ (width w h : ℕ) (chosen : Bool) (active : ℤ) where
  -- The entries from number `i` on, in a grid of `k` columns.
  abbrev pub AreInGrid : ℕ → ℕ → List Entry → List Icon → Type 0
  AreInGrid k i [] [] = Unit {0}
  AreInGrid k i [] (icon ∷ ics) = false ≡ true
  AreInGrid k i (e ∷ es) [] = false ≡ true
  AreInGrid k i (e ∷ es) (icon ∷ ics) =
      (icon.x ≡ i % k * w)
      × (icon.y ≡ i / k * (h + 40))
      × (icon.x + w < width)
      × (icon.name ≡ e.name)
      × IsPictureOf chosen active i e.directory icon.picture
      × AreInGrid k (i + 1) es ics

  wraps-column :
      (r : ℕ)
      → 0 < w
      → 1 ≤ columns_of width w
      → r ≤ columns_of width w
      → leb width (r * w + w) ≡ (r == columns_of width w)
  wraps-column r pw pk l =
      let k : ℕ = columns_of width w in
      let below = div-mul-le_self (width - 1) w in
      let beyond : width - 1 < k * w + w = lt-div-mul-add pw in
      elim (Bool-cases (r == k)) [
        | inl last ↦ let e : r ≡ k = ground arith in rw e (ground arith)
        | inr inside ↦
            let less : r + 1 ≤ k = ground arith in
            let row : (r + 1) * w ≤ k * w = grind arith in
            let one : (r + 1) * w ≡ r * w + w = grind arith in ground arith
      ]

  module _ (pw : 0 < w) (pk : 1 ≤ columns_of width w) where
    abbrev k : ℕ
    k = columns_of width w

    -- An entry that is drawn in column `r` of row `q`, and those that follow.
    put_icon :
        (e : Entry) (es : List Entry) (ics : List Icon) (q r i x y : ℕ)
        → r < k
        → i ≡ q * k + r
        → x ≡ r * w
        → y ≡ q * (h + 40)
        → AreInGrid k (i + 1) es ics
        → AreInGrid k i (e ∷ es) (
            record {
              x = x;
              y = y;
              picture = picture_of chosen (is_at active i) e.directory;
              name = e.name;
            }
            ∷ ics)
    put_icon e es ics q r i x y l n ex ey rest =
        let inside = wraps-column r pw pk (omega arith) in
        (
          ex ∙ rw (n, cell_mod q r k l) refl,
          ey ∙ rw (n, cell_div q r k l) refl,
          ground arith,
          refl,
          picture_of-IsPictureOf chosen active i e.directory,
          rest,
        )

    icons-AreInGrid :
        (es : List Entry) (q r i x y : ℕ)
        → r ≤ k
        → i ≡ q * k + r
        → x ≡ r * w
        → y ≡ q * (h + 40)
        → AreInGrid k i es (icons width w h chosen active es i x y)
    unfolding icons
    icons-AreInGrid [] q r i x y l n ex ey = tt
    icons-AreInGrid (e ∷ es) q r i x y l n ex ey = elim (Bool-cases (r == k)) [
      | inl full ↦
          let same : r ≡ k = ground arith in
          let wraps : leb width (x + w) ≡ true = rw ex (wraps-column r pw pk l ∙ full) in
          let row : q * k + k ≡ (q + 1) * k = grind arith in
          let y' : y + (h + 40) ≡ (q + 1) * (h + 40) = rw ey (grind arith) in
          rw wraps (
            put_icon e es _ (q + 1) 0 i 0 (y + (h + 40)) pk (omega arith) (omega arith) y' (
              icons-AreInGrid es (q + 1) 1 (i + 1) (0 + w) (y + (h + 40)) pk (omega arith)
                (omega arith) y'))
      | inr inside ↦
          let open_row : leb width (x + w) ≡ false = rw ex (wraps-column r pw pk l ∙ inside) in
          let next : r * w + w ≡ (r + 1) * w = grind arith in
          rw open_row (
            put_icon e es _ q r i x y (ground arith) n ex ey (
              icons-AreInGrid es q (r + 1) (i + 1) (x + w) y (ground arith) (omega arith)
                (omega arith) ey))
    ]

  -- Where at least one picture and something more fit in the width, the pictures stand in a grid whose
  -- columns are as many as fit with something left at the right edge: entry `i` is in column `i`
  -- modulo that number and in the row of the quotient, with its own name, and none reaches over the
  -- right edge. The highlighted picture is that of the active entry alone; a directory is shown as a
  -- disk where no volume is chosen and as a folder otherwise, and a file as a file.
  pub draw_entries_lem :
      (es : List Entry)
      → 0 < w
      → 1 ≤ columns_of width w
      → AreInGrid (columns_of width w) 0 es (draw_entries width w h chosen active es)
  unfolding draw_entries
  draw_entries_lem es pw pk =
      icons-AreInGrid pw pk es 0 0 0 0 0 (omega arith) (omega arith) (omega arith) (omega arith)
