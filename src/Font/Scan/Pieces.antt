-- ===== src/Font/Scan/Pieces.antt =====
-- The pieces that the columns are cut into.
use lavoro_l.Base.{
  ℕ, zero, suc, ◌+◌, ◌-◌, ◌≤◌, ◌<◌, ◌≡◌, refl, Bool, true, false, Option, none, some, List, [], ◌∷◌,
  ◌==◌, ltb, arith, Bool-cases, inl, inr, if-else,
}
use lavoro_l.Font.Scan.{Piece, scan, add_piece, pieces}

module _ (inked : ℕ → Bool) (min_char max_w : ℕ) where
  -- No ink from `j` to before `s`.
  abbrev pub IsBlank : ℕ → ℕ → Type 0
  IsBlank j s = (x : ℕ) → j ≤ x → x < s → inked x ≡ false

  -- A piece begins at the first inked column and ends behind its last one: before an empty column,
  -- once it is wide enough, or at the border.
  pub record IsPiece (j s e : ℕ) : Type 0 where
    pub after : j ≤ s
    pub some_columns : s < e
    pub inside : e ≤ max_w
    pub ink_first : inked s ≡ true
    pub blank_before : IsBlank j s
    pub blank_behind : e < max_w → (inked e ≡ false) × (min_char < e - s)

  -- The pieces from column `j` on, one behind the other.
  abbrev pub ArePieces : ℕ → List Piece → Type 0
  ArePieces j [] = Unit {0}
  ArePieces j (p ∷ ps) = IsPiece j p.start p.stop × ArePieces (p.stop + 1) ps

  -- What `scan` gives once it has met the first inked column.
  record Ended (s j : ℕ) (out : Option ℕ × ℕ) : Type 0 where
    started : out.0 ≡ some s
    not_before : j ≤ out.1
    within : out.1 ≤ max_w
    behind : out.1 < max_w → (inked out.1 ≡ false) × (min_char < out.1 - s)

  scan-some : (n j s : ℕ) → j + n ≡ max_w → Ended s j (scan inked min_char n j (some s) true)
  unfolding scan
  scan-some zero j s e = record {
    started = refl;
    not_before = omega arith;
    within = omega arith;
    behind = λ l. absurd (omega arith);
  }
  scan-some (suc n) j s e = elim (Bool-cases (ltb min_char (j - s))) [
    | inl wide ↦ elim (Bool-cases (inked j)) [
      | inl ink ↦ rw (wide, ink) (later (scan-some n (j + 1) s (omega arith)))
      | inr blank ↦
          rw (wide, blank)
            (record {
              started = refl;
              not_before = omega arith;
              within = omega arith;
              behind = λ l. (blank, ground arith);
            })
    ]
    | inr narrow ↦ rw narrow (later (scan-some n (j + 1) s (omega arith)))
  ]
    where
      later : {out : Option ℕ × ℕ} → Ended s (j + 1) out → Ended s j out
      later h = record {
        started = h.started;
        not_before = let l = h.not_before in omega arith;
        within = h.within;
        behind = h.behind;
      }

  -- From the start of a character on: a piece, or no ink up to the border.
  abbrev IsScanned : ℕ → Option ℕ × ℕ → Type 0
  IsScanned j (none, e) = IsBlank j max_w × (max_w ≤ e)
  IsScanned j (some s, e) = IsPiece j s e

  Ended-IsScanned :
      (j : ℕ) (out : Option ℕ × ℕ) → inked j ≡ true → Ended j (j + 1) out → IsScanned j out
  Ended-IsScanned j (none, e) ink h = let started = h.started in absurd (cc)
  Ended-IsScanned j (some t, e) ink h =
      let started = h.started in
      let same : t ≡ j = cc in
      rw same (record {
        after = omega arith;
        some_columns = let l = h.not_before in omega arith;
        inside = h.within;
        ink_first = ink;
        blank_before = λ x l r. absurd (omega arith);
        blank_behind = h.behind;
      })

  IsBlank-here : (j s : ℕ) → inked j ≡ false → IsBlank (j + 1) s → IsBlank j s
  IsBlank-here j s blank h x l r = elim (Bool-cases (x == j)) [
    | inl here ↦ let same : x ≡ j = ground arith in rw same blank
    | inr later ↦ h x (ground arith) r
  ]

  blank-IsScanned :
      (j : ℕ) (out : Option ℕ × ℕ) → inked j ≡ false → IsScanned (j + 1) out → IsScanned j out
  blank-IsScanned j (none, e) blank (h, l) = (IsBlank-here j max_w blank h, l)
  blank-IsScanned j (some s, e) blank h = record {
    after = let l = h.after in omega arith;
    some_columns = h.some_columns;
    inside = h.inside;
    ink_first = h.ink_first;
    blank_before = IsBlank-here j s blank h.blank_before;
    blank_behind = h.blank_behind;
  }

  scan-none : (n j : ℕ) → j + n ≡ max_w → IsScanned j (scan inked min_char n j none true)
  unfolding scan
  scan-none zero j e = (λ x l r. absurd (omega arith), omega arith)
  scan-none (suc n) j e = elim (Bool-cases (inked j)) [
    | inl ink ↦
        let narrow : ltb min_char (j - j) ≡ false = ground arith in
        rw (ink, narrow) (Ended-IsScanned j _ ink (scan-some n (j + 1) j (omega arith)))
    | inr blank ↦ rw blank (blank-IsScanned j _ blank (scan-none n (j + 1) (omega arith)))
  ]

  -- Behind the last column there are no pieces.
  pieces-end : (chars : List ℕ) (j : ℕ) → max_w ≤ j → pieces inked min_char max_w chars j ≡ []
  unfolding pieces
  pieces-end [] j l = refl
  pieces-end (c ∷ chars) j l = if-else (ltb j max_w) _ _ (ground arith)

  add_piece-ArePieces :
      (c j : ℕ) (out : Option ℕ × ℕ) (rest : List Piece)
      → IsScanned j out
      → (max_w ≤ out.1 → rest ≡ [])
      → ArePieces (out.1 + 1) rest
      → ArePieces j (add_piece c out rest)
  add_piece-ArePieces c j (none, e) rest (blank, l) over h = rw (over l) tt
  add_piece-ArePieces c j (some s, e) rest piece over h = (piece, h)

  -- The pieces that the columns are cut into stand one behind the other inside the rectangle, without
  -- overlap, and none is empty. Each begins at the first inked column behind the piece before it, and
  -- ends at the border or, more than `min_char` columns wide, before a column without ink.
  pub pieces-ArePieces :
      (chars : List ℕ) (j : ℕ) → ArePieces j (pieces inked min_char max_w chars j)
  unfolding pieces
  pieces-ArePieces [] j = tt
  pieces-ArePieces (c ∷ chars) j = elim (Bool-cases (ltb j max_w)) [
    | inl more ↦
        let out : Option ℕ × ℕ = scan inked min_char (max_w - j) j none true in
        rw more (
          add_piece-ArePieces c j out (pieces inked min_char max_w chars (out.1 + 1))
            (scan-none (max_w - j) j (ground arith))
            (λ l. pieces-end chars (out.1 + 1) (omega arith)) (pieces-ArePieces chars (out.1 + 1)))
    | inr over ↦ rw over tt
  ]
