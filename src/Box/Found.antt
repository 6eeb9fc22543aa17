-- ===== src/Box/Found.antt =====
-- The search of Box against what it searches for.
use lavoro_l.Base.{
  ℕ, zero, suc, ◌<◌, ◌≡◌, ◌≢◌, ◌↔◌, refl, Bool, true, false, List, [], ◌∷◌, ◌++◌, append-nil,
  append_assoc, ◌==◌, arith, get_or, set, get_or-set_ne, replicate, length, has, Distinct,
  Bool-cases, inl, inr, ◌∙◌,
}
use lavoro_l.Box.{n_max, Sides, check, box, possible}
use lavoro_l.Box.Loops.{any_from-found, any_from-finds}
use lavoro_l.Box.Shape.{IsBox, check-IsBox, IsBox-check}

-- The rectangles `qs` can be placed next, where `e` marks those that are placed.
abbrev Choice : List Bool → List ℕ → Type 0
Choice e [] = Unit {0}
Choice e (q ∷ qs) = (q < n_max) × (get_or e q true ≡ false) × Choice (set e q true) qs

module _ (a : Sides) where
  box-found :
      (n : ℕ) (e : List Bool) (p : List ℕ)
      → box a n e p ≡ true
      → (qs : List ℕ) × (length qs ≡ n)
        × Choice e qs
        × (m : ℕ) × (m < 64)
        × (check a (p ++ qs) m ≡ true)
  unfolding box
  box-found zero e p h =
      let (m, l, u, c) = any_from-found 64 0 (check a p) h in
      ([], refl, tt, m, omega arith, rw append-nil c)
  box-found (suc n) e p h =
      let (i, l, u, c) = any_from-found n_max 0 _ h in
      elim (Bool-cases (get_or e i true)) [
        | inl placed ↦ absurd (ground arith)
        | inr open_place ↦
            let (qs, len, ch, m, b, ok) =
              box-found n (set e i true) (p ++ i ∷ []) (rw open_place at c) in
            (
              i ∷ qs,
              omega (arith, len),
              (omega arith, open_place, ch),
              m,
              b,
              rw (append_assoc p (i ∷ []) qs) at ok,
            )
      ]

  box-finds :
      (n : ℕ) (e : List Bool) (p qs : List ℕ) (m : ℕ)
      → length qs ≡ n
      → Choice e qs
      → m < 64
      → check a (p ++ qs) m ≡ true
      → box a n e p ≡ true
  unfolding box
  box-finds zero e p [] m l ch b ok =
      any_from-finds 64 0 (check a p) m (omega arith) (omega arith) (rw append-nil at ok)
  box-finds zero e p (q ∷ qs) m l ch b ok = absurd (omega arith)
  box-finds (suc n) e p [] m l ch b ok = absurd (omega arith)
  box-finds (suc n) e p (q ∷ qs) m l ch b ok =
      any_from-finds n_max 0 _ q (omega arith) (omega (arith, ch.0)) (
        rw ch.1 (
          box-finds n (set e q true) (p ++ q ∷ []) qs m (omega arith) ch.2 b
            (rw (append_assoc p (q ∷ []) qs) ok)))

-- Each is the number of one of the six rectangles.
abbrev pub AreRectangles : List ℕ → Type 0
AreRectangles [] = Unit {0}
AreRectangles (q ∷ qs) = (q < n_max) × AreRectangles qs

get_or-set-true : (e : List Bool) (q : ℕ) → get_or (set e q true) q true ≡ true
get_or-set-true [] q = refl
get_or-set-true (x ∷ e) zero = refl
get_or-set-true (x ∷ e) (suc q) = get_or-set-true e q

Choice-Distinct :
    (e : List Bool) (qs : List ℕ)
    → Choice e qs
    → AreRectangles qs × Distinct qs × ((x : ℕ) → get_or e x true ≡ true → has x qs ≡ false)
Choice-Distinct e [] c = (tt, tt, λ x h. refl)
Choice-Distinct e (q ∷ qs) (small, unmarked, c) =
    let (low, distinct, out) = Choice-Distinct (set e q true) qs c in
    ((small, low), (out q (get_or-set-true e q), distinct), spare out)
  where
    spare :
        ((x : ℕ) → get_or (set e q true) x true ≡ true → has x qs ≡ false)
        → (x : ℕ) → get_or e x true ≡ true
        → has x (q ∷ qs) ≡ false
    spare out x h =
        let apart : q ≢ x = λ s. cc in
        let kept = get_or-set_ne e q x true true apart in ground (arith, apart, out x (kept ∙ h))

Distinct-Choice :
    (e : List Bool) (qs : List ℕ)
    → AreRectangles qs
    → Distinct qs
    → ((x : ℕ) → has x qs ≡ true → get_or e x true ≡ false)
    → Choice e qs
Distinct-Choice e [] low d h = tt
Distinct-Choice e (q ∷ qs) (small, low) (new, d) h = (
  small,
  h q (ground arith),
  Distinct-Choice (set e q true) qs low d (λ x later.
      let apart : q ≢ x = λ s. ground arith in
      get_or-set_ne e q x true true apart ∙ h x (ground arith)),
)

get_or-replicate : (n x : ℕ) → x < n → get_or (replicate n false) x true ≡ false
get_or-replicate zero x l = absurd (omega arith)
get_or-replicate (suc n) zero l = refl
get_or-replicate (suc n) (suc x) l = get_or-replicate n x (omega arith)

unmarked :
    (x : ℕ) (qs : List ℕ)
    → AreRectangles qs
    → has x qs ≡ true
    → get_or (replicate n_max false) x true ≡ false
unmarked x [] low h = absurd (cc)
unmarked x (q ∷ qs) (small, low) h = elim (Bool-cases (x == q)) [
  | inl here ↦ get_or-replicate n_max x (ground arith)
  | inr later ↦ unmarked x qs low (rw later at h)
]

-- The program answers POSSIBLE exactly where there are a width, a height and a depth such that the six
-- rectangles, in some order without repetition and each turned or not, are the six faces of that box:
-- two of width and height, two of height and depth, two of width and depth.
pub possible_lem :
    (a : Sides)
    → (possible a ≡ true) ↔ (
        (q : List ℕ) × (m : ℕ) × (length q ≡ n_max)
        × AreRectangles q
        × Distinct q
        × (m < 64)
        × (width : ℕ) × (height : ℕ) × (depth : ℕ) × IsBox a q m width height depth)
unfolding possible
possible_lem a = (found, finds)
  where
    found :
        box a n_max (replicate n_max false) [] ≡ true
        → (q : List ℕ) × (m : ℕ) × (length q ≡ n_max)
          × AreRectangles q
          × Distinct q
          × (m < 64)
          × (width : ℕ) × (height : ℕ) × (depth : ℕ) × IsBox a q m width height depth
    found h =
        let (q, l, c, m, b, ok) = box-found a n_max (replicate n_max false) [] h in
        let (low, d, out) = Choice-Distinct (replicate n_max false) q c in
        let shape = check-IsBox a q m ok in (q, m, l, low, d, b, shape.0, shape.1, shape.2, shape.3)

    finds :
        (q : List ℕ) × (m : ℕ) × (length q ≡ n_max)
          × AreRectangles q
          × Distinct q
          × (m < 64)
          × (width : ℕ) × (height : ℕ) × (depth : ℕ) × IsBox a q m width height depth
        → box a n_max (replicate n_max false) [] ≡ true
    finds (q, m, l, low, d, b, width, height, depth, ok) =
        box-finds a n_max (replicate n_max false) [] q m l
          (Distinct-Choice (replicate n_max false) q low d (λ x h. unmarked x q low h)) b
          (IsBox-check a q m width height depth ok)
