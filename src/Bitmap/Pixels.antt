-- ===== src/Bitmap/Pixels.antt =====
-- Which bytes of the file a pixel is made of.
use lavoro_l.Base.{
  ℕ, zero, suc, ◌+◌, ◌-◌, ◌*◌, ◌<◌, ◌≤◌, ◌≡◌, ◌≢◌, refl, Bool, true, false, ◌&&◌, List, [], ◌∷◌,
  ◌==◌, if◌then◌else◌, ltb, leb, arith, length, take, drop, get_or, set, get_or-set_self,
  get_or-set_ne, length-set, Bool-cases, inl, inr, sym, ap, ◌∙◌,
}
use lavoro_l.Reader.{Reader, read}
use lavoro_l.Reader.Source.{Source}
use lavoro_l.Reader.Pending.{Holds}
use lavoro_l.Reader.ReadBlock.{read-take}
use lavoro_l.Screen.Pixel.{index_in_range}
use lavoro_l.Bitmap.{pixel_of, read_row, read_rows}

abbrev empty : List ℕ
empty = []

drop-nil : (n : ℕ) → drop n empty ≡ empty
drop-nil zero = refl
drop-nil (suc n) = refl

pub drop-drop : (a b : ℕ) (xs : List ℕ) → drop a (drop b xs) ≡ drop (b + a) xs
drop-drop a zero xs = let e : 0 + a ≡ a = omega arith in rw e refl
drop-drop a (suc b) [] = drop-nil a ∙ sym (drop-nil (suc b + a))
drop-drop a (suc b) (x ∷ xs) =
    let e : suc b + a ≡ suc (b + a) = omega arith in rw e (drop-drop a b xs)

-- The pixel with the number `n` in the order of the file.
abbrev pub file_pixel : List ℕ → ℕ → ℕ
file_pixel bs n = pixel_of (take 3 (drop (3 * n) bs))

file_pixel-drop : (bs : List ℕ) (a n : ℕ) → file_pixel (drop (3 * a) bs) n ≡ file_pixel bs (a + n)
file_pixel-drop bs a n =
    let e : 3 * a + 3 * n ≡ 3 * (a + n) = omega arith in
    ap (λ t. pixel_of (take 3 t)) (drop-drop (3 * n) (3 * a) bs ∙ ap (λ t. drop t bs) e)

-- One pixel more: the cell `k` is set to `v`, and the rest of the row follows.
pixel_step :
    (n k q v : ℕ) (buffer bs : List ℕ)
    → v ≡ file_pixel bs 0
    → q < length buffer
    → (if leb (k + 1) q && ltb q (k + 1 + n)
        then file_pixel (drop 3 bs) (q - (k + 1))
        else get_or (set buffer k v) q 0)
      ≡ (if leb k q && ltb q (k + suc n) then file_pixel bs (q - k) else get_or buffer q 0)
pixel_step n k q v buffer bs h l = elim (Bool-cases (k == q)) [
  | inl same ↦
      let e : k ≡ q = ground arith in
      let z : q - k ≡ 0 = omega (arith, e) in
      let self : get_or (set buffer k v) q 0 ≡ v =
        rw (← e) (get_or-set_self buffer k v 0 (rw e l)) in
      ground (arith, self, ap (file_pixel bs) z)
  | inr other ↦
      let apart : k ≢ q = ground arith in
      let spared = get_or-set_ne buffer k q v 0 apart in
      elim (Bool-cases (leb (k + 1) q)) [
        | inl behind ↦
            let e : 1 + (q - (k + 1)) ≡ q - k = ground arith in
            let moved = file_pixel-drop bs 1 (q - (k + 1)) ∙ ap (file_pixel bs) e in
            ground (arith, spared, moved)
        | inr before ↦ ground (arith, spared)
      ]
]

-- One row more, above those that follow.
rows_step :
    (w i x y : ℕ) (buffer cells bs : List ℕ)
    → x < w
    → get_or cells (y * w + x) 0 ≡ (
        if leb (i * w) (y * w + x) && ltb (y * w + x) (i * w + w)
        then file_pixel bs (y * w + x - i * w)
        else get_or buffer (y * w + x) 0)
    → (if ltb y i
        then file_pixel (drop (3 * w) bs) ((i - 1 - y) * w + x)
        else get_or cells (y * w + x) 0)
      ≡ (if ltb y (suc i)
          then file_pixel bs ((suc i - 1 - y) * w + x)
          else get_or buffer (y * w + x) 0)
rows_step w i x y buffer cells bs p h = elim (Bool-cases (ltb y i)) [
  | inl later ↦
      let d : suc i - 1 - y ≡ suc (i - 1 - y) = ground arith in
      let e : w + ((i - 1 - y) * w + x) ≡ suc (i - 1 - y) * w + x = grind arith in
      let upper : ltb y (suc i) ≡ true = ground arith in
      rw (later, upper, d) (file_pixel-drop bs w ((i - 1 - y) * w + x) ∙ ap (file_pixel bs) e)
  | inr done ↦ elim (Bool-cases (y == i)) [
    | inl here ↦
        let e : y ≡ i = ground arith in
        let z : suc i - 1 - i ≡ 0 = omega arith in
        let inside : (leb (i * w) (i * w + x) && ltb (i * w + x) (i * w + w)) ≡ true =
          ground arith in
        let n : i * w + x - i * w ≡ 0 * w + x = omega arith in
        let upper : ltb i (suc i) ≡ true = ground arith in
        let own : get_or cells (i * w + x) 0 ≡ file_pixel bs (i * w + x - i * w) =
          (rw e at h) ∙ rw inside refl in
        rw done (rw (e, upper, z) (own ∙ ap (file_pixel bs) n))
    | inr below ↦
        let far : suc i ≤ y = ground arith in
        let m : suc i * w ≤ y * w = grind arith in
        let one : suc i * w ≡ i * w + w = grind arith in
        let outside : (leb (i * w) (y * w + x) && ltb (y * w + x) (i * w + w)) ≡ false =
          ground arith in
        let upper : ltb y (suc i) ≡ false = ground arith in rw (done, upper) (h ∙ rw outside refl)
  ]
]

module _ {S : Type 0} {read_buffer : Reader S → Bool × Reader S} (src : Source read_buffer) where
  abbrev HoldsPixels : ℕ → ℕ → List ℕ → List ℕ → List ℕ × Reader S → Type 0
  HoldsPixels n k buffer bs out =
      Holds src.rest out.1 (drop (3 * n) bs)
      × (length out.0 ≡ length buffer)
      × ((q : ℕ)
          → q < length buffer
          → get_or out.0 q 0
            ≡ (if leb k q && ltb q (k + n) then file_pixel bs (q - k) else get_or buffer q 0))

  read_row-Holds :
      (n k : ℕ) (buffer bs : List ℕ) (r : Reader S)
      → Holds src.rest r bs
      → HoldsPixels n k buffer bs (read_row read_buffer n k buffer r)
  unfolding read_row
  read_row-Holds zero k buffer bs r h = (h, refl, λ q l. ground arith)
  read_row-Holds (suc n) k buffer bs r h =
      let (now, h') = read-take src 3 bs h in
      let v : ℕ = pixel_of (read read_buffer 3 r).0 in
      let rest =
        read_row-Holds n (k + 1) (set buffer k v) (drop 3 bs) (read read_buffer 3 r).1 h' in
      let len = length-set buffer k v in
      let e : 3 + 3 * n ≡ 3 * suc n = omega arith in
      (
        rw (drop-drop (3 * n) 3 bs, e) at rest.0,
        rest.1 ∙ len,
        λ q l. rest.2 q (rw len l) ∙ pixel_step n k q v buffer bs (ap pixel_of now) l,
      )

  read_rows-Holds :
      (w i : ℕ) (buffer bs : List ℕ) (r : Reader S)
      → Holds src.rest r bs
      → (x y : ℕ) → x < w
      → y * w + x < length buffer
      → get_or (read_rows read_buffer w i buffer r).0 (y * w + x) 0
        ≡ (if ltb y i then file_pixel bs ((i - 1 - y) * w + x) else get_or buffer (y * w + x) 0)
  unfolding read_rows
  read_rows-Holds w zero buffer bs r h x y p l = ground arith
  read_rows-Holds w (suc i) buffer bs r h x y p l =
      let row = read_row-Holds w (i * w) buffer bs r h in
      let rest =
        read_rows-Holds w i (read_row read_buffer w (i * w) buffer r).0 (drop (3 * w) bs)
          (read_row read_buffer w (i * w) buffer r).1 row.0 x y p (rw row.1 l) in
      rest ∙ rows_step w i x y buffer _ bs p (row.2 (y * w + x) l)

  -- After the rows of a picture of `w` columns and `h` rows are read into a buffer with a cell for each
  -- pixel, the pixel at column `x` and row `y` is made of the three bytes of the file, lowest first,
  -- that come after those of the rows below it and of the columns to its left. A file that is too
  -- short counts as followed by zeros.
  pub read_rows-file_pixel :
      (w h x y : ℕ) (buffer bs : List ℕ) (r : Reader S)
      → Holds src.rest r bs
      → length buffer ≡ w * h
      → x < w
      → y < h
      → get_or (read_rows read_buffer w h buffer r).0 (y * w + x) 0
        ≡ file_pixel bs ((h - 1 - y) * w + x)
  read_rows-file_pixel w h x y buffer bs r k e p q =
      let inside : y * w + x < w * h = index_in_range x y w h p q in
      let upper : ltb y h ≡ true = ground arith in
      read_rows-Holds w h buffer bs r k x y p (rw e inside) ∙ rw upper refl
