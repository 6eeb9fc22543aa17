-- ===== src/Screen/Pixel.antt =====
-- One pixel: what `SetBuffer` does to `GetBuffer`.
use native.Mathlib.Nat.{mod-eq_of_lt, mul-add-mod_self_right, mul-add-div_right, div-eq_of_lt}
use lavoro_l.Base.{
  refl, zero, suc, List, [], ◌∷◌, set, ltb, ◌/◌, ◌%◌, ap, ℕ, ◌+◌, ◌*◌, ◌<◌, ◌≡◌, ◌≢◌, ◌&&◌, ◌==◌,
  if◌then◌else◌, arith, length, get_or-set_self, get_or-set_ne, length-set, length-replicate, sym,
  ◌∙◌, Bool-cases, inl, inr,
}
use lavoro_l.Screen.{Screen, no_pixel, unsigned, get_buffer, set_buffer, store, new_screen}

-- The buffer holds one cell for each pixel.
abbrev pub IsScreen : Screen → Type 0
IsScreen s = length s.buffer ≡ s.w * s.h

pub new_screen-IsScreen : (x y w h : ℕ) → IsScreen (new_screen x y w h)
unfolding new_screen
new_screen-IsScreen x y w h = ground (arith, length-replicate {A = ℕ} (w * h) 0)

-- A row below the last is outside, and every other inside.
pub index_in_range : (x y w h : ℕ) → x < w → y < h → y * w + x < w * h
index_in_range x y w h p q = grind arith

index-inj : (x y a b w : ℕ) → x < w → a < w → y * w + x ≡ b * w + a → (x ≡ a) × (y ≡ b)
index-inj x y a b w p q e =
    let pos : 0 < w = omega arith in
    let column : x ≡ a =
      sym (mod-eq_of_lt p)
      ∙ sym (mul-add-mod_self_right y w x)
      ∙ ap (λ t. t % w) e
      ∙ mul-add-mod_self_right b w a
      ∙ mod-eq_of_lt q in
    let row : y + x / w ≡ b + a / w =
      sym (mul-add-div_right pos y x) ∙ ap (λ t. t / w) e ∙ mul-add-div_right pos b a in
    (column, omega (arith, row, div-eq_of_lt p, div-eq_of_lt q))

store-set : (cells : List ℕ) (n v : ℕ) → n < length cells → store cells n v ≡ set cells n v
unfolding store
store-set [] n v h = absurd (omega arith)
store-set (c ∷ cells) zero v h = refl
store-set (c ∷ cells) (suc n) v h = ap (λ t. c ∷ t) (store-set cells n v (omega arith))

-- The bound test keeps the store inside the buffer.
set_buffer-set :
    (x y v : ℕ) (s : Screen)
    → IsScreen s
    → set_buffer x y v s ≡ (
        if ltb (y * s.w + x) (s.w * s.h)
        then record s { buffer = set s.buffer (y * s.w + x) (unsigned v) }
        else s)
unfolding set_buffer
set_buffer-set x y v s i = elim (Bool-cases (ltb (y * s.w + x) (s.w * s.h))) [
  | inl inside ↦
      let within : y * s.w + x < length s.buffer = ground (arith, i) in
      rw (inside, store-set s.buffer (y * s.w + x) (unsigned v) within) refl
  | inr outside ↦ rw outside refl
]

-- What `GetBuffer` sees, inside the columns, of a `SetBuffer` inside the columns: the new value at
-- the pixel itself, if its row is inside too, and elsewhere what was there.
pub get_buffer-set_buffer :
    (x y v a b : ℕ) (s : Screen)
    → IsScreen s
    → x < s.w
    → a < s.w
    → b < s.h
    → get_buffer (set_buffer x y v s) a b
      ≡ (if (x == a) && (y == b) then unsigned v else get_buffer s a b)
unfolding get_buffer
get_buffer-set_buffer x y v a b s i px pa pb = elim (Bool-cases ((x == a) && (y == b))) [
  | inl same ↦
      let col : x ≡ a = ground arith in
      let row : y ≡ b = ground arith in
      let inside = index_in_range a b s.w s.h pa pb in
      let self = get_or-set_self s.buffer (b * s.w + a) (unsigned v) no_pixel (rw i inside) in
      rw (set_buffer-set x y v s i, same, col, row) (ground (arith, inside, self))
  | inr other ↦
      let apart : y * s.w + x ≢ b * s.w + a =
        λ e. let both = index-inj x y a b s.w px pa e in ground (arith, both) in
      let spared = get_or-set_ne s.buffer (y * s.w + x) (b * s.w + a) (unsigned v) no_pixel apart in
      rw (set_buffer-set x y v s i, other) (ground (arith, spared))
]

pub set_buffer-IsScreen :
    (x y v : ℕ) (s : Screen)
    → IsScreen s
    → IsScreen (set_buffer x y v s)
      × ((set_buffer x y v s).w ≡ s.w)
      × ((set_buffer x y v s).h ≡ s.h)
      × ((set_buffer x y v s).has_mask ≡ s.has_mask)
set_buffer-IsScreen x y v s i =
    rw (set_buffer-set x y v s i) (ground (arith, length-set s.buffer (y * s.w + x) (unsigned v)))
