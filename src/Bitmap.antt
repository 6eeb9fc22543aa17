-- ===== src/Bitmap.antt =====
-- The pixels of a BMP file: the end of `LBitmap::LBitmap` in src/lbitmap.hpp, once the headers are read
-- and the reader stands at the first row, which is the lowest one of the picture.
pub mod Pixels
pub mod Headers
use lavoro_l.Base.{ℕ, zero, suc, ◌+◌, ◌*◌, Bool, List, [], ◌∷◌, set}
use lavoro_l.Reader.{Reader, read}

-- The `unsigned` whose bytes, lowest first, these are.
abbrev pub pixel_of : List ℕ → ℕ
pixel_of [] = 0
pixel_of (b ∷ bs) = b + 256 * pixel_of bs

module _ {S : Type 0} (read_buffer : Reader S → Bool × Reader S) where
  -- One row: the pixels left, and `k`.
  unfoldable pub read_row : ℕ → ℕ → List ℕ → Reader S → List ℕ × Reader S
  read_row zero k buffer r = (buffer, r)
  read_row (suc n) k buffer r =
      let (bytes, r') = read read_buffer 3 r in
      read_row n (k + 1) (set buffer k (pixel_of bytes)) r'

  -- The rows, from `i - 1` down to 0.
  unfoldable pub read_rows : ℕ → ℕ → List ℕ → Reader S → List ℕ × Reader S
  read_rows w zero buffer r = (buffer, r)
  read_rows w (suc i) buffer r =
      let (buffer', r') = read_row w (i * w) buffer r in read_rows w i buffer' r'
