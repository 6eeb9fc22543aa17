-- ===== src/Bitmap/Headers.antt =====
-- `LBitmap::LBitmap` of src/lbitmap.hpp: the two headers of a BMP file, packed, the position of the
-- picture, and its rows. `junk` is the memory that the new buffer takes. `W` and `H` are of type `int`, and
-- kept as their residues below 2 ^ 32: the product of the two wraps around, and with a negative `H` no
-- row is read. A negative `W` is compared and added as the unsigned number that the residue is.
pub mod Picture
use lavoro_l.Base.{if◌then◌else◌, ltb, ◌^◌, ◌%◌, ℕ, ◌+◌, ◌*◌, List, take, drop}
use lavoro_l.Reader.{Reader, read, step}
use lavoro_l.File.{Protocol, File, read_buffer, set_position}
use lavoro_l.Screen.{Screen, new_screen}
use lavoro_l.Bitmap.{pixel_of, read_rows}

-- The four bytes at `k`, lowest first.
abbrev pub field : ℕ → List ℕ → ℕ
field k bytes = pixel_of (take 4 (drop k bytes))

-- `Header.BitmapOffset`; `BitmapHeader.Width` and `BitmapHeader.Height`
abbrev pub bitmap_offset : List ℕ → ℕ
bitmap_offset header = field 10 header

abbrev pub bitmap_width : List ℕ → ℕ
bitmap_width header = field 4 header

abbrev pub bitmap_height : List ℕ → ℕ
bitmap_height header = field 8 header

-- The rounds of `for (int i = H - 1; i >= 0; --i)`
abbrev pub rows_of : ℕ → ℕ
rows_of h = if ltb h (2 ^ 31) then h else 0

module _ (p : Protocol) (junk : ℕ → List ℕ) where
  unfoldable pub new_bitmap : File p → Screen
  new_bitmap file =
      let header : List ℕ × Reader p.Handle =
        read (read_buffer p) 14 (step (read_buffer p) file.reader) in
      let sizes : List ℕ × Reader p.Handle = read (read_buffer p) 16 header.1 in
      let w : ℕ = bitmap_width sizes.0 in
      let h : ℕ = bitmap_height sizes.0 in
      let sought : File p =
        set_position p (bitmap_offset header.0) (record file { reader = sizes.1 }) in
      let rows : List ℕ × Reader p.Handle =
        read_rows (read_buffer p) w (rows_of h) (junk (w * h % 2 ^ 32))
          (step (read_buffer p) sought.reader) in
      record (new_screen 0 0 0 0) { w = w; h = h; buffer = rows.0 }
