-- ===== src/Bitmap/Headers/Picture.antt =====
-- A BMP file against the picture in it.
use lavoro_l.Base.{
  ◌%◌, ℕ, zero, suc, ◌+◌, ◌-◌, ◌*◌, ◌^◌, ◌≤◌, ◌<◌, ◌≡◌, refl, false, List, [], ◌∷◌, arith, length,
  length-drop, take, drop, get_or, ap, ◌∙◌, sym,
}
use lavoro_l.Reader.{Reader, at_end, read, next, reset}
use lavoro_l.Reader.Source.{IsValid}
use lavoro_l.Reader.Pending.{Holds, pending-spent, next-spent, live-pending}
use lavoro_l.Reader.ReadBlock.{read-take}
use lavoro_l.Reader.Kept.{next-source, read-source}
use lavoro_l.Writer
use lavoro_l.Writer.{put_buffer}
use lavoro_l.File.{Protocol, File, read_buffer, set_position, on_writer}
use lavoro_l.File.Source.{file_source}
use lavoro_l.File.Seek.{IsSeekable, contents, read_buffer-contents}
use lavoro_l.Transfer.Copy.{IsFresh}
use lavoro_l.Bitmap.{pixel_of}
use lavoro_l.Bitmap.Pixels.{drop-drop, file_pixel, read_rows-file_pixel}
use lavoro_l.Bitmap.Headers.{rows_of, field, bitmap_offset, bitmap_width, bitmap_height, new_bitmap}

module _ (p : Protocol) where
  -- The reader of a file whose position is set, with nothing in the writer.
  reader-set_position :
      (n : ℕ) (file : File p)
      → file.writer.current ≡ 0
      → at_end file.reader ≡ false
      → (set_position p n file).reader
        ≡ record file.reader { size = 0; current = 0; source = p.set_position n file.reader.source }
  unfolding set_position on_writer Writer.reset Writer.flush put_buffer reset
  reader-set_position n file e live = rw (e, live) refl

-- A field of a header, in the file.
take-take : (a n : ℕ) (xs : List ℕ) → a ≤ n → take a (take n xs) ≡ take a xs
take-take zero n xs h = refl
take-take (suc a) zero xs h = absurd (omega arith)
take-take (suc a) (suc n) [] h = refl
take-take (suc a) (suc n) (x ∷ xs) h = ap (λ t. x ∷ t) (take-take a n xs (omega arith))

take-drop-take :
    (a k n : ℕ) (xs : List ℕ) → k + a ≤ n → take a (drop k (take n xs)) ≡ take a (drop k xs)
take-drop-take a zero n xs h = take-take a n xs (omega arith)
take-drop-take a (suc k) zero xs h = absurd (omega arith)
take-drop-take a (suc k) (suc n) [] h = refl
take-drop-take a (suc k) (suc n) (x ∷ xs) h = take-drop-take a k n xs (omega arith)

field-header :
    (k n j : ℕ) (header bytes : List ℕ)
    → header ≡ take n (drop j bytes)
    → k + 4 ≤ n
    → field k header ≡ field (j + k) bytes
field-header k n j header bytes e l =
    ap (field k) e
    ∙ ap pixel_of (take-drop-take 4 k n (drop j bytes) l ∙ ap (take 4) (drop-drop k j bytes))

some_left : (n : ℕ) (xs : List ℕ) → n < length xs → (b : ℕ) × (bs : List ℕ) × (drop n xs ≡ b ∷ bs)
some_left n [] h = absurd (omega arith)
some_left zero (x ∷ xs) h = (x, xs, refl)
some_left (suc n) (x ∷ xs) h = some_left n xs (omega arith)

module _ {p : Protocol} (m : IsSeekable p) where
  -- The file's reader behind the two headers, and its position at the picture.
  at_picture :
      (n : ℕ) (bytes : List ℕ) (file : File p)
      → Holds m.reliable.rest file.reader bytes
      → file.writer.current ≡ 0
      → 1 ≤ length bytes
      → Holds m.reliable.rest
          (next (read_buffer p) (set_position p n file).reader).1
          (drop n (contents m file.reader.source))
  at_picture n bytes file h e l =
      let (b, bs, more) = some_left 0 bytes (omega arith) in
      let live = live-pending m.reliable.rest file.reader (h.left ∙ more) in
      let r : Reader p.Handle = record file.reader {
        size = 0;
        current = 0;
        source = p.set_position n file.reader.source;
      } in
      let v : IsValid r = record {
        binary = h.valid.binary;
        cells = h.valid.cells;
        ordered = λ t. omega arith;
        bounded = λ t. omega arith;
      } in
      rw (reader-set_position p n file e live, ← (m.seek_rest n file.reader.source))
        (next-spent (file_source m.reliable) v refl refl)

  -- A BMP file that was just opened, on a medium that does not fail, with nothing in its writer: the
  -- bitmap has the size of the header's fields, and its cell for column `x` and row `y` is made of
  -- three bytes of the file, lowest first, at the offset that the header names, behind those of the
  -- rows below it and of the columns to its left. Width, height and their product are below 2 ^ 31, so
  -- that they are the `int`s of the program. The file is longer than its headers, and counts as
  -- followed by zeros.
  pub new_bitmap_lem :
      (junk : ℕ → List ℕ) (file : File p) (bytes : List ℕ) (x y : ℕ)
      → IsFresh file.reader
      → file.writer.current ≡ 0
      → m.passed file.reader.source ≡ []
      → m.reliable.rest file.reader.source ≡ bytes
      → 30 < length bytes
      → ((n : ℕ) → length (junk n) ≡ n)
      → field 18 bytes * field 22 bytes < 2 ^ 31
      → field 18 bytes < 2 ^ 31
      → field 22 bytes < 2 ^ 31
      → x < field 18 bytes
      → y < field 22 bytes
      → ((new_bitmap p junk file).w ≡ field 18 bytes)
        × ((new_bitmap p junk file).h ≡ field 22 bytes)
        × (get_or (new_bitmap p junk file).buffer (y * field 18 bytes + x) 0
            ≡ file_pixel
                (drop (field 10 bytes) bytes)
                ((field 22 bytes - 1 - y) * field 18 bytes + x))
  unfolding new_bitmap
  new_bitmap_lem junk file bytes x y f e start all l cells area wide high px py =
      let src = file_source m.reliable in
      let rb = read_buffer p in
      let h0 : Holds m.reliable.rest (next rb file.reader).1 bytes =
        rw (pending-spent m.reliable.rest file.reader f.live f.spent ∙ all) at
          (next-spent src f.valid f.live f.spent) in
      let (first, h1) = read-take src 14 bytes h0 in
      let header = read rb 14 (next rb file.reader).1 in
      let (second, h2) = read-take src 16 (drop 14 bytes) h1 in
      let sizes = read rb 16 header.1 in
      let w : ℕ = bitmap_width sizes.0 in
      let h : ℕ = bitmap_height sizes.0 in
      let n : ℕ = bitmap_offset header.0 in
      let ew : w ≡ field 18 bytes = field-header 4 16 14 sizes.0 bytes second (omega arith) in
      let eh : h ≡ field 22 bytes = field-header 8 16 14 sizes.0 bytes second (omega arith) in
      let en : n ≡ field 10 bytes = field-header 10 14 0 header.0 bytes first (omega arith) in
      let whole : w * h % 2 ^ 32 ≡ w * h =
        let small : w * h < 2 ^ 31 = rw (ew, eh) area in omega (arith, small) in
      let rounds : rows_of h ≡ h = let positive : h < 2 ^ 31 = rw eh high in ground arith in
      let same : contents m sizes.1.source ≡ bytes =
        read-source (contents m) rb (read_buffer-contents m) 16 header.1
        ∙ read-source (contents m) rb (read_buffer-contents m) 14 (next rb file.reader).1
        ∙ next-source (contents m) rb (read_buffer-contents m) file.reader
        ∙ rw (start, all) refl in
      let h3 =
        at_picture n (drop 16 (drop 14 bytes)) (record file { reader = sizes.1 }) h2 e
          (omega (arith, length-drop 16 (drop 14 bytes), length-drop 14 bytes)) in
      let pixel =
        read_rows-file_pixel src w h x y (junk (w * h)) (drop n (contents m sizes.1.source)) _ h3
          (cells (w * h)) (rw ew px) (rw eh py) in
      (
        ew,
        eh,
        ap (λ t. get_or (new_bitmap p junk file).buffer (y * t + x) 0) (sym ew)
            ∙ rw (whole, rounds) (pixel ∙ rw (same, en, ew, eh) refl),
      )
