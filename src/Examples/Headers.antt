-- ===== src/Examples/Headers.antt =====
-- A BMP file with one pixel, and a socket over the second of two handles.
use lavoro_l.Base.{
  ℕ, ◌+◌, ◌*◌, ◌≡◌, ◌⊎◌, refl, true, false, List, [], ◌∷◌, ◌==◌, arith, replicate, length-replicate,
  get_or,
}
use lavoro_l.Examples.Memory.{tape, seekable}
use lavoro_l.File.{File}
use lavoro_l.Bitmap.Headers.{new_bitmap}
use lavoro_l.Bitmap.Headers.Picture.{new_bitmap_lem}
use lavoro_l.Socket.Construct.{
  Service, Call, new_socket, null_binding, IsLife, AreShut, new_socket_lem,
}

-- The picture is at offset 30, and is one column wide and one row high.
abbrev bmp : List ℕ
bmp =
    66 ∷ 77 ∷ 33 ∷ 0 ∷ 0 ∷ 0 ∷ 0 ∷ 0 ∷ 0 ∷ 0 ∷ 30 ∷ 0 ∷ 0 ∷ 0 ∷ 16 ∷ 0 ∷ 0 ∷ 0 ∷ 1 ∷ 0 ∷ 0 ∷ 0 ∷ 1
    ∷ 0 ∷ 0 ∷ 0 ∷ 1 ∷ 0 ∷ 24 ∷ 0 ∷ 9 ∷ 8 ∷ 7 ∷ []

abbrev bmp_file : File tape
bmp_file = record {
  reader = record {
    is_text = false;
    size = 0;
    current = 0;
    buffer = replicate 128 0;
    source = ([], bmp);
  };
  writer = record { current = 0; buffer = replicate 128 0; sink = ([], []) };
}

new_bitmap_lem_example :
    ((new_bitmap tape (λ n. replicate n 0) bmp_file).w ≡ 1)
    × ((new_bitmap tape (λ n. replicate n 0) bmp_file).h ≡ 1)
    × (get_or (new_bitmap tape (λ n. replicate n 0) bmp_file).buffer (0 * 1 + 0) 0
        ≡ 9 + 256 * (8 + 256 * 7))
new_bitmap_lem_example =
    new_bitmap_lem seekable (λ n. replicate n 0) bmp_file bmp 0 0
      (record {
        valid = record {
          binary = refl;
          cells = refl;
          ordered = λ h. omega arith;
          bounded = λ h. omega arith;
        };
        live = refl;
        spent = refl;
      })
      refl refl refl (omega arith) (λ n. length-replicate n 0) (omega arith) (omega arith)
      (omega arith) (omega arith) (omega arith)

abbrev second_opens : Service ℕ
second_opens = record { opens = λ h. h == 2; creates = true; opens_child = false }

new_socket_lem_example :
    ((h : ℕ) × (second_opens.opens h ≡ true)
      × IsLife second_opens h (new_socket second_opens (1 ∷ 2 ∷ [])))
    ⊎ ((calls : List (Call ℕ)) × (new_socket second_opens (1 ∷ 2 ∷ []) ≡ null_binding calls)
        × AreShut second_opens (1 ∷ 2 ∷ []))
new_socket_lem_example = new_socket_lem second_opens (1 ∷ 2 ∷ [])
