-- ===== src/Disk/AddedLine.antt =====
-- A line addline of the console, from its cells to the medium.
use lavoro_l.Base.{
  true, arith, ℕ, ◌<◌, ◌≡◌, ◌≢◌, Option, some, List, ◌∷◌, ◌++◌, ◌∙◌, ap, sym, append_assoc, length,
}
use lavoro_l.Transfer.{c_string}
use lavoro_l.Writer.Laws.{low_bytes}
use lavoro_l.Console.{Strings, addline, Action, dispatch, resolve}
use lavoro_l.Explorer.{fits}
use lavoro_l.Console.Dispatch.{IsComparing, dispatch_lem}
use lavoro_l.Console.Operands.{
  IsName, IsText, IsName-IsText, nonzero, handle_addline, c_string-append,
}
use lavoro_l.File.{Protocol}
use lavoro_l.File.Seek.{IsSeekable}
use lavoro_l.File.AddLine.{crlf}
use lavoro_l.Disk.Lawful.{IsLawful}
use lavoro_l.Disk.Copied.{bytes_of}
use lavoro_l.Disk.Appended.{append_file_lem}
use lavoro_l.Disk.Lines.{perform, run_line, IsText-append, length-resolve}
use lavoro_l.Disk.Commands.{FileSystem, Outcome, finished}

abbrev pub addline_cells : List ℕ → List ℕ
addline_cells rest = 97 ∷ 100 ∷ 100 ∷ 108 ∷ 105 ∷ 110 ∷ 101 ∷ 32 ∷ rest

addline_cells-text :
    (a text junk : List ℕ)
    → IsText a
    → IsText text
    → c_string (addline_cells (a ++ 32 ∷ (text ++ 0 ∷ junk))) ≡ addline_cells (a ++ 32 ∷ text)
addline_cells-text a text junk ta tb =
    ap (λ t. c_string (addline_cells t)) (sym (append_assoc a (32 ∷ text) (0 ∷ junk)))
    ∙ c_string-append (addline_cells (a ++ 32 ∷ text)) junk (
      nonzero 96,
      (
        nonzero 99,
        (
          nonzero 99,
          (
            nonzero 107,
            (
              nonzero 104,
              (
                nonzero 109,
                (nonzero 100, (nonzero 31, IsText-append a (32 ∷ text) ta (nonzero 31, tb))),
              ),
            ),
          ),
        ),
      ),
    )

module _ {p : Protocol} {m : IsSeekable p} {fs : FileSystem p} (l : IsLawful m fs)
    (reader_cells writer_cells : List ℕ) (fuel : ℕ)
    (others : Action → fs.Disk → Option (Outcome fs.Disk)) (lib : Strings) where
  -- A line `addline a text`, the name without a space, with more fuel than the file `a` has bytes, none
  -- if there is no such file, and a path of at most 255 characters: the run of the line ends without a fault, the file has its old bytes, the
  -- low bytes of the text, CR and LF, and another place is as before. `junk` is what lies behind the
  -- line.
  pub run_line-addline :
      (dir a text junk : List ℕ) (d : fs.Disk) (q : l.Place)
      → IsComparing lib
      → IsName a
      → IsText text
      → length (resolve dir a) < 256
      → length reader_cells ≡ 128
      → length writer_cells ≡ 128
      → length (bytes_of (l.lookup d (l.place (resolve dir a)))) < fuel
      → q ≢ l.place (resolve dir a)
      → (d' : fs.Disk) × (run_line fs reader_cells writer_cells fuel others lib dir
            (addline_cells (a ++ 32 ∷ (text ++ 0 ∷ junk)))
            d
          ≡ some (finished d'))
        × (l.lookup d' (l.place (resolve dir a))
            ≡ some (bytes_of (l.lookup d (l.place (resolve dir a))) ++ (low_bytes text ++ crlf)))
        × (l.lookup d' q ≡ l.lookup d q)
  unfolding run_line
  run_line-addline dir a text junk d q law na tb fa erc ewc enough apart =
      let done =
        append_file_lem l reader_cells writer_cells fuel (resolve dir a) text d q erc ewc
          (length-resolve dir a) enough apart in
      let inside : fits (resolve dir a) ≡ true = ground arith in
      let chosen : dispatch lib (c_string (addline_cells (a ++ 32 ∷ (text ++ 0 ∷ junk))))
          ≡ addline =
        ap (dispatch lib) (addline_cells-text a text junk (IsName-IsText a na) tb)
        ∙ dispatch_lem lib law addline (32 ∷ (a ++ 32 ∷ text)) in
      rw chosen (rw (handle_addline dir a text junk na tb, perform, inside) done)
