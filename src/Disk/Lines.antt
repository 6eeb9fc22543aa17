-- ===== src/Disk/Lines.antt =====
-- A line of the console, from its cells to the medium: the command is chosen, its handler builds the
-- paths, and the files are opened, used and closed.
use lavoro_l.Base.{
  ℕ, ◌<◌, ◌≡◌, ◌≢◌, ◌==◌, true, ◌&&◌, if◌then◌else◌, sym, append_assoc, Bool-cases, inl, inr,
  Option, none, some, List, [], ◌∷◌, ◌++◌, ◌∙◌, ap, arith, length, length-append, drop,
}
use lavoro_l.Transfer.{c_string}
use lavoro_l.Transfer.Copy.{IsBytes}
use lavoro_l.Console.{
  Strings, cp, mv, Action, remove, copy, move, append_line, make_directory, show_file, dispatch,
  handle, resolve,
}
use lavoro_l.Console.Dispatch.{IsComparing, dispatch_lem}
use lavoro_l.Console.Operands.{
  IsName, IsText, IsName-IsText, nonzero, handle_cp, handle_mv, c_string-append,
}
use lavoro_l.Explorer.{fits, join_path, ends_in_separator}
use lavoro_l.File.{Protocol}
use lavoro_l.File.Seek.{IsSeekable}
use lavoro_l.Disk.Lawful.{IsLawful}
use lavoro_l.Disk.Copied.{bytes_of, copy_file_lem}
use lavoro_l.Disk.Moved.{move_file_lem}
use lavoro_l.Disk.Commands.{
  FileSystem, Outcome, finished, fault, remove_file, copy_file, move_file, append_file, cat_file,
  new_directory,
}

-- Where a line ends: the medium, and the fuel that ran out as `none`.
module _ {p : Protocol} (fs : FileSystem p) (reader_cells writer_cells : List ℕ) (fuel : ℕ) where
  abbrev medium_of : {A : Type 0} → Option (Outcome (A × fs.Disk)) → Option (Outcome fs.Disk)
  medium_of none = none
  medium_of (some fault) = some fault
  medium_of (some (finished (a, d))) = some (finished d)

  module _ (others : Action → fs.Disk → Option (Outcome fs.Disk)) where
    -- What a handler does to the medium. `others` are ls and batch, and the commands that open no file.
    -- A path that leaves `szPath` is a fault.
    unfoldable pub perform : Action → fs.Disk → Option (Outcome fs.Disk)
    perform (remove path) d =
        if fits path then some (finished (remove_file fs path d)) else some fault
    perform (copy a b) d =
        if fits a && fits b then copy_file fs reader_cells writer_cells fuel a b d else some fault
    perform (move a b) d =
        if fits a && fits b then move_file fs reader_cells writer_cells fuel a b d else some fault
    perform (append_line path text) d =
        if fits path then append_file fs reader_cells writer_cells fuel path text d else some fault
    perform (make_directory path) d =
        if fits path then some (finished (new_directory fs path d)) else some fault
    perform (show_file path) d =
        if fits path
        then medium_of (cat_file fs reader_cells writer_cells fuel path d)
        else some fault
    perform a d = others a d

    unfoldable pub run_line : Strings → List ℕ → List ℕ → fs.Disk → Option (Outcome fs.Disk)
    unfolding perform
    run_line lib dir cells d = perform (handle (dispatch lib (c_string cells)) dir cells) d

nonempty : (path name : List ℕ) (c : ℕ) → length (path ++ c ∷ name) ≢ 0
nonempty path name c e = omega (arith, length-append path (c ∷ name))

-- The path that a handler builds is never empty.
length-join_path : (path name : List ℕ) → length (join_path path name) ≢ 0
unfolding join_path ends_in_separator
length-join_path [] name = nonempty [] name 92
length-join_path (c ∷ path) name = elim (Bool-cases (ends_in_separator (c ∷ path))) [
  | inl ends ↦ rw ends (λ e. omega arith)
  | inr open_end ↦ rw open_end (λ e. omega arith)
]

pub length-resolve : (dir name : List ℕ) → length (resolve dir name) ≢ 0
unfolding resolve
length-resolve dir [] = length-join_path dir []
length-resolve dir (c ∷ name) = elim (Bool-cases (c == 92)) [
  | inl rooted ↦ rw rooted (λ e. omega arith)
  | inr relative ↦ rw relative (length-join_path dir (c ∷ name))
]

pub IsText-append : (a b : List ℕ) → IsText a → IsText b → IsText (a ++ b)
IsText-append [] b ta tb = tb
IsText-append (c ∷ a) b (n, ta) tb = (n, IsText-append a b ta tb)

-- The text of a line with two operands.
operands-text :
    (x y : ℕ) (a b junk : List ℕ)
    → x ≢ 0
    → y ≢ 0
    → IsText a
    → IsText b
    → c_string (x ∷ y ∷ 32 ∷ (a ++ 32 ∷ (b ++ 0 ∷ junk))) ≡ x ∷ y ∷ 32 ∷ (a ++ 32 ∷ b)
operands-text x y a b junk nx ny ta tb =
    ap (λ t. c_string (x ∷ y ∷ 32 ∷ t)) (sym (append_assoc a (32 ∷ b) (0 ∷ junk)))
    ∙ c_string-append (x ∷ y ∷ 32 ∷ (a ++ 32 ∷ b)) junk
        (nx, (ny, (nonzero 31, IsText-append a (32 ∷ b) ta (nonzero 31, tb))))

module _ {p : Protocol} {m : IsSeekable p} {fs : FileSystem p} (l : IsLawful m fs)
    (reader_cells writer_cells : List ℕ) (fuel : ℕ)
    (others : Action → fs.Disk → Option (Outcome fs.Disk)) (lib : Strings) where
  -- A line `mv a b`, neither name with a space, in a directory in which the two names stand for
  -- different places, both paths with at most 255 characters, and the first for a file with fewer
  -- bytes than there is fuel: the run of the
  -- line ends without a fault, `b` has the bytes of `a` and, behind them, what a longer old `b` had
  -- there, `a` is gone, and every other place is as before. `junk` is what lies behind the line.
  pub run_line-mv :
      (dir a b junk : List ℕ) (d : fs.Disk) (bytes : List ℕ) (q : l.Place)
      → IsComparing lib
      → IsName a
      → IsName b
      → length (resolve dir a) < 256
      → length (resolve dir b) < 256
      → length reader_cells ≡ 128
      → length writer_cells ≡ 128
      → l.place (resolve dir b) ≢ l.place (resolve dir a)
      → l.lookup d (l.place (resolve dir a)) ≡ some bytes
      → IsBytes bytes
      → length bytes < fuel
      → q ≢ l.place (resolve dir a)
      → q ≢ l.place (resolve dir b)
      → (d' : fs.Disk) × (run_line fs reader_cells writer_cells fuel others lib dir
            (109 ∷ 118 ∷ 32 ∷ (a ++ 32 ∷ (b ++ 0 ∷ junk)))
            d
          ≡ some (finished d'))
        × (l.lookup d' (l.place (resolve dir b))
            ≡ some (bytes ++ drop (length bytes) (bytes_of (l.lookup d (l.place (resolve dir b))))))
        × (l.lookup d' (l.place (resolve dir a)) ≡ none)
        × (l.lookup d' q ≡ l.lookup d q)
  unfolding run_line
  run_line-mv dir a b junk d bytes q law na nb fa fb erc ewc apart found small enough qa qb =
      let done =
        move_file_lem l reader_cells writer_cells fuel (resolve dir a) (resolve dir b) d bytes erc
          ewc (length-resolve dir a) (length-resolve dir b) apart found small enough in
      let inside : (fits (resolve dir a) && fits (resolve dir b)) ≡ true = ground arith in
      let text =
        operands-text 109 118 a b junk (nonzero 108) (nonzero 117) (IsName-IsText a na)
          (IsName-IsText b nb) in
      let chosen : dispatch lib (c_string (109 ∷ 118 ∷ 32 ∷ (a ++ 32 ∷ (b ++ 0 ∷ junk)))) ≡ mv =
        ap (dispatch lib) text ∙ dispatch_lem lib law mv (32 ∷ (a ++ 32 ∷ b)) in
      rw chosen (
        rw (handle_mv dir a b junk na nb, perform, inside)
          (done.0, done.1, done.2, done.3, done.4 q qa qb))

  -- A line `cp a b`, the first name without a space, in a directory in which the two names stand for
  -- different places, both paths with at most 255 characters, and the first for a file with fewer
  -- bytes than there is fuel: the run of the
  -- line ends without a fault, `b` has the bytes of `a` and, behind them, what a longer old `b` had
  -- there, and every other place is as before, that of `a` too. `junk` is what lies behind the line.
  pub run_line-cp :
      (dir a b junk : List ℕ) (d : fs.Disk) (bytes : List ℕ) (q : l.Place)
      → IsComparing lib
      → IsName a
      → IsText b
      → length (resolve dir a) < 256
      → length (resolve dir b) < 256
      → length reader_cells ≡ 128
      → length writer_cells ≡ 128
      → l.place (resolve dir b) ≢ l.place (resolve dir a)
      → l.lookup d (l.place (resolve dir a)) ≡ some bytes
      → IsBytes bytes
      → length bytes < fuel
      → q ≢ l.place (resolve dir a)
      → q ≢ l.place (resolve dir b)
      → (d' : fs.Disk) × (run_line fs reader_cells writer_cells fuel others lib dir
            (99 ∷ 112 ∷ 32 ∷ (a ++ 32 ∷ (b ++ 0 ∷ junk)))
            d
          ≡ some (finished d'))
        × (l.lookup d' (l.place (resolve dir b))
            ≡ some (bytes ++ drop (length bytes) (bytes_of (l.lookup d (l.place (resolve dir b))))))
        × (l.lookup d' (l.place (resolve dir a)) ≡ some bytes)
        × (l.lookup d' q ≡ l.lookup d q)
  unfolding run_line
  run_line-cp dir a b junk d bytes q law na tb fa fb erc ewc apart found small enough qa qb =
      let done =
        copy_file_lem l reader_cells writer_cells fuel (resolve dir a) (resolve dir b) d bytes erc
          ewc (length-resolve dir a) (length-resolve dir b) apart found small enough in
      let inside : (fits (resolve dir a) && fits (resolve dir b)) ≡ true = ground arith in
      let text = operands-text 99 112 a b junk (nonzero 98) (nonzero 111) (IsName-IsText a na) tb in
      let chosen : dispatch lib (c_string (99 ∷ 112 ∷ 32 ∷ (a ++ 32 ∷ (b ++ 0 ∷ junk)))) ≡ cp =
        ap (dispatch lib) text ∙ dispatch_lem lib law cp (32 ∷ (a ++ 32 ∷ b)) in
      rw chosen (
        rw (handle_cp dir a b junk na tb, perform, inside)
          (done.0, done.1, done.2, done.3, done.4 q qa qb))
