-- ===== src/Disk/Copied.antt =====
-- What opening a file gives on a medium that does not fail, and what cp leaves on it.
use lavoro_l.Base.{
  ℕ, ◌<◌, ◌≡◌, ◌≢◌, refl, false, Option, Option-cases, inl, inr, none, some, List, [], ◌++◌, ◌==◌,
  ◌∙◌, ap, sym, arith, length, drop,
}
use lavoro_l.Transfer.Copy.{IsBytes}
use lavoro_l.File.{Protocol}
use lavoro_l.File.Seek.{IsSeekable}
use lavoro_l.Disk.Lawful.{IsLawful}
use lavoro_l.Disk.Written.{IsWritten, transfer_lem}
use lavoro_l.Disk.Commands.{
  done, FileSystem, finished, mode_read, mode_create, attribute_valid, attribute_archive, new_file,
  delete_file, within, opened_in, copy_file, copy_from,
}

-- The bytes of a place: none where there is no file.
abbrev pub bytes_of : Option (List ℕ) → List ℕ
bytes_of none = []
bytes_of (some bytes) = bytes

module _ {p : Protocol} {m : IsSeekable p} {fs : FileSystem p} (l : IsLawful m fs) where
  -- A file that the constructor has opened at its start.
  pub record IsOpened (path : List ℕ) (mode attributes : ℕ) (d : fs.Disk) (bytes : List ℕ)
      : Type 0 where
    pub handle : p.Handle
    pub disk : fs.Disk
    pub run : new_file fs path none mode attributes d ≡ (some handle, disk)
    pub spot : l.spot handle ≡ l.place path
    pub start : m.passed handle ≡ []
    pub whole : m.reliable.rest handle ≡ bytes
    pub others : (q : l.Place) → q ≢ l.place path → l.lookup disk q ≡ l.lookup d q

  module _ (path : List ℕ) (mode attributes : ℕ) (d : fs.Disk) (named : length path ≢ 0) where
    abbrev asked : fs.Disk
    asked = (fs.open_volume d).1

    abbrev there : p.Handle
    there = l.opened (l.root d) path mode attributes asked

    new_file-within :
        new_file fs path none mode attributes d
        ≡ opened_in fs (l.root d) (fs.open_path (l.root d) path mode attributes asked)
    unfolding new_file
    new_file-within =
        let e : (length path == 0) ≡ false = ground arith in rw (e, l.volume_opens d, within) refl

    open-IsOpened :
        (bytes : List ℕ)
        → ((fs.open_path (l.root d) path mode attributes asked).0 ≡ done there)
          × (l.spot there ≡ l.place path)
          × (m.passed there ≡ [])
          × (m.reliable.rest there ≡ bytes)
        → IsOpened path mode attributes d bytes
    open-IsOpened bytes (opens, spot, start, whole) = record {
      handle = there;
      disk = fs.close_volume (l.root d) (fs.open_path (l.root d) path mode attributes asked).1;
      run = new_file-within ∙ rw opens refl;
      spot = spot;
      start = start;
      whole = whole;
      others = λ q apart.
          l.root_lookup (l.root d) _ q
          ∙ l.open_lookup (l.root d) path mode attributes asked q apart
          ∙ l.volume_lookup d q;
    }

    pub open_existing :
        (bytes : List ℕ)
        → l.lookup d (l.place path) ≡ some bytes
        → IsOpened path mode attributes d bytes
    open_existing bytes found = open-IsOpened bytes (
        l.opens (l.root d) path mode attributes asked bytes
          (l.volume_lookup d (l.place path) ∙ found))

  -- With CREATE a file that is not there is opened as an empty one.
  pub open_create :
      (path : List ℕ) (attributes : ℕ) (d : fs.Disk)
      → length path ≢ 0
      → IsOpened path mode_create attributes d (bytes_of (l.lookup d (l.place path)))
  open_create path attributes d named = elim (Option-cases (l.lookup d (l.place path))) [
    | inl missing ↦ rw missing (
        open-IsOpened path mode_create attributes d named [] (
          l.creates (l.root d) path attributes (asked path mode_create attributes d named)
            (l.volume_lookup d (l.place path) ∙ missing)))
    | inr (bytes, found) ↦ rw found (open_existing path mode_create attributes d named bytes found)
  ]

  -- The two files of cp and mv, and what their loop leaves of them.
  module _ (reader_cells writer_cells : List ℕ) (fuel : ℕ) (a b : List ℕ) (mode : ℕ)
      (d : fs.Disk) where
    pub record IsTransferred (bytes : List ℕ) : Type 0 where
      pub from : IsOpened a mode attribute_valid d bytes
      pub to :
          IsOpened b mode_create attribute_archive from.disk
            (bytes_of (l.lookup from.disk (l.place b)))
      pub source : p.Handle
      pub target : p.Handle
      pub written : IsWritten m l reader_cells writer_cells fuel from.handle to.handle source target

    pub both :
        (bytes : List ℕ)
        → length reader_cells ≡ 128
        → length writer_cells ≡ 128
        → length a ≢ 0
        → length b ≢ 0
        → l.lookup d (l.place a) ≡ some bytes
        → IsBytes bytes
        → length bytes < fuel
        → IsTransferred bytes
    both bytes rc wc na nb found small enough =
        let from = open_existing a mode attribute_valid d na bytes found in
        let to = open_create b attribute_archive from.disk nb in
        let run =
          transfer_lem m l reader_cells writer_cells fuel from.handle to.handle rc wc from.start
            to.start (rw from.whole small) (rw from.whole enough) in
        record { from = from; to = to; source = run.0; target = run.1; written = run.2 }

    -- The bytes that the target has once it is closed, and what closing it leaves alone.
    module _ {bytes : List ℕ} (t : IsTransferred bytes) (apart : l.place b ≢ l.place a) where
      pub target_there :
          (e : fs.Disk)
          → l.lookup (fs.close t.target e) (l.place b)
            ≡ some (bytes ++ drop (length bytes) (bytes_of (l.lookup d (l.place b))))
      target_there e =
          ap (l.lookup (fs.close t.target e)) (sym (t.written.target_spot ∙ t.to.spot))
          ∙ l.close_there t.target e
          ∙ ap some (
              t.written.target
              ∙ rw (t.from.whole, t.to.whole, t.from.others (l.place b) apart) refl)

      pub target_others :
          (e : fs.Disk) (q : l.Place)
          → q ≢ l.place b
          → l.lookup (fs.close t.target e) q ≡ l.lookup e q
      target_others e q h =
          l.close_lookup t.target e q (λ c. h (c ∙ t.written.target_spot ∙ t.to.spot))

      -- The source, closed with the bytes that it had.
      pub source_there : (e : fs.Disk) → l.lookup (fs.close t.source e) (l.place a) ≡ some bytes
      source_there e =
          ap (l.lookup (fs.close t.source e)) (sym (t.written.source_spot ∙ t.from.spot))
          ∙ l.close_there t.source e
          ∙ ap some (t.written.source ∙ t.from.whole)

      pub source_spot : l.spot t.source ≡ l.place a
      source_spot = t.written.source_spot ∙ t.from.spot

  -- cp of a file onto another place, with more fuel than the file has bytes: the run ends without a
  -- fault, the target has the source's bytes and, behind them, what a longer old target had there;
  -- the source has its bytes and every other place is as before.
  pub copy_file_lem :
      (reader_cells writer_cells : List ℕ) (fuel : ℕ) (a b : List ℕ) (d : fs.Disk) (bytes : List ℕ)
      → length reader_cells ≡ 128
      → length writer_cells ≡ 128
      → length a ≢ 0
      → length b ≢ 0
      → l.place b ≢ l.place a
      → l.lookup d (l.place a) ≡ some bytes
      → IsBytes bytes
      → length bytes < fuel
      → (d' : fs.Disk) × (copy_file fs reader_cells writer_cells fuel a b d ≡ some (finished d'))
        × (l.lookup d' (l.place b)
            ≡ some (bytes ++ drop (length bytes) (bytes_of (l.lookup d (l.place b)))))
        × (l.lookup d' (l.place a) ≡ some bytes)
        × ((q : l.Place) → q ≢ l.place a → q ≢ l.place b → l.lookup d' q ≡ l.lookup d q)
  unfolding copy_file delete_file
  copy_file_lem rc wc fuel a b d bytes erc ewc na nb apart found small enough =
      let t = both rc wc fuel a b mode_read d bytes erc ewc na nb found small enough in
      let closed : fs.Disk = fs.close t.source t.to.disk in
      (
        fs.close t.target closed,
        rw (t.from.run, t.to.run) (rw (t.written.run, copy_from) refl),
        target_there rc wc fuel a b mode_read d t apart closed,
        target_others rc wc fuel a b mode_read d t apart closed (l.place a) (λ e. apart (sym e))
            ∙ source_there rc wc fuel a b mode_read d t apart t.to.disk,
        λ q qa qb.
            target_others rc wc fuel a b mode_read d t apart closed q qb
            ∙ l.close_lookup t.source t.to.disk q
                (λ e. qa (e ∙ source_spot rc wc fuel a b mode_read d t apart))
            ∙ t.to.others q qb
            ∙ t.from.others q qa,
      )
