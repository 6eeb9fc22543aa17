-- ===== src/Disk/Moved.antt =====
-- What mv and rm leave on a medium that does not fail.
use lavoro_l.Base.{ℕ, ◌<◌, ◌≡◌, ◌≢◌, refl, none, some, List, ◌++◌, ◌∙◌, ap, sym, length, drop}
use lavoro_l.Transfer.Copy.{IsBytes}
use lavoro_l.File.{Protocol, delete}
use lavoro_l.File.Seek.{IsSeekable}
use lavoro_l.Disk.Lawful.{IsLawful}
use lavoro_l.Disk.Copied.{both, bytes_of, open_existing, target_there, target_others, source_spot}
use lavoro_l.Disk.Commands.{
  FileSystem, finished, mode_read_write, attribute_valid, delete_file, remove_file, move_file,
  copy_from, close_both,
}

module _ {p : Protocol} {m : IsSeekable p} {fs : FileSystem p} (l : IsLawful m fs) where
  -- `Delete` gives the handle up, so that the destructor does not close it again.
  delete-gone : (h : p.Handle) → delete p (some h) ≡ none
  unfolding delete
  delete-gone h = rw (l.deletes h) refl

  removed_gone :
      (h : p.Handle) (d : fs.Disk) {q : l.Place} → l.spot h ≡ q → l.lookup (fs.removed h d) q ≡ none
  removed_gone h d e = ap (l.lookup (fs.removed h d)) (sym e) ∙ l.removed_there h d

  -- mv of a file to another place, with more fuel than the file has bytes: the run ends without a
  -- fault, the target has the source's bytes and, behind them, what a longer old target had there;
  -- at the source's place there is no file any more, and every other place is as before.
  pub move_file_lem :
      (reader_cells writer_cells : List ℕ) (fuel : ℕ) (a b : List ℕ) (d : fs.Disk) (bytes : List ℕ)
      → length reader_cells ≡ 128
      → length writer_cells ≡ 128
      → length a ≢ 0
      → length b ≢ 0
      → l.place b ≢ l.place a
      → l.lookup d (l.place a) ≡ some bytes
      → IsBytes bytes
      → length bytes < fuel
      → (d' : fs.Disk) × (move_file fs reader_cells writer_cells fuel a b d ≡ some (finished d'))
        × (l.lookup d' (l.place b)
            ≡ some (bytes ++ drop (length bytes) (bytes_of (l.lookup d (l.place b)))))
        × (l.lookup d' (l.place a) ≡ none)
        × ((q : l.Place) → q ≢ l.place a → q ≢ l.place b → l.lookup d' q ≡ l.lookup d q)
  unfolding move_file delete_file
  move_file_lem rc wc fuel a b d bytes erc ewc na nb apart found small enough =
      let t = both l rc wc fuel a b mode_read_write d bytes erc ewc na nb found small enough in
      let there = source_spot l rc wc fuel a b mode_read_write d t apart in
      let without : fs.Disk = fs.removed t.source t.to.disk in
      let others = target_others l rc wc fuel a b mode_read_write d t apart without in
      (
        fs.close t.target without,
        rw (t.from.run, t.to.run)
            (rw (t.written.run, copy_from) (rw (delete-gone t.source, close_both) refl)),
        target_there l rc wc fuel a b mode_read_write d t apart without,
        others (l.place a) (λ e. apart (sym e)) ∙ removed_gone t.source t.to.disk there,
        λ q qa qb.
            others q qb
            ∙ l.removed_lookup t.source t.to.disk q (λ e. qa (e ∙ there))
            ∙ t.to.others q qb
            ∙ t.from.others q qa,
      )

  -- rm of a file that is there: there is no file at its place any more, and every other place is as
  -- before.
  pub remove_file_lem :
      (path : List ℕ) (d : fs.Disk) (bytes : List ℕ) (q : l.Place)
      → length path ≢ 0
      → l.lookup d (l.place path) ≡ some bytes
      → q ≢ l.place path
      → (l.lookup (remove_file fs path d) (l.place path) ≡ none)
        × (l.lookup (remove_file fs path d) q ≡ l.lookup d q)
  unfolding remove_file delete_file
  remove_file_lem path d bytes q named found apart =
      let f = open_existing l path mode_read_write attribute_valid d named bytes found in
      rw f.run (
        rw (delete-gone f.handle) (
          removed_gone f.handle f.disk f.spot,
          l.removed_lookup f.handle f.disk q (λ e. apart (e ∙ f.spot)) ∙ f.others q apart,
        ))
