-- ===== src/Disk/Appended.antt =====
-- What addline leaves on a medium that does not fail.
use lavoro_l.Base.{ℕ, ◌<◌, ◌≡◌, ◌≢◌, refl, some, List, ◌++◌, ◌∙◌, ap, sym, arith, length}
use lavoro_l.Writer.Laws.{low_bytes}
use lavoro_l.File.{Protocol, File}
use lavoro_l.File.Seek.{IsSeekable}
use lavoro_l.File.AddLine.{crlf, add_line_lem}
use lavoro_l.File.AddLine.Unchanged.{add_line-kept}
use lavoro_l.Disk.Lawful.{IsLawful}
use lavoro_l.Disk.Written.{read_buffer-spot, reader_on-IsFresh}
use lavoro_l.Disk.Copied.{bytes_of, open_create}
use lavoro_l.Disk.Commands.{
  FileSystem, finished, attribute_archive, delete_file, file_on, append_file, append_to,
}

module _ {p : Protocol} {m : IsSeekable p} {fs : FileSystem p} (l : IsLawful m fs) where
  -- addline on a place, with more fuel than the file has bytes: the run ends without a fault, the
  -- file, which is made if it was not there, has its old bytes, the low bytes of the text, CR and LF,
  -- and another place is as before.
  pub append_file_lem :
      (reader_cells writer_cells : List ℕ) (fuel : ℕ) (path text : List ℕ) (d : fs.Disk)
      (q : l.Place)
      → length reader_cells ≡ 128
      → length writer_cells ≡ 128
      → length path ≢ 0
      → length (bytes_of (l.lookup d (l.place path))) < fuel
      → q ≢ l.place path
      → (d' : fs.Disk) × (append_file fs reader_cells writer_cells fuel path text d
          ≡ some (finished d'))
        × (l.lookup d' (l.place path)
            ≡ some (bytes_of (l.lookup d (l.place path)) ++ (low_bytes text ++ crlf)))
        × (l.lookup d' q ≡ l.lookup d q)
  unfolding append_file delete_file
  append_file_lem rc wc fuel path text d q erc ewc named enough apart =
      let f = open_create l path attribute_archive d named in
      let file : File p = file_on fs rc wc f.handle in
      let run =
        add_line_lem m fuel text file (reader_on-IsFresh fs rc wc f.handle erc)
          (record { cells = ewc; fits = omega arith }) refl f.start (rw f.whole enough) in
      let spot : l.spot run.0.reader.source ≡ l.place path =
        add_line-kept l.spot (read_buffer-spot m l) l.write_spot l.seek_spot fuel text file run.0
          run.1
        ∙ f.spot in
      (
        fs.close run.0.reader.source f.disk,
        rw f.run (rw (run.1, append_to) refl),
        ap (l.lookup (fs.close run.0.reader.source f.disk)) (sym spot)
            ∙ l.close_there run.0.reader.source f.disk
            ∙ ap some (run.2 ∙ ap (λ t. t ++ (low_bytes text ++ crlf)) f.whole),
        l.close_lookup run.0.reader.source f.disk q (λ e. apart (e ∙ spot)) ∙ f.others q apart,
      )
