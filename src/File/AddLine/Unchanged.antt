-- ===== src/File/AddLine/Unchanged.antt =====
-- A fact of the handle that its reads, writes and seeks keep is kept by addline.
use lavoro_l.Base.{ℕ, ◌≡◌, refl, Option, none, some, List, ◌∙◌, ap, sym}
use lavoro_l.Reader.{Reader}
use lavoro_l.Reader.Kept.{either}
use lavoro_l.Reader.{at_end, reset}
use lavoro_l.Writer
use lavoro_l.Writer.{Writer}
use lavoro_l.Writer.Kept.{flush-sink, write_all-sink}
use lavoro_l.File.{Protocol, File, read_buffer, set_position, write_all, flush, on_writer}
use lavoro_l.File.AddLine.{crlf, add_line, count-source}
use lavoro_l.Transfer.{count}

module _ {p : Protocol} {B : Type 0} (kept : p.Handle → B)
    (reads : (r : Reader p.Handle) → kept (read_buffer p r).1.source ≡ kept r.source)
    (writes : (bytes : List ℕ) (h : p.Handle) → kept (p.write bytes h) ≡ kept h)
    (seeks : (n : ℕ) (h : p.Handle) → kept (p.set_position n h) ≡ kept h) where
  abbrev of : File p → B
  of file = kept file.reader.source

  flush-of : (file : File p) → of (flush p file) ≡ of file
  unfolding flush on_writer
  flush-of file = flush-sink kept p.write writes (record file.writer { sink = file.reader.source })

  write_all-of : (cs : List ℕ) (file : File p) → of (write_all p cs file) ≡ of file
  unfolding write_all on_writer
  write_all-of cs file =
      write_all-sink kept p.write writes cs (record file.writer { sink = file.reader.source })

  set_position-of : (n : ℕ) (file : File p) → of (set_position p n file) ≡ of file
  unfolding set_position on_writer Writer.reset reset
  set_position-of n file =
      seeks n _
      ∙ flush-sink kept p.write writes (record file.writer { sink = (reset file.reader).source })
      ∙ either (λ (r : Reader p.Handle). kept r.source) (at_end file.reader) refl refl

  abbrev added : List ℕ → File p → Option (ℕ × Reader p.Handle) → Option (File p)
  added text file none = none
  added text file (some (n, r)) = some (
      flush p (write_all p crlf (write_all p text (set_position p n (record file { reader = r })))))

  added-of :
      (text : List ℕ) (file file' : File p) (out : Option (ℕ × Reader p.Handle))
      → ((n : ℕ) (r : Reader p.Handle) → out ≡ some (n, r) → kept r.source ≡ of file)
      → added text file out ≡ some file'
      → of file' ≡ of file
  added-of text file file' none h e = absurd (cc)
  added-of text file file' (some (n, r)) h e =
      let file1 : File p = set_position p n (record file { reader = r }) in
      let last : File p = flush p (write_all p crlf (write_all p text file1)) in
      let same : last ≡ file' = cc in
      ap of (sym same)
      ∙ flush-of (write_all p crlf (write_all p text file1))
      ∙ write_all-of crlf (write_all p text file1)
      ∙ write_all-of text file1
      ∙ set_position-of n (record file { reader = r })
      ∙ h n r refl

  pub add_line-kept :
      (fuel : ℕ) (text : List ℕ) (file file' : File p)
      → add_line p fuel text file ≡ some file'
      → kept file'.reader.source ≡ kept file.reader.source
  unfolding add_line
  add_line-kept fuel text file file' e =
      added-of text file file' (count (read_buffer p) fuel file.reader)
        (λ n r c. count-source kept (read_buffer p) reads fuel n file.reader r c) e
