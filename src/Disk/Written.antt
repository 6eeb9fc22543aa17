-- ===== src/Disk/Written.antt =====
-- The files that cp and mv leave behind: the loop between two open files.
use lavoro_l.Base.{
  ℕ, zero, suc, ◌<◌, ◌≡◌, refl, Bool, Option, none, some, List, [], ◌++◌, ◌∙◌, ap, sym, arith,
  length, drop, Bool-cases, inl, inr, if-else,
}
use lavoro_l.Reader.{Reader, at_end, current, step}
use lavoro_l.Reader.Drain.{drain, uchar}
use lavoro_l.Reader.Kept.{next-source, current-source}
use lavoro_l.Writer.{Writer, write, write_all, flush}
use lavoro_l.Writer.Laws
use lavoro_l.Writer.Laws.{low_bytes, write_all-accepted, written-flush-write_all}
use lavoro_l.Writer.Kept.{flush-sink, write_all-sink, flush-left, write_all-left}
use lavoro_l.Transfer.{copy}
use lavoro_l.Transfer.Copy.{IsFresh, IsBytes, low_bytes-IsBytes, copy-write_all}
use lavoro_l.File.{Protocol, read_buffer}
use lavoro_l.File.Source.{file_source}
use lavoro_l.File.Seek.{IsSeekable, contents, device, read_buffer-contents}
use lavoro_l.Disk.Lawful.{IsLawful}
use lavoro_l.Disk.Commands.{FileSystem, finished, transfer, reader_on, writer_on}

-- The copy keeps what `ReadBuffer` keeps.
module _ {S B : Type 0} (kept : S → B) (read_buffer : Reader S → Bool × Reader S)
    (keeps : (r : Reader S) → kept (read_buffer r).1.source ≡ kept r.source) where
  drain-source :
      {A : Type 0} (put : A → ℕ → A) (fuel : ℕ) (a a' : A) (r r' : Reader S)
      → drain read_buffer put fuel a r ≡ some (a', r')
      → kept r'.source ≡ kept r.source
  unfolding drain
  drain-source put zero a a' r r' e = absurd (cc)
  drain-source put (suc fuel) a a' r r' e = elim (Bool-cases (at_end r)) [
    | inl over ↦ ground arith
    | inr live ↦
        let r1 : Reader S = (current read_buffer r).1 in
        drain-source put fuel (put a (uchar (current read_buffer r).0)) a' (step read_buffer r1) r'
          (sym (if-else (at_end r) _ _ live) ∙ e)
        ∙ next-source kept read_buffer keeps r1
        ∙ current-source kept read_buffer keeps r
  ]

  abbrev flushed :
      {T : Type 0} → (List ℕ → T → T) → Option (Writer T × Reader S) → Option (Writer T × Reader S)
  flushed write_buffer none = none
  flushed write_buffer (some (w, r)) = some (flush write_buffer w, r)

  drained :
      {T : Type 0} (write_buffer : List ℕ → T → T) (w' : Writer T) (r' : Reader S)
      (out : Option (Writer T × Reader S))
      → flushed write_buffer out ≡ some (w', r')
      → (w : Writer T) × (out ≡ some (w, r'))
  drained write_buffer w' r' none e = absurd (cc)
  drained write_buffer w' r' (some (w, r)) e = (w, ground arith)

  pub copy-source :
      {T : Type 0} (write_buffer : List ℕ → T → T) (fuel : ℕ) (w w' : Writer T) (r r' : Reader S)
      → copy read_buffer write_buffer fuel w r ≡ some (w', r')
      → kept r'.source ≡ kept r.source
  unfolding copy
  copy-source write_buffer fuel w w' r r' e =
      let run =
        drained write_buffer w' r'
          (drain read_buffer (write write_buffer) fuel w (step read_buffer r)) e in
      drain-source (write write_buffer) fuel w run.0 (step read_buffer r) r' run.1
      ∙ next-source kept read_buffer keeps r

-- The reader of a new file was not used.
pub reader_on-IsFresh :
    {p : Protocol} (fs : FileSystem p) (reader_cells writer_cells : List ℕ) (h : p.Handle)
    → length reader_cells ≡ 128
    → IsFresh (reader_on fs reader_cells writer_cells h)
reader_on-IsFresh fs reader_cells writer_cells h cells = record {
  valid = record {
    binary = refl;
    cells = cells;
    ordered = λ o. omega arith;
    bounded = λ o. omega arith;
  };
  live = refl;
  spent = refl;
}

module _ {p : Protocol} (m : IsSeekable p) {fs : FileSystem p} (l : IsLawful m fs) where
  pub read_buffer-spot : (r : Reader p.Handle) → l.spot (read_buffer p r).1.source ≡ l.spot r.source
  unfolding read_buffer
  read_buffer-spot r = elim (Bool-cases (at_end r)) [
    | inl over ↦ rw over refl
    | inr live ↦ rw (live, m.reliable.no_failure 127 r.source) (l.read_spot 127 r.source)
  ]

  module _ (reader_cells writer_cells : List ℕ) (fuel : ℕ) (h g : p.Handle) where
    -- What the loop of cp and mv leaves of two open files that were at their start.
    pub record IsWritten (h' g' : p.Handle) : Type 0 where
      pub run :
          transfer fs reader_cells writer_cells fuel h (some g) ≡ some (finished (h', some g'))
      pub source : contents m h' ≡ m.reliable.rest h
      pub source_spot : l.spot h' ≡ l.spot h
      pub target :
          contents m g' ≡ m.reliable.rest h ++ drop (length (m.reliable.rest h)) (m.reliable.rest g)
      pub target_spot : l.spot g' ≡ l.spot g

    pub transfer_lem :
        length reader_cells ≡ 128
        → length writer_cells ≡ 128
        → m.passed h ≡ []
        → m.passed g ≡ []
        → IsBytes (m.reliable.rest h)
        → length (m.reliable.rest h) < fuel
        → (h' : p.Handle) × (g' : p.Handle) × IsWritten h' g'
    unfolding transfer
    transfer_lem rc wc sh sg b le =
        let bytes : List ℕ = m.reliable.rest h in
        let r : Reader p.Handle = reader_on fs reader_cells writer_cells h in
        let w : Writer p.Handle = writer_on fs reader_cells writer_cells g in
        let fresh = reader_on-IsFresh fs reader_cells writer_cells h rc in
        let v : Laws.IsValid w = record { cells = wc; fits = omega arith } in
        let run = copy-write_all (file_source m.reliable) p.write fuel w fresh le in
        let w' : Writer p.Handle = flush p.write (write_all p.write w bytes) in
        let written : m.passed w'.sink ≡ (m.passed g ++ []) ++ low_bytes bytes =
          written-flush-write_all (device m) bytes w v in
        let left_over : m.reliable.rest w'.sink ≡ drop (length bytes) (m.reliable.rest g) =
          flush-left m.reliable.rest (device m) m.write_rest (write_all p.write w bytes)
            (write_all-accepted (device m) bytes w v).1
          ∙ write_all-left m.reliable.rest (device m) m.write_rest bytes w v in
        (
          run.0.source,
          w'.sink,
          record {
            run = rw (run.1, transfer) refl;
            source =
                copy-source (contents m) (read_buffer p) (read_buffer-contents m) p.write fuel w w'
                  r run.0 run.1
                ∙ ap (λ t. t ++ bytes) sh;
            source_spot =
                copy-source l.spot (read_buffer p) read_buffer-spot p.write fuel w w' r run.0 run.1;
            target = rw (written, left_over, sg, low_bytes-IsBytes bytes b) refl;
            target_spot =
                flush-sink l.spot p.write l.write_spot (write_all p.write w bytes)
                ∙ write_all-sink l.spot p.write l.write_spot bytes w;
          },
        )
