-- ===== src/File/AddLine.antt =====
-- addline of main.cpp: the bytes of the file are counted, its position is set behind the last one, and
-- the text, CR and LF are written there and flushed.
pub mod Unchanged
use lavoro_l.Base.{
  ℕ, zero, suc, Bool-cases, inl, inr, if-else, sym, ◌+◌, ◌<◌, ◌≡◌, refl, Bool, Option, none, some,
  List, [], ◌∷◌, ◌++◌, arith, length, append-nil, take, ◌∙◌, ap,
}
use lavoro_l.Reader.{Reader, at_end, step, reset}
use lavoro_l.Reader.Pending.{pending, pending-spent}
use lavoro_l.Writer
use lavoro_l.Writer.{Writer, writer_buffer_size, put_buffer, write}
use lavoro_l.Writer.Laws
use lavoro_l.Writer.Laws.{Sink, low_bytes, written-flush-write_all}
use lavoro_l.File.{Protocol, File, read_buffer, set_position, write_all, flush, on_writer}
use lavoro_l.File.Source.{file_source}
use lavoro_l.Reader.Kept.{either, next-source}
use lavoro_l.File.Seek.{
  IsSeekable, contents, device, write_all-last, flush-last, drop-all, take-all, low_bytes-append,
  read_buffer-contents,
}
use lavoro_l.Transfer.{count_loop, count}
use lavoro_l.Transfer.Copy.{IsFresh, count_lem}

abbrev pub crlf : List ℕ
crlf = 13 ∷ 10 ∷ []

module _ (p : Protocol) where
  unfoldable pub add_line : ℕ → List ℕ → File p → Option (File p)
  add_line fuel text file = elim (count (read_buffer p) fuel file.reader) [
    | none ↦ none
    | some (n, r) ↦
        let file1 : File p = set_position p n (record file { reader = r }) in
        some (flush p (write_all p crlf (write_all p text file1)))
  ]

-- The count keeps what `ReadBuffer` keeps.
module _ {S B : Type 0} (kept : S → B) (read_buffer : Reader S → Bool × Reader S)
    (keeps : (r : Reader S) → kept (read_buffer r).1.source ≡ kept r.source) where
  count_loop-source :
      (fuel k n : ℕ) (r r' : Reader S)
      → count_loop read_buffer fuel k r ≡ some (n, r')
      → kept r'.source ≡ kept r.source
  unfolding count_loop
  count_loop-source zero k n r r' e = absurd (cc)
  count_loop-source (suc fuel) k n r r' e = elim (Bool-cases (at_end r)) [
    | inl over ↦ ground arith
    | inr live ↦
        count_loop-source fuel (k + 1) n (step read_buffer r) r'
          (sym (if-else (at_end r) _ _ live) ∙ e)
        ∙ next-source kept read_buffer keeps r
  ]

  count-source :
      (fuel n : ℕ) (r r' : Reader S)
      → count read_buffer fuel r ≡ some (n, r')
      → kept r'.source ≡ kept r.source
  unfolding count
  count-source fuel n r r' e =
      count_loop-source fuel 0 n (step read_buffer r) r' e ∙ next-source kept read_buffer keeps r

module _ {p : Protocol} (m : IsSeekable p) where
  -- The writer of a file that runs on its handle.
  abbrev writer_of : File p → Writer p.Handle
  writer_of file = record file.writer { sink = file.reader.source }

  abbrev sought : ℕ → Writer p.Handle → p.Handle → Writer p.Handle
  sought n w h = record w { current = 0; sink = p.set_position n h }

  reset-source : (r : Reader p.Handle) → (reset r).source ≡ r.source
  unfolding reset
  reset-source r = either (λ (r' : Reader p.Handle). r'.source) (at_end r) refl refl

  writer_of-set_position :
      (n : ℕ) (file : File p)
      → file.writer.current ≡ 0
      → writer_of (set_position p n file) ≡ sought n file.writer file.reader.source
  unfolding set_position on_writer Writer.reset Writer.flush put_buffer
  writer_of-set_position n file e = rw (e, reset-source file.reader) refl

  write_all-append :
      (as' bs : List ℕ) (w : Writer p.Handle)
      → Writer.write_all p.write (Writer.write_all p.write w as') bs
        ≡ Writer.write_all p.write w (as' ++ bs)
  unfolding Writer.write_all
  write_all-append [] bs w = refl
  write_all-append (a ∷ as') bs w = write_all-append as' bs (write p.write w a)

  -- What a text adds to a file whose position is at its end, once it is written and flushed.
  contents-flush-write_all :
      (cs : List ℕ) (w : Writer p.Handle)
      → Laws.IsValid w
      → w.current ≡ 0
      → m.reliable.rest w.sink ≡ []
      → contents m (Writer.flush p.write (Writer.write_all p.write w cs)).sink
        ≡ m.passed w.sink ++ low_bytes cs
  contents-flush-write_all cs w v e h =
      rw
        (
          flush-last m (Writer.write_all p.write w cs) (write_all-last m cs w h),
          written-flush-write_all (device m) cs w v,
          e,
        )
        (append-nil _ ∙ ap (λ t. t ++ low_bytes cs) (append-nil _))

  source-flush-write_all :
      (as' bs : List ℕ) (file : File p)
      → (flush p (write_all p bs (write_all p as' file))).reader.source
        ≡ (Writer.flush p.write (Writer.write_all p.write (writer_of file) (as' ++ bs))).sink
  unfolding flush write_all on_writer
  source-flush-write_all as' bs file =
      ap (λ w. (Writer.flush p.write w).sink) (write_all-append as' bs (writer_of file))

  -- addline on a file that was just opened, on a medium that does not fail: with more fuel than bytes
  -- it ends, and the file then has its old bytes, the low bytes of the text, CR and LF, and nothing
  -- more.
  pub add_line_lem :
      (fuel : ℕ) (text : List ℕ) (file : File p)
      → IsFresh file.reader
      → Laws.IsValid file.writer
      → file.writer.current ≡ 0
      → m.passed file.reader.source ≡ []
      → length (m.reliable.rest file.reader.source) < fuel
      → (file' : File p) × (add_line p fuel text file ≡ some file')
        × (contents m file'.reader.source
            ≡ m.reliable.rest file.reader.source ++ (low_bytes text ++ crlf))
  unfolding add_line
  add_line_lem fuel text file f v e0 start l =
      let bytes : List ℕ = m.reliable.rest file.reader.source in
      let whole : pending m.reliable.rest file.reader ≡ bytes =
        pending-spent m.reliable.rest file.reader f.live f.spent in
      let run = count_lem (file_source m.reliable) fuel f (rw whole l) in
      let n : ℕ = length bytes in
      let file1 : File p = set_position p n (record file { reader = run.0 }) in
      let counted : count (read_buffer p) fuel file.reader ≡ some (n, run.0) =
        run.1 ∙ ap (λ t. some (length t, run.0)) whole in
      let same : contents m run.0.source ≡ bytes =
        count-source (contents m) (read_buffer p) (read_buffer-contents m) fuel n file.reader run.0
          counted
        ∙ ap (λ t. t ++ bytes) start in
      let w : Writer p.Handle = sought n file.writer run.0.source in
      let there : writer_of file1 ≡ w =
        writer_of-set_position n (record file { reader = run.0 }) e0 in
      let put =
        contents-flush-write_all (text ++ crlf) w (record { cells = v.cells; fits = omega arith })
          refl (m.seek_rest n run.0.source ∙ rw same (drop-all bytes)) in
      (
        flush p (write_all p crlf (write_all p text file1)),
        rw (counted, add_line) refl,
        ap (contents m) (source-flush-write_all text crlf file1)
            ∙ ap
                (λ v'.
                  contents m
                    (Writer.flush p.write (Writer.write_all p.write v' (text ++ crlf))).sink)
                there
            ∙ put
            ∙ ap (λ t. t ++ low_bytes (text ++ crlf))
                (m.seek_passed n run.0.source ∙ ap (take n) same ∙ take-all bytes)
            ∙ ap (λ t. bytes ++ t) (low_bytes-append text crlf),
      )
