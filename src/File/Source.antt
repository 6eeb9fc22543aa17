-- ===== src/File/Source.antt =====
-- `LFileReader::ReadBuffer` keeps the promise of Reader/Source.antt.
use lavoro_l.Base.{
  ℕ, ◌-◌, ◌≤◌, ◌≡◌, refl, false, List, [], ◌∷◌, ◌++◌, ◌==◌, arith, length, length-append,
  length-drop, drop, take-append, not,
}
use lavoro_l.Reader.{Reader, at_end, reader_buffer_size}
use lavoro_l.Reader.Source.{Source, Filled}
use lavoro_l.File.{Protocol, read_buffer}

-- What the UEFI specification says of `Read`, of a medium that does not fail: it gives at most the
-- bytes asked for, the next ones of the file, and none only at the end of the file.
pub record IsReliable (p : Protocol) : Type 0 where
  pub rest : p.Handle → List ℕ
  pub no_failure : (k : ℕ) (h : p.Handle) → (p.read k h).0.failed ≡ false
  pub at_most : (k : ℕ) (h : p.Handle) → length (p.read k h).0.bytes ≤ k
  pub advances : (k : ℕ) (h : p.Handle) → rest h ≡ (p.read k h).0.bytes ++ rest (p.read k h).1
  pub ends : (k : ℕ) (h : p.Handle) → 1 ≤ k → (p.read k h).0.bytes ≡ [] → rest h ≡ []

pub nil_of_length : (xs : List ℕ) → length xs ≡ 0 → xs ≡ []
nil_of_length [] e = refl
nil_of_length (x ∷ xs) e = absurd (omega arith)

module _ {p : Protocol} (m : IsReliable p) where
  module _ (r : Reader p.Handle) (live : at_end r ≡ false) where
    abbrev got : List ℕ
    got = (p.read 127 r.source).0.bytes

    read_buffer-eq : read_buffer p r ≡ (
      not (0 == length got),
      record r {
        current = 0;
        size = length got;
        buffer = got ++ drop (length got) r.buffer;
        source = (p.read 127 r.source).1;
      },
    )
    unfolding read_buffer
    read_buffer-eq = rw (live, m.no_failure 127 r.source) refl

    -- On a medium that does not fail, a reader that is not at its end and has its 128 cells is filled
    -- from the first cell on with the next bytes of the file, at least one; or there was none left, and
    -- the answer is false.
    pub read_buffer-Filled :
        length r.buffer ≡ reader_buffer_size → Filled m.rest r (read_buffer p r)
    read_buffer-Filled c =
        let few = m.at_most 127 r.source in
        rw read_buffer-eq (record {
          mode = refl;
          cells = omega (
            arith,
            length-append got (drop (length got) r.buffer),
            length-drop (length got) r.buffer,
          );
          ended = λ h. m.ends 127 r.source (omega arith) (nil_of_length got (ground arith));
          start = λ h. refl;
          some_bytes = λ h. ground arith;
          fits = λ h. omega arith;
          bytes = λ h.
              let whole : length got - 0 ≡ length got = omega arith in
              rw (whole, take-append got (drop (length got) r.buffer)) (m.advances 127 r.source);
        })

  abbrev pub file_source : Source (read_buffer p)
  file_source = record { rest = m.rest; fills = read_buffer-Filled }
