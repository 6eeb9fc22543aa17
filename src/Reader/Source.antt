-- ===== src/Reader/Source.antt =====
-- What a derived class's `ReadBuffer` promises to `LReader`, and the state that `LReader` keeps.
use lavoro_l.Base.{ℕ, ◌≤◌, ◌<◌, ◌≡◌, Bool, true, false, List, [], ◌++◌, length, slice}
use lavoro_l.Reader.{Reader, at_end, reader_buffer_size}

-- What one call of `ReadBuffer` did: it filled the buffer from the start, or there was nothing left.
pub record Filled {S : Type 0} (rest : S → List ℕ) (r : Reader S) (out : Bool × Reader S)
    : Type 0 where
  pub mode : out.1.is_text ≡ r.is_text
  pub cells : length out.1.buffer ≡ length r.buffer
  pub ended : out.0 ≡ false → rest r.source ≡ []
  pub start : out.0 ≡ true → out.1.current ≡ 0
  pub some_bytes : out.0 ≡ true → 0 < out.1.size
  pub fits : out.0 ≡ true → out.1.size < reader_buffer_size
  pub bytes : out.0 ≡ true → rest r.source ≡ slice 0 out.1.size out.1.buffer ++ rest out.1.source

-- `rest s` are the bytes that the source has still to deliver.
pub record Source {S : Type 0} (read_buffer : Reader S → Bool × Reader S) : Type 0 where
  pub rest : S → List ℕ
  pub fills :
      (r : Reader S)
      → at_end r ≡ false
      → length r.buffer ≡ reader_buffer_size
      → Filled rest r (read_buffer r)

-- The representation invariant of a binary reader.
pub record IsValid {S : Type 0} (r : Reader S) : Type 0 where
  pub binary : r.is_text ≡ false
  pub cells : length r.buffer ≡ reader_buffer_size
  pub ordered : at_end r ≡ false → r.current ≤ r.size
  pub bounded : at_end r ≡ false → r.size < reader_buffer_size

-- A byte is at hand, or the input is over: the state that `Next` leaves behind.
abbrev pub IsLoaded : {S : Type 0} → Reader S → Type 0
IsLoaded r = at_end r ≡ false → r.current < r.size
