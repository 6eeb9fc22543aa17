-- ===== src/Reader.antt =====
-- `LReader` of src/lreader.hpp: a buffered reader over a virtual `ReadBuffer`, which is the section's
-- parameter `read_buffer`. `S` is what the derived class reads from. A byte is a number below 256,
-- `none` is `ReaderEof`, and the 128 cells of `buffer` start with whatever the memory holds.
-- `Next` and `Current` call one another at most twice: the calls are written out as `refill` and
-- `loaded_current`.
pub mod Source
pub mod Pending
pub mod Drain
pub mod Kept
pub mod ReadLine
pub mod ReadBlock
use lavoro_l.Base.{
  ℕ, zero, suc, ◌+◌, ◌-◌, Bool, true, false, ◌&&◌, Option, none, some, List, [], ◌∷◌, ◌==◌,
  if◌then◌else◌, get_or,
}
use mathlib.Core.List.{reverse}

-- `~0U`, an `unsigned int`, as the 64-bit `size` holds it.
abbrev pub eof_size : ℕ
eof_size = 4294967295

abbrev pub reader_buffer_size : ℕ
reader_buffer_size = 128

pub record Reader (S : Type 0) : Type 0 where
  pub is_text : Bool
  pub size : ℕ
  pub current : ℕ
  pub buffer : List ℕ
  pub source : S

-- What `ReadLine` leaves in the caller's buffer. `underrun` is the line that ends before the buffer's
-- first cell: the terminator goes to the cell below it.
pub data Line : Type 0 where
  line : List ℕ → Line
  underrun : Line

-- The CHAR16 that an `int` of `Current` is cast to.
abbrev pub char16 : Option ℕ → ℕ
char16 none = 65535
char16 (some c) = c

-- The end of `ReadLine`: `cells` are those written, last one first, and `before` is the cell
-- below the buffer, which the code reads when the line is empty.
unfoldable pub finish_line : ℕ → List ℕ → Line
finish_line before [] = if before == 13 then underrun else line []
finish_line before (c ∷ cells) = line (reverse (if c == 13 then cells else c ∷ cells))

module _ {S : Type 0} where
  abbrev pub at_end : Reader S → Bool
  at_end r = r.size == eof_size

  abbrev pub set_end : Reader S → Reader S
  set_end r = record r { size = eof_size }

  -- `LReader::Reset`
  unfoldable pub reset : Reader S → Reader S
  reset r = if at_end r then r else record r { size = 0; current = 0 }

  -- `LReader::SetText`
  unfoldable pub set_text : Reader S → Reader S
  set_text r = record r { is_text = true }

  abbrev pub cell : Reader S → ℕ
  cell r = get_or r.buffer r.current 0

  abbrev pub text_end : Reader S → Bool
  text_end r = r.is_text && (cell r == 0)

  -- `Current` where `current` is not `size`.
  unfoldable pub loaded_current : Reader S → Option ℕ × Reader S
  loaded_current r =
      if at_end r then (none, r) else if text_end r then (none, set_end r) else (some (cell r), r)

  -- What `Next` does once `ReadBuffer` has answered.
  unfoldable pub after_read : Bool × Reader S → Option ℕ × Reader S
  after_read (false, r) = (none, set_end r)
  after_read (true, r) =
      let r' : Reader S = record r { current = 0 } in
      if r'.current == r'.size then (none, set_end r') else loaded_current r'

module _ {S : Type 0} (read_buffer : Reader S → Bool × Reader S) where
  -- `Next` where `current` is `size`.
  unfoldable pub refill : Reader S → Option ℕ × Reader S
  unfolding after_read
  refill r = if at_end r then (none, r) else after_read (read_buffer r)

  -- `LReader::Current`
  unfoldable pub current : Reader S → Option ℕ × Reader S
  unfolding refill
  current r =
      if at_end r
      then (none, r)
      else if text_end r
      then (none, set_end r)
      else if r.current == r.size
      then (let (_, r') = refill r in (some (cell r'), r'))
      else (some (cell r), r)

  -- `LReader::Next`
  unfoldable pub next : Reader S → Option ℕ × Reader S
  unfolding refill
  next r =
      if at_end r
      then (none, r)
      else if r.current == r.size
      then refill r
      else current (record r { current = r.current + 1 })

  abbrev pub step : Reader S → Reader S
  step r = (next r).1

  -- `LReader::Read` of `n` bytes. A `char` keeps the low byte of what `Current` returns, which is
  -- 255 for `ReaderEof`. The bytes read, and the reader after them.
  unfoldable pub read : ℕ → Reader S → List ℕ × Reader S
  read zero r = ([], r)
  read (suc n) r =
      let (c, r') = current r in
      let more : List ℕ × Reader S = read n (step r') in
      if at_end r then ([], r) else ((elim c [ some b ↦ b | none ↦ 255 ]) ∷ more.0, more.1)

  -- The loop of `LReader::ReadLine`, on fuel; `cells` are those written so far, last one first.
  unfoldable pub read_line_loop : ℕ → List ℕ → Reader S → Option (List ℕ × Reader S)
  read_line_loop zero cells r = none
  read_line_loop (suc fuel) cells r =
      let (c, r1) = current r in
      let (d, r2) = current r1 in
      let rest : Option (List ℕ × Reader S) = read_line_loop fuel (char16 d ∷ cells) (step r2) in
      if at_end r then some (cells, r) else if char16 c == 10 then some (cells, step r1) else rest

  -- `LReader::ReadLine`
  unfoldable pub read_line : ℕ → ℕ → Reader S → Option (Line × Reader S)
  read_line before fuel r = elim (read_line_loop fuel [] r) [
    | none ↦ none
    | some (cells, r') ↦ some (finish_line before cells, r')
  ]
