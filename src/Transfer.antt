-- ===== src/Transfer.antt =====
-- The loops of main.cpp that move a file's bytes: the copy of the commands cp and mv, the printing
-- loop of cat, connect and `TCPAcceptConnection`, and the length that addline counts. Each runs on
-- fuel; `none` means that the fuel ran out.
pub mod Copy
pub mod Show
use lavoro_l.Base.{
  ℕ, zero, suc, ◌+◌, Bool, true, false, Option, none, some, List, [], ◌∷◌, ◌++◌, ◌==◌,
  if◌then◌else◌, length,
}
use lavoro_l.Reader.{Reader, at_end, current, next, step, char16}
use lavoro_l.Reader.Drain.{drain}
use lavoro_l.Writer.{Writer, write, flush}

abbrev pub max_buffer_size : ℕ
max_buffer_size = 256

-- `szBuffer` as filled so far (the cells beyond are zero), and what was printed, in order.
pub record Screenful : Type 0 where
  pub filled : List ℕ
  pub printed : List (List ℕ)

-- The text that `Print(L"%s")` takes from a zero-terminated buffer.
abbrev pub c_string : List ℕ → List ℕ
c_string [] = []
c_string (c ∷ cs) = if c == 0 then [] else (c ∷ c_string cs)

-- Print the buffer and clear it.
abbrev pub print_buffer : Screenful → Screenful
print_buffer s = record { filled = []; printed = s.printed ++ c_string s.filled ∷ [] }

-- One byte goes to the buffer, which is printed at 255.
unfoldable pub put_char : Screenful → ℕ → Screenful
put_char s c =
    let s' : Screenful = record s { filled = s.filled ++ c ∷ [] } in
    if length s'.filled == 255 then print_buffer s' else s'

-- What the loop leaves in the buffer is printed.
unfoldable pub finish : Screenful → Screenful
finish s = if length s.filled == 0 then s else print_buffer s

module _ {S : Type 0} (read_buffer : Reader S → Bool × Reader S) where
  -- The printing loop: `Next`, then `Current` twice.
  unfoldable pub show_loop : ℕ → Screenful → Reader S → Option (Screenful × Reader S)
  show_loop zero s r = none
  show_loop (suc fuel) s r =
      let (c, r1) = current read_buffer (step read_buffer r) in
      let (d, r2) = current read_buffer r1 in
      let rest : Option (Screenful × Reader S) = show_loop fuel (put_char s (char16 d)) r2 in
      if at_end r then some (s, r) else elim c [ none ↦ some (s, r1) | some _ ↦ rest ]

  unfoldable pub show : ℕ → Reader S → Option (List (List ℕ))
  show fuel r = elim (show_loop fuel (record { filled = []; printed = [] }) r) [
    | none ↦ none
    | some (s, r') ↦ some (finish s).printed
  ]

  -- cp and mv: the reader's bytes go to the writer, which is flushed.
  unfoldable pub copy :
      {T : Type 0} → (List ℕ → T → T) → ℕ → Writer T → Reader S → Option (Writer T × Reader S)
  copy write_buffer fuel w r =
      elim (drain read_buffer (write write_buffer) fuel w (step read_buffer r)) [
        | none ↦ none
        | some (w', r') ↦ some (flush write_buffer w', r')
      ]

  -- addline: `Position` in its loop over the file, and the number of bytes in the file.
  unfoldable pub count_loop : ℕ → ℕ → Reader S → Option (ℕ × Reader S)
  count_loop zero n r = none
  count_loop (suc fuel) n r =
      let rest : Option (ℕ × Reader S) = count_loop fuel (n + 1) (step read_buffer r) in
      if at_end r then some (n, r) else rest

  unfoldable pub count : ℕ → Reader S → Option (ℕ × Reader S)
  count fuel r = count_loop fuel 0 (step read_buffer r)
