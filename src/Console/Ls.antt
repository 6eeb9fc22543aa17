-- ===== src/Console/Ls.antt =====
-- The handler of `ls` in main.cpp: the current directory is read entry by entry into `szBuffer`, until
-- `szBufferSize` is 0. The firmware's `Read` of a directory is a parameter.
pub mod Entries
use lavoro_l.Base.{ℕ, zero, suc, Bool, Option, none, some, List, [], ◌∷◌, ◌==◌, if◌then◌else◌}
use lavoro_l.Explorer.{Entry}

-- What one call of `Read` on a directory gives: an error status, `szBufferSize` as the call leaves it, and
-- the entry in the buffer.
pub record Slot : Type 0 where
  pub failed : Bool
  pub size : ℕ
  pub entry : Entry

-- What is printed: an entry, or the message of an error.
pub data Printed : Type 0 where
  shown : Entry → Printed
  error : Printed

module _ {D : Type 0} (read : D → Slot × D) where
  abbrev pub print_slot : Slot → List Printed → List Printed
  print_slot s out =
      if s.failed then error ∷ out else if s.size == 0 then out else (shown s.entry ∷ out)

  abbrev pub print_first : Slot → Option (List Printed) → Option (List Printed)
  print_first s none = none
  print_first s (some out) = some (print_slot s out)

  -- `while (szBufferSize)`, on fuel
  unfoldable pub ls_loop : ℕ → ℕ → D → Option (List Printed)
  ls_loop zero size d = none
  ls_loop (suc fuel) size d =
      let (s, d') = read d in
      let rest : Option (List Printed) = ls_loop fuel s.size d' in
      if size == 0 then some [] else print_first s rest

  -- `szBufferSize = MAX_BUFFER_SIZE - 1`
  unfoldable pub list_all : ℕ → D → Option (List Printed)
  list_all fuel d = ls_loop fuel 255 d
