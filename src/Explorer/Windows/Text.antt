-- ===== src/Explorer/Windows/Text.antt =====
-- The texts of help and readme.
use lavoro_l.Base.{
  ℕ, ◌<◌, ◌≡◌, refl, Bool, some, List, [], ◌∷◌, ◌++◌, ◌∙◌, sym, if◌then◌else◌, length, ltb,
  append-nil, append_assoc,
}
use lavoro_l.Reader.{Reader}
use lavoro_l.Reader.Source.{Source}
use lavoro_l.Reader.Drain.{drain-feed, feed}
use lavoro_l.Reader.Pending.{pending, next-spent}
use lavoro_l.Transfer.Copy.{IsFresh}
use lavoro_l.Explorer.Windows.{message_size, message, overrun, put_cell, read_message}

feed-put_cell : (bs cells : List ℕ) → feed put_cell cells bs ≡ cells ++ bs
feed-put_cell [] cells = sym (append-nil cells)
feed-put_cell (b ∷ bs) cells = feed-put_cell bs (put_cell cells b) ∙ append_assoc cells (b ∷ []) bs

-- With more fuel than bytes the file is read to its end: its text is in the array where it is shorter
-- than that, and leaves it otherwise.
pub read_message_lem :
    {S : Type 0} {read_buffer : Reader S → Bool × Reader S} (src : Source read_buffer) (fuel : ℕ)
    {r : Reader S}
    → IsFresh r
    → length (pending src.rest r) < fuel
    → read_message read_buffer fuel r
      ≡ some (
          if ltb (length (pending src.rest r)) message_size
          then message (pending src.rest r)
          else overrun)
unfolding read_message
read_message_lem {read_buffer} src fuel {r} f l =
    let run =
      drain-feed src put_cell (pending src.rest r) fuel [] (next-spent src f.valid f.live f.spent)
        l in
    rw (run.1, read_message) (rw (feed-put_cell (pending src.rest r) []) refl)
