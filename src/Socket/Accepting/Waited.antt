-- ===== src/Socket/Accepting/Waited.antt =====
-- When accept comes back.
use lavoro_l.Base.{
  length, ◌<◌, ℕ, ◌≡◌, Bool, true, false, not, ◌&&◌, ◌++◌, ◌+◌, if◌then◌else◌, Option, none, some,
  List, [], ◌∷◌,
}
use lavoro_l.Task.{Ptr, Tasks, do_events}
use lavoro_l.Reader.{Reader}
use lavoro_l.Reader.Source.{Source}
use lavoro_l.Reader.Pending.{pending}
use lavoro_l.Transfer.Copy.{IsFresh}
use lavoro_l.Transfer.Show.{flatten, HasNoZero}
use lavoro_l.Socket.{is_error}
use lavoro_l.Socket.Accepting.{Signal, Listening, Loop, left, waiting}

-- The signal of a connection that was made and could be opened.
abbrev pub is_good : {S : Type 0} → Option (Signal S) → Bool
is_good none = false
is_good (some s) = not (is_error s.status) && not (is_error s.opened)

abbrev pub first_good : {S : Type 0} → List (Option (Signal S)) → Option (Signal S)
first_good [] = none
first_good (none ∷ ss) = first_good ss
first_good (some s ∷ ss) = if is_good (some s) then some s else first_good ss

module _ {S : Type 0} {read_buffer : Reader S → Bool × Reader S} (src : Source read_buffer)
    (fuel : ℕ) (run : Ptr → Tasks → Tasks) where
  -- The sockets of the connections that were made are new, and send texts without zero bytes that are
  -- shorter than the fuel.
  abbrev pub AreShown : List (Option (Signal S)) → Type 0
  AreShown [] = Unit {0}
  AreShown (none ∷ ss) = AreShown ss
  AreShown (some s ∷ ss) =
      IsFresh s.reader
      × HasNoZero (pending src.rest s.reader)
      × (length (pending src.rest s.reader) < fuel)
      × AreShown ss

  -- The loop is left once a connection was accepted: what it sends is printed and its event closed.
  -- Without one it is still in the loop, and nothing was printed or closed.
  abbrev pub EndsWith : Listening → Option (Signal S) → Loop read_buffer fuel run → Type 0
  EndsWith l none (waiting l') =
      (l'.accepted ≡ false) × (l'.printed ≡ l.printed) × (l'.closed ≡ l.closed)
  EndsWith l (some s) (left l') =
      (ts : List (List ℕ)) × (flatten ts ≡ pending src.rest s.reader)
      × (l'.printed ≡ l.printed ++ ts)
      × (l'.closed ≡ l.closed + 1)
  EndsWith l s out = ⊥

  abbrev listening : Listening → Listening
  listening l = record l { accepted = false }

  abbrev next_round : Listening → Listening
  next_round l = record l { tasks = do_events run l.tasks }

  abbrev accepting : List (List ℕ) → Listening → Listening
  accepting ts l = record l { accepted = true; closed = l.closed + 1; printed = l.printed ++ ts }
