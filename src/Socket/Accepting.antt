-- ===== src/Socket/Accepting.antt =====
-- The end of accept in main.cpp: a key is waited for, then the events are run until a connection was
-- accepted. `TCPConnectionAccepted` (src/lsocket.cpp) is called where the firmware signals the event, and
-- calls `TCPAcceptConnection` (main.cpp), which prints what the connection sends.
pub mod Waited
use lavoro_l.Base.{
  ℕ, ◌+◌, Bool, true, false, Option, none, some, List, [], ◌∷◌, ◌++◌, if◌then◌else◌,
}
use lavoro_l.Reader.{Reader}
use lavoro_l.Task.{Ptr, Tasks, do_events}
use lavoro_l.Transfer.{show}
use lavoro_l.Socket.{Status, is_error}

-- What the callback finds: the status of the token, that of `OpenProtocol`, and the reader of a socket on
-- the new child.
pub record Signal (S : Type 0) : Type 0 where
  pub status : Status
  pub opened : Status
  pub reader : Reader S

-- `accepted` is `TCPAcceptStatus`; `closed` counts the calls of `CloseEvent`, and `errors` the messages
-- of a connection that failed or could not be opened; `printed` is what the connections send.
pub record Listening : Type 0 where
  pub accepted : Bool
  pub closed : ℕ
  pub errors : ℕ
  pub printed : List (List ℕ)
  pub tasks : Tasks

module _ {S : Type 0} (read_buffer : Reader S → Bool × Reader S) (fuel : ℕ) where
  -- `TCPAcceptConnection`: what is printed between its messages. `none`: the fuel ran out.
  unfoldable pub accept_connection : Reader S → Option (List (List ℕ))
  accept_connection r = show read_buffer fuel r

  abbrev pub with_texts : Listening → Option (List (List ℕ)) → Option Listening
  with_texts l none = none
  with_texts l (some texts) =
      some (record l { accepted = true; closed = l.closed + 1; printed = l.printed ++ texts })

  abbrev pub with_error : Listening → Listening
  with_error l = record l { errors = l.errors + 1 }

  -- `TCPConnectionAccepted`
  unfoldable pub connection_accepted : Signal S → Listening → Option Listening
  connection_accepted s l =
      if is_error s.status
      then some (with_error l)
      else if is_error s.opened
      then some (with_error l)
      else with_texts l (accept_connection s.reader)

  -- The event may be signalled during a call.
  abbrev pub signalled : Option (Signal S) → Listening → Option Listening
  signalled none l = some l
  signalled (some s) l = connection_accepted s l

  module _ (run : Ptr → Tasks → Tasks) where
    -- How `while (!TCPAcceptStatus)` is left, on the signals of its rounds; `waiting` where it is still
    -- in the loop behind the last of them.
    pub data Loop : Type 0 where
      left : Listening → Loop
      waiting : Listening → Loop
      out_of_fuel : Loop

    unfoldable pub accept_loop : List (Option (Signal S)) → Listening → Loop
    accept_loop [] l = if l.accepted then left l else waiting l
    accept_loop (s ∷ ss) l =
        let l' : Listening = record l { tasks = do_events run l.tasks } in
        if l.accepted
        then left l
        else elim (signalled s l') [ none ↦ out_of_fuel | some l'' ↦ accept_loop ss l'' ]

    -- accept, from the reset of `TCPAcceptStatus` on: the signal while the key is waited for, and those
    -- of the rounds.
    unfoldable pub accept_command : Option (Signal S) → List (Option (Signal S)) → Listening → Loop
    unfolding accept_loop
    accept_command key rounds l = elim (signalled key (record l { accepted = false })) [
      | none ↦ out_of_fuel
      | some l' ↦ accept_loop rounds l'
    ]
