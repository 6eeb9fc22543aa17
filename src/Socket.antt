-- ===== src/Socket.antt =====
-- src/lsocket.hpp and src/lsocket.cpp: `LSocket`, with the counter `TCPEventStatus` of the completion
-- events, over the firmware's TCP4 protocol, which is the parameter `Tcp`. What the code passes to the
-- firmware by address (the tokens, the fragment) is part of the firmware's state. An event that the
-- firmware signals during a call runs `TCPCompletionTokenEvent`. The tasks of `DoEvents` work on the
-- task queue alone.
pub mod Waiting
pub mod Outcome
pub mod Connection
pub mod Construct
pub mod Accepting
use lavoro_l.Base.{
  ℕ, zero, suc, ◌+◌, ◌-◌, Bool, true, false, not, ◌||◌, Option, none, some, List, [], ◌∷◌, ◌++◌,
  ◌==◌, if◌then◌else◌, ltb, length, drop,
}
use lavoro_l.Reader.{Reader, at_end, set_end, reader_buffer_size}
use lavoro_l.Task.{Ptr, Tasks, do_events}

-- `SOCKET_MAX_TRIES`
abbrev pub socket_max_tries : ℕ
socket_max_tries = 40000

-- The status codes that the code tells apart; `failure` is any other error.
pub data Status : Type 0 where
  success no_mapping denied finished failure : Status

-- `EFI_ERROR`
abbrev pub is_error : Status → Bool
is_error success = false
is_error s = true

-- What a call gives: its status, and whether the event was signalled meanwhile.
pub record Answer : Type 0 where
  pub status : Status
  pub signalled : Bool

pub record Tcp : Type 1 where
  pub Env : Type 0
  pub configure : Bool → Env → Status × Env
  pub get_mode : Env → Status × Bool × Env
  pub create_event : Env → Status × Env
  pub close_event : Env → Status × Env
  pub connect : Env → Answer × Env
  pub accept : Env → Status × Env
  pub transmit : List ℕ → Env → Answer × Env
  pub receive : ℕ → Env → Answer × Env
  pub poll : Env → Answer × Env
  pub token_status : Env → Status
  -- The first `FragmentLength` cells of `FragmentBuffer`, as the firmware leaves both.
  pub fragment : Env → List ℕ
  pub clear_fragment : Env → Env

module _ (tcp : Tcp) where
  -- `event_status` is the global `TCPEventStatus`, `tasks` the global queue of tasks.
  pub record Socket : Type 0 where
    pub child : Bool
    pub closed : Bool
    pub event_status : ℕ
    pub tasks : Tasks
    pub env : tcp.Env

  -- `TCPCompletionTokenEventStart`, `TCPCompletionTokenEventFinish`, `TCPCompletionTokenEventRunning`
  abbrev pub event_start : Socket → Socket
  event_start s = record s { event_status = s.event_status + 1 }

  abbrev pub event_finish : Socket → Socket
  event_finish s = if s.event_status == 0 then s else record s { event_status = s.event_status - 1 }

  abbrev pub event_running : Socket → Bool
  event_running s = not (s.event_status == 0)

  -- A call of the firmware, with `TCPCompletionTokenEvent` where the event is signalled.
  abbrev pub answered : Answer × tcp.Env → Socket → Socket
  answered (a, env) s =
      let s' : Socket = record s { env = env } in if a.signalled then event_finish s' else s'

  abbrev pub close : Socket → Status × Socket
  close s = let (status, env) = tcp.close_event s.env in (status, record s { env = env })

  -- How a waiting loop is left: the event has come or was given up, or a poll failed.
  pub data Waited : Type 0 where
    done : Socket → Waited
    poll_failed : Socket → Waited

  -- `while (TCPCompletionTokenEventRunning())`, on fuel; `body` is what follows the poll, on `Counter`
  -- and the socket.
  unfoldable pub wait_loop : (ℕ → Socket → ℕ × Socket) → ℕ → ℕ → Socket → Option Waited
  wait_loop body zero counter s = none
  wait_loop body (suc fuel) counter s =
      let s1 : Socket = answered (tcp.poll s.env) s in
      let next : ℕ × Socket = body counter s1 in
      let rest : Option Waited = wait_loop body fuel next.0 next.1 in
      if event_running s
      then (if is_error ((tcp.poll s.env).0.status) then some (poll_failed s1) else rest)
      else some (done s)

  -- The end of Connect and of Transmit.
  abbrev pub close_waited : Waited → Bool × Socket
  close_waited (poll_failed s) = (false, (close s).1)
  close_waited (done s) = let (status, s') = close s in (not (is_error status), s')

  -- Connect and Transmit from the creation of the event on: `call` is the request.
  unfoldable pub request :
      (ℕ → Socket → ℕ × Socket) → (tcp.Env → Answer × tcp.Env) → ℕ → Socket → Option (Bool × Socket)
  request body call fuel s =
      let (created, env) = tcp.create_event s.env in
      let s1 : Socket = event_start (record s { env = env }) in
      let s2 : Socket = answered (call env) s1 in
      let waited : Option Waited = wait_loop body fuel 0 s2 in
      if is_error created
      then some (false, record s { env = env })
      else if is_error (call env).0.status
      then some (false, (close s2).1)
      else elim waited [ none ↦ none | some out ↦ some (close_waited out) ]

  -- What Receive gives: its answer, the first cells of the caller's buffer, as many as it sets
  -- `*databufLength` to, and the socket. Where it sets that to 0 the buffer may hold more.
  abbrev pub Received : Type 0
  Received = Bool × List ℕ × Socket

  abbrev pub nothing : Socket → Received
  nothing s = (false, [], s)

  -- Receive, once the loop is left.
  abbrev pub receive_end : Waited → Received
  receive_end (poll_failed s) = nothing (close s).1
  receive_end (done s) =
      let bytes : List ℕ = tcp.fragment s.env in
      let (status, s') = close s in
      if is_error (tcp.token_status s.env)
      then nothing s'
      else if is_error status
      then nothing s'
      else (not (length bytes == 0), bytes, s')

  module _ (run : Ptr → Tasks → Tasks) where
    abbrev pub events : Socket → Socket
    events s = record s { tasks = do_events run s.tasks }

    -- Connect and Transmit: the event is finished on an error, or after the last try.
    abbrev pub give_up : ℕ → Socket → ℕ × Socket
    give_up counter s =
        if is_error (tcp.token_status s.env)
        then (counter, event_finish s)
        else if ltb socket_max_tries (counter + 1)
        then (counter + 1, event_finish s)
        else (counter + 1, s)

    abbrev pub connect_body : ℕ → Socket → ℕ × Socket
    connect_body counter s = give_up counter (events s)

    abbrev pub transmit_body : ℕ → Socket → ℕ × Socket
    transmit_body counter s = let (n, s') = give_up counter s in (n, events s')

    -- Receive: the socket is closed as well, and a fragment of the initial size is dropped.
    abbrev pub drop_fragment : ℕ → Socket → Socket
    drop_fragment initial s = event_finish (record s {
      env = if length (tcp.fragment s.env) == initial then tcp.clear_fragment s.env else s.env;
      closed = true;
    })

    abbrev pub receive_body : ℕ → ℕ → Socket → ℕ × Socket
    receive_body initial counter s =
        let s' : Socket = events s in
        if is_error (tcp.token_status s'.env)
        then (counter, drop_fragment initial s')
        else if ltb socket_max_tries (counter + 1)
        then (counter + 1, drop_fragment initial s')
        else (counter + 1, s')

    -- `LSocket::Transmit`
    unfoldable pub transmit : List ℕ → ℕ → Socket → Option (Bool × Socket)
    unfolding request
    transmit bytes fuel s =
        if s.child then request transmit_body (tcp.transmit bytes) fuel s else some (false, s)

    -- Receive, once the firmware has answered.
    unfoldable pub receive_answered : ℕ → Status → ℕ → Socket → Option Received
    receive_answered initial success fuel s = elim (wait_loop (receive_body initial) fuel 0 s) [
      | none ↦ none
      | some out ↦ some (receive_end out)
    ]
    -- `EFI_CONNECTION_FIN`: `FragmentLength` may still be the size that was asked for.
    receive_answered initial finished fuel s =
        let bytes : List ℕ = tcp.fragment (close s).1.env in
        some (not (length bytes == 0), bytes, record (close s).1 { closed = true })
    receive_answered initial status fuel s = some (nothing (close s).1)

    -- `LSocket::Receive`
    unfoldable pub receive : ℕ → ℕ → Socket → Option Received
    unfolding receive_answered
    receive initial fuel s =
        let (created, env) = tcp.create_event s.env in
        let s1 : Socket = event_start (record s { env = env }) in
        let answer : Answer × tcp.Env = tcp.receive initial env in
        let out : Option Received =
          receive_answered initial answer.0.status fuel (answered answer s1) in
        if not s.child || s.closed
        then some (nothing s)
        else if is_error created
        then some (nothing s1)
        else out

    -- `LSocketReader::ReadBuffer`; `none` is the fuel that ran out.
    unfoldable pub read_buffer : ℕ → Reader Socket → Option (Bool × Reader Socket)
    read_buffer fuel r =
        let out : Option Received = receive (reader_buffer_size - 32) fuel r.source in
        if at_end r then some (false, r) else elim out [
          | none ↦ none
          | some (flag, bytes, s) ↦
              let filled : Reader Socket = record r {
                buffer = bytes ++ drop (length bytes) r.buffer;
                source = s;
              } in
              some (
                if flag
                then (not (0 == length bytes), record filled { current = 0; size = length bytes })
                else (false, set_end filled))
        ]
