-- ===== src/Examples/Network.antt =====
-- A network whose address comes late and that gives one byte.
use lavoro_l.Base.{
  ◌⊎◌, ℕ, ◌+◌, ◌≡◌, refl, Bool, true, false, not, some, List, [], ◌∷◌, ◌==◌, arith, if◌then◌else◌,
  length, ltb,
}
use lavoro_l.Task.{Ptr, Tasks}
use lavoro_l.Socket.{success, no_mapping, failure, Tcp, Socket, transmit, receive}
use lavoro_l.Socket.Accepting.{Signal, Listening}
use lavoro_l.Reader.{Reader}
use lavoro_l.File.{read_buffer}
use lavoro_l.Examples.Memory.{memory, opened}
use lavoro_l.Socket.Outcome.{transmit_lem, receive_lem}
use lavoro_l.Socket.Connection.{connect}
use lavoro_l.Socket.Connection.Established.{connect_lem}

-- The state is the number of calls so far. Nothing can be sent.
abbrev network : Tcp
network = record {
  Env = ℕ;
  configure = λ with_data env. (if env == 0 then no_mapping else success, env + 1);
  get_mode = λ env. (success, ltb 2 env, env + 1);
  create_event = λ env. (success, env + 1);
  close_event = λ env. (success, env + 1);
  connect = λ env. (record { status = success; signalled = false }, env + 1);
  accept = λ env. (success, env + 1);
  transmit = λ bytes env. (record { status = failure; signalled = false }, env + 1);
  receive = λ n env. (record { status = success; signalled = false }, env + 1);
  poll = λ env. (record { status = success; signalled = true }, env + 1);
  token_status = λ env. success;
  fragment = λ env. 7 ∷ [];
  clear_fragment = λ env. env;
}

abbrev no_tasks : Tasks
no_tasks = record { queue = 0; live = λ p. false; priority = λ p. 0; left = λ p. 0; right = λ p. 0 }

abbrev socket : Socket network
socket = record { child = true; closed = false; event_status = 0; tasks = no_tasks; env = 0 }

abbrev idle : Ptr → Tasks → Tasks
idle p t = t

receive_lem_example :
    (flag : Bool) × (bytes : List ℕ) × (s' : Socket network) × (receive network idle 96 40002 socket
      ≡ some (flag, bytes, s'))
    × (flag ≡ not (length bytes == 0))
    × ((flag ≡ false) ⊎ ((s'.event_status ≡ 0) ⊎ (s'.closed ≡ true)))
receive_lem_example = receive_lem network idle 96 40002 socket (omega arith)

transmit_lem_example :
    (ok : Bool) × (s' : Socket network) × (transmit network idle (1 ∷ 2 ∷ []) 40002 socket
      ≡ some (ok, s'))
    × (ok ≡ true → s'.event_status ≡ 0)
transmit_lem_example = transmit_lem network idle (1 ∷ 2 ∷ []) 40002 socket (omega arith)

connect_lem_example :
    (ok : Bool) × (s' : Socket network) × (connect network idle 40002 socket ≡ some (ok, s'))
    × (ok ≡ true → s'.event_status ≡ 0)
connect_lem_example = connect_lem network idle 2 40002 socket refl (omega arith) (omega arith)

-- A connection that failed, a round without a signal, and one that sends two bytes.
abbrev broken : Signal (List ℕ)
broken = record { status = failure; opened = success; reader = opened [] }

abbrev made : Signal (List ℕ)
made = record { status = success; opened = success; reader = opened (72 ∷ 105 ∷ []) }

abbrev start : Listening
start = record { accepted = true; closed = 0; errors = 0; printed = []; tasks = no_tasks }

abbrev reads : Reader (List ℕ) → Bool × Reader (List ℕ)
reads = read_buffer memory
