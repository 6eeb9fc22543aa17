-- ===== src/Socket/Connection.antt =====
-- `LSocket::Connect` and `LSocket::Accept`: the configuration of the TCP instance, then the request.
pub mod Established
use lavoro_l.Base.{
  ℕ, zero, suc, Bool, true, false, not, ◌||◌, ◌&&◌, Option, none, some, if◌then◌else◌,
}
use lavoro_l.Task.{Ptr, Tasks}
use lavoro_l.Socket.{
  Status, success, no_mapping, denied, finished, failure, is_error, Tcp, Socket, connect_body,
  request,
}

abbrev pub is_denied : Status → Bool
is_denied denied = true
is_denied s = false

abbrev pub is_no_mapping : Status → Bool
is_no_mapping no_mapping = true
is_no_mapping s = false

module _ (tcp : Tcp) where
  -- `do GetModeData while (!IsConfigured)`, on fuel. With `checks` (Connect) the loop is left on an
  -- error, and the answer is false where access was denied. Accept looks at no status.
  unfoldable pub mode_loop : Bool → ℕ → tcp.Env → Option (Bool × tcp.Env)
  mode_loop checks zero env = none
  mode_loop checks (suc fuel) env =
      let (status, configured, env') = tcp.get_mode env in
      let rest : Option (Bool × tcp.Env) = mode_loop checks fuel env' in
      if checks && is_denied status
      then some (false, env')
      else if checks && is_error status
      then some (true, env')
      else if configured
      then some (true, env')
      else rest

  -- Access denied: the instance is reset and configured once more.
  unfoldable pub configure_again : Status × tcp.Env → Bool × tcp.Env
  configure_again (status, env) =
      let (again, env') = tcp.configure true (tcp.configure false env).1 in
      if is_denied status then (not (is_error again), env') else (true, env)

  -- The configuration; false is a return of false.
  unfoldable pub configured : Bool → ℕ → tcp.Env → Option (Bool × tcp.Env)
  configured checks fuel env =
      let (status, env1) = tcp.configure true env in
      let mapped : Option (Bool × tcp.Env) = mode_loop checks fuel env1 in
      if is_no_mapping status
      then elim mapped [
        | none ↦ none
        | some (go, env2) ↦
            some (if go then configure_again (tcp.configure true env2) else (false, env2))
      ]
      else some (configure_again (status, env1))

  -- `LSocket::Connect`
  unfoldable pub connect : (Ptr → Tasks → Tasks) → ℕ → Socket tcp → Option (Bool × Socket tcp)
  connect run fuel s =
      if s.child
      then elim (configured true fuel s.env) [
        | none ↦ none
        | some (go, env) ↦
            let s' : Socket tcp = record s { env = env } in
            if go then request tcp (connect_body tcp run) tcp.connect fuel s' else some (false, s')
      ]
      else some (false, s)

  -- The end of `LSocket::Accept`: `TCPConnectionAcceptInitialize` only prints its error.
  unfoldable pub accept_configured : Socket tcp → Bool × Socket tcp
  accept_configured s =
      let (status, env) = tcp.accept (tcp.create_event (tcp.get_mode s.env).2).1 in
      (not (is_error status), record s { env = env })

  -- `LSocket::Accept`
  unfoldable pub accept : ℕ → Socket tcp → Option (Bool × Socket tcp)
  accept fuel s =
      if s.child
      then elim (configured false fuel s.env) [
        | none ↦ none
        | some (go, env) ↦
            let s' : Socket tcp = record s { env = env } in
            some (if go then accept_configured s' else (false, s'))
      ]
      else some (false, s)
