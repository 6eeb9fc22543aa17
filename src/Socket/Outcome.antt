-- ===== src/Socket/Outcome.antt =====
-- What Transmit and Receive give, for every firmware.
use lavoro_l.Base.{
  ◌⊎◌, ℕ, ◌+◌, ◌<◌, ◌≡◌, refl, Bool, true, false, not, ◌||◌, some, List, [], ◌==◌, arith, length,
  Bool-cases, inl, inr, ◌∙◌, if-then,
}
use lavoro_l.Task.{Ptr, Tasks}
use lavoro_l.Socket.{
  socket_max_tries, Status, success, finished, is_error, Answer, Tcp, Socket, event_start, answered,
  close, Waited, done, poll_failed, transmit_body, receive_body, close_waited, request, transmit,
  Received, receive_end, receive_answered, receive,
}
use lavoro_l.Socket.Waiting.{
  Lowers, to_go, IsSettled, wait_loop-IsSettled, transmit_body-Lowers, receive_body-Lowers,
  event_status-answered,
}

module _ (tcp : Tcp) where
  -- A request that reports success awaits no event any more.
  abbrev pub IsSettledResult : Bool × Socket tcp → Type 0
  IsSettledResult (ok, s) = ok ≡ true → s.event_status ≡ 0

  -- Enough for all tries, and for the events that are awaited already.
  abbrev pub IsEnough : ℕ → Socket tcp → Type 0
  IsEnough fuel s = socket_max_tries + s.event_status + 1 < fuel

  close_waited-IsSettled :
      (out : Waited tcp) → IsSettled tcp out → IsSettledResult (close_waited tcp out)
  close_waited-IsSettled (poll_failed s) h = λ e. cc
  close_waited-IsSettled (done s) h = λ e. h

  started-to_go :
      (fuel : ℕ) (s : Socket tcp) (env : tcp.Env) (answer : Answer × tcp.Env)
      → IsEnough fuel s
      → to_go tcp 0 (answered tcp answer (event_start tcp (record s { env = env }))) < fuel
  started-to_go fuel s env answer h =
      let few = event_status-answered tcp answer (event_start tcp (record s { env = env })) in
      omega (arith, few)

  pub request-IsSettled :
      (body : ℕ → Socket tcp → ℕ × Socket tcp)
      → Lowers tcp body
      → (call : tcp.Env → Answer × tcp.Env) (fuel : ℕ) (s : Socket tcp) → IsEnough fuel s
      → (out : Bool × Socket tcp) × (request tcp body call fuel s ≡ some out) × IsSettledResult out
  unfolding request
  request-IsSettled body low call fuel s h =
      elim (Bool-cases (is_error (tcp.create_event s.env).0)) [
        | inl failed ↦
            ((false, record s { env = (tcp.create_event s.env).1 }), rw failed refl, λ e. cc)
        | inr created ↦ elim (Bool-cases (is_error (call (tcp.create_event s.env).1).0.status)) [
          | inl refused ↦ (
            (
              false,
              (close tcp (
                  answered tcp (call (tcp.create_event s.env).1)
                    (event_start tcp (record s { env = (tcp.create_event s.env).1 })))).1,
            ),
            rw (created, refused) refl,
            λ e. cc,
          )
          | inr accepted ↦
              let env = (tcp.create_event s.env).1 in
              let waited =
                wait_loop-IsSettled tcp body low fuel 0
                  (answered tcp (call env) (event_start tcp (record s { env = env })))
                  (started-to_go fuel s env (call env) h) in
              (
                close_waited tcp waited.0,
                rw (created, accepted, waited.1) refl,
                close_waited-IsSettled waited.0 waited.2,
              )
        ]
      ]

  -- With fuel for every try and every event awaited before, Transmit returns, whatever the firmware
  -- does; where it reports success, no event is awaited any more.
  pub transmit_lem :
      (run : Ptr → Tasks → Tasks) (bytes : List ℕ) (fuel : ℕ) (s : Socket tcp)
      → IsEnough fuel s
      → (ok : Bool) × (s' : Socket tcp) × (transmit tcp run bytes fuel s ≡ some (ok, s'))
        × (ok ≡ true → s'.event_status ≡ 0)
  unfolding transmit
  transmit_lem run bytes fuel s h = elim (Bool-cases s.child) [
    | inr none_there ↦ (false, s, rw none_there refl, λ e. cc)
    | inl there ↦
        let out =
          request-IsSettled (transmit_body tcp run) (transmit_body-Lowers tcp run)
            (tcp.transmit bytes) fuel s h in
        (out.0.0, out.0.1, if-then s.child _ _ there ∙ out.1, out.2)
  ]

  -- A Transmit that the firmware refuses returns false and leaves `TCPEventStatus` one higher than it
  -- found it.
  transmit_refused :
      (run : Ptr → Tasks → Tasks) (bytes : List ℕ) (fuel : ℕ) (s : Socket tcp)
      → s.child ≡ true
      → is_error (tcp.create_event s.env).0 ≡ false
      → is_error (tcp.transmit bytes (tcp.create_event s.env).1).0.status ≡ true
      → (tcp.transmit bytes (tcp.create_event s.env).1).0.signalled ≡ false
      → (s' : Socket tcp) × (transmit tcp run bytes fuel s ≡ some (false, s'))
        × (s'.event_status ≡ s.event_status + 1)
  unfolding transmit request
  transmit_refused run bytes fuel s child created refused silent =
      let env = (tcp.create_event s.env).1 in
      let s2 : Socket tcp =
        answered tcp (tcp.transmit bytes env) (event_start tcp (record s { env = env })) in
      ((close tcp s2).1, rw (child, created, refused) refl, rw silent refl)

  -- The answer tells whether `*databufLength` is above 0, and after a true one no event is awaited any
  -- more, or the socket is closed.
  abbrev pub IsHonest : Received tcp → Type 0
  IsHonest (flag, bytes, s) =
      (flag ≡ not (length bytes == 0))
      × ((flag ≡ false) ⊎ ((s.event_status ≡ 0) ⊎ (s.closed ≡ true)))

  module _ (run : Ptr → Tasks → Tasks) where
    receive_end-IsHonest : (out : Waited tcp) → IsSettled tcp out → IsHonest (receive_end tcp out)
    receive_end-IsHonest (poll_failed s) h = (refl, inl refl)
    receive_end-IsHonest (done s) h = elim (Bool-cases (is_error (tcp.token_status s.env))) [
      | inl failed ↦ rw failed (refl, inl refl)
      | inr fine ↦ elim (Bool-cases (is_error (close tcp s).0)) [
        | inl unclosed ↦ rw (fine, unclosed) (refl, inl refl)
        | inr closed ↦ rw (fine, closed) (refl, inr (inl h))
      ]
    ]

    receive_answered-IsHonest :
        (initial : ℕ) (status : Status) (fuel : ℕ) (s : Socket tcp)
        → to_go tcp 0 s < fuel
        → (out : Received tcp) × (receive_answered tcp run initial status fuel s ≡ some out)
          × IsHonest out
    unfolding receive_answered
    receive_answered-IsHonest initial success fuel s l =
        let waited =
          wait_loop-IsSettled tcp (receive_body tcp run initial)
            (receive_body-Lowers tcp run initial) fuel 0 s l in
        (
          receive_end tcp waited.0,
          rw (waited.1, receive_answered) refl,
          receive_end-IsHonest waited.0 waited.2,
        )
    receive_answered-IsHonest initial finished fuel s l = (_, refl, (refl, inr (inr refl)))
    receive_answered-IsHonest initial status fuel s l = (_, refl, (refl, inl refl))

    -- With fuel for every try and every event awaited before, Receive returns, whatever the firmware
    -- does. Its answer is true exactly where it sets `*databufLength` above 0, and after a true answer no
    -- event is awaited any more, or the socket is closed.
    pub receive_lem :
        (initial fuel : ℕ) (s : Socket tcp)
        → IsEnough fuel s
        → (flag : Bool) × (bytes : List ℕ) × (s' : Socket tcp) × (receive tcp run initial fuel s
            ≡ some (flag, bytes, s'))
          × (flag ≡ not (length bytes == 0))
          × ((flag ≡ false) ⊎ ((s'.event_status ≡ 0) ⊎ (s'.closed ≡ true)))
    unfolding receive
    receive_lem initial fuel s h = elim (Bool-cases (not s.child || s.closed)) [
      | inl shut ↦ (false, [], s, rw shut refl, refl, inl refl)
      | inr open_socket ↦ elim (Bool-cases (is_error (tcp.create_event s.env).0)) [
        | inl failed ↦ (
          false,
          [],
          event_start tcp (record s { env = (tcp.create_event s.env).1 }),
          rw (open_socket, failed) refl,
          refl,
          inl refl,
        )
        | inr created ↦
            let env = (tcp.create_event s.env).1 in
            let answer = tcp.receive initial env in
            let out =
              receive_answered-IsHonest initial answer.0.status fuel
                (answered tcp answer (event_start tcp (record s { env = env })))
                (started-to_go fuel s env answer h) in
            (out.0.0, out.0.1, out.0.2, rw (open_socket, created) out.1, out.2.0, out.2.1)
      ]
    ]
