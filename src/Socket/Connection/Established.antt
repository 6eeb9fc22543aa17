-- ===== src/Socket/Connection/Established.antt =====
-- Connect and Accept come to an end once the firmware has its address.
use lavoro_l.Base.{
  ℕ, zero, suc, ◌<◌, ◌≡◌, refl, Bool, true, false, ◌&&◌, some, arith, if◌then◌else◌, Bool-cases,
  inl, inr, ◌∙◌, if-then, if-else,
}
use lavoro_l.Task.{Ptr, Tasks}
use lavoro_l.Socket.{is_error, Tcp, Socket, connect_body}
use lavoro_l.Socket.Waiting.{connect_body-Lowers}
use lavoro_l.Socket.Outcome.{IsEnough, request-IsSettled}
use lavoro_l.Socket.Connection.{
  is_denied, is_no_mapping, mode_loop, configure_again, configured, connect, accept_configured,
  accept,
}

module _ (tcp : Tcp) where
  -- The `n`-th `GetModeData` from here on, counted from 0, reports a configured instance.
  abbrev pub IsMapped : ℕ → tcp.Env → Type 0
  IsMapped zero env = (tcp.get_mode env).1 ≡ true
  IsMapped (suc n) env = IsMapped n (tcp.get_mode env).2

  -- One round, given what the rounds behind it give.
  mode_loop-round :
      (checks : Bool) (fuel : ℕ) (env : tcp.Env)
      → ((tcp.get_mode env).1 ≡ false
          → (out : Bool × tcp.Env) × (mode_loop tcp checks fuel (tcp.get_mode env).2 ≡ some out))
      → (out : Bool × tcp.Env) × (mode_loop tcp checks (suc fuel) env ≡ some out)
  unfolding mode_loop
  mode_loop-round checks fuel env later =
      let status = (tcp.get_mode env).0 in
      elim (Bool-cases (checks && is_denied status)) [
        | inl refused ↦ ((false, (tcp.get_mode env).2), rw refused refl)
        | inr open_access ↦ elim (Bool-cases (checks && is_error status)) [
          | inl wrong ↦ ((true, (tcp.get_mode env).2), rw (open_access, wrong) refl)
          | inr fine ↦ elim (Bool-cases (tcp.get_mode env).1) [
            | inl ready ↦ ((true, (tcp.get_mode env).2), rw (open_access, fine, ready) refl)
            | inr waiting ↦ rw (open_access, fine, waiting) (later waiting)
          ]
        ]
      ]

  mode_loop-IsMapped :
      (checks : Bool) (n fuel : ℕ) (env : tcp.Env)
      → IsMapped n env
      → n < fuel
      → (out : Bool × tcp.Env) × (mode_loop tcp checks fuel env ≡ some out)
  mode_loop-IsMapped checks n zero env m l = absurd (omega arith)
  mode_loop-IsMapped checks zero (suc fuel) env m l =
      mode_loop-round checks fuel env (λ w. absurd (cc))
  mode_loop-IsMapped checks (suc n) (suc fuel) env m l =
      let rest = mode_loop-IsMapped checks n fuel (tcp.get_mode env).2 m (omega arith) in
      mode_loop-round checks fuel env (λ w. rest)

  configured-IsMapped :
      (checks : Bool) (n fuel : ℕ) (env : tcp.Env)
      → IsMapped n (tcp.configure true env).1
      → n < fuel
      → (out : Bool × tcp.Env) × (configured tcp checks fuel env ≡ some out)
  unfolding configured
  configured-IsMapped checks n fuel env m l =
      elim (Bool-cases (is_no_mapping (tcp.configure true env).0)) [
        | inr usual ↦ (configure_again tcp (tcp.configure true env), rw usual refl)
        | inl waits ↦
            let out = mode_loop-IsMapped checks n fuel (tcp.configure true env).1 m l in
            (
              if out.0.0
                  then configure_again tcp (tcp.configure true out.0.1)
                  else (false, out.0.1),
              rw (waits, out.1) refl,
            )
      ]

  -- With fuel for the `GetModeData` that reports a configured instance, for every try and for every
  -- event awaited before, Connect returns; where it reports success, no event is awaited any more.
  pub connect_lem :
      (run : Ptr → Tasks → Tasks) (n fuel : ℕ) (s : Socket tcp)
      → IsMapped n (tcp.configure true s.env).1
      → n < fuel
      → IsEnough tcp fuel s
      → (ok : Bool) × (s' : Socket tcp) × (connect tcp run fuel s ≡ some (ok, s'))
        × (ok ≡ true → s'.event_status ≡ 0)
  unfolding connect
  connect_lem run n fuel s m l h = elim (Bool-cases s.child) [
    | inr none_there ↦ (false, s, if-else s.child _ _ none_there, λ e. cc)
    | inl there ↦
        let first = configured-IsMapped true n fuel s.env m l in
        elim (Bool-cases first.0.0) [
          | inr refused ↦ (
            false,
            record s { env = first.0.1 },
            if-then s.child _ _ there ∙ rw (first.1, refused) refl,
            λ e. cc,
          )
          | inl go ↦
              let s1 : Socket tcp = record s { env = first.0.1 } in
              let out =
                request-IsSettled tcp (connect_body tcp run) (connect_body-Lowers tcp run)
                  tcp.connect fuel s1 h in
              (out.0.0, out.0.1, if-then s.child _ _ there ∙ rw (first.1, go) out.1, out.2)
        ]
  ]

  -- With fuel for the `GetModeData` that reports a configured instance, Accept returns, and counts no
  -- event as awaited.
  pub accept_lem :
      (n fuel : ℕ) (s : Socket tcp)
      → IsMapped n (tcp.configure true s.env).1
      → n < fuel
      → (ok : Bool) × (s' : Socket tcp) × (accept tcp fuel s ≡ some (ok, s'))
        × (s'.event_status ≡ s.event_status)
  unfolding accept accept_configured
  accept_lem n fuel s m l = elim (Bool-cases s.child) [
    | inr none_there ↦ (false, s, if-else s.child _ _ none_there, refl)
    | inl there ↦
        let first = configured-IsMapped false n fuel s.env m l in
        elim (Bool-cases first.0.0) [
          | inr refused ↦ (
            false,
            record s { env = first.0.1 },
            if-then s.child _ _ there ∙ rw (first.1, refused) refl,
            refl,
          )
          | inl go ↦
              let out = accept_configured tcp (record s { env = first.0.1 }) in
              (out.0, out.1, if-then s.child _ _ there ∙ rw (first.1, go) refl, refl)
        ]
  ]
