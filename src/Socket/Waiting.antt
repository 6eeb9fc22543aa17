-- ===== src/Socket/Waiting.antt =====
-- The loops that wait for a completion event come to an end, whatever the firmware does.
use lavoro_l.Base.{ℕ, zero, suc, ◌+◌, ◌-◌, ◌<◌, ◌≤◌, ◌≡◌, refl, some, arith, Bool-cases, inl, inr}
use lavoro_l.Task.{Ptr, Tasks}
use lavoro_l.Socket.{
  socket_max_tries, is_error, Answer, Tcp, Socket, event_running, answered, Waited, done,
  poll_failed, wait_loop, connect_body, transmit_body, receive_body,
}

module _ (tcp : Tcp) where
  -- The tries that are left, and the finishes that the counter still asks for.
  abbrev pub to_go : ℕ → Socket tcp → ℕ
  to_go counter s = (socket_max_tries - counter) + s.event_status

  -- One round of the loop leaves less to go.
  abbrev pub Lowers : (ℕ → Socket tcp → ℕ × Socket tcp) → Type 0
  Lowers body =
      (counter k : ℕ) (s : Socket tcp)
      → s.event_status ≤ k
      → 0 < k
      → to_go (body counter s).0 (body counter s).1 < (socket_max_tries - counter) + k

  pub event_status-answered :
      (out : Answer × tcp.Env) (s : Socket tcp) → (answered tcp out s).event_status ≤ s.event_status
  event_status-answered (a, env) s = ground arith

  module _ (run : Ptr → Tasks → Tasks) where
    pub connect_body-Lowers : Lowers (connect_body tcp run)
    connect_body-Lowers counter k s h p = ground arith

    pub transmit_body-Lowers : Lowers (transmit_body tcp run)
    transmit_body-Lowers counter k s h p = ground arith

    pub receive_body-Lowers : (initial : ℕ) → Lowers (receive_body tcp run initial)
    receive_body-Lowers initial counter k s h p = ground arith

  -- How the loop is left: no event is awaited any more, or the poll failed.
  abbrev pub IsSettled : Waited tcp → Type 0
  IsSettled (done s) = s.event_status ≡ 0
  IsSettled (poll_failed s) = Unit {0}

  -- With more fuel than there is to go, the loop comes to an end, for every firmware.
  pub wait_loop-IsSettled :
      (body : ℕ → Socket tcp → ℕ × Socket tcp)
      → Lowers body
      → (fuel counter : ℕ) (s : Socket tcp) → to_go counter s < fuel
      → (out : Waited tcp) × (wait_loop tcp body fuel counter s ≡ some out) × IsSettled out
  unfolding wait_loop
  wait_loop-IsSettled body low zero counter s l = absurd (omega arith)
  wait_loop-IsSettled body low (suc fuel) counter s l = elim (Bool-cases (event_running tcp s)) [
    | inr rest ↦ (done s, rw rest refl, ground arith)
    | inl more ↦ elim (Bool-cases (is_error (tcp.poll s.env).0.status)) [
      | inl failed ↦ (poll_failed (answered tcp (tcp.poll s.env) s), rw (more, failed) refl, tt)
      | inr fine ↦
          let s1 : Socket tcp = answered tcp (tcp.poll s.env) s in
          let one =
            low counter s.event_status s1 (event_status-answered (tcp.poll s.env) s)
              (ground arith) in
          rw (more, fine)
            (wait_loop-IsSettled body low fuel (body counter s1).0 (body counter s1).1
              (omega arith))
    ]
  ]
