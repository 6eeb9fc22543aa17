-- ===== src/AntTsp/Colony/Search.antt =====
-- What the search of the colony finds, and that it ends.
use lavoro_l.Base.{
  ℕ, zero, suc, ◌+◌, ◌-◌, ◌*◌, ◌%◌, ◌^◌, ◌≤◌, ◌<◌, ◌≡◌, ◌⊎◌, refl, true, ◌&&◌, some, List, [], ◌∷◌,
  ◌==◌, ltb, length, arith, Bool-cases, inl, inr,
}
use native.Mathlib.Nat.{mod-lt}
use lavoro_l.AntTsp.{Doubles, Matrix, Ant, random, fold_int, next_rnd}
use lavoro_l.AntTsp.Tour.{IsWalking, IsTour, All, new_ant-IsWalking}
use lavoro_l.AntTsp.Walk.{IsRound, walk-reuse}
use lavoro_l.AntTsp.Colony.{Best, Colony, Setting, judge, settle, tour_round, search, new_ants}

fold_int-bounds : (n u : ℕ) → 1 ≤ n → fold_int n u < n
fold_int-bounds n u h = elim (Bool-cases (ltb u (2 ^ 31))) [
  | inl low ↦ rw low (mod-lt _ h)
  | inr high ↦ rw high (mod-lt _ h)
]

-- `random(n)` is below `n`, also where the product has wrapped around to a negative number.
pub random-bounds : (n rnd : ℕ) → 1 ≤ n → (random n rnd).0 < n
unfolding random
random-bounds n rnd h =
    fold_int-bounds n ((next_rnd rnd * next_rnd rnd * next_rnd rnd * next_rnd rnd) % 2 ^ 32) h

module _ (d : Doubles) (n : ℕ) where
  pub new_ants-IsWalking : (m rnd : ℕ) → 1 ≤ n → All (IsWalking d n) (new_ants d n m rnd)
  unfolding new_ants
  new_ants-IsWalking zero rnd h = tt
  new_ants-IsWalking (suc m) rnd h = (
    new_ant-IsWalking d n (random n rnd).0 (random-bounds n rnd h),
    new_ants-IsWalking m (random n rnd).1 h,
  )

  -- No tour yet, or one through each city once.
  abbrev pub IsBest : List ℕ → Type 0
  IsBest tour = (tour ≡ []) ⊎ IsTour n tour

  judge-IsBest :
      (ant : Ant d) (best : Best d)
      → IsTour n ant.path
      → IsBest best.tour
      → IsBest (judge d n ant best).tour
  unfolding judge
  judge-IsBest ant best t h =
      elim (Bool-cases ((length ant.path == n) && d.above best.sol ant.t_len)) [
        | inl better ↦ rw better (inr t)
        | inr worse ↦ rw worse h
      ]

  judge-full :
      (ant : Ant d) (best : Best d) → length best.tour ≡ n → length (judge d n ant best).tour ≡ n
  unfolding judge
  judge-full ant best h = elim (Bool-cases ((length ant.path == n) && d.above best.sol ant.t_len)) [
    | inl better ↦ rw better (ground arith)
    | inr worse ↦ rw worse h
  ]

  pub judge-short :
      (ant : Ant d) (best : Best d)
      → IsTour n ant.path
      → d.above best.sol ant.t_len ≡ true
      → length (judge d n ant best).tour ≡ n
  unfolding judge
  judge-short ant best t short =
      let all = t.all_cities in
      let better : ((length ant.path == n) && d.above best.sol ant.t_len) ≡ true = ground arith in
      rw better all

  module _ (set : Setting d) where
    pub settle-IsBest :
        (ants : List (Ant d)) (tau : Matrix d) (best : Best d)
        → All (IsRound d n) ants
        → IsBest best.tour
        → IsBest (settle d set n ants (tau, best)).1.tour
    unfolding settle
    settle-IsBest [] tau best h b = b
    settle-IsBest (ant ∷ ants) tau best ((w, t, f), h) b =
        settle-IsBest ants _ (judge d n ant best) h (judge-IsBest ant best t b)

    pub settle-full :
        (ants : List (Ant d)) (tau : Matrix d) (best : Best d)
        → length best.tour ≡ n
        → length (settle d set n ants (tau, best)).1.tour ≡ n
    unfolding settle
    settle-full [] tau best e = e
    settle-full (ant ∷ ants) tau best e =
        settle-full ants _ (judge d n ant best) (judge-full ant best e)

    pub round-IsWalking : (ants : List (Ant d)) → All (IsRound d n) ants → All (IsWalking d n) ants
    round-IsWalking [] h = tt
    round-IsWalking (ant ∷ ants) ((w, t, f), h) = (w, round-IsWalking ants h)

    pub record IsColony (c : Colony d) : Type 0 where
      pub walking : All (IsWalking d n) c.ants
      pub best : IsBest c.best.tour

    -- A round from a colony.
    pub record Toured (c c' : Colony d) : Type 0 where
      pub colony : IsColony c'
      pub toured : All (IsRound d n) c'.ants
      pub full : length c.best.tour ≡ n → length c'.best.tour ≡ n

    pub tour_round-some :
        (fuel : ℕ) (c : Colony d)
        → IsColony c
        → n < fuel
        → (c' : Colony d) × (tour_round d set fuel n c ≡ some c') × Toured c c'
    unfolding tour_round
    tour_round-some fuel c h l =
        let run = walk-reuse d n fuel c.tau set.eta set.len c.ants h.walking l in
        let out = settle d set n run.0 (c.tau, c.best) in
        (
          record { tau = out.0; ants = run.0; best = out.1 },
          rw (run.1, tour_round) refl,
          record {
            colony = record {
              walking = round-IsWalking run.0 run.2;
              best = settle-IsBest run.0 c.tau c.best run.2 h.best;
            };
            toured = run.2;
            full = settle-full run.0 c.tau c.best;
          },
        )

    full-IsTour : (tour : List ℕ) → IsBest tour → length tour ≡ n → IsTour n tour
    full-IsTour tour (inl e) l = record { distinct = rw e tt; below = rw e tt; all_cities = l }
    full-IsTour tour (inr t) l = t

    -- With a best tour known, every round counts.
    pub search-full :
        (rounds fuel nc done : ℕ) (c : Colony d)
        → IsColony c
        → length c.best.tour ≡ n
        → n < fuel
        → nc - done < rounds
        → (c' : Colony d) × (search d set rounds fuel n nc done c ≡ some c') × IsTour n c'.best.tour
    unfolding search
    search-full zero fuel nc done c h e l k = absurd (omega arith)
    search-full (suc rounds) fuel nc done c h e l k =
        let run = tour_round-some fuel c h l in
        let e' = run.2.full e in
        let counts : (length run.0.best.tour == n) ≡ true = ground arith in
        elim (Bool-cases (ltb done nc)) [
          | inl more ↦
              let rest =
                search-full rounds fuel nc (done + 1) run.0 run.2.colony e' l (ground arith) in
              (rest.0, rw (search, run.1, more, counts) rest.1, rest.2)
          | inr over ↦ (c, rw (search, run.1, over) refl, full-IsTour c.best.tour h.best e)
        ]
