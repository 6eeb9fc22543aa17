-- ===== src/AntTsp/Colony/Result.antt =====
-- The colony from its start on.
use lavoro_l.Base.{
  ℕ, zero, suc, ◌≤◌, ◌<◌, ◌≡◌, refl, true, some, List, [], ◌∷◌, ◌==◌, ltb, length, map, arith, inl,
}
use lavoro_l.AntTsp.{max_n, max_ant, Doubles, Matrix, Ant, reuse, walk}
use lavoro_l.AntTsp.Tour.{IsTour, All}
use lavoro_l.AntTsp.Walk.{IsRound, starts, walk-reuse}
use lavoro_l.AntTsp.Colony.{
  Best, Colony, Setting, judge, settle, tour_round, search, new_ants, new_colony,
}
use lavoro_l.AntTsp.Colony.Search.{
  IsColony, new_ants-IsWalking, judge-short, settle-full, settle-IsBest, round-IsWalking,
  search-full,
}

module _ (d : Doubles) (n : ℕ) (set : Setting d) where
  -- The walks of these ants are shorter than `worst`.
  abbrev pub AreShorter : d.Double → List (Ant d) → Type 0
  AreShorter worst ants = All (λ (ant : Ant d). d.above worst ant.t_len ≡ true) ants

  settle-short :
      (s : ℕ) (ss : List ℕ) (ants : List (Ant d)) (tau : Matrix d) (best : Best d)
      → starts d n ants ≡ s ∷ ss
      → All (IsRound d n) ants
      → AreShorter best.sol ants
      → length (settle d set n ants (tau, best)).1.tour ≡ n
  unfolding settle
  settle-short s ss [] tau best e h short = absurd (cc)
  settle-short s ss (ant ∷ ants) tau best e ((w, t, f), h) (first, short) =
      settle-full d n set ants _ (judge d n ant best) (judge-short d n ant best t first)

  -- `AntTSP_Main` for 1 to 400 cities, 1 to 200 ants, as many as the arrays have cells, and at least
  -- one round: where the first walks are shorter than
  -- the first `sol`, the search ends after at most one round more than `nc`, and its best tour goes
  -- through each of the cities once.
  pub search_lem :
      (rounds fuel nc m : ℕ) (worst one : d.Double)
      → 1 ≤ n
      → 1 ≤ m
      → n ≤ max_n
      → m ≤ max_ant
      → 1 ≤ nc
      → n < fuel
      → nc < rounds
      → ((ants : List (Ant d))
          → walk d fuel n (λ i j. one) set.eta set.len (map (reuse d) (new_ants d n m 32767))
            ≡ some ants
          → AreShorter worst ants)
      → (c : Colony d) × (search d set rounds fuel n nc 0 (new_colony d worst one n m) ≡ some c)
        × IsTour n c.best.tour
  unfolding search new_colony tour_round new_ants
  search_lem zero fuel nc m worst one hn hm few few_ants hc hf hr short = absurd (omega arith)
  search_lem (suc rounds) fuel nc zero worst one hn hm few few_ants hc hf hr short =
      absurd (omega arith)
  search_lem (suc rounds) fuel nc (suc m) worst one hn hm few few_ants hc hf hr short =
      let ants = new_ants d n (suc m) 32767 in
      let best : Best d = record { sol = worst; tour = [] } in
      let tau : Matrix d = λ i j. one in
      let run =
        walk-reuse d n fuel tau set.eta set.len ants (new_ants-IsWalking d n (suc m) 32767 hn) hf in
      let out = settle d set n run.0 (tau, best) in
      let full : length out.1.tour ≡ n =
        settle-short _ _ run.0 tau best run.3 run.2 (short run.0 run.1) in
      let c1 : Colony d = record { tau = out.0; ants = run.0; best = out.1 } in
      let valid : IsColony d n set c1 = record {
        walking = round-IsWalking d n set run.0 run.2;
        best = settle-IsBest d n set run.0 tau best run.2 (inl refl);
      } in
      let rest = search-full d n set rounds fuel nc 1 c1 valid full hf (omega arith) in
      let counts : (length out.1.tour == n) ≡ true = ground arith in
      let more : ltb 0 nc ≡ true = ground arith in
      (rest.0, rw (search, tour_round, run.1, counts, more) rest.1, rest.2)
