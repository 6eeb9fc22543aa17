-- ===== src/AntTsp/Colony.antt =====
-- `AntTSP_Main` of src/packages/AntTSP/AntTSP.cpp, from the numbers that were read: the traces of the
-- ants, the best tour, and the rounds, on fuel.
pub mod Search
pub mod Result
use lavoro_l.Base.{
  ℕ, zero, suc, ◌+◌, Bool, ◌&&◌, Option, none, some, List, [], ◌∷◌, ◌==◌, if◌then◌else◌, ltb,
  length, map,
}
use lavoro_l.AntTsp.{Doubles, Matrix, Ant, reuse, walk, trace, new_ant, random}

module _ (d : Doubles) where
  -- `sol` and `best_tour`
  pub record Best : Type 0 where
    pub sol : d.Double
    pub tour : List ℕ

  pub record Colony : Type 0 where
    pub tau : Matrix d
    pub ants : List (Ant d)
    pub best : Best

  -- `rho`, `Q`, the distances and their inverses
  pub record Setting : Type 0 where
    pub rho : d.Double
    pub q : d.Double
    pub len : Matrix d
    pub eta : Matrix d

  -- One ant in the loop behind `for(;;)`: whether its tour is the best so far.
  unfoldable pub judge : ℕ → Ant d → Best → Best
  judge n ant best =
      if (length ant.path == n) && d.above best.sol ant.t_len
      then record { sol = ant.t_len; tour = ant.path }
      else best

  -- That loop.
  unfoldable pub settle : Setting → ℕ → List (Ant d) → Matrix d × Best → Matrix d × Best
  settle set n [] out = out
  settle set n (ant ∷ ants) (tau, best) =
      settle set n ants (trace d set.rho (d.divide set.q ant.t_len) ant.path tau, judge n ant best)

  -- The body of the loop over `NC`.
  unfoldable pub tour_round : Setting → ℕ → ℕ → Colony → Option Colony
  tour_round set fuel n c = elim (walk d fuel n c.tau set.eta set.len (map (reuse d) c.ants)) [
    | none ↦ none
    | some ants ↦
        let out : Matrix d × Best = settle set n ants (c.tau, c.best) in
        some (record { tau = out.0; ants = ants; best = out.1 })
  ]

  -- The loop over `NC`, which counts a round once a best tour is known.
  unfoldable pub search : Setting → ℕ → ℕ → ℕ → ℕ → ℕ → Colony → Option Colony
  search set zero fuel n nc done c = none
  search set (suc rounds) fuel n nc done c = elim (tour_round set fuel n c) [
    | none ↦ if ltb done nc then none else some c
    | some c' ↦
        let rest : Option Colony =
          search set rounds fuel n nc (done + (if length c'.best.tour == n then 1 else 0)) c' in
        if ltb done nc then rest else some c
  ]

  -- The ants at their starts; `m` of them, and `rnd`.
  unfoldable pub new_ants : ℕ → ℕ → ℕ → List (Ant d)
  new_ants n zero rnd = []
  new_ants n (suc m) rnd = let one : ℕ × ℕ = random n rnd in new_ant d one.0 ∷ new_ants n m one.1

  -- `worst` is the first `sol`, and `one` each first trace.
  unfoldable pub new_colony : d.Double → d.Double → ℕ → ℕ → Colony
  new_colony worst one n m = record {
    tau = λ i j. one;
    ants = new_ants n m 32767;
    best = record { sol = worst; tour = [] };
  }
