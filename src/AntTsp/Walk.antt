-- ===== src/AntTsp/Walk.antt =====
-- The rounds of `for(;;)`: all ants move on until none has a city left.
use lavoro_l.Base.{
  ℕ, zero, suc, ◌-◌, ◌≤◌, ◌<◌, ◌≡◌, ◌≢◌, refl, Bool, false, some, map, List, [], ◌∷◌, arith,
  Bool-cases, inl, inr, ap, ◌∙◌, if-then, if-else,
}
use lavoro_l.AntTsp.{
  length, max_n, max_ant, Doubles, Ant, Matrix, reuse, advance, advance_all, walk,
}
use lavoro_l.AntTsp.Choice.{free}
use lavoro_l.AntTsp.Tour.{
  IsWalking, IsFirst, IsTour, All, map-All, advance-Moved, IsWalking-IsTour, reuse-IsWalking,
  reuse-IsFirst,
}

module _ (d : Doubles) (n : ℕ) where
  abbrev pub IsOnWay : Ant d → Type 0
  IsOnWay ant = IsWalking d n ant × IsFirst d n ant

  abbrev pub IsRound : Ant d → Type 0
  IsRound ant = IsWalking d n ant × IsTour n ant.path × IsFirst d n ant

  abbrev pub starts : List (Ant d) → List ℕ
  starts ants = map (λ (ant : Ant d). ant.start) ants

  module _ (tau eta len : Matrix d) where
    -- What one round does to ants with at most `k` cities left.
    record Round (k : ℕ) (ants : List (Ant d)) (out : Bool × List (Ant d)) : Type 0 where
      on_way : All IsOnWay out.1
      same_starts : starts out.1 ≡ starts ants
      over : out.0 ≡ false → All IsRound out.1
      ends : k ≡ 0 → out.0 ≡ false
      fewer : All (λ (ant : Ant d). free ant.can n ≤ k - 1) out.1

    round :
        (k : ℕ) (ants : List (Ant d))
        → All IsOnWay ants
        → All (λ (ant : Ant d). free ant.can n ≤ k) ants
        → Round k ants (advance_all d n tau eta len ants)
    unfolding advance_all
    round k [] w h = record {
      on_way = tt;
      same_starts = refl;
      over = λ e. tt;
      ends = λ z. refl;
      fewer = tt;
    }
    round k (ant ∷ ants) ((w, f), ws) (h, hs) =
        let one = advance-Moved d n tau eta len w in
        let rest = round k ants ws hs in
        let out = advance d n tau eta len ant in
        record {
          on_way = ((one.walking, one.first f), rest.on_way);
          same_starts = rw (one.same_start, rest.same_starts) refl;
          over = λ e.
              let still : out.0 ≡ false = ground arith in
              let others = rest.over (ground arith) in
              (
                (one.walking, IsWalking-IsTour d n one.walking (one.stands still), one.first f),
                others,
              );
          ends = λ z. elim (Bool-cases out.0) [
            | inl went ↦ let less = one.fewer went in absurd (omega arith)
            | inr still ↦ rw (still, rest.ends z) refl
          ];
          fewer = (
            elim (Bool-cases out.0) [
              | inl went ↦ let less = one.fewer went in omega arith
              | inr still ↦ let done = one.stands still in omega arith
            ],
            rest.fewer,
          );
        }

    -- With at most `k` cities left before every ant, more than `k` rounds are enough: the loop ends,
    -- and every ant has been in each city once.
    pub walk-some :
        (fuel k : ℕ) (ants : List (Ant d))
        → All IsOnWay ants
        → All (λ (ant : Ant d). free ant.can n ≤ k) ants
        → k < fuel
        → (ants' : List (Ant d)) × (walk d fuel n tau eta len ants ≡ some ants')
          × All IsRound ants'
          × (starts ants' ≡ starts ants)
    unfolding walk
    walk-some zero k ants w h l = absurd (omega arith)
    walk-some (suc fuel) k ants w h l =
        let one = round k ants w h in
        let out = advance_all d n tau eta len ants in
        elim (Bool-cases out.0) [
          | inl went ↦
              let some_left : k ≢ 0 = λ z. let stops = one.ends z in absurd (cc) in
              let more = walk-some fuel (k - 1) out.1 one.on_way one.fewer (omega arith) in
              (more.0, if-then out.0 _ _ went ∙ more.1, more.2, more.3 ∙ one.same_starts)
          | inr still ↦ (out.1, if-else out.0 _ _ still, one.over still, one.same_starts)
        ]

  few : (ants : List (Ant d)) → All IsOnWay ants → All (λ (ant : Ant d). free ant.can n ≤ n) ants
  few [] h = tt
  few (ant ∷ ants) ((w, f), h) = (let whole = w.left in omega arith, few ants h)

  reuse-IsOnWay : (ant : Ant d) → IsWalking d n ant → IsOnWay (reuse d ant)
  reuse-IsOnWay ant w = (reuse-IsWalking d n w, reuse-IsFirst d n ant)

  starts-reuse : (ants : List (Ant d)) → starts (map (reuse d) ants) ≡ starts ants
  unfolding reuse
  starts-reuse [] = refl
  starts-reuse (ant ∷ ants) = ap (λ t. ant.start ∷ t) (starts-reuse ants)

  pub walk-reuse :
      (fuel : ℕ) (tau eta len : Matrix d) (ants : List (Ant d))
      → All (IsWalking d n) ants
      → n < fuel
      → (ants' : List (Ant d)) × (walk d fuel n tau eta len (map (reuse d) ants) ≡ some ants')
        × All IsRound ants'
        × (starts ants' ≡ starts ants)
  walk-reuse fuel tau eta len ants h l =
      let ready : All IsOnWay (map (reuse d) ants) =
        map-All (IsWalking d n) IsOnWay (reuse d) reuse-IsOnWay ants h in
      let out = walk-some tau eta len fuel n (map (reuse d) ants) ready (few _ ready) l in
      (out.0, out.1, out.2, out.3 ∙ starts-reuse ants)

  -- At most 200 ants are sent out to at most 400 cities, as many as the arrays have cells: with one round more than there are cities the loop ends. Every ant has then
  -- walked from its start through each of the `n` cities once, whatever the traces, the distances and
  -- the arithmetic are.
  pub walk_lem :
      (fuel : ℕ) (tau eta len : Matrix d) (ants : List (Ant d))
      → All (IsWalking d n) ants
      → n ≤ max_n
      → length ants ≤ max_ant
      → n < fuel
      → (ants' : List (Ant d)) × (walk d fuel n tau eta len (map (reuse d) ants) ≡ some ants')
        × All IsRound ants'
        × (starts ants' ≡ starts ants)
  walk_lem fuel tau eta len ants h few_cities few_ants l = walk-reuse fuel tau eta len ants h l
