-- ===== src/AntTsp.antt =====
-- src/packages/AntTSP/AntTSP.cpp: a colony of ants looks for a short round trip. The arithmetic of
-- `double` is the parameter `Doubles`. The arrays `tau`, `eta`, `len` and `b_can` are functions of their
-- indices, and an ant's `path` is the list of its first `path_length` cells. `vall`, which `next` adds
-- up and nothing reads, is left out.
pub mod Choice
pub mod Tour
pub mod Walk
pub mod Colony
use lavoro_l.Base.{
  ℕ, zero, suc, ◌+◌, ◌-◌, ◌*◌, ◌%◌, ◌^◌, Bool, true, false, ◌||◌, Option, none, some, List, [], ◌∷◌,
  ◌++◌, ◌==◌, if◌then◌else◌, ltb, length, get_or,
}

-- The cells of the arrays over cities, and of the array of ants. The model has no such ends: it stands
-- for the program where there are at most so many cities and ants.
abbrev pub max_n : ℕ
max_n = 400

abbrev pub max_ant : ℕ
max_ant = 200

pub record Doubles : Type 1 where
  pub Double : Type 0
  pub zero_double : Double
  pub add : Double → Double → Double
  pub multiply : Double → Double → Double
  pub divide : Double → Double → Double
  pub above : Double → Double → Bool

-- `rnd` with the wrap-around of a 32-bit `int`, kept as the residue below 2 ^ 32.
abbrev pub next_rnd : ℕ → ℕ
next_rnd rnd = (rnd * 2131 + 7) % 2 ^ 32

-- `(x % n + n) % n` for the `int` with the residue `u`; the remainder of a negative `int` is negative.
abbrev pub fold_int : ℕ → ℕ → ℕ
fold_int n u = if ltb u (2 ^ 31) then ((u % n + n) % n) else ((n - (2 ^ 32 - u) % n) % n)

-- `random(n)`: its answer, and the new `rnd`
unfoldable pub random : ℕ → ℕ → ℕ × ℕ
random n rnd = let r : ℕ = next_rnd rnd in (fold_int n ((r * r * r * r) % 2 ^ 32), r)

abbrev pub mark : ℕ → Bool → (ℕ → Bool) → ℕ → Bool
mark t b can a = if a == t then b else can a

abbrev pub last_city : List ℕ → ℕ
last_city path = get_or path (length path - 1) 0

abbrev pub is_none : Option ℕ → Bool
is_none none = true
is_none (some c) = false

-- The loop of `reuse`
abbrev pub forget : List ℕ → (ℕ → Bool) → ℕ → Bool
forget [] can = can
forget (t ∷ path) can = forget path (mark t true can)

module _ (d : Doubles) where
  abbrev pub Matrix : Type 0
  Matrix = ℕ → ℕ → d.Double

  -- `Ant`
  pub record Ant : Type 0 where
    pub start : ℕ
    pub can : ℕ → Bool
    pub t_len : d.Double
    pub path : List ℕ

  -- `Ant::Ant()`, and its start
  abbrev pub new_ant : ℕ → Ant
  new_ant start = record { start = start; can = λ t. true; t_len = d.zero_double; path = [] }

  -- One city in the loop of `next`: `ci` and `vmax`.
  abbrev pub consider : (ℕ → Bool) → (ℕ → d.Double) → ℕ → Option ℕ × d.Double → Option ℕ × d.Double
  consider can weight i (ci, vmax) =
      if can i
      then if d.above (weight i) vmax || is_none ci then (some i, weight i) else (ci, vmax)
      else (ci, vmax)

  -- The loop of `next`: the cities left, and `i`.
  unfoldable pub choose :
      (ℕ → Bool) → (ℕ → d.Double) → ℕ → ℕ → Option ℕ × d.Double → Option ℕ × d.Double
  choose can weight zero i best = best
  choose can weight (suc k) i best = choose can weight k (i + 1) (consider can weight i best)

  -- `Ant::next`
  unfoldable pub next_city : ℕ → Matrix → Matrix → Ant → Option ℕ
  next_city n tau eta ant =
      let s : ℕ = last_city ant.path in
      (choose ant.can (λ i. d.multiply (tau s i) (eta s i)) n 0 (none, d.zero_double)).0

  -- `Ant::reuse`
  unfoldable pub reuse : Ant → Ant
  reuse ant = record ant {
    can = mark ant.start false (forget ant.path ant.can);
    t_len = d.zero_double;
    path = ant.start ∷ [];
  }

  -- `Ant::step(int)`
  unfoldable pub step_to : Matrix → ℕ → Ant → Ant
  step_to len t ant = record ant {
    can = mark t false ant.can;
    t_len = d.add ant.t_len (len (last_city ant.path) t);
    path = ant.path ++ t ∷ [];
  }

  -- The body of the loop over the ants: whether the ant went on, and the ant.
  unfoldable pub advance : ℕ → Matrix → Matrix → Matrix → Ant → Bool × Ant
  advance n tau eta len ant = elim (next_city n tau eta ant) [
    | none ↦ (false, ant)
    | some t ↦ (true, step_to len t ant)
  ]

  -- One round of `for(;;)`: `b_ok`, and the ants.
  unfoldable pub advance_all : ℕ → Matrix → Matrix → Matrix → List Ant → Bool × List Ant
  advance_all n tau eta len [] = (false, [])
  advance_all n tau eta len (ant ∷ ants) =
      let one : Bool × Ant = advance n tau eta len ant in
      let more : Bool × List Ant = advance_all n tau eta len ants in
      (one.0 || more.0, one.1 ∷ more.1)

  -- `for(;;)`, on fuel
  unfoldable pub walk : ℕ → ℕ → Matrix → Matrix → Matrix → List Ant → Option (List Ant)
  walk zero n tau eta len ants = none
  walk (suc fuel) n tau eta len ants =
      let round : Bool × List Ant = advance_all n tau eta len ants in
      let rest : Option (List Ant) = walk fuel n tau eta len round.1 in
      if round.0 then rest else some round.1

  abbrev pub put : ℕ → ℕ → d.Double → Matrix → Matrix
  put a b v tau i j = if i == a then (if j == b then v else tau i j) else tau i j

  -- `Ant::step()`: the ant leaves its trace on the way that it took; `rho`, `Q / tlen`.
  unfoldable pub trace : d.Double → d.Double → List ℕ → Matrix → Matrix
  trace rho share [] tau = tau
  trace rho share (src ∷ []) tau = tau
  trace rho share (src ∷ dst ∷ path) tau =
      trace rho share (dst ∷ path) (put src dst (d.add (d.multiply (tau src dst) rho) share) tau)
