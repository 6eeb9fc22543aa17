-- ===== src/AntTsp/Tour.antt =====
-- What an ant keeps while it walks: every city of its path is visited once, and `b_can` says which are
-- left.
use lavoro_l.Base.{
  ℕ, ◌+◌, ◌<◌, ◌≡◌, refl, Bool, true, false, not, ◌||◌, Option, none, some, List, [], ◌∷◌, ◌++◌,
  map, ◌==◌, arith, length, length-append, has, Distinct, head?, ◌∙◌,
}
use lavoro_l.AntTsp.{
  Doubles, Ant, Matrix, last_city, mark, forget, next_city, reuse, step_to, advance, new_ant,
}
use lavoro_l.AntTsp.Choice.{IsChoice, choose-IsChoice, free, free-none, free-all, free-mark}

abbrev pub AreBelow : ℕ → List ℕ → Type 0
AreBelow n [] = Unit {0}
AreBelow n (t ∷ path) = (t < n) × AreBelow n path

-- Each of the cities 0 to n - 1 once.
pub record IsTour (n : ℕ) (path : List ℕ) : Type 0 where
  pub distinct : Distinct path
  pub below : AreBelow n path
  pub all_cities : length path ≡ n

has-append : (a t : ℕ) (path : List ℕ) → has a (path ++ t ∷ []) ≡ ((a == t) || has a path)
has-append a t [] = refl
has-append a t (b ∷ path) = rw (has-append a t path) (ground arith)

head?-append :
    (t : ℕ) (path : List ℕ) (s : ℕ) → head? path ≡ some s → head? (path ++ t ∷ []) ≡ some s
head?-append t [] s e = absurd (cc)
head?-append t (b ∷ path) s e = e

Distinct-append :
    (t : ℕ) (path : List ℕ) → Distinct path → has t path ≡ false → Distinct (path ++ t ∷ [])
Distinct-append t [] h e = (refl, tt)
Distinct-append t (b ∷ path) (new, h) e =
    (rw (has-append b t path) (ground arith), Distinct-append t path h (ground arith))

AreBelow-append : (n t : ℕ) (path : List ℕ) → AreBelow n path → t < n → AreBelow n (path ++ t ∷ [])
AreBelow-append n t [] h l = (l, tt)
AreBelow-append n t (b ∷ path) (low, h) l = (low, AreBelow-append n t path h l)

abbrev pub All : {A : Type 0} → (A → Type 0) → List A → Type 0
All p [] = Unit {0}
All p (x ∷ xs) = p x × All p xs

pub map-All :
    {A B : Type 0} (p : A → Type 0) (q : B → Type 0) (f : A → B)
    → ((x : A) → p x → q (f x))
    → (xs : List A) → All p xs
    → All q (map f xs)
map-All p q f g [] h = tt
map-All p q f g (x ∷ xs) (one, h) = (g x one, map-All p q f g xs h)

-- Whatever is forgotten can be chosen again.
forget-mark :
    (path : List ℕ) (can : ℕ → Bool) (a : ℕ)
    → ((can a || has a path) ≡ true)
    → forget path can a ≡ true
forget-mark [] can a h = ground arith
forget-mark (b ∷ path) can a h = forget-mark path (mark b true can) a (ground arith)

module _ (d : Doubles) (n : ℕ) where
  pub record IsWalking (ant : Ant d) : Type 0 where
    pub home : ant.start < n
    pub known : (t : ℕ) → ant.can t ≡ not (has t ant.path)
    pub distinct : Distinct ant.path
    pub below : AreBelow n ant.path
    pub left : length ant.path + free ant.can n ≡ n

  pub new_ant-IsWalking : (start : ℕ) → start < n → IsWalking (new_ant d start)
  new_ant-IsWalking start l = record {
    home = l;
    known = λ t. refl;
    distinct = tt;
    below = tt;
    left = omega (arith, free-all (λ t. true) n (λ t. refl));
  }

  pub reuse-IsWalking : {ant : Ant d} → IsWalking ant → IsWalking (reuse d ant)
  unfolding reuse
  reuse-IsWalking {ant} w =
      let all : (t : ℕ) → forget ant.path ant.can t ≡ true =
        λ t. forget-mark ant.path ant.can t (rw (w.known t) (ground arith)) in
      record {
        home = w.home;
        known = λ t. rw (all t) (ground arith);
        distinct = (refl, tt);
        below = (w.home, tt);
        left =
            free-mark (forget ant.path ant.can) ant.start n (all ant.start) w.home
            ∙ free-all (forget ant.path ant.can) n all;
      }

  -- The path begins where the ant started.
  abbrev pub IsFirst : Ant d → Type 0
  IsFirst ant = head? ant.path ≡ some ant.start

  pub reuse-IsFirst : (ant : Ant d) → IsFirst (reuse d ant)
  unfolding reuse
  reuse-IsFirst ant = refl

  module _ (tau eta len : Matrix d) where
    step_to-IsWalking :
        {ant : Ant d} (t : ℕ)
        → IsWalking ant
        → ant.can t ≡ true
        → t < n
        → IsWalking (step_to d len t ant)
    unfolding step_to
    step_to-IsWalking {ant} t w free_t l =
        let fewer = free-mark ant.can t n free_t l in
        let new : has t ant.path ≡ false = let k = w.known t in ground arith in
        record {
          home = w.home;
          known = λ a. let k = w.known a in rw (has-append a t ant.path) (ground arith);
          distinct = Distinct-append t ant.path w.distinct new;
          below = AreBelow-append n t ant.path w.below l;
          left = let whole = w.left in omega (arith, length-append ant.path (t ∷ []));
        }

    next_city-IsChoice : (ant : Ant d) → IsChoice ant.can n (next_city d n tau eta ant)
    unfolding next_city
    next_city-IsChoice ant =
        let e : 0 + n ≡ n = omega arith in
        let s : ℕ = last_city ant.path in
        rw e at (
          choose-IsChoice d ant.can (λ i. d.multiply (tau s i) (eta s i)) n 0 (none, d.zero_double)
            (λ j l. absurd (omega arith)))

    -- One move: the invariant stays; the ant stands only where no city is left, and has one city
    -- fewer before it else.
    pub record Moved (ant : Ant d) (out : Bool × Ant d) : Type 0 where
      pub walking : IsWalking out.1
      pub same_start : out.1.start ≡ ant.start
      pub first : IsFirst ant → IsFirst out.1
      pub stands : out.0 ≡ false → free out.1.can n ≡ 0
      pub fewer : out.0 ≡ true → 1 + free out.1.can n ≡ free ant.can n

    moved :
        (ant : Ant d) (o : Option ℕ)
        → next_city d n tau eta ant ≡ o
        → IsWalking ant
        → IsChoice ant.can n o
        → Moved ant (advance d n tau eta len ant)
    unfolding advance step_to
    moved ant none e w h =
        rw (e, advance)
          (record {
            walking = w;
            same_start = refl;
            first = λ f. f;
            stands = λ f. free-none ant.can n h;
            fewer = λ f. absurd (cc);
          })
    moved ant (some t) e w (free_t, l) =
        rw (e, advance)
          (record {
            walking = step_to-IsWalking t w free_t l;
            same_start = refl;
            first = λ f. head?-append t ant.path ant.start f;
            stands = λ f. absurd (cc);
            fewer = λ f. free-mark ant.can t n free_t l;
          })

    pub advance-Moved : {ant : Ant d} → IsWalking ant → Moved ant (advance d n tau eta len ant)
    advance-Moved {ant} w = moved ant _ refl w (next_city-IsChoice ant)

  pub IsWalking-IsTour : {ant : Ant d} → IsWalking ant → free ant.can n ≡ 0 → IsTour n ant.path
  IsWalking-IsTour w e = record {
    distinct = w.distinct;
    below = w.below;
    all_cities = let whole = w.left in omega arith;
  }
