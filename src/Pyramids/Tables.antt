-- ===== src/Pyramids/Tables.antt =====
-- The tables of Pyramids keep the counts.
use native.Mathlib.Nat.{add-mul-mod_self_left, div-add-mod, mod-add-mod, add-mod-mod}
use lavoro_l.Base.{
  ℕ, zero, suc, ◌+◌, ◌-◌, ◌*◌, ◌/◌, ◌%◌, ◌≤◌, ◌<◌, ◌≡◌, ◌⊎◌, refl, true, false, ◌&&◌, Option, none,
  some, List, ◌==◌, if◌then◌else◌, arith, Bool-cases, inl, inr, ◌∙◌, sym, ap, ltb,
}
use lavoro_l.Pyramids.{modulus, Memo, Table, put, begin, add_result, add_split, split_loop, f}
use lavoro_l.Pyramids.Count.{sum_from, count, same_char, count_one, count_none, count-split}

-- Remainders of the factors serve for the remainder of a product.
mul_parts : (m p r q s : ℕ) → (m * p + r) * (m * q + s) ≡ r * s + m * (p * (m * q + s) + r * q)
mul_parts m p r q s = grind arith

mul-mod : (a b m : ℕ) → (a % m) * (b % m) % m ≡ a * b % m
mul-mod a b m =
    sym
      (add-mul-mod_self_left (a % m * (b % m)) m (a / m * (m * (b / m) + b % m) + a % m * (b / m)))
    ∙ ap (λ t. t % m) (sym (mul_parts m (a / m) (a % m) (b / m) (b % m)))
    ∙ ap (λ t. t * (m * (b / m) + b % m) % m) (div-add-mod a m)
    ∙ ap (λ t. a * t % m) (div-add-mod b m)

module _ (text : List ℕ) (mark : ℕ) where
  -- The marked results of the intervals with an end below `l + k` are counts.
  abbrev pub IsRight : ℕ → Memo → Type 0
  IsRight k m =
      (l r : ℕ) → m.marks l r ≡ mark → r < l + k → m.results l r ≡ count text l r % modulus

  -- The longer intervals are as they were.
  abbrev pub KeepsLonger : ℕ → Memo → Memo → Type 0
  KeepsLonger k m m' =
      (l r : ℕ) → l + k ≤ r → (m'.marks l r ≡ m.marks l r) × (m'.results l r ≡ m.results l r)

  -- No mark is set but this line's.
  abbrev pub Only : Memo → Memo → Type 0
  Only m m' = (l r : ℕ) → (m'.marks l r ≡ m.marks l r) ⊎ (m'.marks l r ≡ mark)

  Only-trans : (m m' m'' : Memo) → Only m m' → Only m' m'' → Only m m''
  Only-trans m m' m'' h g l r = elim (g l r) [
    | inl same ↦ elim (h l r) [ inl old ↦ inl (same ∙ old) | inr new ↦ inr (same ∙ new) ]
    | inr new ↦ inr new
  ]

  begin-Only : (l r : ℕ) (m : Memo) → Only m (begin mark l r m)
  begin-Only l r m a b = elim (Bool-cases ((a == l) && (b == r))) [
    | inl own ↦ inr (rw own refl)
    | inr other ↦ inl (rw other refl)
  ]

  pub record Counted (k l r : ℕ) (m : Memo) (out : Option (ℕ × Memo)) : Type 0 where
    pub memo : Memo
    pub returns : out ≡ some (count text l r % modulus, memo)
    pub right : IsRight k memo
    pub longer : KeepsLonger k m memo
    pub only : Only m memo

  -- What a call of `F` promises, on intervals up to a length.
  abbrev Counts : ℕ → (ℕ → ℕ → Memo → Option (ℕ × Memo)) → Type 0
  Counts d rec =
      (l r : ℕ) (m : Memo) → l ≤ r + 1 → r < l + d → IsRight d m → Counted d l r m (rec l r m)

  abbrev term : ℕ → ℕ → ℕ → ℕ
  term l r i = if same_char text i l then count text (l + 1) (i - 1) * count text i r else 0

  module _ (l r d : ℕ) (e : r ≡ l + d) (p : 1 ≤ d) where
    -- The longer intervals are as they were, but for the result of the one at hand.
    abbrev KeepsOthers : Memo → Memo → Type 0
    KeepsOthers m m' =
        (a b : ℕ)
        → a + d ≤ b
        → (m'.marks a b ≡ m.marks a b)
          × (((a == l) && (b == r)) ≡ false → m'.results a b ≡ m.results a b)

    record Summed (sum : ℕ) (m : Memo) (out : Option Memo) : Type 0 where
      memo : Memo
      returns : out ≡ some memo
      right : IsRight d memo
      others : KeepsOthers m memo
      only : Only m memo
      result : memo.results l r ≡ sum % modulus

    add_result-IsRight : (v : ℕ) (m : Memo) → IsRight d m → IsRight d (add_result l r v m)
    add_result-IsRight v m h a b marked short = elim (Bool-cases ((a == l) && (b == r))) [
      | inl own ↦ absurd (ground arith)
      | inr other ↦ rw other (h a b marked short)
    ]

    add_split-Summed :
        (rec : ℕ → ℕ → Memo → Option (ℕ × Memo)) (i q : ℕ) (m : Memo)
        → Counts d rec
        → l < i
        → i ≤ r
        → IsRight d m
        → m.results l r ≡ q % modulus
        → Summed (q + term l r i) m (add_split text mark rec l r i m)
    add_split-Summed rec i q m counts lo up right now = elim (Bool-cases (same_char text i l)) [
      | inr other ↦ rw other (record {
        memo = m;
        returns = refl;
        right = right;
        others = λ a b h. (refl, λ o. refl);
        only = λ a b. inl refl;
        result = now ∙ ap (λ t. t % modulus) (omega arith);
      })
      | inl same ↦
          let one = counts (l + 1) (i - 1) m (omega arith) (omega arith) right in
          let two = counts i r one.memo (omega arith) (omega arith) one.right in
          let a : ℕ = count text (l + 1) (i - 1) in
          let b : ℕ = count text i r in
          let v : ℕ = (a % modulus) * (b % modulus) in
          let kept1 = one.longer l r (omega arith) in
          let kept2 = two.longer l r (omega arith) in
          let self : ((l == l) && (r == r)) ≡ true = ground arith in
          rw (same, one.returns, two.returns)
            (record {
              memo = add_result l r v two.memo;
              returns = refl;
              right = add_result-IsRight v two.memo two.right;
              others = λ x y h. (
                (two.longer x y h).0 ∙ (one.longer x y h).0,
                λ o. rw o ((two.longer x y h).1 ∙ (one.longer x y h).1),
              );
              only = Only-trans m one.memo two.memo one.only two.only;
              result =
                  rw (self, kept2.1, kept1.1, now)
                    (mod-add-mod q modulus v
                      ∙ sym (add-mod-mod q v modulus)
                      ∙ ap (λ t. (q + t) % modulus) (mul-mod a b modulus)
                      ∙ add-mod-mod q (a * b) modulus);
            })
    ]

    split_loop-Summed :
        (rec : ℕ → ℕ → Memo → Option (ℕ × Memo)) (n i q : ℕ) (m : Memo)
        → Counts d rec
        → l < i
        → i + n ≡ r + 1
        → IsRight d m
        → m.results l r ≡ q % modulus
        → Summed (q + sum_from (term l r) n i) m (split_loop text mark rec l r n i m)
    unfolding split_loop
    split_loop-Summed rec zero i q m counts lo up right now = record {
      memo = m;
      returns = refl;
      right = right;
      others = λ a b h. (refl, λ o. refl);
      only = λ a b. inl refl;
      result = now ∙ ap (λ t. t % modulus) (omega arith);
    }
    split_loop-Summed rec (suc n) i q m counts lo up right now =
        let one = add_split-Summed rec i q m counts lo (omega arith) right now in
        let rest =
          split_loop-Summed rec n (i + 1) (q + term l r i) one.memo counts (omega arith)
            (omega arith) one.right one.result in
        record {
          memo = rest.memo;
          returns = rw (one.returns, split_loop) rest.returns;
          right = rest.right;
          others = λ a b h. (
            (rest.others a b h).0 ∙ (one.others a b h).0,
            λ o. (rest.others a b h).1 o ∙ (one.others a b h).1 o,
          );
          only = Only-trans m one.memo rest.memo one.only rest.only;
          result = rest.result ∙ ap (λ t. t % modulus) (omega arith);
        }

  begin-IsRight :
      (k d l r : ℕ) (m : Memo)
      → d ≤ k
      → (r < l + d → count text l r ≡ 0)
      → IsRight k m
      → IsRight d (begin mark l r m)
  begin-IsRight k d l r m le none_here h a b marked short =
      elim (Bool-cases ((a == l) && (b == r))) [
        | inl own ↦
            let ea : a ≡ l = ground arith in
            let eb : b ≡ r = ground arith in
            rw own (rw (ea, eb, none_here (rw (← ea, ← eb) short)) refl)
        | inr other ↦ rw other (h a b (rw other at marked) (omega arith))
      ]

  put-own : (t : Table) (l r v : ℕ) → put t l r v l r ≡ v
  put-own t l r v = ground arith

  -- An interval without characters.
  none-Counted :
      (fuel k l r : ℕ) (m : Memo)
      → r < l
      → r < l + k
      → IsRight k m
      → Counted k l r m
          (elim (split_loop text mark (f text mark fuel) l r (r - l) (l + 1) (begin mark l r m)) [
            | none ↦ none
            | some m' ↦ some (m'.results l r, m')
          ])
  unfolding split_loop
  none-Counted fuel k l r m empty short h =
      let z : r - l ≡ 0 = omega arith in
      rw z (record {
        memo = begin mark l r m;
        returns = rw (count_none text l r empty, put-own m.results l r 0) refl;
        only = begin-Only l r m;
        right = begin-IsRight k k l r m (omega arith) (λ q. count_none text l r empty) h;
        longer = λ a b g.
            let other : ((a == l) && (b == r)) ≡ false = ground arith in rw other (refl, refl);
      })

  -- An interval of two characters or more, of which the first round of the loop begins with a clean
  -- result.
  split-Counted :
      (rec : ℕ → ℕ → Memo → Option (ℕ × Memo)) (k l r : ℕ) (m : Memo)
      → Counts (r - l) rec
      → l < r
      → r < l + k
      → IsRight k m
      → Counted k l r m (elim (split_loop text mark rec l r (r - l) (l + 1) (begin mark l r m)) [
        | none ↦ none
        | some m' ↦ some (m'.results l r, m')
      ])
  split-Counted rec k l r m counts lt short h =
      let d : ℕ = r - l in
      let run =
        split_loop-Summed l r d (omega arith) (omega arith) rec d (l + 1) 0 (begin mark l r m)
          counts (omega arith) (omega arith)
          (begin-IsRight k d l r m (omega arith) (λ q. absurd (omega arith)) h)
          (put-own m.results l r 0) in
      let value : run.memo.results l r ≡ count text l r % modulus =
        run.result
        ∙ ap (λ t. t % modulus) (omega arith ∙ sym (count-split text l r (λ q. omega arith))) in
      rw run.returns (record {
        memo = run.memo;
        returns = ap (λ t. some (t, run.memo)) value;
        only = Only-trans m (begin mark l r m) run.memo (begin-Only l r m) run.only;
        right = λ a b marked inside. elim (Bool-cases (ltb b (a + d))) [
          | inl shorter ↦ run.right a b marked (ground arith)
          | inr longer ↦ elim (Bool-cases ((a == l) && (b == r))) [
            | inl own ↦
                let ea : a ≡ l = ground arith in let eb : b ≡ r = ground arith in rw (ea, eb) value
            | inr other ↦
                let kept = run.others a b (ground arith) in
                kept.1 other ∙ rw other (h a b (rw other at (sym kept.0 ∙ marked)) inside)
          ]
        ];
        longer = λ a b g.
            let other : ((a == l) && (b == r)) ≡ false = ground arith in
            let kept = run.others a b (omega arith) in
            (rw other at kept.0, rw other at (kept.1 other));
      })

  -- With more fuel than the interval is long, `F` returns the count, and the tables stay right.
  pub f-Counted :
      (fuel k l r : ℕ) (m : Memo)
      → l ≤ r + 1
      → r + 1 < l + fuel
      → r < l + k
      → IsRight k m
      → Counted k l r m (f text mark fuel l r m)
  unfolding f
  f-Counted zero k l r m ordered en short h = absurd (omega arith)
  f-Counted (suc fuel) k l r m ordered en short h = elim (Bool-cases (l == r)) [
    | inl one ↦
        let e : l ≡ r = ground arith in
        rw one (record {
          memo = m;
          returns = rw (← e, count_one text l) refl;
          right = h;
          longer = λ a b g. (refl, refl);
          only = λ a b. inl refl;
        })
    | inr more ↦ elim (Bool-cases (m.marks l r == mark)) [
      | inl known ↦
          rw (more, known)
            (record {
              memo = m;
              returns = rw (h l r (ground arith) short) refl;
              right = h;
              longer = λ a b g. (refl, refl);
              only = λ a b. inl refl;
            })
      | inr unknown ↦
          rw (more, unknown)
            (elim (Bool-cases (ltb l r)) [
              | inl several ↦
                  let lt : l < r = ground arith in
                  split-Counted (f text mark fuel) k l r m
                    (λ a b m' o q. f-Counted fuel (r - l) a b m' o (omega arith) q) lt short h
              | inr empty ↦ none-Counted fuel k l r m (ground arith) short h
            ])
    ]
  ]
