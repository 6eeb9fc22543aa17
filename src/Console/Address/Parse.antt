-- ===== src/Console/Address/Parse.antt =====
-- An address that is written in decimal numbers is read back.
use lavoro_l.Base.{
  ℕ, zero, suc, ◌+◌, ◌-◌, ◌*◌, ◌/◌, ◌%◌, ◌<◌, ◌≡◌, refl, ap, ◌∙◌, true, false, List, [], ◌∷◌, ◌++◌,
  if◌then◌else◌, ltb, arith, length, drop, ◌≢◌, Bool-cases, inl, inr, if-then, if-else,
}
use lavoro_l.Console.Address.{is_digit, number, address_bytes, remote_port, remote}

-- The decimal digits of a number, on fuel above it.
abbrev digits : ℕ → ℕ → List ℕ
digits zero n = []
digits (suc fuel) n =
    let low : List ℕ = (48 + n % 10) ∷ [] in if ltb n 10 then low else (digits fuel (n / 10) ++ low)

abbrev pub decimal : ℕ → List ℕ
decimal n = digits (suc n) n

abbrev AreDigits : List ℕ → Type 0
AreDigits [] = Unit {0}
AreDigits (d ∷ ds) = (is_digit d ≡ true) × AreDigits ds

AreDigits-append : (ds es : List ℕ) → AreDigits ds → AreDigits es → AreDigits (ds ++ es)
AreDigits-append [] es h k = k
AreDigits-append (d ∷ ds) es (one, h) k = (one, AreDigits-append ds es h k)

low-digit : (n : ℕ) → is_digit (48 + n % 10) ≡ true
low-digit n = ground arith

digits-AreDigits : (fuel n : ℕ) → AreDigits (digits fuel n)
digits-AreDigits zero n = tt
digits-AreDigits (suc fuel) n = elim (Bool-cases (ltb n 10)) [
  | inl one ↦ rw one (low-digit n, tt)
  | inr more ↦
      rw more (
        AreDigits-append (digits fuel (n / 10)) _ (digits-AreDigits fuel (n / 10))
          (low-digit n, tt))
]

-- What the digits stand for, behind those of `k`.
abbrev value : ℕ → List ℕ → ℕ
value k [] = k
value k (d ∷ ds) = value (k * 10 + (d - 48)) ds

value-append : (ds : List ℕ) (k d : ℕ) → value k (ds ++ d ∷ []) ≡ value k ds * 10 + (d - 48)
value-append [] k d = refl
value-append (e ∷ ds) k d = value-append ds (k * 10 + (e - 48)) d

value-digits : (fuel n : ℕ) → n < fuel → value 0 (digits fuel n) ≡ n
value-digits zero n h = absurd (omega arith)
value-digits (suc fuel) n h = elim (Bool-cases (ltb n 10)) [
  | inl one ↦ rw one (ground arith)
  | inr more ↦
      rw
        (
          more,
          value-append (digits fuel (n / 10)) 0 (48 + n % 10),
          value-digits fuel (n / 10) (ground arith),
        )
        (omega arith)
]

number-digits :
    (ds : List ℕ) (k c : ℕ) (rest : List ℕ)
    → AreDigits ds
    → is_digit c ≡ false
    → number k (ds ++ c ∷ rest) ≡ (value k ds, c ∷ rest)
unfolding number
number-digits [] k c rest h e = if-else (is_digit c) _ _ e
number-digits (d ∷ ds) k c rest (one, h) e =
    if-then (is_digit d) _ _ one ∙ number-digits ds (k * 10 + (d - 48)) c rest h e

number-decimal :
    (n c : ℕ) (rest : List ℕ)
    → is_digit c ≡ false
    → number 0 (decimal n ++ c ∷ rest) ≡ (n, c ∷ rest)
number-decimal n c rest e =
    number-digits (decimal n) 0 c rest (digits-AreDigits (suc n) n) e
    ∙ ap (λ k. (k, c ∷ rest)) (value-digits (suc n) n (omega arith))

-- The numbers of an address, each with the cell behind it.
abbrev pub dotted : List (ℕ × ℕ) → List ℕ → List ℕ
dotted [] rest = rest
dotted ((n, c) ∷ ns) rest = decimal n ++ c ∷ dotted ns rest

abbrev AreParts : List (ℕ × ℕ) → Type 0
AreParts [] = Unit {0}
AreParts ((n, c) ∷ ns) = (n < 256) × (is_digit c ≡ false) × AreParts ns

abbrev pub numbers : List (ℕ × ℕ) → List ℕ
numbers [] = []
numbers ((n, c) ∷ ns) = n ∷ numbers ns

address_bytes-dotted :
    (ns : List (ℕ × ℕ)) (rest : List ℕ)
    → AreParts ns
    → address_bytes (length ns) (dotted ns rest) ≡ (numbers ns, rest)
unfolding address_bytes
address_bytes-dotted [] rest h = refl
address_bytes-dotted ((n, c) ∷ ns) rest (small, sep, h) =
    let same : n % 256 ≡ n = omega arith in
    rw (number-decimal n c (dotted ns rest) sep, address_bytes-dotted ns rest h, same) refl

append-last : (ds : List ℕ) (d : ℕ) → ds ++ d ∷ [] ≢ []
append-last [] d e = absurd (cc)
append-last (c ∷ ds) d e = absurd (cc)

decimal-nonempty : (n : ℕ) → decimal n ≢ []
decimal-nonempty n e = elim (Bool-cases (ltb n 10)) [
  | inl one ↦ append-last [] _ (rw one at e)
  | inr more ↦ append-last (digits n (n / 10)) _ (rw more at e)
]

remote_port-digits :
    (ds : List ℕ) (old c : ℕ) (rest : List ℕ)
    → AreDigits ds
    → ds ≢ []
    → is_digit c ≡ false
    → remote_port old (ds ++ c ∷ rest) ≡ value 0 ds % 65536
unfolding remote_port
remote_port-digits [] old c rest h full e = absurd (full refl)
remote_port-digits (d ∷ ds) old c rest (one, h) full e =
    if-then (is_digit d) _ _ one
    ∙ ap (λ (t : ℕ × List ℕ). t.0 % 65536) (number-digits (d ∷ ds) 0 c rest (one, h) e)

drop-append : (xs ys : List ℕ) → drop (length xs) (xs ++ ys) ≡ ys
drop-append [] ys = refl
drop-append (x ∷ xs) ys = drop-append xs ys

-- Four numbers below 256 and a port below 65536, in decimal digits behind the first eight cells of the
-- line, are the address and the port that `connect` connects to. The one cell behind each number is
-- any but a digit: a dot or a space, and also the end of the line.
pub remote-decimal :
    (old n c : ℕ) (ns : List (ℕ × ℕ)) (command rest : List ℕ)
    → length command ≡ 8
    → length ns ≡ 4
    → AreParts ns
    → n < 65536
    → is_digit c ≡ false
    → remote old (command ++ dotted ns (decimal n ++ c ∷ rest)) ≡ (numbers ns, n)
unfolding remote
remote-decimal old n c ns command rest eight four parts small sep =
    let behind : List ℕ = decimal n ++ c ∷ rest in
    let number : value 0 (decimal n) ≡ n = value-digits (suc n) n (omega arith) in
    let same : n % 65536 ≡ n = omega arith in
    let cells : drop 8 (command ++ dotted ns behind) ≡ dotted ns behind =
      rw eight at (drop-append command (dotted ns behind)) in
    let out : address_bytes 4 (dotted ns behind) ≡ (numbers ns, behind) =
      rw four at (address_bytes-dotted ns behind parts) in
    rw
      (
        cells,
        out,
        remote_port-digits (decimal n) old c rest (digits-AreDigits (suc n) n) (decimal-nonempty n)
            sep,
        number,
        same,
      )
      refl
