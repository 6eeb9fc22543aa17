-- ===== src/Console/Address.antt =====
-- The handler of `connect` in main.cpp: the remote address and port that it reads from the line. The
-- `int` in which a number is gathered is kept whole here: it is cut to a byte or to 16 bits where it is
-- used, and so its own wrap-around does not show.
pub mod Parse
use lavoro_l.Base.{
  ℕ, zero, suc, ◌+◌, ◌-◌, ◌*◌, ◌%◌, Bool, ◌&&◌, List, [], ◌∷◌, ◌++◌, if◌then◌else◌, leb, drop,
}

-- `*p >= L'0' && *p <= L'9'`
abbrev pub is_digit : ℕ → Bool
is_digit c = leb 48 c && leb c 57

-- The loop over the digits: `current`, and the cells from `p` on.
unfoldable pub number : ℕ → List ℕ → ℕ × List ℕ
number current [] = (current, [])
number current (c ∷ cells) =
    let rest : ℕ × List ℕ = number (current * 10 + (c - 48)) cells in
    if is_digit c then rest else (current, c ∷ cells)

-- The bytes of `RemoteAddress.Addr`; the cell behind a number is skipped, whatever it is.
unfoldable pub address_bytes : ℕ → List ℕ → List ℕ × List ℕ
address_bytes zero cells = ([], cells)
address_bytes (suc n) cells =
    let one : ℕ × List ℕ = number 0 cells in
    let more : List ℕ × List ℕ = address_bytes n (drop 1 one.1) in (one.0 % 256 ∷ more.0, more.1)

-- `RemotePort`, as `Connect` takes it; without a digit it stays.
unfoldable pub remote_port : ℕ → List ℕ → ℕ
remote_port old [] = old % 65536
remote_port old (c ∷ cells) =
    if is_digit c then ((number 0 (c ∷ cells)).0 % 65536) else (old % 65536)

-- The cells of `szLine`: the address and the port that are connected to.
unfoldable pub remote : ℕ → List ℕ → List ℕ × ℕ
remote old line =
    let out : List ℕ × List ℕ = address_bytes 4 (drop 8 line) in (out.0, remote_port old out.1)
