-- ===== src/Start/Configure.antt =====
-- The configuration.
use lavoro_l.Base.{
  ℕ, ◌%◌, ◌<◌, ◌≡◌, ◌≢◌, refl, Bool, some, List, [], ◌∷◌, arith, length, length-append, map,
}
use lavoro_l.Reader.{Reader}
use lavoro_l.Reader.Source.{Source}
use lavoro_l.Reader.Pending.{pending}
use lavoro_l.Reader.ReadLine.{IsReady, loaded, fresh, read_line-crlf}
use lavoro_l.Transfer.Copy.{IsFresh}
use lavoro_l.Console.Operands.{c_string-append}
use lavoro_l.Console.Batch.Script.{file_bytes, AreLines}
use lavoro_l.Start.{read_numbers, read_config}

module _ (atoi : List ℕ → ℕ) {S : Type 0} {read_buffer : Reader S → Bool × Reader S}
    (src : Source read_buffer) (before fuel : ℕ) where
  read_numbers-map :
      (l : List ℕ) (ls : List (List ℕ)) {r : Reader S}
      → IsReady src.rest r (file_bytes (l ∷ ls))
      → AreLines (l ∷ ls)
      → length (file_bytes (l ∷ ls)) < fuel
      → (r' : Reader S) × (read_numbers atoi read_buffer before fuel (length (l ∷ ls)) r
          ≡ some (map atoi (l ∷ ls), r'))
  unfolding read_numbers
  read_numbers-map l [] {r} h (text, one, t) e =
      let run = read_line-crlf src before fuel l [] h one e in
      (run.0, rw (read_numbers, run.1, c_string-append l [] text) refl)
  read_numbers-map l (k ∷ ls) {r} h (text, one, t) e =
      let run = read_line-crlf src before fuel l (file_bytes (k ∷ ls)) h one e in
      let rest =
        read_numbers-map k ls (loaded run.2) t
          (omega (arith, length-append l (13 ∷ 10 ∷ file_bytes (k ∷ ls)))) in
      (rest.0, rw (read_numbers, run.1, rest.1, c_string-append l [] text) refl)

  file_bytes-some : (l : List ℕ) (ls : List (List ℕ)) → file_bytes (l ∷ ls) ≢ []
  file_bytes-some [] ls e = cc
  file_bytes-some (c ∷ l) ls e = cc

  -- A configuration of five lines, each ended by CR LF, in a file that was just opened: the first four
  -- are the bytes of the local address, each the low byte of its number, and the fifth is the local
  -- port. The fuel is any number above that of the file's bytes.
  read_config_lem :
      (a b c d p : List ℕ) {r : Reader S}
      → IsFresh r
      → pending src.rest r ≡ file_bytes (a ∷ b ∷ c ∷ d ∷ p ∷ [])
      → AreLines (a ∷ b ∷ c ∷ d ∷ p ∷ [])
      → length (file_bytes (a ∷ b ∷ c ∷ d ∷ p ∷ [])) < fuel
      → read_config atoi read_buffer before fuel r
        ≡ some (record {
          address = atoi a % 256 ∷ atoi b % 256 ∷ atoi c % 256 ∷ atoi d % 256 ∷ [];
          port = atoi p;
        })
  unfolding read_config
  read_config_lem a b c d p {r} f e t l =
      let run =
        read_numbers-map a (b ∷ c ∷ d ∷ p ∷ [])
          (fresh f.valid f.live f.spent (file_bytes-some a (b ∷ c ∷ d ∷ p ∷ [])) e) t l in
      rw (run.1, read_config) refl
