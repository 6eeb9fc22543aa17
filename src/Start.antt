-- ===== src/Start.antt =====
-- The start of the program: `InitializeFileSystem` of src/lfs.cpp, and `efi_main` of main.cpp with the
-- configuration and the loop over the two modes. gnu-efi's `Atoi` and its look-up of protocols are
-- parameters.
pub mod Configure
pub mod Volumes
pub mod Modes
use lavoro_l.Base.{
  ℕ, zero, suc, ◌+◌, ◌%◌, Bool, Option, none, some, List, [], ◌∷◌, ◌++◌, if◌then◌else◌, get_or,
  take, map,
}
use lavoro_l.Reader.{Reader, line, underrun, read_line}
use lavoro_l.Transfer.{c_string}

-- `LocalAddress.Addr` and `LocalPort`
pub record Config : Type 0 where
  pub address : List ℕ
  pub port : ℕ

module _ (atoi : List ℕ → ℕ) {S : Type 0} (read_buffer : Reader S → Bool × Reader S)
    (before fuel : ℕ) where
  -- `config.Reader.ReadLine(szLine)` and `Atoi(szLine)`, so many times. `none`: the fuel ran out, or
  -- a line left the buffer.
  unfoldable pub read_numbers : ℕ → Reader S → Option (List ℕ × Reader S)
  read_numbers zero r = some ([], r)
  read_numbers (suc n) r = elim (read_line read_buffer before fuel r) [
    | none ↦ none
    | some (out, r') ↦ elim out [
      | underrun ↦ none
      | line text ↦ elim (read_numbers n r') [
        | none ↦ none
        | some (ns, r2) ↦ some (atoi (c_string (text ++ 0 ∷ [])) ∷ ns, r2)
      ]
    ]
  ]

  -- The configuration that `efi_main` reads.
  unfoldable pub read_config : Reader S → Option Config
  read_config r = elim (read_numbers 5 r) [
    | none ↦ none
    | some (ns, r') ↦
        some (record { address = map (λ n. n % 256) (take 4 ns); port = get_or ns 4 0 })
  ]

-- `FileInterfaces` with `FileInterfacesCount`, `AssetsFileInterface` and `szCurrentPath`.
pub record Found (I : Type 0) : Type 0 where
  pub interfaces : List I
  pub count : ℕ
  pub assets : Option I
  pub path : List ℕ

module _ {H I : Type 0} (handle_protocol : H → Option I) (has_assets : I → Bool) (junk : I) where
  -- The body of the loop over the handles. On an error the cell keeps what it holds, `junk`.
  unfoldable pub add_volume : H → Found I → Found I
  add_volume h f = elim (handle_protocol h) [
    | none ↦ record f { interfaces = f.interfaces ++ junk ∷ []; count = f.count + 1 }
    | some i ↦ record f {
      interfaces = f.interfaces ++ i ∷ [];
      count = f.count + 1;
      assets = if has_assets i then some i else f.assets;
    }
  ]

  unfoldable pub add_volumes : List H → Found I → Found I
  add_volumes [] f = f
  add_volumes (h ∷ hs) f = add_volumes hs (add_volume h f)

  -- `InitializeFileSystem`; `none` is an error of `LibLocateHandle`.
  unfoldable pub initialize : Option (List H) → Found I → Found I
  initialize none f = f
  initialize (some hs) f = record (add_volumes hs (record f { interfaces = [] })) { path = 92 ∷ [] }

pub data Mode : Type 0 where
  screen console : Mode

module _ {W : Type 0} (screen_mode console_mode : W → Bool × W) where
  -- The loop of `efi_main`: the modes in the order in which they ran, and the state of the machine.
  unfoldable pub run_modes : ℕ → W → Option (List Mode × W)
  run_modes zero w = none
  run_modes (suc fuel) w =
      let s : Bool × W = screen_mode w in
      let c : Bool × W = console_mode s.1 in
      let rest : Option (List Mode × W) = elim (run_modes fuel c.1) [
        | none ↦ none
        | some (ms, w') ↦ some (screen ∷ console ∷ ms, w')
      ] in
      if s.0
      then (if c.0 then rest else some (screen ∷ console ∷ [], c.1))
      else some (screen ∷ [], s.1)
