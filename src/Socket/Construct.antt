-- ===== src/Socket/Construct.antt =====
-- The constructors and the destructor of `LSocket` in src/lsocket.hpp: the calls of the firmware that they
-- make, in order, and the members that they leave. The firmware's answers are the parameter `Service`.
use lavoro_l.Base.{
  ℕ, ◌+◌, arith, ◌≡◌, refl, Bool, true, false, Option, none, some, List, [], ◌∷◌, ◌++◌, ◌⊎◌, inl,
  inr, if◌then◌else◌, Bool-cases, if-then, if-else, sym, ◌∙◌,
}

-- The calls. `open_binding h` and `close_binding h` are of the binding protocol on the handle `h`, the others of the
-- child that the binding makes.
pub data Call (H : Type 0) : Type 0 where
  locate install create_child open_child destroy_child close_child_protocol shut_child : Call H
  open_binding close_binding close_child_on : H → Call H

-- Which calls succeed.
pub record Service (H : Type 0) : Type 0 where
  pub opens : H → Bool
  pub creates : Bool
  pub opens_child : Bool

-- `ServiceBindingHandle`, which is set where `ServiceBinding` is, `Handle` and `Child`
pub record Members (H : Type 0) : Type 0 where
  pub binding : Option H
  pub handle : Bool
  pub child : Bool

-- `null_binding` is the call of `CreateChild` through a null `ServiceBinding`, which
-- `InstallMultipleProtocolInterfaces` does not set.
pub data Built (H : Type 0) : Type 0 where
  built : Members H → List (Call H) → Built H
  null_binding : List (Call H) → Built H

module _ {H : Type 0} (service : Service H) where
  -- The loop over the handles: the one that was opened, and the calls.
  unfoldable pub find_binding : List H → Option H × List (Call H)
  find_binding [] = (none, [])
  find_binding (h ∷ hs) =
      let rest : Option H × List (Call H) = find_binding hs in
      if service.opens h
      then (some h, open_binding h ∷ [])
      else (rest.0, open_binding h ∷ close_binding h ∷ rest.1)

  -- `CreateChild` and what follows it
  unfoldable pub make_child : H → List (Call H) → Built H
  make_child h calls =
      if service.creates
      then (if service.opens_child
          then built (record { binding = some h; handle = true; child = true })
              (calls ++ create_child ∷ open_child ∷ [])
          else built (record { binding = some h; handle = true; child = false })
              (calls ++ create_child ∷ open_child ∷ destroy_child ∷ []))
      else built (record { binding = some h; handle = false; child = false })
          (calls ++ create_child ∷ close_child_on h ∷ [])

  -- `LSocket::LSocket(EFI_IPv4_ADDRESS *, UINT16)`
  unfoldable pub new_socket : List H → Built H
  new_socket handles =
      let found : Option H × List (Call H) = find_binding handles in
      elim found.0 [
        | none ↦ null_binding (locate ∷ (found.1 ++ install ∷ []))
        | some h ↦ make_child h (locate ∷ found.1)
      ]

-- `LSocket::~LSocket`
unfoldable pub delete_socket : {H : Type 0} → Members H → List (Call H)
delete_socket {H} s =
    let first : List (Call H) =
      if s.handle then close_child_protocol ∷ destroy_child ∷ [] else [] in
    let second : List (Call H) = elim s.binding [ none ↦ [] | some h ↦ close_binding h ∷ [] ] in
    let third : List (Call H) = if s.child then shut_child ∷ [] else [] in
    first ++ (second ++ third)

abbrev weight : {H : Type 0} → Call H → ℕ
weight destroy_child = 1
weight c = 0

-- How often the child is destroyed.
abbrev pub destroys : {H : Type 0} → List (Call H) → ℕ
destroys [] = 0
destroys (c ∷ calls) = weight c + destroys calls

module _ {H : Type 0} (service : Service H) where
  abbrev pub AreShut : List H → Type 0
  AreShut [] = Unit {0}
  AreShut (h ∷ hs) = (service.opens h ≡ false) × AreShut hs

  -- The child is made and destroyed once, or destroyed twice, or never made.
  abbrev pub expected : ℕ
  expected = if service.creates then (if service.opens_child then 1 else 2) else 0

  abbrev IsFound : List H → Option H × List (Call H) → Type 0
  IsFound hs (none, calls) = AreShut hs
  IsFound hs (some h, calls) = (service.opens h ≡ true) × (destroys calls ≡ 0)

  later-IsFound :
      (h : H) (hs : List H) (out : Option H × List (Call H))
      → service.opens h ≡ false
      → IsFound hs out
      → IsFound (h ∷ hs) (out.0, open_binding h ∷ close_binding h ∷ out.1)
  later-IsFound h hs (none, calls) e f = (e, f)
  later-IsFound h hs (some k, calls) e (opened, none_there) = (opened, omega arith)

  find_binding-IsFound : (hs : List H) → IsFound hs (find_binding service hs)
  unfolding find_binding
  find_binding-IsFound [] = tt
  find_binding-IsFound (h ∷ hs) = elim (Bool-cases (service.opens h)) [
    | inl yes_here ↦ rw yes_here (yes_here, refl)
    | inr shut ↦
        rw shut (later-IsFound h hs (find_binding service hs) shut (find_binding-IsFound hs))
  ]

  destroys-append : (cs ds : List (Call H)) → destroys (cs ++ ds) ≡ destroys cs + destroys ds
  destroys-append [] ds = omega arith
  destroys-append (c ∷ cs) ds = omega (arith, destroys-append cs ds)

  -- A socket over a binding, built and then deleted.
  pub record IsLife (h : H) (out : Built H) : Type 0 where
    pub members : Members H
    pub calls : List (Call H)
    pub returns : out ≡ built members calls
    pub bound : members.binding ≡ some h
    pub balance : destroys (calls ++ delete_socket members) ≡ expected

  module _ (h : H) (calls : List (Call H)) (z : destroys calls ≡ 0) where
    built-IsLife :
        (s : Members H) (more : List (Call H))
        → make_child service h calls ≡ built s (calls ++ more)
        → s.binding ≡ some h
        → destroys more + destroys (delete_socket s) ≡ expected
        → IsLife h (make_child service h calls)
    built-IsLife s more e b n = record {
      members = s;
      calls = calls ++ more;
      returns = e;
      bound = b;
      balance = omega (
        arith,
        destroys-append (calls ++ more) (delete_socket s),
        destroys-append calls more,
        z,
        n,
      );
    }

    make_child-IsLife : IsLife h (make_child service h calls)
    unfolding make_child delete_socket
    make_child-IsLife = elim (Bool-cases service.creates) [
      | inl made ↦ elim (Bool-cases service.opens_child) [
        | inl whole ↦
            built-IsLife (record { binding = some h; handle = true; child = true })
              (create_child ∷ open_child ∷ [])
              (if-then service.creates _ _ made ∙ if-then service.opens_child _ _ whole) refl
              (sym (if-then service.creates _ _ made ∙ if-then service.opens_child _ _ whole))
        | inr lost ↦
            built-IsLife (record { binding = some h; handle = true; child = false })
              (create_child ∷ open_child ∷ destroy_child ∷ [])
              (if-then service.creates _ _ made ∙ if-else service.opens_child _ _ lost) refl
              (sym (if-then service.creates _ _ made ∙ if-else service.opens_child _ _ lost))
      ]
      | inr refused ↦
          built-IsLife (record { binding = some h; handle = false; child = false })
            (create_child ∷ close_child_on h ∷ []) (if-else service.creates _ _ refused) refl
            (sym (if-else service.creates _ _ refused))
    ]

  abbrev after_search : Option H × List (Call H) → Built H
  after_search found = elim found.0 [
    | none ↦ null_binding (locate ∷ (found.1 ++ install ∷ []))
    | some h ↦ make_child service h (locate ∷ found.1)
  ]

  after_search-IsLife :
      (handles : List H) (found : Option H × List (Call H))
      → IsFound handles found
      → ((h : H) × (service.opens h ≡ true) × IsLife h (after_search found))
        ⊎ ((calls : List (Call H)) × (after_search found ≡ null_binding calls) × AreShut handles)
  after_search-IsLife handles (none, calls) shut = inr (_, refl, shut)
  after_search-IsLife handles (some h, calls) (opened, z) =
      inl (h, opened, make_child-IsLife h (locate ∷ calls) (omega arith))

  -- A socket that is built and then deleted. Where some handle can be opened the child is destroyed
  -- once if it was made and opened, and not at all if it was not made; but if it was made and cannot be
  -- opened, it is destroyed twice. Where no handle can be opened, the constructor calls through a null
  -- pointer.
  pub new_socket_lem :
      (handles : List H)
      → ((h : H) × (service.opens h ≡ true) × IsLife h (new_socket service handles))
        ⊎ ((calls : List (Call H)) × (new_socket service handles ≡ null_binding calls)
            × AreShut handles)
  unfolding new_socket
  new_socket_lem handles =
      after_search-IsLife handles (find_binding service handles) (find_binding-IsFound handles)
