-- ===== src/Net/Server/Registered.antt =====
-- A method of a service is reached under the service's name, a dot and its own.

use building_distributed_sys.Prelude.{
  ◌≡◌, refl, sym, ◌∙◌, ap, subst, true, false, not, some, List, [], ◌∷◌, ◌++◌, ◌==◌, ◌⊎◌,
  Bool-cases, if◌then◌else◌, add64, All, inl, inr, arith,
}
use building_distributed_sys.Prelude.Maps.{lookup, insert, lookup-insert, beq_refl}
use building_distributed_sys.Net.Names.{Bytes, bytes_eq, split_method-join}
use building_distributed_sys.Net.Server.{
  Method, Service, Server, looks_like_handler, handlers_of, make_service, add_service,
  dispatch_method, dispatch_service, count_rpc, dispatch,
}

module _ {World : Type 0} where
  -- A method of this name in the list is followed by no other of the name.
  abbrev pub LastOf : Bytes → Method World → List (Method World) → Type 0
  LastOf name m [] = ⊥
  LastOf name m (x ∷ xs) =
      ((m ≡ x) × (m.mname ≡ name) × All (λ y. bytes_eq.beq y.mname name ≡ false) xs)
      ⊎ LastOf name m xs

  lookup-handlers_of-other :
      (name : Bytes) (ms : List (Method World)) (table : List (Bytes × Method World))
      → All (λ y. bytes_eq.beq y.mname name ≡ false) ms
      → lookup name (handlers_of ms table) ≡ lookup name table
  unfolding handlers_of
  lookup-handlers_of-other name [] table other = refl
  lookup-handlers_of-other name (x ∷ xs) table other = elim (Bool-cases (looks_like_handler x)) [
    | inl kept ↦
        ap (λ b. lookup name (handlers_of xs (if b then insert x.mname x table else table))) kept
        ∙ lookup-handlers_of-other name xs (insert x.mname x table) other.1
        ∙ lookup-insert x.mname name x table
        ∙ ap (λ b. if b then some x else lookup name table) other.0
    | inr left ↦
        ap (λ b. lookup name (handlers_of xs (if b then insert x.mname x table else table))) left
        ∙ lookup-handlers_of-other name xs table other.1
  ]

  lookup-handlers_of :
      (name : Bytes) (m : Method World) (ms : List (Method World))
      (table : List (Bytes × Method World))
      → LastOf name m ms
      → looks_like_handler m ≡ true
      → lookup name (handlers_of ms table) ≡ some m
  unfolding handlers_of
  lookup-handlers_of name m [] table absent handler = elim absent [ ]
  lookup-handlers_of name m (x ∷ xs) table (inl (same, named, other)) handler =
      let kept : looks_like_handler x ≡ true =
        subst (λ y. looks_like_handler y ≡ true) same handler in
      let x_named : x.mname ≡ name = subst (λ y. y.mname ≡ name) same named in
      ap (λ b. lookup name (handlers_of xs (if b then insert x.mname x table else table))) kept
      ∙ lookup-handlers_of-other name xs (insert x.mname x table) other
      ∙ lookup-insert x.mname name x table
      ∙ ap (λ b. if b then some x else lookup name table)
          ((bytes_eq.beq_iff x.mname name).1 x_named)
      ∙ ap some (sym same)
  lookup-handlers_of name m (x ∷ xs) table (inr later) handler =
      lookup-handlers_of name m xs (if looks_like_handler x then insert x.mname x table else table)
        later handler

  serve_lem :
      (services : List (Bytes × Service World)) (svc : Service World) (service method : Bytes)
      (m : Method World) (args : Bytes) (w : World)
      → lookup service services ≡ some svc
      → lookup method svc.methods ≡ some m
      → dispatch_service services (some (service, method)) args w ≡ some (m.call w args)
  unfolding dispatch_service dispatch_method
  serve_lem services svc service method m args w served found = ground arith

  -- A handler among a receiver's methods is what a server runs for the service's name, a dot and the
  -- handler's name, if that has no dot: the call counts once and gives what the handler gives.
  pub dispatch-make_service :
      (name : Bytes) (ms : List (Method World)) (m : Method World) (rs : Server World)
      (args : Bytes) (w : World)
      → LastOf m.mname m ms
      → looks_like_handler m ≡ true
      → All (λ c. not (c == 46) ≡ true) m.mname
      → dispatch (name ++ 46 ∷ m.mname) args (add_service (make_service name ms) rs) w
        ≡ some (
          record (add_service (make_service name ms) rs) { count = add64 rs.count 1 },
          (m.call w args).0,
          (m.call w args).1,
        )
  unfolding dispatch count_rpc make_service add_service
  dispatch-make_service name ms m rs args w last handler no_dots =
      let split = split_method-join name m.mname no_dots in
      let svc = make_service name ms in
      let served : lookup name (insert name svc rs.services) ≡ some svc =
        lookup-insert name name svc rs.services
        ∙ ap (λ b. if b then some svc else lookup name rs.services) (beq_refl name) in
      let found = lookup-handlers_of m.mname m ms [] last handler in
      let server = add_service svc rs in
      ap (λ parts. count_rpc server (dispatch_service server.services parts args w)) split
      ∙ ap (count_rpc server) (serve_lem server.services svc name m.mname m args w served found)
