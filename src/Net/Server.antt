-- ===== src/Net/Server.antt =====
-- cs426-fall24/lab3/lab3/labrpc/labrpc.go: a server with its services, and how it dispatches a request.
pub mod Registered
use building_distributed_sys.Prelude.{
  ℕ, ◌+◌, ◌≡◌, refl, Bool, true, false, ◌&&◌, not, Option, none, some, List, [], ◌∷◌, ◌==◌,
  if◌then◌else◌, add64,
}
use building_distributed_sys.Prelude.Maps.{lookup, insert}
use building_distributed_sys.Net.Names.{Bytes, bytes_eq, split_method}

-- A method as package reflect shows it. `call` decodes the argument, runs the method on the
-- receivers' state and encodes its reply.
pub record Method (World : Type 0) : Type 0 where
  pub mname : Bytes
  pub is_exported : Bool
  pub num_in : ℕ
  pub second_is_pointer : Bool
  pub num_out : ℕ
  pub call : World → Bytes → World × Bytes

pub record Service (World : Type 0) : Type 0 where
  pub name : Bytes
  pub methods : List (Bytes × Method World)

pub record Server (World : Type 0) : Type 0 where
  pub services : List (Bytes × Service World)
  pub count : ℕ

module _ {World : Type 0} where
  -- The condition under which `MakeService` keeps a method: it is capitalized, has the receiver and
  -- two arguments, of which the second is a pointer, and no result.
  unfoldable pub looks_like_handler : Method World → Bool
  looks_like_handler m = m.is_exported && (m.num_in == 3) && m.second_is_pointer && (m.num_out == 0)

  -- The loop of `MakeService` over the methods of the receiver's type.
  unfoldable pub handlers_of :
      List (Method World) → List (Bytes × Method World) → List (Bytes × Method World)
  handlers_of [] table = table
  handlers_of (m ∷ ms) table =
      handlers_of ms (if looks_like_handler m then insert m.mname m table else table)

  -- `MakeService` of a receiver with the type's name and methods
  unfoldable pub make_service : Bytes → List (Method World) → Service World
  make_service name methods = record { name = name; methods = handlers_of methods [] }

  -- `MakeServer`
  unfoldable pub make_server : Server World
  make_server = record { services = []; count = 0 }

  -- `AddService`
  unfoldable pub add_service : Service World → Server World → Server World
  add_service svc rs = record rs { services = insert svc.name svc rs.services }

  -- `Service.dispatch`; `none` is log.Fatalf
  unfoldable pub dispatch_method : Service World → Bytes → Bytes → World → Option (World × Bytes)
  dispatch_method svc methname args w = elim (lookup methname svc.methods) [
    | none ↦ none
    | some method ↦ some (method.call w args)
  ]

  -- `Server.dispatch` after the count, with the service that the name gives
  unfoldable pub dispatch_service :
      List (Bytes × Service World) → Option (Bytes × Bytes) → Bytes → World → Option (World × Bytes)
  dispatch_service services none args w = none
  dispatch_service services (some (service, method)) args w = elim (lookup service services) [
    | none ↦ none
    | some svc ↦ dispatch_method svc method args w
  ]

  -- The server with one more incoming RPC, and what the method did.
  unfoldable pub count_rpc :
      Server World → Option (World × Bytes) → Option (Server World × World × Bytes)
  count_rpc rs none = none
  count_rpc rs (some ran) = some (record rs { count = add64 rs.count 1 }, ran.0, ran.1)

  -- `Server.dispatch`
  unfoldable pub dispatch :
      Bytes → Bytes → Server World → World → Option (Server World × World × Bytes)
  dispatch svc_meth args rs w =
      count_rpc rs (dispatch_service rs.services (split_method svc_meth) args w)
