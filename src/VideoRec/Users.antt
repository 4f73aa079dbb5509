-- ===== src/VideoRec/Users.antt =====
-- cs426-fall24/lab1/user_service/server_lib/server_lib.go: the users by id.
use building_distributed_sys.Prelude.{
  ℕ, Option, none, some, List, [], ◌∷◌, length, ltb, ◌==◌, if◌then◌else◌,
}
use building_distributed_sys.Prelude.Int.{ℤ}
use building_distributed_sys.Prelude.Maps.{nat_eq, lookup}
use building_distributed_sys.VideoRec.Injector.{
  FailureInjector, InjectionConfig, make_failure_injector, set_injection_config,
  set_injection_config_pb, maybe_inject, proceed, fail, hang, crash,
}
use building_distributed_sys.VideoRec.Ranker.{Coeffs}

-- The fields of `UserInfo` that the services read.
pub record UserInfo : Type 0 where
  pub user_id : ℕ
  pub user_coefficients : Coeffs
  pub subscribed_to : List ℕ
  pub liked_videos : List ℕ

-- The gRPC status codes of the two services.
pub data Code : Type 0 where
  internal invalid_argument not_found : Code

-- How a handler of a service ends: a response, an error, no response ever, or a panic.
pub data Answer {ℓ} (A : Type ℓ) : Type ℓ where
  response : A → Answer A
  error : Code → Answer A
  omitted : Answer A
  crashed : Answer A

pub record UserServiceOptions : Type 0 where
  pub sleep_ns : ℤ
  pub failure_rate : ℤ
  pub response_omission_rate : ℤ
  pub max_batch_size : ℕ

pub record UserServiceServer : Type 0 where
  pub options : UserServiceOptions
  pub fi : FailureInjector
  pub users : List (ℕ × UserInfo)

-- `MakeUserServiceServer`, for the users that the random generator made
unfoldable pub make_user_service_server :
    UserServiceOptions → List (ℕ × UserInfo) → UserServiceServer
make_user_service_server options users = record {
  options = options;
  fi =
      set_injection_config options.sleep_ns options.failure_rate options.response_omission_rate
        make_failure_injector;
  users = users;
}

-- The loop of `GetUser`.
unfoldable pub find_users : List (ℕ × UserInfo) → List ℕ → Option (List UserInfo)
find_users users [] = some []
find_users users (id ∷ ids) =
    let rest = find_users users ids in
    elim (lookup id users) [
      | none ↦ none
      | some info ↦ elim rest [ none ↦ none | some infos ↦ some (info ∷ infos) ]
    ]

-- `GetUser`; the two numbers are what the injector draws
unfoldable pub get_user : ℕ → ℕ → List ℕ → UserServiceServer → Answer (List UserInfo)
get_user random1 random2 ids db = elim (maybe_inject random1 random2 db.fi) [
  | fail ↦ error internal
  | hang ↦ omitted
  | crash ↦ crashed
  | proceed ↦
      if length ids == 0
      then error invalid_argument
      else if ltb db.options.max_batch_size (length ids)
      then error invalid_argument
      else elim (find_users db.users ids) [ none ↦ error not_found | some infos ↦ response infos ]
]

-- `SetInjectionConfig`
unfoldable pub set_user_injection : InjectionConfig → UserServiceServer → UserServiceServer
set_user_injection config db = record db { fi = set_injection_config_pb config db.fi }
