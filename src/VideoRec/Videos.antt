-- ===== src/VideoRec/Videos.antt =====
-- cs426-fall24/lab1/video_service/server_lib/server_lib.go: the videos by id, and the trending ones.
use building_distributed_sys.Prelude.{
  ℕ, ◌+◌, Bool, true, false, Option, none, some, List, [], ◌∷◌, length, ltb, ◌==◌, ◌||◌, not,
  if◌then◌else◌,
}
use building_distributed_sys.Prelude.Int.{ℤ}
use building_distributed_sys.Prelude.Maps.{nat_eq, lookup}
use building_distributed_sys.VideoRec.Injector.{
  FailureInjector, InjectionConfig, make_failure_injector, set_injection_config,
  set_injection_config_pb, maybe_inject, proceed, fail, hang, crash,
}
use building_distributed_sys.VideoRec.Ranker.{Coeffs}
use building_distributed_sys.VideoRec.Users.{
  Answer, response, error, omitted, crashed, internal, invalid_argument, not_found,
}

-- The fields of `VideoInfo` that the services read.
pub record VideoInfo : Type 0 where
  pub video_id : ℕ
  pub video_coefficients : Coeffs

pub record VideoServiceOptions : Type 0 where
  pub ttl_seconds : ℕ
  pub sleep_ns : ℤ
  pub failure_rate : ℤ
  pub response_omission_rate : ℤ
  pub max_batch_size : ℕ

pub record VideoServiceServer : Type 0 where
  pub options : VideoServiceOptions
  pub fi : FailureInjector
  pub videos : List (ℕ × VideoInfo)
  pub top_videos : List ℕ

-- A set of ids as the list of its members.
unfoldable pub member : ℕ → List ℕ → Bool
member id [] = false
member id (x ∷ xs) = x == id || member id xs

-- The loop of `deduplicateIds`, with `set` the ids so far.
unfoldable pub deduplicate_from : List ℕ → List ℕ → List ℕ
deduplicate_from set [] = []
deduplicate_from set (id ∷ ids) = elim (member id set) [
  | true ↦ deduplicate_from set ids
  | false ↦ id ∷ deduplicate_from (id ∷ set) ids
]

unfoldable pub deduplicate_ids : List ℕ → List ℕ
deduplicate_ids ids = deduplicate_from [] ids

-- `MakeVideoServiceServer`, for the videos and the top ids that the random generator made
unfoldable pub make_video_service_server :
    VideoServiceOptions → List (ℕ × VideoInfo) → List ℕ → VideoServiceServer
make_video_service_server options videos top_ids = record {
  options = options;
  fi =
      set_injection_config options.sleep_ns options.failure_rate options.response_omission_rate
        make_failure_injector;
  videos = videos;
  top_videos = deduplicate_ids top_ids;
}

-- The loop of `GetVideo`.
unfoldable pub find_videos : List (ℕ × VideoInfo) → List ℕ → Option (List VideoInfo)
find_videos videos [] = some []
find_videos videos (id ∷ ids) =
    let rest = find_videos videos ids in
    elim (lookup id videos) [
      | none ↦ none
      | some info ↦ elim rest [ none ↦ none | some infos ↦ some (info ∷ infos) ]
    ]

-- `GetVideo`
unfoldable pub get_video : ℕ → ℕ → List ℕ → VideoServiceServer → Answer (List VideoInfo)
get_video random1 random2 ids db = elim (maybe_inject random1 random2 db.fi) [
  | fail ↦ error internal
  | hang ↦ omitted
  | crash ↦ crashed
  | proceed ↦
      if length ids == 0
      then error invalid_argument
      else if ltb db.options.max_batch_size (length ids)
      then error invalid_argument
      else if not (length (deduplicate_ids ids) == length ids)
      then error invalid_argument
      else elim (find_videos db.videos ids) [ none ↦ error not_found | some infos ↦ response infos ]
]

-- `GetTrendingVideos` at a time in seconds: the ids, and the time at which they expire
unfoldable pub get_trending_videos : ℕ → ℕ → ℕ → VideoServiceServer → Answer (List ℕ × ℕ)
get_trending_videos random1 random2 now db = elim (maybe_inject random1 random2 db.fi) [
  | fail ↦ error internal
  | hang ↦ omitted
  | crash ↦ crashed
  | proceed ↦ response (db.top_videos, now + db.options.ttl_seconds)
]

-- `SetInjectionConfig`
unfoldable pub set_video_injection : InjectionConfig → VideoServiceServer → VideoServiceServer
set_video_injection config db = record db { fi = set_injection_config_pb config db.fi }
