-- ===== src/VideoRec/Recommend.antt =====
-- cs426-fall24/lab2/lab1/video_rec_service/server_lib/server_lib.go: `GetTopVideos` with its ranking
-- and its fallback, and `GetStats`.
pub mod Reference
pub mod Ranking
pub mod Behind
pub mod Counters
use building_distributed_sys.Prelude.{
  add64, ℕ, zero, suc, ◌+◌, ◌-◌, ◌/◌, ◌^◌, ◌≡◌, refl, Bool, true, false, Option, none, some, List,
  [], ◌∷◌, map, length, ltb, ◌==◌, if◌then◌else◌,
}
use building_distributed_sys.Prelude.Int.{ℤ}
use building_distributed_sys.VideoRec.Run.{Run, returned, panicked, looping, ◌>>=◌}
use building_distributed_sys.VideoRec.Users.{UserInfo}
use building_distributed_sys.VideoRec.Videos.{VideoInfo}
use building_distributed_sys.VideoRec.Server.{
  VideoRecServiceServer, CachedVideos, Services, deduplicate, limited, get_user_client,
  get_subscribed_videos, get_video_info,
}

-- A request; the limit is an int32.
pub record GetTopVideosRequest : Type 0 where
  pub user_id : ℕ
  pub limit : ℤ

pub record GetTopVideosResponse : Type 0 where
  pub videos : List VideoInfo
  pub stale_response : Bool

-- A video with its score.
pub record Scored : Type 0 where
  pub video : VideoInfo
  pub score : ℕ

abbrev pub score_with : (VideoInfo → ℕ) → VideoInfo → Scored
score_with score video = record { video = video; score = score video }

-- `rankerVids`. `score` is `Rank` for the user's coefficients, and `sort` stands for sort.Slice by
-- descending score.
unfoldable pub ranker_vids :
    (List Scored → List Scored) → (VideoInfo → ℕ) → List VideoInfo → List VideoInfo
ranker_vids sort score videos = map (λ scored. scored.video) (sort (map (score_with score) videos))

pub record GetStatsResponse : Type 0 where
  pub total_requests : ℕ
  pub total_errors : ℕ
  pub active_requests : ℕ
  pub user_service_errors : ℕ
  pub video_service_errors : ℕ
  pub stale_responses : ℕ

module _ {Conn : Type 0} where
  -- `handleFallback`; `none` is the error that fallback is disabled
  unfoldable pub handle_fallback :
      ℤ
      → VideoRecServiceServer Conn
      → Run (VideoRecServiceServer Conn × Option GetTopVideosResponse)
  handle_fallback limit s = if s.options.disable_fallback then returned (s, none) else (do
    videos ← limited limit s.trending_vids.videos
    returned (
      record s { total_stale_resp = add64 s.total_stale_resp 1 },
      some (record { videos = videos; stale_response = true }),
    ))

  -- The two failures of `GetTopVideos` count alike.
  unfoldable pub count_error : VideoRecServiceServer Conn → VideoRecServiceServer Conn
  count_error s =
      if s.options.disable_fallback
      then record s {
        total_usr_serv_errs = add64 s.total_usr_serv_errs 1;
        total_errs = add64 s.total_errs 1;
      }
      else s

  -- The counters at the start of `GetTopVideos`, and the deferred one at its end.
  unfoldable pub enter : VideoRecServiceServer Conn → VideoRecServiceServer Conn
  enter s = record s {
    total_active_reqs = add64 s.total_active_reqs 1;
    total_reqs = add64 s.total_reqs 1;
  }

  -- The deferred `AddInt64(..., -1)`.
  unfoldable pub leave : VideoRecServiceServer Conn → VideoRecServiceServer Conn
  leave s = record s { total_active_reqs = add64 s.total_active_reqs (2 ^ 64 - 1) }

  -- The body of `GetTopVideos` after the user has been looked up. `rank` is the ranker, and `latency`
  -- the milliseconds since the request came in.
  unfoldable pub top_of_user :
      (UserInfo → List VideoInfo → List VideoInfo)
      → Services Conn
      → ℕ
      → ℕ
      → ℤ
      → UserInfo
      → VideoRecServiceServer Conn
      → Run (VideoRecServiceServer Conn × Option GetTopVideosResponse)
  top_of_user rank services fuel latency limit user s = do
    (s1, liked) ← get_subscribed_videos services fuel user.subscribed_to s
    (s2, infos) ← get_video_info services fuel (deduplicate liked) s1
    elim infos [
      | none ↦ handle_fallback limit (count_error s2)
      | some videos ↦ (do
        top ← limited limit (rank user videos)
        returned (
          record s2 { total_latency = add64 s2.total_latency latency },
          some (record { videos = top; stale_response = false }),
        ))
    ]

  -- `GetTopVideos` between its first counters and its deferred one
  unfoldable pub serve :
      (UserInfo → List VideoInfo → List VideoInfo)
      → Services Conn
      → ℕ
      → ℕ
      → GetTopVideosRequest
      → VideoRecServiceServer Conn
      → Run (VideoRecServiceServer Conn × Option GetTopVideosResponse)
  serve rank services fuel latency req s = do
    (s1, conn, idx) ← get_user_client s
    elim (services.get_user conn idx (req.user_id ∷ [])) [
      | none ↦ handle_fallback req.limit (count_error s1)
      | some [] ↦ handle_fallback req.limit (count_error s1)
      | some (user ∷ users) ↦ top_of_user rank services fuel latency req.limit user s1
    ]

  -- `GetTopVideos`; `none` is its error
  unfoldable pub get_top_videos :
      (UserInfo → List VideoInfo → List VideoInfo)
      → Services Conn
      → ℕ
      → ℕ
      → GetTopVideosRequest
      → VideoRecServiceServer Conn
      → Run (VideoRecServiceServer Conn × Option GetTopVideosResponse)
  get_top_videos rank services fuel latency req s = do
    (s1, response) ← serve rank services fuel latency req (enter s)
    returned (leave s1, response)

  -- `GetStats`; the average latency, a float32, is left out
  unfoldable pub get_stats : VideoRecServiceServer Conn → GetStatsResponse
  get_stats s = record {
    total_requests = s.total_reqs;
    total_errors = s.total_errs;
    active_requests = s.total_active_reqs;
    user_service_errors = s.total_usr_serv_errs;
    video_service_errors = s.total_vid_serv_errs;
    stale_responses = s.total_stale_resp;
  }
