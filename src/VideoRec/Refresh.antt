-- ===== src/VideoRec/Refresh.antt =====
-- cs426-fall24/lab2/lab1/video_rec_service/server_lib/server_lib.go: the pools of connections that
-- the service makes, and the cache of trending videos.
pub mod Expiration
use building_distributed_sys.Prelude.{
  ℕ, zero, suc, ◌+◌, ◌*◌, ◌-◌, ◌≤◌, ◌<◌, ◌≡◌, refl, ap, Bool, true, false, Option, none, some, List,
  [], ◌∷◌, ◌++◌, map, length, take, drop, ltb, ◌==◌, not, if◌then◌else◌, arith, Option-cases,
  Bool-cases, inl, inr,
}
use building_distributed_sys.Prelude.Int.{pos}
use building_distributed_sys.VideoRec.Run.{Run, returned, panicked, looping, ◌>>=◌}
use building_distributed_sys.VideoRec.Users.{UserServiceServer}
use building_distributed_sys.VideoRec.Videos.{VideoInfo, VideoServiceServer, get_trending_videos}
use building_distributed_sys.VideoRec.Server.{
  VideoRecServiceServer, VideoRecServiceOptions, CachedVideos, Services, get_video_client,
}

-- The service that a connection goes to.
pub data Backend : Type 0 where
  user_service video_service : Backend

-- A round's two connections go in front of the rest, unless one of them failed.
unfoldable pub add_connections :
    {Conn : Type 0}
    → Option Conn
    → Option Conn
    → Option (List Conn × List Conn)
    → Option (List Conn × List Conn)
add_connections none vid_conn rest = none
add_connections (some usr) none rest = none
add_connections (some usr) (some vid) none = none
add_connections (some usr) (some vid) (some (usrs, vids)) = some (usr ∷ usrs, vid ∷ vids)

-- `dial` stands for grpc.NewClient: what its `n`-th call gives, `none` for an error.
module _ {Conn : Type 0} (dial : Backend → ℕ → Option Conn) where
  -- One connection, with the retry, and the number of the next call.
  unfoldable pub connect : Bool → Backend → ℕ → Option Conn × ℕ
  connect disable_retry backend n = elim (dial backend n) [
    | some conn ↦ (some conn, suc n)
    | none ↦ if disable_retry then (none, suc n) else (dial backend (suc n), suc (suc n))
  ]

  -- The loop of `MakeVideoRecServiceServer` with `rounds` left: the two pools from there on, or the
  -- error.
  unfoldable pub make_pools : Bool → ℕ → ℕ → Option (List Conn × List Conn)
  make_pools disable_retry zero n = some ([], [])
  make_pools disable_retry (suc rounds) n =
      let (usr_conn, n1) = connect disable_retry user_service n in
      let (vid_conn, n2) = connect disable_retry video_service n1 in
      let rest = make_pools disable_retry rounds n2 in add_connections usr_conn vid_conn rest

  -- `MakeVideoRecServiceServer`; the refreshing goroutine is `refresh_round` below
  unfoldable pub make_video_rec_service_server :
      VideoRecServiceOptions → Option (VideoRecServiceServer Conn)
  make_video_rec_service_server options =
      elim (make_pools options.disable_retry options.client_pool_size 0) [
        | none ↦ none
        | some (usr, vid) ↦ some (record {
          options = options;
          total_reqs = 0;
          total_errs = 0;
          total_usr_serv_errs = 0;
          total_active_reqs = 0;
          total_latency = 0;
          total_stale_resp = 0;
          total_vid_serv_errs = 0;
          trending_vids = record { videos = []; timeout = 0 };
          usr_clients = usr;
          vid_clients = vid;
          usr_client_index = 0;
          vid_client_index = 0;
        })
      ]

module _ {Conn : Type 0} (services : Services Conn) where
  -- The loop over batches in `refreshTrendingVideos`: it stops at the first error and keeps what it
  -- has.
  unfoldable pub fetch_trending :
      ℕ → List ℕ → VideoRecServiceServer Conn → Run (VideoRecServiceServer Conn × List VideoInfo)
  fetch_trending fuel [] s = returned (s, [])
  fetch_trending zero (id ∷ ids) s = looping
  fetch_trending (suc fuel) (id ∷ ids) s = do
    (s1, conn, idx) ← get_video_client s
    elim (services.get_video conn idx (take s.options.max_batch_size (id ∷ ids))) [
      | none ↦ returned (s1, [])
      | some batch ↦ (do
        (s2, more) ← fetch_trending fuel (drop s.options.max_batch_size (id ∷ ids)) s1
        returned (s2, batch ++ more))
    ]

  -- The videos and the time at which they expire, as `GetTrendingVideos` answered, into the cache.
  unfoldable pub store_trending :
      ℕ → ℕ → Option (List ℕ × ℕ) → VideoRecServiceServer Conn → Run (VideoRecServiceServer Conn)
  store_trending fuel later none s = returned s
  store_trending fuel later (some (ids, expiration)) s = do
    (s1, videos) ← fetch_trending fuel ids s
    returned
        (record s1 { trending_vids = record { videos = videos; timeout = later + expiration } })

  -- A refresh that is due.
  unfoldable pub refresh : ℕ → ℕ → VideoRecServiceServer Conn → Run (VideoRecServiceServer Conn)
  refresh fuel later s = do
    (s1, conn, idx) ← get_video_client s
    store_trending fuel later (services.get_trending_videos conn idx) s1

  -- One round of `refreshTrendingVideos`, at `now` before the calls and `later` after them, in seconds
  unfoldable pub refresh_round :
      ℕ → ℕ → ℕ → VideoRecServiceServer Conn → Run (VideoRecServiceServer Conn)
  refresh_round fuel now later s =
      if ltb s.trending_vids.timeout now then refresh fuel later s else returned s
