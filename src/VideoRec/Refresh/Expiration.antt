-- ===== src/VideoRec/Refresh/Expiration.antt =====
-- How long the trending videos stay in the cache, and the sizes of the pools.
use building_distributed_sys.Prelude.{
  ℕ, zero, suc, ◌+◌, ◌≤◌, ◌<◌, ◌≡◌, refl, Bool, Option, none, some, List, length, arith,
  Option-cases, inl, inr,
}
use building_distributed_sys.VideoRec.Run.{returned, >>=-eq-returned}
use building_distributed_sys.VideoRec.Users.{UserServiceServer, response}
use building_distributed_sys.VideoRec.Videos.{VideoServiceServer, get_trending_videos}
use building_distributed_sys.VideoRec.Server.{
  VideoRecServiceServer, VideoRecServiceOptions, Services, get_video_client,
}
use building_distributed_sys.VideoRec.Recommend.Behind.{behind, IsQuiet, quiet_lem}
use building_distributed_sys.VideoRec.Refresh.{
  Backend, user_service, video_service, connect, add_connections, make_pools,
  make_video_rec_service_server, fetch_trending, store_trending, refresh, refresh_round,
}

get_trending_videos_lem :
    (r1 r2 now : ℕ) (db : VideoServiceServer)
    → IsQuiet db.fi
    → get_trending_videos r1 r2 now db ≡ response (db.top_videos, now + db.options.ttl_seconds)
unfolding get_trending_videos
get_trending_videos_lem r1 r2 now db quiet = ground (arith, quiet_lem r1 r2 db.fi quiet)

store_trending_lem :
    {Conn : Type 0} (services : Services Conn) (fuel later expiration : ℕ) (ids : List ℕ)
    (s t : VideoRecServiceServer Conn)
    → store_trending services fuel later (some (ids, expiration)) s ≡ returned t
    → t.trending_vids.timeout ≡ later + expiration
unfolding store_trending
store_trending_lem services fuel later expiration ids s t h =
    let ((s1, videos), fetched, rest) = >>=-eq-returned (fetch_trending services fuel ids s) _ h in
    ground arith

refresh_lem :
    {Conn : Type 0} (draw : ℕ → ℕ) (asked : ℕ) (users : UserServiceServer)
    (videos : VideoServiceServer) (fuel later : ℕ) (s t : VideoRecServiceServer Conn)
    → IsQuiet videos.fi
    → refresh (behind draw (λ idx. asked) users videos) fuel later s ≡ returned t
    → t.trending_vids.timeout ≡ later + (asked + videos.options.ttl_seconds)
unfolding refresh
refresh_lem draw asked users videos fuel later s t quiet h =
    let ((s1, conn, idx), got, rest) = >>=-eq-returned (get_video_client s) _ h in
    store_trending_lem (behind draw (λ idx. asked) users videos) fuel later
      (asked + videos.options.ttl_seconds) videos.top_videos s1 t
      (rw (get_trending_videos_lem (draw idx) (draw idx) asked videos quiet) at rest)

-- After a round that asked the video service at the time `asked`, with nothing injected, the
-- refreshing loop leaves the cache alone until the time `later + asked + ttl` in seconds, where `later`
-- is the time of the round itself: the time at which the videos expire is added to the current
-- time once more.
pub refresh_round_lem :
    {Conn : Type 0} (draw : ℕ → ℕ) (asked : ℕ) (users : UserServiceServer)
    (videos : VideoServiceServer) (fuel now later fuel' when after : ℕ)
    (s t : VideoRecServiceServer Conn)
    → IsQuiet videos.fi
    → s.trending_vids.timeout < now
    → refresh_round (behind draw (λ idx. asked) users videos) fuel now later s ≡ returned t
    → when ≤ later + (asked + videos.options.ttl_seconds)
    → refresh_round (behind draw (λ idx. asked) users videos) fuel' when after t ≡ returned t
unfolding refresh_round
refresh_round_lem draw asked users videos fuel now later fuel' when after s t quiet due h early =
    let set = refresh_lem draw asked users videos fuel later s t quiet (ground arith) in
    ground arith

add_connections_lem :
    {Conn : Type 0} (a b : Option Conn) (rest : Option (List Conn × List Conn)) (us vs : List Conn)
    → add_connections a b rest ≡ some (us, vs)
    → (xs : List Conn) × (ys : List Conn) × (rest ≡ some (xs, ys))
      × (length us ≡ suc (length xs))
      × (length vs ≡ suc (length ys))
unfolding add_connections
add_connections_lem none b rest us vs h = ground arith
add_connections_lem (some u) none rest us vs h = ground arith
add_connections_lem (some u) (some v) none us vs h = ground arith
add_connections_lem (some u) (some v) (some (xs, ys)) us vs h =
    (xs, ys, refl, ground arith, ground arith)

make_pools_lem :
    {Conn : Type 0} (dial : Backend → ℕ → Option Conn) (disable_retry : Bool) (rounds n : ℕ)
    (us vs : List Conn)
    → make_pools dial disable_retry rounds n ≡ some (us, vs)
    → (length us ≡ rounds) × (length vs ≡ rounds)
unfolding make_pools
make_pools_lem dial disable_retry zero n us vs h = ground arith
make_pools_lem dial disable_retry (suc rounds) n us vs h =
    let (usr, n1) = connect dial disable_retry user_service n in
    let (vid, n2) = connect dial disable_retry video_service n1 in
    let (xs, ys, rest, lu, lv) =
      add_connections_lem usr vid (make_pools dial disable_retry rounds n2) us vs h in
    let (hu, hv) = make_pools_lem dial disable_retry rounds n2 xs ys rest in
    (omega arith, omega arith)

-- A service that is made has as many connections to each backend as its pool size says.
pub make_video_rec_service_server_lem :
    {Conn : Type 0} (dial : Backend → ℕ → Option Conn) (options : VideoRecServiceOptions)
    (s : VideoRecServiceServer Conn)
    → make_video_rec_service_server dial options ≡ some s
    → (length s.usr_clients ≡ options.client_pool_size)
      × (length s.vid_clients ≡ options.client_pool_size)
unfolding make_video_rec_service_server
make_video_rec_service_server_lem dial options s h =
    elim (Option-cases (make_pools dial options.disable_retry options.client_pool_size 0)) [
      | inl failed ↦ ground arith
      | inr ((us, vs), made) ↦
          let (hu, hv) =
            make_pools_lem dial options.disable_retry options.client_pool_size 0 us vs made in
          ground arith
    ]
