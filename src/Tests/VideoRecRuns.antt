-- ===== src/Tests/VideoRecRuns.antt =====
-- The recommendation service over two users and two videos.

use building_distributed_sys.Prelude.{
  add64, ℕ, ◌+◌, ◌≡◌, refl, ◌≤◌, true, false, Option, some, arith, List, [], ◌∷◌, if◌then◌else◌,
  ◌==◌,
}
use building_distributed_sys.Prelude.Int.{pos}
use building_distributed_sys.Prelude.Maps.{nat_eq, lookup}
use building_distributed_sys.VideoRec.Run.{returned, looping}
use building_distributed_sys.VideoRec.Injector.{set_injection_config, maybe_inject, one_in, combine}
use building_distributed_sys.VideoRec.Users.{
  UserInfo, UserServiceServer, make_user_service_server, get_user, find_users,
}
use building_distributed_sys.VideoRec.Videos.{
  VideoInfo, VideoServiceServer, make_video_service_server, deduplicate_ids, deduplicate_from,
  member, get_video, find_videos, get_trending_videos,
}
use building_distributed_sys.VideoRec.Server.{
  VideoRecServiceServer, VideoRecServiceOptions, Services, limited, get_subscribed_videos,
  get_user_client, get_video_client, pick,
}
use building_distributed_sys.VideoRec.Server.Batches.{Reliable}
use building_distributed_sys.VideoRec.Server.Loops.{zero_batches_loop}
use building_distributed_sys.VideoRec.Recommend.{
  GetTopVideosRequest, GetTopVideosResponse, get_top_videos, serve, handle_fallback, count_error,
  enter, leave,
}
use building_distributed_sys.VideoRec.Recommend.Behind.{
  behind, IsQuiet, HasUser, HasVideo, behind-Reliable,
}
use building_distributed_sys.VideoRec.Recommend.Counters.{Counted, get_top_videos-Counted}
use building_distributed_sys.VideoRec.Refresh.{
  refresh_round, refresh, store_trending, fetch_trending,
}
use building_distributed_sys.VideoRec.Refresh.Expiration.{refresh_round_lem}

abbrev ann : UserInfo
ann = record {
  user_id = 200000;
  user_coefficients = (1, 3) ∷ [];
  subscribed_to = 200001 ∷ [];
  liked_videos = [];
}

abbrev bob : UserInfo
bob = record {
  user_id = 200001;
  user_coefficients = [];
  subscribed_to = [];
  liked_videos = 1000 ∷ 1001 ∷ 1000 ∷ [];
}

abbrev video : ℕ → VideoInfo
video id = record { video_id = id; video_coefficients = (1, id) ∷ [] }

abbrev users : UserServiceServer
unfolding make_user_service_server set_injection_config
users =
    make_user_service_server
      (record {
        sleep_ns = pos 0;
        failure_rate = pos 0;
        response_omission_rate = pos 0;
        max_batch_size = 50;
      })
      ((200000, ann) ∷ (200001, bob) ∷ [])

abbrev videos : VideoServiceServer
unfolding make_video_service_server set_injection_config deduplicate_ids deduplicate_from member
videos =
    make_video_service_server
      (record {
        ttl_seconds = 60;
        sleep_ns = pos 0;
        failure_rate = pos 0;
        response_omission_rate = pos 0;
        max_batch_size = 50;
      })
      ((1000, video 1000) ∷ (1001, video 1001) ∷ []) (1001 ∷ 1001 ∷ [])

abbrev user_of : ℕ → UserInfo
user_of id = if id == 200000 then ann else bob

abbrev draw : ℕ → ℕ
draw idx = idx

abbrev services : Services ℕ
services = behind draw (λ idx. 100) users videos

abbrev options : ℕ → VideoRecServiceOptions
options size = record {
  max_batch_size = size;
  disable_fallback = false;
  disable_retry = false;
  client_pool_size = 1;
}

abbrev server : ℕ → VideoRecServiceServer ℕ
server size = record {
  options = options size;
  total_reqs = 0;
  total_errs = 0;
  total_usr_serv_errs = 0;
  total_active_reqs = 0;
  total_latency = 0;
  total_stale_resp = 0;
  total_vid_serv_errs = 0;
  trending_vids = record { videos = []; timeout = 0 };
  usr_clients = 7 ∷ [];
  vid_clients = 8 ∷ [];
  usr_client_index = 0;
  vid_client_index = 0;
}

users-IsQuiet : IsQuiet users.fi
unfolding users make_user_service_server set_injection_config
users-IsQuiet = (refl, refl)

videos-IsQuiet : IsQuiet videos.fi
unfolding videos make_video_service_server set_injection_config
videos-IsQuiet = (refl, refl)

users_fit : 1 ≤ users.options.max_batch_size
unfolding users make_user_service_server set_injection_config
users_fit = omega arith

videos_fit : 1 ≤ videos.options.max_batch_size
unfolding videos make_video_service_server set_injection_config
videos_fit = omega arith

behind-Reliable_example :
    Reliable
      (behind {Conn = ℕ} draw (λ idx. 100) users videos)
      1
      user_of
      video
      (HasUser users videos user_of video)
      (HasVideo users videos user_of video)
behind-Reliable_example =
    behind-Reliable users videos user_of video draw (λ idx. 100) 1 users-IsQuiet videos-IsQuiet
      users_fit videos_fit

abbrev request : GetTopVideosRequest
request = record { user_id = 200000; limit = pos 1 }

-- The ranker is left out: the videos stay in their order.
abbrev in_order : UserInfo → List VideoInfo → List VideoInfo
in_order user vids = vids

-- A user who does not exist gets the trending videos, of which there are none yet.
abbrev stranger : GetTopVideosRequest
stranger = record { user_id = 5; limit = pos 1 }

abbrev after_stranger : VideoRecServiceServer ℕ
after_stranger = record (server 1) { total_reqs = 1; total_stale_resp = 1; usr_client_index = 1 }

abbrev stale : Option GetTopVideosResponse
stale = some (record { videos = []; stale_response = true })

served : get_top_videos in_order services 3 5 stranger (server 1) ≡ returned (after_stranger, stale)
unfolding get_top_videos serve enter leave handle_fallback count_error limited get_user_client pick
    get_user maybe_inject one_in combine find_users lookup make_user_service_server
    make_video_service_server set_injection_config
served = refl

get_top_videos-Counted_example :
    Counted (server 1) after_stranger stale
    × (after_stranger.total_reqs ≡ add64 0 1)
    × (after_stranger.total_active_reqs ≡ 0)
    × (after_stranger.total_vid_serv_errs ≡ 0)
get_top_videos-Counted_example =
    get_top_videos-Counted in_order services 3 5 stranger (server 1) after_stranger stale
      (omega arith) served

abbrev refreshed : VideoRecServiceServer ℕ
refreshed = record (server 1) {
  trending_vids = record { videos = video 1001 ∷ []; timeout = 261 };
  vid_client_index = 2;
}

cached : refresh_round services 3 100 101 (server 1) ≡ returned refreshed
unfolding refresh_round refresh store_trending fetch_trending get_video_client pick
    get_trending_videos get_video maybe_inject one_in combine find_videos lookup
    make_user_service_server make_video_service_server set_injection_config deduplicate_ids
    deduplicate_from member
cached = refl

still_fresh : 250 ≤ 101 + (100 + videos.options.ttl_seconds)
unfolding videos make_video_service_server
still_fresh = omega arith

-- The cache was filled for 60 seconds at the time 100, and is still in use at the time 250.
refresh_round_lem_example : refresh_round services 3 250 251 refreshed ≡ returned refreshed
refresh_round_lem_example =
    refresh_round_lem draw 100 users videos 3 100 101 3 250 251 (server 1) refreshed videos-IsQuiet
      (omega arith) cached still_fresh

zero_batches_loop_example : get_subscribed_videos services 4 (200001 ∷ []) (server 0) ≡ looping
zero_batches_loop_example = zero_batches_loop services 4 200001 [] (server 0) refl (omega arith)
