-- ===== src/VideoRec/Recommend/Behind.antt =====
-- The recommendation service with the user service and the video service behind it.
use building_distributed_sys.Prelude.{
  ℕ, ◌≤◌, ◌<◌, ◌≡◌, refl, ap, Option, none, some, List, [], ◌∷◌, map, length, All, arith,
}
use building_distributed_sys.Prelude.Int.{pos}
use building_distributed_sys.Prelude.Maps.{nat_eq, lookup}
use building_distributed_sys.VideoRec.Injector.{
  FailureInjector, maybe_inject, one_in, combine, proceed,
}
use building_distributed_sys.VideoRec.Users.{
  UserInfo, UserServiceServer, Answer, response, error, omitted, crashed, find_users, get_user,
}
use building_distributed_sys.VideoRec.Videos.{
  VideoInfo, VideoServiceServer, find_videos, get_video, get_trending_videos,
}
use building_distributed_sys.VideoRec.Server.{Services}
use building_distributed_sys.VideoRec.Server.Batches.{Distinct, Reliable}
use building_distributed_sys.VideoRec.Server.Dedup.{deduplicate_ids_lem}

-- What a client sees of an answer: without a response the call fails, at the latest when its
-- context is done.
abbrev pub seen_by_client {ℓ} : {A : Type ℓ} → Answer A → Option A
seen_by_client (response a) = some a
seen_by_client (error code) = none
seen_by_client omitted = none
seen_by_client crashed = none

-- The calls of any connection reach these servers. `draw` gives the random numbers of a call, and
-- `now` its time.
abbrev pub behind :
    {Conn : Type 0} → (ℕ → ℕ) → (ℕ → ℕ) → UserServiceServer → VideoServiceServer → Services Conn
behind draw now users videos = record {
  get_user = λ conn idx ids. seen_by_client (get_user (draw idx) (draw idx) ids users);
  get_video = λ conn idx ids. seen_by_client (get_video (draw idx) (draw idx) ids videos);
  get_trending_videos =
      λ conn idx. seen_by_client (get_trending_videos (draw idx) (draw idx) (now idx) videos);
}

-- Nothing is injected.
abbrev pub IsQuiet : FailureInjector → Type 0
IsQuiet fi = (fi.config.failure_rate ≡ pos 0) × (fi.config.response_omission_rate ≡ pos 0)

pub quiet_lem : (r1 r2 : ℕ) (fi : FailureInjector) → IsQuiet fi → maybe_inject r1 r2 fi ≡ proceed
unfolding maybe_inject one_in combine
quiet_lem r1 r2 fi (a, b) = rw (a, b)

module _ (users : UserServiceServer) (videos : VideoServiceServer) (user_of : ℕ → UserInfo)
    (video_of : ℕ → VideoInfo) where
  abbrev pub HasUser : ℕ → Type 0
  HasUser id = lookup id users.users ≡ some (user_of id)

  abbrev pub HasVideo : ℕ → Type 0
  HasVideo id = lookup id videos.videos ≡ some (video_of id)

  find_users_lem :
      (ids : List ℕ) → All HasUser ids → find_users users.users ids ≡ some (map user_of ids)
  unfolding find_users
  find_users_lem [] h = refl
  find_users_lem (id ∷ ids) (here, more) = ground (arith, find_users_lem ids more)

  find_videos_lem :
      (ids : List ℕ) → All HasVideo ids → find_videos videos.videos ids ≡ some (map video_of ids)
  unfolding find_videos
  find_videos_lem [] h = refl
  find_videos_lem (id ∷ ids) (here, more) = ground (arith, find_videos_lem ids more)

  get_user_lem :
      (r1 r2 : ℕ) (ids : List ℕ)
      → IsQuiet users.fi
      → 0 < length ids
      → length ids ≤ users.options.max_batch_size
      → All HasUser ids
      → get_user r1 r2 ids users ≡ response (map user_of ids)
  unfolding get_user
  get_user_lem r1 r2 ids quiet some_ids fits known =
      ground (arith, quiet_lem r1 r2 users.fi quiet, find_users_lem ids known)

  get_video_lem :
      (r1 r2 : ℕ) (ids : List ℕ)
      → IsQuiet videos.fi
      → 0 < length ids
      → length ids ≤ videos.options.max_batch_size
      → Distinct ids
      → All HasVideo ids
      → get_video r1 r2 ids videos ≡ response (map video_of ids)
  unfolding get_video
  get_video_lem r1 r2 ids quiet some_ids fits d known = ground (
    arith,
    quiet_lem r1 r2 videos.fi quiet,
    find_videos_lem ids known,
    ap length (deduplicate_ids_lem ids d),
  )

  -- Without injected failures, the two services answer every batch of known ids, without an id
  -- twice for videos, as long as the recommendation service's batches are within their limits.
  pub behind-Reliable :
      {Conn : Type 0} (draw now : ℕ → ℕ) (size : ℕ)
      → IsQuiet users.fi
      → IsQuiet videos.fi
      → size ≤ users.options.max_batch_size
      → size ≤ videos.options.max_batch_size
      → Reliable (behind {Conn = Conn} draw now users videos) size user_of video_of HasUser HasVideo
  behind-Reliable draw now size quiet_users quiet_videos fits_users fits_videos = record {
    users = λ conn idx ids some_ids fits known.
        ap seen_by_client
          (get_user_lem (draw idx) (draw idx) ids quiet_users some_ids (omega arith) known);
    videos = λ conn idx ids some_ids fits d known.
        ap seen_by_client
          (get_video_lem (draw idx) (draw idx) ids quiet_videos some_ids (omega arith) d known);
  }
