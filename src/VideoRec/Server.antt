-- ===== src/VideoRec/Server.antt =====
-- cs426-fall24/lab2/lab1/video_rec_service/server_lib/server_lib.go: the state of the service, its
-- pools of connections and the loops over batches.
pub mod Batches
pub mod Loops
pub mod Dedup
use building_distributed_sys.Prelude.{
  add64, ℕ, zero, suc, ◌+◌, ◌-◌, ◌%◌, ◌≡◌, refl, Bool, true, false, Option, none, some, List, [],
  ◌∷◌, ◌++◌, map, length, get_elem?, take, drop, ltb, ◌==◌, ◌||◌, if◌then◌else◌,
}
use building_distributed_sys.Prelude.Int.{ℤ, pos, negsuc}
use building_distributed_sys.VideoRec.Run.{Run, returned, panicked, looping, ◌>>=◌}
use building_distributed_sys.VideoRec.Users.{UserInfo}
use building_distributed_sys.VideoRec.Videos.{VideoInfo, member}

pub record VideoRecServiceOptions : Type 0 where
  pub max_batch_size : ℕ
  pub disable_fallback : Bool
  pub disable_retry : Bool
  pub client_pool_size : ℕ

pub record CachedVideos : Type 0 where
  pub videos : List VideoInfo
  pub timeout : ℕ

-- `Conn` is a connection of gRPC. The counters are unsigned 64-bit numbers; an int64 is its bit
-- pattern.
pub record VideoRecServiceServer (Conn : Type 0) : Type 0 where
  pub options : VideoRecServiceOptions
  pub total_reqs : ℕ
  pub total_errs : ℕ
  pub total_usr_serv_errs : ℕ
  pub total_active_reqs : ℕ
  pub total_latency : ℕ
  pub total_stale_resp : ℕ
  pub total_vid_serv_errs : ℕ
  pub trending_vids : CachedVideos
  pub usr_clients : List Conn
  pub vid_clients : List Conn
  pub usr_client_index : ℕ
  pub vid_client_index : ℕ

-- The answers of the other services to the calls on a connection, `none` for an error. The number is
-- the index that the call drew, so each call has its own answer.
pub record Services (Conn : Type 0) : Type 0 where
  pub get_user : Conn → ℕ → List ℕ → Option (List UserInfo)
  pub get_video : Conn → ℕ → List ℕ → Option (List VideoInfo)
  pub get_trending_videos : Conn → ℕ → Option (List ℕ × ℕ)

-- `deduplicate`, with `seen` the items so far
unfoldable pub deduplicate_seen : List ℕ → List ℕ → List ℕ
deduplicate_seen seen [] = []
deduplicate_seen seen (item ∷ items) = elim (member item seen) [
  | true ↦ deduplicate_seen seen items
  | false ↦ item ∷ deduplicate_seen (item ∷ seen) items
]

unfoldable pub deduplicate : List ℕ → List ℕ
deduplicate items = deduplicate_seen [] items

-- `videos[:limit]` with the limit of the request: 0 and anything too large is all of them, and a
-- negative limit is a slice out of range.
unfoldable pub limited {ℓ} : {A : Type ℓ} → ℤ → List A → Run (List A)
limited (pos n) xs = if n == 0 || ltb (length xs) n then returned xs else returned (take n xs)
limited (negsuc n) xs = panicked

-- `clients[idx%uint64(len(clients))]`
unfoldable pub pick {ℓ} : {A : Type ℓ} → ℕ → List A → Run A
pick idx clients = elim (get_elem? clients (idx % length clients)) [
  | none ↦ panicked
  | some client ↦ returned client
]

-- The likes of a batch of users, nothing for a batch that failed.
unfoldable pub liked_videos : Option (List UserInfo) → List ℕ
liked_videos none = []
liked_videos (some []) = []
liked_videos (some (user ∷ users)) = user.liked_videos ++ liked_videos (some users)

module _ {Conn : Type 0} where
  -- `getUserClient`, with the index that it drew
  unfoldable pub get_user_client :
      VideoRecServiceServer Conn → Run (VideoRecServiceServer Conn × Conn × ℕ)
  get_user_client s = do
    let idx = add64 s.usr_client_index 1
    conn ← pick idx s.usr_clients
    returned (record s { usr_client_index = idx }, conn, idx)

  -- `getVideoClient`
  unfoldable pub get_video_client :
      VideoRecServiceServer Conn → Run (VideoRecServiceServer Conn × Conn × ℕ)
  get_video_client s = do
    let idx = add64 s.vid_client_index 1
    conn ← pick idx s.vid_clients
    returned (record s { vid_client_index = idx }, conn, idx)

  module _ (services : Services Conn) where
    -- The loop of `getSubscribedVideos`; `rest` is `subscribedUserIDs[i:]`. A size of 0 never gets
    -- further.
    unfoldable pub subscribed_from :
        ℕ → List ℕ → VideoRecServiceServer Conn → Run (VideoRecServiceServer Conn × List ℕ)
    subscribed_from fuel [] s = returned (s, [])
    subscribed_from zero (id ∷ ids) s = looping
    subscribed_from (suc fuel) (id ∷ ids) s = do
      (s1, conn, idx) ← get_user_client s
      let answer = services.get_user conn idx (take s.options.max_batch_size (id ∷ ids))
      (s2, more) ← subscribed_from fuel (drop s.options.max_batch_size (id ∷ ids)) s1
      returned (s2, liked_videos answer ++ more)

    -- `getSubscribedVideos`
    unfoldable pub get_subscribed_videos :
        ℕ → List ℕ → VideoRecServiceServer Conn → Run (VideoRecServiceServer Conn × List ℕ)
    get_subscribed_videos fuel ids s = subscribed_from fuel ids s

    -- The loop of `getVideoInfo`, with the videos so far; `none` is its error.
    unfoldable pub video_info_from :
        ℕ
        → List VideoInfo
        → List ℕ
        → VideoRecServiceServer Conn
        → Run (VideoRecServiceServer Conn × Option (List VideoInfo))
    video_info_from fuel videos [] s = returned (s, some videos)
    video_info_from zero videos (id ∷ ids) s = looping
    video_info_from (suc fuel) videos (id ∷ ids) s = do
      (s1, conn, idx) ← get_video_client s
      elim (services.get_video conn idx (take s.options.max_batch_size (id ∷ ids))) [
        | none ↦ returned (s1, none)
        | some batch ↦
            video_info_from fuel (videos ++ batch) (drop s.options.max_batch_size (id ∷ ids)) s1
      ]

    -- `getVideoInfo`
    unfoldable pub get_video_info :
        ℕ
        → List ℕ
        → VideoRecServiceServer Conn
        → Run (VideoRecServiceServer Conn × Option (List VideoInfo))
    get_video_info fuel ids s = video_info_from fuel [] ids s
