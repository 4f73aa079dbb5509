-- ===== src/VideoRec/Recommend/Reference.antt =====
-- `GetTopVideos` against a reference without batches, connections and counters.
use building_distributed_sys.Prelude.{ℕ, List, map, All}
use building_distributed_sys.VideoRec.Users.{UserInfo}
use building_distributed_sys.VideoRec.Videos.{VideoInfo}
use building_distributed_sys.VideoRec.Server.{deduplicate}
use building_distributed_sys.VideoRec.Server.Batches.{likes_of}

module _ (user_of : ℕ → UserInfo) (video_of : ℕ → VideoInfo) (IsUser IsVideo : ℕ → Type 0) where
  -- The videos to choose from: what the subscriptions like, each once.
  abbrev pub candidates : ℕ → List VideoInfo
  candidates user_id = map video_of (deduplicate (likes_of user_of (user_of user_id).subscribed_to))

  -- The user, the subscriptions and what they like all exist.
  pub record IsKnown (user_id : ℕ) : Type 0 where
    pub user : IsUser user_id
    pub subscribed : All IsUser (user_of user_id).subscribed_to
    pub liked : All IsVideo (likes_of user_of (user_of user_id).subscribed_to)
