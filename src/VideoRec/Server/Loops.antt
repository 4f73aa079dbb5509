-- ===== src/VideoRec/Server/Loops.antt =====
-- The loops over batches against their results without batches, and when they end.
use building_distributed_sys.Prelude.{
  ℕ, zero, suc, ◌≤◌, ◌<◌, ◌≡◌, refl, ◌∙◌, sym, ap, some, List, [], ◌∷◌, ◌++◌, map, length, take,
  drop, length-take, length-drop, take-append-drop, All, arith,
}
use building_distributed_sys.VideoRec.Run.{returned, looping}
use building_distributed_sys.VideoRec.Users.{UserInfo}
use building_distributed_sys.VideoRec.Videos.{VideoInfo}
use building_distributed_sys.VideoRec.Server.{
  VideoRecServiceServer, Services, subscribed_from, get_subscribed_videos, video_info_from,
}
use building_distributed_sys.VideoRec.Server.Batches.{
  Distinct, likes_of, Reliable, All-take, All-drop, take-Distinct, drop-Distinct, ++_assoc, ++_nil,
  map-append, liked_videos-append, get_user_client_lem, get_video_client_lem,
}

module _ {Conn : Type 0} (services : Services Conn) (user_of : ℕ → UserInfo)
    (video_of : ℕ → VideoInfo) (IsUser IsVideo : ℕ → Type 0) where
  -- The services are reliable for the batches of this server.
  abbrev pub Serves : VideoRecServiceServer Conn → Type 0
  Serves s = Reliable services s.options.max_batch_size user_of video_of IsUser IsVideo

  pub subscribed_from_lem :
      (fuel : ℕ) (ids : List ℕ) (s : VideoRecServiceServer Conn)
      → Serves s
      → 0 < s.options.max_batch_size
      → 0 < length s.usr_clients
      → length ids ≤ fuel
      → All IsUser ids
      → (idx : ℕ) × (subscribed_from services fuel ids s
          ≡ returned (record s { usr_client_index = idx }, likes_of user_of ids))
  unfolding subscribed_from
  subscribed_from_lem fuel [] s reliable nonzero pool enough known = (s.usr_client_index, refl)
  subscribed_from_lem zero (id ∷ ids) s reliable nonzero pool enough known = absurd (omega arith)
  subscribed_from_lem (suc fuel) (id ∷ ids) s reliable nonzero pool enough known =
      let (conn, idx, got) = get_user_client_lem s pool in
      let size = s.options.max_batch_size in
      let batch = take size (id ∷ ids) in
      let answer =
        reliable.users conn idx batch (omega (arith, length-take size (id ∷ ids)))
          (omega (arith, length-take size (id ∷ ids))) (All-take IsUser size (id ∷ ids) known) in
      let (last, more) =
        subscribed_from_lem fuel (drop size (id ∷ ids)) (record s { usr_client_index = idx })
          reliable nonzero pool (omega (arith, length-drop size (id ∷ ids)))
          (All-drop IsUser size (id ∷ ids) known) in
      (
        last,
        rw (got, more, answer)
            (ap (λ l. returned (record s { usr_client_index = last }, l))
              (liked_videos-append user_of batch (drop size (id ∷ ids))
                ∙ ap (likes_of user_of) (take-append-drop size (id ∷ ids)))),
      )

  pub video_info_from_lem :
      (fuel : ℕ) (videos : List VideoInfo) (ids : List ℕ) (s : VideoRecServiceServer Conn)
      → Serves s
      → 0 < s.options.max_batch_size
      → 0 < length s.vid_clients
      → length ids ≤ fuel
      → Distinct ids
      → All IsVideo ids
      → (idx : ℕ) × (video_info_from services fuel videos ids s
          ≡ returned (record s { vid_client_index = idx }, some (videos ++ map video_of ids)))
  unfolding video_info_from
  video_info_from_lem fuel videos [] s reliable nonzero pool enough d known =
      (s.vid_client_index, ap (λ l. returned (s, some l)) (sym (++_nil videos)))
  video_info_from_lem zero videos (id ∷ ids) s reliable nonzero pool enough d known =
      absurd (omega arith)
  video_info_from_lem (suc fuel) videos (id ∷ ids) s reliable nonzero pool enough d known =
      let (conn, idx, got) = get_video_client_lem s pool in
      let size = s.options.max_batch_size in
      let batch = take size (id ∷ ids) in
      let answer =
        reliable.videos conn idx batch (omega (arith, length-take size (id ∷ ids)))
          (omega (arith, length-take size (id ∷ ids))) (take-Distinct size (id ∷ ids) d)
          (All-take IsVideo size (id ∷ ids) known) in
      let (last, more) =
        video_info_from_lem fuel (videos ++ map video_of batch) (drop size (id ∷ ids))
          (record s { vid_client_index = idx }) reliable nonzero pool
          (omega (arith, length-drop size (id ∷ ids))) (drop-Distinct size (id ∷ ids) d)
          (All-drop IsVideo size (id ∷ ids) known) in
      (
        last,
        rw (got, answer, more)
            (ap (λ l. returned (record s { vid_client_index = last }, some l))
              (++_assoc videos (map video_of batch) (map video_of (drop size (id ∷ ids)))
                ∙ ap (λ l. videos ++ l)
                    (sym (map-append video_of batch (drop size (id ∷ ids)))
                      ∙ ap (map video_of) (take-append-drop size (id ∷ ids))))),
      )

-- With a batch size of 0 and a user who is subscribed to anybody, the loop of
-- `getSubscribedVideos` never ends: no amount of fuel lets it return.
pub zero_batches_loop :
    {Conn : Type 0} (services : Services Conn) (fuel id : ℕ) (ids : List ℕ)
    (s : VideoRecServiceServer Conn)
    → s.options.max_batch_size ≡ 0
    → 0 < length s.usr_clients
    → get_subscribed_videos services fuel (id ∷ ids) s ≡ looping
unfolding get_subscribed_videos subscribed_from
zero_batches_loop services zero id ids s size pool = refl
zero_batches_loop services (suc fuel) id ids s size pool =
    let (conn, idx, got) = get_user_client_lem s pool in
    let next = record s { usr_client_index = idx } in
    let more =
      ap (λ n. subscribed_from services fuel (drop n (id ∷ ids)) next) size
      ∙ zero_batches_loop services fuel id ids next size pool in
    rw (got, more)
