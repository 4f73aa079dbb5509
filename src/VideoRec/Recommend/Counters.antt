-- ===== src/VideoRec/Recommend/Counters.antt =====
-- The counters of the recommendation service: what a request leaves in `GetStats`.
use building_distributed_sys.Prelude.{
  add64, ℕ, zero, suc, ◌^◌, ◌<◌, ◌≡◌, ◌∙◌, subst, true, false, Option, none, some, List, [], ◌∷◌,
  ◌++◌, take, drop, if◌then◌else◌, Bool-cases, Option-cases, inl, inr, arith,
}
use building_distributed_sys.Prelude.Int.{ℤ}
use building_distributed_sys.VideoRec.Run.{Run, returned, ◌>>=◌, >>=-eq-returned}
use building_distributed_sys.VideoRec.Users.{UserInfo}
use building_distributed_sys.VideoRec.Videos.{VideoInfo}
use building_distributed_sys.VideoRec.Server.{
  VideoRecServiceServer, Services, deduplicate, limited, get_user_client, get_video_client,
  subscribed_from, get_subscribed_videos, video_info_from, get_video_info,
}
use building_distributed_sys.VideoRec.Recommend.{
  GetTopVideosRequest, GetTopVideosResponse, handle_fallback, count_error, enter, leave,
  top_of_user, serve, get_top_videos, get_stats,
}

module _ {Conn : Type 0} where
  -- Only the connections that come next differ.
  abbrev Keeps : VideoRecServiceServer Conn → VideoRecServiceServer Conn → Type 0
  Keeps s t = (get_stats t ≡ get_stats s) × (t.options ≡ s.options)

  get_user_client-Keeps :
      (s : VideoRecServiceServer Conn) (r : VideoRecServiceServer Conn × Conn × ℕ)
      → get_user_client s ≡ returned r
      → Keeps s r.0
  unfolding get_user_client get_stats
  get_user_client-Keeps s r h = ground arith

  get_video_client-Keeps :
      (s : VideoRecServiceServer Conn) (r : VideoRecServiceServer Conn × Conn × ℕ)
      → get_video_client s ≡ returned r
      → Keeps s r.0
  unfolding get_video_client get_stats
  get_video_client-Keeps s r h = ground arith

  subscribed_from-Keeps :
      (services : Services Conn) (fuel : ℕ) (ids : List ℕ) (s : VideoRecServiceServer Conn)
      (r : VideoRecServiceServer Conn × List ℕ)
      → subscribed_from services fuel ids s ≡ returned r
      → Keeps s r.0
  unfolding subscribed_from
  subscribed_from-Keeps services fuel [] s r h = ground arith
  subscribed_from-Keeps services zero (id ∷ ids) s r h = ground arith
  subscribed_from-Keeps services (suc fuel) (id ∷ ids) s r h =
      let ((s1, conn, idx), got, rest) = >>=-eq-returned (get_user_client s) _ h in
      let ((s2, more), looped, last) =
        >>=-eq-returned
          (subscribed_from services fuel (drop s.options.max_batch_size (id ∷ ids)) s1) _ rest in
      let first = get_user_client-Keeps s (s1, conn, idx) got in
      let second =
        subscribed_from-Keeps services fuel (drop s.options.max_batch_size (id ∷ ids)) s1 (s2, more)
          looped in
      ground arith

  video_info_from-Keeps :
      (services : Services Conn) (fuel : ℕ) (videos : List VideoInfo) (ids : List ℕ)
      (s : VideoRecServiceServer Conn) (r : VideoRecServiceServer Conn × Option (List VideoInfo))
      → video_info_from services fuel videos ids s ≡ returned r
      → Keeps s r.0
  unfolding video_info_from
  video_info_from-Keeps services fuel videos [] s r h = ground arith
  video_info_from-Keeps services zero videos (id ∷ ids) s r h = ground arith
  video_info_from-Keeps services (suc fuel) videos (id ∷ ids) s r h =
      let ((s1, conn, idx), got, rest) = >>=-eq-returned (get_video_client s) _ h in
      let first = get_video_client-Keeps s (s1, conn, idx) got in
      elim (Option-cases (services.get_video conn idx (take s.options.max_batch_size (id ∷ ids)))) [
        | inl fails ↦ ground arith
        | inr (batch, answers) ↦
            let second =
              video_info_from-Keeps services fuel (videos ++ batch)
                (drop s.options.max_batch_size (id ∷ ids)) s1 r (ground arith) in
            ground arith
      ]

  -- What a request that has been entered adds to the counters, by its response.
  abbrev pub Counted :
      VideoRecServiceServer Conn → VideoRecServiceServer Conn → Option GetTopVideosResponse → Type 0
  Counted s t none =
      (s.options.disable_fallback ≡ true)
      × (t.total_errs ≡ add64 s.total_errs 1)
      × (t.total_usr_serv_errs ≡ add64 s.total_usr_serv_errs 1)
      × (t.total_stale_resp ≡ s.total_stale_resp)
  Counted s t (some response) =
      (t.total_errs ≡ s.total_errs)
      × (t.total_usr_serv_errs ≡ s.total_usr_serv_errs)
      × (t.total_stale_resp
          ≡ (if response.stale_response then add64 s.total_stale_resp 1 else s.total_stale_resp))

  abbrev Rest : VideoRecServiceServer Conn → VideoRecServiceServer Conn → Type 0
  Rest s t =
      (t.total_reqs ≡ s.total_reqs)
      × (t.total_active_reqs ≡ s.total_active_reqs)
      × (t.total_vid_serv_errs ≡ s.total_vid_serv_errs)

  fallback-Counted :
      (limit : ℤ) (s s1 t : VideoRecServiceServer Conn) (r : Option GetTopVideosResponse)
      → Keeps s s1
      → handle_fallback limit (count_error s1) ≡ returned (t, r)
      → Counted s t r × Rest s t
  unfolding handle_fallback count_error get_stats
  fallback-Counted limit s s1 t none (stats, options) h =
      elim (Bool-cases s1.options.disable_fallback) [
        | inl disabled ↦ ground arith
        | inr enabled ↦ ground arith
      ]
  fallback-Counted limit s s1 t (some response) (stats, options) h =
      elim (Bool-cases s1.options.disable_fallback) [
        | inl disabled ↦ ground arith
        | inr enabled ↦ ground arith
      ]

  abbrev answered :
      ℤ
      → ℕ
      → List VideoInfo
      → VideoRecServiceServer Conn
      → Run (VideoRecServiceServer Conn × Option GetTopVideosResponse)
  answered limit latency videos s = do
    top ← limited limit videos
    returned (
      record s { total_latency = add64 s.total_latency latency },
      some (record { videos = top; stale_response = false }),
    )

  answer-Counted :
      (limit : ℤ) (latency : ℕ) (videos : List VideoInfo) (s s1 t : VideoRecServiceServer Conn)
      (r : Option GetTopVideosResponse)
      → Keeps s s1
      → answered limit latency videos s1 ≡ returned (t, r)
      → Counted s t r × Rest s t
  unfolding get_stats
  answer-Counted limit latency videos s s1 t none (stats, options) h = ground arith
  answer-Counted limit latency videos s s1 t (some response) (stats, options) h = ground arith

  Counted-Keeps :
      (s s1 t : VideoRecServiceServer Conn) (r : Option GetTopVideosResponse)
      → Keeps s s1
      → Counted s1 t r × Rest s1 t
      → Counted s t r × Rest s t
  unfolding get_stats
  Counted-Keeps s s1 t none (stats, options) h = ground arith
  Counted-Keeps s s1 t (some response) (stats, options) h = ground arith

  top_of_user-Counted :
      (rank : UserInfo → List VideoInfo → List VideoInfo) (services : Services Conn)
      (fuel latency : ℕ) (limit : ℤ) (user : UserInfo) (s t : VideoRecServiceServer Conn)
      (r : Option GetTopVideosResponse)
      → top_of_user rank services fuel latency limit user s ≡ returned (t, r)
      → Counted s t r × Rest s t
  unfolding top_of_user get_subscribed_videos get_video_info
  top_of_user-Counted rank services fuel latency limit user s t r h =
      let ((s1, liked), one, rest1) =
        >>=-eq-returned (subscribed_from services fuel user.subscribed_to s) _ h in
      let ((s2, infos), two, rest2) =
        >>=-eq-returned (video_info_from services fuel [] (deduplicate liked) s1) _ rest1 in
      let k1 = subscribed_from-Keeps services fuel user.subscribed_to s (s1, liked) one in
      let k2 = video_info_from-Keeps services fuel [] (deduplicate liked) s1 (s2, infos) two in
      elim (Option-cases infos) [
        | inl failed ↦ fallback-Counted limit s s2 t r (k2.0 ∙ k1.0, k2.1 ∙ k1.1) (ground arith)
        | inr (videos, found) ↦
            answer-Counted limit latency (rank user videos) s s2 t r (k2.0 ∙ k1.0, k2.1 ∙ k1.1)
              (ground arith)
      ]

  serve-Counted :
      (rank : UserInfo → List VideoInfo → List VideoInfo) (services : Services Conn)
      (fuel latency : ℕ) (req : GetTopVideosRequest) (s t : VideoRecServiceServer Conn)
      (r : Option GetTopVideosResponse)
      → serve rank services fuel latency req s ≡ returned (t, r)
      → Counted s t r × Rest s t
  unfolding serve
  serve-Counted rank services fuel latency req s t r h =
      let ((s1, conn, idx), got, rest) = >>=-eq-returned (get_user_client s) _ h in
      let k = get_user_client-Keeps s (s1, conn, idx) got in
      go s1 (services.get_user conn idx (req.user_id ∷ [])) k rest
    where
      go :
          (s1 : VideoRecServiceServer Conn) (found : Option (List UserInfo))
          → Keeps s s1
          → elim found [
            | none ↦ handle_fallback req.limit (count_error s1)
            | some [] ↦ handle_fallback req.limit (count_error s1)
            | some (user ∷ users) ↦ top_of_user rank services fuel latency req.limit user s1
          ]
            ≡ returned (t, r)
          → Counted s t r × Rest s t
      go s1 none k rest = fallback-Counted req.limit s s1 t r k rest
      go s1 (some []) k rest = fallback-Counted req.limit s s1 t r k rest
      go s1 (some (user ∷ users)) k rest =
          Counted-Keeps s s1 t r k
            (top_of_user-Counted rank services fuel latency req.limit user s1 t r rest)

  left_lem :
      (s s1 : VideoRecServiceServer Conn) (r : Option GetTopVideosResponse)
      → s.total_active_reqs < 2 ^ 64
      → Counted (enter s) s1 r × Rest (enter s) s1
      → Counted s (leave s1) r
        × ((leave s1).total_reqs ≡ add64 s.total_reqs 1)
        × ((leave s1).total_active_reqs ≡ s.total_active_reqs)
        × ((leave s1).total_vid_serv_errs ≡ s.total_vid_serv_errs)
  unfolding enter leave
  left_lem s s1 none small h = (h.0, h.1.0, omega (arith, h.1.1), h.1.2)
  left_lem s s1 (some response) small h = (h.0, h.1.0, omega (arith, h.1.1), h.1.2)

  -- Every request that returns is counted once and is no longer active. It answers with an error
  -- only if fallback is disabled, and then counts one error of the user service, whichever
  -- service failed; a stale answer counts one stale response; errors of the video service are
  -- never counted.
  pub get_top_videos-Counted :
      (rank : UserInfo → List VideoInfo → List VideoInfo) (services : Services Conn)
      (fuel latency : ℕ) (req : GetTopVideosRequest) (s t : VideoRecServiceServer Conn)
      (r : Option GetTopVideosResponse)
      → s.total_active_reqs < 2 ^ 64
      → get_top_videos rank services fuel latency req s ≡ returned (t, r)
      → Counted s t r
        × (t.total_reqs ≡ add64 s.total_reqs 1)
        × (t.total_active_reqs ≡ s.total_active_reqs)
        × (t.total_vid_serv_errs ≡ s.total_vid_serv_errs)
  unfolding get_top_videos
  get_top_videos-Counted rank services fuel latency req s t r small h =
      let ((s1, response), served, rest) =
        >>=-eq-returned (serve rank services fuel latency req (enter s)) _ h in
      let counted = serve-Counted rank services fuel latency req (enter s) s1 response served in
      let same : response ≡ r = ground arith in
      let out : leave s1 ≡ t = grind arith in
      subst
        (λ x.
          Counted s x r
          × (x.total_reqs ≡ add64 s.total_reqs 1)
          × (x.total_active_reqs ≡ s.total_active_reqs)
          × (x.total_vid_serv_errs ≡ s.total_vid_serv_errs))
        out
        (left_lem s s1 r small
          (subst (λ x. Counted (enter s) s1 x × Rest (enter s) s1) same counted))
