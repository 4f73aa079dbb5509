-- ===== src/VideoRec/Server/Batches.antt =====
-- What the services behind owe a batch, and the laws of cutting a list into batches.
use building_distributed_sys.Prelude.{
  add64, ℕ, zero, suc, ◌%◌, ◌≤◌, ◌<◌, ◌≡◌, refl, ◌∙◌, ap, false, some, List, [], ◌∷◌, ◌++◌, map,
  length, get_elem?-lt, take, drop, All, arith,
}
use building_distributed_sys.VideoRec.Run.{returned}
use building_distributed_sys.VideoRec.Users.{UserInfo}
use building_distributed_sys.VideoRec.Videos.{VideoInfo, member}
use building_distributed_sys.VideoRec.Server.{
  VideoRecServiceServer, Services, pick, get_user_client, get_video_client, liked_videos,
}

-- No id stands twice.
abbrev pub Distinct : List ℕ → Type 0
Distinct [] = Unit
Distinct (x ∷ xs) = (member x xs ≡ false) × Distinct xs

abbrev pub likes_of : (ℕ → UserInfo) → List ℕ → List ℕ
likes_of user_of [] = []
likes_of user_of (id ∷ ids) = (user_of id).liked_videos ++ likes_of user_of ids

-- The other services answer every batch within the limit with what they know of each id.
pub record Reliable {Conn : Type 0} (services : Services Conn) (size : ℕ) (user_of : ℕ → UserInfo)
    (video_of : ℕ → VideoInfo) (IsUser IsVideo : ℕ → Type 0) : Type 0 where
  pub users :
      (conn : Conn) (idx : ℕ) (ids : List ℕ)
      → 0 < length ids
      → length ids ≤ size
      → All IsUser ids
      → services.get_user conn idx ids ≡ some (map user_of ids)
  pub videos :
      (conn : Conn) (idx : ℕ) (ids : List ℕ)
      → 0 < length ids
      → length ids ≤ size
      → Distinct ids
      → All IsVideo ids
      → services.get_video conn idx ids ≡ some (map video_of ids)

module _ {A : Type 0} where
  pub All-take : (P : A → Type 0) (n : ℕ) (xs : List A) → All P xs → All P (take n xs)
  All-take P zero xs h = tt
  All-take P (suc n) [] h = tt
  All-take P (suc n) (x ∷ xs) h = (h.0, All-take P n xs h.1)

  pub All-drop : (P : A → Type 0) (n : ℕ) (xs : List A) → All P xs → All P (drop n xs)
  All-drop P zero xs h = h
  All-drop P (suc n) [] h = tt
  All-drop P (suc n) (x ∷ xs) h = All-drop P n xs h.1

member-take : (x n : ℕ) (xs : List ℕ) → member x xs ≡ false → member x (take n xs) ≡ false
unfolding member
member-take x zero xs h = refl
member-take x (suc n) [] h = refl
member-take x (suc n) (y ∷ ys) h = ground (arith, member-take x n ys)

pub take-Distinct : (n : ℕ) (xs : List ℕ) → Distinct xs → Distinct (take n xs)
take-Distinct zero xs d = tt
take-Distinct (suc n) [] d = tt
take-Distinct (suc n) (x ∷ xs) d = (member-take x n xs d.0, take-Distinct n xs d.1)

pub drop-Distinct : (n : ℕ) (xs : List ℕ) → Distinct xs → Distinct (drop n xs)
drop-Distinct zero xs d = d
drop-Distinct (suc n) [] d = tt
drop-Distinct (suc n) (x ∷ xs) d = drop-Distinct n xs d.1

pub ++_assoc {ℓ} : {A : Type ℓ} (xs ys zs : List A) → (xs ++ ys) ++ zs ≡ xs ++ (ys ++ zs)
++_assoc [] ys zs = refl
++_assoc (x ∷ xs) ys zs = ap (◌∷◌ x) (++_assoc xs ys zs)

pub ++_nil {ℓ} : {A : Type ℓ} (xs : List A) → xs ++ [] ≡ xs
++_nil [] = refl
++_nil (x ∷ xs) = ap (◌∷◌ x) (++_nil xs)

pub map-append :
    {A B : Type 0} (f : A → B) (xs ys : List A) → map f (xs ++ ys) ≡ map f xs ++ map f ys
map-append f [] ys = refl
map-append f (x ∷ xs) ys = ap (◌∷◌ (f x)) (map-append f xs ys)

pub liked_videos-append :
    (user_of : ℕ → UserInfo) (xs ys : List ℕ)
    → liked_videos (some (map user_of xs)) ++ likes_of user_of ys ≡ likes_of user_of (xs ++ ys)
unfolding liked_videos
liked_videos-append user_of [] ys = refl
liked_videos-append user_of (x ∷ xs) ys =
    ++_assoc (user_of x).liked_videos (liked_videos (some (map user_of xs))) (likes_of user_of ys)
    ∙ ap (λ l. (user_of x).liked_videos ++ l) (liked_videos-append user_of xs ys)

module _ {Conn : Type 0} where
  pick_lem :
      (idx : ℕ) (clients : List Conn)
      → 0 < length clients
      → (c : Conn) × (pick idx clients ≡ returned c)
  unfolding pick
  pick_lem idx clients h =
      let (c, at) = get_elem?-lt clients (idx % length clients) (omega arith) in (c, ground arith)

  pub get_user_client_lem :
      (s : VideoRecServiceServer Conn)
      → 0 < length s.usr_clients
      → (conn : Conn) × (idx : ℕ) × (get_user_client s
          ≡ returned (record s { usr_client_index = idx }, conn, idx))
  unfolding get_user_client
  get_user_client_lem s h =
      let (c, picked) = pick_lem (add64 s.usr_client_index 1) s.usr_clients h in
      (c, add64 s.usr_client_index 1, ground arith)

  pub get_video_client_lem :
      (s : VideoRecServiceServer Conn)
      → 0 < length s.vid_clients
      → (conn : Conn) × (idx : ℕ) × (get_video_client s
          ≡ returned (record s { vid_client_index = idx }, conn, idx))
  unfolding get_video_client
  get_video_client_lem s h =
      let (c, picked) = pick_lem (add64 s.vid_client_index 1) s.vid_clients h in
      (c, add64 s.vid_client_index 1, ground arith)
