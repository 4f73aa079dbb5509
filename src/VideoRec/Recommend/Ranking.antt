-- ===== src/VideoRec/Recommend/Ranking.antt =====
-- `rankerVids` puts the best score first and loses no video.
use mathlib.Core.Logic.Or
use mathlib.Core.List.{Perm, Mem, mem-cons, not-mem-nil, mem-cons_of_mem, mem-cons_self}
use native.Mathlib.Nat.{ℕ_set}
use mathlib.Core.List.Perm
use building_distributed_sys.Prelude.{
  ℕ, ◌≤◌, ◌≡◌, refl, ◌∙◌, sym, ap, subst, List, [], ◌∷◌, map, All, arith,
}
use building_distributed_sys.VideoRec.Videos.{VideoInfo}
use building_distributed_sys.VideoRec.Recommend.{Scored, score_with, ranker_vids}

module _ (score : VideoInfo → ℕ) where
  -- The scores do not go up.
  abbrev pub Descends : List Scored → Type 0
  Descends [] = Unit
  Descends (x ∷ xs) = All (λ y. y.score ≤ x.score) xs × Descends xs

  abbrev pub Ranked : List VideoInfo → Type 0
  Ranked [] = Unit
  Ranked (x ∷ xs) = All (λ y. score y ≤ score x) xs × Ranked xs

  abbrev ScoredBy : Scored → Type 0
  ScoredBy x = x.score ≡ score x.video

  map-All :
      (P : Scored → Type 0) (Q : VideoInfo → Type 0) (xs : List Scored)
      → ((x : Scored) → ScoredBy x → P x → Q x.video)
      → All ScoredBy xs
      → All P xs
      → All Q (map (λ x. x.video) xs)
  map-All P Q [] f s h = tt
  map-All P Q (x ∷ xs) f s h = (f x s.0 h.0, map-All P Q xs f s.1 h.1)

  map-Ranked : (xs : List Scored) → All ScoredBy xs → Descends xs → Ranked (map (λ x. x.video) xs)
  map-Ranked [] s d = tt
  map-Ranked (x ∷ xs) s d = (
    map-All (λ y. y.score ≤ x.score) (λ y. score y ≤ score x.video) xs
        (λ y scored le. ground (arith, s.0)) s.1 d.0,
    map-Ranked xs s.1 d.1,
  )

  All-of_Mem : (P : Scored → Type 0) (xs : List Scored) → ((a : Scored) → Mem a xs → P a) → All P xs
  All-of_Mem P [] h = tt
  All-of_Mem P (x ∷ xs) h = (h x mem-cons_self, All-of_Mem P xs (λ a m. h a (mem-cons_of_mem x m)))

  mem-ScoredBy :
      (videos : List VideoInfo) {a : Scored} → Mem a (map (score_with score) videos) → ScoredBy a
  mem-ScoredBy [] m = absurd (not-mem-nil m)
  mem-ScoredBy (v ∷ vs) m =
      Or.elim (ℕ_set _ _) (mem-cons.0 m)
        (λ e. ap (λ x. x.score) e ∙ sym (ap (λ x. score x.video) e)) (mem-ScoredBy vs)

  map-score_with :
      (videos : List VideoInfo) → map (λ x. x.video) (map (score_with score) videos) ≡ videos
  map-score_with [] = refl
  map-score_with (v ∷ vs) = ap (◌∷◌ v) (map-score_with vs)

  -- With a sort that rearranges its list so that the scores descend, `rankerVids` gives back the
  -- videos it got, the best score first.
  pub ranker_vids_lem :
      (sort : List Scored → List Scored) (videos : List VideoInfo)
      → ((xs : List Scored) → Perm (sort xs) xs × Descends (sort xs))
      → Perm (ranker_vids sort score videos) videos × Ranked (ranker_vids sort score videos)
  unfolding ranker_vids
  ranker_vids_lem sort videos sorts =
      let scored = map (score_with score) videos in
      let (same, descends) = sorts scored in
      (
        subst (λ l. Perm (map (λ x. x.video) (sort scored)) l) (map-score_with videos)
            (Perm.map (λ x. x.video) same),
        map-Ranked (sort scored)
            (All-of_Mem ScoredBy (sort scored)
              (λ a m. mem-ScoredBy videos ((Perm.mem_iff same).0 m)))
            descends,
      )
