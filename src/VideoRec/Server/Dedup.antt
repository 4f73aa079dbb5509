-- ===== src/VideoRec/Server/Dedup.antt =====
-- `deduplicate` keeps the first of each item.
use building_distributed_sys.Prelude.{
  ℕ, ◌≡◌, refl, ◌∙◌, true, false, not, ◌&&◌, List, [], ◌∷◌, length, ◌≤◌, ==_iff, All, Bool-cases,
  inl, inr, arith,
}
use building_distributed_sys.VideoRec.Videos.{member, deduplicate_from, deduplicate_ids}
use building_distributed_sys.VideoRec.Server.{deduplicate_seen, deduplicate}
use building_distributed_sys.VideoRec.Server.Batches.{Distinct}

member-deduplicate_seen :
    (x : ℕ) (seen items : List ℕ)
    → member x (deduplicate_seen seen items) ≡ (member x items && not (member x seen))
unfolding member deduplicate_seen
member-deduplicate_seen x seen [] = refl
member-deduplicate_seen x seen (item ∷ items) = elim (Bool-cases (member item seen)) [
  | inl old ↦ ground (arith, ==_iff item x, member-deduplicate_seen x seen items)
  | inr new ↦ ground (arith, ==_iff item x, member-deduplicate_seen x (item ∷ seen) items)
]

deduplicate_seen-Distinct : (seen items : List ℕ) → Distinct (deduplicate_seen seen items)
unfolding deduplicate_seen member
deduplicate_seen-Distinct seen [] = tt
deduplicate_seen-Distinct seen (item ∷ items) = elim (Bool-cases (member item seen)) [
  | inl old ↦ ground (arith, deduplicate_seen-Distinct seen items)
  | inr new ↦ ground (
    arith,
    ==_iff item item,
    member-deduplicate_seen item (item ∷ seen) items,
    deduplicate_seen-Distinct (item ∷ seen) items,
  )
]

-- `deduplicate` answers with every item of the list, once.
pub deduplicate-Distinct :
    (items : List ℕ)
    → Distinct (deduplicate items) × ((x : ℕ) → member x (deduplicate items) ≡ member x items)
unfolding deduplicate member
deduplicate-Distinct items =
    (deduplicate_seen-Distinct [] items, λ x. ground (arith, member-deduplicate_seen x [] items))

All-deduplicate_seen :
    (P : ℕ → Type 0) (seen items : List ℕ) → All P items → All P (deduplicate_seen seen items)
unfolding deduplicate_seen
All-deduplicate_seen P seen [] h = tt
All-deduplicate_seen P seen (item ∷ items) h =
    elim (member item seen)
      as (λ b. All P (elim b [
        | true ↦ deduplicate_seen seen items
        | false ↦ item ∷ deduplicate_seen (item ∷ seen) items
      ])) [
        | true ↦ All-deduplicate_seen P seen items h.1
        | false ↦ (h.0, All-deduplicate_seen P (item ∷ seen) items h.1)
      ]

pub All-deduplicate : (P : ℕ → Type 0) (items : List ℕ) → All P items → All P (deduplicate items)
unfolding deduplicate
All-deduplicate P items h = All-deduplicate_seen P [] items h

length-deduplicate_seen :
    (seen items : List ℕ) → length (deduplicate_seen seen items) ≤ length items
unfolding deduplicate_seen
length-deduplicate_seen seen [] = omega arith
length-deduplicate_seen seen (item ∷ items) = elim (Bool-cases (member item seen)) [
  | inl old ↦ ground (arith, length-deduplicate_seen seen items)
  | inr new ↦ ground (arith, length-deduplicate_seen (item ∷ seen) items)
]

pub length-deduplicate : (items : List ℕ) → length (deduplicate items) ≤ length items
unfolding deduplicate
length-deduplicate items = length-deduplicate_seen [] items

same_loops : (set items : List ℕ) → deduplicate_from set items ≡ deduplicate_seen set items
unfolding deduplicate_from deduplicate_seen
same_loops set [] = refl
same_loops set (item ∷ items) = elim (Bool-cases (member item set)) [
  | inl old ↦ ground (arith, same_loops set items)
  | inr new ↦ ground (arith, same_loops (item ∷ set) items)
]

deduplicate_seen_fresh :
    (seen items : List ℕ)
    → Distinct items
    → ((x : ℕ) → member x items ≡ true → member x seen ≡ false)
    → deduplicate_seen seen items ≡ items
unfolding deduplicate_seen member
deduplicate_seen_fresh seen [] d fresh = refl
deduplicate_seen_fresh seen (item ∷ items) d fresh =
    let new = fresh item (ground (arith, ==_iff item item)) in
    let rest =
      deduplicate_seen_fresh (item ∷ seen) items d.1
        (λ x h. ground (arith, ==_iff item x, fresh x, d.0)) in
    ground arith

-- The check of `GetVideo` lets a list through exactly as it is if no id stands twice.
pub deduplicate_ids_lem : (ids : List ℕ) → Distinct ids → deduplicate_ids ids ≡ ids
unfolding deduplicate_ids member
deduplicate_ids_lem ids d = same_loops [] ids ∙ deduplicate_seen_fresh [] ids d (λ x h. refl)
