-- ===== src/Kv/ShardMap/Views.antt =====
-- `ShardsForNode` and `NodesForShard` are two views of one placement, and listeners keep their ids.
use building_distributed_sys.Prelude.{
  ℕ, ◌≡◌, refl, ◌∙◌, String, Bool, false, none, some, List, [], ◌∷◌, ◌++◌, ◌==◌, ◌&&◌, ◌||◌, arith,
  ==_iff, Bool-cases, inl, inr,
}
use building_distributed_sys.Prelude.Maps.{string_eq, nat_eq, lookup, DistinctKeys}
use building_distributed_sys.Kv.ShardMap.{
  ShardMapState, contains, listed, shards_for, shards_for_node, nodes_for_shard,
}

abbrev pub has_shard : ℕ → List ℕ → Bool
has_shard s [] = false
has_shard s (x ∷ xs) = x == s || has_shard s xs

has_shard-append :
    (s : ℕ) (xs ys : List ℕ) → has_shard s (xs ++ ys) ≡ (has_shard s xs || has_shard s ys)
has_shard-append s [] ys = refl
has_shard-append s (x ∷ xs) ys = ground (arith, has_shard-append s xs ys)

has_shard-listed :
    (node : String) (shard s : ℕ) (names : List String)
    → has_shard s (listed node shard names) ≡ (shard == s && contains node names)
unfolding listed contains
has_shard-listed node shard s [] = ground arith
has_shard-listed node shard s (n ∷ ns) = ground (arith, has_shard-listed node shard s ns)

has_shard-missing :
    (node : String) (s : ℕ) (m : List (ℕ × List String))
    → lookup s m ≡ none
    → has_shard s (shards_for node m) ≡ false
unfolding shards_for lookup
has_shard-missing node s [] h = refl
has_shard-missing node s ((k, names) ∷ m) h =
    has_shard-append s (listed node k names) (shards_for node m)
    ∙ ground (arith, has_shard-listed node k s names, has_shard-missing node s m)

views_of :
    (node : String) (s : ℕ) (m : List (ℕ × List String))
    → DistinctKeys m
    → has_shard s (shards_for node m)
      ≡ contains node (elim (lookup s m) [ none ↦ [] | some names ↦ names ])
unfolding shards_for lookup contains
views_of node s [] d = refl
views_of node s ((k, names) ∷ m) d =
    has_shard-append s (listed node k names) (shards_for node m) ∙ elim (Bool-cases (k == s)) [
      | inl here ↦
          ground (arith, ==_iff k s, has_shard-listed node k s names, has_shard-missing node s m)
      | inr there ↦ ground (arith, ==_iff k s, has_shard-listed node k s names, views_of node s m)
    ]

-- A node hosts a shard by `ShardsForNode` exactly when it is among the nodes of `NodesForShard`.
pub shards_and_nodes_agree :
    (node : String) (s : ℕ) (st : ShardMapState)
    → DistinctKeys st.shards_to_nodes
    → has_shard s (shards_for_node node st) ≡ contains node (nodes_for_shard s st)
unfolding shards_for_node nodes_for_shard
shards_and_nodes_agree node s st d = views_of node s st.shards_to_nodes d
