-- ===== src/Kv/Client/ReadBack.antt =====
-- A `Set` of the client that reports no error, and the `Get`s after it.
use building_distributed_sys.Prelude.{
  ℕ, zero, suc, ◌+◌, ◌-◌, ◌%◌, ◌<◌, ◌≡◌, refl, subst, ◌⊎◌, inl, inr, String, true, Option, none,
  some, List, [], ◌∷◌, length, get_elem?, get_elem?-lt, lt_of_get_elem?, arith, Option-cases,
  Bool-cases, ◌==◌, ap, ◌∙◌,
}
use building_distributed_sys.Prelude.Int.{ℤ}
use building_distributed_sys.Prelude.Maps.{string_eq, nat_eq}
use building_distributed_sys.Kv.ShardMap.{
  ShardMapState, same_name, contains, nodes_for_shard, get_shard_for_key,
}
use building_distributed_sys.Kv.Server.{GetResponse, miss}
use building_distributed_sys.Kv.Server.Access.{fresh}
use building_distributed_sys.Kv.Server.Retrieve.{rotation}
use building_distributed_sys.Kv.Client.{
  Servers, ClientError, transport, Fate, unreachable, reply_lost, delivered, broadcast, to_ms,
  get_at, get_from, client_get, client_write, client_set,
}
use building_distributed_sys.Kv.Client.Written.{HasValue, setter, broadcast-HasValue}

module _ (sum32 : String → ℕ) (st : ShardMapState) (clock : String → ℕ) (key value : String)
    (ttl : ℤ) where
  -- What a `Get` of the client may answer: the value of some node of the shard that was reached, or,
  -- where no node of the shard was, an error of the transport.
  abbrev pub IsReadBack :
      (String → Fate) → List String → ℕ → GetResponse → Option ClientError → Type 0
  IsReadBack fate nodes later response error =
      ((error ≡ none)
        × ((node : String) × (contains node nodes ≡ true)
            × (fate node ≡ delivered)
            × (response ≡ fresh value ttl (later - clock node))))
      ⊎ ((response ≡ miss)
          × ((e : String) × (error ≡ some (transport e)))
          × ((node : String) → contains node nodes ≡ true → ¬ (fate node ≡ delivered)))

  contains-get_elem? :
      (nodes : List String) (i : ℕ) (node : String)
      → get_elem? nodes i ≡ some node
      → contains node nodes ≡ true
  unfolding contains
  contains-get_elem? [] i node h = ground arith
  contains-get_elem? (n ∷ ns) zero node h = ground (arith, string_eq.beq_iff n node)
  contains-get_elem? (n ∷ ns) (suc i) node h = ground (arith, contains-get_elem? ns i node h)

  get_elem?-contains :
      (nodes : List String) (node : String)
      → contains node nodes ≡ true
      → (j : ℕ) × (get_elem? nodes j ≡ some node)
  unfolding contains
  get_elem?-contains [] node h = absurd (ground arith)
  get_elem?-contains (n ∷ ns) node h = elim (Bool-cases (same_name n node)) [
    | inl same ↦ (0, ground (arith, string_eq.beq_iff n node))
    | inr other ↦ let (j, at) = get_elem?-contains ns node ground arith in (suc j, at)
  ]

  get_at-HasValue :
      (fate : String → Fate) (later : ℕ) (node : String) (servers : Servers)
      → HasValue sum32 st clock key value ttl node (servers node)
      → (¬ (fate node ≡ delivered)
          × ((e : String) × (get_at sum32 st fate later key node servers
                ≡ some (inl (transport e)))))
        ⊎ ((fate node ≡ delivered)
            × (get_at sum32 st fate later key node servers
                ≡ some (inr (fresh value ttl (later - clock node)))))
  unfolding get_at
  get_at-HasValue fate later node servers v = go (fate node) refl
    where
      go :
          (f : Fate)
          → fate node ≡ f
          → (¬ (fate node ≡ delivered)
              × ((e : String) × (get_at sum32 st fate later key node servers
                    ≡ some (inl (transport e)))))
            ⊎ ((fate node ≡ delivered)
                × (get_at sum32 st fate later key node servers
                    ≡ some (inr (fresh value ttl (later - clock node)))))
      go (unreachable e) q = inl (λ h. ground arith, (e, ground arith))
      go (reply_lost e) q = inl (λ h. ground arith, (e, ground arith))
      go delivered q = inr (q, ground (arith, v later))

  -- The nodes of the rotation before offset `i` were not reached.
  abbrev Missed : (String → Fate) → List String → ℕ → ℕ → Type 0
  Missed fate nodes start i =
      (k : ℕ) (node : String)
      → k < i
      → get_elem? nodes ((k + start) % length nodes) ≡ some node
      → ¬ (fate node ≡ delivered)

  Missed-suc :
      (fate : String → Fate) (nodes : List String) (start i : ℕ) (node : String)
      → get_elem? nodes ((i + start) % length nodes) ≡ some node
      → ¬ (fate node ≡ delivered)
      → Missed fate nodes start i
      → Missed fate nodes start (suc i)
  Missed-suc fate nodes start i node at silent missed k other lt there reached =
      elim (Bool-cases (k == i)) [
        | inl same ↦ silent ground arith
        | inr differs ↦ missed k other (ground arith) there reached
      ]

  -- A whole rotation leaves out no node.
  Missed-all :
      (fate : String → Fate) (nodes : List String) (start : ℕ)
      → start < length nodes
      → Missed fate nodes start (length nodes)
      → (node : String) → contains node nodes ≡ true
      → ¬ (fate node ≡ delivered)
  Missed-all fate nodes start lt missed node here =
      let (j, at) = get_elem?-contains nodes node here in
      let (k, le, turn) = rotation (length nodes) start j lt (lt_of_get_elem? nodes j at) in
      let swap : k + start ≡ start + k = omega arith in
      missed k node le
        (ap (λ n. get_elem? nodes (n % length nodes)) swap ∙ ap (get_elem? nodes) turn ∙ at)

  get_from-IsReadBack :
      (fate : String → Fate) (later : ℕ) (servers : Servers) (nodes : List String)
      (start i rounds : ℕ) (last_err : Option ClientError)
      → ((node : String)
          → contains node nodes ≡ true
          → HasValue sum32 st clock key value ttl node (servers node))
      → start < length nodes
      → i + rounds ≡ length nodes
      → Missed fate nodes start i
      → (0 < rounds) ⊎ ((e : String) × (last_err ≡ some (transport e)))
      → (response : GetResponse) × (error : Option ClientError) × (get_from sum32 st fate later key
            servers nodes start i rounds last_err
          ≡ some (response, error))
        × IsReadBack fate nodes later response error
  unfolding get_from
  get_from-IsReadBack fate later servers nodes start i zero last_err v lt all missed (inl more) =
      absurd (omega arith)
  get_from-IsReadBack fate later servers nodes start i zero last_err v lt all missed (inr failed) =
      let whole : i ≡ length nodes = omega arith in
      (
        miss,
        last_err,
        refl,
        inr (
          refl,
          failed,
          Missed-all fate nodes start lt (subst (Missed fate nodes start) whole missed),
        ),
      )
  get_from-IsReadBack fate later servers nodes start i (suc rounds) last_err v lt all missed more =
      let (node, at) = get_elem?-lt nodes ((i + start) % length nodes) (omega arith) in
      let here = contains-get_elem? nodes ((i + start) % length nodes) node at in
      elim (get_at-HasValue fate later node servers (v node here)) [
        | inl (silent, (e, failed)) ↦
            let (response, error, h, result) =
              get_from-IsReadBack fate later servers nodes start (suc i) rounds (some (transport e))
                v lt (omega arith) (Missed-suc fate nodes start i node at silent missed)
                (inr (e, refl)) in
            (response, error, ground arith, result)
        | inr (reached, answered) ↦ (
          fresh value ttl (later - clock node),
          none,
          ground arith,
          inl (refl, (node, here, reached, refl)),
        )
      ]

-- When the client's `Set` of a key reports no error, and its goroutines reach every node of the
-- shard in whatever order, every later `Get` of the key that starts at some node of the shard, with
-- no other call on the servers in between, returns without a panic: it gives the value that was set, until its lifetime has passed at the
-- node that answers, which is one that it reached; or it fails with an error of the transport, and
-- then no node of the shard could be reached.
pub set_then_get :
    (sum32 : String → ℕ) (st : ShardMapState) (clock : String → ℕ) (key value : String) (ttl : ℤ)
    (writes reads : String → Fate) (order : List String → List String) (servers after : Servers)
    (shard later start : ℕ)
    → client_set sum32 st writes order clock key value ttl servers ≡ some (after, none)
    → get_shard_for_key sum32 key st.num_shards ≡ some shard
    → ((node : String)
        → contains node (nodes_for_shard shard st) ≡ true
        → contains node (order (nodes_for_shard shard st)) ≡ true)
    → start < length (nodes_for_shard shard st)
    → (response : GetResponse) × (error : Option ClientError) × (client_get sum32 st reads later key
          start after
        ≡ some (response, error))
      × IsReadBack sum32 st clock key value
          (to_ms ttl)
          reads
          (nodes_for_shard shard st)
          later
          response
          error
unfolding client_set client_write client_get
set_then_get sum32 st clock key value ttl writes reads order servers after shard later start h hash
      all lt =
    let nodes = nodes_for_shard shard st in
    elim (Option-cases
      (broadcast (setter sum32 st clock key value (to_ms ttl)) writes (order nodes) servers)) [
        | inl panics ↦ ground arith
        | inr ((final, errors), sent) ↦
            let no_errors : errors ≡ [] = ground arith in
            let is : final ≡ after = grind arith in
            let (response, error, got, result) =
              get_from-IsReadBack sum32 st clock key value (to_ms ttl) reads later after nodes start
                0 (length nodes) none
                (λ node here.
                  subst (λ s. HasValue sum32 st clock key value (to_ms ttl) node (s node)) is
                    (broadcast-HasValue sum32 st clock key value (to_ms ttl) writes node
                      (order nodes) servers final
                      (subst
                        (λ x.
                          broadcast (setter sum32 st clock key value (to_ms ttl)) writes
                            (order nodes) servers
                          ≡ some (final, x))
                        no_errors sent)
                      (all node here)))
                lt (omega arith) (λ k node none_yet. absurd (omega arith)) (inl (omega arith)) in
            (response, error, ground arith, result)
      ]
