-- ===== src/Kv/Client/Written.antt =====
-- What the client's `Set` leaves at each server that it wrote to.
use building_distributed_sys.Prelude.{
  ℕ, ◌-◌, ◌≡◌, ◌≢◌, refl, subst, ◌∙◌, ◌⊎◌, inl, inr, String, true, Option, none, some, List, [],
  ◌∷◌, if◌then◌else◌, arith, Bool-cases, Option-cases,
}
use building_distributed_sys.Prelude.Int.{ℤ}
use building_distributed_sys.Prelude.Maps.{string_eq, nat_eq, lookup, beq_refl}
use building_distributed_sys.Kv.ShardMap.{ShardMapState, same_name, contains, get_shard_for_key}
use building_distributed_sys.Kv.Server.{Code, ShardData, KvServer, to_int32, get, set_value}
use building_distributed_sys.Kv.Server.Access.{fresh, IsHosted, get-set_value, failed_write}
use building_distributed_sys.Kv.Client.{
  Servers, ClientError, Fate, unreachable, reply_lost, delivered, write_at, broadcast,
}

module _ (sum32 : String → ℕ) (st : ShardMapState) (clock : String → ℕ) (key value : String)
    (ttl : ℤ) where
  -- The server of the node answers with the value that was set there at the node's time.
  abbrev pub HasValue : String → KvServer → Type 0
  HasValue node s =
      (later : ℕ)
      → get sum32 st.num_shards later key s ≡ some (fresh value ttl (later - clock node), none)

  abbrev pub setter : String → KvServer → Option (KvServer × Option Code)
  setter node s = set_value sum32 st.num_shards (clock node) key value ttl s

  set-IsHosted :
      (node : String) (s t : KvServer)
      → setter node s ≡ some (t, none)
      → (contents : ShardData) × IsHosted sum32 st.num_shards key contents s
  unfolding set_value
  set-IsHosted node s t h = elim (Option-cases (get_shard_for_key sum32 key st.num_shards)) [
    | inl panics ↦ ground arith
    | inr (shard, hash) ↦ elim (Option-cases (lookup (to_int32 shard) s.available_shards)) [
      | inl gone ↦ ground arith
      | inr (contents, held) ↦ (contents, (shard, ground arith, hash, held))
    ]
  ]

  set-HasValue : (node : String) (s t : KvServer) → setter node s ≡ some (t, none) → HasValue node t
  set-HasValue node s t h =
      let (contents, hosted) = set-IsHosted node s t h in
      let (t', done, reads) =
        get-set_value sum32 st.num_shards (clock node) key value ttl contents s hosted in
      λ later. ground (arith, reads later key, beq_refl key)

  set_keeps-HasValue :
      (node : String) (s t : KvServer) (code : Option Code)
      → setter node s ≡ some (t, code)
      → HasValue node s
      → HasValue node t
  set_keeps-HasValue node s t none h v = set-HasValue node s t h
  set_keeps-HasValue node s t (some e) h v = λ later.
      ground
        (arith, v later, failed_write sum32 st.num_shards (clock node) key value ttl s t e (inl h))

  -- The server of `m` after a write at `node`, which changes that node's server or nothing.
  abbrev Written : String → String → Servers → Servers → Option ClientError → Type 0
  Written m node servers next e =
      ((next m ≡ servers m) × (e ≢ none))
      ⊎ ((t : KvServer) × (code : Option Code) × (setter node (servers node) ≡ some (t, code))
          × (next m ≡ (if same_name m node then t else servers m))
          × ((e ≡ none) → code ≡ none))

  write_at-Written :
      (fate : String → Fate) (m node : String) (servers next : Servers) (e : Option ClientError)
      (f : Fate)
      → fate node ≡ f
      → write_at setter fate node servers ≡ some (next, e)
      → Written m node servers next e
  unfolding write_at
  write_at-Written fate m node servers next e (unreachable x) q h =
      inl (grind arith, λ none_e. ground arith)
  write_at-Written fate m node servers next e (reply_lost x) q h =
      elim (Option-cases (setter node (servers node))) [
        | inl panics ↦ ground arith
        | inr ((t, code), done) ↦ inr (t, code, done, grind arith, λ none_e. ground arith)
      ]
  write_at-Written fate m node servers next e delivered q h =
      elim (Option-cases (setter node (servers node))) [
        | inl panics ↦ ground arith
        | inr ((t, code), done) ↦ inr (t, code, done, grind arith, λ none_e. ground arith)
      ]

  write_keeps-HasValue :
      (fate : String → Fate) (m node : String) (servers next : Servers) (e : Option ClientError)
      → write_at setter fate node servers ≡ some (next, e)
      → HasValue m (servers m)
      → HasValue m (next m)
  write_keeps-HasValue fate m node servers next e h v later =
      elim (write_at-Written fate m node servers next e (fate node) refl h) [
        | inl (same, failed) ↦ ground (arith, v later)
        | inr (t, code, done, there, ok) ↦ elim (Bool-cases (same_name m node)) [
          | inl here ↦
              let is : m ≡ node = (string_eq.beq_iff m node).0 here in
              ground (
                arith,
                set_keeps-HasValue node (servers node) t code done
                    (subst (λ n. HasValue n (servers n)) is v) later,
              )
          | inr other ↦ ground (arith, v later)
        ]
      ]

  write-HasValue :
      (fate : String → Fate) (node : String) (servers next : Servers)
      → write_at setter fate node servers ≡ some (next, none)
      → HasValue node (next node)
  write-HasValue fate node servers next h later =
      elim (write_at-Written fate node node servers next none (fate node) refl h) [
        | inl (same, failed) ↦ absurd (failed refl)
        | inr (t, code, done, there, ok) ↦ ground (
          arith,
          beq_refl node,
          set-HasValue node (servers node) t (done ∙ ground (arith, ok refl)) later,
        )
      ]

  broadcast_keeps-HasValue :
      (fate : String → Fate) (m : String) (nodes : List String) (servers final : Servers)
      (errors : List ClientError)
      → broadcast setter fate nodes servers ≡ some (final, errors)
      → HasValue m (servers m)
      → HasValue m (final m)
  unfolding broadcast
  broadcast_keeps-HasValue fate m [] servers final errors h v = λ later. grind (arith, v later)
  broadcast_keeps-HasValue fate m (node ∷ rest) servers final errors h v =
      elim (Option-cases (write_at setter fate node servers)) [
        | inl panics ↦ ground arith
        | inr ((next, e), one) ↦ elim (Option-cases (broadcast setter fate rest next)) [
          | inl panics ↦ ground arith
          | inr ((last, es), more) ↦ λ later. ground (
            arith,
            broadcast_keeps-HasValue fate m rest next last es more
                (write_keeps-HasValue fate m node servers next e one v) later,
          )
        ]
      ]

  pub broadcast-HasValue :
      (fate : String → Fate) (m : String) (nodes : List String) (servers final : Servers)
      → broadcast setter fate nodes servers ≡ some (final, [])
      → contains m nodes ≡ true
      → HasValue m (final m)
  unfolding broadcast contains
  broadcast-HasValue fate m [] servers final h c = ground arith
  broadcast-HasValue fate m (node ∷ rest) servers final h c =
      elim (Option-cases (write_at setter fate node servers)) [
        | inl panics ↦ ground arith
        | inr ((next, e), one) ↦ elim (Option-cases (broadcast setter fate rest next)) [
          | inl panics ↦ ground arith
          | inr ((last, es), more) ↦
              let no_error : e ≡ none = ground arith in
              let no_errors : es ≡ [] = ground arith in
              elim (Bool-cases (same_name node m)) [
                | inl here ↦ λ later.
                    let at_node = write-HasValue fate node servers next (
                      subst (λ x. write_at setter fate node servers ≡ some (next, x)) no_error
                        one) in
                    let is : node ≡ m = (string_eq.beq_iff node m).0 here in
                    ground (
                      arith,
                      broadcast_keeps-HasValue fate m rest next last es more
                          (subst (λ n. HasValue n (next n)) is at_node) later,
                    )
                | inr other ↦ λ later. ground (
                  arith,
                  broadcast-HasValue fate m rest next last
                      (subst (λ x. broadcast setter fate rest next ≡ some (last, x)) no_errors more)
                      (ground arith) later,
                )
              ]
        ]
      ]
