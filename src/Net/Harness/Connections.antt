-- ===== src/Net/Harness/Connections.antt =====
-- `connect` and `disconnect` keep the network in step with what the harness calls connected.
use building_distributed_sys.Prelude.{
  ℕ, ◌<◌, ◌≡◌, refl, ◌∙◌, sym, ap, subst, Bool, true, false, ◌&&◌, List, [], ◌∷◌, Bool-cases,
  Option-cases, some, ◌==◌, ==_iff, All, inl, inr, if◌then◌else◌, arith,
}
use building_distributed_sys.Net.Network.{Network}
use building_distributed_sys.Net.Harness.{
  Config, put, end_of, enable_ends, disable_ends, outgoing, incoming, connect_peer, disconnect_peer,
  move_peers,
}
use building_distributed_sys.Net.Harness.Links.{
  is_up, enable_ends-other, enable_ends-named, enable_ends-up, enable_ends-returns,
  disable_ends-other, disable_ends-down, disable_ends-named,
}

put_same : (i j : ℕ) (v : Bool) (f : ℕ → Bool) → (i == j) ≡ true → put i v f j ≡ v
unfolding put
put_same i j v f h = ground arith

put_other : (i j : ℕ) (v : Bool) (f : ℕ → Bool) → (i == j) ≡ false → put i v f j ≡ f j
unfolding put
put_other i j v f h = ground arith

and_false : (b : Bool) → (b && false) ≡ false
and_false b = ground arith

differ : (i j : ℕ) → (i == j) ≡ false → i ≡ j → ⊥
differ i j h e = ground arith

both_true : (x y : Bool) → x ≡ true → y ≡ true → (x && y) ≡ true
both_true x y hx hy = ground arith

left_true : (x y : Bool) → (x && y) ≡ true → x ≡ true
left_true x y h = ground arith

right_true : (x y : Bool) → (x && y) ≡ true → y ≡ true
right_true x y h = ground arith

clash : (x y : Bool) → (x && y) ≡ false → x ≡ true → y ≡ true → ⊥
clash x y h hx hy = ground arith

unlinked :
    (x y p q : Bool)
    → (x && (if y then true else q)) ≡ false
    → (y && (if x then true else p)) ≡ false
    → (p && q) ≡ ((if x then true else p) && (if y then true else q))
unlinked x y p q h k = ground arith

-- A link between two other peers is as connected as it was.
kept :
    (i a b : ℕ) (v : Bool) (f : ℕ → Bool)
    → (i == a) ≡ false
    → (i == b) ≡ false
    → (f a && f b) ≡ (put i v f a && put i v f b)
kept i a b v f not_from not_to = sym (
    ap (λ x. x && put i v f b) (put_other i a v f not_from)
    ∙ ap (λ x. f a && x) (put_other i b v f not_to))

link_kept :
    (i a b : ℕ) (f : ℕ → Bool)
    → ((i == a) && put i true f b) ≡ false
    → ((i == b) && put i true f a) ≡ false
    → (f a && f b) ≡ (put i true f a && put i true f b)
unfolding put
link_kept i a b f h k = unlinked (i == a) (i == b) (f a) (f b) h k

module _ {World Command : Type 0} where
  -- No two ends have the same name.
  abbrev pub DistinctEnds : Config World Command → Type 0
  DistinctEnds cfg =
      (i j k l name : ℕ)
      → i < cfg.n
      → j < cfg.n
      → k < cfg.n
      → l < cfg.n
      → outgoing cfg i j ≡ some name
      → outgoing cfg k l ≡ some name
      → (i ≡ k) × (j ≡ l)

  -- An end is enabled just when both of its peers are connected.
  abbrev pub IsLinked : Config World Command → Type 0
  IsLinked cfg =
      (a b name : ℕ)
      → a < cfg.n
      → b < cfg.n
      → outgoing cfg a b ≡ some name
      → is_up name cfg.net ≡ (cfg.connected a && cfg.connected b)

  -- `disconnect` of a peer keeps every end in step.
  pub disconnect_peer-IsLinked :
      (i : ℕ) (cfg : Config World Command)
      → i < cfg.n
      → DistinctEnds cfg
      → IsLinked cfg
      → IsLinked (disconnect_peer i cfg)
  unfolding disconnect_peer put
  disconnect_peer-IsLinked i cfg i_below distinct linked a b name a_below b_below named =
      let first = disable_ends (outgoing cfg i) cfg.n cfg.net in
      elim (Bool-cases (i == a)) [
        | inl from ↦
            disable_ends-down name (incoming cfg i) cfg.n first (
              disable_ends-named name (outgoing cfg i) cfg.n b cfg.net b_below
                (subst (λ k. outgoing cfg k b ≡ some name) (sym ((==_iff i a).0 from)) named))
            ∙ sym
                (ap (λ x. x && put i false cfg.connected b) (put_same i a false cfg.connected from))
        | inr not_from ↦ elim (Bool-cases (i == b)) [
          | inl to ↦
              disable_ends-named name (incoming cfg i) cfg.n a first a_below
                (subst (λ k. outgoing cfg a k ≡ some name) (sym ((==_iff i b).0 to)) named)
              ∙ sym (
                  ap (λ x. put i false cfg.connected a && x) (put_same i b false cfg.connected to)
                  ∙ and_false (put i false cfg.connected a))
          | inr not_to ↦
              disable_ends-other name (incoming cfg i) cfg.n first (λ j below at.
                differ i b not_to
                  (sym (distinct a b j i name a_below b_below below i_below named at).1))
              ∙ disable_ends-other name (outgoing cfg i) cfg.n cfg.net (λ j below at.
                differ i a not_from
                  (sym (distinct a b i j name a_below b_below i_below below named at).0))
              ∙ linked a b name a_below b_below named
              ∙ kept i a b false cfg.connected not_from not_to
        ]
      ]

  connect_lem :
      (i : ℕ) (cfg after : Config World Command)
      → connect_peer i cfg ≡ some after
      → (net net1 : Network World) × (enable_ends
            (outgoing cfg i)
            (put i true cfg.connected)
            cfg.n
            cfg.net
          ≡ some net)
        × (enable_ends (incoming cfg i) (put i true cfg.connected) cfg.n net ≡ some net1)
        × (record cfg { connected = put i true cfg.connected; net = net1 } ≡ after)
  unfolding connect_peer
  connect_lem i cfg after h =
      elim (Option-cases (enable_ends (outgoing cfg i) (put i true cfg.connected) cfg.n cfg.net)) [
        | inl failed ↦ absurd (ground arith)
        | inr (net, first) ↦
            elim (Option-cases
              (enable_ends (incoming cfg i) (put i true cfg.connected) cfg.n net)) [
                | inl failed ↦ absurd (ground arith)
                | inr (net1, second) ↦ (net, net1, first, second, ground arith)
              ]
      ]

  -- One end, where the peer is connected and both loops have run.
  connect_end :
      (i a b name : ℕ) (cfg : Config World Command) (net net1 : Network World)
      → i < cfg.n
      → DistinctEnds cfg
      → IsLinked cfg
      → a < cfg.n
      → b < cfg.n
      → outgoing cfg a b ≡ some name
      → enable_ends (outgoing cfg i) (put i true cfg.connected) cfg.n cfg.net ≡ some net
      → enable_ends (incoming cfg i) (put i true cfg.connected) cfg.n net ≡ some net1
      → is_up name net1 ≡ (put i true cfg.connected a && put i true cfg.connected b)
  connect_end i a b name cfg net net1 i_below distinct linked a_below b_below named first second =
      let only = put i true cfg.connected in
      elim (Bool-cases ((i == a) && only b)) [
        | inl from ↦
            let here = left_true (i == a) (only b) from in
            let on = right_true (i == a) (only b) from in
            enable_ends-up name (incoming cfg i) only cfg.n net net1
              (enable_ends-named name (outgoing cfg i) only cfg.n b cfg.net net b_below on
                (subst (λ k. outgoing cfg k b ≡ some name) (sym ((==_iff i a).0 here)) named) first)
              second
            ∙ sym (both_true (only a) (only b) (put_same i a true cfg.connected here) on)
        | inr not_from ↦ elim (Bool-cases ((i == b) && only a)) [
          | inl to ↦
              let here = left_true (i == b) (only a) to in
              let on = right_true (i == b) (only a) to in
              enable_ends-named name (incoming cfg i) only cfg.n a net net1 a_below on
                (subst (λ k. outgoing cfg a k ≡ some name) (sym ((==_iff i b).0 here)) named) second
              ∙ sym (both_true (only a) (only b) on (put_same i b true cfg.connected here))
          | inr not_to ↦
              enable_ends-other name (incoming cfg i) only cfg.n net net1
                (λ j below on at.
                  let (same_a, same_b) =
                    distinct a b j i name a_below b_below below i_below named at in
                  clash (i == b) (only a) not_to ((==_iff i b).1 (sym same_b))
                    (subst (λ k. only k ≡ true) (sym same_a) on))
                second
              ∙ enable_ends-other name (outgoing cfg i) only cfg.n cfg.net net
                  (λ j below on at.
                    let (same_a, same_b) =
                      distinct a b i j name a_below b_below i_below below named at in
                    clash (i == a) (only b) not_from ((==_iff i a).1 (sym same_a))
                      (subst (λ k. only k ≡ true) (sym same_b) on))
                  first
              ∙ linked a b name a_below b_below named
              ∙ link_kept i a b cfg.connected not_from not_to
        ]
      ]

  -- `connect` of a peer keeps every end in step.
  pub connect_peer-IsLinked :
      (i : ℕ) (cfg after : Config World Command)
      → i < cfg.n
      → DistinctEnds cfg
      → IsLinked cfg
      → connect_peer i cfg ≡ some after
      → IsLinked after
  connect_peer-IsLinked i cfg after i_below distinct linked h =
      let (net, net1, first, second, same) = connect_lem i cfg after h in
      subst IsLinked same (λ a b name a_below b_below named.
        connect_end i a b name cfg net net1 i_below distinct linked a_below b_below named first
          second)

  -- Every peer has been started.
  abbrev pub AllNamed : Config World Command → Type 0
  AllNamed cfg = (i : ℕ) → i < cfg.n → (names : ℕ → ℕ) × (cfg.endnames i ≡ some names)

  outgoing-AllNamed :
      (cfg : Config World Command)
      → AllNamed cfg
      → (i j : ℕ) → i < cfg.n
      → (name : ℕ) × (outgoing cfg i j ≡ some name)
  unfolding end_of
  outgoing-AllNamed cfg started i j below =
      let (names, has) = started i below in (names j, ap (λ e. end_of e j) has)

  connect_returns :
      (i : ℕ) (cfg : Config World Command)
      → i < cfg.n
      → AllNamed cfg
      → (net : Network World) × (connect_peer i cfg
          ≡ some (record cfg { connected = put i true cfg.connected; net = net }))
  unfolding connect_peer
  connect_returns i cfg i_below started =
      let only = put i true cfg.connected in
      let (net, first) =
        enable_ends-returns (outgoing cfg i) only cfg.n cfg.net
          (λ j below. outgoing-AllNamed cfg started i j i_below) in
      let (net1, second) =
        enable_ends-returns (incoming cfg i) only cfg.n net
          (λ j below. outgoing-AllNamed cfg started j i below) in
      (net1, ground arith)

  -- Where all peers have been started, any calls for them of `connect` and `disconnect` return, and leave each end
  -- enabled exactly if both of its peers are connected.
  pub move_peers-IsLinked :
      (moves : List (ℕ × Bool)) (cfg : Config World Command)
      → All (λ move. move.0 < cfg.n) moves
      → AllNamed cfg
      → DistinctEnds cfg
      → IsLinked cfg
      → (after : Config World Command) × (move_peers moves cfg ≡ some after) × IsLinked after
  unfolding move_peers disconnect_peer
  move_peers-IsLinked [] cfg within started distinct linked = (cfg, refl, linked)
  move_peers-IsLinked ((i, true) ∷ moves) cfg (i_below, within) started distinct linked =
      let (net, done) = connect_returns i cfg i_below started in
      let next = record cfg { connected = put i true cfg.connected; net = net } in
      let (after, rest, kept_linked) =
        move_peers-IsLinked moves next within started distinct
          (connect_peer-IsLinked i cfg next i_below distinct linked done) in
      (after, ground arith, kept_linked)
  move_peers-IsLinked ((i, false) ∷ moves) cfg (i_below, within) started distinct linked =
      move_peers-IsLinked moves (disconnect_peer i cfg) within started distinct
        (disconnect_peer-IsLinked i cfg i_below distinct linked)
