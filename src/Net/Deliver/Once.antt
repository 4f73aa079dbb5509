-- ===== src/Net/Deliver/Once.antt =====
-- A request runs its method at most once, and once if its caller gets a reply.
use building_distributed_sys.Prelude.{
  ℕ, ◌+◌, ◌≤◌, ◌≡◌, ◌⊎◌, inl, inr, refl, subst, true, false, arith,
}
use building_distributed_sys.Net.Names.{Bytes}
use building_distributed_sys.Net.Network.{Network, EndnameInfo, is_server_dead}
use building_distributed_sys.Net.Deliver.{
  ReqMsg, ReplyMsg, Main, arrived, waiting, replied, Worker, not_started, calling, sending, ended,
  Delivery, Turn, begin_turn, run_turn, take_turn, wake_turn, finish_turn, other_turn, Turns,
  at_start, after,
}
use building_distributed_sys.Net.Deliver.Fits.{
  IsConnected, WorkerFits, Fits, grow-Fits, fresh, refused, dispatched, begin-Fits, run-Fits,
  take-Fits, wake-Fits, finish-Fits,
}

-- A request that has come in.
abbrev pub received : {World : Type 0} → Network World → World → Delivery World
received rn w = record { rn = rn; world = w; main = arrived; worker = not_started }

module _ {World : Type 0} {req : ReqMsg} where
  abbrev runs : {d e : Delivery World} → Turn req d e → ℕ
  runs (begin_turn dropped m) = 0
  runs (run_turn address rn w reply m r) = 1
  runs (take_turn info reply m k) = 0
  runs (wake_turn info m) = 0
  runs (finish_turn info reply dropped delayed m) = 0
  runs (other_turn rn w) = 0

  -- How often the method has run.
  abbrev pub executions : {d e : Delivery World} → Turns req d e → ℕ
  executions at_start = 0
  executions (after turns turn) = executions turns + runs turn

  -- A turn of the run ran the method at the server at this place, with this reply.
  abbrev pub TurnRan : {d e : Delivery World} → Turn req d e → ℕ → Bytes → Type 0
  TurnRan (begin_turn dropped m) at given = ⊥
  TurnRan (run_turn address rn w reply m r) at given = (address ≡ at) × (reply ≡ given)
  TurnRan (take_turn info reply m k) at given = ⊥
  TurnRan (wake_turn info m) at given = ⊥
  TurnRan (finish_turn info reply dropped delayed m) at given = ⊥
  TurnRan (other_turn rn w) at given = ⊥

  -- The turn in which the request came in, with the end enabled and its server at this place.
  abbrev pub TurnReached : {d e : Delivery World} → Turn req d e → EndnameInfo → ℕ → Type 0
  TurnReached (begin_turn {d} dropped m) end at = IsConnected req d.rn end at
  TurnReached (run_turn address rn w reply m r) end at = ⊥
  TurnReached (take_turn info reply m k) end at = ⊥
  TurnReached (wake_turn info m) end at = ⊥
  TurnReached (finish_turn info reply dropped delayed m) end at = ⊥
  TurnReached (other_turn rn w) end at = ⊥

  -- The turn that made the reply found the end enabled and its server the same.
  abbrev pub TurnAlive : {d e : Delivery World} → Turn req d e → EndnameInfo → Type 0
  TurnAlive (begin_turn dropped m) end = ⊥
  TurnAlive (run_turn address rn w reply m r) end = ⊥
  TurnAlive (take_turn info reply m k) end = ⊥
  TurnAlive (wake_turn info m) end = ⊥
  TurnAlive (finish_turn {d} info reply dropped delayed m) end =
      is_server_dead req.endname end.servername end.server d.rn ≡ false
  TurnAlive (other_turn rn w) end = ⊥

  -- One of the turns did so.
  abbrev pub RanIn : {d e : Delivery World} → Turns req d e → ℕ → Bytes → Type 0
  RanIn at_start at given = ⊥
  RanIn (after turns turn) at given = RanIn turns at given ⊎ TurnRan turn at given

  abbrev pub ReachedIn : {d e : Delivery World} → Turns req d e → EndnameInfo → ℕ → Type 0
  ReachedIn at_start end at = ⊥
  ReachedIn (after turns turn) end at = ReachedIn turns end at ⊎ TurnReached turn end at

  abbrev pub AliveIn : {d e : Delivery World} → Turns req d e → EndnameInfo → Type 0
  AliveIn at_start end = ⊥
  AliveIn (after turns turn) end = AliveIn turns end ⊎ TurnAlive turn end

  -- Where a positive reply came from in the run.
  abbrev pub Served : {d e : Delivery World} → Turns req d e → Bytes → Type 0
  Served turns reply =
      (info : EndnameInfo) × (address : ℕ) × (executions turns ≡ 1)
      × ReachedIn turns info address
      × RanIn turns address reply
      × AliveIn turns info

-- What the counts and the goroutines' places say of the run so far.
abbrev FitsRun :
    {World : Type 0} {req : ReqMsg} {d e : Delivery World}
    → Turns req d e
    → ℕ
    → Main
    → Worker
    → Type 0
FitsRun turns n main worker = Fits (RanIn turns) (ReachedIn turns) (AliveIn turns) n main worker

module _ (Ran : ℕ → Bytes → Type 0) (Reached : EndnameInfo → ℕ → Type 0)
    (WasAlive : EndnameInfo → Type 0) where
  same_count :
      {n : ℕ} {main : Main} {worker : Worker}
      → Fits Ran Reached WasAlive n main worker
      → Fits Ran Reached WasAlive (n + 0) main worker
  same_count {n} {main} {worker} f =
      subst (λ k. Fits Ran Reached WasAlive k main worker) (omega arith) f

  none_before : (n : ℕ) (worker : Worker) → Fits Ran Reached WasAlive n arrived worker → n ≡ 0
  none_before n worker (fresh z) = z
  none_before n worker (dispatched info address reached k m) = elim m [ ]

  at_most_once :
      (n : ℕ) (main : Main) (worker : Worker) → Fits Ran Reached WasAlive n main worker → n ≤ 1
  at_most_once n main worker (fresh z) = omega arith
  at_most_once n main worker (refused z) = omega arith
  at_most_once n main not_started (dispatched info address reached k m) = elim k [ ]
  at_most_once n main (calling at) (dispatched info address reached k m) = omega (arith, k.0)
  at_most_once n main (sending reply) (dispatched info address reached k m) = omega (arith, k.0)
  at_most_once n main ended (dispatched info address reached k m) = omega (arith, k)

  pub replied_from :
      (n : ℕ) (worker : Worker) (r : ReplyMsg)
      → r.ok ≡ true
      → Fits Ran Reached WasAlive n (replied r) worker
      → (info : EndnameInfo) × (address : ℕ) × (n ≡ 1)
        × Reached info address
        × Ran address r.reply
        × WasAlive info
  replied_from n worker r ok (refused z) = absurd (ground (arith, ok))
  replied_from n worker r ok (dispatched info address reached k m) =
      let (over, ran, alive) = m ok in
      (
        info,
        address,
        subst (λ x. WorkerFits Ran Reached WasAlive n address x) over k,
        reached,
        ran,
        alive,
      )

module _ (World : Type 0) (req : ReqMsg) where
  -- One more turn, from what the run before it is known to have done.
  turn-Fits :
      (Ran : ℕ → Bytes → Type 0) (Reached : EndnameInfo → ℕ → Type 0)
      (WasAlive : EndnameInfo → Type 0) (n : ℕ) {d e : Delivery World} (turn : Turn req d e)
      → ((at : ℕ) (given : Bytes) → TurnRan turn at given → Ran at given)
      → ((end : EndnameInfo) (at : ℕ) → TurnReached turn end at → Reached end at)
      → ((end : EndnameInfo) → TurnAlive turn end → WasAlive end)
      → Fits Ran Reached WasAlive n d.main d.worker
      → Fits Ran Reached WasAlive (n + runs turn) e.main e.worker
  turn-Fits Ran Reached WasAlive n {d} (begin_turn dropped m) ran reached alive f =
      same_count Ran Reached WasAlive (
        begin-Fits World req Ran Reached WasAlive n dropped d.rn (λ info at c. reached info at c)
          (none_before Ran Reached WasAlive n d.worker
            (subst (λ k. Fits Ran Reached WasAlive n k d.worker) m f)))
  turn-Fits Ran Reached WasAlive n {d} (run_turn address rn w reply k r) ran reached alive f =
      run-Fits World req Ran Reached WasAlive n d.main address reply
        (ran address reply (refl, refl)) (subst (λ k. Fits Ran Reached WasAlive n d.main k) k f)
  turn-Fits Ran Reached WasAlive n {d} (take_turn info reply m k) ran reached alive f =
      same_count Ran Reached WasAlive (
        take-Fits World req Ran Reached WasAlive n info reply (
          subst (λ x. Fits Ran Reached WasAlive n (waiting info) x) k
            (subst (λ x. Fits Ran Reached WasAlive n x d.worker) m f)))
  turn-Fits Ran Reached WasAlive n {d} (wake_turn info m) ran reached alive f =
      same_count Ran Reached WasAlive (
        wake-Fits World req Ran Reached WasAlive n d.worker info d.rn
          (subst (λ x. Fits Ran Reached WasAlive n x d.worker) m f))
  turn-Fits Ran Reached WasAlive n {d} (finish_turn info reply dropped delayed m) ran reached alive
        f =
      same_count Ran Reached WasAlive (
        finish-Fits World req Ran Reached WasAlive n d.worker info reply dropped delayed d.rn
          (alive info) (subst (λ x. Fits Ran Reached WasAlive n x d.worker) m f))
  turn-Fits Ran Reached WasAlive n {d} (other_turn rn w) ran reached alive f =
      same_count Ran Reached WasAlive f

  turns-Fits :
      {rn : Network World} {w : World} {d : Delivery World} (turns : Turns req (received rn w) d)
      → FitsRun turns (executions turns) d.main d.worker
  turns-Fits at_start = fresh refl
  turns-Fits (after {e = d} turns turn) =
      turn-Fits (RanIn (after turns turn)) (ReachedIn (after turns turn))
        (AliveIn (after turns turn)) (executions turns) turn (λ at given r. inr r)
        (λ end at c. inr c) (λ end a. inr a)
        (grow-Fits (λ at given r. inl r) (λ end at c. inl c) (λ end a. inl a) (executions turns)
          d.main d.worker (turns-Fits turns))

  -- Whatever else happens to the network and to the receivers meanwhile, a request runs its method at
  -- most once. If its caller gets a positive reply, the method ran exactly once in the run: at the
  -- server that the enabled end was connected to in the turn in which the request came, with this
  -- reply; and the turn that made the reply found that server alive: the end enabled and the server
  -- not deleted or replaced.
  pub replied_lem :
      (rn : Network World) (w : World) (d : Delivery World) (turns : Turns req (received rn w) d)
      (r : ReplyMsg)
      → d.main ≡ replied r
      → (executions turns ≤ 1) × (r.ok ≡ true → Served turns r.reply)
  replied_lem rn w d turns r at =
      let f = turns-Fits turns in
      (
        at_most_once (RanIn turns) (ReachedIn turns) (AliveIn turns) (executions turns) d.main
            d.worker f,
        λ ok.
            replied_from (RanIn turns) (ReachedIn turns) (AliveIn turns) (executions turns) d.worker
              r ok (subst (λ x. FitsRun turns (executions turns) x d.worker) at f),
      )
