-- ===== src/Net/Deliver/Fits.antt =====
-- What holds of a request while its two goroutines take turns.
use building_distributed_sys.Prelude.{
  ℕ, ◌+◌, ◌≡◌, refl, sym, subst, Bool, true, false, not, ◌&&◌, Option, none, some, Option-cases,
  Bool-cases, inl, inr, arith,
}
use building_distributed_sys.Net.Names.{Bytes}
use building_distributed_sys.Net.Network.{Network, EndnameInfo, read_endname_info, is_server_dead}
use building_distributed_sys.Net.Deliver.{
  ReqMsg, no_reply, Main, arrived, waiting, waited, replied, Worker, not_started, calling, sending,
  ended, main_of, worker_of, begin_req, wake, finish_req,
}

-- `Ran` says that the method ran at the server at a place and gave a reply, `Reached` that the end was
-- connected to the server at a place, and `WasAlive` that its server was found alive.
module _ (Ran : ℕ → Bytes → Type 0) (Reached : EndnameInfo → ℕ → Type 0)
    (WasAlive : EndnameInfo → Type 0) where
  abbrev pub WorkerFits : ℕ → ℕ → Worker → Type 0
  WorkerFits n address not_started = ⊥
  WorkerFits n address (calling at) = (n ≡ 0) × (at ≡ address)
  WorkerFits n address (sending reply) = (n ≡ 1) × Ran address reply
  WorkerFits n address ended = n ≡ 1

  abbrev pub MainFits : EndnameInfo → ℕ → Worker → Main → Type 0
  MainFits info address worker arrived = ⊥
  MainFits info address worker (waiting read) = read ≡ info
  MainFits info address worker (waited read none) = read ≡ info
  MainFits info address worker (waited read (some reply)) =
      (read ≡ info) × (worker ≡ ended) × Ran address reply
  MainFits info address worker (replied r) =
      r.ok ≡ true → (worker ≡ ended) × Ran address r.reply × WasAlive info

  -- The three kinds of request: one that has come in, one that was refused, one that was dispatched.
  pub data Fits (n : ℕ) : Main → Worker → Type 0 where
    fresh : n ≡ 0 → Fits n arrived not_started
    refused : n ≡ 0 → Fits n (replied no_reply) not_started
    dispatched :
        {main : Main} {worker : Worker} (info : EndnameInfo) (address : ℕ)
        → Reached info address
        → WorkerFits n address worker
        → MainFits info address worker main
        → Fits n main worker

-- What holds stays so when more is known to have happened.
module _ {Ran Ran' : ℕ → Bytes → Type 0} {Reached Reached' : EndnameInfo → ℕ → Type 0}
    {WasAlive WasAlive' : EndnameInfo → Type 0}
    (ran : (address : ℕ) (reply : Bytes) → Ran address reply → Ran' address reply)
    (reached : (info : EndnameInfo) (address : ℕ) → Reached info address → Reached' info address)
    (alive : (info : EndnameInfo) → WasAlive info → WasAlive' info) where
  grow_worker :
      (n address : ℕ) (worker : Worker)
      → WorkerFits Ran Reached WasAlive n address worker
      → WorkerFits Ran' Reached' WasAlive' n address worker
  grow_worker n address not_started k = k
  grow_worker n address (calling at) k = k
  grow_worker n address (sending reply) (once, r) = (once, ran address reply r)
  grow_worker n address ended k = k

  grow_main :
      (info : EndnameInfo) (address : ℕ) (worker : Worker) (main : Main)
      → MainFits Ran Reached WasAlive info address worker main
      → MainFits Ran' Reached' WasAlive' info address worker main
  grow_main info address worker arrived m = m
  grow_main info address worker (waiting read) m = m
  grow_main info address worker (waited read none) m = m
  grow_main info address worker (waited read (some reply)) (same, over, r) =
      (same, over, ran address reply r)
  grow_main info address worker (replied r) m =
      λ ok. let (over, did, lives) = m ok in (over, ran address r.reply did, alive info lives)

  pub grow-Fits :
      (n : ℕ) (main : Main) (worker : Worker)
      → Fits Ran Reached WasAlive n main worker
      → Fits Ran' Reached' WasAlive' n main worker
  grow-Fits n main worker (fresh z) = fresh z
  grow-Fits n main worker (refused z) = refused z
  grow-Fits n main worker (dispatched info address to k m) =
      dispatched info address (reached info address to) (grow_worker n address worker k)
        (grow_main info address worker main m)

-- The end that was read, enabled and with its server at the place.
abbrev pub IsConnected : {World : Type 0} → ReqMsg → Network World → EndnameInfo → ℕ → Type 0
IsConnected req rn info address =
    (info ≡ read_endname_info req.endname rn) × (info.enabled ≡ true) × (info.server ≡ some address)

begin_lem :
    {World : Type 0} (req : ReqMsg) (dropped : Bool) (rn : Network World) (info : EndnameInfo)
    (address : ℕ)
    → begin_req dropped req rn ≡ some (info, address)
    → IsConnected req rn info address
unfolding begin_req
begin_lem req dropped rn info address h =
    let read = read_endname_info req.endname rn in
    let same : read ≡ info = ground arith in
    let on : read.enabled ≡ true = ground arith in
    let found : read.server ≡ some address = ground arith in
    (
      sym same,
      subst (λ i. i.enabled ≡ true) same on,
      subst (λ i. i.server ≡ some address) same found,
    )

module _ (World : Type 0) (req : ReqMsg) (Ran : ℕ → Bytes → Type 0)
    (Reached : EndnameInfo → ℕ → Type 0) (WasAlive : EndnameInfo → Type 0) where
  pub begin-Fits :
      (n : ℕ) (dropped : Bool) (rn : Network World)
      → ((info : EndnameInfo) (address : ℕ)
          → IsConnected req rn info address
          → Reached info address)
      → n ≡ 0
      → Fits Ran Reached WasAlive n
          (main_of (begin_req dropped req rn))
          (worker_of (begin_req dropped req rn))
  unfolding main_of worker_of
  begin-Fits n dropped rn known z = elim (Option-cases (begin_req dropped req rn)) [
    | inl nil ↦ rw (nil) (refused z)
    | inr ((info, address), found) ↦ rw (found) (
        dispatched info address (known info address (begin_lem req dropped rn info address found))
          (z, refl) refl)
  ]

  -- The method's run does not change what holds of `processReq`, which had no reply.
  main_after_run :
      (info : EndnameInfo) (address at : ℕ) (reply : Bytes) (main : Main)
      → MainFits Ran Reached WasAlive info address (calling at) main
      → MainFits Ran Reached WasAlive info address (sending reply) main
  main_after_run info address at reply arrived m = m
  main_after_run info address at reply (waiting read) m = m
  main_after_run info address at reply (waited read none) m = m
  main_after_run info address at reply (waited read (some r)) m = absurd (ground (arith, m.1))
  main_after_run info address at reply (replied r) m = λ ok. absurd (ground (arith, (m ok).0))

  pub run-Fits :
      (n : ℕ) (main : Main) (address : ℕ) (reply : Bytes)
      → Ran address reply
      → Fits Ran Reached WasAlive n main (calling address)
      → Fits Ran Reached WasAlive (n + 1) main (sending reply)
  run-Fits n main address reply ran (dispatched info home reached (none_yet, at) m) =
      dispatched info home reached (omega arith, subst (λ a. Ran a reply) at ran)
        (main_after_run info home address reply main m)

  pub take-Fits :
      (n : ℕ) (info : EndnameInfo) (reply : Bytes)
      → Fits Ran Reached WasAlive n (waiting info) (sending reply)
      → Fits Ran Reached WasAlive n (waited info (some reply)) ended
  take-Fits n info reply (dispatched first address reached (once, ran) m) =
      dispatched first address reached once (m, refl, ran)

  pub wake-Fits :
      (n : ℕ) (worker : Worker) (info : EndnameInfo) (rn : Network World)
      → Fits Ran Reached WasAlive n (waiting info) worker
      → Fits Ran Reached WasAlive n (wake req info rn) worker
  unfolding wake
  wake-Fits n worker info rn (dispatched first address reached k m) =
      elim (Bool-cases (is_server_dead req.endname info.servername info.server rn)) [
        | inl dead ↦ rw (dead) (dispatched first address reached k m)
        | inr alive ↦ rw (alive) (dispatched first address reached k m)
      ]

  pub finish-Fits :
      (n : ℕ) (worker : Worker) (info : EndnameInfo) (reply : Option Bytes) (dropped delayed : Bool)
      (rn : Network World)
      → (is_server_dead req.endname info.servername info.server rn ≡ false → WasAlive info)
      → Fits Ran Reached WasAlive n (waited info reply) worker
      → Fits Ran Reached WasAlive n
          (replied (finish_req dropped delayed req info reply rn).1)
          worker
  unfolding finish_req
  finish-Fits n worker info none dropped delayed rn found (dispatched first address reached k m) =
      dispatched first address reached k (λ ok. absurd (ground (arith, ok)))
  finish-Fits n worker info (some reply) dropped delayed rn found
        (dispatched first address reached k m) =
      let same : info ≡ first = m.0 in
      let refuse : Fits Ran Reached WasAlive n (replied no_reply) worker =
        dispatched first address reached k (λ ok. absurd (ground (arith, ok))) in
      elim (Bool-cases (is_server_dead req.endname info.servername info.server rn)) [
        | inl dead ↦ rw (dead) refuse
        | inr alive ↦
            let answer : Fits Ran Reached WasAlive n (replied (record { ok = true; reply = reply }))
                worker =
              dispatched first address reached k
                (λ ok. (m.1, m.2, subst WasAlive same (found alive))) in
            elim (Bool-cases (not info.reliable && dropped)) [
              | inl drop ↦ rw (alive, drop) refuse
              | inr kept ↦ elim (Bool-cases (info.long_reordering && delayed)) [
                | inl late ↦ rw (alive, kept, late) answer
                | inr prompt ↦ rw (alive, kept, prompt) answer
              ]
            ]
      ]
