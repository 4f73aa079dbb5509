-- ===== src/Net/Deliver.antt =====
-- cs426-fall24/lab3/lab3/labrpc/labrpc.go: `Call` and `processReq`, from a request to its reply. The
-- goroutine of the request and the one that runs its method take turns with everything else that
-- happens to the network.
pub mod Fits
pub mod Once
pub mod Undisturbed
use building_distributed_sys.Prelude.{
  ℕ, zero, suc, ◌+◌, ◌≡◌, refl, Bool, true, false, ◌&&◌, not, Option, none, some, List, [], ◌∷◌,
  ◌==◌, if◌then◌else◌, length, get_elem?, set, add32, add64,
}
use building_distributed_sys.Net.Names.{Bytes}
use building_distributed_sys.Net.Server.{Server, dispatch}
use building_distributed_sys.Net.Network.{Network, EndnameInfo, read_endname_info, is_server_dead}

-- `reqMsg`
pub record ReqMsg : Type 0 where
  pub endname : ℕ
  pub svc_meth : Bytes
  pub args : Bytes

-- `replyMsg`
pub record ReplyMsg : Type 0 where
  pub ok : Bool
  pub reply : Bytes

abbrev pub no_reply : ReplyMsg
no_reply = record { ok = false; reply = [] }

-- Where `processReq` stands: before it reads the network, in its loop, after the loop with
-- `replyOK` and the reply, after its reply.
pub data Main : Type 0 where
  arrived : Main
  waiting : EndnameInfo → Main
  waited : EndnameInfo → Option Bytes → Main
  replied : ReplyMsg → Main

-- The goroutine that runs the method: not started, at the server at this place, with its reply in
-- `ech`, done.
pub data Worker : Type 0 where
  not_started : Worker
  calling : ℕ → Worker
  sending : Bytes → Worker
  ended : Worker

unfoldable pub main_of : Option (EndnameInfo × ℕ) → Main
main_of none = replied no_reply
main_of (some (info, address)) = waiting info

unfoldable pub worker_of : Option (EndnameInfo × ℕ) → Worker
worker_of none = not_started
worker_of (some (info, address)) = calling address

pub record Delivery (World : Type 0) : Type 0 where
  pub rn : Network World
  pub world : World
  pub main : Main
  pub worker : Worker

-- `Call` with its reply: `decode` stands for labgob. The outer `none` is log.Fatalf, the inner one
-- that it returns false.
unfoldable pub receive_reply :
    {Reply : Type 0} → (Bytes → Option Reply) → ReplyMsg → Option (Option Reply)
receive_reply decode rep =
    if rep.ok
    then elim (decode rep.reply) [ none ↦ none | some reply ↦ some (some reply) ]
    else some none

module _ {World : Type 0} where
  -- `Call` up to its send and the network's receipt; `none` if the network is cleaned up, where `Call`
  -- returns false
  unfoldable pub send_req : ReqMsg → Network World → Option (Network World)
  send_req req rn =
      if rn.done
      then none
      else some (record rn { count = add32 rn.count 1; bytes = add64 rn.bytes (length req.args) })

  -- The start of `processReq`: what it read of the end and the server that it calls, or `none` if it
  -- answers with no reply. `dropped` is its draw for the request. The delays are left out.
  unfoldable pub begin_req : Bool → ReqMsg → Network World → Option (EndnameInfo × ℕ)
  begin_req dropped req rn =
      let info = read_endname_info req.endname rn in
      if info.enabled
      then elim info.server [
        | none ↦ none
        | some address ↦ if not info.reliable && dropped then none else some (info, address)
      ]
      else none

  -- `r := server.dispatch(req)`; `none` is log.Fatalf or a nil pointer
  unfoldable pub run_req :
      ReqMsg → ℕ → Network World → World → Option (Network World × World × Bytes)
  run_req req address rn w = elim (get_elem? rn.heap address) [
    | none ↦ none
    | some rs ↦ elim (dispatch req.svc_meth req.args rs w) [
      | none ↦ none
      | some (rs1, w1, reply) ↦ some (record rn { heap = set rn.heap address rs1 }, w1, reply)
    ]
  ]

  -- The timer of the loop: it goes on unless the server is dead, and then has no reply.
  unfoldable pub wake : ReqMsg → EndnameInfo → Network World → Main
  wake req info rn =
      if is_server_dead req.endname info.servername info.server rn
      then waited info none
      else waiting info

  -- `processReq` after its loop. `dropped` and `delayed` are its draws for the reply; a delayed reply is
  -- count_rpc and sent like any other.
  unfoldable pub finish_req :
      Bool → Bool → ReqMsg → EndnameInfo → Option Bytes → Network World → Network World × ReplyMsg
  finish_req dropped delayed req info none rn = (rn, no_reply)
  finish_req dropped delayed req info (some reply) rn =
      if is_server_dead req.endname info.servername info.server rn
      then (rn, no_reply)
      else (if not info.reliable && dropped
          then (rn, no_reply)
          else (if info.long_reordering && delayed
              then (
                record rn { bytes = add64 rn.bytes (length reply) },
                record { ok = true; reply = reply },
              )
              else (
                record rn { bytes = add64 rn.bytes (length reply) },
                record { ok = true; reply = reply },
              )))

  -- `processReq` where nothing else happens meanwhile: once the method has run, once the network has been
  -- read, and from the start.
  unfoldable pub answer_run :
      Bool
      → Bool
      → ReqMsg
      → EndnameInfo
      → Option (Network World × World × Bytes)
      → Option (Network World × World × ReplyMsg)
  answer_run drop_reply delayed req info none = none
  answer_run drop_reply delayed req info (some (rn, w, reply)) =
      let sent = finish_req drop_reply delayed req info (some reply) rn in some (sent.0, w, sent.1)

  unfoldable pub process_from :
      Bool
      → Bool
      → ReqMsg
      → Network World
      → World
      → Option (EndnameInfo × ℕ)
      → Option (Network World × World × ReplyMsg)
  process_from drop_reply delayed req rn w none = some (rn, w, no_reply)
  process_from drop_reply delayed req rn w (some (info, address)) =
      answer_run drop_reply delayed req info (run_req req address rn w)

  unfoldable pub process_req :
      Bool
      → Bool
      → Bool
      → ReqMsg
      → Network World
      → World
      → Option (Network World × World × ReplyMsg)
  process_req drop_request drop_reply delayed req rn w =
      process_from drop_reply delayed req rn w (begin_req drop_request req rn)

  -- A turn in the life of a request: the two goroutines', and anything that others do to the network and
  -- to the state of the receivers.
  pub data Turn (req : ReqMsg) : Delivery World → Delivery World → Type 0 where
    begin_turn :
        {d : Delivery World} (dropped : Bool)
        → d.main ≡ arrived
        → Turn req d (record d {
          main = main_of (begin_req dropped req d.rn);
          worker = worker_of (begin_req dropped req d.rn);
        })
    run_turn :
        {d : Delivery World} (address : ℕ) (rn : Network World) (w : World) (reply : Bytes)
        → d.worker ≡ calling address
        → run_req req address d.rn d.world ≡ some (rn, w, reply)
        → Turn req d (record d { rn = rn; world = w; worker = sending reply })
    take_turn :
        {d : Delivery World} (info : EndnameInfo) (reply : Bytes)
        → d.main ≡ waiting info
        → d.worker ≡ sending reply
        → Turn req d (record d { main = waited info (some reply); worker = ended })
    wake_turn :
        {d : Delivery World} (info : EndnameInfo)
        → d.main ≡ waiting info
        → Turn req d (record d { main = wake req info d.rn })
    finish_turn :
        {d : Delivery World} (info : EndnameInfo) (reply : Option Bytes) (dropped delayed : Bool)
        → d.main ≡ waited info reply
        → Turn req d (record d {
          rn = (finish_req dropped delayed req info reply d.rn).0;
          main = replied (finish_req dropped delayed req info reply d.rn).1;
        })
    other_turn :
        {d : Delivery World} (rn : Network World) (w : World)
        → Turn req d (record d { rn = rn; world = w })

  pub data Turns (req : ReqMsg) (d : Delivery World) : Delivery World → Type 0 where
    at_start : Turns req d d
    after : {e f : Delivery World} → Turns req d e → Turn req e f → Turns req d f
