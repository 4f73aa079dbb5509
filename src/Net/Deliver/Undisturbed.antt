-- ===== src/Net/Deliver/Undisturbed.antt =====
-- `processReq` where nothing else happens to the network meanwhile, as a run of its goroutines.
use building_distributed_sys.Prelude.{
  ℕ, ap, ◌∙◌, ◌≡◌, Bool, true, false, ◌⊎◌, none, some, List, length, get_elem?, set, add64, arith,
}
use building_distributed_sys.Net.Names.{Bytes}
use building_distributed_sys.Net.Server.{Server, dispatch}
use building_distributed_sys.Net.Network.{
  Network, EndnameInfo, read_endname_info, is_server_dead, server_named, same_pointer,
}
use building_distributed_sys.Net.Deliver.{
  ReqMsg, no_reply, process_req, process_from, answer_run, begin_req, run_req, finish_req, Delivery,
  begin_turn, run_turn, take_turn, wake_turn, other_turn, Turn, finish_turn, Turns, at_start, after,
}

module _ {World : Type 0} where
  begin_connected :
      (drop_request : Bool) (req : ReqMsg) (rn : Network World) (address : ℕ)
      → (read_endname_info req.endname rn).enabled ≡ true
      → (read_endname_info req.endname rn).server ≡ some address
      → (read_endname_info req.endname rn).reliable ≡ true
      → begin_req drop_request req rn ≡ some (read_endname_info req.endname rn, address)
  unfolding begin_req
  begin_connected drop_request req rn address on found reliable = ground arith

  -- A server that is called and whose tables stay is alive when it has answered.
  alive_after_run :
      (req : ReqMsg) (rn : Network World) (heap : List (Server World)) (address : ℕ)
      → (read_endname_info req.endname rn).enabled ≡ true
      → (read_endname_info req.endname rn).server ≡ some address
      → is_server_dead req.endname
          (read_endname_info req.endname rn).servername
          (read_endname_info req.endname rn).server
          (record rn { heap = heap })
        ≡ false
  unfolding is_server_dead read_endname_info server_named same_pointer
  alive_after_run req rn heap address on found = rw (on, found) (ground arith)

  finish_reliable :
      (drop_reply delayed : Bool) (req : ReqMsg) (info : EndnameInfo) (reply : Bytes)
      (rn : Network World)
      → info.reliable ≡ true
      → is_server_dead req.endname info.servername info.server rn ≡ false
      → finish_req drop_reply delayed req info (some reply) rn
        ≡ (record rn { bytes = add64 rn.bytes (length reply) }, record { ok = true; reply = reply })
  unfolding finish_req
  finish_reliable drop_reply delayed req info reply rn reliable alive = ground arith

  run_lem :
      (req : ReqMsg) (rn : Network World) (w w1 : World) (address : ℕ) (rs rs1 : Server World)
      (reply : Bytes)
      → get_elem? rn.heap address ≡ some rs
      → dispatch req.svc_meth req.args rs w ≡ some (rs1, w1, reply)
      → run_req req address rn w ≡ some (record rn { heap = set rn.heap address rs1 }, w1, reply)
  unfolding run_req
  run_lem req rn w w1 address rs rs1 reply there gave = ground arith

  reliable_info :
      (req : ReqMsg) (rn : Network World)
      → rn.reliable ≡ true
      → (read_endname_info req.endname rn).reliable ≡ true
  unfolding read_endname_info
  reliable_info req rn reliable = reliable

  -- A reliable network, an end that is enabled and connected to a server, and a method that the server
  -- dispatches, where nothing else happens to the network meanwhile: the caller gets what the method
  -- gives, whatever is drawn.
  pub connected_call :
      (drop_request drop_reply delayed : Bool) (req : ReqMsg) (rn : Network World) (w w1 : World)
      (address : ℕ) (rs rs1 : Server World) (reply : Bytes)
      → (read_endname_info req.endname rn).enabled ≡ true
      → (read_endname_info req.endname rn).server ≡ some address
      → rn.reliable ≡ true
      → get_elem? rn.heap address ≡ some rs
      → dispatch req.svc_meth req.args rs w ≡ some (rs1, w1, reply)
      → process_req drop_request drop_reply delayed req rn w
        ≡ some (
          record rn { heap = set rn.heap address rs1; bytes = add64 rn.bytes (length reply) },
          w1,
          record { ok = true; reply = reply },
        )
  unfolding process_req process_from answer_run
  connected_call drop_request drop_reply delayed req rn w w1 address rs rs1 reply on found reliable
        there gave =
      let info = read_endname_info req.endname rn in
      let began =
        begin_connected drop_request req rn address on found (reliable_info req rn reliable) in
      let alive = alive_after_run req rn (set rn.heap address rs1) address on found in
      let done =
        finish_reliable drop_reply delayed req info reply
          (record rn { heap = set rn.heap address rs1 }) (reliable_info req rn reliable) alive in
      ap (process_from drop_reply delayed req rn w) began
      ∙ ap (answer_run drop_reply delayed req info)
          (run_lem req rn w w1 address rs rs1 reply there gave)
      ∙ ap (λ sent. some (sent.0, w1, sent.1)) done

  -- An end that is disabled, or whose server is not there, gets no reply, and nothing runs.
  pub cut_off_call :
      (drop_request drop_reply delayed : Bool) (req : ReqMsg) (rn : Network World) (w : World)
      → ((read_endname_info req.endname rn).enabled ≡ false)
        ⊎ ((read_endname_info req.endname rn).server ≡ none)
      → process_req drop_request drop_reply delayed req rn w ≡ some (rn, w, no_reply)
  unfolding process_req process_from begin_req
  cut_off_call drop_request drop_reply delayed req rn w cut = ground arith

  -- Every turn is one of the two goroutines'.
  abbrev pub IsOwn : {req : ReqMsg} {d e : Delivery World} → Turn req d e → Type 0
  IsOwn (begin_turn dropped m) = Unit
  IsOwn (run_turn address rn w reply m r) = Unit
  IsOwn (take_turn info reply m k) = Unit
  IsOwn (wake_turn info m) = Unit
  IsOwn (finish_turn info reply dropped delayed m) = Unit
  IsOwn (other_turn rn w) = ⊥

  abbrev pub AreOwn : {req : ReqMsg} {d e : Delivery World} → Turns req d e → Type 0
  AreOwn at_start = Unit
  AreOwn (after turns turn) = AreOwn turns × IsOwn turn
