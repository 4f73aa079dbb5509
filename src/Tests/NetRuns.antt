-- ===== src/Tests/NetRuns.antt =====
-- One request to a service over the network: its receiver counts the calls.
use building_distributed_sys.Prelude.{
  ℕ, ◌+◌, ◌≤◌, ◌≡◌, refl, true, false, some, [], ◌∷◌, ◌++◌, add64, inl,
}
use building_distributed_sys.Prelude.Maps.{lookup, insert, nat_eq}
use building_distributed_sys.Net.Names.{Bytes, bytes_eq, split_method}
use building_distributed_sys.Net.Server.{
  Method, Server, looks_like_handler, handlers_of, make_service, make_server, add_service, dispatch,
  dispatch_service, dispatch_method, count_rpc,
}
use building_distributed_sys.Net.Server.Registered.{dispatch-make_service}
use building_distributed_sys.Net.Network.{
  Network, EndnameInfo, make_network, read_endname_info, is_server_dead, server_named, same_pointer,
  or_nil, or_false,
}
use building_distributed_sys.Net.Deliver.{
  ReqMsg, ReplyMsg, Delivery, replied, ended, begin_req, run_req, finish_req, main_of, worker_of,
  Turns, at_start, after, begin_turn, run_turn, take_turn, finish_turn,
}
use building_distributed_sys.Net.Deliver.Once.{received, executions, Served, replied_lem}

-- `Tally`, which gives the number of calls before it and echoes its argument.
abbrev tally : Method ℕ
tally = record {
  mname = 84 ∷ 97 ∷ [];
  is_exported = true;
  num_in = 3;
  second_is_pointer = true;
  num_out = 0;
  call = λ calls args. (calls + 1, calls ∷ args);
}

-- A method that is no handler.
abbrev unexported : Method ℕ
unexported = record tally { is_exported = false }

abbrev service_name : Bytes
service_name = 82 ∷ 46 ∷ 102 ∷ []

abbrev server : Server ℕ
server = add_service (make_service service_name (unexported ∷ tally ∷ [])) make_server

handler : looks_like_handler tally ≡ true
unfolding looks_like_handler
handler = refl

dispatch-make_service_example :
    dispatch
      (service_name ++ 46 ∷ tally.mname)
      (7 ∷ [])
      (add_service (make_service service_name (tally ∷ [])) make_server)
      5
    ≡ some (
      record (add_service (make_service service_name (tally ∷ [])) make_server) {
        count = add64 (make_server {World = ℕ}).count 1;
      },
      6,
      5 ∷ 7 ∷ [],
    )
dispatch-make_service_example =
    dispatch-make_service service_name (tally ∷ []) tally make_server (7 ∷ []) 5
      (inl (refl, refl, tt)) handler (refl, (refl, tt))

-- The end 3 is connected to the server 0.
abbrev network : Network ℕ
network = record make_network {
  enabled = (3, true) ∷ [];
  servers = (0, some 0) ∷ [];
  connections = (3, some 0) ∷ [];
  heap = server ∷ [];
}

abbrev request : ReqMsg
request = record { endname = 3; svc_meth = service_name ++ 46 ∷ tally.mname; args = 7 ∷ [] }

abbrev server_after : Server ℕ
server_after = record server { count = add64 (make_server {World = ℕ}).count 1 }

abbrev network_after : Network ℕ
network_after = record network { heap = server_after ∷ [] }

ran : run_req request 0 network 5 ≡ some (network_after, 6, 5 ∷ 7 ∷ [])
unfolding run_req dispatch count_rpc dispatch_service dispatch_method split_method make_service
    handlers_of looks_like_handler add_service make_server lookup insert make_network
ran = refl

abbrev info : EndnameInfo
info = record {
  enabled = true;
  servername = some 0;
  server = some 0;
  reliable = true;
  long_reordering = false;
}

read : read_endname_info 3 network ≡ info
unfolding read_endname_info or_nil or_false lookup server_named make_network
read = refl

reliable : network.reliable ≡ true
unfolding make_network
reliable = refl

abbrev answer : ReplyMsg
answer = record { ok = true; reply = 5 ∷ 7 ∷ [] }

enabled : (read_endname_info 3 network).enabled ≡ true
unfolding read_endname_info or_nil or_false lookup server_named make_network
enabled = refl

abbrev delivered : Delivery ℕ
delivered = record {
  rn = record network_after { bytes = 2 };
  world = 6;
  main = replied answer;
  worker = ended;
}

abbrev turns : Turns request (received network 5) delivered
unfolding begin_req finish_req main_of worker_of read_endname_info or_nil or_false lookup
    server_named make_network is_server_dead same_pointer
turns =
    after
      (after
        (after (after at_start (begin_turn false refl))
          (run_turn 0 network_after 6 (5 ∷ 7 ∷ []) refl ran))
        (take_turn info (5 ∷ 7 ∷ []) refl refl))
      (finish_turn info (some (5 ∷ 7 ∷ [])) false false refl)

replied_lem_example : (executions turns ≤ 1) × (answer.ok ≡ true → Served turns answer.reply)
replied_lem_example = replied_lem ℕ request network 5 delivered turns answer refl
