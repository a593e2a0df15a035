-- ===== src/Replication/Lifecycle/Examples.antt =====
-- Concrete runs of the state machine of src/replication/connection.cpp.
use crowdy_cpp.Base.{ℕ, refl, suc, true, false, none, some, [], ◌∷◌, List, replicate}
use crowdy_cpp.Base.Int.{pos}
use crowdy_cpp.Core.Result.{Errc, value, error}
use crowdy_cpp.Replication.Lifecycle.{
  TokenInfo, Config, IWorld, Lifecycle, lifecycle, housekeeping, request_reassignment,
}
use crowdy_cpp.Replication.Lifecycle.Changes.{IsDecided}
use crowdy_cpp.Replication.Lifecycle.Settled.{IsSettled}
use crowdy_cpp.Replication.Lifecycle.Runs.{
  LifecycleCall, connect_call, disconnect_call, request_call, housekeeping_call, run, run-IsSettled,
}
use crowdy_cpp.Replication.Lifecycle.Served.{IsServed, housekeeping-IsServed}

abbrev options : Config
options = record {
  prefer_ipv6 = false;
  session_ready_wait_ms = pos 1500;
  refresh_lead_ms = pos 300000;
  advertise_capabilities = true;
  advertise_interval_ms = pos 15000;
  watchdog_silence_ms = pos 0;
}

abbrev ticket : TokenInfo
ticket = record {
  token = replicate 64 7;
  game_token_id = pos 3;
  expires_at_epoch_ms = pos 0;
  authorized_on_current_server = false;
}

-- A provider that has a server, and counts how often it is asked for one.
abbrev one_server : IWorld ℕ
one_server = record {
  assign_server = λ n. (value (record { ip4 = 1 ∷ []; ip6 = []; client_port = pos 9000 }), suc n);
  refresh_token = λ n a. (error Errc.rejected, n);
  open_socket = λ n host port. (Errc.ok, n);
  close = λ n. n;
  send_capabilities = λ n. (none, n);
  flush_sends = λ n. (some (pos 5), n);
}

abbrev calls : List LifecycleCall
calls =
    disconnect_call
    ∷ housekeeping_call (pos 4000) (pos 0) (pos 4001)
    ∷ request_call
    ∷ housekeeping_call (pos 2000) (pos 0) (pos 0)
    ∷ connect_call (pos 100)
    ∷ []

calls-IsSettled : IsSettled one_server (run one_server calls (lifecycle options ticket 0))
calls-IsSettled = run-IsSettled one_server calls options ticket 0

abbrev asking : List LifecycleCall
asking = request_call ∷ connect_call (pos 100) ∷ []

abbrev asked : Lifecycle ℕ
asked = run one_server asking (lifecycle options ticket 0)

request-IsServed :
    let c' = housekeeping one_server asked (pos 200) (pos 0) (pos 210) in
    IsDecided false c' × IsServed one_server asked c'
unfolding request_reassignment
request-IsServed =
    housekeeping-IsServed one_server asked (pos 200) (pos 0) (pos 210)
      (run-IsSettled one_server asking options ticket 0) refl
