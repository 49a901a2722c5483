-- ===== src/Examples/Sockets.antt =====
-- Two callers that close a receiver of pushes.
use nacos_sdk_nodejs.Prelude.{refl, false, none, some, [], ◌∷◌}
use nacos_sdk_nodejs.Examples.Waits.{silent}
use nacos_sdk_nodejs.Naming.PushReceiver.{running, close_event, Receiver, close, run}
use nacos_sdk_nodejs.Naming.PushReceiver.Closing.{Unsettled, second_close_hangs}

abbrev receiver : Receiver silent (λ b. none)
receiver = record {
  reactor = record {
    service_info_map = [];
    updating_set = [];
    future_map = [];
    listeners = [];
    net = tt;
    events = [];
  };
  udp_port = 4000;
  is_closed = false;
  server = some 0;
  socket = running;
  created = 1;
  resolvers = [];
  resolved = [];
  rejected = [];
  sent = [];
  errors = 0;
}

second_close_hangs_example :
    Unsettled silent
      (λ b. none)
      2
      (run silent
        (λ b. none)
        []
        (close silent
          (λ b. none)
          2
          (run silent (λ b. none) (close_event ∷ []) (close silent (λ b. none) 1 receiver))))
second_close_hangs_example =
    second_close_hangs silent (λ b. none) 1 2 (close_event ∷ []) [] receiver refl refl refl
      (refl, tt) tt (record { not_kept = refl; not_resolved = refl; not_rejected = refl })
