-- ===== src/Desktop/Monitors/Tests.antt =====
-- Starts and stops of one server, and the theorems at concrete inputs.
use monitc.Prelude.{true, List, [], ◌∷◌, ◌≡◌, ◌+◌, refl}
use monitc.Desktop.Monitors.{
  Event, started, stopped, docker_timeout, at_start, has, run, step, start, stop, start_polling,
  start_delayed, start_monitors, stop_monitors,
}
use monitc.Desktop.Monitors.Orphans.{twice, second_start_orphans}
use monitc.Desktop.Monitors.Network.{Entry, Poll}

abbrev restarts : List Event
restarts = started ∷ stopped ∷ docker_timeout 0 ∷ started ∷ docker_timeout 2 ∷ []

stopped_docker_polls :
    (run (started ∷ stopped ∷ docker_timeout 0 ∷ []) at_start).docker.intervals ≡ 1 ∷ []
unfolding run step start_monitors stop_monitors start stop start_polling start_delayed
stopped_docker_polls = refl

second_start_orphans_example :
    (has
        (at_start.kubernetes.next + 2)
        (run (stopped ∷ started ∷ []) (twice at_start)).kubernetes.intervals
      ≡ true)
    × (has
          (at_start.kubernetes.next + 2)
          (step stopped (run (stopped ∷ started ∷ []) (twice at_start))).kubernetes.intervals
        ≡ true)
second_start_orphans_example = second_start_orphans at_start (stopped ∷ started ∷ [])

abbrev entries : List Entry
entries = record { name = "eth0"; rx = 100; tx = 5 } ∷ []

abbrev polls : List Poll
polls =
    (
      record { name = "lo"; rx = 9; tx = 9; rx_packets = 1; tx_packets = 1 }
          ∷ record { name = "eth0"; rx = 150; tx = 7; rx_packets = 2; tx_packets = 1 }
          ∷ [],
      150,
    )
    ∷ (record { name = "eth0"; rx = 190; tx = 9; rx_packets = 4; tx_packets = 2 } ∷ [], 190)
    ∷ []
