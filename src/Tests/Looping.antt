-- ===== src/Tests/Looping.antt =====
-- The event loop with one client, from its first connection to the end of the shutdown.
use c_http_1_1_server.Base.{
  ◌≡◌, ◌+◌, refl, arith, true, false, List, [], ◌∷◌, ◌++◌, Bytes, bytes_eq, codes,
}
use c_http_1_1_server.Base.StringMap.{lookup, insert}
use c_http_1_1_server.Base.FdMap.{find_fd, put_fd, weigh}
use c_http_1_1_server.Middleware.PerIpConnectionLimiter.{count_or_zero, held, try_acquire}
use c_http_1_1_server.Network.EventLoop
use c_http_1_1_server.Network.EventLoop.{
  EventLoop, LoopState, running, stopping, is_running, Accept, client, transient, register_client,
  admit, accept_client, may_accept, handle_accept, drop_connection, remove_connection,
  max_total_connections,
}
use c_http_1_1_server.Network.EventLoop.Race.{Reach, two_threads_exceed}
use c_http_1_1_server.Network.EventLoop.Table
use c_http_1_1_server.Network.EventLoop.Table.{
  AllFresh, from, one, handle_accept-IsValid, remove_connection-IsValid,
}
use c_http_1_1_server.Network.EventLoop.Rounds.{
  Event, listening, activity, descriptors, cleanup_all_connections, events, Round, round, ended,
  run_loop,
}
use c_http_1_1_server.Network.EventLoop.Rounds.Shutdown.{keys, cleanup_releases}
use c_http_1_1_server.Network.EventLoop.Rounds.Drain.{stopping_ends}

abbrev home : Bytes
home = codes "127.0.0.1"

abbrev serving : EventLoop
serving = record EventLoop.started { state = running }

serving-IsValid : Table.IsValid serving
unfolding held lookup count_or_zero
serving-IsValid = record { distinct = tt; counted = refl; slots = λ ip. refl; total = omega arith }

abbrev arrivals : List Accept
arrivals = transient ∷ client 7 home true ∷ client 8 home true ∷ []

arrivals-AllFresh : AllFresh 0 arrivals serving
unfolding AllFresh accept_client admit register_client try_acquire held lookup insert count_or_zero
    find_fd put_fd bytes_eq
arrivals-AllFresh = (refl, (refl, tt))

handle_accept-IsValid_example : Table.IsValid (handle_accept 0 arrivals serving)
handle_accept-IsValid_example =
    handle_accept-IsValid 0 arrivals serving serving-IsValid arrivals-AllFresh

abbrev served : EventLoop
served = handle_accept 0 arrivals serving

served-IsValid : Table.IsValid served
served-IsValid = handle_accept-IsValid 0 arrivals serving serving-IsValid arrivals-AllFresh

-- Both clients are in the table.
both_served : weigh one served.connections ≡ 2
unfolding handle_accept may_accept accept_client admit register_client try_acquire held lookup
    insert count_or_zero put_fd bytes_eq
both_served = refl

remove_connection-IsValid_example : Table.IsValid (remove_connection 0 [] 7 served)
unfolding AllFresh
remove_connection-IsValid_example =
    remove_connection-IsValid 0 [] 7 served served-IsValid (λ c found. tt)

cleanup_releases_example :
    let after = cleanup_all_connections served in
    (after.connections ≡ [])
    × (after.active_connections ≡ 0)
    × ((ip : Bytes) → held ip after.ip_conn_limiter ≡ 0)
    × (after.closed ≡ (served.closed ++ keys served.connections) ++ descriptors served.connections)
cleanup_releases_example = cleanup_releases served served-IsValid

abbrev draining : EventLoop
draining = record served { state = stopping; shutdown_start = 100 }

abbrev last_events : List Event
last_events = activity 7 false true true [] ∷ listening (client 9 home true ∷ []) ∷ []

abbrev late_round : Round
late_round = record { polled = events last_events; now = 6000000000; waiting = λ fd. [] }

stopping_ends_example :
    (after : EventLoop) × (run_loop (round late_round ∷ []) draining ≡ ended after)
    × (after.connections ≡ [])
    × (after.server_open ≡ false)
stopping_ends_example = stopping_ends late_round last_events [] draining refl refl (omega arith)

-- A loop with one place left.
abbrev nearly_full : EventLoop
nearly_full = record serving { active_connections = 9999 }

two_threads_exceed_example :
    (l' : EventLoop) × Reach 2
      (record { loop = nearly_full; passed = 0 })
      (record { loop = l'; passed = 0 })
    × (l'.active_connections ≡ max_total_connections + 1)
unfolding try_acquire held lookup insert count_or_zero bytes_eq
two_threads_exceed_example = two_threads_exceed 0 7 8 home home nearly_full refl refl refl refl
