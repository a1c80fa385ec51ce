-- ===== src/Network/Server/Reach.antt =====
-- What holds of the server at every moment of a run.
use c_http_1_1_server.Base.{
  ℕ, ◌≡◌, refl, arith, true, false, ◌||◌, List, [], ◌∷◌, ◌++◌, some, Bytes,
}
use c_http_1_1_server.Base.FdMap.{find_fd}
use c_http_1_1_server.Base.StringMap.{lookup}
use c_http_1_1_server.Http.Router.{HttpRouter}
use c_http_1_1_server.Middleware.PerIpConnectionLimiter.{held, count_or_zero}
use c_http_1_1_server.Middleware.RateLimiter
use c_http_1_1_server.Network.Connection.{Connection}
use c_http_1_1_server.Network.EventLoop.{Task, running, is_running, started}
use c_http_1_1_server.Network.EventLoop.Table.{IsValid}
use c_http_1_1_server.Network.EventLoop.Rounds.{
  Event, wakeup, listening, activity, stop, close_server, handle_client_read,
}
use c_http_1_1_server.Network.WriteTask.{client_write}
use c_http_1_1_server.Network.Server.{Server, Step, AllFlagged, disarm, served}
use c_http_1_1_server.Network.Server.Table.{
  after_task-IsValid, handle_event-IsValid, check-IsValid, poll-IsValid, Same-IsValid,
  handle_client_read-Same, stop-Same,
}
use c_http_1_1_server.Network.Server.Attended.{AllAttended, is_cared_for, has_task, has_event}
use c_http_1_1_server.Network.Server.Attended.Turns.{take-Attended, read-Attended, more-Attended}
use c_http_1_1_server.Network.Server.Attended.Steps.{
  after_task-Attended, handle_event-Attended, check-Attended, disarm-Attended,
  close_server-Attended, stop-Attended,
}
use c_http_1_1_server.Network.Server.Tasks.{client_read-Keeps, client_write-Keeps}

pub record IsSound (s : Server) : Type 0 where
  pub valid : IsValid s.loop
  pub flagged : AllFlagged s.events
  pub attended : AllAttended (λ j. has_event j s.events) s.loop

AllFlagged-tail : (e : Event) (es : List Event) → AllFlagged (e ∷ es) → AllFlagged es
AllFlagged-tail wakeup es k = k
AllFlagged-tail (listening waiting) es k = k
AllFlagged-tail (activity fd h i o waiting) es k = k.1

-- The loop at the entry of `run`.
abbrev pub begun : ℕ → Server
begun now = record {
  loop = record started { state = running; last_timeout_check = now };
  events = [];
}

begun-IsSound : (now : ℕ) → IsSound (begun now)
unfolding find_fd held lookup count_or_zero
begun-IsSound now = record {
  valid = record { distinct = tt; counted = refl; slots = λ ip. refl; total = omega arith };
  flagged = tt;
  attended = λ r j c h. ground (arith, h);
}

-- What a run passes through.
pub data Reachable (hash : Bytes → ℕ) (walk : List (Bytes × Bytes) → List (Bytes × Bytes))
    (router : HttpRouter) : Server → Type 0 where
  beginning : (now : ℕ) → Reachable hash walk router (begun now)
  later :
      {s s' : Server}
      → Reachable hash walk router s
      → Step hash walk router s s'
      → Reachable hash walk router s'

module _ (hash : Bytes → ℕ) (walk : List (Bytes × Bytes) → List (Bytes × Bytes))
    (router : HttpRouter) where
  step-IsSound : {s s' : Server} → Step hash walk router s s' → IsSound s → IsSound s'
  step-IsSound (Step.polled es l goes_on k) i = record {
    valid = poll-IsValid es l i.valid;
    flagged = k;
    attended =
        more-Attended (λ j. has_event j es || false) (λ j. has_event j es)
          (disarm es (close_server l)) (λ j e. ground (arith, e))
          (disarm-Attended es (λ j. false) (close_server l)
            (close_server-Attended (λ j. false) l i.attended));
  }
  step-IsSound (Step.handled now e es l f) i = record {
    valid = handle_event-IsValid now e l i.valid f;
    flagged = AllFlagged-tail e es i.flagged;
    attended = handle_event-Attended now e es l i.flagged i.attended f;
  }
  step-IsSound (Step.checked now waiting l f) i = record {
    valid = check-IsValid now waiting l i.valid f;
    flagged = tt;
    attended = check-Attended (λ j. false) now waiting l i.attended f;
  }
  step-IsSound (Step.stop_called now l es) i = record {
    valid = Same-IsValid l (stop now l) (stop-Same now l) i.valid;
    flagged = i.flagged;
    attended = stop-Attended (λ j. has_event j es) now l i.attended;
  }
  step-IsSound (Step.worker_read now waiting before after fd c found results sends a l es e h r d f)
        i =
      let (same, arms) =
        client_read-Keeps (RateLimiter.allow hash found now) walk router now results sends c
          l.rate_limiter a d in
      let l' = served hash walk router now found results c l in
      let v = Same-IsValid l l' (refl, refl, refl) i.valid in
      record {
        valid = after_task-IsValid now waiting fd c a (before ++ after) l' v h same f;
        flagged = i.flagged;
        attended =
            after_task-Attended (λ j. has_event j es) now waiting before (Task.client_read fd) after
              a l' e arms i.attended f;
      }
  step-IsSound (Step.worker_write now waiting before after fd c sends l es e h f) i =
      let a = client_write (is_running l.state) sends c in
      let (same, arms) = client_write-Keeps (is_running l.state) sends c in
      record {
        valid = after_task-IsValid now waiting fd c a (before ++ after) l i.valid h same f;
        flagged = i.flagged;
        attended =
            after_task-Attended (λ j. has_event j es) now waiting before (Task.client_write fd)
              after a l e arms i.attended f;
      }
  step-IsSound (Step.worker_again before after fd l es e) i =
      let l' = record l { submitted = before ++ after } in
      record {
        valid =
            Same-IsValid l' (handle_client_read fd l') (handle_client_read-Same fd l')
              (Same-IsValid l l' (refl, refl, refl) i.valid);
        flagged = i.flagged;
        attended =
            read-Attended (λ j. has_event j es) fd l'
              (take-Attended (λ j. has_event j es) before (Task.read_again fd) after l e
                i.attended);
      }

  reach-IsSound : {s : Server} → Reachable hash walk router s → IsSound s
  reach-IsSound (Reachable.beginning now) = begun-IsSound now
  reach-IsSound (Reachable.later r st) = step-IsSound st (reach-IsSound r)

  -- At every moment of a run before its cleanup, whatever order the loop's events, the workers' tasks
  -- and a stop come in, each task being one step, so that no two threads accept at the same time: no
  -- descriptor is twice in the table, the count of active connections is that of the table and at most
  -- 10000, and each address holds as many slots as it has connections. This needs that `accept`
  -- returns no descriptor of the table, and that a task holds the connection of the table or one that
  -- is removed.
  pub reach-IsValid : {s : Server} → Reachable hash walk router s → IsValid s.loop
  reach-IsValid r = (reach-IsSound r).valid

  -- At every moment of a run before its cleanup, each task being one step, no connection is forgotten
  -- while the loop runs: each one of the table is
  -- registered with `epoll`, and either its descriptor is armed for reading or writing, or an event of it
  -- is to be handled, or a task for it is in the pool. This needs that an event of a client has a flag,
  -- that `accept` returns no descriptor of the table, and that a task holds the connection of the table
  -- or one that is removed.
  pub reach-attended :
      {s : Server}
      → Reachable hash walk router s
      → is_running s.loop.state ≡ true
      → (fd : ℕ) (c : Connection) → find_fd fd s.loop.connections ≡ some c
      → is_cared_for
          (has_task fd s.loop.submitted || has_event fd s.events)
          (find_fd fd s.loop.interest)
        ≡ true
  reach-attended r goes_on fd c there = (reach-IsSound r).attended goes_on fd c there
