-- ===== src/Network/Worker/Session/Settled.antt =====
-- What stands behind a run of the parse loop, by how it ended.
use c_http_1_1_server.Base.{◌≡◌, Bool, List, ◌++◌, Option, some, Bytes}
use c_http_1_1_server.Protocol.Framer.Refuse.{ShortLines}
use c_http_1_1_server.Http.Parser.Suffix.{Suffix, Suffix-append, ShortLines-Suffix}
use c_http_1_1_server.Http.Router.{HttpRouter}
use c_http_1_1_server.Network.Connection.{Connection}
use c_http_1_1_server.Network.Worker.{Ending, Served}
use c_http_1_1_server.Network.Worker.Session.{deliver, Yields}
use c_http_1_1_server.Network.Worker.Session.Rounds.{view}

module _ {L : Type 0} (allow : Bytes → L → Bool × L)
    (walk : List (Bytes × Bytes) → List (Bytes × Bytes)) (router : HttpRouter) where
  -- What stands behind a run of the loop, by how it ended: its end does not depend on the rounds, and
  -- if they were used up, the run goes on from there; if it waits for more, the run on all the bytes is
  -- the run from there on; if it closes the connection, more bytes change nothing, and if it refuses,
  -- they change nothing where no line is too long.
  abbrev pub Settled : Connection → L → Served L → Ending → Type 0
  Settled c l s Ending.has_more =
      (v : Ending × Bytes × L)
      → Yields allow walk router s.connection s.limiter v
      → Yields allow walk router c l v
  Settled c l s other = Yields allow walk router c l (view allow walk router s)

  abbrev pub Resumed : Bytes → Connection → L → Served L → Ending → Type 0
  Resumed more c l s Ending.refused =
      ShortLines (c.read_buffer ++ more)
      → Yields allow walk router (deliver more c) l (view allow walk router s)
  Resumed more c l s Ending.close_after_response =
      Yields allow walk router (deliver more c) l (view allow walk router s)
  Resumed more c l s waits =
      (v : Ending × Bytes × L)
      → Yields allow walk router (deliver more s.connection) s.limiter v
      → Yields allow walk router (deliver more c) l v

  abbrev pub Resumes : Bytes → Connection → L → Option (Served L) → Type 0
  Resumes more c l o =
      (s : Served L) × (o ≡ some s)
      × Settled c l s s.ending
      × Resumed more c l s s.ending
      × Suffix s.connection.read_buffer c.read_buffer

  -- From the rest of the loop to the whole of it.
  pub Settled-next :
      (c c' : Connection) (l l' : L) (s : Served L) (e : Ending)
      → ((v : Ending × Bytes × L)
          → Yields allow walk router c' l' v
          → Yields allow walk router c l v)
      → Settled c' l' s e
      → Settled c l s e
  Settled-next c c' l l' s Ending.emptied f y = f (view allow walk router s) y
  Settled-next c c' l l' s Ending.incomplete f y = f (view allow walk router s) y
  Settled-next c c' l l' s Ending.close_after_response f y = f (view allow walk router s) y
  Settled-next c c' l l' s Ending.refused f y = f (view allow walk router s) y
  Settled-next c c' l l' s Ending.has_more f y = λ v z. f v (y v z)

  pub Resumed-next :
      (more : Bytes) (c c' : Connection) (l l' : L) (s : Served L) (e : Ending)
      → Suffix c'.read_buffer c.read_buffer
      → ((v : Ending × Bytes × L)
          → Yields allow walk router (deliver more c') l' v
          → Yields allow walk router (deliver more c) l v)
      → Resumed more c' l' s e
      → Resumed more c l s e
  Resumed-next more c c' l l' s Ending.emptied x f y = λ v z. f v (y v z)
  Resumed-next more c c' l l' s Ending.incomplete x f y = λ v z. f v (y v z)
  Resumed-next more c c' l l' s Ending.close_after_response x f y = f (view allow walk router s) y
  Resumed-next more c c' l l' s Ending.refused x f y = λ short.
      f (view allow walk router s)
        (y (ShortLines-Suffix _ _ (Suffix-append c'.read_buffer c.read_buffer more x) short))
  Resumed-next more c c' l l' s Ending.has_more x f y = λ v z. f v (y v z)
