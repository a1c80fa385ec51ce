-- ===== src/Network/Worker/Promised.antt =====
-- What a worker owes to the bytes of a client: the requests that the parser takes out of the buffer when
-- it is called alone, and the responses that these requests and their handlers call for. Nothing here
-- is defined by the parse loop.
use c_http_1_1_server.Base.{
  ℕ, zero, suc, ◌≡◌, Bool, true, false, not, ◌&&◌, List, [], ◌∷◌, ◌++◌, Option, none, some,
  if◌then◌else◌, Bytes, is_empty,
}
use c_http_1_1_server.Http.Request
use c_http_1_1_server.Http.Request.{HttpRequest, wants_keep_alive}
use c_http_1_1_server.Http.Response.{HttpResponse, already_close, finalize_for_connection}
use c_http_1_1_server.Http.Response.Close.{finalize_agrees}
use c_http_1_1_server.Http.Parser
use c_http_1_1_server.Http.Parser.{Machine, ParseResult, parse}
use c_http_1_1_server.Http.Encoder.{encode}
use c_http_1_1_server.Http.Router.{HttpRouter, route}
use c_http_1_1_server.Network.Worker.{is_head, bad_request, too_many_requests}

-- A request, or bytes that are none.
pub data Found : Type 0 where
  request : HttpRequest → Found
  malformed : Found

-- The parser and the request are reset behind a request.
abbrev pub renewed : Machine → Machine
renewed m = record m { parser = Parser.reset m.parser; request = Request.reset m.request }

abbrev pub found_first : (Machine → List Found) → Option (ParseResult × Machine) → List Found
found_first others none = []
found_first others (some (ParseResult.incomplete, m)) = []
found_first others (some (ParseResult.error, m)) = malformed ∷ []
found_first others (some (ParseResult.success, m)) = request m.request ∷ others (renewed m)

-- What so many calls of the parser find.
unfoldable pub found : ℕ → Machine → List Found
found zero m = []
found (suc n) m = if is_empty m.read_buffer then [] else found_first (found n) (parse m)

module _ (router : HttpRouter) where
  -- The handler's response, with the connection kept exactly if the client wants it and the handler
  -- does not ask for a close.
  abbrev pub response_for : HttpRequest → HttpResponse
  response_for r = finalize_for_connection (wants_keep_alive r) (is_head r.method) (route r router)

  abbrev pub closes_after : HttpRequest → Bool
  closes_after r = not (wants_keep_alive r && not (already_close (route r router)))

  pub response_for-closes : (r : HttpRequest) → (response_for r).close_after_send ≡ closes_after r
  response_for-closes r =
      (finalize_agrees (wants_keep_alive r) (is_head r.method) (route r router)).0

module _ {L : Type 0} (allow : Bytes → L → Bool × L) (router : HttpRouter) where
  abbrev pub owed_first : (L → List HttpResponse) → HttpRequest → Bool × L → List HttpResponse
  owed_first others r (false, l) = too_many_requests ∷ []
  owed_first others r (true, l) =
      response_for router r ∷ (if closes_after router r then [] else others l)

  -- A response for each request, in order, up to the first behind which the connection closes, that the
  -- rate limiter refuses, or that is malformed.
  unfoldable pub owed : Bytes → List Found → L → List HttpResponse
  owed ip [] l = []
  owed ip (malformed ∷ fs) l = bad_request ∷ []
  owed ip (request r ∷ fs) l = owed_first (owed ip fs) r (allow ip l)

-- The bytes of some responses, one behind the other.
unfoldable pub encoded : (List (Bytes × Bytes) → List (Bytes × Bytes)) → List HttpResponse → Bytes
encoded walk [] = []
encoded walk (r ∷ rs) = (encode walk r false).0 ++ encoded walk rs
