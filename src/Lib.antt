-- ===== src/Lib.antt =====
-- A model of a multithreaded HTTP/1.1 server, and the theorems that make it correct.
--
-- A listening socket and its clients are watched by one event loop. It accepts clients into a table,
-- within a limit for all and one for each address, and hands readable and writable clients to a pool
-- of worker threads through a bounded queue. A worker reads the bytes of a client into the buffer of
-- its connection, lets the request parser take requests out of it, routes each to a handler, and
-- encodes the response into the connection's write buffer, which is flushed to the socket.
--
-- Base: numbers, tests, lists, byte strings and maps. A byte string is a list of numbers; the
-- functions of the standard library that the code calls stand in Base.Text and Http.Numbers.
-- Protocol.Framer: include/protocol/Framer.h and src/protocol/Framer.cpp, lines and blocks of bytes
-- cut out of a buffer. Reference parameters are arguments, and their final values are in the result.
-- Http.Headers, Http.Request, Http.Response, Http.Router: the classes of src/Http of these names.
-- Http.RequestLines, Http.ChunkSize, Http.Parser: src/Http/HttpRequestParser.cpp. `parse` is a loop
-- over `step`, one round, with the parser, the read buffer and the request as its state. Its fuel,
-- twice the buffered bytes and two, is enough in every state.
-- Http.Encoder: src/Http/HttpResponseEncoder.cpp. The order in which the header map is walked is a
-- parameter. Http.ChunkedBody and Http.Message: what the parser makes of printed bodies and requests.
-- Concurrency.TaskQueue, Concurrency.ThreadPool: src/concurrency. A call runs under the lock, and is
-- `blocked` where the code waits; a history is any sequence of calls of any threads, and a schedule
-- of the pool any order of its workers.
-- Middleware.PerIpConnectionLimiter: src/middleware/PerIpConnectionLimiter.cpp.
-- Middleware.RateLimiter: src/middleware/RateLimiter.cpp, the two locked steps of `allow` alone and
-- together, and `sweep_stale`. Tokens are exact billionths; the rounding of `double` is not modelled.
-- Network.Connection: src/network/Connection.cpp, the results of `send` being a list.
-- Network.EventLoop: src/network/EventLoop.cpp, with the table in Network.EventLoop and the rounds of
-- `run` in Network.EventLoop.Rounds. The answers of the kernel are arguments: the connections that
-- wait, the events, the time. Handlers do not overlap with one another there.
-- Network.EventLoop.Start: its constructor and `start`, with what each system call answers.
-- Network.Worker, Network.ReadTask: the task that handle_client_read gives to the pool, its parse
-- loop first, at most 51 rounds as in the code. The rate limiter is its operation `allow` on a state.
-- Network.WriteTask: the task that handle_client_write gives to the pool.
-- Network.EventLoop.Race: threads that accept at the same time, as a step relation of its own.
-- Network.Server: the loop and its workers together, as a step relation over the state of the loop and
-- the events that `epoll_wait` has returned. A task is one step, in which no other thread uses the
-- rate limiter and no other thread accepts; the steps end before the cleanup. The pool is taken to
-- have room for every task that the loop submits, while `TaskQueue::submit` waits at 1024 tasks.
-- Network.TcpServer: src/network/TcpServer.cpp and src/network/SocketUtils.cpp.
-- Utils.LogEntry, Utils.Logger, Utils.HttpLogGuard: src/Utils/Logger.cpp and include/Utils/HttpLogGuard.h. Lines that
-- are written are lists; the fuel of the logger's worker is one more than the entries that wait.
-- Http.Client: a reader of responses after RFC 9112, which is no part of the program: what a client makes
-- of the bytes. Its fuel is the number of bytes. Http.Client.Framed and Http.Client.Answers say which
-- responses it can read. Network.Worker.Promised says what a worker owes to the bytes of a client,
-- without the parse loop, and Network.Worker.Conversation what a client reads of it;
-- Network.Worker.Session has the same for requests that arrive in deliveries of any size at any time.
-- There a task that has used its rounds up is followed by the one that it submits before the next
-- delivery, which makes at most one task more than there are bytes, and the write buffer is not
-- flushed in between.
-- Main: the handlers and routes of main.cpp. Main.Signals: `signal_handler` and `g_server`, and the call
-- of `run` that signals interrupt between two rounds. Main.Process: `main`; what the other threads
-- log, and the rounds of the logger's worker, are lists. The fuel of the logger is more than the
-- calls that log. The tasks that still run while the server is destroyed have no place there.
-- Tests: examples, and the theorems applied to them.
--
-- Numbers are natural numbers, with `% 2 ^ 64` where a `size_t` could wrap. Not modelled: exceptions;
-- memory, threads and signals themselves; where the other parts call the logger.
pub mod Base
pub mod Concurrency
pub mod Protocol
pub mod Http
pub mod Middleware
pub mod Network
pub mod Utils
pub mod Main
mod Tests
