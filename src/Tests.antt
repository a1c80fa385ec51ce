-- ===== src/Tests.antt =====
-- Runs of the definitions on small inputs, and the theorems at concrete inputs.
mod Framing
mod Requests
mod Responses
mod Queueing
mod Serving
mod Looping
mod Running
mod Working
mod Reading
mod Exiting
mod Limiting
mod Logging
