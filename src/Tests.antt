-- ===== src/Tests.antt =====
-- The theorems at concrete inputs, and runs of the definitions on inputs that can be followed in the
-- source.
mod Units
mod Jobs
mod Counters
mod Tables
mod Lives
mod Services
mod Events
mod Sockets
mod Devices
mod Recovery
mod Loading
mod Manager
