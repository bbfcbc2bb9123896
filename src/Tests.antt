-- ===== src/Tests.antt =====
-- A registry of whole numbers on which the theorems are tried, and runs of the components.
mod Integers
mod Configuration
mod Connections
mod Encoding
mod Queue
mod Pool
mod Strings
mod Urls
mod Sequences
mod Buffers
mod Sockets
mod Service
mod Requests
mod Sources
mod Calls
mod Logs
mod Datagrams
mod Resources
mod Answers
mod Estimates
