-- ===== src/Tests.antt =====
-- Tests of the definitions on concrete inputs, and instances of the theorems.
mod Adapters
mod EndToEnd
mod Instances
mod Mpi
mod Locked
mod Server
mod Client
mod Transport
mod Threads
mod Streaming
mod Sending
mod System
mod Life
