-- ===== src/Examples.antt =====
-- The theorems at concrete inputs, and runs of the code.
mod World
mod Packets
mod Streams
mod PlayLists
mod Deletions
mod Queues
mod Registration
mod Requests
mod Manager
mod Sockets
mod Songs
mod Pools
mod Lists
mod Updates
mod Downloads
mod Connections
