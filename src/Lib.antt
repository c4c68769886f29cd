-- ===== src/Lib.antt =====
-- The music server, a C program that lets up to ten clients queue MP3 files for one loudspeaker.
--
-- A client's packet comes to `handleClient` (MusicServer/src/serverRoutine.c), is decoded
-- (Common/src/packet.c), and goes as a message to the resource manager
-- (MusicServer/src/resourceManager.c). The manager serves one message at a time: the client database
-- (MusicServer/src/clientdb.c) registers the client or enters its request in the play list
-- (MusicServer/src/playlist.c), which keeps one list (Common/src/list.c) for each client; then the
-- manager's state machine starts downloads and songs. Downloads, songs and updates to clients are
-- jobs of a pool of threads (Common/src/gthreads.c). Between requests the jukebox
-- (MusicServer/src/jukebox.c) plays songs of its own.
--
-- Files and what they model:
--   Base: Boolean tests, lists over native numbers, 32-bit words, and `Run`, the outcome of C code:
--     a value, or a fault where C or the system gives none (a null or freed pointer, an index out of
--     bounds, a thread that waits for its own lock).
--   NodeList: Common/src/list.c, a list as the sequence of its nodes with `totalNode` beside it.
--     NodeList/Laws is about those functions. NodeList/Heap has the same functions on nodes in memory;
--     Cells, Unlinks, Refines and Removals are about what they leave there, Memory about any calls, Dangling about
--     `deleteLast`.
--   Queue: the queue and the stack of Common/src/queue.c. Queue/Order is about the order of their
--     data. The jobs and the manager's messages are plain lists elsewhere.
--   Packet: Common/src/packet.c, messages and their bytes. Packet/Bytes has the byte orders of hosts
--     and network, Packet/RoundTrip and Packet/Resend are about `encodePacket` and `decodePacket`.
--   PlayList: MusicServer/src/playlist.c, a state that each function of the table takes and gives.
--     PlayList/Invariant and Soundness are about what all functions keep, Schedule about the
--     scheduler, Status, Promotion and Deletion about requests that change their state or go, and Calls takes
--     the whole table as one function of a call.
--   ClientDb: MusicServer/inc/clientdb.h with the state of the whole server. ClientDb/Register,
--     Notify and Slots have the functions of MusicServer/src/clientdb.c: registration, the updates
--     that go to clients, and the two positions for files. ClientDb/Search, Registry and Admission
--     are about registration, Queueing and Unqueueing about requests that come and go,
--     Positions about those that are to be downloaded, Broadcast about an update to all clients,
--     Syncing, Synced and Deadlock about the updates to one client, Quiet about what sends nothing.
--   Socket: `receiveData` and `sendData` of Common/src/gsocket.c, over a list of what `select`, `recv`
--     and `write` answer round by round. Socket/Receive and Socket/Send are about these loops,
--     Socket/Open has the functions that open a socket.
--   ServerRoutine: `handleClient`, `sendACKandClose` and `sendNACKandClose` of
--     MusicServer/src/serverRoutine.c. ServerRoutine/Framing is about streams of packets.
--     ServerRoutine/Connection has `handleClient` on a socket.
--   ResourceManager: MusicServer/inc/resourceManager.h and the table of the state machine.
--     ResourceManager/Requests has `servClientRequest`, ResourceManager/Machine `servRequest` and
--     the functions of the table. ResourceManager/Answers, Effects, Registered, Served, Freed and
--     Ends are about the messages of clients, Completed and Finished about a download that is complete, Edges and
--     Diagram about the state diagram, Stall about any sequence of messages.
--     ResourceManager/Download has `getMP3FileFromClient` of MusicServer/src/serverRoutine.c, which
--     posts its message to the manager; Loaded and Fetched are about its loop and its end.
--   Jukebox: the walk through the directories of MusicServer/src/jukebox.c. Jukebox/Names is about the
--     tests on names, Jukebox/Walks about where the walk leads, Jukebox/Endings about whether it ends.
--   MusicPlayer: `playSong` of MusicServer/src/musicPlayer.c. MusicPlayer/Played is about what is heard.
--   Threads: the pool of Common/src/gthreads.c, its threads' actions as steps that come in any order.
--     Threads/Fifo is about the order of the jobs, Threads/Wakeups about who is woken for them.
--   Startup: the thread of MusicServer/src/server.c that accepts connections.
--   Examples: inputs, runs of the code, and the theorems at such inputs.
--
-- Names follow the source: `playListSchedular` is `play_list_scheduler`, `rm_Playing_Downloading` is
-- `playing_downloading`. A plain `char` is unsigned, as it is on ARM, for which alone the Makefiles
-- build: -1 in it is the number 255, and never below 0. An unsigned word wraps where the code computes
-- it. Loops over clients take the rounds that are left, which start at the bound of the
-- `for` loop, so they never run out; loops over lists are recursion on the list. The loop of a download
-- takes as much fuel as the file has bytes, since each round writes one at least. The walk of the
-- jukebox takes fuel that a theorem gives, since it may not end. The loops on sockets are recursion on
-- the rounds of the socket; they have no result where these end first.
-- What the network does, what `write` stores in a file, which byte order the host has and which
-- song the jukebox finds are fields of the state (`Environment`, `picks`) that nothing constrains.
-- Worker threads run between two messages of the manager: ResourceManager/Stall lets them change
-- all that they share with it.
-- The properties about a message take a server whose registry is in order (`IsRegistry`): the play
-- list is sound, an address is one client's, a free place has no address. Those about the state
-- diagram hold of any server and say nothing of a message whose handling ends in a fault.
-- The manager reads a deletion's client number again after the answer; a message that was cleared is
-- read as it was cleared, before a worker receives the next packet into it. Where C leaves a result
-- open, the model has the usual compilers' (`x = x--` keeps the old value, an overlapping `sprintf`
-- appends).
-- A log message, `free` where nothing is read afterwards, and a failing `malloc` are left out.
--
-- Not modelled: `main` of MusicServer/src/MusicServer.c and `createServer`, which start threads, the
-- logging of Common/src/loggingFrameWork.c, and the circular queue of Common/src/queue.c, which
-- nothing calls.
pub mod Base
pub mod NodeList
pub mod Queue
pub mod Socket
pub mod Packet
pub mod PlayList
pub mod ClientDb
pub mod ServerRoutine
pub mod ResourceManager
mod Examples
pub mod Jukebox
pub mod MusicPlayer
pub mod Threads
pub mod Startup
