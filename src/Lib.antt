-- ===== src/Lib.antt =====
-- go-discord-caller: a Discord bot that captures voice in one channel and relays it to speaker
-- bots in others, within a server and between servers.
--
-- The parts and how they interact. A raid starts under a guard (internal/manager/start_guard.go) and
-- ends when its callers have been gone for a while (internal/manager/session_idle.go); bots that lose
-- their connection rejoin (internal/manager/voice_reconnect.go), and bots that need not hear are kept
-- server-deaf (internal/manager/speaker_deafen.go). A voice
-- receiver (internal/opus/voice_receiver.go) takes the packets of a channel, asks a filter whom it
-- may relay (internal/manager/allow_user.go), and fans them out: raw to voice providers
-- (internal/opus/voice_provider.go), decoded to the rings (internal/opus/source.go) of mixers
-- (internal/opus/mixer.go), and to the sessions that join guilds (internal/ally/session.go). The
-- auto-router (internal/manager/router/router.go) decides which sources copy and which mix. Settings
-- live in a YAML file (internal/store), and the outcomes of end-to-end encryption are counted in
-- internal/dave/stats.go.
--
-- What models what:
--   Base      the shared types; Go maps (Base/Maps.antt) and their laws, lists, sums.
--   Router    router.go. `compute_routes` is computeRoutes, `apply_modes` applyModes, `recompute`
--             Recompute. The rounds of its fixpoint are bounded by one for each source and each
--             destination and one more: every round but the last promotes a destination or a
--             source, and none is promoted twice, which Router/Fuel.antt turns into a theorem.
--   Ally      session.go: the registry of codes (Ally/Registry.antt), the members of a session, and
--             the sends of a broadcast.
--   Opus      Ring is source.go; Schedule, Tick, Mix and Watcher are the schedule, the ticks, the sums
--             and the pauses of mixer.go and drain.go; Provider is voice_provider.go; Receiver is voice_receiver.go,
--             with a packet's way in Receiver/Dispatch.antt and its life in Receiver/Runs.antt.
--   Store     store.go and yaml_store.go: the calls, the flush loop as events, the data as it is
--             saved and loaded, and the file with every outcome of the file system.
--   Dave      stats.go: the counters, who holds a sender, what a collection exports and evicts.
--   Manager   StartGuard, SessionIdle, AllowFilter and Bindings, each the file of its name (Bindings
--             is channel_bindings.go). Deafen is speaker_deafen.go: the controller, its runs with the
--             changes under way (Deafen/Session.antt), and the flag of a bot that joins (Deafen/Join).
--             Raid is voice_raid.go, the starts of a host and a guest as the list of what they take
--             and give back; Raid/Sessions.antt is what service.go keeps of the sessions. Reconnect is
--             voice_raid_reconnect.go, and Reconnect/Rejoin.antt voice_reconnect.go.
--
-- Go maps are association lists whose order is the order of iteration, so that what is stated for
-- every list holds in every order in which Go may visit a map. Snowflake ids, lengths and counts
-- are natural numbers; a fixed width is written out where the code wraps (the samples of a mix, RTP
-- timestamps). A pointer is the number of its allocation. A call that works under
-- one lock is one step; goroutines are lists of such steps in an arbitrary order. A definition that
-- takes several locks or atomic operations together says so, and is then the call that nothing
-- interrupts.
--
-- Not modelled. Third-party code is a parameter or an answer that a definition takes: Discord and
-- its caches, libopus, libdave, the YAML codec, the file system, the clock. Telemetry, texts, the
-- interaction handlers, the configuration and the programs under cmd only pass values on. The
-- wiring of the topologies (internal/manager/pipeline), the pool of bots (internal/pool), the joins of
-- the speakers and the set-up of a voice connection (voice_raid_setup.go, voice_conn_setup.go), the
-- timers of the router and the input map of a mixer are not in the library yet.
pub mod Ally
pub mod Base
pub mod Dave
pub mod Manager
pub mod Opus
pub mod Router
pub mod Store
