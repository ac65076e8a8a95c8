-- ===== src/Lib.antt =====
-- The core of NookClaw, a personal assistant that talks to language models over several
-- providers: the failover between providers (pkg/providers), the store of conversations
-- (pkg/memory), the sessions of the agent loop (pkg/session), the routing of messages to agents
-- and sessions (pkg/routing), the registry of media files (pkg/media), the scheduler of jobs
-- (pkg/cron), the registry of tools (pkg/tools/registry.go), the cutting and sending of messages
-- (split.go and parts of manager.go of pkg/channels) and the message bus (pkg/bus).
--
-- Prelude holds what the parts share: arithmetic and lists over the native numbers, texts as
-- lists of character codes with the functions of package strings that the code calls, maps as
-- association lists with a text key, and a matcher for the regular expressions of the code.
--
-- Providers.Types is pkg/providers/types.go: FailoverReason, FailoverError and IsRetriable.
-- Providers.Cooldown is pkg/providers/cooldown.go: CooldownTracker is a record whose entries are
-- an association list; MarkFailure is mark_failure, composed of reset_stale, count_failure and
-- set_cooldown, MarkSuccess is mark_success, and the queries keep their names. The mutex is held
-- throughout each method, so a method is one step, and nowFunc's reading is its argument, in
-- nanoseconds since Go's zero time. Counters and times are unbounded numbers; the code's int and
-- time.Time hold them for any run of realistic length.
--
-- Providers.Classify is pkg/providers/error_classifier.go, with its tables in
-- Providers.Classify.Patterns. strings.ToLower is modelled on the ASCII letters, and white space
-- is that of unicode.IsSpace; \s of a pattern is that of ASCII. Providers.ModelRef is
-- pkg/providers/model_ref.go with ResolveCandidatesWithLookup of pkg/providers/fallback.go,
-- whose lookup function is a parameter.
--
-- Providers.Fallback is Execute and ExecuteImage of pkg/providers/fallback.go. The context, the
-- clock and the provider's call form the environment Env over a world that each use may change,
-- so every interleaving of cancellation, time and answers is covered. One round of a loop is
-- attempt or attempt_image, and Providers.Fallback.Loop runs a round over the candidates. The
-- attempts that the code records just before it returns another error are dropped with the
-- result and left out. Errors are kept as values; the texts that fmt.Errorf and
-- FallbackExhaustedError make of them are not modelled.
--
-- Memory is pkg/memory/jsonl.go with WriteFileAtomic of pkg/fileutil/file.go. Memory.Disk is the
-- file system of one session: a log, a metadata file, and a list of what the coming file
-- operations meet, from success over an append that stops after some bytes to one that is
-- written and not synced. A crash is a failure after which nothing more is done. Memory.Store
-- has one definition for each method of JSONLStore; the lock of a session makes a method one
-- step. Memory.Codec is encoding/json as a parameter: an encoded message is one line, no part of
-- it decodes, as encoding/json promises of an object, and it decodes to what its JSON stands
-- for, which is the message without the fields that are tagged json:"-", as the name, the
-- arguments and the thought signature of a tool call are. What is decoded can be encoded again,
-- in no longer a line, and loses no more. The metadata file is written whole by WriteFileAtomic
-- only, and so it is kept decoded; damage by another program is not modelled. Memory.View says
-- what the files stand for and states the contract of pkg/memory/store.go on a plain
-- conversation, which an operation changes by its messages as their JSON keeps them,
-- Memory.Refinement is about the methods where the file operations go well, and Memory.Recovery
-- where they do not.
--
-- Routing is pkg/routing. Routing.AgentId is agent_id.go, its regular expressions written out as
-- functions on characters. Routing.SessionKey is session_key.go, with identity links as a list
-- in the order in which Go's iteration visits the map, which is any order. Routing.Route is
-- route.go over the fields of the configuration that the resolver reads; the find functions are
-- one search with a test each. The complexity router of router.go, classifier.go and features.go
-- is not modelled.
--
-- Session.Manager is pkg/session/manager.go, sessions in memory that Save writes to a file each
-- and a restart loads; a file is kept as the session that its JSON stands for, without the
-- fields of the messages that JSON leaves out, and a failure of a file operation leaves it as it
-- was. Session.Backend is pkg/session/jsonl_backend.go over Memory.Store. Session.Manager.Steps
-- and Session.Backend.Agreement compare both with the contract of the store. Media is
-- pkg/media/store.go: Store, ReleaseAll and CleanExpired as functions between states of the
-- three maps, with the files that are deleted behind the lock as a list of paths; Media.Reach is
-- the relation of the states that they reach. A session of the agent loop is reached by the key
-- that Routing.SessionKey builds.
--
-- Cron is pkg/cron/service.go: the schedules and the list of jobs, with gronx.NextTickAfter as
-- an argument. Cron.Service is the service: its file, Start, Stop, Load, and checkJobs in the
-- parts between which the lock is free, with the handler of a job as a function that may change
-- the service. Cron.Jobs is what callers do with one job, and the relation of the service's
-- steps. The ticker that calls checkJobs is not modelled: the times of the checks are any.
--
-- Tools.Registry is pkg/tools/registry.go with the interface of base.go: tools as records, the
-- map as an association list, whose order is any that Go's map may have. Channels.Split is
-- pkg/channels/split.go: a round of the loop of SplitMessage is a function from the text that is
-- left to a message and the new rest, and split_message runs a number of rounds. The number is
-- an argument, since the loop of the code has no bound: the results say for which texts the
-- length of the text is enough.
--
-- Channels.Retry is what the worker of a channel in pkg/channels/manager.go does with one
-- message: preSend, the attempts of sendWithRetry, and runWorker's use of SplitMessage, whose
-- number of rounds is an argument here too. The worker's loop over its queue, the limiter and
-- the dispatch from the bus are not modelled.
--
-- Bus is pkg/bus/bus.go: Bus.Channel is one of the three Go channels with the publishers that
-- wait at the select, Bus the three of them with the stages of Close, and BusStep relates each
-- state to those that a publisher, a consumer or Close may lead to next. The function close is
-- Close while nothing else takes a step, one of the runs of that relation. What has been sent
-- and received is kept beside the state, for the record. The message types are parameters.
--
-- Loops are recursion on lists, but for the loop of SplitMessage, which takes the number of its
-- rounds. Not modelled: the adapters of chat platforms and model providers, the tools
-- themselves, the command line and the web console, which are input and output, and the agent
-- loop, which joins the parts.
pub mod Prelude
pub mod Providers
pub mod Memory
pub mod Routing
pub mod Session
pub mod Media
pub mod Cron
pub mod Tools
pub mod Channels
pub mod Bus
mod Tests
