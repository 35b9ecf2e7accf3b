-- ===== src/Lib.antt =====
-- Verification library of beatrice: the protocol parser, the packet filter, the thread pool, the
-- metrics, the plugin manager, the configuration, the telemetry, the context's loop and the
-- backend for AF_PACKET sockets.
--
-- A packet arrives as bytes. The packet filter (src/PacketFilter.cpp) decides by its named filters
-- whether it passes. The protocol parser (src/parser) reads the fields that a protocol definition
-- places in it; the registry holds the definitions, of which twelve are built in, and the detector
-- guesses a protocol from a few bytes. The thread pool (src/ThreadPool.cpp) is to run tasks on
-- worker threads. The context (src/BeatriceContext.cpp) takes its settings from the configuration
-- (src/Config.cpp), and runs a loop that hands each captured packet to the plugins
-- (src/PluginManager.cpp) and counts it in the registry of the metrics (src/Metrics.cpp), which
-- the telemetry (src/Telemetry.cpp) uses for its own counters. A capture backend such as that of
-- src/AF_PacketBackend.cpp has a thread that reads packets into a queue.
--
-- Which module is about which code:
--   Base                       lists, texts, results, words, maps and numbers that all share
--   Parser.Field               include/parser/FieldDefinition.hpp, src/parser/FieldDefinition.cpp:
--                              FieldDefinition, ProtocolDefinition, FieldFactory
--   Parser.Value               FieldValue of include/parser/ParserResult.hpp; extractValue,
--                              extractField and the formatters of src/parser/ProtocolParser.cpp;
--                              toString and toHexString of src/parser/ParserResult.cpp
--   Parser.ParseResult         ParseResult and ParseResultBuilder of src/parser/ParserResult.cpp
--   Parser.ProtocolParser      ProtocolParser of src/parser/ProtocolParser.cpp
--   Parser.Registry            ProtocolRegistry, BuiltinProtocols and ProtocolDetector of
--                              src/parser/ProtocolRegistry.cpp
--   Filter                     src/PacketFilter.cpp, include/beatrice/PacketFilter.hpp
--   ThreadPool                 src/ThreadPool.cpp, include/beatrice/ThreadPool.hpp
--   Metrics                    src/Metrics.cpp, include/beatrice/Metrics.hpp; Metrics.Observe is
--                              Histogram::observe by several threads
--   PluginManager              src/PluginManager.cpp, include/beatrice/PluginManager.hpp
--   Config                     src/Config.cpp, include/beatrice/Config.hpp
--   Telemetry                  src/Telemetry.cpp, include/beatrice/Telemetry.hpp
--   Context                    src/BeatriceContext.cpp, include/beatrice/BeatriceContext.hpp
--   AfPacket                   src/AF_PacketBackend.cpp, include/beatrice/AF_PacketBackend.hpp
--   Base.Doubles, Base.Json    what the code uses of double and of nlohmann::json, as interfaces
-- A definition has the name of its function, method or type in snake_case (extractField is
-- extract_field). Modules called Tests apply the theorems to concrete values.
--
-- How the code is read. A struct is a record and an enum a data type; an object is passed in and a
-- changed object is passed out. A byte, size_t, int or other integer is a native number with the
-- wrap-around of its width written out; a signed integer is its bit pattern. A call that may end
-- in undefined behaviour or in an exception returns a Result, whose Fault says which. An
-- unordered_map is an association list. Float operations, the local time, clocks, std::regex and
-- the order that std::sort gives equal priorities come from outside src: they are parameters, and
-- Filter.Order shows that the interface of std::sort can be met, as Base.Doubles and Config.Tree
-- do for double and for the JSON library. So are the dynamic linker and the plugins
-- (PluginManager.Host), files and environment variables (Config.Environment), what the capture
-- backend gives (Context.Round), and what the system calls of a backend give (AfPacket.Answers).
-- The memory of a packet is its list of bytes, and every read is tested against it.
--
-- Loops are recursions on the list or the count that they run over, except those of
-- TelemetryCollector::flush and of the collector's own thread, which are turns of threads in
-- Telemetry.Flush. The loop of the context runs over the rounds that are given. The texts of
-- numbers are written with fuel above the number, since each digit at least halves it.
--
-- A method is one step: locks are not modelled, except that in ThreadPool.Worker the steps of the
-- workers and of the callers interleave in any order, and in Metrics.Observe the atomic accesses
-- of the threads do; in AfPacket.Reached the reads of the thread come between the callers' calls.
-- In Telemetry.Flush the collector's own thread and any number of calls of flush take turns: to
-- test the queue and pop is one turn, and an event is processed in several. Sums of times are
-- numbers without bound: they stand for an int64 below 2^63 microseconds, some 292,000 years. A
-- task of the pool is the number of a closure.
--
-- Not modelled: JSON, XML and CSV output of parse results, ParserBuilder and the logging
-- callbacks; the scores of calculateConfidence; the weighted and adaptive choice of a thread,
-- which is floating point and never called; thread affinity and priority; toJson and toPrometheus
-- of telemetry events; the order of the steps of BeatriceContext::initialize, its shutdown and its
-- loop with several threads; the printing of the configuration. The packet callback of a backend,
-- the other capture backends, the XDP loader, the logger and the command line programs are not
-- modelled: they are for the most part calls of the system or of libraries.
pub mod Base
pub mod Parser
pub mod Filter
pub mod ThreadPool
pub mod Metrics
pub mod PluginManager
pub mod Config
pub mod Telemetry
pub mod Context
pub mod AfPacket
