-- ===== src/Lib.antt =====
-- The log collector of Hannah: it takes the log lines of all components, keeps them in a SQLite
-- database for a limited time, forwards them to a syslog target, and hands them out again.
--
-- How the parts work together. cmd/hannah-logcollector reads the configuration (internal/config),
-- opens the database, and starts the parts. Lines come in over the shipping service (internal/server)
-- and as syslog datagrams (internal/syslog), whose parser reads them. Both give them to the batching
-- writer (internal/store/writer.go), which stores them in transactions (internal/store/store.go) and
-- offers each one to the forwarder's queue as well (internal/forward/forwarder.go); the forwarder
-- formats and frames what it takes from there (internal/forward/format.go), with the names that
-- internal/names keeps and internal/hannah asks of Hannah Core. A retention removes what is too old or
-- too much. The service hands out the sources and, as archives in chunks (internal/export), the lines.
--
-- Which file models what (a file with a folder of its name has its proofs there):
-- - Store, Store.Sql, Store.Queries: internal/store/store.go. The tables are lists, a statement is a
--   step on them in the monad `Sql` that may fail, a transaction that fails is rolled back.
--   UpsertSource is upsert_source, AllSources all_sources, InsertEntries insert_entries, InsertGap
--   insert_gap, EachEntry each_entry, Gaps gaps_of, Filter.where conds, args and where_text. Sources,
--   with its statistics, is in Store.Queries.Stats.
-- - Store.Prune: Prune (prune) and UsedBytes (used_bytes) of the same file.
-- - Store.Writer: internal/store/writer.go. The state has the channel, the batch, the database, the
--   tap, and the history that the theorems speak of. Add is add, Sync send_sync and the answer that
--   the loop gives, the cases of Run are handle_request, flush and stop. Store.Writer.Steps lets calls
--   and loop interleave in any way. An entry is queued and handed to the tap in one step, since the
--   tap changes nothing of the writer.
-- - Forward.Queue: the ring of internal/forward/forwarder.go. New is new, Offer offer, take
--   take_batch, reportDrops report_drops.
-- - Forward.Encode: encode and source of the same file, against the interface Sources of the
--   forwarder. Forward.Sender: Run and send; an iteration of its loops is take_payload, dial_failed,
--   dialled or send_payload, and Forward.Sender.Steps lets them alternate with Offer.
--   Forward.Sender.Flush: flush, on shutdown.
-- - Forward.Format: internal/forward/format.go, under the same names.
-- - Names: internal/names/names.go. New is new, Name name, run run, by the answers of its Lister.
-- - Hannah.Client: internal/hannah/client.go. connect is connect, register register, Run run, by how
--   its attempts turn out. Hannah.Satellites: Names of satellites.go there (satellite_names).
-- - Syslog.Parse: internal/syslog/parse.go. Parse is parse, skipStructuredData the automaton
--   skip_from.
-- - Syslog.Receiver: Run (Syslog.Receiver.Run.run), handle, sourceID (source_id), levelFor (level_for)
--   and hostOf (host_of) of internal/syslog/receiver.go. The registry of sources is the interface
--   Sources there, which Syslog.Receiver.Registry implements with the store.
-- - Export: internal/export/export.go. FormatLine is Export.Line.format_line, fileName file_name,
--   buildManifest Export.Manifest.build_manifest, Build Export.Build.build, in the monad of jobs that
--   may fail at each operation on a file; stagedFile with its methods is StagedFile, stage, add_to and
--   discard_staged.
-- - Server: internal/server. Ship is Server.Ship, a call beside the writer as a machine whose steps are
--   the messages of its stream (receive) and the answers of the writer (answered); Export is
--   Server.Export.serve_export, whose loop over the chunks is Server.Chunks.stream_archive; GetSources
--   is answer_sources and get_sources. v1.go is Server.Legacy.
-- - Config: internal/config/config.go. Load is load, applyEnv apply_env with its loop over the numbers
--   in any order, validate validate, EffectiveAdvertisePort effective_advertise_port.
-- - Main: cmd/hannah-logcollector/main.go. runRetention is run_retention, selfAddress self_address, the
--   levels of setupLogging level_of, the registration at Hannah Core registration.
-- - Time: the timestamps of format.go and export.go. Text: Go strings as lists of bytes, with the
--   functions of strings, strconv and unicode/utf8 that are called. Prelude: what all files share.
-- - Proto: the enums of the generated package hannah-proto-go, a parameter.
-- - Tests: concrete runs and instances of the theorems.
--
-- Numbers. int64 and int32 values that are only stored and compared are integers; timestamps are
-- integers of milliseconds, instants of nanoseconds since Go's zero time. The drop counter wraps at
-- 2^64, and the limits of the retention and the announced ports wrap as int64 and int32 do. Row ids are
-- natural numbers.
--
-- Parameters: which SQL statements, reads of rows and operations on files fail, the row id of a new
-- row (it is not in use), the page counts of SQLite, time.Parse, net.SplitHostPort, the
-- environment, the reading and decoding of the configuration file, the JSON of the manifest and the
-- bytes of an archive, how much a Read of a file gives, which removals of files fail, which writes,
-- sends, dials and calls of Hannah Core fail, how much of a write goes out that fails, what Core
-- answers, the numbers and names of the enums of both generations.
--
-- Fuel: the loop of Prune runs on fuel, one more than there are entries, which is enough because
-- every round but the last deletes one; the loop over the chunks on one more than the bytes of the
-- archive, as a Read gives a byte at least; the last flush of the forwarder on more than wait in the
-- queue, as a round that goes on takes one at least. The reader of frames, which describes the other
-- end of the stream, runs on one unit for each message. Everything else is structural recursion.
--
-- Not modelled: sockets, gRPC and its streams, tickers, signals and the cancellation of contexts; what
-- is logged; the order in which main starts and stops the parts; the schema of the database and the
-- PRAGMAs of its opening; writers beside Build between its queries (a source that is registered after
-- AllSources and ships before EachEntry would get a file without a name); the retention beside the
-- writer.
pub mod Prelude
pub mod Text
pub mod Proto
pub mod Time
pub mod Config
pub mod Names
pub mod Hannah
pub mod Store
pub mod Forward
pub mod Syslog
pub mod Export
pub mod Server
pub mod Main
mod Tests
