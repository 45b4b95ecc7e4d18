-- ===== src/Lib.antt =====
-- RustBlocker, a DNS server that blocks names: a model of its core and what it is proved to do.
--
-- A request comes to `handle_request` (src/handler.rs). It takes a permit of the concurrency gate, is
-- checked against the access list (src/acl.rs), and its first query is answered from the rewrite map
-- (src/lists.rs), blocked by the block and allow lists (src/lists.rs), or sent upstream by the
-- forwarder (src/forwarder.rs); what happened goes to the query log (src/stats.rs). The lists are kept
-- in a database (src/db.rs) and loaded into memory from there; sources are fetched again as they get
-- stale, and a slave takes the state of a primary over (src/sync.rs).
--
-- Base       lists, bytes, words and Boolean tests that the parts share. Text is a list of codes, and
--            only ASCII letters change case.
-- Domain     `normalize_domain` and the line grammars of src/lists.rs and src/db.rs.
-- Store      `DomainStore` of src/lists.rs: the arena of length-prefixed names, the two hash indexes
--            (Store.Buckets), insert, remove, compact, merge and matches. The hash function is a
--            parameter. Store.Laws is about its invariant and the names held, Store.Laws.Model about
--            the sets of names that it stands for.
-- Acl        `Acl` of src/acl.rs; networks belong to `ipnet` and are parameters.
-- Rewrites   `RewriteMap` of src/lists.rs.
-- Message    the DNS messages that the program reads and `downstream_message`, `upstream_request` of
--            src/forwarder.rs. EDNS data and records belong to hickory: an interface, `Dns`.
-- Database   src/db.rs. Tables has the rows and the statements that the operations share, Domains and
--            Sources the operations on lists, Settings those on settings, upstreams and rewrites,
--            Refresh the refresh of a source with the stores in memory. A transaction that fails is
--            rolled back; which calls get a connection and commit is an argument, and so is which reads
--            and which statements whose failure the code ignores succeed (`Reads`, `Cleanup`).
-- Sync       src/sync.rs. Apply takes a snapshot of the primary over, Poll compares the manifests and is
--            the loop. JSON values belong to serde_json: they are fields of a record, `World`.
-- Api        the handlers of src/api.rs that change lists, sources, upstreams and rewrites (Lists,
--            Records), and their routes (Requests).
-- Update     which release of the feed src/update.rs offers; versions belong to `semver`.
-- QueryLog   `QueryLog` of src/stats.rs: the hot path, the writer that fills the table (Writer), and
--            the trend and the counts that are read from it (Trend).
-- Gate       `DnsConcurrency` of src/handler.rs; its runs are a step relation.
-- Forwarder  `ParallelForwarder` of src/forwarder.rs: Health is the ranking of an upstream, Labels the
--            strategies and what is logged, Resolve the call itself. A call reads the events that the
--            network and the timers deliver, in their order; it is `none` while it waits.
-- Handler    the block responses of src/handler.rs; Handler.Serve is `handle_request`, stage by
--            stage.
-- Throttle   `LoginThrottle` of src/auth.rs; Session its signed cookies and what the middleware lets
--            through. The keyed hash, base64 and the text of numbers are an interface, `Signing`.
-- Checks     the theorems at concrete inputs, with runs of the code.
--
-- Numbers are natural numbers. Words keep their bounds: saturating sums stop at 2^64 - 1, counters
-- wrap at 2^64, offsets and lengths in the arena have 32 and 16 bits; the times of the trend are i64
-- raised by 2^63, and other times are seconds. Theorems on the store ask that the arena fits in 2^32
-- bytes. No definition runs on fuel: the loops go over lists, and the loops of the forwarder, of the
-- writer and of the synchronisation over the events.
--
-- Not modelled: passwords (src/auth.rs: bcrypt and random generation); the certificates, the pages of
-- domains and the manifest of hashes in src/db.rs, the text of SQL and its migrations; the top lists
-- and pages of src/stats.rs; the download of updates (src/update.rs); the clients of the certificate
-- authority and what renews certificates (src/acme.rs, src/cloudflare.rs, src/renewal.rs, src/tls.rs);
-- the other handlers of the HTTP API (src/api.rs); the start of the server (src/main.rs) and the
-- developer tools. Settings that change during a call of `handle_request`, and a deadline that passes
-- while a reply is being sent, are outside the model.
mod Base
pub mod Domain
pub mod Store
pub mod Acl
pub mod Rewrites
pub mod Message
pub mod Database
pub mod Sync
pub mod Api
pub mod Update
pub mod Throttle
pub mod Session
pub mod QueryLog
pub mod Gate
pub mod Forwarder
pub mod Handler
mod Checks
