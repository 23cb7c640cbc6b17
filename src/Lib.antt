-- ===== src/Lib.antt =====
-- KyDNS is a DNS server for a home network. It answers for the names of the network from a snapshot
-- of the configured zone, filters what it forwards by a blacklist policy, caches what comes back,
-- and gives out addresses and names by DHCP. A web interface, behind admin sessions, changes the
-- configuration, and a replica pulls it from a primary. A query passes the allow-list first, is
-- answered from the zone if the name is ours, and otherwise passes the blacklist and goes to the
-- cache and the upstreams. A DHCP message reaches the allocator and the table of leases; the snapshot
-- of the zone takes those leases and the views of the matcher. Settings reach the running parts only
-- through one checked write.
--
-- The files, and the code that each is about (paths from the root of the repository):
--   Dhcp/Alloc.antt            internal/dhcpd/alloc.go: allocate with its rules 1 to 4, Offer,
--                              Allocate, Release, Decline, Quarantine, Load, SetReservations, Leases.
--                              The children of Dhcp/Alloc hold the proofs: Commit (what the two maps
--                              hold after a grant), Invariant, Scan (the loop over the range), Rules
--                              (the ways that allocate can end), Safety, Own, Names, Returns, History.
--   Dhcp/Reserve.antt          internal/dhcpd/reserve.go: Reservations, broadcastOf
--   Dhcp/Hostname.antt         internal/dhcpd: sanitizeHostname
--   Dhcp/Server.antt           internal/dhcpd/server.go: handle, which composes the allocator with the
--                              probe and the table of internal/store/dhcplease.go; restore
--   Dns/Acl.antt               internal/dnsserver/acl.go: Replace, Allow, RecentCGNATRefusal
--   Dns/Cache.antt             internal/dnsserver/cache.go: Get, Put, ttlFor, Retune, Flush, Len
--   Dns/History.antt           internal/dnsserver/history.go: add, addCache, current, snapshot
--   Dns/Metrics.antt           internal/dnsserver/metrics.go: Record, RecordCache, Snapshot
--   Dns/Message.antt           the messages that these read and write
--   Dns/Authoritative.antt, Dns/Authoritative/Arpa.antt
--                              internal/dnsserver/auth.go: SetZone, SetTTL, SetReverseZones, owns,
--                              Answer, chase, toRR; addrFromArpa
--   Dns/Forwarder.antt         internal/dnsserver/forward.go: Replace, record, Resolve, exchange
--   Dns/Server.antt            internal/dnsserver/server.go: ServeDNS, which composes the allow-list,
--                              the view matcher, Answer, the blacklist policy and the forwarder
--   Health/Checker.antt        internal/health/checker.go: Reconfigure, record, probeAndRecord,
--                              CheckOnce
--   Policy/Set.antt            internal/policy/set.go: NewSet, Match
--   Policy/Normalize.antt      internal/policy/normalize.go: Normalize, validLabel
--   Policy/Snapshot.antt       internal/policy/snapshot.go: Build, Decide
--   Policy/Holder.antt         internal/policy/holder.go: Rebuild, Decide and its counters
--   Policy/Parse.antt          internal/policy/parse.go: Parse, parseLimit, lineDomains
--   Policy/Refresher.antt      internal/policy/refresher.go: RefreshDue, RefreshAll, refresh; the rows
--                              that internal/store/blacklist.go writes for them
--   Upstream/Parse.antt        internal/upstream/parse.go: Parse, ParseAll, hostPort, dohAuthority
--   Zone/Matcher.antt          internal/zone/matcher.go: NewMatcher, Match, Names
--   Zone/Names.antt, Zone/Index.antt, Zone/Snapshot.antt
--                              internal/zone/snapshot.go: qualify and arpaName; pick and
--                              buildIndex; Build, Lookup, LookupPTR, HasName
--   Zone/Holder.antt           internal/zone/holder.go: Rebuild
--   Registry/Validate.antt     internal/registry/validate.go: Normalize, ValidateLabel, ValidateName
--   Registry/Writes.antt       internal/registry/registry.go: the checks of PutService, PutRecord,
--                              PutView and ReplaceAll
--   Replica/Pairing.antt       internal/replica/pairing.go: Mint, Redeem
--   Replica/Puller.antt        internal/replica/puller.go: NewPuller, poll, Health
--   Auth/Backoff.antt          internal/auth/password.go: Delay, Fail, Reset
--   Auth/Session.antt          internal/auth/session.go: Create, Get, Destroy, ValidCSRF
--   Settings/Model.antt, Settings/Rename.antt
--                              internal/store: the row of the settings; ZoneSuffix, RenameInZone
--   Settings/Validate.antt     internal/settings/validate.go: ValidateStored, ValidateWrite
--   Settings/Service.antt      internal/settings/settings.go: Build, Rebuild, Set, CheckWrite
--   Prelude.antt, Net.antt, Text.antt   maps, equality tests and numbers; net/netip; strings
-- A Tests module beside them runs the definitions at concrete inputs.
--
-- State and operations. A struct is a record with the fields of the source, and a method that
-- changes it takes the record and returns the new one. Where a method holds its mutex from beginning
-- to end, or is atomic, it is one step, and an interleaving of calls is a list of them (`Call` of
-- Dhcp/Alloc/History.antt and of Auth/Session.antt, `Log` of Dns/History/Window.antt). An error is a
-- value. A map is an association list; where the source ranges over a map, the order of that list
-- stands for Go's order, which is unspecified. The clock's reading and random strings are arguments;
-- times are natural numbers of nanoseconds, but of seconds in Dns/Metrics.antt, in
-- Policy/Refresher.antt and in the rows of Dhcp/Server.antt, and of minutes in Dns/History.antt.
-- Counters wrap at 2^64, TTLs at 2^32. Sizes that a caller passes as `int` are natural numbers. Record and
-- RecordCache of internal/dnsserver/metrics.go hold no lock; each is taken as one step, so calls that
-- overlap are not modelled there. Rebuild of internal/zone/holder.go holds none either, and is two
-- steps that calls can interleave. One call of Resolve is one step of the forwarder, and calls that the
-- singleflight group joins share its result. What an upstream answers, a probe of a service returns
-- and a download brings are functions that the operations take as arguments. Whether a write to the
-- database succeeds is an argument in Dhcp/Server.antt, Settings/Service.antt and
-- Replica/Puller.antt; elsewhere, and in reading, a query to the database does not fail.
--
-- Bounds and fuel. The scan of the DHCP range takes one round for each address up to the end and
-- one more; Set.Match takes one round for each byte of the name and one more; the eviction loop
-- takes one round for each element. Each of these loops ends before its bound is reached, because a
-- round takes an address, a byte or an element away. The chase of aliases has the bound of the source,
-- eight rounds.
--
-- Code that is not of the repository. net/netip and strings are modelled as documented; case and
-- white space are those of ASCII, and a zone of an IPv6 address is a string. The parser of prefixes,
-- netip.ParseAddr, the IDNA conversion and dns.Fqdn are arguments, and no result assumes anything of
-- them.
--
-- Not modelled: sockets and the wire format, the search for other DHCP servers, the query log, the
-- exchange with an upstream and the closing of retired ones, the download of a list, the SQL of the
-- database, the transport of replication, the web interface and the commands.
pub mod Prelude
pub mod Net
pub mod Auth
pub mod Dhcp
pub mod Dns
pub mod Health
pub mod Policy
pub mod Registry
pub mod Replica
pub mod Settings
pub mod Text
pub mod Upstream
pub mod Zone
