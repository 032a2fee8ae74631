-- ===== src/Lib.antt =====
-- gotun: a split-tunnel gateway. Clients send everything to it; it sends the destinations of a
-- prefix list direct and all else through a WireGuard exit.
--
-- How the program hangs together, and which file models which part:
-- - internal/prefixes/collapse.go shrinks the prefix list (Collapse; Collapse.Total has its
--   loops on plain lists, for where nothing panics). Netip has the part of Go's `net/netip` that
--   this and the other parts use; Netip.Nets reads masked IPv4 prefixes as intervals.
-- - internal/policy/policy.go and compile.go turn a `Policy` into a `DesiredKernelState`
--   (Policy, Policy.Compile), and compare two such states (Policy.Semantic, decided in
--   Policy.Decide). Policy.Datapath is the reading of that state, taken from the comments on its
--   fields, in which the theorems of Policy.Gateway are stated; Policy.Collapsed puts the two
--   parts together.
-- - internal/dnsproxy is the DNS forwarder of the gateway (Dns): suffix.go picks a path for a
--   name (Dns.Suffix), forward.go asks the resolver of that path (Dns.Forward), server.go serves
--   one packet or one TCP connection (Dns.Server), and its listeners and `Shutdown` are a
--   machine that takes one event at a time (Dns.Listen). dial.go and dial_linux.go open the
--   sockets (Dns.Dial), and cmd/gotun-dns/main.go builds the forwarder from its flags
--   (Dns.Command). The DNS library is the record `DnsLibrary`, a resolver is an `Exchanger`,
--   which answers a message and changes a world of any type; what it leaves in the message it is
--   given is only the packed form. Strings has what the parts use of Go's `strings` and
--   `strconv`.
-- - internal/linux/runner.go is the interface through which commands run on the host (Linux): a
--   `Runner` takes the state of the host to the next one; the one that records commands for
--   tests is Linux.Recording. internal/linux/sysctl/sysctl.go is Linux.Sysctl; what the kernel
--   does with its parameters is the record `SysctlKernel`. internal/linux/routing/routing.go is
--   Linux.Routing, with the keys of routes in Linux.Routing.Parse; what `ip route` does is the
--   record `RouteHost`. The order in which Go walks the map of tables is a parameter.
--   internal/linux/nftables/nftables.go is Linux.Nftables: the script it renders there,
--   Linux.Nftables.Script with what the statements of a script do, Linux.Nftables.Live, Exprs
--   and Match with the listing read back from JSON, Linux.Nftables.Reconcile with the
--   operations, and Linux.Nftables.Outcomes with what a reconciliation comes to. The parser of
--   JSON text is a parameter; Json decodes what it yields as `encoding/json` does. What Go reads
--   off a map in any order is read in the order of the text.
-- - internal/wireguard/config.go is WireGuard, over a `Runner` too: the dump of an interface and
--   how it is compared (WireGuard.Live; WireGuard.Columns has its columns after the manual of
--   wg), and the commands that bring it up or down. internal/apply/reconcile.go is Apply, which
--   compiles a policy and runs the reconcilers as stages; Apply.Stages lists them once more,
--   after the README, and the theorems on a run are stated with that list.
-- - internal/prefixes/parse.go, mmdb.go and maxmind.go read prefix lists: CidrList has the lists
--   with one prefix to a line, Country the networks of a country from MaxMind's CSV files
--   (Country.Csv) or its MMDB file (Country.Mmdb). Netip.Text has the texts of addresses and
--   prefixes; the parser of IPv6 addresses is a parameter, and so are the files and the MMDB
--   reader. The download is Country.Download, over a web that is a parameter; zip.go and the
--   unpacking in maxmind.go are Country.Archive, over the entries that the decoders yield, with
--   Country.Archive.Paths for Go's `path/filepath`, `Dir` among it.
-- - internal/amnezia/sites.go is Amnezia, up to the JSON text that it writes.
-- - internal/cli is Cli: `Run` with the flags of each command (Cli.FlagSet is the part of Go's
--   `flag` that it uses), the reader of wg-quick configs (Cli.WgQuick), the assembly of the
--   policy in `Apply` (Cli.Assemble) and the commands (Cli.Commands). The operating system is
--   the record `Machine` of Cli.System, with what `os` promises of written files as
--   `WritesFiles`; what a command prints is its result. cmd/gotun/main.go only calls `Run`.
--
-- An IPv4 address is a number below 2 ^ 32. `As4` panics on an address that is not IPv4; the
-- model returns `none` there, and what calls it hands that on. `sort.Slice` is an insertion
-- sort. The loops over slices are recursions on lists, and the inner loop of `mergeSiblingStack`
-- is one on the stack. Fuel stands only in the loop over batches of elements, where it is the
-- number of elements, each round taking at least one, and in printing a number, which has no
-- more digits than its value plus one. A nil slice and an empty one are the same list.
--
-- Not modelled: the lab servers in cmd/labdns and cmd/labhttp and the helpers of the tests,
-- which no part of the gateway calls; the decoders of archives; the reading of the flags of
-- gotun-dns; logs; the sockets themselves; the error of `bufio.Scanner` on a line of 64 KB or
-- more; rules and routes of the main table, which Policy.Datapath takes to reach every
-- destination.
pub mod Prelude
pub mod Netip
pub mod Collapse
pub mod Policy
pub mod Strings
pub mod Dns
pub mod Linux
pub mod CidrList
pub mod Country
pub mod Json
pub mod WireGuard
pub mod Apply
pub mod Amnezia
pub mod Cli
