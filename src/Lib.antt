-- ===== src/Lib.antt =====
-- connector: a verification library of the virtual switch in pkg/vswitch and pkg/internal/bpfmap.
--
-- A switch hands out numbered ports to sandboxes. Its state is a BPF array of slots, one for each
-- port, which the dataplane reads and which several processes map at once: a sandbox's process
-- attaches, detaches and raises its port, and management reserves ports, releases and stops the
-- switch. A slot is owned through its InnerIP word: 0 is Free, 255.255.255.255 is Reserved, every
-- other value is the address of the sandbox that holds it. The word changes only by compare-and-swap;
-- the other fields are written by the owner, and the flag that makes the dataplane forward
-- comes last.
--
-- Parts, and the files that model them:
--   Base/*      Boolean tests, lists over native numbers, results, machine words, disjoint `|`.
--   Ip, Mac, Identity   the conversions of pkg/internal/bpf/types.go, the derived MACs of
--               pkg/internal/bpfmap/mac.go, and the floating address of pkg/vswitch/slot.go.
--   Slots       pkg/internal/bpfmap/slots.go and cas.go. `MmappedSlots` is the array with the bound of its
--               accessors; Slots/Cas has one function for each CAS, which returns whether it won and
--               the array. Slots/Layout is the arithmetic of the mapped bytes, Slots/Scan FindFreeSlot,
--               Slots/Counts the counters, Slots/Reserved `initBPFSlotsReserved`, and
--               Slots/Contention sequences of atomic calls by any number of processes, and
--               Slots/Ownership the rules that they implement.
--   Stats       pkg/internal/bpfmap/stats.go.
--   Geneve      pkg/vswitch/geneve.go: wire ports, VNIs and the options of an attachment. Geneve/Decode is
--               a receiver's reading of the encoded options, Geneve/Strings the parsing and printing of
--               locators and options.
--   Switch      the opened switch (pkg/vswitch/context.go), the state that operations share (`World`:
--               slots, the geneve_opts map, counters), and `Kernel`: the answers to system calls, and
--               in `others` whatever other processes do up to each such call. Switch/Act is the
--               state-and-error monad of the operations and the rules (`Post`) that follow them.
--   Attach, PortUp, Detach, Reserve   the operations of pkg/vswitch/attach.go and port_up.go, each whole
--               and in the order of the source: checks, claim, fallible steps, rollback, publication.
--   Config      pkg/vswitch/config.go and UpdateSwitchConfig; Config/Match is `validateConfigMatch`.
--   Start       pkg/vswitch/lifecycle.go: the MTU and return-route decisions; Start/Reserved is
--               StartReserved as a chain of steps over what has been made (Start/Reserved/Steps,
--               Start/Reserved/Transit), Start/Cleanup the rollback with its retries.
--   Provision   pkg/vswitch/provision.go: Provision/Device is a slot's device, Provision the writing of
--               a slot and the reverse map, Provision/Loop the loop over the slots.
--   Stop        pkg/vswitch/stop.go: the reserving passes, the deletion of port devices, ReleasePorts,
--               StopReleased.
--   Status      the conditions of pkg/vswitch/status.go: Status/Walk is which devices the slots name,
--               Status/Devices when a condition is True; Status/Observe is Stats, whose reads each
--               see the shared state of their moment.
--   Dhcp        the pool and the message handling of pkg/dhcp/server.go.
--               Dhcp/Client is the client, pkg/dhcp/client.go.
--   MgmtService WriteMgmtServices of pkg/vswitch/mgmt_service.go: the two NAT maps.
--   Text        the functions of the standard library on ASCII texts: fields, trimming, cutting, decimal
--               and hexadecimal numbers.
--   Tapfd       pkg/tapfd: Request and Response are the lines of request.go, Payload the metadata of
--               payload.go, Receive the receivers of recv.go with the descriptors that they close; Open is
--               cmd/connector-ctl/open_port.go with SendFd; Provider is the PREPARE of
--               cmd/connector-ctl/tapfd_server.go with its rollback, Provider/Ports its INFO, RELEASE and
--               SET_PORT_UP.
--   Examples    runs on small inputs, and an application of each theorem with conditions.
--   Bpf         pkg/internal/bpf/loader.go: LoadPinnedMaps and Maps.Close on the map objects that the
--               process holds, PinMaps and the mount of the filesystem.
--   Opening     pkg/vswitch/context.go: openSwitch, Close and Ports. Opening/Lock is pkg/vswitch/flock.go.
--   Netlink     pkg/netlink on the devices of a namespace: tap.go (Netlink/Tap), the pairs of veth.go
--               (Netlink/Veth) and tc.go (Netlink/Filter).
--
-- How the code is read. A uint32 is a natural number with its wrap-around written out. An `int` port or
-- MTU that the code only compares with 0 is a natural or a ℤ. A `net.IP` or a string is its
-- bytes, nil is []. Strings of an answer stand for what they are printed from. An address
-- is compared by its short form, as `net.IP` does.
--
-- Interference. Between two system calls an operation's stores are taken to be one step, but SetPortUp's
-- last look at the owner and its store of the flag are two; at each such point `Kernel.others` may
-- change the shared state arbitrarily. A theorem says what it assumes of it:
-- `IsQuiet` is no change, `IsAlone` says so of a provisioning, and `Takeover` lets others reserve the
-- slot and take its publication away at any point. The forced Reserve and the passes of a stop are loops that a CAS failure
-- restarts: they run on a list of interferences, each of which one round uses, and no interference
-- follows the last; so does the loop that frees a provisioned slot. The loop of Reserve recurses on
-- that list, and the passes on one round more than it is long.
--
-- Fuel elsewhere. Scans recurse on the number of slots left. The decoder of options runs on one unit for
-- each byte, and an option takes at least four.
--
-- Not modelled: the messages of a status, the sockets of the DHCP client and server, the sockets
-- of the tap descriptor protocol and the provider's dispatch of a connection, parsing of other
-- strings and files, the calls that set or read one property of a link, the switching of namespaces,
-- the command line, and the C dataplane. What the kernel answers to a system call is a parameter.
pub mod Base
pub mod Ip
pub mod Slots
pub mod Mac
pub mod Identity
pub mod Geneve
pub mod Switch
pub mod Attach
pub mod PortUp
pub mod Detach
pub mod Reserve
pub mod Config
pub mod Start
pub mod Stop
pub mod Dhcp
pub mod MgmtService
pub mod Text
pub mod Tapfd
pub mod Provision
pub mod Stats
pub mod Status
pub mod Bpf
pub mod Netlink
pub mod Opening
mod Examples
