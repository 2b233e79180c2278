-- ===== src/Lib.antt =====
-- A verification library for clusterip-gw, which gives Kubernetes gateways a cluster-internal
-- virtual address and forwards its TCP listeners to pods. A controller reconciles the objects of the
-- Kubernetes API; an agent on every node turns the controller's results into nftables rules.
--
-- Parts, and the files that model them (paths from the repository's root):
-- - internal/gatewaymeta is Meta. The API objects that the program reads and writes are the records
--   of Kube, with the fields that it uses; netip's addresses and prefixes are in Net.
-- - internal/controller is Controller and its children. Controller holds the constants, and three
--   records for what the package reaches outside: `Client` for the API server's calls, on an
--   abstract world, `Informers` for the caches, and `Library` for functions of third-party packages.
--   ipam.go is Controller/Addresses, Controller/Ipam and Controller/Finalizers; indexers.go is
--   Controller/Refs; status.go is Controller/Status; gateway_reconcile.go is Controller/Listeners,
--   Controller/Gateways and Controller/Gateways/Reconcile; route_reconcile.go is Controller/Routes
--   and Controller/Routes/Reconcile; endpointselector_reconcile.go is Controller/Bindings,
--   Controller/Slices and Controller/Slices/Reconcile; handlers.go and workers.go are
--   Controller/Handlers, with the conversions of indexers.go in Controller/Objects.
--   Controller/Server states what is relied on of the API server's gateways and reservations, and
--   Controller/Slices/Stored of its slices.
-- - internal/agent/state is Agent/Frontends and Agent/Endpoints. internal/agent/nftables is
--   Agent/Ruleset for the wanted ruleset, Agent/Netlink for its messages (Agent/Netlink/Table
--   and Agent/Netlink/Queued state what is relied on of nftables), Agent/Proxier for the state and the syncs of the proxier,
--   and Agent/Proxier/Loop for its loop beside the informers' handlers. internal/agent/app is
--   Agent/Options for the options and Agent/Handlers for what the informers hand to the proxier.
-- - plugin/k8s_clusterip_gw/plugin.go is Dns: the CoreDNS plugin that resolves a gateway's name to
--   its addresses. Dns/Query states what is relied on of miekg/dns.
-- - plugin/k8s_clusterip_gw/setup.go and store.go are Dns/Setup: the plugin's configuration and its
--   cache.
-- - internal/controller/app/options.go is Controller/Options, internal/apputil/network.go is
--   Apputil, and internal/kube/clientconfig is Clientconfig. Kube/Objects holds what informers hand
--   to handlers.
-- - Flow puts the parts together: Flow/Frontends and Flow/Backends tell what the agent reads from
--   the controller's objects, Flow/Traffic follows a connection from an address to the pods, and
--   Flow/Names the name of a gateway to that address.
-- - Base holds what all parts share: decided equality, lists, texts and their order, stable sorting,
--   maps as association lists, integers, and calls that act on a world and may fail.
-- - Tests holds a server in memory, concrete objects, and the theorems at them.
--
-- A function of the source has the same name here in snake case; a method takes its receiver's state
-- as an argument. A pointer is an `Option`, a Go map an association list in the order of its
-- iteration, a conversion to a narrower integer is written out. A call that may fail has the type `M
-- W A`, from a world to a result and the world after it, so that the order of the calls is part of
-- the model.
--
-- The parts interact through objects: the controller's reservations make a gateway's address, its
-- status holds the address, and the agent reads spec and status; both check the listeners.
--
-- Fuel: the walk through the addresses of one prefix has as much fuel as the prefix has addresses,
-- and Controller/Ipam/Walk shows that it ends within it. The properties in the DNS plugin's
-- configuration are read on fuel, for which Dns/Setup/Bounds shows that one more than the tokens is
-- enough. All other loops are structural.
--
-- Not modelled: log messages; the texts that `fmt.Errorf` puts around an error of nftables; the end
-- of the proxier's loop by its context; the queues of client-go; the DNS plugin's registration and
-- its informer; processes and HTTP servers; the registration of flags; generated code.
mod Base
pub mod Meta
pub mod Kube
pub mod Net
pub mod Controller
pub mod Dns
pub mod Flow
pub mod Tests
pub mod Apputil
pub mod Clientconfig
pub mod Agent
