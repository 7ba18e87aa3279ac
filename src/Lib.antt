-- ===== src/Lib.antt =====
-- A network plugin for Kubernetes that gives each tenant of a node a subnet, a bridge and a VXLAN device
-- of its own, and keeps the tenants of a node apart.
--
-- The daemon (cmd/tenantcnid) runs a controller that reacts to tenants and pods of the API server: it
-- takes a subnet of the node for a tenant, writes the tenant's file, makes its devices and its firewall
-- rules, and notes each pod's tenant in the pod store. The plugin (cmd/tenantcni) is called for each pod:
-- it finds the pod's tenant in that store, allocates an address of the tenant's subnet and connects the
-- pod. The two share files: those of the stores.
--
-- Base     texts as bytes, maps as association lists, errors as values
-- Net      the parts of Go's net and netip that the program uses: decimals, addresses, prefixes, masks
-- Host     commands on an outside state, and the packages netlink and iptables as records of commands
-- Ipam     pkg/network/ipam: Store, NodeStore, TenantStore and PodStore are the stores (NewNodeStore is
--          new_node_store, LoadTenantData is load_tenant_data); Tenant is the node's half of ipam.go
--          (AllocateTenant is allocate_tenant), Address the tenant's (AllocateIP is allocate_ip). Leases is
--          an abstract pool of addresses, which Address/Refinement compares the allocator with;
--          Provision and Serving are about the tenant's file between the daemon and the plugin
-- Backend  pkg/network/backend: Bridge, Veth, Vxlan
-- Routing  pkg/network/routing: Routes, Rules
-- Api      pkg/apis/jovik31.dev/v1alpha1/types.go
-- Crd      the resource definition of pkg/crd/register.go, and the JSON form of a tenant
-- K8s      pkg/k8s/kube.go, with the API server as a record of commands
-- Machine  the files that the daemon and the plugin share, by store, and the outside
-- Controller  pkg/controller: Events (handlers.go, utils.go), Add, Update, Delete, Loop (the worker) and
--          Wiring (NewController, Run);
--          the other modules are about these, Isolation about the firewall and Release about the
--          node's file
-- Cni      cmd/tenantcni/main.go: Commands (cmdAdd is cmd_add), Args (get_regex); Add, Del, DelPod and
--          Check are about whole commands, PodTenant and PodEntries about the pod store
-- Daemon   cmd/tenantcnid/main.go (Main is the whole of it) and the registrations of pkg/crd/register.go
-- System   the daemon and the plugin on one node: Events is the relation of what may happen there, seen
--          from one tenant, and Changes that of a node's tenants; Served says when a tenant's file serves
--          its pods; Plugin, Update, Add, Delete, Start and Stores are about that through each command;
--          NodesKept is about the commands that leave the node's own file alone, which Changes uses;
--          Prepared, Added, Deleted, FirstPod and Lifetime follow one tenant
-- Tests    runs at concrete inputs
--
-- A Go function that returns an error returns an option or a result; one that reads a nil pointer
-- panics. The loop of AllocateIP and the worker run on a number of rounds, and an outcome says when it
-- was too small. For AllocateIP one round more than the taken addresses that it passes before it comes to a
-- free one of the subnet is enough; where it comes to the subnet's end first, it may go on without end,
-- and then no number is. The worker of the daemon is not meant to end.
-- A lock is taken and given back inside an operation: whether the lock file could be made is modelled,
-- the waiting for another process is not. What several processes do on a node is a sequence of steps:
-- whole commands and handlers, and the locked part of a plugin's command on its own, in a process whose
-- copy of the data may be stale. A step counts however it ends. Logging is left out. The plugins'
-- NextIP, the text form of IPv6 addresses, ParseMAC, the ipaddr package, retries, the decoding of the
-- config map and the random bytes are parameters.
--
-- On the disk all stores lie in one directory, each in a directory of its own name: a node's, a tenant's and
-- the pods', which is called podlist. Machine keeps the three kinds apart, and so is about a node on which
-- no tenant has the node's name, the name podlist or an empty one. Where the names meet, the files are one
-- in the program, and the daemon overwrites one kind of data by another. The theorems that this would make
-- false exclude it of their tenants and nodes, by IsApart or by the field of it that they need.
--
-- Not modelled: the generated clients under pkg/client, the log file of pkg/log, the registration of the
-- types with the API machinery's scheme, a clientset that is nil when addTenant labels the node, an MTU of
-- the default interface below the overhead of a VXLAN device, and the event broadcaster and informer
-- factories of client-go.
pub mod Base
pub mod Net
pub mod Host
pub mod Ipam
pub mod Backend
pub mod Routing
pub mod Api
pub mod Crd
pub mod K8s
pub mod Machine
pub mod Controller
pub mod Cni
pub mod Daemon
pub mod System
pub mod Tests
