-- ===== src/Lib.antt =====
-- proxmox-k3s, a command line program that creates k3s clusters on Proxmox VE: a model of its core
-- and what holds of it.
--
-- The program reads a configuration, validates it, and makes a cluster model of it
-- (internal/config). `create` (internal/usecase/create) checks the Proxmox hosts, lists the nodes
-- that exist, plans an address for every node, creates the missing VMs one after the other and waits
-- for them; the later phases install k3s and the addons over SSH and write the kubeconfig. `delete`
-- (internal/usecase/delete) removes every VM that carries the cluster's tag. Both talk to a provider
-- (internal/domain/ports/infra.go), which internal/adapter/proxmox implements over the Proxmox API.
--
-- Files and what they model:
--   Prelude, Prelude/*     texts as lists of code points, decimal numbers, results, association
--                          lists, signed integers: the parts of Go that the code uses
--   Domain/Model           internal/domain/{cluster,network,node,nodepool}.go, the records
--   Domain/Error           internal/domain/errors.go, a constructor for each error
--   Domain/Size            internal/domain/catalog.go: SizeByName, AllSizes, ValidateSize, ResolveSize
--   Config/Schema          internal/config/schema.go
--   Config/Load            internal/config/loader.go: Load, expandEnv
--   Config/Defaults        internal/config/loader.go: applyDefaults, expandHome
--   Config/ToModel         internal/config/tomodel.go: ToModel, poolToModel
--   Config/Validate        internal/config/validate/cluster.go: Cluster, validatePool
--   Net                    package net: ParseIP, String, ParseCIDR for IPv4
--   Ipam/Pool              internal/adapter/ipam/static.go: ParsePool, Get, IPConfigForIndex, ...
--   Proxmox/Node, Vm       internal/adapter/proxmox/{node,vm}: data, FindTemplate, FindGuestIP
--   Proxmox/Placement      internal/adapter/proxmox/placement: round robin, least loaded
--   Proxmox/Tags           buildTags, hasTag, extractTag of internal/adapter/proxmox/provider.go
--   Proxmox/Api            the API calls that the provider makes, as an interface over any state
--   Proxmox/Http           what the client uses of net/http and encoding/json, as an interface
--   Proxmox/Client         internal/adapter/proxmox/client/client.go: New, get, post, put, delete
--   Proxmox/Client/Tasks   internal/adapter/proxmox/client/task.go: WaitTask, TaskStatus, NextVMID
--   Proxmox/Client/Calls   the calls of vm.Manager and node.Lister; they make an instance of Api
--   Proxmox/FakeServer     internal/adapter/proxmox/testserver/server.go: the state, the handlers, the
--                          routes, and the server as an instance of Http
--   Proxmox/Provider       internal/adapter/proxmox/provider.go: Preflight, ListNodes, CreateNode,
--                          WaitReady, DeleteNode; NewProvider is in Proxmox/Provider/New
--   Proxmox/Clones         cloneSemaphore of the same file, as steps of CreateNode calls that overlap
--   Infra                  internal/domain/ports/infra.go, and the Proxmox provider as one instance
--   Create/Names, Plan     planIPs of internal/usecase/create/create.go and the nodes' names
--   Create/Provision       provisionNodes and rollback
--   Create/Ready           splitByRole and waitAllReady
--   Create/Phases          Pipeline.Run of create, phases 1 to 5
--   Create/ControlPlane    bootstrapControlPlane, joinWorkers, installAddons
--   Create/Run             Pipeline.Run whole, with writeKubeconfig
--   Delete                 internal/usecase/delete/delete.go
--   Ssh                    internal/adapter/ssh/executor.go: the executor as an interface (Ssh), the
--                          retry loops (Ssh/Retry) and NewExecutor, Run, Upload, ... (Ssh/Dial)
--   K3s/Version            internal/adapter/k3s/version.go: Resolve
--   K3s/Installer          internal/adapter/k3s/installer.go, with prefixWriter in K3s/Installer/Output
--   K3s/Template           renderTemplate of internal/adapter/k3s/installer.go
--   K3s/Kubeconfig         internal/adapter/k3s/kubeconfig.go; its files are in K3s/Kubeconfig/File
--   Addons                 internal/adapter/kubernetes/software: kube-vip and MetalLB
--   Cli                    internal/cli: what create, delete and validate run; what sizes prints
--   EndToEnd               the pipelines over the provider, the client and the fake server together
--   Tests                  runs at concrete inputs
--
-- Conventions. A Go function that changes state is a function from a state to a result and a state:
-- what was done before an error stays done. The state of the provider or of the API is unknown, an
-- argument of the models. A map is an association list; the fake server lists its VMs in an order
-- that is a parameter, any order of the entries for each state (Platform.range_of). `int` is an
-- integer without a bound: the code only compares and prints such numbers and adds up the pools'
-- counts, which stay far from 2^63. Progress output is left out.
--
-- Bounds. The loop of ParsePool has as many rounds as there are addresses, 2^128; two addresses are
-- never farther apart, so the rounds do not run out. The number of questions in waitAgentReady is a
-- parameter, since a deadline of the caller ends that loop. WaitTask is modelled under a deadline, so
-- many milliseconds away; it has one round for each of them, and a round takes at least 500, so the
-- rounds do not run out. The two loops of the SSH executor, which nothing bounds in the code, have a
-- number of rounds as a parameter, and what is left after them is one of their outcomes. The counters
-- of the fake server are the bits of an int32 and wrap around; a number in a path is cut off at 2^63-1
-- as strconv.Atoi does.
--
-- Parameters: the IPv6 syntax (Net.Ipv6), the floating-point arithmetic of LeastLoaded
-- (Proxmox.Placement.Floats), the HTTP transport and the coding of its messages (Proxmox.Http),
-- what the fake server takes from net/http, net/url and the clock (Platform), with the documented
-- behaviour of URLs as the hypothesis Documented, and that of the query, of small whole numbers in
-- a float64 and of a range over a map, which comes to each entry once, as
-- EndToEnd.Calls.Surroundings, packages net and golang.org/x/crypto/ssh (Ssh.Dial.Network),
-- text/template and the texts of the embedded scripts, the release service (K3s.Version), package
-- yaml, the file system, the home directory and the environment.
--
-- Not modelled: the flags and signals of the command line, and what create, delete and validate print;
-- the text of the shell scripts; a wait without a deadline. The pipelines create and delete one node
-- at a time, so the operations are functions of one state, and the locks of the fake server and
-- requests to it at the same time are left out. Calls of CreateNode that overlap are modelled for what
-- its semaphore bounds only (Proxmox/Clones).
pub mod Prelude
pub mod Domain
pub mod Net
pub mod Ipam
pub mod Proxmox
pub mod Infra
pub mod Ssh
pub mod Create
pub mod Delete
pub mod Config
pub mod K3s
pub mod Addons
pub mod Cli
pub mod EndToEnd
pub mod Tests
