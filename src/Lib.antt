-- ===== src/Lib.antt =====
-- homelab-operator watches devices, networks, ingresses and services, and writes from them the
-- custom resources that dnsmasq and FreeRADIUS read.
--
-- Parts, and the files that model them (paths from the repository's root):
--   api/v1                               Api; Api/Memory and Api/DeepCopy (zz_generated.deepcopy.go)
--                                        with pointers and slices as addresses on a heap
--   internal/labels                      Labels
--   internal/config                      Config: Load, BindFlags, ApplyCSVFlags; the sequence of
--                                        calls in main is Config.Flags.configure
--   cmd/main.go                          Entry: the manager's options, its controllers, the exit code
--   internal/scheme                      Scheme: AddExternal; Scheme/Own: groupversion_info.go and the
--                                        functions init of api/v1 and cmd/main.go
--   internal/dnsmasq                     Dnsmasq: specs, compareIP, NormalizeDnsHosts;
--                                        Dnsmasq/Unstructured: NewDnsHosts and the like;
--                                        Dnsmasq/Parse: ParseDnsHostsSpec and the like
--   internal/desired/devicebased.go      Desired/DeviceBased
--   internal/desired/loadbalancer.go     Desired/LoadBalancerBased
--   internal/desired/ingress.go          Desired/IngressBased
--   internal/ensure                      Ensure, Ensure/Describe (the summary texts)
--   internal/controller                  Controller: Gate (reconcile_gate.go), Trigger
--                                        (reconcile_trigger.go), Summary (reconcile_log.go), of
--                                        device_controller.go Device, Prune and Status, Dns
--                                        (reconcileIngress, reconcileLoadBalancer), Reconcile (the
--                                        methods Reconcile), Watch (events and requests),
--                                        Watch/Events (the watches of SetupWithManager), Rbac (the
--                                        kubebuilder markers, of which the manager's role is made)
-- A reconcile lists the resources of one namespace, builds the wanted objects (Desired), plans and
-- applies each (Ensure), deletes what is stale (Prune), and writes the statuses (Status).
--
-- State. The cluster is a type W, and Cluster.Client holds the calls that the operator makes of it,
-- which are not in the repository: each read is a function of the state, each write gives a result
-- and a new state. Cluster.Exec chains them; what was written before an error stays written. The
-- gate is a set of keys with a step relation for the interleavings of goroutines.
--
-- Values. A text is the list of its bytes, a Go map an association list. The order in which Go runs
-- over a map is the parameter `range` of the device controller. A nil slice and an empty one are
-- both [], but in Api/Memory, where nil is no address. Texts that go to JSON are UTF-8. slices.Sort
-- and slices.SortFunc are a stable insertion sort: where the source relies on
-- its result for elements that compare equal, Go leaves their order open. netip.ParseAddr is
-- written out for IPv4 texts; IPv6 texts go to the parameter `v6`. strings.TrimSpace trims ASCII
-- white space. `int` is an unbounded integer: it is only copied and printed. All loops are
-- structural recursion on a list, so no fuel is needed. The verbs %d and %v of fmt are parameters.
--
-- Laws. What is supposed of the API server stands in Cluster/Laws: IsLawful (a write is read back
-- under its key and changes nothing under another), IsUp (the calls succeed), KeepsLists; ListSelects
-- in Controller/Prune/Safety and SetsCondition in Controller/Status/Conditions. VisitsAll in
-- Controller/Device/Established/Loops says that Go visits each entry of a map once, ListsStored in
-- Controller/Device/Foreign that a list by labels returns what stands in the cluster. Tests/Server is
-- an API server, the list of its objects; Tests/ServerLaws has its laws. MapsKinds in Controller/Rbac
-- names the resources of the kinds, CopiesDeeply in Api/DeepCopy/Made says that the copies of
-- apimachinery are deep, RefusesOptions in Controller/Device/Errors that the DHCP options are
-- refused, and FillsScheme in Scheme/Own what its scheme recognizes.
--
-- Not modelled: the log sink, the panics of the function init of cmd/main.go, which no registration of the
-- repository causes, and the Kubernetes manifests under config/.
mod Prelude
pub mod Api
pub mod Dnsmasq
pub mod Config
pub mod Labels
pub mod Cluster
pub mod Desired
pub mod Ensure
pub mod Controller
pub mod Scheme
pub mod Entry
mod Tests
