-- ===== src/Lib.antt =====
-- kubemate: a verification library for the parts of kubemate that carry its own logic. kubemate runs
-- k3s on small devices and serves an API for them; its objects live in stores of its own, its watches
-- hang on an event bus, and its controllers move nodes, apps and devices through their states.
--
-- The files and the code that they model (paths from the repository's root):
--   PubSub                pkg/pubsub/pubsub.go: subscribers, filters, bounded channels, late readers.
--   Resource              pkg/resource/types.go: what the stores know of an object, and the errors.
--   Storage/InMemory      pkg/storage/inmemorystore.go: items, resource versions, lists and watches.
--   Storage/FileStore     pkg/storage/filestore.go: the same with a file for each object; what is on disk
--                         (Consistency, Updates), after a restart (Loading, Restart), beside
--                         the in-memory store (Refines, Promises), and where an object is shared with
--                         the caller of Create (Aliasing).
--   Storage/Interface     pkg/storage/types.go: a store as its clients see it, operations and promises;
--                         Interface/Memory and FileStore/Promises have the two stores behind it.
--   Rest                  pkg/rest/rest.go: the API's storage over such an interface; below it
--                         devicetoken_rest.go, wifipassword_rest.go, useraccount_rest.go,
--                         device_rest.go and device_shutdown_rest.go of the same folder.
--   Ingress               pkg/ingress/ingress.go: the routes that newRouter builds from ingresses.
--   Storage/Refresh       pkg/storage/refresh.go: the rate limit of a refreshing store.
--   Passwordgen           pkg/passwordgen/passwordgen.go: word lengths and the weighted choice.
--   Names                 pkg/utils/names.go: names of resources from arbitrary text and a hash.
--   Runner                pkg/runner/runner.go, process.go: a child process, its restarts and reports;
--                         Runner/Log pkg/runner/logtranslate.go: the lines that it logs.
--   Controller            pkg/controller/controllermanager.go: the loop that runs the reconcilers.
--   Reconciler/App        pkg/reconciler/app/app_reconciler.go: the status of an app, its secret and its
--                         Kustomization (App/Reconcile), and its removal; types from pkg/apis/apps/v1alpha1.
--   Reconciler/Mdns       pkg/reconciler/app/mdns_service_reconciler.go: services announced over mDNS.
--   Discovery             pkg/discovery/device_discovery.go: the devices that mDNS finds, in an in-memory
--                         store, and the advertisement of the own device.
--   Wifi                  pkg/wifi/wifi.go, ap.go, station.go, country.go, and reconcileWifiNetworkInterface of
--                         pkg/reconciler/device/networkinterface_reconciler.go: access point and station;
--                         Wifi/Scan pkg/wifi/scaniw.go: the networks in the output of iw.
--   Authorizer            pkg/apiserver/authorizer.go: who may do what by the device's own API.
--   Reconciler/Device     pkg/reconciler/device/device_reconciler.go, device_reconciler_dns.go: what the
--                         device's reconciler starts and stops (Device/Reconcile), with the Runner of k3s,
--                         two managers of Controller and the start and stop of Ingress/Watch.
--   Reconciler/Node       pkg/reconciler/device/node_reconciler.go and pkg/drain/drain.go: the
--                         hand-shake over annotations that drains, shuts down and restarts a node.
--   Base                  shared helpers: tests into Bool, lists, Go's maps, decimals, sorting.
-- A component's file holds its state (a record) and its operations (functions of the Go names in
-- antt's spelling); the modules below it hold what is proved, and its Examples the tests. The stores
-- publish to the bus, and the file store runs its writes inside the calls of the in-memory store.
--
-- Conventions. A mutex makes a call one step. A call returns the new state, the object that the
-- caller handed in by pointer, and an error or none. Stores keep copies, except that the file store's
-- Create keeps the caller's own object: a FileStore says which items are shared with a caller
-- (`shared`), and `write_shared` is a caller's later write to such an object (the events that hold
-- it are not followed). The manager's client reads from a cache, which in Reconciler/App may be
-- outdated (`Calls.cache`). A slice of a text that can panic is none. A sequence number is the bit pattern of an int64
-- (`% 2 ^ 64`); theorems about versions ask for fewer than 2^63 of them. What third-party packages
-- and the operating system do is a parameter or an argument: the codec and its equality, which system
-- calls succeed, which readers are in time, how the API server answers. Only
-- the validation of a user account's update runs on fuel, since the code does not end.
--
-- Not modelled: wiring, command line, generated code, network and system calls, and the packages that
-- the components above do not use.
pub mod Base
pub mod PubSub
pub mod Resource
pub mod Storage
pub mod Rest
pub mod Runner
pub mod Controller
pub mod Ingress
pub mod Passwordgen
pub mod Names
pub mod Reconciler
pub mod Discovery
pub mod Authorizer
pub mod Wifi
