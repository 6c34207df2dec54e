-- ===== src/Lib.antt =====
-- Rio: the logic of its controllers.
--
-- Rio turns its custom resources (pkg/apis/rio.cattle.io/v1) into Kubernetes objects by controllers
-- (modules/*/controllers). The parts that are modelled, and the files that model them:
--
-- - Api/Service.antt: the resource types of pkg/apis/rio.cattle.io/v1, with the fields that the code
--   below reads or writes. A pointer is an Option, a slice a List, a string a list of bytes (Text).
-- - Services.antt: pkg/services/service.go. Services/Weight.antt: pkg/services/weight.go, which plans
--   a rollout: the goal weight of a revision and the increment that it moves by.
-- - Rollout.antt: modules/service/controllers/rollout/controller.go, which carries the plan out.
--   rollout is the handler, rollout_services its two loops, adjust the round for one revision;
--   Rollout/Weights.antt has the numbers (incrementFlux is increment_flux). The services that the
--   handler mutates are shared with the cache, so it returns them as it left them.
-- - Labels.antt: modules/service/controllers/service/populate/servicelabels/labels.go.
-- - Rbac.antt: modules/service/controllers/service/populate/rbac/role.go, which gives a service the
--   permissions that it asks for. Kube.antt has the objects.
-- - Webhook.antt: pkg/webhook/webhook.go, which admits a service only if its author may grant those
--   permissions. Webhook/Escalation.antt relates the two.
-- - Ports.antt: pkg/serviceports/ports.go, the ports of a service, over Strconv.antt, which has Atoi
--   and the decimal form of an integer.
-- - VsFactory.antt: modules/gloo/pkg/vsfactory, the virtual services of Gloo for the apps, revisions
--   and routers (Api/Router.antt). VsFactory/Gloo.antt has Gloo's types, VsFactory/Router.antt the
--   routes of a router, VsFactory/Target.antt the targets of an app (target.go), VsFactory/Build.antt
--   gloo.go, VsFactory/Tls.antt the certificates (FindTLS, tlsCopy) and acme.go, and
--   VsFactory/Factory.antt ForApp, ForRevision and ForRouter.
-- - App.antt: modules/service/controllers/app/controller.go, the Kubernetes service of an app.
-- - Pod.antt: modules/service/controllers/service/populate/pod. Pod/Container.antt and Pod/Env.antt have
--   containers.go, Pod/Volumes.antt volumes.go with normalizeVolumes, Pod/Spec.antt podspec.go and
--   pod.go. Kube/Pod.antt has the types of a pod. The other modules below Pod.antt are about the
--   volumes: their order, their names, where sortVolumes puts them, their mounts and their claims.
-- - Workload.antt: the rest of modules/service/controllers/service/populate. Workload/Params.antt has
--   podcontrollers/controllers.go, Workload/Populate.antt deployment.go, k8sservice and populate.go;
--   Kube/Workload.antt has the objects. The order in which Go ranges over a map is the parameter Range.
-- - ServiceHandler.antt: modules/service/controllers/service/controller.go, which generates the objects
--   of a service, over Config.antt, pkg/config/config.go.
-- - Rdns.antt: modules/rdns/controllers/service, the cluster domain of the gateway: Handler has the
--   mutable fields, Rdns/Cluster.antt what it reads, Rdns/Addresses.antt the addresses of the gateway,
--   and Rdns/Reach.antt the states that changes of the config map lead to.
-- - GlobalRbac.antt: modules/service/controllers/globalrbac/handler.go, the cluster roles and bindings of
--   services and their deletion.
-- - RouterHandler.antt: modules/service/controllers/router, the Kubernetes service of a router.
-- - RouteCommand.antt: cli/cmd/route/append.go, the command that adds a route to a router, over
--   RouteCommand/Patterns.antt, cli/pkg/pretty/objectmappers/strings_match.go.
-- - WeightCommand.antt: cli/cmd/weight/weight.go, the command that sets the weight of a service.
-- - Endpoints.antt: modules/service/pkg/endpoints/resolver.go, the URLs of a service from its domains
--   (Api/Domain.antt); Endpoints/Hosts.antt relates them to the hosts of its virtual service.
-- - Status.antt: modules/service/controllers/servicestatus/service.go, the status handler, and
--   Scale.antt: podcontrollers/scale.go of modules/service/controllers/service/populate.
-- - Stringers.antt: pkg/riofile/stringers, the string forms of environment variables, of mounts, of
--   volumes, of permissions and of ports, printed and parsed, over package kv of wrangler
--   (Stringers/Kv.antt).
-- - Float.antt: float64, which the language of this library has not, is a record of operations that
--   the weight code takes as a parameter; IsIeee has the facts of IEEE arithmetic that the theorems
--   use, and Float/Rational.antt shows that they can be met.
-- - Prelude.antt: shared types and lemmas. Prelude/Int.antt has Go's int: ℤ with the wrap-around of
--   64 bits written out (add64, sub64, mul64); theorems about weights bound them by 2 ^ 50.
--
-- Parameters are the caches, the API client (which may fail), the DNS client, the clock, the decoders
-- of raw objects, Kubernetes' rule resolver and escalation check, SafeConcatName of package wrangler,
-- url.Parse, net.SplitHostPort, sort.Slice and the order in which a map is ranged over.
-- A Go map is an association list that is read by its first entry for a key.
-- Loops are recursions on the lists that they range over; only the digits of a number (Strconv.antt)
-- take fuel, one more than the number, which is enough by Strconv/Laws.antt. The bound of
-- Rollout.Progress.rounds is a number of rounds of the handler, which the theorems quantify over.
--
-- Not modelled: clients, informers and other generated code, vendored libraries, the setup of servers
-- and certificates, and the commands but route and weight.
mod Prelude
pub mod Float
pub mod Api
pub mod Kube
pub mod Services
pub mod Rollout
pub mod Labels
pub mod Rbac
pub mod Webhook
pub mod VsFactory
pub mod Strconv
pub mod Ports
pub mod Stringers
pub mod Endpoints
pub mod Scale
pub mod Status
pub mod App
pub mod Pod
pub mod Workload
pub mod Config
pub mod ServiceHandler
pub mod Rdns
pub mod GlobalRbac
pub mod RouterHandler
pub mod RouteCommand
pub mod WeightCommand
mod Tests
