-- ===== src/Lib.antt =====
-- kubernetes-identity-federation: workload identity for Kubernetes ServiceAccounts.
--
-- The program consists of services that meet at the Kubernetes API server. The webhook merges the
-- CloudRoleBindings of a ServiceAccount into a ResolvedCloudRoleBinding with a hash of its spec, and
-- injects an agent with that hash into the pods of the ServiceAccount. The agent exchanges the
-- ServiceAccount's token at the federation service for a cloud token, writes it to a file and renews
-- it. The federation service gives out a token only to the ServiceAccount itself and only for the
-- current hash; otherwise the agent stops. The issuer serves the public keys that the federation
-- service publishes.
--
-- The modules, and the code under app/crates that they model:
--   Api: kif-api/src/crds.rs (Bindings, Status) and shared.rs (Shared), with the source's fields.
--   Webhook.Merge: kif-webhook/src/merge.rs. `merge_loop` is the loop of `merge_inputs` and `Merged`
--     its four locals; Build has the resources and statuses.
--   Webhook.Reconcile: reconcile.rs and `upsert_resolved`, over an API server that is a state with
--     calls that can fail.
--   Webhook.Watch: the loop of `watch_cloud_role_bindings` of reconcile.rs, with the `enqueue` that it
--     waits for. `Run` is any interleaving of it with the workers, by the notes of what has happened.
--   Webhook.Queue: queue.rs. `enqueue` is `mark`, what it does under its lock, and `send`; `Step` is
--     one move of any task, and `Reach` any interleaving of them; `Move` is one for a key of the set.
--     The number of workers is left open, as `workers.max(1)` gives at least one.
--   Webhook.Mutate: mutate.rs. `mutate_spec` has the changes of `build_pod_patch`.
--   Webhook.Admission: admission.rs, and `emit_pod_event` of k8s.rs. `admit_create`, `look_up`,
--     `admit_bound` and `inject` are what is left of `handle` behind its early returns.
--   Webhook.Config: config.rs, from an environment. Webhook.Http: the handlers of http.rs.
--   Federation.Subject: `token_review` and `parse_service_account_username` of
--     kif-federation/src/k8s.rs.
--   Federation.Keys: `ensure_signing_and_jwks` and `upsert_jwks_secret` of k8s.rs, over a server that
--     is a state; `use_signing` and `create_signing` are its two branches.
--   Federation.Claims: jwt.rs. Federation.Mint: the handler of http.rs, in the steps `authenticate`,
--     `authorize` and `configuration`. Federation.Config: `from_env` of config.rs, in which the
--     service starts.
--   Agent: kif-agent/src, with config.rs and the handlers of http.rs in Config, `mint` of federation.rs
--     in Client, its `atomic_write` in Files, and the loop of main.rs in Refresh.
--   Issuer.Jwks: kif-issuer/src/jwks.rs, `run_secret_watcher` of kube_watch.rs, and in `load` the loop
--     of `load_jwks_and_watch` of main.rs. Issuer.Serve: `get_jwks` and the probes of http.rs.
--     Issuer.Discovery: its discovery document. Issuer.Config: config.rs.
--   Router, in each of the four: the tables of routes of http.rs. Main, in each of them: `main` of
--     main.rs, with `start` the part before the `select!` and `exit` the `select!` itself.
--   Crdgen: kif-crdgen/src/main.rs, with `wrap_lines` the loop of `add_helm_wrapper`.
--   System: the programs joined. Launch has the agent in the container that the webhook builds, with
--     the kubelet between them; Wire the agent's client and the routes of the service, with HTTP
--     between them; Fetch, Stop and Exit the agent's loop and process against that service; Admitted
--     the webhook's hash against it; Journey a patched pod's way through all of these; Resolved
--     what a worker's round stores against the handler that reads it, Arrival the way from the
--     bindings to the agent's file, and Rotated an agent whose bindings have changed (Stored is
--     what the two share); Probe the webhook's startup probe against the agent's routes; Keys the
--     federation service's secret and the issuer, with the API server between them; Discovery the
--     issuer's documents for a client that follows them, and Verified such a client that has a
--     token of the service.
--   Base: the shared types, the string methods that the code calls, and the lemmas on them.
--
-- An error of anyhow is its message, and a context replaces the message. Text is a list of characters;
-- a u64 or u16 is a natural number whose wrap-around is written out. A loop of the source is
-- structural recursion: on the list it goes through, or for the loops that wait (the agent's, the
-- issuer's), on the list of what the world has answered so far. Nothing needs fuel.
--
-- kube, serde, json_patch, sha2, rsa, jsonwebtoken, reqwest, the clock and the random numbers are
-- arguments. The theorems on `reconcile` and on the signing key rest on a record `Storage` each, the
-- laws that an applied resource can be read back, and those on the bindings' statuses on a record
-- `Bindings`, the same for a replaced status; `Patching` is what an applied JSON patch does. What
-- stands between two programs is a record of laws as well (IsStarted, IsConnected, IsServed), and so
-- are axum, which picks the route (Axum), and a third party's JWT library (Verifier). Which task of a
-- process ends first is an argument of `exit`. Not modelled: the setup of TLS and of the logs, the
-- number of tasks that run at once, the Helm chart, and the source's own tests.
pub mod Base
pub mod Api
pub mod Webhook
pub mod Federation
pub mod Agent
pub mod Issuer
pub mod System
pub mod Crdgen
