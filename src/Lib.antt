-- ===== src/Lib.antt =====
-- homeassistant-operator: a Kubernetes operator for Home Assistant, written in Go.
--
-- The operator is a set of controllers, each a function that is called with the name of a custom
-- resource and brings a Home Assistant instance to what the resource asks for, admission webhooks
-- that refuse bad resources, and the helpers they share. They meet in the API server, which holds
-- resources and Secrets, and in the instance, which a controller reaches with a token from a Secret.
--
-- Prelude           numbers, texts, lists and tests that all files share
-- Cluster           api/v1: the resources, and the API server as a record of calls over a world
-- Credentials       internal/controller/helpers.go: getAPIToken (get_api_token), validateOperatorSecret
--                   (validate_operator_secret), buildHomeAssistantURL; Session is newHAClientForHA of
--                   internal/controller/tls_helpers.go
-- Registry          internal/controller/homeassistant{area,floor,label}_controller.go: Reconcile,
--                   handleDeletion, setCondition (reconcile, handle_deletion, set_condition) and what
--                   they call. The three controllers are the same text but for names, commands, fields
--                   and the references of an area, which are the record Kind and the argument resolve;
--                   Registry.Area, Registry.Floor and Registry.Label give them. Registry.Slices is
--                   stringSlicesEqual
-- GoPath            path.Clean, path.Dir and parts of package strings, on lists of bytes
-- CommunityRepo     internal/communityrepo/fetch.go: FetchTarball (fetch_tarball), extractTarGz
--                   (extract_tar), markParentDirs, stripTopLevelDir, ReadFile, ReadDir, Exists,
--                   directChild. CommunityRepo.Manifest is manifest.go (ValidateAndResolve is
--                   validate_and_resolve) and target.go (ConflictKey.String is conflict_text)
-- Webhook           internal/webhook/v1/collision_helpers.go and the webhooks of automations, scenes
--                   and scripts
-- Reload            internal/controller/reload_helpers.go: PerformReloadWithRetry, truncateString
-- HttpConfig        internal/controller/http_config.go and http_config_fields.go, with the types of
--                   internal/haclient/http_config.go: desiredHTTPConfig (desired_http_config),
--                   httpConfigEqual (http_config_equal), reconcileHTTPConfig (reconcile_http_config)
-- BanRecovery       internal/controller/bootstrap_controller.go: handleSelfBan (handle_self_ban) and
--                   resetBanRecovery (reset_ban_recovery)
-- Applied           internal/controller/homeassistant{automation,scene,script}_controller.go: Reconcile
--                   (reconcile), reconcileSceneViaAPI and its siblings (reconcile_via_api), the hashes
--                   (calculate_hash), deletion (handle_deletion). As for Registry, what differs is a
--                   record Kind; Applied.Scene, Applied.Script and Applied.Automation give it, with
--                   sceneToYaml, scriptToYaml and automationToYaml
-- Operator          internal/controller/operator_account.go and operator_account_migration.go, with
--                   parts of bootstrap_controller.go: reconcileOperatorAccount
--                   (reconcile_operator_account), runOperatorProvisioning and migrateOperatorAccount
--                   (Operator.Run, Operator.Migrate), provisionOperatorCredential (Operator.Provision,
--                   in the monad of Operator.Act whose state is the managed Secret in memory) and
--                   operatorAccountStatus (Operator.Status)
--
-- A controller's state is a resource and the world W of its environment; its calls of the API server
-- and of Home Assistant are fields of a record (Api, Env) that take a world and return the next one,
-- so that every order of calls is explicit. What Home Assistant promises of its registries is the
-- record of laws IsRegistry; Registry.Toy is a registry that keeps them. Applied.Entries.IsHome holds
-- what it promises of the entries that are written by id, Operator.Ledger.IsServer and
-- Operator.Replay.IsCount which calls issue tokens.
--
-- Loops over lists are structural recursion. Two loops count down a number: markParentDirs on the
-- length of the path, since every round takes at least one part off it, and the retry loop on the
-- rounds that are left of MaxRetries. An int64 is its bit pattern, a number below 2 ^ 64. A Go map is
-- an association list; where the code iterates over one, the theorems hold for every order of it.
--
-- Not modelled: logging and events, the texts of wrapped errors, the time that a call takes, random
-- ids, the request and the gzip layer of an archive, the decoding of JSON (a parameter), the client's
-- HTTP and WebSocket connections, the construction of Kubernetes objects, the reconcile loop of the
-- bootstrap controller outside the parts named above, and the controllers of the other kinds of
-- resource.
pub mod Prelude
pub mod Cluster
pub mod Credentials
pub mod Registry
pub mod GoPath
pub mod CommunityRepo
pub mod Webhook
pub mod Reload
pub mod HttpConfig
pub mod BanRecovery
pub mod Applied
pub mod Operator
