-- ===== src/Extensions/Methods.antt =====
-- src/extensions.rs: the tables of backend methods that a client may call.
pub mod Disjoint
use codex_acp_v.Common.{String, List, [], ◌∷◌}

unfoldable pub thread_methods : List String
thread_methods =
    "thread/archive" ∷ "thread/delete" ∷ "thread/name/set" ∷ "thread/goal/set" ∷ "thread/goal/get"
    ∷ "thread/goal/clear" ∷ "thread/queue/add" ∷ "thread/queue/list" ∷ "thread/queue/update"
    ∷ "thread/queue/delete" ∷ "thread/queue/reorder" ∷ "thread/queue/start"
    ∷ "thread/metadata/update" ∷ "thread/section/move" ∷ "thread/settings/update"
    ∷ "thread/memoryMode/set" ∷ "thread/unarchive" ∷ "thread/compact/start"
    ∷ "thread/approveGuardianDeniedAction" ∷ "thread/backgroundTerminals/clean"
    ∷ "thread/backgroundTerminals/list" ∷ "thread/backgroundTerminals/terminate" ∷ "thread/rollback"
    ∷ "thread/revert" ∷ "thread/searchOccurrences" ∷ "thread/read" ∷ "thread/turns/list"
    ∷ "thread/items/list" ∷ "thread/inject_items" ∷ "thread/increment_elicitation"
    ∷ "thread/decrement_elicitation" ∷ "turn/start" ∷ "turn/settings/update" ∷ "turn/steer"
    ∷ "turn/interrupt" ∷ "thread/realtime/start" ∷ "thread/realtime/appendAudio"
    ∷ "thread/realtime/appendText" ∷ "thread/realtime/appendSpeech" ∷ "thread/realtime/stop"
    ∷ "thread/timeline/list" ∷ "review/start" ∷ "mcpServer/event/stream/start"
    ∷ "mcpServer/event/stream/stop" ∷ "mcpServer/tool/call" ∷ []

unfoldable pub discovery_methods : List String
discovery_methods =
    "thread/list" ∷ "thread/loaded/list" ∷ "thread/search" ∷ "model/list"
    ∷ "modelProvider/capabilities/read" ∷ "experimentalFeature/list" ∷ "permissionProfile/list"
    ∷ "collaborationMode/list" ∷ "app/list" ∷ "app/installed" ∷ "app/read" ∷ "plugin/list"
    ∷ "plugin/search" ∷ "plugin/installed" ∷ "plugin/read" ∷ "plugin/skill/read" ∷ "skills/list"
    ∷ "hooks/list" ∷ "mcpServerStatus/list" ∷ "thread/realtime/listVoices" ∷ "environment/info"
    ∷ "environment/status" ∷ []

unfoldable pub host_methods : List String
host_methods =
    "thread/delete" ∷ "thread/shellCommand" ∷ "server/diagnostics" ∷ "memory/reset" ∷ "project/list"
    ∷ "project/read" ∷ "project/create" ∷ "project/import" ∷ "project/update" ∷ "project/move"
    ∷ "project/delete" ∷ "threadSection/list" ∷ "threadSection/create" ∷ "threadSection/update"
    ∷ "threadSection/delete" ∷ "skills/extraRoots/set" ∷ "skills/config/write" ∷ "marketplace/add"
    ∷ "marketplace/remove" ∷ "marketplace/upgrade" ∷ "plugin/reconcile" ∷ "plugin/share/save"
    ∷ "plugin/share/updateTargets" ∷ "plugin/share/list" ∷ "plugin/share/checkout"
    ∷ "plugin/share/delete" ∷ "plugin/install" ∷ "plugin/uninstall" ∷ "fs/readFile" ∷ "fs/writeFile"
    ∷ "fs/createDirectory" ∷ "fs/getMetadata" ∷ "fs/readDirectory" ∷ "fs/remove" ∷ "fs/copy"
    ∷ "fs/watch" ∷ "fs/unwatch" ∷ "experimentalFeature/enablement/set" ∷ "remoteControl/enable"
    ∷ "remoteControl/disable" ∷ "remoteControl/status/read" ∷ "remoteControl/pairing/start"
    ∷ "remoteControl/pairing/status" ∷ "remoteControl/client/list" ∷ "remoteControl/client/revoke"
    ∷ "environment/add" ∷ "mcpServer/oauth/login" ∷ "config/mcpServer/reload"
    ∷ "windowsSandbox/setupStart" ∷ "windowsSandbox/readiness" ∷ "account/login/start"
    ∷ "account/bedrock/discover" ∷ "account/bedrock/setup" ∷ "account/login/cancel"
    ∷ "account/logout" ∷ "account/read" ∷ "account/rateLimits/read"
    ∷ "account/rateLimitResetCredit/consume" ∷ "account/usage/read"
    ∷ "account/workspaceMessages/read" ∷ "account/sendAddCreditsNudgeEmail" ∷ "feedback/upload"
    ∷ "command/exec" ∷ "command/exec/write" ∷ "command/exec/terminate" ∷ "command/exec/resize"
    ∷ "process/spawn" ∷ "process/writeStdin" ∷ "process/kill" ∷ "process/resizePty" ∷ "config/read"
    ∷ "config/value/write" ∷ "config/batchWrite" ∷ "configRequirements/read"
    ∷ "externalAgentConfig/detect" ∷ "externalAgentConfig/import"
    ∷ "externalAgentConfig/import/recordHistory" ∷ "externalAgentConfig/import/readHistories"
    ∷ "fuzzyFileSearch" ∷ "fuzzyFileSearch/sessionStart" ∷ "fuzzyFileSearch/sessionUpdate"
    ∷ "fuzzyFileSearch/sessionStop" ∷ []

-- The methods of the session lifecycle, which the ACP handlers serve.
unfoldable pub lifecycle_methods : List String
lifecycle_methods = "thread/start" ∷ "thread/resume" ∷ "thread/fork" ∷ "thread/unsubscribe" ∷ []
