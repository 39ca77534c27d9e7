-- ===== src/Capabilities.antt =====
-- services/manager-web/product_capabilities.py: what each product can do, and the capability that
-- each execution action asks for. A product and a capability are their texts; a missing key gives
-- the empty set, or none.
use openclaw_manager.Common.{
  String, Bool, Option, none, some, List, [], ◌∷◌, ◌==◌, string_eq, if◌then◌else◌, any,
}

abbrev openclaw_capabilities : List String
openclaw_capabilities =
    "status" ∷ "logs" ∷ "start" ∷ "stop" ∷ "restart" ∷ "create" ∷ "batch_create" ∷ "delete"
    ∷ "restore" ∷ "purge_deleted" ∷ "update_version" ∷ "batch_set_model_provider" ∷ "basic_auth"
    ∷ "skill_install" ∷ "dashboard" ∷ "access" ∷ "device_pairing" ∷ "file_upload" ∷ "file_download"
    ∷ "file_delete" ∷ []

abbrev evoscientist_capabilities : List String
evoscientist_capabilities =
    "access" ∷ "status" ∷ "logs" ∷ "start" ∷ "stop" ∷ "restart" ∷ "create" ∷ "delete" ∷ "restore"
    ∷ "purge_deleted" ∷ "update_version" ∷ "cleanup_failed" ∷ "batch_set_model_provider" ∷ []

abbrev hermes_capabilities : List String
hermes_capabilities =
    "access" ∷ "status" ∷ "logs" ∷ "start" ∷ "stop" ∷ "restart" ∷ "create" ∷ "ingress_refresh"
    ∷ "delete" ∷ "restore" ∷ "purge_deleted" ∷ "update_version" ∷ "batch_set_model_provider" ∷ []

unfoldable pub product_capabilities : String → List String
product_capabilities product =
    if product == "openclaw"
    then openclaw_capabilities
    else if product == "evoscientist"
    then evoscientist_capabilities
    else if product == "hermes"
    then hermes_capabilities
    else []

unfoldable pub product_supports : String → String → Bool
unfolding product_capabilities
product_supports product capability = any (λ c. c == capability) (product_capabilities product)

pub record AuthContract : Type 0 where
  pub edge_authorization : String
  pub product_auth : String
  pub identity_header : Option String

product_auth_contract : String → Option AuthContract
product_auth_contract product =
    if product == "openclaw"
    then some (record {
      edge_authorization = "uis";
      product_auth = "trusted_proxy";
      identity_header = some "x-forwarded-user";
    })
    else if product == "hermes"
    then some
        (record { edge_authorization = "uis"; product_auth = "session"; identity_header = none })
    else if product == "evoscientist"
    then some (record { edge_authorization = "uis"; product_auth = "none"; identity_header = none })
    else none

abbrev lookup : String → List (String × String) → Option String
lookup key [] = none
lookup key (row ∷ rows) = if row.0 == key then some row.1 else lookup key rows

abbrev action_capabilities : List (String × String)
action_capabilities =
    ("instance.create", "create")
    ∷ ("instance.start", "start")
    ∷ ("instance.stop", "stop")
    ∷ ("instance.restart", "restart")
    ∷ ("instance.set_basic_auth", "basic_auth")
    ∷ ("instance.update_version", "update_version")
    ∷ ("instance.install_skill", "skill_install")
    ∷ ("instance.set_model_provider", "batch_set_model_provider")
    ∷ ("instance.refresh_devices", "device_pairing")
    ∷ ("instance.approve_latest_device", "device_pairing")
    ∷ ("instance.delete", "delete")
    ∷ ("instance.restore", "restore")
    ∷ ("instance.purge_deleted", "purge_deleted")
    ∷ ("instance.cleanup_failed", "cleanup_failed")
    ∷ ("instance.wechat_bind", "device_pairing")
    ∷ ("instance.refresh_ingress", "ingress_refresh")
    ∷ []

unfoldable pub execution_action_capability : String → Option String
execution_action_capability action = lookup action action_capabilities
