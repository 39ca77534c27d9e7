-- ===== src/Control/Creation.antt =====
-- The result that the executor reports of a creation, as `update_execution_job` of
-- services/manager-control/app.py checks it.
use openclaw_manager.Common.{
  ℕ, String, Bool, true, false, not, ◌&&◌, Option, none, some, List, [], ◌∷◌, string_eq,
  if◌then◌else◌, leb, all,
}
use openclaw_manager.Json.{
  Value, Fields, get, has_exactly, among, has_text, is_filled, is_missing, text_of, int_of,
}
use openclaw_manager.Store.Rows.{Product, openclaw, hermes, evoscientist, other}
use openclaw_manager.Store.Provisioning.{CreationResult}

abbrev pub required : List String
required =
    "port" ∷ "version" ∷ "access_url" ∷ "admin_url" ∷ "basic_auth_password_ref" ∷ "openclaw_token"
    ∷ "auth_mode" ∷ []

-- The fields that remain of `required - {"port", "openclaw_token", "basic_auth_password_ref"}`. The
-- conditions of that loop on the field "openclaw_token" are on no field of it.
abbrev pub filled_fields : List String
filled_fields = "version" ∷ "access_url" ∷ "admin_url" ∷ "auth_mode" ∷ []

-- `{"openclaw": …, "hermes": …, "evoscientist": …}[product]`
abbrev pub auth_modes : Product → Option (List String)
auth_modes openclaw = some ("token" ∷ "trusted-proxy" ∷ [])
auth_modes hermes = some ("session" ∷ [])
auth_modes evoscientist = some ("none" ∷ [])
auth_modes (other name) = none

abbrev pub is_port : Option ℕ → Bool
is_port none = false
is_port (some port) = leb 1 port && leb port 65535

abbrev pub is_hermes : Product → Bool
is_hermes hermes = true
is_hermes _ = false

abbrev pub fits_password_ref : Product → Option Value → Bool
fits_password_ref product value =
    if is_hermes product then is_missing value else has_text is_filled value

-- The conditions before the one on the mode.
unfoldable pub is_complete : Product → Fields → Bool
is_complete product result =
    is_port (int_of (get "port" result))
    && all (λ name. has_text is_filled (get name result)) filled_fields
    && fits_password_ref product (get "basic_auth_password_ref" result)
    && has_text (λ _. true) (get "openclaw_token" result)

pub data Verdict : Type 0 where
  valid invalid : Verdict
  -- KeyError for a product that is not in the table
  unknown_product : Verdict

unfoldable pub check_creation : Product → Fields → Verdict
unfolding is_complete
check_creation product result =
    if not (has_exactly required result)
    then invalid
    else if not (is_complete product result)
    then invalid
    else elim (auth_modes product) [
      | none ↦ unknown_product
      | some modes ↦ if has_text (among modes) (get "auth_mode" result) then valid else invalid
    ]

-- The arguments of `finish_instance_provisioning` for a result.
abbrev pub reported : Fields → CreationResult
reported result = record {
  port = int_of (get "port" result);
  openclaw_version = text_of (get "version" result);
  access_url = text_of (get "access_url" result);
  admin_url = text_of (get "admin_url" result);
  basic_auth_password_ref = text_of (get "basic_auth_password_ref" result);
  openclaw_token = text_of (get "openclaw_token" result);
}
