-- ===== src/Executor/Creation.antt =====
-- The branch `create` of `run_once`, with `rollback_created_instance`.
use Prim.Native.String
use openclaw_manager.Common.{
  ℕ, String, Bool, true, false, not, ◌&&◌, Option, none, some, List, [], ◌∷◌, ◌==◌, nat_eq,
  string_eq, if◌then◌else◌,
}
use openclaw_manager.Json.{Value, Fields, get, truth}
use openclaw_manager.Store.Rows.{succeeded, Product, hermes, evoscientist}
use openclaw_manager.Executor.{
  Update, ClaimedInstance, run_create, compose_up, connect_networks, reload_nginx,
  configure_created, rollback_by_delete, rollback_by_script, returned, raised, Services, Texts, M,
  give, ◌>>=◌, ◌>>◌,
}
use openclaw_manager.Executor.Calls.{ask, update, run, param, running_at, failure_with, when_true}

abbrev pub is_hermes_product : Product → Bool
is_hermes_product hermes = true
is_hermes_product _ = false

-- `product in {"hermes", "evoscientist"}`
abbrev pub has_own_ingress : Product → Bool
has_own_ingress hermes = true
has_own_ingress evoscientist = true
has_own_ingress _ = false

-- The version is passed on where it is given and true.
abbrev pub given_version : Fields → Option Value
given_version params = elim (get "version" params) [
  | none ↦ none
  | some version ↦ if truth version then some version else none
]

abbrev pub creation_report : Fields → Update
creation_report result = record {
  status = succeeded;
  current_step = none;
  error_summary = none;
  output = some "instance created";
  result = some result;
}

abbrev pub rollback_note : Product → Bool → ℕ → String
rollback_note product created code =
    if has_own_ingress product && created && code == 0
    then "resources removed"
    else if created && code == 0
    then "resources moved to recycle bin"
    else if not created
    then "create script rolled back resources"
    else "manual cleanup required"

-- `"\n".join(part for part in parts if part)`
abbrev pub joined_parts : List String → String
joined_parts [] = ""
joined_parts (part ∷ parts) =
    let more = joined_parts parts in
    if part == ""
    then more
    else if more == ""
    then part
    else String.◌++◌ part (String.◌++◌ "\n" more)

module _ {W : Type 0} (services : Services W) (texts : Texts) where
  abbrev pub pop_client_created : M W Bool
  pop_client_created s =
      let (created, world) = services.pop_client_created s.world in
      (returned created, record s { world = world })

  -- `if instance.pop("_hermes_auth_client_created", False): control.delete_hermes_auth_client(...)`
  unfoldable pub drop_client : M W (Unit {0})
  drop_client = do
    created ← pop_client_created
    when_true created (ask services.delete_hermes_client)

  abbrev pub rollback_code : Product → Bool → M W ℕ
  rollback_code product created =
      if created
      then (do
        (code, output) ←
            run services
              (if has_own_ingress product then rollback_by_delete else rollback_by_script)
        give code)
      else give 0

  abbrev pub creation_failure : Product → Bool → ℕ → String → Update
  creation_failure product created code detail = failure_with "instance creation failed" (
      some (
        texts.rstrip (
          String.◌++◌ "instance creation failed; "
            (String.◌++◌ (rollback_note product created code) (String.◌++◌ "\n" detail)))))

  unfoldable pub give_up : Product → Bool → String → String → M W (Unit {0})
  unfolding drop_client
  give_up product created password failure_output = do
    drop_client
    code ← rollback_code product created
    update services (creation_failure product created code (texts.sanitize failure_output password))

  unfoldable pub report_created : M W (Unit {0})
  report_created = do
    result ← ask services.describe_creation
    update services (creation_report result)

  -- `try: ... except Exception as exc: code = 1; failure_output = str(exc)`
  unfoldable pub finish_creation : Product → String → M W (Unit {0})
  unfolding report_created give_up
  finish_creation product password s =
      let (answer, s') = report_created s in
      elim answer [
        | returned _ ↦ (returned tt, s')
        | raised text ↦ give_up product true password text s'
      ]

  unfoldable pub reload_nginx_after_create : M W (ℕ × String)
  reload_nginx_after_create = do
    up ← run services compose_up
    if up.0 == 0
        then (do
          connected ← run services connect_networks
          if connected.0 == 0
              then (do
                reloaded ← run services reload_nginx
                give (reloaded.0, joined_parts (up.1 ∷ connected.1 ∷ reloaded.1 ∷ [])))
              else give connected)
        else give up

  -- What makes a new instance reachable.
  abbrev pub open_ingress : Product → M W (ℕ × String)
  open_ingress product =
      if has_own_ingress product then run services configure_created else reload_nginx_after_create

  abbrev pub after_create : Product → String → ℕ × String → M W (Unit {0})
  after_create product password (code, output) =
      if code == 0
      then (do
        ingress ← open_ingress product
        if ingress.0 == 0
            then finish_creation product password
            else give_up product true password ingress.1)
      else give_up product false password output

  abbrev pub creation_password : Product → Fields → M W String
  creation_password product params =
      if is_hermes_product product
      then give ""
      else (do path ← param "secret_path" params; ask (services.consume_secret path))

  unfoldable pub perform_creation : ClaimedInstance → Fields → M W (Unit {0})
  unfolding finish_creation give_up
  perform_creation instance' params = do
    update services (running_at "creating instance")
    password ← creation_password instance'.product params
    answer ← run services (run_create (given_version params) instance'.basic_auth_enabled password)
    after_create instance'.product password answer
