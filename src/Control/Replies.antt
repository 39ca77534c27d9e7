-- ===== src/Control/Replies.antt =====
-- What a handler of services/manager-control/app.py answers.
use openclaw_manager.Common.{ℕ, Bool, true, false, if◌then◌else◌}
use openclaw_manager.Store.Error.{
  Error, integrity_error, key_error, unstorable_value, mentions_not_found,
}

-- 200, a refusal with its status code, or an exception that no handler catches, which is a 500.
pub data Reply {ℓ} (A : Type ℓ) : Type ℓ where
  done : A → Reply A
  refused : ℕ → Reply A
  fault : Reply A

-- An exception that is not a ValueError.
abbrev pub is_uncaught : Error → Bool
is_uncaught integrity_error = true
is_uncaught key_error = true
is_uncaught unstorable_value = true
is_uncaught _ = false

-- `except ValueError as exc`, where "not found" in the message is 404 and any other is 409
abbrev pub reply_to_error {ℓ} : {A : Type ℓ} → Error → Reply A
reply_to_error e =
    if is_uncaught e then fault else refused (if mentions_not_found e then 404 else 409)
