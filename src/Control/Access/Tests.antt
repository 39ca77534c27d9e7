-- ===== src/Control/Access/Tests.antt =====
-- A user of an external provider at the door of an instance.
use openclaw_manager.Common.{String, Bool, true, false, ◌==◌, string_eq, [], ◌∷◌, some, ◌≡◌, refl}
use openclaw_manager.Store.Rows.{Db, Session, User, Instance}
use openclaw_manager.Store.Ports.{is_live}
use openclaw_manager.Store.Members.{is_active_user, get_instance_for_user}
use openclaw_manager.Store.Sessions.{get_session}
use openclaw_manager.Store.Tests.{office}
use openclaw_manager.Control.Access.{
  authorize_instance_access, authorize_user, instance_for_entry, is_internal_provider,
}
use openclaw_manager.Control.Access.Entry.{MayEnter, authorize_instance_access_sound}

abbrev ticket : Session
ticket = record {
  token_hash = "0f";
  user_id = 1;
  provider = "uis";
  session_kind = "user";
  csrf_token = "c-1";
  expires_at = 900;
}

abbrev visited : Db
visited = record office { sessions = ticket ∷ [] }

-- The only well-formed hash of the sample.
abbrev is_sample_hash : String → Bool
is_sample_hash text = text == "0f"

authorize_instance_access_sound_example :
    (s : Session) × (u : User) × (i : Instance) × (is_sample_hash "0f" ≡ true)
    × (get_session "0f" 500 visited ≡ some (s, u))
    × (is_active_user u.status ≡ true)
    × (is_internal_provider "uis" ≡ false)
    × (s.provider ≡ "uis")
    × (is_live i.status ≡ true)
    × MayEnter visited "i-1" u i
    × (u.public_id ≡ "u-1")
unfolding authorize_instance_access authorize_user instance_for_entry get_session
    get_instance_for_user
authorize_instance_access_sound_example =
    authorize_instance_access_sound is_sample_hash "uis" "i-1" "0f" 500 visited "u-1" refl
