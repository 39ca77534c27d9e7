-- ===== src/Store/Sessions/Activation.antt =====
-- What a change of the active provider ends.
use openclaw_manager.Common.{
  String, Bool, true, false, none, some, [], ◌==◌, nat_eq, string_eq, option_eq, find, update_where,
  insert, ◌≡◌, ◌≢◌, refl, sym, ap, subst, ◌∙◌, ◌⊎◌, inl, inr, find-insert, find-update_key,
  Bool-cases, Option-cases, eq_of_==, ne_of_==,
}
use openclaw_manager.Store.Rows.{Db}
use openclaw_manager.Store.Sessions.{has_key, get_setting, active_provider, activate_auth_provider}

module _ (provider : String) (db : Db) where
  first_activation :
      find (has_key active_provider) db.settings ≡ none
      → activate_auth_provider provider db
        ≡ (false, record db { settings = insert (active_provider, provider) db.settings })
  unfolding activate_auth_provider
  first_activation e = rw (e, activate_auth_provider) refl

  same_activation :
      (row : String × String)
      → find (has_key active_provider) db.settings ≡ some row
      → (row.1 == provider) ≡ true
      → activate_auth_provider provider db ≡ (false, db)
  unfolding activate_auth_provider
  same_activation row e n = rw (e, activate_auth_provider) (rw n refl)

  abbrev switched : Db
  switched = record db {
    sessions = [];
    external_tokens = [];
    settings =
        update_where (has_key active_provider) (λ _. (active_provider, provider)) db.settings;
  }

  switch_activation :
      (row : String × String)
      → find (has_key active_provider) db.settings ≡ some row
      → (row.1 == provider) ≡ false
      → activate_auth_provider provider db ≡ (true, switched)
  unfolding activate_auth_provider
  switch_activation row e n = rw (e, activate_auth_provider) (rw n refl)

  setting_found :
      (row : String × String)
      → find (has_key active_provider) db.settings ≡ some row
      → get_setting active_provider none db ≡ some row.1
  unfolding get_setting
  setting_found row e = rw (e, get_setting) refl

  setting_missing :
      find (has_key active_provider) db.settings ≡ none → get_setting active_provider none db ≡ none
  unfolding get_setting
  setting_missing e = rw (e, get_setting) refl

-- What holds of the state after an activation, and of its result.
abbrev pub IsActivated : String → Db → Bool × Db → Type 0
IsActivated provider db (changed, db') =
    (get_setting active_provider none db' ≡ some provider)
    × (((changed ≡ true)
          × (db'.sessions ≡ [])
          × ((old : String) × (get_setting active_provider none db ≡ some old) × (old ≢ provider)))
        ⊎ ((changed ≡ false)
            × (db'.sessions ≡ db.sessions)
            × ((get_setting active_provider none db ≡ none)
                ⊎ (get_setting active_provider none db ≡ some provider))))

-- A switch of the provider ends every session; naming the provider that is active already, or the
-- first one, ends none. The provider is the active one afterwards in each case.
pub activate_auth_provider-IsActivated :
    (provider : String) (db : Db) → IsActivated provider db (activate_auth_provider provider db)
activate_auth_provider-IsActivated provider db =
    elim (Option-cases (find (has_key active_provider) db.settings)) [
      | inl e ↦ subst (IsActivated provider db) (sym (first_activation provider db e)) (
        setting_found provider
            (record db { settings = insert (active_provider, provider) db.settings })
            (active_provider, provider)
            (find-insert (has_key active_provider) (active_provider, provider) db.settings
              ∙ rw e refl),
        inr (refl, refl, inl (setting_missing provider db e)),
      )
      | inr (row, e) ↦ elim (Bool-cases (row.1 == provider)) [
        | inl n ↦
            let known = setting_found provider db row e ∙ ap some (eq_of_== row.1 provider n) in
            subst (IsActivated provider db) (sym (same_activation provider db row e n))
              (known, inr (refl, refl, inr known))
        | inr n ↦ subst (IsActivated provider db) (sym (switch_activation provider db row e n)) (
          setting_found provider (switched provider db) (active_provider, provider)
              (find-update_key (has_key active_provider) (λ _. (active_provider, provider))
                  (λ _ _. refl) db.settings
                ∙ rw e refl),
          inl (refl, refl, (row.1, setting_found provider db row e, ne_of_== row.1 provider n)),
        )
      ]
    ]
