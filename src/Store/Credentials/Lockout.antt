-- ===== src/Store/Credentials/Lockout.antt =====
-- The lockout after repeated login failures.
use openclaw_manager.Common.{
  ℕ, ◌+◌, ◌*◌, ◌<◌, ◌%◌, true, false, Option, none, some, List, [], ◌∷◌, ◌++◌, ◌==◌, nat_eq,
  string_eq, option_eq, if◌then◌else◌, ◌≡◌, refl, sym, ap, ◌∙◌, inl, inr, arith, find-update_same,
  Bool-cases, eq_of_==, length,
}
use mathlib.Core.Option
use native.Mathlib.Nat.{mod-eq_of_lt, mod-add-mod, mod-lt, add-mod_right}
use openclaw_manager.Store.Rows.{Time, Db, Credential}
use openclaw_manager.Store.Credentials.{
  has_user, get_local_credential, failed_once, record_login_failure,
}

-- What one failure makes of a row whose count is below the limit.
failed_row : ℕ → ℕ → Time → Credential → Credential
failed_row max_failures lock_minutes now c = record c {
  failed_login_count = (c.failed_login_count + 1) % max_failures;
  locked_until =
      if (c.failed_login_count + 1) == max_failures then some (now + lock_minutes * 60) else none;
}

succ_mod : (n m : ℕ) → n < m → ((n + 1) == m) ≡ false → (n + 1) % m ≡ n + 1
succ_mod n m lt ne = mod-eq_of_lt (ground arith)

self_zero : (m : ℕ) → m % m ≡ 0
self_zero m =
    let e : 0 + m ≡ m = omega arith in
    ap (λ (t : ℕ). t % m) (sym e) ∙ add-mod_right 0 m ∙ (grind arith)

self_mod : (n m : ℕ) → ((n + 1) == m) ≡ true → (n + 1) % m ≡ 0
self_mod n m e = rw (eq_of_== (n + 1) m e) (self_zero m)

failed_once-failed_row :
    (max_failures lock_minutes : ℕ) (now : Time) (c : Credential)
    → c.failed_login_count < max_failures
    → failed_once max_failures lock_minutes now c.failed_login_count c
      ≡ failed_row max_failures lock_minutes now c
unfolding failed_once failed_row
failed_once-failed_row max_failures lock_minutes now c lt =
    elim (Bool-cases ((c.failed_login_count + 1) == max_failures)) [
      | inl e ↦ ground (arith, self_mod c.failed_login_count max_failures e)
      | inr e ↦ ground (arith, succ_mod c.failed_login_count max_failures lt e)
    ]

regroup : (a b m : ℕ) → (a % m + b + 1) % m ≡ (a + (b + 1)) % m
regroup a b m = ap (λ (t : ℕ). t % m) (omega arith) ∙ mod-add-mod a m (b + 1)

has_user-failed_once :
    (max_failures lock_minutes : ℕ) (now : Time) (count user_id : ℕ) (c : Credential)
    → has_user user_id (failed_once max_failures lock_minutes now count c) ≡ has_user user_id c
unfolding failed_once
has_user-failed_once max_failures lock_minutes now count user_id c = ground arith

module _ (user_id max_failures lock_minutes : ℕ) where
  -- Each failure reads the clock anew.
  abbrev pub record_login_failures : List Time → Db → Db
  record_login_failures [] db = db
  record_login_failures (now ∷ times) db =
      record_login_failures times (record_login_failure user_id max_failures lock_minutes now db)

  record_login_failure_row :
      (now : Time) (db : Db) (c : Credential)
      → get_local_credential user_id db ≡ some c
      → c.failed_login_count < max_failures
      → get_local_credential user_id (record_login_failure user_id max_failures lock_minutes now db)
        ≡ some (failed_row max_failures lock_minutes now c)
  unfolding get_local_credential record_login_failure
  record_login_failure_row now db c h lt =
      rw (h, record_login_failure)
        (find-update_same (has_user user_id)
            (failed_once max_failures lock_minutes now c.failed_login_count)
            (λ x. has_user-failed_once max_failures lock_minutes now c.failed_login_count user_id x)
            db.credentials
          ∙ ap (Option.map (failed_once max_failures lock_minutes now c.failed_login_count)) h
          ∙ ap some (failed_once-failed_row max_failures lock_minutes now c lt))

  -- the test of the code, and the test of the specification
  lock_test :
      (n : ℕ)
      → n < max_failures
      → (o : Option Time)
      → (if (n + 1) == max_failures then o else none)
        ≡ (if ((n + 1) % max_failures) == 0 then o else none)
  lock_test n lt o = elim (Bool-cases ((n + 1) == max_failures)) [
    | inl e ↦ rw (e, self_mod n max_failures e) refl
    | inr e ↦ rw (e, succ_mod n max_failures lt e) (ground arith)
  ]

  -- After any positive number of failures in a row, counted from a row whose count is below the
  -- limit, the stored count is the number of failures modulo the limit, and the account is locked,
  -- for the configured minutes from the last failure, exactly if that number is a multiple of it.
  pub lockout :
      (times : List Time) (last : Time) (db : Db) (c : Credential)
      → get_local_credential user_id db ≡ some c
      → c.failed_login_count < max_failures
      → (c' : Credential) × (get_local_credential user_id
            (record_login_failures (times ++ last ∷ []) db)
          ≡ some c')
        × (c'.failed_login_count ≡ (c.failed_login_count + length times + 1) % max_failures)
        × (c'.locked_until
            ≡ (if c'.failed_login_count == 0 then some (last + lock_minutes * 60) else none))
        × (c'.password_hash ≡ c.password_hash)
  unfolding failed_row
  lockout [] last db c h lt = (
    failed_row max_failures lock_minutes last c,
    record_login_failure_row last db c h lt,
    ap (λ (n : ℕ). n % max_failures) (omega arith),
    lock_test (c.failed_login_count) lt (some (last + lock_minutes * 60)),
    refl,
  )
  lockout (now ∷ times) last db c h lt =
      let first = failed_row max_failures lock_minutes now c in
      let (c', found, count, locked, same) =
        lockout times last (record_login_failure user_id max_failures lock_minutes now db) first
          (record_login_failure_row now db c h lt) (mod-lt _ (omega arith)) in
      (
        c',
        found,
        count
            ∙ regroup (c.failed_login_count + 1) (length times) max_failures
            ∙ ap (λ (n : ℕ). n % max_failures) (omega arith),
        locked,
        same,
      )
