-- ===== src/Store/Sessions/Lifetime.antt =====
-- What a session token finds, from its creation to its deletion.
use openclaw_manager.Common.{
  String, Bool, true, false, ◌&&◌, Option, none, some, List, [], ◌∷◌, ◌==◌, nat_eq, string_eq,
  option_eq, if◌then◌else◌, find, delete_where, insert, any, ltb, leb, ◌≡◌, refl, sym, ap, subst,
  ◌∙◌, inl, inr, arith, eq_iff, find-insert, find-delete_where, any-find, Bool-cases, Option-cases,
  ==_refl, eq_of_==,
}
use mathlib.Core.Option
use openclaw_manager.Store.Rows.{Time, Db, User, Session, ExternalToken}
use openclaw_manager.Store.Error.{ok}
use openclaw_manager.Store.Sessions.{
  has_token, is_session_kind, drop_sessions, fits_session, insert_session, link_external,
  create_session, get_session, delete_session,
}

abbrev pub user_of : Db → Session → Option User
user_of db s = find (λ (u : User). u.id == s.user_id) db.users

module _ (token : String) (t : Time) (db : Db) where
  get_session_found :
      (s : Session)
      → find (λ x. has_token token x && ltb t x.expires_at) db.sessions ≡ some s
      → get_session token t db ≡ Option.map (λ u. (s, u)) (user_of db s)
  unfolding get_session
  get_session_found s h = rw (h, get_session) refl

  get_session_missing :
      find (λ x. has_token token x && ltb t x.expires_at) db.sessions ≡ none
      → get_session token t db ≡ none
  unfolding get_session
  get_session_missing h = rw (h, get_session) refl

-- An unexpired session of a token that no session has.
no_such_session :
    (token : String) (t : Time) (xs : List Session)
    → any (has_token token) xs ≡ false
    → find (λ s. has_token token s && ltb t s.expires_at) xs ≡ none
no_such_session token t [] h = refl
no_such_session token t (x ∷ xs) h = ground (arith, no_such_session token t xs)

link_external-rows :
    (external : Option String) (token : String) (db db' : Db)
    → link_external external token db ≡ ok (tt, db')
    → (db'.sessions ≡ db.sessions) × (db'.users ≡ db.users)
unfolding link_external
link_external-rows none token db db' h = (cc, cc)
link_external-rows (some external) token db db' h = elim (Bool-cases (external == "")) [
  | inl e ↦ let k = rw (e, link_external) at h in (cc k, cc k)
  | inr e ↦
      elim (Bool-cases
        (any (λ (t : ExternalToken). t.session_token_hash == token) db.external_tokens)) [
          | inl n ↦ absurd (cc (rw n at (rw (e, link_external) at h)))
          | inr n ↦
              let k = rw n at (rw (e, link_external) at h) in (ground (arith, k), ground (arith, k))
        ]
]

module _ (s : Session) (external : Option String) (now : Time) (db db' : Db) where
  create-inv :
      create_session s.token_hash s.user_id s.provider s.csrf_token s.expires_at s.session_kind
          external now db
        ≡ ok (tt, db')
      → (fits_session s (drop_sessions (λ x. leb x.expires_at now) db) ≡ true)
        × (db'.sessions ≡ insert s (delete_where (λ x. leb x.expires_at now) db.sessions))
        × (db'.users ≡ db.users)
  unfolding create_session insert_session
  create-inv h = elim (Bool-cases (is_session_kind s.session_kind)) [
    | inr e ↦ absurd (cc (rw (e, create_session) at h))
    | inl e ↦
        let pruned = drop_sessions (λ x. leb x.expires_at now) db in
        elim (Bool-cases (fits_session s pruned)) [
          | inr n ↦ absurd (cc (rw n at (rw (e, create_session) at h)))
          | inl n ↦
              let k = rw n at (rw (e, create_session) at h) in
              let (a, b) =
                link_external-rows external s.token_hash
                  (record pruned { sessions = insert s pruned.sessions }) db' k in
              (n, a, b)
        ]
  ]

  here_self :
      (t : Time)
      → ltb t s.expires_at ≡ true
      → (if has_token s.token_hash s && ltb t s.expires_at then some s else none) ≡ some s
  here_self t e = rw (==_refl s.token_hash, e) refl

  not_here_self :
      (t : Time)
      → ltb t s.expires_at ≡ false
      → (if has_token s.token_hash s && ltb t s.expires_at then some s else none) ≡ none
  not_here_self t e = rw (==_refl s.token_hash, e) refl

  -- A session that was created belongs to a user of the table, and is found by its token, with that
  -- user, at every time before it expires, and at no later time.
  pub get_session-create_session :
      (t : Time)
      → create_session s.token_hash s.user_id s.provider s.csrf_token s.expires_at s.session_kind
          external now db
        ≡ ok (tt, db')
      → (u : User) × (user_of db s ≡ some u)
        × (get_session s.token_hash t db' ≡ (if ltb t s.expires_at then some (s, u) else none))
  get_session-create_session t h =
      let (fits, sessions, users) = create-inv h in
      let (u, owner) = any-find (λ (u : User). u.id == s.user_id) db.users (ground (arith, fits)) in
      let pruned = delete_where (λ x. leb x.expires_at now) db.sessions in
      let here = λ (x : Session). has_token s.token_hash x && ltb t x.expires_at in
      let before = no_such_session s.token_hash t pruned (ground (arith, fits)) in
      let found = find-insert here s pruned in
      (
        u,
        owner,
        elim (Bool-cases (ltb t s.expires_at)) [
          | inl e ↦ rw e (
              get_session_found s.token_hash t db' s
                (ap (find here) sessions ∙ found ∙ rw before (here_self t e))
              ∙ ap (λ us. Option.map (λ u. (s, u)) (find (λ (u : User). u.id == s.user_id) us))
                  users
              ∙ ap (Option.map (λ u. (s, u))) owner)
          | inr e ↦ rw e (
              get_session_missing s.token_hash t db'
                (ap (find here) sessions ∙ found ∙ rw before (not_here_self t e)))
        ],
      )

abbrev with_user : List User → Option Session → Option (Session × User)
with_user users none = none
with_user users (some s) = Option.map (λ u. (s, u)) (find (λ (u : User). u.id == s.user_id) users)

get_session_rows :
    (token : String) (t : Time) (db : Db)
    → get_session token t db
      ≡ with_user db.users (find (λ x. has_token token x && ltb t x.expires_at) db.sessions)
get_session_rows token t db =
    elim (Option-cases (find (λ x. has_token token x && ltb t x.expires_at) db.sessions)) [
      | inl e ↦ get_session_missing token t db e ∙ ap (with_user db.users) (sym e)
      | inr (s, e) ↦ get_session_found token t db s e ∙ ap (with_user db.users) (sym e)
    ]

get_session_same :
    (token : String) (t : Time) (a b : Db)
    → a.users ≡ b.users
    → find (λ x. has_token token x && ltb t x.expires_at) a.sessions
      ≡ find (λ x. has_token token x && ltb t x.expires_at) b.sessions
    → get_session token t a ≡ get_session token t b
unfolding get_session
get_session_same token t a b users h =
    get_session_rows token t a
    ∙ ap (with_user a.users) h
    ∙ ap (λ us. with_user us (find (λ x. has_token token x && ltb t x.expires_at) b.sessions)) users
    ∙ sym (get_session_rows token t b)

other_token :
    (token other : String) (t : Time) (x : Session)
    → (other == token) ≡ false
    → has_token token x ≡ true
    → (has_token other x && ltb t x.expires_at) ≡ false
other_token token other t x e k =
    ground (arith, eq_iff x.token_hash other, eq_iff x.token_hash token, eq_iff other token)

gone_sessions :
    (token : String) (t : Time) (gone : Session → Bool) (xs : List Session)
    → ((x : Session) → has_token token x ≡ true → gone x ≡ true)
    → find (λ x. has_token token x && ltb t x.expires_at) (delete_where gone xs) ≡ none
gone_sessions token t gone [] h = refl
gone_sessions token t gone (x ∷ xs) h = ground (arith, h x, gone_sessions token t gone xs h)

-- After a logout the token finds nothing at any time, and every other token finds what it found.
pub get_session-delete_session :
    (token other : String) (t : Time) (db : Db)
    → get_session other t (delete_session token db)
      ≡ (if other == token then none else get_session other t db)
unfolding delete_session
get_session-delete_session token other t db = elim (Bool-cases (other == token)) [
  | inl e ↦ rw e (
      get_session_missing other t _ (
        gone_sessions other t (has_token token) db.sessions
          (λ x k. subst (λ o. (x.token_hash == o) ≡ true) (eq_of_== other token e) k)))
  | inr e ↦ rw e (
      get_session_same other t (delete_session token db) db refl (
        find-delete_where _ (has_token token) (λ x k. other_token token other t x e k) db.sessions))
]
