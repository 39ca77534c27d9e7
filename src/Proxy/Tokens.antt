-- ===== src/Proxy/Tokens.antt =====
-- The tokens come from the files.
use openclaw_manager.Common.{
  String, Bool, true, ◌&&◌, List, [], ◌∷◌, ◌==◌, string_eq, any, All, All-imp, ◌≡◌, refl, inl, inr,
  Bool-cases, ==_refl, some, find, find-All, find_sound, Option-cases, ◌≢◌, eq_of_==, ne_of_==,
  subst, sym, arith,
}
use openclaw_manager.Proxy.{HeaderDict, set_item, Text, Request, Setup}
use openclaw_manager.Proxy.Headers.{set_item-All}
use openclaw_manager.Proxy.Gate.{load_tokens, bearer_token, authenticate}

-- Every element passes a test that it passes with itself.
self_any {ℓ} :
    {A : Type ℓ} (r : A → A → Bool)
    → ((x : A) → r x x ≡ true)
    → (xs : List A) → All (λ x. any (λ y. r y x) xs ≡ true) xs
self_any r h [] = tt
self_any r h (x ∷ xs) = (
  rw (h x) refl,
  All-imp (λ z. any (λ y. r y z) xs ≡ true) (λ z. any (λ y. r y z) (x ∷ xs) ≡ true)
      (λ z k. ground (arith, k)) xs (self_any r h xs),
)

module _ (text : Text) where
  load_tokens-All :
      (P : String × String → Type 0) (files : List (String × String)) (tokens : HeaderDict)
      → All (λ (file : String × String). P (text.strip file.1, file.0)) files
      → All P tokens
      → All P (load_tokens text files tokens)
  load_tokens-All P [] tokens hs h = h
  load_tokens-All P ((stem, content) ∷ files) tokens (p, hs) h =
      elim (Bool-cases (text.strip content == "")) [
        | inl e ↦ rw e (load_tokens-All P files tokens hs h)
        | inr e ↦ rw e (
            load_tokens-All P files (set_item (text.strip content) stem tokens) hs
              (set_item-All P (text.strip content) stem p tokens h))
      ]

  -- The file has the user's name and the token.
  abbrev pub is_file_of : String → String → String × String → Bool
  is_file_of user_id token file = file.0 == user_id && text.strip file.1 == token

  pub authenticate-inv :
      (setup : Setup) (request : Request) (user_id : String)
      → authenticate text setup request ≡ some user_id
      → (bearer_token text request ≢ "")
        × (any (is_file_of user_id (bearer_token text request)) setup.token_files ≡ true)
  unfolding authenticate
  authenticate-inv setup request user_id h =
      let provided = bearer_token text request in
      let tokens = load_tokens text setup.token_files [] in
      let own : All
          (λ (item : String × String). any (is_file_of item.1 item.0) setup.token_files ≡ true)
          tokens =
        load_tokens-All _ setup.token_files []
          (self_any (λ (file of : String × String). is_file_of of.0 (text.strip of.1) file)
            (λ file. ground (arith, ==_refl file.0, ==_refl (text.strip file.1))) setup.token_files)
          tt in
      elim (Bool-cases (bearer_token text request == "")) [
        | inl e ↦ absurd (cc (rw (e, authenticate) at h))
        | inr e ↦
            elim (Option-cases
              (find (λ (item : String × String). bearer_token text request == item.0) tokens)) [
                | inl n ↦ absurd (cc (rw n at (rw (e, authenticate) at h)))
                | inr (item, n) ↦
                    let user : item.1 ≡ user_id = cc (rw n at (rw (e, authenticate) at h)) in
                    let token =
                      eq_of_== provided item.0 (
                        find_sound (λ (item : String × String). provided == item.0) tokens item
                          n) in
                    (
                      ne_of_== (bearer_token text request) "" e,
                      subst (λ (u : String). any (is_file_of u provided) setup.token_files ≡ true)
                          user
                          (subst
                            (λ (t : String). any (is_file_of item.1 t) setup.token_files ≡ true)
                            (sym token)
                            (find-All
                              (λ (item : String × String).
                                any (is_file_of item.1 item.0) setup.token_files ≡ true)
                              (λ (item : String × String). provided == item.0) tokens item own n)),
                    )
              ]
      ]
