-- ===== src/Proxy/Forwarding.antt =====
-- The handler `proxy`, and what a request that it forwards has passed.
use Prim.Native.String
use openclaw_manager.Common.{
  ℕ, String, Bool, true, false, ◌&&◌, ◌||◌, Option, none, some, List, [], ◌∷◌, ◌==◌, nat_eq,
  string_eq, if◌then◌else◌, any, All, ◌≡◌, ◌≢◌, refl, sym, ap, ◌∙◌, subst, eq_of_==, ◌⊎◌, inl, inr,
  Bool-cases, Option-cases,
}
use openclaw_manager.Proxy.{HeaderDict, Text, UrlTools, Request, Setup}
use openclaw_manager.Proxy.Headers.{
  IsClean, upstream_headers, response_headers, upstream_headers-All,
}
use openclaw_manager.Proxy.Tokens.{is_file_of, authenticate-inv}
use openclaw_manager.Proxy.Target.{IsTarget, upstream_url_for-IsTarget}
use openclaw_manager.Proxy.Gate.{
  bearer_token, authenticate, allowed_models_for_user, request_model, is_allowed, is_gated,
  enforce_model_allowlist, upstream_url_for,
}

-- The request to the provider.
pub record Sent : Type 0 where
  pub method : String
  pub url : String
  pub headers : HeaderDict

-- An item of a list of models, with its id where it has one.
pub record Entry : Type 0 where
  pub id : Option String
  pub content : String

-- What the body of a response holds for the list of the models.
pub data Body : Type 0 where
  not_json not_object no_list : Body
  entries : List Entry → Body

pub record UpstreamResponse : Type 0 where
  pub status : ℕ
  pub headers : HeaderDict
  pub body : Body

pub data Answer : Type 0 where
  error : ℕ → Answer
  -- the response, passed through
  stream : ℕ → HeaderDict → Answer
  -- JSON whose "data" is a list, or is not
  listing : ℕ → List Entry → Answer
  same_json : ℕ → Answer

abbrev pub is_listed_model : List String → Entry → Bool
is_listed_model models e = elim e.id [ none ↦ false | some id ↦ is_allowed models id ]

abbrev pub select_entries : List String → List Entry → List Entry
select_entries models [] = []
select_entries models (e ∷ es) =
    let rest = select_entries models es in if is_listed_model models e then e ∷ rest else rest

unfoldable pub filter_models_response : List String → UpstreamResponse → Answer
filter_models_response [] response = listing response.status []
filter_models_response (m ∷ models) response = elim response.body [
  | not_json ↦ stream response.status (response_headers response.headers)
  | not_object ↦ error 500
  | no_list ↦ same_json response.status
  | entries es ↦ listing response.status (select_entries (m ∷ models) es)
]

List-cases : (xs : List String) → (xs ≡ []) ⊎ ((m : String) × (ms : List String) × (xs ≡ m ∷ ms))
List-cases [] = inl refl
List-cases (m ∷ ms) = inr (m, ms, refl)

module _ (text : Text) (tools : UrlTools) (setup : Setup)
    (upstream : Sent → Option UpstreamResponse) where
  abbrev pub sent_for : Request → String → String → Sent
  sent_for request user_id url = record {
    method = request.method;
    url =
        if request.query_string == ""
        then url
        else String.◌++◌ url (String.◌++◌ "?" request.query_string);
    headers = upstream_headers setup.upstream_api_key user_id request.headers;
  }

  unfoldable pub relay : Request → String → Sent → Answer
  unfolding filter_models_response
  relay request user_id sent = elim (upstream sent) [
    | none ↦ error 502
    | some response ↦
        if request.method == "GET" && text.strip_slashes request.path == "models"
        then filter_models_response (allowed_models_for_user text setup user_id) response
        else stream response.status (response_headers response.headers)
  ]

  -- What is sent to the provider, if anything, and the answer.
  unfoldable pub proxy : Request → Option Sent × Answer
  unfolding relay
  proxy request =
      if setup.upstream_base_url == "" || setup.upstream_api_key == ""
      then (none, error 503)
      else elim (authenticate text setup request) [
        | none ↦ (none, error 401)
        | some user_id ↦
            if user_id == ""
            then (none, error 401)
            else elim (enforce_model_allowlist text setup request user_id) [
              | some status ↦ (none, error status)
              | none ↦ elim (upstream_url_for tools setup.upstream_base_url request.path) [
                | none ↦ (none, error 400)
                | some url ↦ (
                  some (sent_for request user_id url),
                  relay request user_id (sent_for request user_id url),
                )
              ]
            ]
      ]

  abbrev pub IsForwardable : Request → String → Sent → Type 0
  IsForwardable request user_id sent =
      (bearer_token text request ≢ "")
      × (any (is_file_of text user_id (bearer_token text request)) setup.token_files ≡ true)
      × (allowed_models_for_user text setup user_id ≢ [])
      × (is_gated text request ≡ true
          → is_allowed (allowed_models_for_user text setup user_id) (request_model text request)
            ≡ true)
      × ((url : String) × IsTarget tools setup.upstream_base_url request.path url
          × (request.query_string ≡ "" → sent.url ≡ url)
          × (request.query_string ≢ ""
              → sent.url ≡ String.◌++◌ url (String.◌++◌ "?" request.query_string)))
      × (sent.method ≡ request.method)
      × All (IsClean setup.upstream_api_key) sent.headers

  enforce_model_allowlist-inv :
      (request : Request) (user_id : String)
      → enforce_model_allowlist text setup request user_id ≡ none
      → (allowed_models_for_user text setup user_id ≢ [])
        × (is_gated text request ≡ true
            → is_allowed (allowed_models_for_user text setup user_id) (request_model text request)
              ≡ true)
  unfolding enforce_model_allowlist
  enforce_model_allowlist-inv request user_id h =
      elim (List-cases (allowed_models_for_user text setup user_id)) [
        | inl e ↦ absurd (cc (rw (e, enforce_model_allowlist) at h))
        | inr (m, ms, e) ↦
            let k = rw (e, enforce_model_allowlist) at h in
            (
              λ empty. absurd (cc (e, empty)),
              λ gated. elim (Bool-cases (request_model text request == "")) [
                | inl b ↦ absurd (cc (rw b at (rw gated at k)))
                | inr b ↦ elim (Bool-cases (is_allowed (m ∷ ms) (request_model text request))) [
                  | inl a ↦ rw e a
                  | inr a ↦ absurd (cc (rw a at (rw b at (rw gated at k))))
                ]
              ],
            )
      ]

  url_without_query :
      (request : Request) (user_id url : String)
      → request.query_string ≡ ""
      → (sent_for request user_id url).url ≡ url
  url_without_query request user_id url q = rw (ap (λ t. t == "") q) refl

  url_with_query :
      (request : Request) (user_id url : String)
      → request.query_string ≢ ""
      → (sent_for request user_id url).url ≡ String.◌++◌ url (String.◌++◌ "?" request.query_string)
  url_with_query request user_id url q = elim (Bool-cases (request.query_string == "")) [
    | inl e ↦ absurd (q (eq_of_== request.query_string "" e))
    | inr e ↦ rw e refl
  ]

  -- A request that is sent to the provider has passed every check: it has a token that is the
  -- content of its user's token file, at least one model is allowed to the user, the model is among
  -- those where the path is one of the gated ones and the method is POST, PUT or PATCH, neither the
  -- path nor what it decodes to holds a backslash, and no part of the decoded path is `.` or `..`. It
  -- is sent with the request's method to the join of the configured URL and the path, with the query
  -- where there is one, which has the scheme and the host of the configured URL and lies under its
  -- path, and its headers hold none of the connection's, no Host, and no Authorization but the
  -- proxy's own.
  pub proxy-IsForwardable :
      (request : Request) (sent : Sent)
      → (proxy request).0 ≡ some sent
      → (user_id : String) × IsForwardable request user_id sent
  unfolding proxy
  proxy-IsForwardable request sent h =
      elim (Bool-cases (setup.upstream_base_url == "" || setup.upstream_api_key == "")) [
        | inl e ↦ absurd (cc (rw (e, proxy) at h))
        | inr e ↦ elim (Option-cases (authenticate text setup request)) [
          | inl n ↦ absurd (cc (rw n at (rw (e, proxy) at h)))
          | inr (user_id, n) ↦ elim (Bool-cases (user_id == "")) [
            | inl b ↦ absurd (cc (rw b at (rw n at (rw (e, proxy) at h))))
            | inr b ↦ elim (Option-cases (enforce_model_allowlist text setup request user_id)) [
              | inr (status, m) ↦ absurd (cc (rw m at (rw b at (rw n at (rw (e, proxy) at h)))))
              | inl m ↦
                  elim (Option-cases
                    (upstream_url_for tools setup.upstream_base_url request.path)) [
                      | inl u ↦
                          absurd (cc (rw u at (rw m at (rw b at (rw n at (rw (e, proxy) at h))))))
                      | inr (url, u) ↦
                          let same : sent_for request user_id url ≡ sent =
                            cc (rw u at (rw m at (rw b at (rw n at (rw (e, proxy) at h))))) in
                          let (given, file) = authenticate-inv text setup request user_id n in
                          let (models, allowed) = enforce_model_allowlist-inv request user_id m in
                          (
                            user_id,
                            (
                              given,
                              file,
                              models,
                              allowed,
                              (
                                url,
                                upstream_url_for-IsTarget tools setup.upstream_base_url request.path
                                    url u,
                                λ q.
                                    ap (λ (x : Sent). x.url) (sym same)
                                    ∙ url_without_query request user_id url q,
                                λ q.
                                    ap (λ (x : Sent). x.url) (sym same)
                                    ∙ url_with_query request user_id url q,
                              ),
                              ap (λ (x : Sent). x.method) (sym same),
                              subst (λ (x : Sent). All (IsClean setup.upstream_api_key) x.headers)
                                  same
                                  (upstream_headers-All setup.upstream_api_key user_id
                                    request.headers),
                            ),
                          )
                    ]
            ]
          ]
        ]
      ]
