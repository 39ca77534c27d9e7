-- ===== src/Proxy/Gate.antt =====
-- Who may ask, for which model, and where the request goes.
use Prim.Native.String
use openclaw_manager.Common.{
  ℕ, String, Bool, ◌&&◌, ◌||◌, Option, none, some, List, [], ◌∷◌, ◌==◌, nat_eq, string_eq,
  if◌then◌else◌, any, find, codes, ◌++◌, starts_with,
}
use openclaw_manager.Proxy.{
  HeaderDict, set_item, Text, Url, UrlTools, Request, Setup, lower, is_same, model_gated_paths,
}

abbrev pub is_allowed : List String → String → Bool
is_allowed models model = any (λ m. m == model) models

module _ (text : Text) where
  -- `load_tokens`, with the tokens that are loaded so far
  abbrev pub load_tokens : List (String × String) → HeaderDict → HeaderDict
  load_tokens [] tokens = tokens
  load_tokens ((stem, content) ∷ files) tokens =
      let token = text.strip content in
      load_tokens files (if token == "" then tokens else set_item token stem tokens)

  unfoldable pub bearer_token : Request → String
  bearer_token request =
      if starts_with (codes "bearer ") (lower request.authorization)
      then text.strip (text.after_space request.authorization)
      else ""

  unfoldable pub authenticate : Setup → Request → Option String
  unfolding bearer_token
  authenticate setup request =
      let provided = bearer_token request in
      if provided == ""
      then none
      else elim (find (λ (item : String × String). provided == item.0)
          (load_tokens setup.token_files [])) [ none ↦ none | some item ↦ some item.1 ]

  abbrev pub allowed_lines : List String → List String
  allowed_lines [] = []
  allowed_lines (line ∷ lines) =
      let rest = allowed_lines lines in
      if text.strip line == "" || starts_with (codes "#") (codes (text.strip line))
      then rest
      else text.strip line ∷ rest

  abbrev pub allowed_models_for_user : Setup → String → List String
  allowed_models_for_user setup user_id = elim (setup.model_lines user_id) [
    | none ↦ []
    | some lines ↦ allowed_lines lines
  ]

  abbrev pub request_model : Request → String
  request_model request = elim request.model [
    | none ↦ ""
    | some model ↦ if request.is_json then text.strip model else ""
  ]

  abbrev pub is_gated : Request → Bool
  is_gated request =
      (request.method == "POST" || request.method == "PUT" || request.method == "PATCH")
      && is_allowed model_gated_paths (text.strip_slashes request.path)

  -- the status of the refusal, if any
  unfoldable pub enforce_model_allowlist : Setup → Request → String → Option ℕ
  enforce_model_allowlist setup request user_id = elim (allowed_models_for_user setup user_id) [
    | [] ↦ some 403
    | m ∷ models ↦
        if is_gated request
        then if request_model request == ""
          then some 400
          else if is_allowed (m ∷ models) (request_model request)
          then none
          else some 403
        else none
  ]

-- `path.split("/")`
abbrev pub segments : List ℕ → List (List ℕ)
segments [] = [] ∷ []
segments (c ∷ cs) = elim (segments cs) [
  | [] ↦ [] ∷ []
  | part ∷ parts ↦ if c == 47 then [] ∷ part ∷ parts else (c ∷ part) ∷ parts
]

abbrev pub is_dotted : List ℕ → Bool
is_dotted part = is_same part (codes ".") || is_same part (codes "..")

-- `rstrip("/")`
abbrev pub without_slashes : List ℕ → List ℕ
without_slashes [] = []
without_slashes (c ∷ cs) = elim (without_slashes cs) [
  | [] ↦ if c == 47 then [] else c ∷ []
  | d ∷ ds ↦ c ∷ d ∷ ds
]

-- The target stays under the configured URL.
abbrev pub is_under : Url → Url → Bool
is_under configured resolved =
    resolved.scheme == configured.scheme
    && resolved.netloc == configured.netloc
    && starts_with (without_slashes (codes configured.path) ++ codes "/") (codes resolved.path)

-- none for a ValueError
unfoldable pub upstream_url_for : UrlTools → String → String → Option String
upstream_url_for tools base_url path =
    let decoded = tools.unquote path in
    if any (λ c. c == 92) (codes path) || any (λ c. c == 92) (codes decoded)
    then none
    else if any is_dotted (segments (codes decoded))
    then none
    else let candidate = tools.urljoin (String.◌++◌ base_url "/") path in
      if is_under (tools.urlsplit base_url) (tools.urlsplit candidate) then some candidate else none
