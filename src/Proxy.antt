-- ===== src/Proxy.antt =====
-- services/model-proxy/app.py: the gate between the instances and the upstream model provider. The
-- request, the files of the tokens, the settings and the functions of urllib are arguments; header
-- names are ASCII.
pub mod Headers
pub mod Gate
pub mod Tokens
pub mod Target
pub mod Forwarding
pub mod Tests
use openclaw_manager.Common.{
  ℕ, String, Bool, ◌&&◌, Option, List, [], ◌∷◌, ◌==◌, nat_eq, string_eq, if◌then◌else◌, ◌+◌, any,
  leb, codes, starts_with, upsert, map,
}

-- `str.lower`, of an ASCII text
abbrev pub lower_code : ℕ → ℕ
lower_code c = if leb 65 c && leb c 90 then c + 32 else c

abbrev pub lower : String → List ℕ
lower text = map lower_code (codes text)

abbrev pub is_same : List ℕ → List ℕ → Bool
is_same a b = starts_with a b && starts_with b a

-- Whether a header's name is one of the names, which are in lower case.
abbrev pub is_named : List String → String → Bool
is_named names key = any (λ name. is_same (codes name) (lower key)) names

abbrev pub hop_by_hop_headers : List String
hop_by_hop_headers =
    "connection" ∷ "keep-alive" ∷ "proxy-authenticate" ∷ "proxy-authorization" ∷ "te" ∷ "trailers"
    ∷ "transfer-encoding" ∷ "upgrade" ∷ []

abbrev pub regenerated_response_headers : List String
regenerated_response_headers = "content-encoding" ∷ "content-length" ∷ []

abbrev pub model_gated_paths : List String
model_gated_paths = "chat/completions" ∷ "completions" ∷ "embeddings" ∷ "responses" ∷ []

-- A Python dict of texts, in the order of insertion.
abbrev pub HeaderDict : Type 0
HeaderDict = List (String × String)

abbrev pub set_item : String → String → HeaderDict → HeaderDict
set_item key value = upsert (λ item. item.0 == key) (λ item. (item.0, value)) (key, value)

-- What the services' texts are read with: `strip`, `strip("/")`, and the part after the first
-- white space.
pub record Text : Type 0 where
  pub strip : String → String
  pub strip_slashes : String → String
  pub after_space : String → String

pub record Url : Type 0 where
  pub scheme : String
  pub netloc : String
  pub path : String

-- `unquote`, `urljoin` and `urlsplit`
pub record UrlTools : Type 0 where
  pub unquote : String → String
  pub urljoin : String → String → String
  pub urlsplit : String → Url

pub record Request : Type 0 where
  pub method : String
  pub path : String
  pub query_string : String
  pub headers : HeaderDict
  -- the header Authorization, or the empty text
  pub authorization : String
  pub is_json : Bool
  -- `payload.get("model")`, where it is a text
  pub model : Option String

-- The settings, and the files under TOKEN_DIR: the stem and the content of each *.token, and the
-- lines of a user's *.models.
pub record Setup : Type 0 where
  pub upstream_base_url : String
  pub upstream_api_key : String
  pub token_files : List (String × String)
  pub model_lines : String → Option (List String)
