-- ===== src/Proxy/Tests.antt =====
-- An instance asks for a completion.
use openclaw_manager.Common.{String, true, none, some, [], ◌∷◌, refl, string_eq, Option}
use openclaw_manager.Proxy.{Text, UrlTools, Request, Setup}
use openclaw_manager.Proxy.Gate.{
  authenticate, bearer_token, enforce_model_allowlist, upstream_url_for,
}
use openclaw_manager.Proxy.Forwarding.{
  Sent, UpstreamResponse, sent_for, proxy, IsForwardable, proxy-IsForwardable,
}

abbrev plain : Text
plain = record { strip = λ t. t; strip_slashes = λ t. t; after_space = λ t. "secret-7" }

abbrev one_host : UrlTools
one_host = record {
  unquote = λ t. t;
  urljoin = λ base path. "https://models.example/v1/chat/completions";
  urlsplit = λ url. record { scheme = "https"; netloc = "models.example"; path = "/v1/" };
}

abbrev gate : Setup
gate = record {
  upstream_base_url = "https://models.example/v1";
  upstream_api_key = "key";
  token_files = ("alice", "secret-6") ∷ ("bob", "secret-7") ∷ [];
  model_lines = λ user. some ("# models" ∷ "small" ∷ []);
}

abbrev question : Request
question = record {
  method = "POST";
  path = "chat/completions";
  query_string = "";
  headers =
      ("Authorization", "Bearer secret-7") ∷ ("Accept", "text/html") ∷ ("Connection", "close") ∷ [];
  authorization = "Bearer secret-7";
  is_json = true;
  model = some "small";
}

abbrev silent : Sent → Option UpstreamResponse
silent sent = none

abbrev passed : Sent
passed =
    sent_for plain one_host gate silent question "bob" "https://models.example/v1/chat/completions"

proxy-IsForwardable_example :
    (user_id : String) × IsForwardable plain one_host gate silent question user_id passed
unfolding proxy authenticate bearer_token enforce_model_allowlist upstream_url_for
proxy-IsForwardable_example = proxy-IsForwardable plain one_host gate silent question passed refl
