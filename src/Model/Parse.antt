-- ===== src/Model/Parse.antt =====
-- internal/model/model.go: ParseEndpoint. What url.Parse of package net/url answers is an argument;
-- the port of a URL that it parsed has digits only.
use bigducks_live.Base.{ℕ, not, ◌||◌, ltb, Option, none, some, [], if◌then◌else◌}
use bigducks_live.Base.Text.{Text, codes, text_eq, is_empty, to_lower, trim_space}
use bigducks_live.Errors.{failure, Result, ok, err}
use bigducks_live.Model.{Endpoint}
use bigducks_live.Update.Version.{atoi}

-- url.URL, as far as it is read: the user name with its password, if there is one.
pub record ParsedUrl : Type 0 where
  pub scheme : Text
  pub hostname : Text
  pub port : Text
  pub raw_query : Text
  pub fragment : Text
  pub user : Option (Text × Option Text)

abbrev pub user_name : Option (Text × Option Text) → Text
user_name none = []
user_name (some (name, password)) = name

abbrev pub password_of : Option (Text × Option Text) → Text
password_of none = []
password_of (some (name, none)) = []
password_of (some (name, some password)) = password

-- Behind the checks.
abbrev pub endpoint_of : ParsedUrl → ℕ → Endpoint
endpoint_of parsed port = record {
  scheme = codes "socks5";
  host = to_lower parsed.hostname;
  port = port;
  user = user_name parsed.user;
  pass = password_of parsed.user;
}

abbrev pub with_port : ParsedUrl → Option ℕ → Result Endpoint
with_port parsed none = err (failure "proxy port is invalid")
with_port parsed (some port) =
    if ltb port 1 || ltb 65535 port
    then err (failure "proxy port is invalid")
    else if not (is_empty parsed.raw_query) || not (is_empty parsed.fragment)
    then err (failure "proxy endpoint cannot contain query or fragment")
    else ok (endpoint_of parsed port)

unfoldable pub parsed_endpoint : Option ParsedUrl → Result Endpoint
parsed_endpoint none = err (failure "parse proxy endpoint")
parsed_endpoint (some parsed) =
    if not (text_eq (to_lower parsed.scheme) (codes "socks5"))
    then err (failure "unsupported proxy scheme")
    else if is_empty parsed.hostname
    then err (failure "proxy host is empty")
    else if is_empty parsed.port
    then err (failure "proxy port is missing")
    else with_port parsed (atoi parsed.port)

unfoldable pub parse_endpoint : (Text → Option ParsedUrl) → Text → Result Endpoint
parse_endpoint parse_url raw = parsed_endpoint (parse_url (trim_space raw))
