-- ===== src/Pac.antt =====
-- internal/pac/pac.go: the script that tells Chromium which hosts go through the relay. The set of
-- hosts is a list without repetitions, which is sorted; the JSON of a list is an argument. The server
-- that hands the script out is left out.
pub mod Hosts
use bigducks_live.Base.{ℕ, Bool, ◌||◌, ltb, List, [], ◌∷◌, ◌++◌, if◌then◌else◌}
use bigducks_live.Base.Sort.{sort, text_le}
use bigducks_live.Base.Text.{Text, codes, is_empty, to_lower, trim_space, trim_suffix}
use bigducks_live.Model.Hosts.{add_key}
use bigducks_live.Model.Url.{itoa}

-- `strings.ToLower(strings.TrimSuffix(strings.TrimSpace(value), "."))`
unfoldable pub normal_value : Text → Text
normal_value value = to_lower (trim_suffix (trim_space value) (codes "."))

unfoldable pub collect_values : List Text → List Text → List Text
collect_values set [] = set
collect_values set (value ∷ values) =
    let normal = normal_value value in
    collect_values (if is_empty normal then set else add_key normal set) values

unfoldable pub normalize_list : List Text → List Text
normalize_list values = sort text_le (collect_values [] values)

abbrev pub new_line : Text
new_line = 10 ∷ []

abbrev pub line : Text → Text → Text
line text rest = text ++ (new_line ++ rest)

unfoldable pub render : (List Text → Text) → List Text → List Text → ℕ → Text
render marshal hosts suffixes port =
    if ltb port 1 || ltb 65535 port
    then line (codes "function FindProxyForURL(url, host) { return \"DIRECT\"; }") []
    else line (codes "var routed = " ++ (marshal (normalize_list hosts) ++ codes ";")) (
        line (codes "var routedSuffixes = " ++ (marshal (normalize_list suffixes) ++ codes ";")) (
          line (codes "function FindProxyForURL(url, host) {") (
            line (codes "  host = String(host).toLowerCase().replace(/\\.$/, \"\");") (
              line (codes "  for (var i = 0; i < routedSuffixes.length; i++) {") (
                line
                  (codes
                      "    if (host === routedSuffixes[i] || host.endsWith(\".\" + routedSuffixes[i])) return \"SOCKS5 127.0.0.1:"
                    ++ (itoa port ++ codes "\";"))
                  (line (codes "  }") (
                    line (codes "  for (var i = 0; i < routed.length; i++) {") (
                      line
                        (codes "    if (host === routed[i]) return \"SOCKS5 127.0.0.1:"
                          ++ (itoa port ++ codes "\";"))
                        (line (codes "  }")
                          (line (codes "  return \"DIRECT\";") (line (codes "}") [])))))))))))
