-- ===== src/HttpSafe/Tests.antt =====
-- The guard of outgoing requests with small parsers and a resolver of one name, and witnesses.
use terraform_suite_identity.Common.{
  Str, lit, ◌==◌, contains, filter, In, All, [], ◌∷◌, ◌++◌, ◌<◌, false, none, some, ok, err, ◌≡◌,
  refl, if◌then◌else◌, length, arith,
}
use terraform_suite_identity.HttpSafe.{
  Ip, zeros, Url, Net, blocked, private, check_ips, host_exempt, denied_range,
}
use terraform_suite_identity.HttpSafe.Ranges.{is_denied, internal_v4, denied_range_iff}
use terraform_suite_identity.HttpSafe.Dial.{
  pinned, IsSafe, Dialer, dial_context, dial_context-IsSafe, validate_url,
}
use terraform_suite_identity.HttpSafe.Redirect.{
  Request, max_redirects, check_redirect, credential_headers, IsSameOrigin, check_redirect_lem,
}

abbrev public_ip : Ip
public_ip = 93 ∷ 184 ∷ 216 ∷ 34 ∷ []

abbrev here : Url
here = record { scheme = lit "https"; host = lit "h"; hostname = lit "h" }

abbrev there : Url
there = record { scheme = lit "https"; host = lit "t"; hostname = lit "t" }

-- Every name is that of one public address, but "in", which is that of a private one.
abbrev toy : Net
toy = record {
  parse_cidr = λ s. none;
  parse_ip = λ s. none;
  parse_url = λ s. some there;
  split_host_port = λ s. some (s, lit "443");
  to_lower = λ s. s;
  equal_fold = λ s t. s == t;
  lookup_ip =
      λ s. if s == lit "in" then some ((10 ∷ 0 ∷ 0 ∷ 1 ∷ []) ∷ []) else some (public_ip ∷ []);
}

abbrev connects : Dialer
connects t = none

-- The public address is dialed, and the private one is not.
dials_public :
    dial_context toy none connects (lit "t")
    ≡ (ok (pinned public_ip (lit "443")), pinned public_ip (lit "443") ∷ [])
unfolding dial_context ◌==◌ host_exempt check_ips
dials_public = refl

blocks_private :
    dial_context toy none connects (lit "in") ≡ (err (blocked (10 ∷ 0 ∷ 0 ∷ 1 ∷ []) private), [])
unfolding dial_context ◌==◌ host_exempt check_ips
blocks_private = refl

dial_context-IsSafe_example :
    All
      (IsSafe toy none (lit "t") (lit "t") (lit "443"))
      (dial_context toy none connects (lit "t")).1
dial_context-IsSafe_example =
    dial_context-IsSafe toy none connects (lit "t") (lit "t") (lit "443") refl

denied_range_iff_example :
    (is_denied (denied_range (172 ∷ 20 ∷ 0 ∷ 1 ∷ [])) ≡ internal_v4 172 20 0 1)
    × (denied_range (zeros 10 ++ 0xff ∷ 0xff ∷ 172 ∷ 20 ∷ 0 ∷ 1 ∷ [])
        ≡ denied_range (172 ∷ 20 ∷ 0 ∷ 1 ∷ []))
denied_range_iff_example = denied_range_iff 172 20 0 1 (omega arith) (omega arith)

-- A request without a body that a redirect takes to another host.
abbrev leaving : Request
leaving = record {
  url = there;
  url_text = lit "https://t/";
  headers = (lit "Authorization", lit "s") ∷ (lit "Accept", lit "a") ∷ [];
  has_body = false;
}

abbrev stripped : Request
stripped = record leaving { headers = (lit "Accept", lit "a") ∷ [] }

leaves_stripped : check_redirect toy none leaving (here ∷ []) ≡ ok stripped
unfolding check_redirect ◌==◌ contains filter host_exempt check_ips
leaves_stripped = refl

check_redirect_lem_example :
    (length (here ∷ []) < max_redirects)
    × (validate_url toy none leaving.url_text ≡ ok tt)
    × ((name value : Str)
        → In (name, value) stripped.headers
        → In name credential_headers
        → IsSameOrigin toy here leaving.url)
check_redirect_lem_example = check_redirect_lem toy none leaving stripped here [] leaves_stripped
