-- ===== src/HttpSafe/Redirect.antt =====
-- `safeToFollow` and `CheckRedirect` (identity/httpsafe/httpsafe.go): which redirects are followed,
-- and with which headers.
use terraform_suite_identity.Common.{
  ℕ, ◌<◌, Str, lit, contains, contains_iff, ltb, List, [], ◌∷◌, length, filter, filter-In, In, Bool,
  true, false, not, ◌&&◌, if◌then◌else◌, Result, ok, err, ◌>>◌, >>-eq-ok, ok_inj, require,
  require-ok, ◌≡◌, ◌⊎◌, refl, sym, subst, arith, Option,
}
use terraform_suite_identity.HttpSafe.{
  Guard, Url, Net, EgressError, too_many_redirects, redirect_blocked, body_on_redirect,
}
use terraform_suite_identity.HttpSafe.Dial.{validate_url}

abbrev pub max_redirects : ℕ
max_redirects = 10

-- A header, by its canonical name.
abbrev pub Headers : Type 0
Headers = List (Str × Str)

-- The request that a redirect leads to: its URL and that URL's text, its headers, and whether it has
-- a body, `req.GetBody != nil || req.ContentLength != 0`.
pub record Request : Type 0 where
  pub url : Url
  pub url_text : Str
  pub headers : Headers
  pub has_body : Bool

unfoldable pub safe_to_follow : Net → Url → Url → Bool
safe_to_follow net from to =
    if not (net.equal_fold from.host to.host)
    then false
    else if net.equal_fold from.scheme to.scheme
    then true
    else net.equal_fold from.scheme (lit "http") && net.equal_fold to.scheme (lit "https")

abbrev pub credential_headers : List Str
credential_headers =
    lit "Authorization" ∷ lit "Proxy-Authorization" ∷ lit "Cookie" ∷ lit "Cookie2" ∷ []

-- The four calls of `req.Header.Del`.
unfoldable pub drop_credentials : Headers → Headers
drop_credentials headers = filter (λ (h : Str × Str). not (contains credential_headers h.0)) headers

-- What is done with a redirect that leaves the origin.
unfoldable pub follow : Bool → Request → Result EgressError Request
unfolding drop_credentials
follow true req = ok req
follow false req = do
  require (not req.has_body) body_on_redirect
  ok (record req { headers = drop_credentials req.headers })

abbrev pub within_origin : Net → Request → List Url → Bool
within_origin net req [] = true
within_origin net req (first ∷ via) = safe_to_follow net first req.url

-- The error of `ValidateURL`, wrapped.
unfoldable pub wrap_blocked : Result EgressError (Unit {0}) → Result EgressError (Unit {0})
wrap_blocked (ok tt) = ok tt
wrap_blocked (err e) = err redirect_blocked

-- `via` holds the URLs of the requests so far, the first one first.
unfoldable pub check_redirect : Net → Option Guard → Request → List Url → Result EgressError Request
unfolding wrap_blocked validate_url follow safe_to_follow
check_redirect net g req via = do
  require (ltb (length via) max_redirects) too_many_redirects
  wrap_blocked (validate_url net g req.url_text)
  follow (within_origin net req via) req

follow-header :
    (inside : Bool) (req req' : Request) (name value : Str)
    → follow inside req ≡ ok req'
    → In (name, value) req'.headers
    → In name credential_headers
    → inside ≡ true
unfolding follow drop_credentials
follow-header true req req' name value h i c = refl
follow-header false req req' name value h i c =
    let (bare, done) = >>-eq-ok (require (not req.has_body) body_on_redirect) _ _ h in
    let i' = subst (λ (r : Request). In (name, value) r.headers) (sym (ok_inj done)) i in
    let (there, t) =
      filter-In (λ (x : Str × Str). not (contains credential_headers x.0)) (name, value) req.headers
        i' in
    let c' = (contains_iff credential_headers name).1 c in cc (subst (λ b. not b ≡ true) c' t)

wrap_blocked-ok : (o : Result EgressError (Unit {0})) → wrap_blocked o ≡ ok tt → o ≡ ok tt
unfolding wrap_blocked
wrap_blocked-ok (ok tt) h = refl
wrap_blocked-ok (err e) h = cc h

-- Hosts agree, and the scheme is the same or is raised from http to https.
abbrev pub IsSameOrigin : Net → Url → Url → Type 0
IsSameOrigin net from to =
    (net.equal_fold from.host to.host ≡ true)
    × ((net.equal_fold from.scheme to.scheme ≡ true)
        ⊎ ((net.equal_fold from.scheme (lit "http") ≡ true)
            × (net.equal_fold to.scheme (lit "https") ≡ true)))

safe_to_follow-IsSameOrigin :
    (net : Net) (from to : Url) → safe_to_follow net from to ≡ true → IsSameOrigin net from to
unfolding safe_to_follow
safe_to_follow-IsSameOrigin net from to h = ground arith

-- A redirect that is followed is one of at most ten requests and leads to a URL that the guard
-- accepts; and a credential header is still on it only where it stays with the host that the first
-- request named, without a step down from https.
pub check_redirect_lem :
    (net : Net) (g : Option Guard) (req req' : Request) (first : Url) (via : List Url)
    → check_redirect net g req (first ∷ via) ≡ ok req'
    → (length (first ∷ via) < max_redirects)
      × (validate_url net g req.url_text ≡ ok tt)
      × ((name value : Str)
          → In (name, value) req'.headers
          → In name credential_headers
          → IsSameOrigin net first req.url)
unfolding check_redirect
check_redirect_lem net g req req' first via h =
    let (few, h1) =
      >>-eq-ok (require (ltb (length (first ∷ via)) max_redirects) too_many_redirects) _ _ h in
    let (valid, h2) = >>-eq-ok (wrap_blocked (validate_url net g req.url_text)) _ _ h1 in
    let few' = require-ok _ _ few in
    (
      ground (arith, few'),
      wrap_blocked-ok (validate_url net g req.url_text) valid,
      λ name value i c.
          safe_to_follow-IsSameOrigin net first req.url
            (follow-header (safe_to_follow net first req.url) req req' name value h2 i c),
    )
