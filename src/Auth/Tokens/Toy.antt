-- ===== src/Auth/Tokens/Toy.antt =====
-- A JWT library that meets its laws: a token is the key and the claims, each string after its length.
use terraform_suite_identity.Common.{
  ℕ, zero, suc, ◌*◌, ◌/◌, Str, ◌==◌, eq_refl, List, [], ◌∷◌, ◌++◌, length, ◌≡◌, ◌↔◌, refl, sym, ap,
  subst, Bool, true, false, ◌&&◌, Option, none, some, arith, if◌then◌else◌,
}
use terraform_suite_identity.Auth.Claims.{Claims}
use terraform_suite_identity.Auth.Tokens.{Method, hs256, other, Jwt}
use terraform_suite_identity.Auth.Tokens.Validation.{
  unexpired, started, addressed, read_back, JwtLaws,
}

abbrev split : ℕ → Str → Str × Str
split zero r = ([], r)
split (suc n) [] = ([], [])
split (suc n) (x ∷ r) = (x ∷ (split n r).0, (split n r).1)

split-append : (s r : Str) → split (length s) (s ++ r) ≡ (s, r)
split-append [] r = refl
split-append (x ∷ s) r = ap (λ (p : Str × Str). (x ∷ p.0, p.1)) (split-append s r)

abbrev pub put_str : Str → Str → Str
put_str s r = length s ∷ (s ++ r)

unfoldable pub get_str : Str → Str × Str
get_str [] = ([], [])
get_str (n ∷ r) = split n r

pub get-put : (s r : Str) → get_str (put_str s r) ≡ (s, r)
unfolding get_str
get-put s r = split-append s r

abbrev put_strs : List Str → Str → Str
put_strs [] r = r
put_strs (s ∷ ss) r = put_str s (put_strs ss r)

abbrev get_strs : ℕ → Str → List Str × Str
get_strs zero r = ([], r)
get_strs (suc n) r = let (s, r') = get_str r in let (ss, r'') = get_strs n r' in (s ∷ ss, r'')

get-put_strs : (ss : List Str) (r : Str) → get_strs (length ss) (put_strs ss r) ≡ (ss, r)
get-put_strs [] r = refl
get-put_strs (s ∷ ss) r = rw (get-put s (put_strs ss r), get-put_strs ss r)

abbrev put_time : Option ℕ → Str
put_time none = []
put_time (some t) = t ∷ []

abbrev get_time : Str → Option ℕ
get_time [] = none
get_time (t ∷ r) = some t

time-put : (o : Option ℕ) → get_time (put_time o) ≡ o
time-put none = refl
time-put (some t) = refl

abbrev encode : Claims → Str
encode c =
    length c.scopes
    ∷ length c.registered.audience
    ∷ put_strs
        (c.user_id
          ∷ c.email
          ∷ c.org_id
          ∷ c.jti
          ∷ c.registered.issuer
          ∷ c.registered.subject
          ∷ put_time c.registered.expires_at
          ∷ put_time c.registered.not_before
          ∷ put_time c.registered.issued_at
          ∷ [])
        (put_strs c.scopes (put_strs c.registered.audience []))

abbrev decode_body : Str → Option Claims
decode_body [] = none
decode_body (n ∷ []) = none
decode_body (n ∷ k ∷ r0) =
    let (user_id, r1) = get_str r0 in
    let (email, r2) = get_str r1 in
    let (org_id, r3) = get_str r2 in
    let (jti, r4) = get_str r3 in
    let (issuer, r5) = get_str r4 in
    let (subject, r6) = get_str r5 in
    let (expires_at, r7) = get_str r6 in
    let (not_before, r8) = get_str r7 in
    let (issued_at, r9) = get_str r8 in
    let (scopes, r10) = get_strs n r9 in
    let (audience, r11) = get_strs k r10 in
    some (record {
      user_id = user_id;
      email = email;
      org_id = org_id;
      scopes = scopes;
      jti = jti;
      registered = record {
        issuer = issuer;
        subject = subject;
        audience = audience;
        expires_at = get_time expires_at;
        not_before = get_time not_before;
        issued_at = get_time issued_at;
        id = [];
      };
    })

decode-encode : (c : Claims) → decode_body (encode c) ≡ some (read_back c)
decode-encode c =
    rw
      (
        get-put c.user_id _,
        get-put c.email _,
        get-put c.org_id _,
        get-put c.jti _,
        get-put c.registered.issuer _,
        get-put c.registered.subject _,
        get-put (put_time c.registered.expires_at) _,
        get-put (put_time c.registered.not_before) _,
        get-put (put_time c.registered.issued_at) _,
        get-put_strs c.scopes _,
        get-put_strs c.registered.audience _,
        time-put c.registered.expires_at,
        time-put c.registered.not_before,
        time-put c.registered.issued_at,
      )
      refl

abbrev pub verifies : Str → Str → Bool
verifies k token = (get_str token).0 == k

abbrev pub decode : Str → Option Claims
decode token = decode_body (get_str token).1

-- The checks after the key function's answer.
pub checks : Option Str → Option Claims → Option Str → ℕ → Str → Option (Bool × Claims)
checks none body aud now token = none
checks (some k) none aud now token = none
checks (some k) (some c) aud now token =
    if verifies k token
      && (unexpired c.registered.expires_at now
          && (started c.registered.not_before now && addressed aud c.registered.audience))
    then some (true, c)
    else none

abbrev pub sign : Method → Str → Claims → Option Str
sign hs256 k c = some (put_str k (encode c))
sign (other n) k c = none

abbrev pub toy : Jwt
toy = record {
  new_numeric_date = λ t. t / 1000000000 * 1000000000;
  signed_string = sign;
  parse_with_claims = λ key aud now token. checks (key hs256) (decode token) aud now token;
}

passed :
    (t : Bool) (d c : Claims)
    → if◌then◌else◌ {A = Option (Bool × Claims)} t (some (true, d)) none ≡ some (true, c)
    → (t ≡ true) × (d ≡ c)
passed true d c h = (refl, cc h)
passed false d c h = cc h

checks_iff :
    (key : Option Str) (body : Option Claims) (aud : Option Str) (now : ℕ) (token : Str)
    (c : Claims)
    → (checks key body aud now token ≡ some (true, c)) ↔ (
        (k : Str) × (key ≡ some k)
        × (verifies k token ≡ true)
        × (body ≡ some c)
        × (unexpired c.registered.expires_at now ≡ true)
        × (started c.registered.not_before now ≡ true)
        × (addressed aud c.registered.audience ≡ true))
unfolding checks
checks_iff none body aud now token c = (λ h. cc h, λ h. cc (h.1))
checks_iff (some k) none aud now token c = (λ h. cc h, λ h. cc (h.3))
checks_iff (some k) (some d) aud now token c = (
  λ h.
      let (all, same) = passed _ d c h in
      let live : unexpired d.registered.expires_at now ≡ true = ground arith in
      let begun : started d.registered.not_before now ≡ true = ground arith in
      let to : addressed aud d.registered.audience ≡ true = ground arith in
      (
        k,
        refl,
        ground arith,
        ap some same,
        subst (λ (x : Claims). unexpired x.registered.expires_at now ≡ true) same live,
        subst (λ (x : Claims). started x.registered.not_before now ≡ true) same begun,
        subst (λ (x : Claims). addressed aud x.registered.audience ≡ true) same to,
      ),
  λ (j, held, good, same, live, begun, to).
      let key : k ≡ j = cc held in
      let body : d ≡ c = cc same in
      let good' : verifies k token ≡ true = subst (λ x. verifies x token ≡ true) (sym key) good in
      let live' : unexpired d.registered.expires_at now ≡ true =
        subst (λ (x : Claims). unexpired x.registered.expires_at now ≡ true) (sym body) live in
      let begun' : started d.registered.not_before now ≡ true =
        subst (λ (x : Claims). started x.registered.not_before now ≡ true) (sym body) begun in
      let to' : addressed aud d.registered.audience ≡ true =
        subst (λ (x : Claims). addressed aud x.registered.audience ≡ true) (sym body) to in
      rw (good', live', begun', to') (ap (λ (x : Claims). some (true, x)) body),
)

sign_lem :
    (m : Method) (k : Str) (c : Claims) (token : Str)
    → sign m k c ≡ some token
    → (hs256 ≡ m) × (verifies k token ≡ true) × (decode token ≡ some (read_back c))
sign_lem (other n) k c token h = cc h
sign_lem hs256 k c token h =
    let same : put_str k (encode c) ≡ token = cc h in
    subst (λ t. (hs256 ≡ hs256) × (verifies k t ≡ true) × (decode t ≡ some (read_back c))) same
      (refl, rw (get-put k (encode c)) (eq_refl k), rw (get-put k (encode c)) (decode-encode c))

pub toy_laws : JwtLaws toy
toy_laws = record {
  algorithm = λ token. hs256;
  verifies = λ m k token. verifies k token;
  decode = decode;
  is_text = λ s. true;
  parse_iff = λ key aud now token c named. checks_iff (key hs256) (decode token) aud now token c;
  signed_lem = λ m k c token expires issued written made. sign_lem m k c token made;
}

pub toy_text : (s : Str) → toy_laws.is_text s ≡ true
unfolding toy_laws
toy_text s = refl
