-- ===== src/HttpSafe/Dial.antt =====
-- `ValidateURL` and `DialContext` (identity/httpsafe/httpsafe.go), with the addresses dialed.
use terraform_suite_identity.Common.{
  ℕ, Str, lit, ◌==◌, List, [], ◌∷◌, In, All, Bool, true, false, not, ◌&&◌, Option, none, some,
  if◌then◌else◌, Result, ok, err, >>-eq-ok, ◌≡◌, ◌⊎◌, inl, inr, refl, sym, subst,
}
use terraform_suite_identity.HttpSafe.{
  Ip, Reason, Guard, Url, Net, EgressError, invalid_url, bad_scheme, no_host, bad_address,
  not_resolved, no_addresses, blocked, dial_failed, denied_range, ip_allowlisted, host_exempt,
  check_ip, check_ips,
}

-- `errors` of the resolver do not refuse a URL; `none` is the nil error.
unfoldable pub check_resolved : Option Guard → Option (List Ip) → Result EgressError (Unit {0})
unfolding check_ips
check_resolved g none = ok tt
check_resolved g (some ips) = check_ips g ips

unfoldable pub check_host : Net → Option Guard → Str → Result EgressError (Unit {0})
unfolding host_exempt check_ip check_resolved
check_host net g host = if host_exempt net g host then ok tt else elim (net.parse_ip host) [
  | some ip ↦ check_ip g ip
  | none ↦ check_resolved g (net.lookup_ip host)
]

unfoldable pub check_url : Net → Option Guard → Option Url → Result EgressError (Unit {0})
unfolding check_host
check_url net g none = err invalid_url
check_url net g (some u) =
    if not (u.scheme == lit "http") && not (u.scheme == lit "https")
    then err bad_scheme
    else if u.hostname == []
    then err no_host
    else check_host net g u.hostname

unfoldable pub validate_url : Net → Option Guard → Str → Result EgressError (Unit {0})
unfolding check_url
validate_url net g raw = check_url net g (net.parse_url raw)

-- What is handed to the dialer: the address as it was given, or an address of the resolver's answer
-- with the port.
pub data Target : Type 0 where
  as_given : Str → Target
  pinned : Ip → Str → Target

-- The dialer's answer: `none` is a connection.
abbrev pub Dialer : Type 0
Dialer = Target → Option ℕ

-- The answer of the call, with every target that was dialed.
abbrev pub Dialed : Type 0
Dialed = Result EgressError Target × List Target

abbrev pub dial_one : Dialer → Target → Dialed
dial_one dial t = elim (dial t) [ none ↦ (ok t, t ∷ []) | some e ↦ (err (dial_failed e), t ∷ []) ]

-- One turn of the loop, which goes on with the error where the dial failed.
unfoldable pub dial_next : Target → Option ℕ → (ℕ → Dialed) → Dialed
dial_next t none rest = (ok t, t ∷ [])
dial_next t (some e) rest = ((rest e).0, t ∷ (rest e).1)

-- The loop over the resolved addresses; the error is the last one so far.
unfoldable pub dial_each : Dialer → Str → List Ip → ℕ → Dialed
unfolding dial_next
dial_each dial port [] last = (err (dial_failed last), [])
dial_each dial port (ip ∷ ips) last =
    dial_next (pinned ip port) (dial (pinned ip port)) (λ e. dial_each dial port ips e)

-- What follows a check: nothing is dialed where it refuses.
abbrev pub after_check : Result EgressError (Unit {0}) → Dialed → Dialed
after_check (ok tt) d = d
after_check (err e) d = (err e, [])

unfoldable pub dial_resolved : Option Guard → Dialer → Str → Option (List Ip) → Dialed
unfolding check_ips dial_each
dial_resolved g dial port none = (err not_resolved, [])
dial_resolved g dial port (some []) = (err no_addresses, [])
dial_resolved g dial port (some (ip ∷ ips)) =
    after_check (check_ips g (ip ∷ ips)) (dial_each dial port (ip ∷ ips) 0)

unfoldable pub dial_host : Net → Option Guard → Dialer → Str → Str → Str → Dialed
unfolding check_ip host_exempt dial_resolved
dial_host net g dial addr host port = elim (net.parse_ip host) [
  | some ip ↦ after_check (check_ip g ip) (dial_one dial (as_given addr))
  | none ↦
      if host_exempt net g host
      then dial_one dial (as_given addr)
      else dial_resolved g dial port (net.lookup_ip host)
]

unfoldable pub dial_split : Net → Option Guard → Dialer → Str → Option (Str × Str) → Dialed
unfolding dial_host
dial_split net g dial addr none = (err bad_address, [])
dial_split net g dial addr (some (host, port)) = dial_host net g dial addr host port

unfoldable pub dial_context : Net → Option Guard → Dialer → Str → Dialed
unfolding dial_split
dial_context net g dial addr = dial_split net g dial addr (net.split_host_port addr)

-- The guard lets the address through: it is on the allowlist, or in no denied range.
abbrev pub IsPermitted : Option Guard → Ip → Type 0
IsPermitted g ip = (ip_allowlisted g ip ≡ true) ⊎ (denied_range ip ≡ none)

check_ip-IsPermitted : (g : Option Guard) (ip : Ip) → check_ip g ip ≡ ok tt → IsPermitted g ip
unfolding check_ip
check_ip-IsPermitted g ip h = by_list (ip_allowlisted g ip) (denied_range ip) refl refl h
  where
    by_list :
        (b : Bool) (r : Option Reason)
        → ip_allowlisted g ip ≡ b
        → denied_range ip ≡ r
        → (let o : Result EgressError (Unit {0}) =
              if b
              then ok tt
              else elim r [ some reason ↦ err (blocked ip reason) | none ↦ ok tt ] in
            o)
          ≡ ok tt
        → IsPermitted g ip
    by_list true r e k h = inl e
    by_list false none e k h = inr k
    by_list false (some reason) e k h = cc h

pub check_ips-IsPermitted :
    (g : Option Guard) (ips : List Ip)
    → check_ips g ips ≡ ok tt
    → (ip : Ip) → In ip ips
    → IsPermitted g ip
unfolding check_ips
check_ips-IsPermitted g [] h ip i = elim i [ ]
check_ips-IsPermitted g (x ∷ ips) h ip i =
    let (first, rest) = >>-eq-ok (check_ip g x) _ _ h in
    elim i [
      | inl same ↦ subst (IsPermitted g) same (check_ip-IsPermitted g x first)
      | inr later ↦ check_ips-IsPermitted g ips rest ip later
    ]

-- The address that a name or a literal stands for at this dial.
abbrev pub Resolves : Net → Str → Ip → Type 0
Resolves net host ip = (ips : List Ip) × (net.lookup_ip host ≡ some ips) × In ip ips

-- A target that may be dialed for the host.
abbrev pub IsSafe : Net → Option Guard → Str → Str → Str → Target → Type 0
IsSafe net g addr host port (as_given a) =
    (a ≡ addr)
    × ((host_exempt net g host ≡ true)
        ⊎ ((ip : Ip) × (net.parse_ip host ≡ some ip) × IsPermitted g ip))
IsSafe net g addr host port (pinned ip p) = (p ≡ port) × Resolves net host ip × IsPermitted g ip

dial_one-All : (P : Target → Type 0) (dial : Dialer) (t : Target) → P t → All P (dial_one dial t).1
dial_one-All P dial t h = by_answer (dial t)
  where
    by_answer :
        (o : Option ℕ)
        → All P
            (let d : Dialed = elim o [
              | none ↦ (ok t, t ∷ [])
              | some e ↦ (err (dial_failed e), t ∷ [])
            ] in
              d).1
    by_answer none = (h, tt)
    by_answer (some e) = (h, tt)

dial_next-All :
    (P : Target → Type 0) (t : Target) (o : Option ℕ) (rest : ℕ → Dialed)
    → P t
    → ((e : ℕ) → All P (rest e).1)
    → All P (dial_next t o rest).1
unfolding dial_next
dial_next-All P t none rest h k = (h, tt)
dial_next-All P t (some e) rest h k = (h, k e)

dial_each-All :
    (P : Target → Type 0) (dial : Dialer) (port : Str) (ips : List Ip) (last : ℕ)
    → ((ip : Ip) → In ip ips → P (pinned ip port))
    → All P (dial_each dial port ips last).1
unfolding dial_each
dial_each-All P dial port [] last h = tt
dial_each-All P dial port (ip ∷ ips) last h =
    dial_next-All P (pinned ip port) (dial (pinned ip port)) (λ e. dial_each dial port ips e)
      (h ip (inl refl)) (λ n. dial_each-All P dial port ips n (λ j i. h j (inr i)))

after_check-All :
    (P : Target → Type 0) (check : Result EgressError (Unit {0})) (d : Dialed)
    → (check ≡ ok tt → All P d.1)
    → All P (after_check check d).1
after_check-All P (ok tt) d h = h refl
after_check-All P (err e) d h = tt

dial_host-All :
    (net : Net) (g : Option Guard) (dial : Dialer) (addr host port : Str)
    → All (IsSafe net g addr host port) (dial_host net g dial addr host port).1
unfolding dial_host dial_resolved
dial_host-All net g dial addr host port = by_literal (net.parse_ip host) refl
  where
    safe : Target → Type 0
    safe = IsSafe net g addr host port

    resolved :
        (o : Option (List Ip)) → net.lookup_ip host ≡ o → All safe (dial_resolved g dial port o).1
    resolved none e = tt
    resolved (some []) e = tt
    resolved (some (ip ∷ ips)) e =
        after_check-All safe (check_ips g (ip ∷ ips)) (dial_each dial port (ip ∷ ips) 0) (λ checked.
          dial_each-All safe dial port (ip ∷ ips) 0
            (λ j i. (refl, (ip ∷ ips, e, i), check_ips-IsPermitted g (ip ∷ ips) checked j i)))

    by_exempt :
        (b : Bool)
        → host_exempt net g host ≡ b
        → All safe
            (if b
              then dial_one dial (as_given addr)
              else dial_resolved g dial port (net.lookup_ip host)).1
    by_exempt true e = dial_one-All safe dial (as_given addr) (refl, inl e)
    by_exempt false e = resolved (net.lookup_ip host) refl

    by_literal :
        (o : Option Ip)
        → net.parse_ip host ≡ o
        → All safe
            (let d : Dialed = elim o [
              | some ip ↦ after_check (check_ip g ip) (dial_one dial (as_given addr))
              | none ↦
                  if host_exempt net g host
                  then dial_one dial (as_given addr)
                  else dial_resolved g dial port (net.lookup_ip host)
            ] in
              d).1
    by_literal none e = by_exempt (host_exempt net g host) refl
    by_literal (some ip) e =
        after_check-All safe (check_ip g ip) (dial_one dial (as_given addr)) (λ checked.
          dial_one-All safe dial (as_given addr)
            (refl, inr (ip, e, check_ip-IsPermitted g ip checked)))

-- Whatever the dialer answers, only checked targets are handed to it: an address of the resolver's
-- one answer for the host that the guard lets through, with the port as given; or the address as it
-- was given, where its host is exempt by name or is itself an address that the guard lets through.
pub dial_context-IsSafe :
    (net : Net) (g : Option Guard) (dial : Dialer) (addr host port : Str)
    → net.split_host_port addr ≡ some (host, port)
    → All (IsSafe net g addr host port) (dial_context net g dial addr).1
unfolding dial_context dial_split
dial_context-IsSafe net g dial addr host port h =
    subst (λ o. All (IsSafe net g addr host port) (dial_split net g dial addr o).1) (sym h)
      (dial_host-All net g dial addr host port)
