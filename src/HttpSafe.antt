-- ===== src/HttpSafe.antt =====
-- identity/httpsafe/httpsafe.go: the guard of outgoing requests. An address is the list of its
-- bytes, four or sixteen; the parsers of addresses and URLs, the resolver and the dialer are given.
pub mod Ranges
pub mod Dial
pub mod Redirect
mod Tests
use terraform_suite_identity.Common.{
  ℕ, zero, suc, ◌+◌, Str, lit, ◌==◌, contains, trim_space, nat_eq, leb, ltb, List, [], ◌∷◌, ◌++◌,
  length, filter, Bool, true, false, not, ◌&&◌, ◌||◌, Option, none, some, if◌then◌else◌, Result, ok,
  err, ◌>>=◌, ◌>>◌, require,
}
use Prim.Native.Nat.{bit_and}

-- net.IP
abbrev pub Ip : Type 0
Ip = List ℕ

abbrev pub equal_bytes : Ip → Ip → Bool
equal_bytes a b = a == b

abbrev pub zeros : ℕ → Ip
zeros zero = []
zeros (suc n) = 0 ∷ zeros n

-- `To4`: the four bytes, also those of an IPv4-mapped address.
unfoldable pub to4 : Ip → Option Ip
to4 (a ∷ b ∷ c ∷ d ∷ []) = some (a ∷ b ∷ c ∷ d ∷ [])
to4 (a ∷ b ∷ c ∷ d ∷ e ∷ f ∷ g ∷ h ∷ i ∷ j ∷ k ∷ l ∷ w ∷ x ∷ y ∷ z ∷ []) =
    if equal_bytes (a ∷ b ∷ c ∷ d ∷ e ∷ f ∷ g ∷ h ∷ i ∷ j ∷ k ∷ l ∷ [])
      (zeros 10 ++ 0xff ∷ 0xff ∷ [])
    then some (w ∷ x ∷ y ∷ z ∷ [])
    else none
to4 ip = none

abbrev pub four : Ip → Ip
four ip = elim (to4 ip) [ some ip4 ↦ ip4 | none ↦ ip ]

-- The first two bytes.
abbrev pub byte0 : Ip → ℕ
byte0 [] = 0
byte0 (a ∷ ip) = a

abbrev pub byte1 : Ip → ℕ
byte1 [] = 0
byte1 (a ∷ ip) = byte0 ip

abbrev pub byte2 : Ip → ℕ
byte2 [] = 0
byte2 (a ∷ ip) = byte1 ip

abbrev pub is_four : Ip → Bool
is_four ip = nat_eq (length ip) 4

-- The classes of net.IP, of an address that `To4` has shortened where it could.
unfoldable pub is_loopback : Ip → Bool
is_loopback ip = if is_four ip then nat_eq (byte0 ip) 127 else equal_bytes ip (zeros 15 ++ 1 ∷ [])

unfoldable pub is_unspecified : Ip → Bool
is_unspecified ip = equal_bytes ip (zeros 4) || equal_bytes ip (zeros 16)

unfoldable pub is_link_local_unicast : Ip → Bool
is_link_local_unicast ip =
    if is_four ip
    then nat_eq (byte0 ip) 169 && nat_eq (byte1 ip) 254
    else nat_eq (length ip) 16 && nat_eq (byte0 ip) 0xfe && nat_eq (bit_and (byte1 ip) 0xc0) 0x80

unfoldable pub is_link_local_multicast : Ip → Bool
is_link_local_multicast ip =
    if is_four ip
    then nat_eq (byte0 ip) 224 && nat_eq (byte1 ip) 0 && nat_eq (byte2 ip) 0
    else nat_eq (length ip) 16 && nat_eq (byte0 ip) 0xff && nat_eq (bit_and (byte1 ip) 0x0f) 0x02

unfoldable pub is_multicast : Ip → Bool
is_multicast ip =
    if is_four ip
    then nat_eq (bit_and (byte0 ip) 0xf0) 0xe0
    else nat_eq (length ip) 16 && nat_eq (byte0 ip) 0xff

unfoldable pub is_private : Ip → Bool
is_private ip =
    if is_four ip
    then nat_eq (byte0 ip) 10
      || (nat_eq (byte0 ip) 172 && nat_eq (bit_and (byte1 ip) 0xf0) 16)
      || (nat_eq (byte0 ip) 192 && nat_eq (byte1 ip) 168)
    else nat_eq (length ip) 16 && nat_eq (bit_and (byte0 ip) 0xfe) 0xfc

pub data Reason : Type 0 where
  loopback unspecified link_local multicast private reserved carrier_grade_nat broadcast : Reason

-- The last checks, of IPv4 addresses only.
unfoldable pub denied_v4 : Ip → Option Reason
denied_v4 ip =
    if not (is_four ip)
    then none
    else if nat_eq (byte0 ip) 0
    then some reserved
    else if nat_eq (byte0 ip) 100 && nat_eq (bit_and (byte1 ip) 0xc0) 64
    then some carrier_grade_nat
    else if equal_bytes ip (255 ∷ 255 ∷ 255 ∷ 255 ∷ [])
    then some broadcast
    else none

unfoldable pub denied_short : Ip → Option Reason
unfolding is_loopback is_unspecified is_link_local_unicast is_link_local_multicast is_multicast
    is_private denied_v4
denied_short ip =
    if is_loopback ip
    then some loopback
    else if is_unspecified ip
    then some unspecified
    else if is_link_local_unicast ip
    then some link_local
    else if is_link_local_multicast ip || is_multicast ip
    then some multicast
    else if is_private ip
    then some private
    else denied_v4 ip

unfoldable pub denied_range : Ip → Option Reason
unfolding to4 denied_short
denied_range ip = denied_short (four ip)

-- net.IPNet: a number and a mask of the same length.
pub record IpNet : Type 0 where
  pub number : Ip
  pub mask : Ip

abbrev pub masked_equal : Ip → Ip → Ip → Bool
masked_equal [] [] [] = true
masked_equal (n ∷ ns) (m ∷ ms) (x ∷ xs) =
    nat_eq (bit_and n m) (bit_and x m) && masked_equal ns ms xs
masked_equal ns ms xs = false

abbrev last_four : Ip → Ip
last_four (a ∷ b ∷ c ∷ d ∷ []) = a ∷ b ∷ c ∷ d ∷ []
last_four [] = []
last_four (a ∷ ip) = last_four ip

-- The mask for a number that `To4` has shortened, or not.
unfoldable pub mask_for : Ip → Ip → Ip
mask_for number mask = if is_four number && nat_eq (length mask) 16 then last_four mask else mask

-- `IPNet.Contains`
unfoldable pub net_contains : IpNet → Ip → Bool
unfolding to4 mask_for
net_contains n ip = masked_equal (four n.number) (mask_for (four n.number) n.mask) (four ip)

pub record Guard : Type 0 where
  pub allow_hosts : List Str
  pub allow_nets : List IpNet

-- The parts of a URL that the guard reads.
pub record Url : Type 0 where
  pub scheme : Str
  pub host : Str
  pub hostname : Str

-- What the guard calls: parsers, `strings.ToLower`, `strings.EqualFold`, and the lookup of a name.
pub record Net : Type 0 where
  pub parse_cidr : Str → Option IpNet
  pub parse_ip : Str → Option Ip
  pub parse_url : Str → Option Url
  pub split_host_port : Str → Option (Str × Str)
  pub to_lower : Str → Str
  pub equal_fold : Str → Str → Bool
  pub lookup_ip : Str → Option (List Ip)

pub data EgressError : Type 0 where
  invalid_entry invalid_url bad_scheme no_host bad_address not_resolved no_addresses : EgressError
  blocked : Ip → Reason → EgressError
  dial_failed : ℕ → EgressError
  too_many_redirects redirect_blocked body_on_redirect : EgressError

-- The mask of one address.
abbrev pub full_mask : Ip → Ip
full_mask [] = []
full_mask (b ∷ ip) = 255 ∷ full_mask ip

abbrev pub host_net : Ip → IpNet
host_net ip = record { number = ip; mask = full_mask ip }

-- `strings.ContainsAny(entry, "/ ")`
abbrev pub has_slash_or_space : Str → Bool
has_slash_or_space [] = false
has_slash_or_space (c ∷ s) = nat_eq c 0x2f || nat_eq c 0x20 || has_slash_or_space s

-- An entry of the allowlist, trimmed, with the guard so far.
unfoldable pub add_entry : Net → Str → Guard → Result EgressError Guard
unfolding to4
add_entry net entry g = if entry == [] then ok g else elim (net.parse_cidr entry) [
  | some n ↦ ok (record g { allow_nets = g.allow_nets ++ n ∷ [] })
  | none ↦ elim (net.parse_ip entry) [
    | some ip ↦ ok (record g { allow_nets = g.allow_nets ++ host_net (four ip) ∷ [] })
    | none ↦
        if has_slash_or_space entry
        then err invalid_entry
        else ok (record g { allow_hosts = net.to_lower entry ∷ g.allow_hosts })
  ]
]

unfoldable pub add_entries : Net → List Str → Guard → Result EgressError Guard
unfolding add_entry trim_space
add_entries net [] g = ok g
add_entries net (entry ∷ allowlist) g = do
  next ← add_entry net (trim_space entry) g
  add_entries net allowlist next

unfoldable pub new_guard : Net → List Str → Result EgressError Guard
unfolding add_entries
new_guard net allowlist = add_entries net allowlist (record { allow_hosts = []; allow_nets = [] })

unfoldable pub any_net : List IpNet → Ip → Bool
unfolding net_contains
any_net [] ip = false
any_net (n ∷ nets) ip = if net_contains n ip then true else any_net nets ip

-- `none` is the nil guard.
unfoldable pub ip_allowlisted : Option Guard → Ip → Bool
unfolding any_net
ip_allowlisted none ip = false
ip_allowlisted (some g) ip = any_net g.allow_nets ip

unfoldable pub host_exempt : Net → Option Guard → Str → Bool
unfolding ip_allowlisted
host_exempt net none host = false
host_exempt net (some g) host =
    if contains g.allow_hosts (net.to_lower host)
    then true
    else elim (net.parse_ip host) [ some ip ↦ ip_allowlisted (some g) ip | none ↦ false ]

unfoldable pub check_ip : Option Guard → Ip → Result EgressError (Unit {0})
unfolding ip_allowlisted denied_range
check_ip g ip =
    if ip_allowlisted g ip
    then ok tt
    else elim (denied_range ip) [ some reason ↦ err (blocked ip reason) | none ↦ ok tt ]

unfoldable pub check_ips : Option Guard → List Ip → Result EgressError (Unit {0})
unfolding check_ip
check_ips g [] = ok tt
check_ips g (ip ∷ ips) = do check_ip g ip; check_ips g ips
