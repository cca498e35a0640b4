-- ===== src/Notify/Dedup/Marks.antt =====
-- The rows of one key, under claims and prunes (identity/store/notify_dedup_repository.go).
use terraform_suite_identity.Common.{
  take-In, ℕ, ◌+◌, ◌≤◌, ◌<◌, Str, ◌==◌, eq_iff, contains, contains_iff, List, [], ◌∷◌, ◌++◌, map,
  filter, filter-In, sort_by, In-sort_by, take, All, In, In-map_inv, Bool, true, false, not, ◌&&◌,
  ◌||◌, branch-if, if◌then◌else◌, ◌≡◌, ◌⊎◌, inl, inr, refl, ap, subst, arith,
}
use terraform_suite_identity.Notify.Dedup.{
  Claim, has_key, is_stale, any_stale, is_older, is_expired, prune_claims,
}

-- The rows of a key were claimed at one time.
abbrev pub Only : Str → ℕ → List Claim → Type 0
Only k m rows = All (λ c. (c.key == k) ≡ true → c.at ≡ m) rows

abbrev pub refreshed : Str → ℕ → ℕ → List Claim → List Claim
refreshed key ttl now rows =
    map (λ c. if is_stale key ttl now c then record c { at = now } else c) rows

pub refreshed-has_key :
    (k key : Str) (ttl now : ℕ) (rows : List Claim)
    → has_key k (refreshed key ttl now rows) ≡ has_key k rows
unfolding has_key
refreshed-has_key k key ttl now [] = refl
refreshed-has_key k key ttl now (c ∷ cs) = ground (arith, refreshed-has_key k key ttl now cs)

pub absent-Only : (k : Str) (m : ℕ) (rows : List Claim) → has_key k rows ≡ false → Only k m rows
unfolding has_key
absent-Only k m [] h = tt
absent-Only k m (c ∷ cs) h = ((λ e. cc (e, h)), absent-Only k m cs (ground (arith, h)))

pub append-Only :
    (k key : Str) (m now : ℕ) (rows : List Claim)
    → Only k m rows
    → ((key == k) ≡ true → now ≡ m)
    → Only k m (rows ++ record { key = key; at = now } ∷ [])
append-Only k key m now [] h e = (e, tt)
append-Only k key m now (c ∷ cs) h e = (h.0, append-Only k key m now cs h.1 e)

-- A row that is stale is refreshed with all others of its key; else none of them is.
pub stale-Only :
    (k : Str) (m ttl now : ℕ) (rows : List Claim)
    → Only k m rows
    → m + ttl < now
    → Only k now (refreshed k ttl now rows)
stale-Only k m ttl now [] h old = tt
stale-Only k m ttl now (c ∷ cs) h old =
    ((λ e. let at_m = h.0 in ground (arith, at_m, e, old)), stale-Only k m ttl now cs h.1 old)

pub fresh-Only :
    (k key : Str) (m ttl now : ℕ) (rows : List Claim)
    → Only k m rows
    → ((key == k) ≡ true → now ≤ m + ttl)
    → Only k m (refreshed key ttl now rows)
fresh-Only k key m ttl now [] h young = tt
fresh-Only k key m ttl now (c ∷ cs) h young = (
  (λ e.
      let at_m = h.0 in
      ground (arith, at_m, e, young, eq_iff c.key key, eq_iff c.key k, eq_iff key k)),
  fresh-Only k key m ttl now cs h.1 young,
)

pub any_stale-lt :
    (k : Str) (m ttl now : ℕ) (rows : List Claim)
    → Only k m rows
    → any_stale k ttl now rows ≡ true
    → m + ttl < now
unfolding any_stale
any_stale-lt k m ttl now [] h s = cc s
any_stale-lt k m ttl now (c ∷ cs) h s =
    let at_m = h.0 in let ih = any_stale-lt k m ttl now cs h.1 in ground (arith, at_m, s, ih)

pub filter-Only :
    (k : Str) (m : ℕ) (p : Claim → Bool) (rows : List Claim)
    → Only k m rows
    → Only k m (filter p rows)
unfolding filter
filter-Only k m p [] h = tt
filter-Only k m p (c ∷ cs) h =
    branch-if (λ l. Only k m l) (p c) _ _ (h.0, filter-Only k m p cs h.1) (filter-Only k m p cs h.1)

In-Only :
    (k : Str) (m : ℕ) (c : Claim) (rows : List Claim)
    → Only k m rows
    → In c rows
    → c.key ≡ k
    → c.at ≡ m
In-Only k m c [] h there e = elim there [ ]
In-Only k m c (d ∷ ds) h (inl same) e =
    subst (λ (x : Claim). x.key ≡ k → x.at ≡ m) same (λ g. h.0 ((eq_iff d.key k).1 g)) e
In-Only k m c (d ∷ ds) h (inr later) e = In-Only k m c ds h.1 later e

-- What is taken from the ordered rows is one of them.

filter-has_key :
    (k : Str) (keys : List Str) (rows : List Claim)
    → has_key k (filter (λ c. not (contains keys c.key)) rows)
      ≡ (has_key k rows && not (contains keys k))
unfolding has_key filter
filter-has_key k keys [] = refl
filter-has_key k keys (c ∷ cs) = by_key (c.key == k) refl (filter-has_key k keys cs)
  where
    by_key :
        (b : Bool)
        → (c.key == k) ≡ b
        → has_key k (filter (λ d. not (contains keys d.key)) cs)
          ≡ (has_key k cs && not (contains keys k))
        → has_key k (filter (λ d. not (contains keys d.key)) (c ∷ cs))
          ≡ ((b || has_key k cs) && not (contains keys k))
    by_key true e ih =
        let same = ap (contains keys) ((eq_iff c.key k).0 e) in ground (arith, e, ih, same)
    by_key false e ih = ground (arith, e, ih)

-- A prune takes a key's claim only after its grace.
pub prune-has_key :
    (k : Str) (m now grace batch : ℕ) (rows : List Claim)
    → Only k m rows
    → (has_key k (prune_claims now grace batch rows) ≡ has_key k rows) ⊎ (m + grace < now)
unfolding prune_claims
prune-has_key k m now grace batch rows h =
    by_selected (contains selected k) refl (filter-has_key k selected rows)
  where
    expired : List Claim
    expired = filter (is_expired now grace) rows

    selected : List Str
    selected = map (λ c. c.key) (take batch (sort_by is_older expired))

    by_selected :
        (b : Bool)
        → contains selected k ≡ b
        → has_key k (filter (λ c. not (contains selected c.key)) rows)
          ≡ (has_key k rows && not (contains selected k))
        → (has_key k (filter (λ c. not (contains selected c.key)) rows) ≡ has_key k rows)
          ⊎ (m + grace < now)
    by_selected false e f = inl (ground (arith, e, f))
    by_selected true e f =
        let (c, there, key) =
          In-map_inv (λ (c : Claim). c.key) k (take batch (sort_by is_older expired))
            ((contains_iff selected k).0 e) in
        let (held, old) =
          filter-In (is_expired now grace) c rows (
            (In-sort_by is_older c expired).0 (take-In batch c (sort_by is_older expired) there)) in
        let at_m = In-Only k m c rows h held key in inr (ground (arith, old, at_m))
