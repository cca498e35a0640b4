-- ===== src/OauthState/Memory/Victim.antt =====
-- The victim of an eviction.
use terraform_suite_identity.Common.{
  ℕ, ◌≤◌, Str, ◌==◌, eq_iff, [], ◌∷◌, ◌≡◌, ◌≢◌, ◌⊎◌, inl, inr, refl, sym, subst, Bool, true, false,
  ◌||◌, none, some, ltb, Bool-cases, arith, if◌then◌else◌,
}
use terraform_suite_identity.Common.Assoc
use terraform_suite_identity.Common.Assoc.{
  Assoc, get-delete, get-put, count-delete_there, count-delete-le,
}
use terraform_suite_identity.OauthState.Memory.{
  Entry, is_replay_marker, is_login_state, nearest, evict_nearest_expiry_state,
}
use terraform_suite_identity.OauthState.Memory.Counts.{IsMap}

-- No login state expires before the time.
abbrev pub Least : ℕ → Assoc Entry → Type 0
Least t m =
    (k : Str) (e : Entry) → Assoc.get m k ≡ some e → is_login_state k ≡ true → t ≤ e.expires_at

Least-skip :
    (t : ℕ) (k : Str) (e : Entry) (m : Assoc Entry)
    → Least t m
    → (is_login_state k ≡ true → t ≤ e.expires_at)
    → Least t ((k, e) ∷ m)
unfolding Assoc.get
Least-skip t k e m least head j x found login = elim (Bool-cases (k == j)) [
  | inl same ↦
      let named : k ≡ j = (eq_iff k j).0 same in
      let this : e ≡ x = ground arith in
      let now : t ≤ e.expires_at = head (subst (λ w. is_login_state w ≡ true) (sym named) login) in
      subst (λ (w : Entry). t ≤ w.expires_at) this now
  | inr other ↦ least j x (ground arith) login
]

-- The victim and its expiry, as the search leaves them.
abbrev pub Found : Str → ℕ → Assoc Entry → Str → Type 0
Found victim soonest m w =
    (t : ℕ) × Least t m
    × (victim ≢ [] → t ≤ soonest)
    × (((w ≡ victim) × (t ≡ soonest))
        ⊎ ((e : Entry) × (Assoc.get m w ≡ some e) × (e.expires_at ≡ t) × (is_login_state w ≡ true)))

Found-later :
    (victim : Str) (soonest : ℕ) (k : Str) (x : Entry) (m : Assoc Entry) (w : Str)
    → Assoc.get m k ≡ none
    → Found victim soonest m w
    → (is_login_state k ≡ true → (victim ≢ []) × (soonest ≤ x.expires_at))
    → Found victim soonest ((k, x) ∷ m) w
unfolding Assoc.get
Found-later v s k x m w fresh (t, least, le, where_) late = (
  t,
  Least-skip t k x m least (λ login. let (ne, h) = late login in let d = le ne in omega arith),
  le,
  ground (arith, eq_iff k w),
)

Found-here :
    (victim : Str) (soonest : ℕ) (k : Str) (x : Entry) (m : Assoc Entry) (w : Str)
    → Assoc.get m k ≡ none
    → k ≢ []
    → is_login_state k ≡ true
    → (victim ≢ [] → x.expires_at ≤ soonest)
    → Found k x.expires_at m w
    → Found victim soonest ((k, x) ∷ m) w
unfolding Assoc.get
Found-here v s k x m w fresh named login sooner (t, least, le, where_) =
    let d : t ≤ x.expires_at = le named in
    (t, Least-skip t k x m least (λ _. d), λ ne. let g = sooner ne in omega arith, inr (at where_))
  where
    at :
        ((w ≡ k) × (t ≡ x.expires_at))
          ⊎ ((e : Entry) × (Assoc.get m w ≡ some e)
              × (e.expires_at ≡ t)
              × (is_login_state w ≡ true))
        → (e : Entry) × (Assoc.get ((k, x) ∷ m) w ≡ some e)
          × (e.expires_at ≡ t)
          × (is_login_state w ≡ true)
    at (inl (same, u)) = (
      x,
      ground (arith, eq_iff k w),
      omega arith,
      subst (λ j. is_login_state j ≡ true) (sym same) login,
    )
    at (inr (e, found, u, l)) = (e, ground (arith, eq_iff k w), u, l)

Least-nil : (t : ℕ) → Least t []
unfolding Assoc.get
Least-nil t k e found login = absurd (cc found)

Found-if :
    (victim : Str) (soonest : ℕ) (m : Assoc Entry) (p q : Str) (a b : Bool)
    → (a ≡ true → Found victim soonest m p)
    → (a ≡ false → b ≡ true → Found victim soonest m q)
    → (a ≡ false → b ≡ false → Found victim soonest m p)
    → Found victim soonest m (if a then p else if b then q else p)
Found-if v s m p q true b skip choose keep = skip refl
Found-if v s m p q false true skip choose keep = choose refl refl
Found-if v s m p q false false skip choose keep = keep refl refl

nearest-Found :
    (victim : Str) (soonest : ℕ) (m : Assoc Entry)
    → IsMap m
    → Found victim soonest m (nearest victim soonest m)
unfolding nearest is_login_state
nearest-Found v s [] h = (s, Least-nil s, λ ne. omega arith, inl (refl, refl))
nearest-Found v s ((k, x) ∷ m) h =
    let later = nearest-Found v s m (h.2) in
    let here = nearest-Found k x.expires_at m (h.2) in
    Found-if v s ((k, x) ∷ m) (nearest v s m) (nearest k x.expires_at m) (is_replay_marker k)
      (v == [] || ltb x.expires_at s)
      (λ marker. Found-later v s k x m (nearest v s m) (h.1) later (λ login. cc (marker, login)))
      (λ plain chosen.
        Found-here v s k x m (nearest k x.expires_at m) (h.1) (h.0) (rw plain)
          (λ ne. ground (arith, eq_iff v [])) here)
      (λ plain kept.
        Found-later v s k x m (nearest v s m) (h.1) later
          (λ login. (ground (arith, eq_iff v []), ground (arith, eq_iff v []))))

-- A search that meets a login state names a victim.
nearest-named :
    (victim : Str) (soonest : ℕ) (m : Assoc Entry)
    → IsMap m
    → (victim ≢ []) ⊎ (1 ≤ Assoc.count is_login_state m)
    → nearest victim soonest m ≢ []
unfolding nearest Assoc.count is_login_state
nearest-named v s [] h (inl ne) = ne
nearest-named v s [] h (inr any) = absurd (omega arith)
nearest-named v s ((k, x) ∷ m) h (inl ne) =
    let here = nearest-named k x.expires_at m (h.2) (inl (h.0)) in
    let later = nearest-named v s m (h.2) (inl ne) in ground (arith, here, later)
nearest-named v s ((k, x) ∷ m) h (inr any) =
    let here = nearest-named k x.expires_at m (h.2) (inl (h.0)) in
    let kept = λ (ne : v ≢ []). nearest-named v s m (h.2) (inl ne) in
    let later = λ (c : 1 ≤ Assoc.count is_login_state m). nearest-named v s m (h.2) (inr c) in
    ground (arith, here, kept, later, eq_iff v [])

-- One login state is gone, no other expires before it, and everything else is there.
pub record Evicts (m rest : Assoc Entry) : Type 0 where
  pub victim : Str
  pub entry : Entry
  pub there : Assoc.get m victim ≡ some entry
  pub login : is_login_state victim ≡ true
  pub least : Least entry.expires_at m
  pub removed : rest ≡ Assoc.delete m victim

-- In a map with a login state, where each key stands once and none is empty, an eviction succeeds
-- and deletes one login state, whose expiry is no later than that of any other, and nothing else.
pub evict_lem :
    (m : Assoc Entry)
    → IsMap m
    → 1 ≤ Assoc.count is_login_state m
    → (rest : Assoc Entry) × (evict_nearest_expiry_state m ≡ some rest) × Evicts m rest
unfolding evict_nearest_expiry_state
evict_lem m h any =
    let ne = nearest-named [] 0 m h (inr any) in
    (
      Assoc.delete m (nearest [] 0 m),
      ground (arith, eq_iff (nearest [] 0 m) []),
      evicts (nearest-Found [] 0 m h) ne,
    )
  where
    evicts :
        Found [] 0 m (nearest [] 0 m)
        → nearest [] 0 m ≢ []
        → Evicts m (Assoc.delete m (nearest [] 0 m))
    evicts (t, least, le, inl here) ne = absurd (ne (here.0))
    evicts (t, least, le, inr (e, found, u, login)) ne = record {
      victim = nearest [] 0 m;
      entry = e;
      there = found;
      login = login;
      least = subst (λ n. Least n m) (sym u) least;
      removed = refl;
    }
