-- ===== src/PlatformAdmin/Floor.antt =====
-- The floor of platform administrators (identity/platformadmin/floor.go) under every history of
-- grants and revocations.
use terraform_suite_identity.Common.{
  some_inj, ℕ, Str, ◌==◌, eq_iff, List, [], ◌∷◌, In, Bool, true, false, Option, none, some,
  if◌then◌else◌, Result, ok, err, ◌≡◌, ◌↔◌, ◌⊎◌, inl, inr, refl, sym, ap, subst, ◌∙◌,
}
use terraform_suite_identity.Common.Assoc.{Assoc, get, get-put}
use terraform_suite_identity.PlatformAdmin.{
  Grant, CarrierError, Resolver, remember_absent, weigh, find_exercisable,
  require_another_exercisable_admin,
}

-- Some grant of the list is that of a user that exists.
abbrev pub IsExercisable : Resolver → List Grant → Type 0
IsExercisable r grants = (g : Grant) × In g grants × (r g.user_id ≡ ok true)

-- What the loop remembers is what the resolver answers.
abbrev IsTrue : Resolver → Assoc Bool → Type 0
IsTrue r seen = (user_id : Str) (b : Bool) → get seen user_id ≡ some b → r user_id ≡ ok b

remember-IsTrue :
    (r : Resolver) (seen : Assoc Bool) (u : Str) (o : Option Bool)
    → IsTrue r seen
    → (o ≡ none → r u ≡ ok false)
    → IsTrue r (remember_absent seen u o)
unfolding remember_absent
remember-IsTrue r seen u none t absent v b h =
    by_test (u == v) refl (sym (get-put seen u v false) ∙ h)
  where
    by_test :
        (same : Bool)
        → (u == v) ≡ same
        → (if same then some false else get seen v) ≡ some b
        → r v ≡ ok b
    by_test true e k =
        subst (λ x. r x ≡ ok b) ((eq_iff u v).0 e)
          (absent refl ∙ ap (λ x. ok x) (some_inj false b k))
    by_test false e k = t v b k
remember-IsTrue r seen u (some known) t absent v b h = t v b h

weigh_sound :
    (r : Resolver) (g : Grant) (gs : List Grant) (o : Option Bool) (answer : Result ℕ Bool)
    (rest : Option CarrierError)
    → ((b : Bool) → o ≡ some b → r g.user_id ≡ ok b)
    → r g.user_id ≡ answer
    → (rest ≡ none → IsExercisable r gs)
    → weigh o answer rest ≡ none
    → IsExercisable r (g ∷ gs)
unfolding weigh
weigh_sound r g gs (some true) answer rest known e ih h = (g, inl refl, known true refl)
weigh_sound r g gs (some false) answer rest known e ih h = let (x, i, t) = ih h in (x, inr i, t)
weigh_sound r g gs none (err n) rest known e ih h = cc h
weigh_sound r g gs none (ok true) rest known e ih h = (g, inl refl, e)
weigh_sound r g gs none (ok false) rest known e ih h = let (x, i, t) = ih h in (x, inr i, t)

absent_next :
    (r : Resolver) (u : Str) (o : Option Bool) (answer : Result ℕ Bool) (rest : Option CarrierError)
    → r u ≡ answer
    → weigh o answer rest ≡ none
    → (o ≡ none → r u ≡ ok false) ⊎ (r u ≡ ok true)
unfolding weigh
absent_next r u (some b) answer rest e h = inl (λ n. cc n)
absent_next r u none (err n) rest e h = cc h
absent_next r u none (ok true) rest e h = inr e
absent_next r u none (ok false) rest e h = inl (λ n. e)

find_sound :
    (r : Resolver) (seen : Assoc Bool) (gs : List Grant)
    → IsTrue r seen
    → find_exercisable r seen gs ≡ none
    → IsExercisable r gs
unfolding find_exercisable
find_sound r seen [] t h = cc h
find_sound r seen (g ∷ gs) t h =
    let o = get seen g.user_id in
    let rest = find_exercisable r (remember_absent seen g.user_id o) gs in
    elim (absent_next r g.user_id o (r g.user_id) rest refl h) [
      | inr exists ↦ (g, inl refl, exists)
      | inl absent ↦
          weigh_sound r g gs o (r g.user_id) rest (λ b e. t g.user_id b e) refl
            (find_sound r (remember_absent seen g.user_id o) gs
              (remember-IsTrue r seen g.user_id o t absent))
            h
    ]

weigh_complete :
    (r : Resolver) (g : Grant) (gs : List Grant) (o : Option Bool) (answer : Result ℕ Bool)
    (rest : Option CarrierError)
    → ((b : Bool) → o ≡ some b → r g.user_id ≡ ok b)
    → r g.user_id ≡ answer
    → ((b : Bool) × (r g.user_id ≡ ok b))
    → ((o ≡ none → r g.user_id ≡ ok false) → IsExercisable r gs → rest ≡ none)
    → IsExercisable r (g ∷ gs)
    → weigh o answer rest ≡ none
unfolding weigh
weigh_complete r g gs (some true) answer rest known e resolves ih x = refl
weigh_complete r g gs (some false) answer rest known e resolves ih (x, inl same, t) =
    cc (subst (λ (y : Grant). r y.user_id ≡ ok true) (sym same) t, known false refl)
weigh_complete r g gs (some false) answer rest known e resolves ih (x, inr i, t) =
    ih (λ n. cc n) (x, i, t)
weigh_complete r g gs none (err n) rest known e (b, answered) ih x = cc (e, answered)
weigh_complete r g gs none (ok true) rest known e resolves ih x = refl
weigh_complete r g gs none (ok false) rest known e resolves ih (x, inl same, t) =
    cc (subst (λ (y : Grant). r y.user_id ≡ ok true) (sym same) t, e)
weigh_complete r g gs none (ok false) rest known e resolves ih (x, inr i, t) = ih (λ n. e) (x, i, t)

find_complete :
    (r : Resolver) (seen : Assoc Bool) (gs : List Grant)
    → IsTrue r seen
    → ((g : Grant) → In g gs → (b : Bool) × (r g.user_id ≡ ok b))
    → IsExercisable r gs
    → find_exercisable r seen gs ≡ none
unfolding find_exercisable
find_complete r seen [] t resolves (x, i, e) = elim i [ ]
find_complete r seen (g ∷ gs) t resolves x =
    let o = get seen g.user_id in
    let next = remember_absent seen g.user_id o in
    weigh_complete r g gs o (r g.user_id) (find_exercisable r next gs) (λ b e. t g.user_id b e) refl
      (resolves g (inl refl))
      (λ absent.
        find_complete r next gs (remember-IsTrue r seen g.user_id o t absent)
          (λ h i. resolves h (inr i)))
      x

empty-IsTrue : (r : Resolver) → IsTrue r []
unfolding get
empty-IsTrue r u b h = cc h

pub floor_sound :
    (r : Resolver) (remaining : List Grant)
    → require_another_exercisable_admin (some r) remaining ≡ none
    → IsExercisable r remaining
unfolding require_another_exercisable_admin
floor_sound r remaining h = find_sound r [] remaining (empty-IsTrue r) h

-- The floor admits a revocation exactly when one of the remaining grants is that of a user that
-- exists, where the resolver answers for each of them, although it asks for none of them twice.
floor_iff :
    (r : Resolver) (remaining : List Grant)
    → ((g : Grant) → In g remaining → (b : Bool) × (r g.user_id ≡ ok b))
    → (require_another_exercisable_admin (some r) remaining ≡ none) ↔ IsExercisable r remaining
unfolding require_another_exercisable_admin
floor_iff r remaining resolves =
    (floor_sound r remaining, find_complete r [] remaining (empty-IsTrue r) resolves)
