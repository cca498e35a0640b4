-- ===== src/Store/Sweep/Decisions.antt =====
-- What the loop over the keys decides, and what it leaves with the deletion.
use terraform_suite_identity.Common.{
  some_inj, ℕ, Str, contains, contains_iff, In, In-append_left, In-append_last, In-append, List, [],
  ◌∷◌, ◌++◌, Bool, true, false, Option, none, some, if◌then◌else◌, ok, >>=-eq-ok, ok_inj, ◌≡◌, ◌↔◌,
  ◌⊎◌, inl, inr, refl, sym, ap, subst, ◌∙◌, arith, Bool-cases,
}
use terraform_suite_identity.Auth.Scopes.{ReadWritePairs, has_scope}
use terraform_suite_identity.Store.Tables.{Key, Faults}
use terraform_suite_identity.Store.Sweep.{
  Plan, empty_plan, authority_retained, judge, decide_key, decide, revoke,
}
use terraform_suite_identity.Store.Sweep.Deletion.{revoke_lem}

pub authority_retained_iff :
    (have retained : List Str) (rw_pairs : ReadWritePairs)
    → (authority_retained have retained rw_pairs ≡ true)
      ↔ ((s : Str) → In s have → has_scope retained s rw_pairs ≡ true)
unfolding authority_retained
authority_retained_iff [] retained rw_pairs = (λ h s i. elim i [ ], λ h. refl)
authority_retained_iff (s ∷ have) retained rw_pairs =
    let rest = authority_retained_iff have retained rw_pairs in
    (
      λ h t i. elim i [
        | inl same ↦ subst (λ u. has_scope retained u rw_pairs ≡ true) same (ground arith)
        | inr later ↦ rest.0 (ground arith) t later
      ],
      λ h. let first = h s (inl refl) in let others = rest.1 (λ t i. h t (inr i)) in ground arith,
    )

module _ (authority : Key → List Str) (rw_pairs : ReadWritePairs) where
  -- All the scopes of the key are within the authority.
  abbrev pub IsCovered : Key → Type 0
  IsCovered k =
      (have : List Str) × (k.scopes ≡ some have)
      × ((s : Str) → In s have → has_scope (authority k) s rw_pairs ≡ true)

  -- One of them is not.
  abbrev pub IsExcess : Key → Type 0
  IsExcess k =
      (have : List Str) × (k.scopes ≡ some have)
      × (authority_retained have (authority k) rw_pairs ≡ false)

  -- What one turn of the loop makes of its key.
  abbrev Decided : Key → Plan → Plan → Type 0
  Decided k p q =
      (IsCovered k × (q.doomed ≡ p.doomed)) ⊎ (IsExcess k × (q.doomed ≡ p.doomed ++ k.id ∷ []))

  -- An excess key of the list has the id.
  abbrev pub Collected : (Key → Bool) → List Key → Str → Type 0
  Collected selected keys id =
      (k : Key) × In k keys × (selected k ≡ true) × IsExcess k × (k.id ≡ id)

  judge-Decided :
      (have : List Str) (b : Bool) (k : Key) (p : Plan)
      → k.scopes ≡ some have
      → authority_retained have (authority k) rw_pairs ≡ b
      → Decided k p (judge b k p)
  unfolding judge
  judge-Decided have true k p e t =
      inl ((have, e, (authority_retained_iff have (authority k) rw_pairs).0 t), refl)
  judge-Decided have false k p e t = inr ((have, e, t), refl)

  decide_key-Decided :
      (k : Key) (o : Option (List Str)) (p q : Plan)
      → k.scopes ≡ o
      → decide_key (authority k) rw_pairs k p o ≡ ok q
      → Decided k p q
  unfolding decide_key
  decide_key-Decided k none p q e h = cc h
  decide_key-Decided k (some have) p q e h =
      subst (Decided k p) (ok_inj h) (judge-Decided have _ k p e refl)

  module _ (selected : Key → Bool) where
    -- One turn of the loop: nothing is dropped, a selected key is covered or collected, and what is
    -- new is an excess key.
    abbrev Turn : Key → Plan → Plan → Type 0
    Turn k p q =
        ((id : Str) → In id p.doomed → In id q.doomed)
        × (selected k ≡ true → IsCovered k ⊎ In k.id q.doomed)
        × ((id : Str)
            → In id q.doomed
            → In id p.doomed ⊎ ((selected k ≡ true) × IsExcess k × (k.id ≡ id)))

    same-Turn :
        (k : Key) (p q : Plan)
        → (selected k ≡ true → IsCovered k)
        → q.doomed ≡ p.doomed
        → Turn k p q
    same-Turn k p q c e =
        (λ id i. subst (In id) (sym e) i, λ s. inl (c s), λ id i. inl (subst (In id) e i))

    Decided-Turn : (k : Key) (p q : Plan) → selected k ≡ true → Decided k p q → Turn k p q
    Decided-Turn k p q s (inl (covered, same)) = same-Turn k p q (λ t. covered) same
    Decided-Turn k p q s (inr (excess, grown)) = (
      λ id i. subst (In id) (sym grown) (In-append_left id p.doomed (k.id ∷ []) i),
      λ t. inr (subst (In k.id) (sym grown) (In-append_last k.id p.doomed)),
      λ id i. elim (In-append id p.doomed (k.id ∷ []) (subst (In id) grown i)) [
        | inl before ↦ inl before
        | inr (inl new) ↦ inr (s, excess, new)
        | inr (inr nothing) ↦ elim nothing [ ]
      ],
    )

    turn :
        (k : Key) (b : Bool) (p q : Plan)
        → selected k ≡ b
        → (if b then decide_key (authority k) rw_pairs k p k.scopes else ok p) ≡ ok q
        → Turn k p q
    turn k true p q s h = Decided-Turn k p q s (decide_key-Decided k k.scopes p q refl h)
    turn k false p q s h =
        same-Turn k p q (λ t. cc (s, t)) (ap (λ (x : Plan). x.doomed) (sym (ok_inj h)))

    -- What the loop collects are excess keys, and each selected key is covered or collected.
    pub decide-Decided :
        (keys : List Key) (p q : Plan)
        → decide selected authority rw_pairs keys p ≡ ok q
        → ((id : Str) → In id p.doomed → In id q.doomed)
          × ((k : Key) → In k keys → selected k ≡ true → IsCovered k ⊎ In k.id q.doomed)
          × ((id : Str) → In id q.doomed → In id p.doomed ⊎ Collected selected keys id)
    unfolding decide
    decide-Decided [] p q h =
        let same = ap (λ (x : Plan). x.doomed) (ok_inj h) in
        (
          λ id i. subst (In id) same i,
          λ k i s. elim i [ ],
          λ id i. inl (subst (In id) (sym same) i),
        )
    decide-Decided (k ∷ keys) p q h =
        let (r, one, more) = >>=-eq-ok _ _ q h in
        let (mono, all, back) = decide-Decided keys r q more in
        let (mono', mine, back') = turn k (selected k) p r refl one in
        (
          λ id i. mono id (mono' id i),
          λ j i s. elim i [
            | inl same ↦
                subst (λ x. selected x ≡ true → IsCovered x ⊎ In x.id q.doomed) same
                  (λ t. elim (mine t) [ inl c ↦ inl c | inr d ↦ inr (mono k.id d) ]) s
            | inr later ↦ all j later s
          ],
          λ id i. elim (back id i) [
            | inr (j, there, s, excess, same) ↦ inr (j, inr there, s, excess, same)
            | inl early ↦ elim (back' id early) [
              | inl before ↦ inl before
              | inr (s, excess, same) ↦ inr (k, inl refl, s, excess, same)
            ]
          ],
        )

-- No two keys have one id.
abbrev pub IsDistinct : List Key → Type 0
IsDistinct keys = (k j : Key) → In k keys → In j keys → k.id ≡ j.id → k ≡ j

module _ (authority : Key → List Str) (rw_pairs : ReadWritePairs) (selected : Key → Bool) where
  -- The loop and the deletion together.
  pub sweep-IsCovered :
      (f : Faults) (keys keys' : List Key) (n : ℕ) (plan : Plan)
      → decide selected authority rw_pairs keys empty_plan ≡ ok plan
      → revoke f plan.doomed keys ≡ ok (keys', n)
      → (k : Key) → In k keys'
      → In k keys × (selected k ≡ true → IsCovered authority rw_pairs k)
  sweep-IsCovered f keys keys' n plan d r k i =
      let (there, spared) = ((revoke_lem f plan.doomed keys keys' n r).0 k).0 i in
      (
        there,
        λ s.
            elim ((decide-Decided authority rw_pairs selected keys empty_plan plan d).1 k there s) [
              | inl covered ↦ covered
              | inr doomed ↦ cc ((contains_iff plan.doomed k.id).1 doomed, spared)
            ],
      )

  -- A key that is not selected, or is covered, is still there.
  pub sweep-keeps :
      (f : Faults) (keys keys' : List Key) (n : ℕ) (plan : Plan)
      → IsDistinct keys
      → decide selected authority rw_pairs keys empty_plan ≡ ok plan
      → revoke f plan.doomed keys ≡ ok (keys', n)
      → (k : Key) → In k keys
      → (selected k ≡ false) ⊎ IsCovered authority rw_pairs k
      → In k keys'
  sweep-keeps f keys keys' n plan distinct d r k i spared =
      let back = (decide-Decided authority rw_pairs selected keys empty_plan plan d).2 k.id in
      ((revoke_lem f plan.doomed keys keys' n r).0 k).1 (
        i,
        elim (Bool-cases (contains plan.doomed k.id)) [
          | inr absent ↦ absent
          | inl doomed ↦ elim (back ((contains_iff plan.doomed k.id).0 doomed)) [
            | inl nothing ↦ elim nothing [ ]
            | inr (j, there, s, excess, same) ↦
                elim (clash j k s excess (distinct j k there i same) spared) [ ]
          ]
        ],
      )
    where
      clash :
          (j k : Key)
          → selected j ≡ true
          → IsExcess authority rw_pairs j
          → j ≡ k
          → (selected k ≡ false) ⊎ IsCovered authority rw_pairs k
          → ⊥
      clash j k s excess same (inl other) = cc (subst (λ x. selected x ≡ true) same s, other)
      clash j k s (have, e, t) same (inr (have', e', all)) =
          let e2 = subst (λ x. x.scopes ≡ some have) same e in
          let eq = some_inj _ _ (sym e' ∙ e2) in
          let t' = (authority_retained_iff have' (authority k) rw_pairs).1 all in
          let t2 = subst (λ x. authority_retained have (authority x) rw_pairs ≡ false) same t in
          let t3 = subst (λ h. authority_retained h (authority k) rw_pairs ≡ true) eq t' in
          cc (t2, t3)
