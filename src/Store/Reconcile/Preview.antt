-- ===== src/Store/Reconcile/Preview.antt =====
-- The preview of a reconciliation (identity/store/template_reconcile.go), and what it finds after one.
use terraform_suite_identity.Common.{
  ℕ, ◌+◌, Str, ◌==◌, List, [], ◌∷◌, ◌++◌, length, filter, filter-In, In, All, Bool, true, false,
  not, ◌&&◌, Option, none, some, if◌then◌else◌, Result, ok, err, ◌>>=◌, ◌>>◌, no_error, ◌≡◌, inl,
  inr, refl, sym, ap, subst, ◌∙◌,
}
use terraform_suite_identity.Auth.Scopes.{ReadWritePairs}
use terraform_suite_identity.Store.Tables.{
  Key, Db, StoreError, no_database, empty_template, undecodable, database, Faults,
}
use terraform_suite_identity.Store.Sweep.{authority_retained}
use terraform_suite_identity.Store.Sweep.Decisions.{IsCovered, authority_retained_iff}
use terraform_suite_identity.Store.Reconcile.{
  TemplateAffected, holders, belongs, ReconcileOptions, TemplateReconcileResult, Surroundings,
  reconcile_role_template,
}
use terraform_suite_identity.Store.Reconcile.Batches.{IsSettledUpTo}
use terraform_suite_identity.Store.Reconcile.Progress.{reconcile_progress, reconcile-members}

pub record TemplateReconcileImpact : Type 0 where
  pub scanned : ℕ
  pub principals : ℕ
  pub keys : ℕ

abbrev pub same_principal : TemplateAffected → TemplateAffected → Bool
same_principal p q = p.organization_id == q.organization_id && p.user_id == q.user_id

-- `set[principal] = struct{}{}`
unfoldable pub add_principal : TemplateAffected → List TemplateAffected → List TemplateAffected
add_principal p [] = p ∷ []
add_principal p (q ∷ qs) = if same_principal p q then q ∷ qs else q ∷ add_principal p qs

pub record Tally : Type 0 where
  pub scanned : List TemplateAffected
  pub doomed : List TemplateAffected
  pub keys : ℕ

-- A row of the LEFT JOIN: a principal with one of its keys, or with none.
abbrev pub JoinedRow : Type 0
JoinedRow = TemplateAffected × Option Key

abbrev pub key_rows : TemplateAffected → List Key → List JoinedRow
key_rows p [] = []
key_rows p (k ∷ ks) = (p, some k) ∷ key_rows p ks

abbrev pub left_join : TemplateAffected → List Key → List JoinedRow
left_join p [] = (p, none) ∷ []
left_join p (k ∷ ks) = key_rows p (k ∷ ks)

unfoldable pub joined_rows : List TemplateAffected → List Key → List JoinedRow
joined_rows [] keys = []
joined_rows (p ∷ ps) keys = left_join p (filter (belongs p) keys) ++ joined_rows ps keys

-- A key that the proposed scopes no longer cover is counted, with its principal.
unfoldable pub tally_key : Bool → TemplateAffected → Tally → Tally
unfolding add_principal
tally_key true p t = t
tally_key false p t = record t { keys = t.keys + 1; doomed = add_principal p t.doomed }

unfoldable pub tally_row :
    List Str
    → ReadWritePairs
    → TemplateAffected
    → Option (Option (List Str))
    → Tally
    → Result StoreError Tally
unfolding tally_key add_principal
tally_row proposed rw_pairs p none t = ok (record t { scanned = add_principal p t.scanned })
tally_row proposed rw_pairs p (some none) t = err undecodable
tally_row proposed rw_pairs p (some (some have)) t = ok (
    tally_key (authority_retained have proposed rw_pairs) p
      (record t { scanned = add_principal p t.scanned }))

abbrev pub row_scopes : Option Key → Option (Option (List Str))
row_scopes none = none
row_scopes (some k) = some k.scopes

unfoldable pub tally_rows :
    List Str → ReadWritePairs → List JoinedRow → Tally → Result StoreError Tally
unfolding tally_row
tally_rows proposed rw_pairs [] t = ok t
tally_rows proposed rw_pairs ((p, k) ∷ rows) t = do
  next ← tally_row proposed rw_pairs p (row_scopes k) t
  tally_rows proposed rw_pairs rows next

unfoldable pub count_impact :
    Faults → Str → List Str → ReadWritePairs → Db → Result StoreError TemplateReconcileImpact
unfolding tally_rows joined_rows
count_impact f template_id proposed rw_pairs db = do
  no_error database f.reads_keys
  tally ←
      tally_rows proposed rw_pairs (joined_rows (holders template_id db.members) db.keys)
        (record { scanned = []; doomed = []; keys = 0 })
  ok (record {
    scanned = length tally.scanned;
    principals = length tally.doomed;
    keys = tally.keys;
  })

unfoldable pub preview_role_template_reconciliation :
    Faults → Bool → Str → List Str → ReadWritePairs → Db → Result StoreError TemplateReconcileImpact
unfolding count_impact
preview_role_template_reconciliation f has_db template_id proposed rw_pairs db =
    if not has_db
    then err no_database
    else if template_id == []
    then err empty_template
    else count_impact f template_id proposed rw_pairs db

-- The key of the row, if any, is within the proposed scopes.
abbrev RowCovered : List Str → ReadWritePairs → JoinedRow → Type 0
RowCovered proposed rw_pairs (p, none) = Unit {0}
RowCovered proposed rw_pairs (p, some k) = IsCovered (λ k. proposed) rw_pairs k

covered_row :
    (proposed : List Str) (rw_pairs : ReadWritePairs) (p : TemplateAffected) (k : Option Key)
    (t : Tally)
    → RowCovered proposed rw_pairs (p, k)
    → tally_row proposed rw_pairs p (row_scopes k) t
      ≡ ok (record t { scanned = add_principal p t.scanned })
unfolding tally_row tally_key
covered_row proposed rw_pairs p none t c = refl
covered_row proposed rw_pairs p (some k) t (have, decoded, granted) =
    let retained = (authority_retained_iff have proposed rw_pairs).1 granted in
    subst
      (λ o.
        tally_row proposed rw_pairs p (some o) t
        ≡ ok (record t { scanned = add_principal p t.scanned }))
      (sym decoded)
      (subst
        (λ b.
          (let r : Result StoreError Tally =
              ok (tally_key b p (record t { scanned = add_principal p t.scanned })) in
            r)
          ≡ ok (record t { scanned = add_principal p t.scanned }))
        (sym retained) refl)

covered_rows :
    (proposed : List Str) (rw_pairs : ReadWritePairs) (rows : List JoinedRow) (t : Tally)
    → All (RowCovered proposed rw_pairs) rows
    → (t' : Tally) × (tally_rows proposed rw_pairs rows t ≡ ok t')
      × (t'.doomed ≡ t.doomed)
      × (t'.keys ≡ t.keys)
unfolding tally_rows
covered_rows proposed rw_pairs [] t c = (t, refl, refl, refl)
covered_rows proposed rw_pairs ((p, k) ∷ rows) t c =
    let next = record t { scanned = add_principal p t.scanned } in
    let (t', e, d, n) = covered_rows proposed rw_pairs rows next c.1 in
    (
      t',
      ap (λ m. m >>= tally_rows proposed rw_pairs rows) (covered_row proposed rw_pairs p k t c.0)
          ∙ e,
      d,
      n,
    )

All-append : {A : Type 0} (P : A → Type 0) (xs ys : List A) → All P xs → All P ys → All P (xs ++ ys)
All-append P [] ys h k = k
All-append P (x ∷ xs) ys h k = (h.0, All-append P xs ys h.1 k)

key_rows-covered :
    (proposed : List Str) (rw_pairs : ReadWritePairs) (p : TemplateAffected) (ks : List Key)
    → ((k : Key) → In k ks → IsCovered (λ k. proposed) rw_pairs k)
    → All (RowCovered proposed rw_pairs) (left_join p ks)
key_rows-covered proposed rw_pairs p [] h = (tt, tt)
key_rows-covered proposed rw_pairs p (k ∷ ks) h = all (k ∷ ks) h
  where
    all :
        (ks : List Key)
        → ((k : Key) → In k ks → IsCovered (λ k. proposed) rw_pairs k)
        → All (RowCovered proposed rw_pairs) (key_rows p ks)
    all [] h = tt
    all (k ∷ ks) h = (h k (inl refl), all ks (λ j i. h j (inr i)))

joined_rows-covered :
    (proposed : List Str) (rw_pairs : ReadWritePairs) (ps : List TemplateAffected) (keys : List Key)
    → ((p : TemplateAffected)
        → In p ps
        → (k : Key) → In k keys
        → belongs p k ≡ true
        → IsCovered (λ k. proposed) rw_pairs k)
    → All (RowCovered proposed rw_pairs) (joined_rows ps keys)
unfolding joined_rows
joined_rows-covered proposed rw_pairs [] keys h = tt
joined_rows-covered proposed rw_pairs (p ∷ ps) keys h =
    All-append (RowCovered proposed rw_pairs) (left_join p (filter (belongs p) keys)) _
      (key_rows-covered proposed rw_pairs p (filter (belongs p) keys)
        (λ k i. let (there, b) = filter-In (belongs p) k keys i in h p (inl refl) k there b))
      (joined_rows-covered proposed rw_pairs ps keys (λ q i. h q (inr i)))

-- A reconciliation from the start that is done leaves nothing for its preview: with the same scopes
-- the preview then counts no key and no principal, where its query does not fail.
pub preview-reconcile :
    (env : ℕ → Surroundings) (f : Faults) (t : Str) (proposed : List Str)
    (rw_pairs : ReadWritePairs) (opts : ReconcileOptions) (db db' : Db)
    (res : TemplateReconcileResult)
    → opts.after ≡ none
    → (t == []) ≡ false
    → f.reads_keys ≡ none
    → reconcile_role_template env true t proposed rw_pairs opts db ≡ some (db', ok res)
    → res.done ≡ true
    → (impact : TemplateReconcileImpact) × (preview_role_template_reconciliation f true t proposed
          rw_pairs db'
        ≡ ok impact)
      × (impact.keys ≡ 0)
      × (impact.principals ≡ 0)
unfolding preview_role_template_reconciliation count_impact
preview-reconcile env f t proposed rw_pairs opts db db' res start named reads h done =
    let upto : IsSettledUpTo t proposed rw_pairs opts.after db =
      subst (λ a. IsSettledUpTo t proposed rw_pairs a db) (sym start) (λ p i e. cc e) in
    let members = reconcile-members env true t proposed rw_pairs opts db db' res upto h in
    let all = joined_rows-covered proposed rw_pairs (holders t db'.members) db'.keys (λ p i.
      reconcile_progress env true t proposed rw_pairs opts db db' res upto h p
        (subst (λ ms. In p (holders t ms)) members i) (inl done)) in
    let (tally, e, d, n) =
      covered_rows proposed rw_pairs (joined_rows (holders t db'.members) db'.keys)
        (record { scanned = []; doomed = []; keys = 0 }) all in
    (
      record {
        scanned = length tally.scanned;
        principals = length tally.doomed;
        keys = tally.keys;
      },
      rw (named, reads, e) refl,
      n,
      ap length d,
    )
