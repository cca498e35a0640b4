-- ===== src/AuditOutbox/Pruning.antt =====
-- `PruneDelivered` and `prune` (identity/auditoutbox), against the ledger.
use terraform_suite_identity.Common.{
  filter, filter-In, sort_by, In-sort_by, take, take-In, In-map_inv, All-In, arith, branch,
  branch-if, ℕ, ◌-◌, Str, contains, contains_iff, In, List, [], ◌∷◌, ◌⊎◌, inl, inr, subst, Bool,
  not, Option, none, some, All, Bool-cases,
}
use terraform_suite_identity.AuditOutbox.{
  Row, World, row_id, row_ids, dest_ids, delivered_before, delivered_earlier, prune_delivered,
}
use terraform_suite_identity.AuditOutbox.Relay.{RelayConfig, effective_retain, prune}
use terraform_suite_identity.AuditOutbox.Records.{Covered, IsLedger, Keeps, Keeps-refl}

pub without-In :
    (victims : List Str) (rows : List Row) (id : Str)
    → In id (row_ids rows)
    → In id (row_ids (filter (λ r. not (contains victims (row_id r))) rows)) ⊎ In id victims
unfolding filter
without-In victims [] id h = elim h [ ]
without-In victims (r ∷ rows) id h = elim (Bool-cases (contains victims (row_id r))) [
  | inl gone ↦ rw gone (elim h [
    | inl here ↦ inr (subst (λ x. In x victims) here ((contains_iff victims (row_id r)).0 gone))
    | inr later ↦ without-In victims rows id later
  ])
  | inr kept ↦ rw kept (elim h [
    | inl here ↦ inl (inl here)
    | inr later ↦ elim (without-In victims rows id later) [
      | inl there ↦ inl (inr there)
      | inr v ↦ inr v
    ]
  ])
]

-- A delivered row is in the destination.
pub old-In :
    (ids : List Str) (before : ℕ) (rows : List Row) (r : Row)
    → All (Covered ids) rows
    → In r (filter (delivered_before before) rows)
    → In (row_id r) ids
unfolding delivered_before
old-In ids before rows r c h =
    let (there, old) = filter-In (delivered_before before) r rows h in
    elim (All-In (Covered ids) rows c r there) [
      | inl pending ↦ ground (arith, pending, old)
      | inr sent ↦ sent
    ]

pub filter-Covered :
    (ids : List Str) (p : Row → Bool) (rows : List Row)
    → All (Covered ids) rows
    → All (Covered ids) (filter p rows)
unfolding filter
filter-Covered ids p [] h = h
filter-Covered ids p (r ∷ rows) (c, h) =
    branch-if (All (Covered ids)) (p r) _ _ (c, filter-Covered ids p rows h)
      (filter-Covered ids p rows h)

pub prune_delivered-Keeps :
    (before n : ℕ) (w : World)
    → IsLedger w
    → Keeps w (record w { rows = prune_delivered before n w.rows })
unfolding prune_delivered
prune_delivered-Keeps before n w l =
    let old = filter (delivered_before before) w.rows in
    let victims = row_ids (take n (sort_by delivered_earlier old)) in
    record {
      ledger = filter-Covered (dest_ids w.dest) _ w.rows l;
      dest = λ id h. h;
      rows = λ id h. elim (without-In victims w.rows id h) [
        | inl kept ↦ inl kept
        | inr v ↦
            let (r, taken, same) =
              In-map_inv row_id id (take n (sort_by delivered_earlier old)) v in
            let found =
              (In-sort_by delivered_earlier r old).0
                (take-In n r (sort_by delivered_earlier old) taken) in
            inr (
              subst (λ x. In x (dest_ids w.dest)) same
                (old-In (dest_ids w.dest) before w.rows r l found))
      ];
    }

pub prune-Keeps :
    (cfg : RelayConfig) (now : ℕ) (fails : Option ℕ) (w : World)
    → IsLedger w
    → Keeps w (prune cfg now fails w)
unfolding prune
prune-Keeps cfg now (some e) w l = Keeps-refl w l
prune-Keeps cfg now none w l =
    branch (Keeps w) (effective_retain cfg.retain_delivered) _ _
      (λ retain. prune_delivered-Keeps (now - retain) _ w l) (Keeps-refl w l)
