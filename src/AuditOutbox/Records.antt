-- ===== src/AuditOutbox/Records.antt =====
-- The ledger of the outbox as predicates, and the lemmas on events, rows and the destination.
use terraform_suite_identity.Common.{
  In-append_left, In-append_last, branch-if, ℕ, Str, ◌==◌, eq_iff, contains, contains_iff, In, List,
  [], ◌∷◌, ◌++◌, ◌≡◌, ◌⊎◌, inl, inr, refl, sym, ap, subst, Bool, true, false, Option, none, All,
  Bool-cases, arith, if◌then◌else◌,
}
use terraform_suite_identity.AuditOutbox.{
  Intent, Row, World, row_id, row_ids, dest_ids, mark_row, mark_delivered, fail_row, record_failure,
}
use terraform_suite_identity.AuditOutbox.Relay.{
  SinkOutcome, delivers, fails_before, fails_after, insert_dest, deliver, deliver_named,
}

-- The row is undelivered, or its event is in the destination.
abbrev pub Covered : List Str → Row → Type 0
Covered ids r = (r.delivered_at ≡ none) ⊎ In (row_id r) ids

-- Every delivered row's event is in the destination.
abbrev pub IsLedger : World → Type 0
IsLedger w = All (Covered (dest_ids w.dest)) w.rows

-- The event is on record: in a row that is undelivered, or in the destination.
abbrev pub Recorded : Str → World → Type 0
Recorded id w =
    ((r : Row) × In r w.rows × (row_id r ≡ id) × (r.delivered_at ≡ none)) ⊎ In id (dest_ids w.dest)

-- What every call keeps: the ledger, the events of the destination, and each row's event in a row or
-- in the destination.
pub record Keeps (w w' : World) : Type 0 where
  pub ledger : IsLedger w'
  pub dest : (id : Str) → In id (dest_ids w.dest) → In id (dest_ids w'.dest)
  pub rows :
      (id : Str) → In id (row_ids w.rows) → In id (row_ids w'.rows) ⊎ In id (dest_ids w'.dest)

pub Keeps-refl : (w : World) → IsLedger w → Keeps w w
Keeps-refl w l = record { ledger = l; dest = λ id h. h; rows = λ id h. inl h }

pub Keeps-trans : (a b c : World) → Keeps a b → Keeps b c → Keeps a c
Keeps-trans a b c f g = record {
  ledger = g.ledger;
  dest = λ id h. g.dest id (f.dest id h);
  rows = λ id h. elim (f.rows id h) [
    | inl there ↦ g.rows id there
    | inr there ↦ inr (g.dest id there)
  ];
}

pub dest_ids-append :
    (d : List Intent) (i : Intent) → dest_ids (d ++ i ∷ []) ≡ dest_ids d ++ i.event_id ∷ []
dest_ids-append [] i = refl
dest_ids-append (x ∷ d) i = ap (λ (l : List Str). x.event_id ∷ l) (dest_ids-append d i)

pub row_ids-append : (d : List Row) (r : Row) → row_ids (d ++ r ∷ []) ≡ row_ids d ++ row_id r ∷ []
row_ids-append [] i = refl
row_ids-append (x ∷ d) r = ap (λ (l : List Str). row_id x ∷ l) (row_ids-append d r)

pub insert_dest-In :
    (d : List Intent) (i : Intent) (id : Str)
    → In id (dest_ids d)
    → In id (dest_ids (insert_dest d i))
unfolding insert_dest
insert_dest-In d i id h = elim (Bool-cases (contains (dest_ids d) i.event_id)) [
  | inl there ↦ rw there h
  | inr absent ↦ rw absent (
      subst (In id) (sym (dest_ids-append d i))
        (In-append_left id (dest_ids d) (i.event_id ∷ []) h))
]

pub insert_dest-there : (d : List Intent) (i : Intent) → In i.event_id (dest_ids (insert_dest d i))
unfolding insert_dest
insert_dest-there d i = elim (Bool-cases (contains (dest_ids d) i.event_id)) [
  | inl there ↦ rw there ((contains_iff (dest_ids d) i.event_id).0 there)
  | inr absent ↦
      rw absent
        (subst (In i.event_id) (sym (dest_ids-append d i)) (In-append_last i.event_id (dest_ids d)))
]

deliver_named-In :
    (d : List Intent) (i : Intent) (o : SinkOutcome) (id : Str)
    → In id (dest_ids d)
    → In id (dest_ids (deliver_named d i o).0)
unfolding deliver_named
deliver_named-In d i delivers id h = insert_dest-In d i id h
deliver_named-In d i (fails_before e) id h = h
deliver_named-In d i (fails_after e) id h = insert_dest-In d i id h

pub deliver-In :
    (d : List Intent) (i : Intent) (o : SinkOutcome) (id : Str)
    → In id (dest_ids d)
    → In id (dest_ids (deliver d i o).0)
unfolding deliver
deliver-In d i o id h =
    branch-if (λ (x : List Intent × Option ℕ). In id (dest_ids x.0)) (i.event_id == []) _ _ h
      (deliver_named-In d i o id h)

deliver_named-there :
    (d : List Intent) (i : Intent) (o : SinkOutcome)
    → (deliver_named d i o).1 ≡ none
    → In i.event_id (dest_ids (deliver_named d i o).0)
unfolding deliver_named
deliver_named-there d i delivers h = insert_dest-there d i
deliver_named-there d i (fails_before e) h = cc h
deliver_named-there d i (fails_after e) h = cc h

pub deliver-there :
    (d : List Intent) (i : Intent) (o : SinkOutcome)
    → (deliver d i o).1 ≡ none
    → In i.event_id (dest_ids (deliver d i o).0)
unfolding deliver
deliver-there d i o =
    branch-if (λ (x : List Intent × Option ℕ). x.1 ≡ none → In i.event_id (dest_ids x.0))
      (i.event_id == []) _ _ (λ h. cc h) (deliver_named-there d i o)

pub row_ids-mark :
    (now : ℕ) (id : Str) (rows : List Row) → row_ids (mark_delivered now id rows) ≡ row_ids rows
unfolding mark_delivered mark_row
row_ids-mark now id [] = refl
row_ids-mark now id (r ∷ rows) = ground (arith, row_ids-mark now id rows)

pub row_ids-fail :
    (id : Str) (e : ℕ) (rows : List Row) → row_ids (record_failure id e rows) ≡ row_ids rows
unfolding record_failure fail_row
row_ids-fail id e [] = refl
row_ids-fail id e (r ∷ rows) = ground (arith, row_ids-fail id e rows)

pub Covered-mono :
    (ids ids' : List Str) (rows : List Row)
    → ((id : Str) → In id ids → In id ids')
    → All (Covered ids) rows
    → All (Covered ids') rows
Covered-mono ids ids' [] f h = h
Covered-mono ids ids' (r ∷ rows) f (inl p, h) = (inl p, Covered-mono ids ids' rows f h)
Covered-mono ids ids' (r ∷ rows) f (inr p, h) =
    (inr (f (row_id r) p), Covered-mono ids ids' rows f h)

pub Covered-if :
    (ids : List Str) (b : Bool) (r r' : Row)
    → Covered ids r
    → (b ≡ true → Covered ids r')
    → Covered ids (if b then r' else r)
Covered-if ids true r r' c f = f refl
Covered-if ids false r r' c f = c

pub mark-Covered :
    (ids : List Str) (now : ℕ) (id : Str) (rows : List Row)
    → In id ids
    → All (Covered ids) rows
    → All (Covered ids) (mark_delivered now id rows)
unfolding mark_delivered mark_row
mark-Covered ids now id [] there h = h
mark-Covered ids now id (r ∷ rows) there (c, h) = (
  Covered-if ids (row_id r == id) r _ c
      (λ same. inr (subst (λ x. In x ids) (sym ((eq_iff (row_id r) id).0 same)) there)),
  mark-Covered ids now id rows there h,
)

pub fail-Covered :
    (ids : List Str) (id : Str) (e : ℕ) (rows : List Row)
    → All (Covered ids) rows
    → All (Covered ids) (record_failure id e rows)
unfolding record_failure fail_row
fail-Covered ids id e [] h = h
fail-Covered ids id e (r ∷ rows) (c, h) =
    (Covered-if ids (row_id r == id) r _ c (λ same. c), fail-Covered ids id e rows h)
