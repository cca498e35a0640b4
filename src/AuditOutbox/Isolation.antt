-- ===== src/AuditOutbox/Isolation.antt =====
-- What one call of `DeliverBatch` leaves in the tables (identity/auditoutbox/relay.go and sink.go).
use terraform_suite_identity.Common.{
  ℕ, ◌+◌, ◌≤◌, Str, ◌==◌, eq_iff, contains, List, [], ◌∷◌, ◌++◌, map, filter, length, ◌≡◌, inl, inr,
  refl, sym, ap, subst, ◌∙◌, Bool, true, false, not, ◌&&◌, Bool-cases, Option, none, some, arith,
  if◌then◌else◌, count_if, filter,
}
use terraform_suite_identity.AuditOutbox.{Intent, Row, World, row_id, row_ids, dest_ids, claim}
use terraform_suite_identity.AuditOutbox.Relay.{
  CommitOutcome, commits, rolls_back, reply_lost, SinkOutcome, Faults, deliver, after_sink,
  deliver_intents, Outcome, settle, deliver_claimed, deliver_batch,
}
use terraform_suite_identity.AuditOutbox.Records.{dest_ids-append}
use terraform_suite_identity.AuditOutbox.Batch.{
  taken, IsSound, branch-none, after_sink_lem, batch-counts,
}
use terraform_suite_identity.AuditOutbox.Replicas.Keys.{
  occurs, IsKeyed, claim-occurs, present-occurs,
}
use terraform_suite_identity.AuditOutbox.Turns.{
  refusal, reaches, resolved-id, attempted, rows_after, dest_after, touched, dest_next,
  deliver-refusal, deliver-dest, after_sink-tables,
}

map-untouched :
    (sink : Str → SinkOutcome) (now : ℕ) (rows : List Row) → rows_after sink now [] rows ≡ rows
unfolding contains
map-untouched sink now [] = refl
map-untouched sink now (r ∷ rows) = ap (λ l. r ∷ l) (map-untouched sink now rows)

append_nil : (dest : List Intent) → dest ++ [] ≡ dest
append_nil [] = refl
append_nil (i ∷ dest) = ap (λ l. i ∷ l) (append_nil dest)

append_one :
    (xs : List Intent) (i : Intent) (ys : List Intent) → (xs ++ i ∷ []) ++ ys ≡ xs ++ i ∷ ys
append_one [] i ys = refl
append_one (x ∷ xs) i ys = ap (λ l. x ∷ l) (append_one xs i ys)

contains-last :
    (ids : List Str) (id x : Str)
    → (x == id) ≡ false
    → contains (ids ++ x ∷ []) id ≡ contains ids id
unfolding contains
contains-last [] id x h = ground (arith, h)
contains-last (y ∷ ids) id x h = ground (arith, contains-last ids id x h)

-- A row of the key that is tried now is not tried again.
then_later :
    (sink : Str → SinkOutcome) (now : ℕ) (id : Str) (later : List Str) (r : Row)
    → contains later id ≡ false
    → (let t = touched sink now id r in
        if contains later (row_id t) then attempted sink now t else t)
      ≡ (if contains (id ∷ later) (row_id r) then attempted sink now r else r)
unfolding contains
then_later sink now id later r once = elim (Bool-cases (row_id r == id)) [
  | inl same ↦
      let key = (eq_iff (row_id r) id).0 same in
      let kept : row_id (attempted sink now r) ≡ id =
        resolved-id now r (refusal (row_id r) (sink (row_id r))) ∙ key in
      let gone : contains later (row_id (attempted sink now r)) ≡ false =
        subst (λ i. contains later i ≡ false) (sym kept) once in
      let here : (id == row_id r) ≡ true = (eq_iff id (row_id r)).1 (sym key) in
      rw (same, gone, here) refl
  | inr other ↦
      let apart : (id == row_id r) ≡ false =
        ground (arith, eq_iff id (row_id r), eq_iff (row_id r) id) in
      rw (other, apart) refl
]

rows-later :
    (sink : Str → SinkOutcome) (now : ℕ) (r : Row) (later rows : List Row)
    → contains (row_ids later) (row_id r) ≡ false
    → rows_after sink now later (map (touched sink now (row_id r)) rows)
      ≡ rows_after sink now (r ∷ later) rows
rows-later sink now r later [] once = refl
rows-later sink now r later (x ∷ rows) once =
    cc
      (then_later sink now (row_id r) (row_ids later) x once, rows-later sink now r later rows once)

abbrev new_to : (Str → SinkOutcome) → List Intent → Row → Bool
new_to sink dest r =
    reaches (row_id r) (sink (row_id r)) && not (contains (dest_ids dest) (row_id r))

filter-later :
    (sink : Str → SinkOutcome) (dest : List Intent) (i : Intent) (later : List Row)
    → contains (row_ids later) i.event_id ≡ false
    → filter (new_to sink (dest ++ i ∷ [])) later ≡ filter (new_to sink dest) later
unfolding filter contains
filter-later sink dest i [] once = refl
filter-later sink dest i (r ∷ later) once =
    let apart : (i.event_id == row_id r) ≡ false =
      ground (arith, once, eq_iff i.event_id (row_id r), eq_iff (row_id r) i.event_id) in
    let same : contains (dest_ids (dest ++ i ∷ [])) (row_id r)
        ≡ contains (dest_ids dest) (row_id r) =
      ap (λ l. contains l (row_id r)) (dest_ids-append dest i)
      ∙ contains-last (dest_ids dest) (row_id r) i.event_id apart in
    let ih = filter-later sink dest i later (ground (arith, once)) in rw (same, ih) refl

dest-later :
    (sink : Str → SinkOutcome) (r : Row) (later : List Row) (dest : List Intent)
    → contains (row_ids later) (row_id r) ≡ false
    → dest_after sink later (dest_next dest r.intent (sink (row_id r)))
      ≡ dest_after sink (r ∷ later) dest
unfolding filter
dest-later sink r later dest once = elim (Bool-cases (new_to sink dest r)) [
  | inl new ↦ rw (new) (
      append_one dest r.intent _
      ∙ ap (λ l. dest ++ r.intent ∷ map (λ (x : Row). x.intent) l)
          (filter-later sink dest r.intent later once))
  | inr old ↦ rw (old) refl
]

-- No event stands twice in what was claimed.
abbrev Once : List Row → Type 0
Once rows = (id : Str) → occurs id (row_ids rows) ≤ 1

later-Once : (r : Row) (rows : List Row) → Once (r ∷ rows) → Once rows
unfolding count_if
later-Once r rows once id = let k = once id in ground (arith, k)

first-Once :
    (r : Row) (rows : List Row) → Once (r ∷ rows) → contains (row_ids rows) (row_id r) ≡ false
unfolding count_if
first-Once r rows once = elim (Bool-cases (contains (row_ids rows) (row_id r))) [
  | inl there ↦
      let more = present-occurs (row_id r) (row_ids rows) there in
      let k = once (row_id r) in absurd (ground (arith, more, k, eq_iff (row_id r) (row_id r)))
  | inr gone ↦ gone
]

abbrev Tables : Faults → ℕ → List Row → World → World → Type 0
Tables f now claimed w v =
    (v.rows ≡ rows_after f.sink now claimed w.rows) × (v.dest ≡ dest_after f.sink claimed w.dest)

deliver_intents-Tables :
    (f : Faults) (now : ℕ) (claimed : List Row) (w : World) (n : ℕ)
    → IsSound f
    → Once claimed
    → Tables f now claimed w (deliver_intents f now claimed w n).0
      × ((deliver_intents f now claimed w n).2 ≡ none)
unfolding deliver_intents filter
deliver_intents-Tables f now [] w n s once =
    ((sym (map-untouched f.sink now w.rows), sym (append_nil w.dest)), refl)
deliver_intents-Tables f now (r ∷ claimed) w n s once =
    let o = f.sink (row_id r) in
    let d = deliver w.dest r.intent o in
    let turn = after_sink f now r w d in
    let (rows, dest) = after_sink-tables f now r w d s (deliver-refusal w.dest r.intent o) in
    let ((more_rows, more_dest), passed) =
      deliver_intents-Tables f now claimed turn.0 (if turn.1 then n + 1 else n) s
        (later-Once r claimed once) in
    let gone = first-Once r claimed once in
    branch-none (λ (x : World × ℕ × Option ℕ). Tables f now (r ∷ claimed) w x.0 × (x.2 ≡ none))
      turn.2 _ _ (after_sink_lem f now r w d s).1
      (
        (
          more_rows
              ∙ ap (rows_after f.sink now claimed) rows
              ∙ rows-later f.sink now r claimed w.rows gone,
          more_dest
              ∙ ap (dest_after f.sink claimed) (dest ∙ deliver-dest w.dest r.intent o)
              ∙ dest-later f.sink r claimed w.dest gone,
        ),
        passed,
      )

settle-kept :
    (rows : List Row) (n : ℕ) (c : CommitOutcome) (x : World × ℕ × Option ℕ)
    → c ≡ commits
    → x.2 ≡ none
    → (settle rows n c x).0 ≡ x.0
unfolding settle
settle-kept rows n c (v, d, some e) h passed = cc passed
settle-kept rows n commits (v, d, none) h passed = refl
settle-kept rows n (rolls_back e) (v, d, none) h passed = cc h
settle-kept rows n (reply_lost e) (v, d, none) h passed = refl

claimed-Tables :
    (f : Faults) (now : ℕ) (claimed : List Row) (w : World)
    → IsSound f
    → Once claimed
    → Tables f now claimed w (deliver_claimed f now claimed w).0
unfolding deliver_claimed filter
claimed-Tables f now [] w s once = (sym (map-untouched f.sink now w.rows), sym (append_nil w.dest))
claimed-Tables f now (r ∷ claimed) w s once =
    let (tables, passed) = deliver_intents-Tables f now (r ∷ claimed) w 0 s once in
    subst (Tables f now (r ∷ claimed) w)
      (sym (
        settle-kept w.rows (length (r ∷ claimed)) f.commit (deliver_intents f now (r ∷ claimed) w 0)
          s.commits_it passed))
      tables

-- A delivery that fails does not block the rest: where no statement of the batch's transaction
-- fails and the events of the table are distinct, the batch goes through all that it claimed and
-- commits. It reports as delivered exactly those that the sink took without an error; each of these
-- is marked delivered in the table, each other claimed one stays undelivered with its error, one
-- attempt is counted for both, and every other row stays as it is; and the destination gains, in
-- their order, the claimed intents that reached it and that it did not have, and nothing else.
pub failure_isolated :
    (f : Faults) (now batch : ℕ) (w : World)
    → IsSound f
    → IsKeyed w.rows
    → let claimed = claim f.locked batch w.rows in
      let (w', outcome) = deliver_batch f now batch w in
      (outcome
        ≡ record { claimed = length claimed; delivered = taken f.sink claimed; error = none })
      × (w'.rows ≡ rows_after f.sink now claimed w.rows)
      × (w'.dest ≡ dest_after f.sink claimed w.dest)
unfolding deliver_batch
failure_isolated f now batch w s k =
    let claimed = claim f.locked batch w.rows in
    let once : Once claimed =
      λ id. let fewer = claim-occurs f.locked batch w.rows id in let one = k id in omega arith in
    let tables : Tables f now claimed w (deliver_batch f now batch w).0 =
      branch-none (λ (x : World × Outcome). Tables f now claimed w x.0) f.begin_fails _ _ s.begins
        (branch-none (λ (x : World × Outcome). Tables f now claimed w x.0) f.claim_fails _ _
          s.claims (claimed-Tables f now claimed w s once)) in
    (batch-counts f now batch w s, tables.0, tables.1)
