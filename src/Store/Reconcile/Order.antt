-- ===== src/Store/Reconcile/Order.antt =====
-- The order of the pages of identity/store/template_reconcile.go.
use terraform_suite_identity.Common.{
  All-In, insert_by, sort_by, ℕ, zero, suc, Str, ◌==◌, eq_iff, ltb, List, [], ◌∷◌, length, filter,
  take, In, All, Bool, true, false, if◌then◌else◌, Bool-cases, branch-if, ne_of_test, ◌≡◌, ◌⊎◌, inl,
  inr, refl, sym, ap, subst, arith,
}
use terraform_suite_identity.Store.OrgScope.{str_lt}
use terraform_suite_identity.Store.OrgScope.Order.{str_lt_irrefl, str_lt_trans, str_lt-total}
use terraform_suite_identity.Store.Reconcile.{TemplateAffected, row_lt, last}

pub row_lt_irrefl : (p : TemplateAffected) → row_lt p p ≡ false
unfolding row_lt
row_lt_irrefl p =
    let a = str_lt_irrefl p.organization_id in let b = str_lt_irrefl p.user_id in ground arith

pub row_lt_trans :
    (p q r : TemplateAffected) → row_lt p q ≡ true → row_lt q r ≡ true → row_lt p r ≡ true
unfolding row_lt
row_lt_trans p q r h k = ground (
  arith,
  eq_iff p.organization_id q.organization_id,
  eq_iff q.organization_id r.organization_id,
  eq_iff p.organization_id r.organization_id,
  str_lt_trans p.organization_id q.organization_id r.organization_id,
  str_lt_trans p.user_id q.user_id r.user_id,
)

same_row :
    (p q : TemplateAffected) → p.organization_id ≡ q.organization_id → p.user_id ≡ q.user_id → p ≡ q
same_row p q e f = cc (e, f)

str_trichotomy : (s t : Str) → str_lt s t ≡ false → str_lt t s ≡ false → s ≡ t
str_trichotomy s t h k = elim (Bool-cases (s == t)) [
  | inl same ↦ (eq_iff s t).0 same
  | inr differ ↦ cc (str_lt-total s t h (ne_of_test s t differ), k)
]

pub row_lt-total : (p q : TemplateAffected) → row_lt p q ≡ false → row_lt q p ≡ false → p ≡ q
unfolding row_lt
row_lt-total p q h k =
    let org : str_lt p.organization_id q.organization_id ≡ false = ground arith in
    let org' : str_lt q.organization_id p.organization_id ≡ false = ground arith in
    let same = str_trichotomy p.organization_id q.organization_id org org' in
    let test = (eq_iff p.organization_id q.organization_id).1 same in
    let test' = (eq_iff q.organization_id p.organization_id).1 (sym same) in
    let user : str_lt p.user_id q.user_id ≡ false = ground arith in
    let user' : str_lt q.user_id p.user_id ≡ false = ground arith in
    same_row p q same (str_trichotomy p.user_id q.user_id user user')

abbrev pub NotBelow : TemplateAffected → List TemplateAffected → Type 0
NotBelow p = All (λ q. row_lt q p ≡ false)

abbrev pub IsOrdered : List TemplateAffected → Type 0
IsOrdered [] = Unit
IsOrdered (p ∷ ps) = NotBelow p ps × IsOrdered ps

not_below :
    (p q r : TemplateAffected) → row_lt q p ≡ false → row_lt r q ≡ false → row_lt r p ≡ false
not_below p q r h k = elim (Bool-cases (row_lt r p)) [
  | inr done ↦ done
  | inl below ↦ elim (Bool-cases (row_lt q r)) [
    | inl above ↦ cc (row_lt_trans q r p above below, h)
    | inr level ↦ subst (λ x. row_lt x p ≡ false) (row_lt-total q r level k) h
  ]
]

-- What is not below the first is not below what lies below it.
NotBelow-mono :
    (p q : TemplateAffected) (ps : List TemplateAffected)
    → row_lt q p ≡ false
    → NotBelow q ps
    → NotBelow p ps
NotBelow-mono p q [] h k = tt
NotBelow-mono p q (r ∷ rs) h k = (not_below p q r h k.0, NotBelow-mono p q rs h k.1)

NotBelow-insert :
    (p q : TemplateAffected) (ps : List TemplateAffected)
    → row_lt q p ≡ false
    → NotBelow p ps
    → NotBelow p (insert_by row_lt q ps)
unfolding insert_by
NotBelow-insert p q [] h k = (h, tt)
NotBelow-insert p q (r ∷ rs) h k =
    branch-if (NotBelow p) (row_lt r q) _ _ (k.0, NotBelow-insert p q rs h k.1) (h, k)

below-not : (p q : TemplateAffected) → row_lt p q ≡ true → row_lt q p ≡ false
below-not p q h = elim (Bool-cases (row_lt q p)) [
  | inr done ↦ done
  | inl round ↦ cc (row_lt_trans p q p h round, row_lt_irrefl p)
]

insert_by-IsOrdered :
    (p : TemplateAffected) (ps : List TemplateAffected)
    → IsOrdered ps
    → IsOrdered (insert_by row_lt p ps)
unfolding insert_by
insert_by-IsOrdered p [] h = (tt, tt)
insert_by-IsOrdered p (q ∷ qs) h = by_test (row_lt q p) refl (insert_by-IsOrdered p qs h.1)
  where
    by_test :
        (b : Bool)
        → row_lt q p ≡ b
        → IsOrdered (insert_by row_lt p qs)
        → IsOrdered (if b then q ∷ insert_by row_lt p qs else p ∷ q ∷ qs)
    by_test true e rest = (NotBelow-insert q p qs (below-not q p e) h.0, rest)
    by_test false e rest = ((e, NotBelow-mono p q qs e h.0), h)

pub sort_by-IsOrdered : (ps : List TemplateAffected) → IsOrdered (sort_by row_lt ps)
unfolding sort_by
sort_by-IsOrdered [] = tt
sort_by-IsOrdered (p ∷ ps) = insert_by-IsOrdered p (sort_by row_lt ps) (sort_by-IsOrdered ps)

NotBelow-filter :
    (t : TemplateAffected → Bool) (p : TemplateAffected) (ps : List TemplateAffected)
    → NotBelow p ps
    → NotBelow p (filter t ps)
unfolding filter
NotBelow-filter t p [] h = tt
NotBelow-filter t p (q ∷ qs) h =
    branch-if (NotBelow p) (t q) _ _ (h.0, NotBelow-filter t p qs h.1) (NotBelow-filter t p qs h.1)

pub filter-IsOrdered :
    (t : TemplateAffected → Bool) (ps : List TemplateAffected)
    → IsOrdered ps
    → IsOrdered (filter t ps)
unfolding filter
filter-IsOrdered t [] h = tt
filter-IsOrdered t (q ∷ qs) h =
    branch-if IsOrdered (t q) _ _ (NotBelow-filter t q qs h.0, filter-IsOrdered t qs h.1)
      (filter-IsOrdered t qs h.1)

-- A page: whatever it leaves out lies after its last row.
pub page_split :
    (n : ℕ) (p : TemplateAffected) (ps : List TemplateAffected)
    → IsOrdered (p ∷ ps)
    → (q : TemplateAffected) → In q (p ∷ ps)
    → In q (p ∷ take n ps) ⊎ (row_lt (last p (take n ps)) q ≡ true)
unfolding take
page_split n p ps h q (inl same) = inl (inl same)
page_split zero p ps h q (inr i) = elim (Bool-cases (row_lt p q)) [
  | inl later ↦ inr later
  | inr level ↦ inl (inl (row_lt-total p q level (All-In (λ r. row_lt r p ≡ false) ps h.0 q i)))
]
page_split (suc n) p [] h q (inr i) = elim i [ ]
page_split (suc n) p (r ∷ rs) h q (inr i) = elim (page_split n r rs h.1 q i) [
  | inl here ↦ inl (inr here)
  | inr later ↦ inr later
]

-- A page that is shorter than asked for holds all that was left.
pub short_page :
    (n : ℕ) (ps : List TemplateAffected) → ltb (length (take n ps)) n ≡ true → take n ps ≡ ps
unfolding take
short_page zero ps h = ground arith
short_page (suc n) [] h = refl
short_page (suc n) (p ∷ ps) h = ap (λ l. p ∷ l) (short_page n ps (ground arith))

pub last-In : (p : TemplateAffected) (ps : List TemplateAffected) → In (last p ps) (p ∷ ps)
last-In p [] = inl refl
last-In p (q ∷ qs) = inr (last-In q qs)
