-- ===== src/Notify/Message/Headers.antt =====
-- How a mail server reads the headers of a message (identity/notify/notifier.go).
use terraform_suite_identity.Common.{
  ℕ, Str, lit, nat_eq, is_empty, List, [], ◌∷◌, ◌++◌, map, filter, All, Bool, true, false, not,
  ◌||◌, if◌then◌else◌, ◌≡◌, refl, sym, ap, ◌∙◌,
}
use mathlib.Core.List.{append-nil, append_assoc}
use terraform_suite_identity.Notify.Message.{
  line_end, is_line_byte, sanitize_header, join, build_message,
}

-- The lines up to the first empty one, and what follows it. A line ends at a line feed, and carriage
-- returns are dropped, so the reader is at least as ready to see a line end as a mail server.
unfoldable pub read_headers : Str → Str → List Str × Str
read_headers line [] = (line ∷ [], [])
read_headers line (c ∷ s) =
    let same = read_headers line s in
    let next = read_headers [] s in
    let more = read_headers (line ++ c ∷ []) s in
    if nat_eq c 13
    then same
    else if nat_eq c 10
    then if is_empty line then ([], s) else (line ∷ next.0, next.1)
    else more

abbrev IsLine : Str → Type 0
IsLine s = All (λ c. is_line_byte c ≡ true) s

sanitize_header-IsLine : (s : Str) → IsLine (sanitize_header s)
unfolding sanitize_header filter
sanitize_header-IsLine [] = tt
sanitize_header-IsLine (c ∷ s) = kept (is_line_byte c) refl (sanitize_header-IsLine s)
  where
    kept :
        (b : Bool)
        → is_line_byte c ≡ b
        → IsLine (filter is_line_byte s)
        → IsLine (if b then c ∷ filter is_line_byte s else filter is_line_byte s)
    kept true e h = (e, h)
    kept false e h = h

append-IsLine : (s t : Str) → IsLine s → IsLine t → IsLine (s ++ t)
append-IsLine [] t h k = k
append-IsLine (c ∷ s) t h k = (h.0, append-IsLine s t h.1 k)

join-IsLine : (ss : List Str) → IsLine (join (lit ", ") (map sanitize_header ss))
unfolding join
join-IsLine [] = tt
join-IsLine (s ∷ []) = sanitize_header-IsLine s
join-IsLine (s ∷ t ∷ ss) =
    append-IsLine (sanitize_header s) (lit ", " ++ join (lit ", ") (map sanitize_header (t ∷ ss)))
      (sanitize_header-IsLine s) (refl, (refl, join-IsLine (t ∷ ss)))

-- A line that holds something is read whole.
read_line :
    (c : ℕ) (line v s : Str)
    → IsLine v
    → read_headers (c ∷ line) (v ++ (line_end ++ s))
      ≡ ((c ∷ (line ++ v)) ∷ (read_headers [] s).0, (read_headers [] s).1)
unfolding read_headers
read_line c line [] s h =
    ap (λ l. ((c ∷ l) ∷ (read_headers [] s).0, (read_headers [] s).1)) (sym (append-nil line))
read_line c line (d ∷ v) s h =
    taken (nat_eq d 13) (nat_eq d 10) h.0
    ∙ read_line c (line ++ d ∷ []) v s h.1
    ∙ ap (λ l. ((c ∷ l) ∷ (read_headers [] s).0, (read_headers [] s).1))
        (append_assoc line (d ∷ []) v)
  where
    taken :
        (cr lf : Bool)
        → not (cr || lf) ≡ true
        → (if cr
            then read_headers (c ∷ line) (v ++ (line_end ++ s))
            else if lf
            then (
              (c ∷ line) ∷ (read_headers [] (v ++ (line_end ++ s))).0,
              (read_headers [] (v ++ (line_end ++ s))).1,
            )
            else read_headers (c ∷ (line ++ d ∷ [])) (v ++ (line_end ++ s)))
          ≡ read_headers (c ∷ (line ++ d ∷ [])) (v ++ (line_end ++ s))
    taken true lf g = cc g
    taken false true g = cc g
    taken false false g = refl

abbrev consed : Str → List Str × Str → List Str × Str
consed line (lines, rest) = (line ∷ lines, rest)

-- Whatever the sender, the recipients, the subject and the body hold, a message has exactly the
-- four headers From, To, Subject and Content-Type, with the given values less their line ends, and
-- then the body.
pub read_headers-build_message :
    (from : Str) (to : List Str) (subject body : Str)
    → read_headers [] (build_message from to subject body) ≡ (
      (lit "From: " ++ sanitize_header from)
          ∷ (lit "To: " ++ join (lit ", ") (map sanitize_header to))
          ∷ (lit "Subject: " ++ sanitize_header subject)
          ∷ lit "Content-Type: text/plain; charset=utf-8"
          ∷ [],
      body ++ line_end,
    )
unfolding build_message read_headers
read_headers-build_message from to subject body =
    let sf = sanitize_header from in
    let st = join (lit ", ") (map sanitize_header to) in
    let ss = sanitize_header subject in
    let kind = lit "Content-Type: text/plain; charset=utf-8" in
    let r4 = line_end ++ (body ++ line_end) in
    let r3 = kind ++ (line_end ++ r4) in
    let r2 = lit "Subject: " ++ (ss ++ (line_end ++ r3)) in
    let r1 = lit "To: " ++ (st ++ (line_end ++ r2)) in
    let from_line =
      append-IsLine (lit "rom: ") sf (refl, (refl, (refl, (refl, (refl, tt)))))
        (sanitize_header-IsLine from) in
    let to_line = append-IsLine (lit "o: ") st (refl, (refl, (refl, tt))) (join-IsLine to) in
    let subject_line =
      append-IsLine (lit "ubject: ") ss
        (refl, (refl, (refl, (refl, (refl, (refl, (refl, (refl, tt))))))))
        (sanitize_header-IsLine subject) in
    read_line b'F' [] (lit "rom: " ++ sf) r1 from_line
    ∙ ap (consed (lit "From: " ++ sf)) (
        read_line b'T' [] (lit "o: " ++ st) r2 to_line
        ∙ ap (consed (lit "To: " ++ st))
            (read_line b'S' [] (lit "ubject: " ++ ss) r3 subject_line ∙ refl))
