-- ===== src/Notify/Message.antt =====
-- The messages of identity/notify/notifier.go: BuildMessage, sanitizeHeader and ParseRecipients.
pub mod Headers
mod Tests
use terraform_suite_identity.Common.{
  ℕ, Str, lit, nat_eq, trim_space, is_empty, List, [], ◌∷◌, ◌++◌, map, filter, Bool, true, false,
  not, ◌&&◌, ◌||◌, Option, none, some, if◌then◌else◌, Result, ok, err,
}

abbrev pub line_end : Str
line_end = 13 ∷ 10 ∷ []

-- `strings.NewReplacer("\r", "", "\n", "")`
abbrev pub is_line_byte : ℕ → Bool
is_line_byte c = not (nat_eq c 13 || nat_eq c 10)

unfoldable pub sanitize_header : Str → Str
sanitize_header s = filter is_line_byte s

-- `strings.Join`
unfoldable pub join : Str → List Str → Str
join sep [] = []
join sep (s ∷ []) = s
join sep (s ∷ t ∷ ss) = s ++ (sep ++ join sep (t ∷ ss))

unfoldable pub build_message : Str → List Str → Str → Str → Str
unfolding sanitize_header join
build_message from to subject body =
    lit "From: "
    ++ (sanitize_header from
        ++ (line_end
            ++ (lit "To: "
                ++ (join (lit ", ") (map sanitize_header to)
                    ++ (line_end
                        ++ (lit "Subject: "
                            ++ (sanitize_header subject
                                ++ (line_end
                                    ++ (lit "Content-Type: text/plain; charset=utf-8"
                                        ++ (line_end ++ (line_end ++ (body ++ line_end))))))))))))

-- `strings.Split(list, ",")`: the part before the first comma, and the later ones.
unfoldable pub split_list : Str → Str × List Str
split_list [] = ([], [])
split_list (c ∷ s) =
    let (part, parts) = split_list s in
    if nat_eq c b',' then ([], part ∷ parts) else (c ∷ part, parts)

pub data RecipientError : Type 0 where
  invalid_address : Str → RecipientError
  no_recipients : RecipientError

-- The loop, given what `mail.ParseAddress` accepts.
unfoldable pub parse_parts : (Str → Bool) → List Str → Result RecipientError (List Str)
parse_parts is_address [] = ok []
parse_parts is_address (p ∷ parts) =
    let rest = parse_parts is_address parts in
    if is_empty (trim_space p)
    then rest
    else if not (is_address (trim_space p))
    then err (invalid_address (trim_space p))
    else elim rest [ err e ↦ err e | ok addresses ↦ ok (trim_space p ∷ addresses) ]

unfoldable pub parse_recipients : (Str → Bool) → Str → Result RecipientError (List Str)
unfolding parse_parts split_list
parse_recipients is_address list =
    let (part, parts) = split_list list in
    elim (parse_parts is_address (part ∷ parts)) [
      | err e ↦ err e
      | ok addresses ↦ if is_empty addresses then err no_recipients else ok addresses
    ]
