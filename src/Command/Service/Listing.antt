-- ===== src/Command/Service/Listing.antt =====
-- What `execStatus` says of a listing of services.
use monitor_agent.Base.{
  ◌≡◌, refl, ap, ◌∙◌, arith, false, Option, none, some, List, [], ◌∷◌, ◌++◌, All, All-append,
  Bool-cases, inl, inr, Text, lit, text_eq, is_empty, is_space, trim_space, split, words, contains,
  has_prefix, ◌==◌, if◌then◌else◌,
}
use monitor_agent.Base.Strings.Words.{
  IsSolid, IsWord, words-trim_space, words-tab, words-last, split-line, filled_of_words,
}
use monitor_agent.Command.Host.{Host}
use monitor_agent.Command.Cli.{done}
use monitor_agent.Command.Service.{
  service_name, service_status, first_match, status_result, exec_status,
}

-- a service, as `launchctl list` prints it
pub record Row : Type 0 where
  pub pid : Text
  pub exit_code : Text
  pub label : Text

abbrev pub IsRow : Row → Type 0
IsRow r = IsWord r.pid × IsWord r.exit_code × IsWord r.label

abbrev pub print_row : Row → Text
print_row r = r.pid ++ 9 ∷ (r.exit_code ++ 9 ∷ r.label)

-- one line for each service
abbrev pub listing : List Row → Text
listing [] = []
listing (r ∷ rs) = print_row r ++ 10 ∷ listing rs

-- the first service whose line contains the name
unfoldable pub named : List Row → Option Row
named [] = none
named (r ∷ rs) = if contains (print_row r) service_name then some r else named rs

-- what is reported of it
unfoldable pub told : Option Row → Text
told none = lit "not loaded"
told (some r) =
    if text_eq r.pid (lit "-")
    then lit "not running (last exit: " ++ r.exit_code ++ lit ")"
    else lit "running (pid: " ++ r.pid ++ lit ")"

no_line_end : (w : Text) → IsSolid w → All (λ c. (c == 10) ≡ false) w
unfolding is_space
no_line_end [] h = tt
no_line_end (c ∷ w) (h, hs) = (ground (arith, h), no_line_end w hs)

row_on_line : (r : Row) → IsRow r → All (λ c. (c == 10) ≡ false) (print_row r)
row_on_line r ((_, p), (_, e), (_, l)) =
    All-append _ r.pid _ (no_line_end r.pid p)
      (refl, All-append _ r.exit_code _ (no_line_end r.exit_code e) (refl, no_line_end r.label l))

row_words :
    (r : Row) → IsRow r → words (trim_space (print_row r)) ≡ r.pid ∷ r.exit_code ∷ r.label ∷ []
row_words r (p, e, l) =
    words-trim_space (print_row r)
    ∙ words-tab r.pid _ p
    ∙ ap (λ ws. r.pid ∷ ws)
        (words-tab r.exit_code _ e ∙ ap (λ ws. r.exit_code ∷ ws) (words-last r.label l))

-- the text of the status for a matched line
abbrev status_of_line : Text → Text
status_of_line m = if is_empty m then lit "not loaded" else service_status (words m)

status_of_row : (r : Row) → IsRow r → status_of_line (trim_space (print_row r)) ≡ told (some r)
unfolding told service_status
status_of_row r h =
    rw (filled_of_words (trim_space (print_row r)) _ _ (row_words r h), row_words r h) refl

no_lines : status_of_line (first_match (split 10 (listing []))) ≡ lit "not loaded"
unfolding first_match split contains has_prefix lit
no_lines = refl

status_of_listing :
    (rs : List Row)
    → All IsRow rs
    → status_of_line (first_match (split 10 (listing rs))) ≡ told (named rs)
unfolding told named first_match
status_of_listing [] h = no_lines
status_of_listing (r ∷ rs) (h, hs) =
    let lines = split-line 10 (print_row r) (listing rs) (row_on_line r h) in
    elim (Bool-cases (contains (print_row r) service_name)) [
      | inl y ↦ rw (lines, y, first_match) (status_of_row r h)
      | inr n ↦ rw (lines, n, first_match) (status_of_listing rs hs)
    ]

status_result-listing :
    (h : Host) (rs : List Row)
    → All IsRow rs
    → status_result h (listing rs, none) ≡ done (service_name ++ lit ": " ++ told (named rs))
unfolding status_result
status_result-listing h rs r =
    ap (λ (t : Text). done (service_name ++ lit ": " ++ t)) (status_of_listing rs r)

-- If `launchctl list` prints services, one on each line, `execStatus` reports status 2 and tells of the
-- first service whose line contains the name of the gateway: that it runs and its process, or its last
-- exit code; or that it is not loaded, where no line does.
pub exec_status-listing :
    (h : Host) (s : h.State) (rs : List Row)
    → All IsRow rs
    → (h.launchctl (lit "list" ∷ []) s).0 ≡ (listing rs, none)
    → (exec_status h s).0 ≡ done (service_name ++ lit ": " ++ told (named rs))
unfolding exec_status
exec_status-listing h s rs r e = rw e (status_result-listing h rs r)
