-- ===== src/Syslog/Parse/RoundTrip.antt =====
-- `syslog.Parse` reads what `forward.Format` writes.
use hannah_logcollector.Prelude.{
  ℕ, zero, suc, ◌+◌, ◌%◌, ◌*◌, ℤ, ◌<◌, ◌≡◌, ◌≢◌, refl, inl, inr, ◌∙◌, Bool, true, false, List, not,
  ◌&&◌, [], ◌∷◌, ◌++◌, append_assoc, Option, some, arith, All, Bool-cases,
}
use hannah_logcollector.Text.{
  Bytes, codes, is_empty, equal, index_byte, has_prefix, trim_prefix, trim_breaks,
}
use hannah_logcollector.Proto.{Proto}
use hannah_logcollector.Store.{Source, Entry}
use hannah_logcollector.Forward.Format.Bounds.{IsPrintable, name_field_lem}
use hannah_logcollector.Text.Laws.{Lacks, cut-append}
use hannah_logcollector.Text.Decimal.{itoa, atoi}
use hannah_logcollector.Time.{format_ms, format_ms-Lacks}
use hannah_logcollector.Forward.Format.{
  format, text, severity, facility_local0, max_hostname, max_app_name, name_field, escape_param,
  escape_byte, sd_id, element, param, has_category, structured_data,
}
use hannah_logcollector.Syslog.Parse.{
  inside, skip_from, skip_structured_data, fields, priority, parse, message_time, nil_value,
  byte_order_mark,
}

skip_from-escape_byte :
    (c : ℕ) (s : Bytes)
    → is_empty s ≡ false
    → skip_from (inside true) (escape_byte c ++ s) ≡ skip_from (inside true) s
unfolding skip_from
skip_from-escape_byte c s h = ground arith

is_empty-append : (v : Bytes) (c : ℕ) (s : Bytes) → is_empty (v ++ c ∷ s) ≡ false
is_empty-append [] c s = refl
is_empty-append (x ∷ v) c s = refl

-- In quotes, an escaped text is passed over, whatever it holds.
skip_from-escape_param :
    (v : Bytes) (s : Bytes)
    → skip_from (inside true) (escape_param v ++ b'"' ∷ s) ≡ skip_from (inside false) s
unfolding escape_param
skip_from-escape_param [] s = unfold skip_from in refl
skip_from-escape_param (c ∷ v) s = rw (append_assoc (escape_byte c) (escape_param v) (b'"' ∷ s)) (
    skip_from-escape_byte c _ (is_empty-append (escape_param v) b'"' s)
    ∙ skip_from-escape_param v s)

-- A byte that means nothing outside quotes.
abbrev IsPlain : ℕ → Type 0
IsPlain c = (c ≢ b'\\') × (c ≢ b'"') × (c ≢ b']')

skip_from_plain :
    (v s : Bytes) → All IsPlain v → skip_from (inside false) (v ++ s) ≡ skip_from (inside false) s
unfolding skip_from
skip_from_plain [] s h = refl
skip_from_plain (c ∷ v) s (hc, hv) = ground (arith, skip_from_plain v s hv)

-- A parameter is passed over, whatever its value.
skip_from-param :
    (present : Bool) (key value s : Bytes)
    → All IsPlain key
    → skip_from (inside false) (param present key value ++ s) ≡ skip_from (inside false) s
skip_from-param false key value s h = refl
skip_from-param true key value s h =
    rw
      (
        append_assoc key (b'=' ∷ b'"' ∷ (escape_param value ++ b'"' ∷ [])) s,
        append_assoc (escape_param value) (b'"' ∷ []) s,
      )
      (skip_from_plain (b' ' ∷ key) _ ((omega arith), h)
        ∙ unfold skip_from in skip_from-escape_param value s)

skip_open : (s : Bytes) → skip_structured_data (b'[' ∷ s) ≡ skip_from (inside false) s
unfolding skip_structured_data
skip_open s = refl

skip_close : (s : Bytes) → skip_from (inside false) (b']' ∷ b' ' ∷ s) ≡ some (b' ' ∷ s)
unfolding skip_from
skip_close s = refl

skip_from-element :
    (a b c : Bool) (x y z s : Bytes)
    → skip_structured_data (
        element
          (param a (codes "category") x)
          (param b (codes "logger") y)
          (param c (codes "name") z)
        ++ b' ' ∷ s)
      ≡ some (b' ' ∷ s)
skip_from-element a b c x y z s =
    let category = param a (codes "category") x in
    let logger = param b (codes "logger") y in
    let name = param c (codes "name") z in
    rw
      (
        append_assoc category (logger ++ (name ++ b']' ∷ [])) (b' ' ∷ s),
        append_assoc logger (name ++ b']' ∷ []) (b' ' ∷ s),
        append_assoc name (b']' ∷ []) (b' ' ∷ s),
      )
      (skip_open _
        ∙ skip_from_plain sd_id _ (omega arith)
        ∙ skip_from-param a (codes "category") x _ (omega arith)
        ∙ skip_from-param b (codes "logger") y _ (omega arith)
        ∙ skip_from-param c (codes "name") z _ (omega arith)
        ∙ skip_close s)

-- The structured data of a forwarded message is passed over as a whole, whatever the logger, the
-- name and the category's name hold.
pub skip_structured_data-structured_data :
    (p : Proto) (e : Entry) (name : Bytes) (s : Bytes)
    → skip_structured_data (structured_data p e name ++ b' ' ∷ s) ≡ some (b' ' ∷ s)
unfolding structured_data
skip_structured_data-structured_data p e name s =
    let absent = not (has_category p e) && is_empty e.logger && is_empty name in
    elim (Bool-cases absent) [
      | inl none_at_all ↦ rw none_at_all (unfold skip_structured_data in refl)
      | inr some_at_least ↦ rw some_at_least (skip_from-element _ _ _ _ _ _ s)
    ]

-- A header field that ends at its space is read as it stands.
fields-zero : (s : Bytes) → fields zero s ≡ some ([], s)
unfolding fields
fields-zero s = refl

fields_step :
    (n : ℕ) (field s : Bytes) {others : List Bytes} {rest : Bytes}
    → Lacks b' ' field
    → fields n s ≡ some (others, rest)
    → fields (suc n) (field ++ b' ' ∷ s) ≡ some (field ∷ others, rest)
unfolding fields
fields_step n field s lacks h = rw (cut-append field b' ' s lacks, h)

IsPrintable-Lacks : (s : Bytes) → All IsPrintable s → Lacks b' ' s
IsPrintable-Lacks [] h = tt
IsPrintable-Lacks (c ∷ s) (hc, hs) = (omega arith, IsPrintable-Lacks s hs)

name_field-Lacks : (s : Bytes) (limit : ℕ) → 0 < limit → Lacks b' ' (name_field s limit)
name_field-Lacks s limit h = IsPrintable-Lacks (name_field s limit) (name_field_lem s limit h).1

abbrev prefixed : ℕ → Bytes → Bytes
prefixed n rest = b'<' ∷ (itoa (facility_local0 * 8 + n) ++ b'>' ∷ rest)

priority_table :
    (rest : Bytes)
    → (priority (prefixed 2 rest) ≡ some (130, rest))
      × (priority (prefixed 3 rest) ≡ some (131, rest))
      × (priority (prefixed 4 rest) ≡ some (132, rest))
      × (priority (prefixed 6 rest) ≡ some (134, rest))
      × (priority (prefixed 7 rest) ≡ some (135, rest))
unfolding priority atoi itoa index_byte has_prefix
priority_table rest = (refl, refl, refl, refl, refl)

-- The priority of a forwarded message is read back, and gives the entry's severity.
priority-severity :
    (p : Proto) (level : ℤ) (rest : Bytes)
    → (priority (prefixed (severity p level) rest) ≡ some (128 + severity p level, rest))
      × ((128 + severity p level) % 8 ≡ severity p level)
unfolding severity
priority-severity p level rest = ground (arith, priority_table rest)

-- The header of a forwarded message, behind the priority.
abbrev header_text : Bytes → Bytes → Bytes → Bytes → Bytes
header_text time host app rest =
    b'1' ∷ b' ' ∷ (time ++ b' ' ∷ (host ++ b' ' ∷ (app ++ b' ' ∷ b'-' ∷ b' ' ∷ b'-' ∷ b' ' ∷ rest)))

fields-header_text :
    (time host app rest : Bytes)
    → Lacks b' ' time
    → Lacks b' ' host
    → Lacks b' ' app
    → fields 6 (header_text time host app rest)
      ≡ some ((b'1' ∷ []) ∷ time ∷ host ∷ app ∷ (b'-' ∷ []) ∷ (b'-' ∷ []) ∷ [], rest)
fields-header_text time host app rest ht hh ha = fields_step 5 (b'1' ∷ []) _ (omega arith) (
    fields_step 4 time _ ht (
      fields_step 3 host _ hh (
        fields_step 2 app _ ha (
          fields_step 1 (b'-' ∷ []) _ (omega arith)
            (fields_step 0 (b'-' ∷ []) rest (omega arith) (fields-zero rest))))))

-- A forwarded message is one that the collector's own receiver reads: the severity of the entry's
-- level, the timestamp as it was printed, the instance as hostname, the component as app name, and
-- the text. A name that is "-" counts as missing there, and a byte order mark in front of the text
-- goes.
pub parse-format :
    (parse_time : Bytes → Option ℤ) (p : Proto) (e : Entry) (src : Source) (name : Bytes)
    → parse parse_time (format p e src name)
      ≡ some (record {
        severity = severity p e.level;
        time = message_time parse_time (format_ms e.timestamp_ms);
        hostname = nil_value (name_field src.instance_name max_hostname);
        app_name = nil_value (name_field src.component max_app_name);
        text = trim_breaks (trim_prefix (text e.message) byte_order_mark);
      })
unfolding parse format equal
parse-format parse_time p e src name =
    let time = format_ms e.timestamp_ms in
    let host = name_field src.instance_name max_hostname in
    let app = name_field src.component max_app_name in
    let rest = structured_data p e name ++ b' ' ∷ text e.message in
    let (read, back) = priority-severity p e.level (header_text time host app rest) in
    let split =
      fields-header_text time host app rest (format_ms-Lacks e.timestamp_ms)
        (name_field-Lacks src.instance_name max_hostname (omega arith))
        (name_field-Lacks src.component max_app_name (omega arith)) in
    rw (read, split, skip_structured_data-structured_data p e name (text e.message), back)
