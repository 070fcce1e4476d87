-- ===== src/Audit/Lines.antt =====
-- A line of the audit log is read back as the event that it was written for.
use secure_file_transfer.Base.{
  ℕ, ◌≤◌, ◌<◌, ◌^◌, ◌≡◌, refl, sym, ap, ◌∙◌, true, false, [], ◌∷◌, ◌++◌, append_assoc, Bytes, codes,
  length, All, some, arith, str_eq, ◌==◌, str_eq_iff, str_eq-cases, str_ne, inl, inr,
}
use secure_file_transfer.Base.Dict.{Dict, get}
use secure_file_transfer.Validator.{starts_with}
use secure_file_transfer.Domain.Records.{AuditEvent}
use secure_file_transfer.Audit.{
  Formats, get_field, get_plain, after_part, line_of, parse, number, value_at, first_value,
  until_comma,
}
use secure_file_transfer.Audit.Fields.{
  IsPlain, IsPlain-Unquoted, json_escape-plain, field, IsName, skip_number, skip_field, find_field,
  until_quote-plain, until_char-stop, occurs-here, Unquoted, pattern_of,
}

-- Digits in the decimal system.
abbrev pub IsDecimal : Bytes → Type 0
IsDecimal s = All (λ c. (48 ≤ c) × (c ≤ 57)) s

-- The members of a line behind its number, and its end.
unfoldable pub fields : Dict Bytes → Bytes
fields [] = 125 ∷ []
fields ((name, v) ∷ ms) = field name v (fields ms)

abbrev pub AreMembers : Dict Bytes → Type 0
AreMembers ms = All (λ (m : Bytes × Bytes). Unquoted m.0 × IsPlain m.1) ms

fields-comma :
    (k v : Bytes) (ms : Dict Bytes) → get k ms ≡ some v → (t : Bytes) × (fields ms ≡ 44 ∷ t)
unfolding get fields
fields-comma k v [] there = absurd cc
fields-comma k v ((name, w) ∷ ms) there =
    (34 ∷ (name ++ 34 ∷ 58 ∷ 34 ∷ (w ++ 34 ∷ fields ms)), refl)

-- The line of a number and members.
abbrev pub line : Bytes → Dict Bytes → Bytes
line digits ms = codes "{\"seq\":" ++ (digits ++ fields ms)

IsDecimal-Unquoted : (s : Bytes) → IsDecimal s → Unquoted s
IsDecimal-Unquoted [] p = tt
IsDecimal-Unquoted (c ∷ cs) (p, ps) = (ground arith, IsDecimal-Unquoted cs ps)

module _ (k : ℕ) (ks : Bytes) (good : IsName (k ∷ ks)) where
  find_member :
      (v : Bytes) (ms : Dict Bytes)
      → AreMembers ms
      → get (k ∷ ks) ms ≡ some v
      → (rest : Bytes) × (after_part (pattern_of k ks good) (fields ms)
          ≡ some (34 ∷ (v ++ 34 ∷ rest)))
  unfolding get fields
  find_member v [] p there = absurd cc
  find_member v ((name, w) ∷ ms) p there = elim (str_eq-cases name (k ∷ ks)) [
    | inl here ↦
        let hit : str_eq name (k ∷ ks) ≡ true = (str_eq_iff name (k ∷ ks)).1 here in
        let found : some w ≡ some v = rw hit at there in
        let same : w ≡ v = cc in (fields ms, rw here (rw same (find_field k ks good v (fields ms))))
    | inr other ↦
        let later : get (k ∷ ks) ms ≡ some v = rw (str_ne name (k ∷ ks) other) at there in
        let (t, comma) = fields-comma (k ∷ ks) v ms later in
        let (rest, found) = find_member v ms p.1 later in
        (
          rest,
          rw comma (
                skip_field k ks good name w t p.0.0 (λ e. other (sym e)) (IsPlain-Unquoted w p.0.1))
              ∙ (ap (after_part (pattern_of k ks good)) (sym comma) ∙ found),
        )
  ]

  find_in_line :
      (v digits : Bytes) (ms : Dict Bytes)
      → IsDecimal digits
      → AreMembers ms
      → ¬ (k ∷ ks ≡ codes "seq")
      → get (k ∷ ks) ms ≡ some v
      → (rest : Bytes) × (after_part (pattern_of k ks good) (line digits ms)
          ≡ some (34 ∷ (v ++ 34 ∷ rest)))
  find_in_line v digits ms d p ne there =
      let (rest, found) = find_member v ms p there in
      (rest, skip_number k ks good digits (fields ms) ne (IsDecimal-Unquoted digits d) ∙ found)

  get_field-member :
      (v digits : Bytes) (ms : Dict Bytes)
      → IsDecimal digits
      → AreMembers ms
      → ¬ (k ∷ ks ≡ codes "seq")
      → get (k ∷ ks) ms ≡ some v
      → IsPlain v
      → get_field (k ∷ ks) (line digits ms) ≡ v
  unfolding get_field
  get_field-member v digits ms d p ne there plain =
      let (rest, found) = find_in_line v digits ms d p ne there in
      rw found (until_quote-plain 34 v rest (omega arith) plain)

  get_plain-member :
      (v digits : Bytes) (ms : Dict Bytes)
      → IsDecimal digits
      → AreMembers ms
      → ¬ (k ∷ ks ≡ codes "seq")
      → get (k ∷ ks) ms ≡ some v
      → IsPlain v
      → get_plain (k ∷ ks) (line digits ms) ≡ v
  unfolding get_plain
  get_plain-member v digits ms d p ne there plain =
      let (rest, found) = find_in_line v digits ms d p ne there in
      rw found (until_char-stop 34 v rest (IsPlain-Unquoted v plain))

-- The number ends at the first comma.
IsDecimal-comma : (s : Bytes) → IsDecimal s → All (λ c. ¬ (c ≡ 44)) s
IsDecimal-comma [] p = tt
IsDecimal-comma (c ∷ cs) (p, ps) = (ground arith, IsDecimal-comma cs ps)

until_comma-decimal :
    (digits t : Bytes) → IsDecimal digits → until_comma (digits ++ 44 ∷ t) ≡ digits
until_comma-decimal digits t d =
    rw (occurs-here 44 digits t) (until_char-stop 44 digits t (IsDecimal-comma digits d))

value_at-decimal :
    (digits t : Bytes)
    → IsDecimal digits
    → (value_at (some (digits ++ 44 ∷ t)) ≡ digits)
      × (first_value (some (digits ++ 44 ∷ t)) ≡ digits)
value_at-decimal [] t d = (until_comma-decimal [] t d, until_comma-decimal [] t d)
value_at-decimal (c ∷ cs) t (d, ds) =
    let figure : (c == 34) ≡ false = ground arith in
    let read = until_comma-decimal (c ∷ cs) t (d, ds) in (rw figure read, rw figure read)

module _ (digits t : Bytes) (d : IsDecimal digits) where
  after_seq :
      after_part (codes "\"seq\":") (codes "{\"seq\":" ++ (digits ++ 44 ∷ t))
      ≡ some (digits ++ 44 ∷ t)
  unfolding after_part starts_with
  after_seq = refl

  get_field-seq : get_field (codes "seq") (codes "{\"seq\":" ++ (digits ++ 44 ∷ t)) ≡ digits
  unfolding get_field
  get_field-seq = ap value_at after_seq ∙ (value_at-decimal digits t d).0

  get_plain-seq : get_plain (codes "seq") (codes "{\"seq\":" ++ (digits ++ 44 ∷ t)) ≡ digits
  unfolding get_plain
  get_plain-seq = ap first_value after_seq ∙ (value_at-decimal digits t d).1

pub record Works (io : Formats) : Type 0 where
  -- What the hash and the decimal numbers are made of, and that these are read back.
  pub hash_plain : (s : Bytes) → IsPlain (io.sha256_hex s)
  pub hash_size : (s : Bytes) → length (io.sha256_hex s) ≡ 64
  pub decimal_digits : (n : ℕ) → IsDecimal (io.decimal n)
  pub reads_decimal : (n : ℕ) → n < 2 ^ 64 → io.stoull (io.decimal n) ≡ some n

-- An event whose texts stand in its line as they are.
pub record Fits (e : AuditEvent) : Type 0 where
  pub small_seq : e.seq < 2 ^ 64
  pub plain_ts : IsPlain e.ts
  pub plain_actor : IsPlain e.actor
  pub plain_action : IsPlain e.action
  pub plain_file : IsPlain e.file_id
  pub plain_cipher : IsPlain e.cipher_hash
  pub plain_prev : IsPlain e.prev_hash
  pub plain_hash : IsPlain e.msg_hash

abbrev pub members_of : AuditEvent → Dict Bytes
members_of e =
    (codes "ts", e.ts)
    ∷ (codes "actor", e.actor)
    ∷ (codes "action", e.action)
    ∷ (codes "fileId", e.file_id)
    ∷ (codes "cipherHash", e.cipher_hash)
    ∷ (codes "prevHash", e.prev_hash)
    ∷ (codes "msgHash", e.msg_hash)
    ∷ []

module _ (io : Formats) (works : Works io) (e : AuditEvent) (fit : Fits e) where
  line_of-line : line_of io e ≡ line (io.decimal e.seq) (members_of e)
  unfolding line_of fields
  line_of-line =
      rw
        (
          json_escape-plain e.ts fit.plain_ts,
          json_escape-plain e.actor fit.plain_actor,
          json_escape-plain e.action fit.plain_action,
          json_escape-plain e.file_id fit.plain_file,
          json_escape-plain e.cipher_hash fit.plain_cipher,
          json_escape-plain e.prev_hash fit.plain_prev,
        )
        (simp append_assoc)

  members_of-AreMembers : AreMembers (members_of e)
  members_of-AreMembers = (
    (omega arith, fit.plain_ts),
    (
      (omega arith, fit.plain_actor),
      (
        (omega arith, fit.plain_action),
        (
          (omega arith, fit.plain_file),
          (
            (omega arith, fit.plain_cipher),
            ((omega arith, fit.plain_prev), ((omega arith, fit.plain_hash), tt)),
          ),
        ),
      ),
    ),
  )

  -- A member whose name is not that of the number.
  pub read_member :
      (k : ℕ) (ks v : Bytes)
      → IsName (k ∷ ks)
      → str_eq (k ∷ ks) (codes "seq") ≡ false
      → get (k ∷ ks) (members_of e) ≡ some v
      → IsPlain v
      → (get_field (k ∷ ks) (line_of io e) ≡ v) × (get_plain (k ∷ ks) (line_of io e) ≡ v)
  read_member k ks v good ne there plain =
      let digits = io.decimal e.seq in
      let d = works.decimal_digits e.seq in
      let ne' : ¬ (k ∷ ks ≡ codes "seq") = λ q. cc (ne, (str_eq_iff (k ∷ ks) (codes "seq")).1 q) in
      let all = members_of-AreMembers in
      (
        rw line_of-line (get_field-member k ks good v digits (members_of e) d all ne' there plain),
        rw line_of-line (get_plain-member k ks good v digits (members_of e) d all ne' there plain),
      )

  pub read_seq :
      (get_field (codes "seq") (line_of io e) ≡ io.decimal e.seq)
      × (get_plain (codes "seq") (line_of io e) ≡ io.decimal e.seq)
  unfolding get str_eq
  read_seq =
      let (t, comma) = fields-comma (codes "ts") e.ts (members_of e) refl in
      let digits = io.decimal e.seq in
      let d = works.decimal_digits e.seq in
      (
        rw (line_of-line, comma) (get_field-seq digits t d),
        rw (line_of-line, comma) (get_plain-seq digits t d),
      )

  pub parse-line_of : parse io (line_of io e) ≡ e
  unfolding parse get str_eq
  parse-line_of =
      let read =
        λ (k : ℕ) (ks v : Bytes) (good : IsName (k ∷ ks))
            (ne : str_eq (k ∷ ks) (codes "seq") ≡ false)
            (there : get (k ∷ ks) (members_of e) ≡ some v) (plain : IsPlain v).
          (read_member k ks v good ne there plain).0 in
      let seq : number (io.stoull (get_field (codes "seq") (line_of io e))) ≡ e.seq =
        rw (read_seq.0, works.reads_decimal e.seq fit.small_seq) refl in
      let ts = read b't' (codes "s") e.ts (omega arith) refl refl fit.plain_ts in
      let actor = read b'a' (codes "ctor") e.actor (omega arith) refl refl fit.plain_actor in
      let action = read b'a' (codes "ction") e.action (omega arith) refl refl fit.plain_action in
      let file = read b'f' (codes "ileId") e.file_id (omega arith) refl refl fit.plain_file in
      let cipher =
        read b'c' (codes "ipherHash") e.cipher_hash (omega arith) refl refl fit.plain_cipher in
      let prev = read b'p' (codes "revHash") e.prev_hash (omega arith) refl refl fit.plain_prev in
      let hash = read b'm' (codes "sgHash") e.msg_hash (omega arith) refl refl fit.plain_hash in
      λ i. record {
        seq = seq i;
        ts = ts i;
        actor = actor i;
        action = action i;
        file_id = file i;
        cipher_hash = cipher i;
        prev_hash = prev i;
        msg_hash = hash i;
      }
