-- ===== src/Audit/Runs.antt =====
-- An audit log over many calls of `record`, from an empty file on, with SHA-256 as its hash.
use secure_file_transfer.Base.{
  ℕ, ◌<◌, ◌^◌, ◌≡◌, refl, sym, ap, ◌∙◌, true, List, [], ◌∷◌, ◌++◌, append_assoc, append-nil, map,
  Bytes, str_eq, All, arith, inl, inr, Option, some, returns, Exec, pure, ◌>>◌,
}
use secure_file_transfer.Domain.Records.{AuditEvent}
use secure_file_transfer.Audit.{
  Formats, Log, verify, verify_from, open_log, record_event, all, parse, line_of, append_event,
  completed,
}
use secure_file_transfer.Audit.Fields.{IsPlain}
use secure_file_transfer.Audit.Lines.{Works, IsDecimal}
use secure_file_transfer.Audit.Append.{
  IsPlainCall, Follows, append_event-Follows, record_event-appended, done-parse, tip,
}
use secure_file_transfer.Sha256.{hex}
use secure_file_transfer.Sha256.Digest.{IsHexDigit, hex-digest}

-- The formats of the program: SHA-256, with what the standard library does to numbers.
abbrev pub with_sha256 : (ℕ → Bytes) → (Bytes → Option ℕ) → Formats
with_sha256 decimal stoull = record { sha256_hex = hex; decimal = decimal; stoull = stoull }

IsHexDigit-IsPlain : (s : Bytes) → All IsHexDigit s → IsPlain s
IsHexDigit-IsPlain [] d = tt
IsHexDigit-IsPlain (c ∷ cs) (inl d, ds) =
    ((omega arith, omega arith, omega arith), IsHexDigit-IsPlain cs ds)
IsHexDigit-IsPlain (c ∷ cs) (inr d, ds) =
    ((omega arith, omega arith, omega arith), IsHexDigit-IsPlain cs ds)

pub Works-with_sha256 :
    (decimal : ℕ → Bytes) (stoull : Bytes → Option ℕ)
    → ((n : ℕ) → IsDecimal (decimal n))
    → ((n : ℕ) → n < 2 ^ 64 → stoull (decimal n) ≡ some n)
    → Works (with_sha256 decimal stoull)
Works-with_sha256 decimal stoull digits reads = record {
  hash_plain = λ s. IsHexDigit-IsPlain (hex s) (hex-digest s s).2;
  hash_size = λ s. (hex-digest s s).1;
  decimal_digits = digits;
  reads_decimal = reads;
}

-- Calls of `record`, each with the time that it would write.
unfoldable pub record_all : Formats → List (Bytes × AuditEvent) → Exec Log (Unit {0})
record_all io [] = pure tt
record_all io ((stamp, e) ∷ cs) = record_event io stamp e >> record_all io cs

-- Who did what, and to which file.
abbrev pub subject : AuditEvent → Bytes × Bytes × Bytes
subject e = (e.actor, e.action, e.file_id)

abbrev pub ArePlain : List (Bytes × AuditEvent) → Type 0
ArePlain cs = All (λ (c : Bytes × AuditEvent). IsPlainCall c.0 c.1) cs

all-append :
    (io : Formats) (ls : List Bytes) (l : Bytes)
    → map subject (all io (ls ++ l ∷ [])) ≡ map subject (all io ls) ++ subject (parse io l) ∷ []
unfolding all
all-append io [] l = refl
all-append io (k ∷ ks) l = ap (◌∷◌ (subject (parse io k))) (all-append io ks l)

module _ (io : Formats) (works : Works io) where
  record_all-Follows :
      (cs : List (Bytes × AuditEvent)) (log : Log)
      → ArePlain cs
      → Follows io log
      → ((record_all io cs log).0 ≡ returns tt)
        × Follows io (record_all io cs log).1
        × (map subject (all io (record_all io cs log).1.lines)
            ≡ map subject (all io log.lines) ++ map (λ c. subject c.1) cs)
  unfolding record_all
  record_all-Follows [] log plain follows =
      (refl, follows, sym (append-nil (map subject (all io log.lines))))
  record_all-Follows ((stamp, e) ∷ cs) log (p, ps) follows =
      let log' = append_event io (completed io stamp e log) log in
      let step = record_event-appended io works stamp e log p follows in
      let follows' : Follows io log' = append_event-Follows io works stamp e log p follows in
      let (done, after, read) = record_all-Follows cs log' ps follows' in
      let entry : subject (parse io (line_of io (completed io stamp e log))) ≡ subject e =
        ap subject (done-parse io works stamp e log p follows) in
      let before = map subject (all io log.lines) in
      let others = map (λ (c : Bytes × AuditEvent). subject c.1) cs in
      let read' : map subject (all io log'.lines) ++ others ≡ before ++ subject e ∷ others =
        ap (λ t. t ++ others) (all-append io log.lines (line_of io (completed io stamp e log)))
        ∙ rw entry (append_assoc before (subject e ∷ []) others) in
      rw step (done, after, read ∙ read')

open_log-Follows : (io : Formats) → Follows io (open_log io [])
unfolding open_log tip verify verify_from str_eq
open_log-Follows io = record {
  verified = refl;
  last = refl;
  next = refl;
  plain_last = omega arith;
  sound = refl;
  reopened = refl;
}

-- Opened on an empty file, with SHA-256 and a decimal form of numbers that is read back: calls of
-- `record`, as many as there are, with texts that hold no quote, no backslash and no control
-- character, all return. The file then verifies, an object that opens it anew has the same state,
-- and `all` lists who did what to which file, in the order of the calls.
pub record_all-verify :
    (decimal : ℕ → Bytes) (stoull : Bytes → Option ℕ) (cs : List (Bytes × AuditEvent))
    → ((n : ℕ) → IsDecimal (decimal n))
    → ((n : ℕ) → n < 2 ^ 64 → stoull (decimal n) ≡ some n)
    → ArePlain cs
    → let io = with_sha256 decimal stoull in
      let ended = record_all io cs (open_log io []) in
      (ended.0 ≡ returns tt)
      × (verify io ended.1.lines ≡ true)
      × (open_log io ended.1.lines ≡ ended.1)
      × (map subject (all io ended.1.lines) ≡ map (λ c. subject c.1) cs)
unfolding open_log all
record_all-verify decimal stoull cs digits reads plain =
    let io = with_sha256 decimal stoull in
    let (done, follows, read) =
      record_all-Follows io (Works-with_sha256 decimal stoull digits reads) cs (open_log io [])
        plain (open_log-Follows io) in
    (done, follows.verified, follows.reopened, read)
