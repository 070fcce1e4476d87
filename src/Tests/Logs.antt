-- ===== src/Tests/Logs.antt =====
-- An audit log of one event. The digest of the examples is the text in hexadecimal.
use secure_file_transfer.Base.{
  ℕ, ◌+◌, ◌-◌, ◌≡◌, refl, ◌↔◌, inl, inr, true, false, List, [], ◌∷◌, Bytes, codes, is_empty, zero,
  suc, ap, length, replicate, map, arith, str_eq, Option, none, some, returns,
}
use secure_file_transfer.Domain.Records.{AuditEvent}
use secure_file_transfer.Domain.Ids.{hex_bytes}
use secure_file_transfer.Validator.{starts_with}
use secure_file_transfer.World.{event}
use secure_file_transfer.Audit.{
  Formats, Log, verify, verify_from, line_of, canonical, completed, genesis, parse, get_field,
  json_escape, open_log, all,
}
use secure_file_transfer.Audit.Lines.{IsDecimal}
use secure_file_transfer.Audit.Runs.{record_all, record_all-verify, with_sha256, subject, ArePlain}
use secure_file_transfer.Audit.Chain.{Chained, verify-Chained}
use secure_file_transfer.Audit.Tamper.{Among, texts, verify-tamper}

abbrev digit : Bytes → Option ℕ
digit [] = none
digit (c ∷ []) = some (c - 48)
digit (c ∷ (d ∷ ds)) = none

abbrev io : Formats
io = record { sha256_hex = hex_bytes; decimal = λ n. (48 + n) ∷ []; stoull = digit }

abbrev empty_log : Log
empty_log = record { lines = []; last_hash = genesis; last_seq = 0 }

abbrev entry : AuditEvent
entry = event (codes "u1") (codes "UPLOAD") (codes "f1")

abbrev lines : List Bytes
lines = line_of io (completed io (codes "now") entry empty_log) ∷ []

verified : verify io lines ≡ true
unfolding verify verify_from line_of canonical get_field parse json_escape starts_with hex_bytes
    str_eq is_empty
verified = refl

verify-Chained_example : (verify io lines ≡ true) ↔ Chained io genesis 1 lines
verify-Chained_example = verify-Chained io lines

one_text : (x y t : Bytes) → Among x (t ∷ []) → Among y (t ∷ []) → x ≡ y
one_text x y t (inl p) (inl q) = cc
one_text x y t (inl p) (inr n) = absurd n
one_text x y t (inr n) q = absurd n

no_collision :
    (x y : Bytes)
    → Among x (texts io lines)
    → Among y (texts io lines)
    → hex_bytes x ≡ hex_bytes y
    → x ≡ y
unfolding texts line_of is_empty
no_collision x y p q e =
    one_text x y (canonical io (parse io (line_of io (completed io (codes "now") entry empty_log))))
      p q

verify-tamper_example : texts io lines ≡ texts io lines
verify-tamper_example = verify-tamper io lines lines verified verified no_collision refl

-- A double quote in the name of an actor: the line that is appended is not read back, and the log no
-- longer verifies.
quoted :
    verify io (
      line_of io
        (completed io (codes "now") (event (codes "a\"b") (codes "LOGIN_FAIL") []) empty_log)
      ∷ [])
    ≡ false
unfolding verify verify_from line_of canonical get_field parse json_escape starts_with hex_bytes
    str_eq is_empty
quoted = refl

-- Numbers in unary.
abbrev ones : ℕ → Bytes
ones n = replicate n 49

abbrev count : Bytes → Option ℕ
count s = some (length s)

ones-IsDecimal : (n : ℕ) → IsDecimal (ones n)
ones-IsDecimal zero = tt
ones-IsDecimal (suc n) = ((omega arith, omega arith), ones-IsDecimal n)

ones-count : (n : ℕ) → length (ones n) ≡ n
ones-count zero = refl
ones-count (suc n) = ap suc (ones-count n)

abbrev two_calls : List (Bytes × AuditEvent)
two_calls =
    (codes "10:00", event (codes "u1") (codes "UPLOAD") (codes "f1"))
    ∷ (codes "10:01", event (codes "u2") (codes "DOWNLOAD") (codes "f1"))
    ∷ []

two_calls-ArePlain : ArePlain two_calls
two_calls-ArePlain = (
  record {
    stamp_plain = omega arith;
    ts_plain = tt;
    actor_plain = omega arith;
    action_plain = omega arith;
    file_plain = omega arith;
    cipher_plain = tt;
  },
  (
    record {
      stamp_plain = omega arith;
      ts_plain = tt;
      actor_plain = omega arith;
      action_plain = omega arith;
      file_plain = omega arith;
      cipher_plain = tt;
    },
    tt,
  ),
)

record_all-verify_example :
    let ended =
      record_all (with_sha256 ones count) two_calls (open_log (with_sha256 ones count) []) in
    (ended.0 ≡ returns tt)
    × (verify (with_sha256 ones count) ended.1.lines ≡ true)
    × (open_log (with_sha256 ones count) ended.1.lines ≡ ended.1)
    × (map subject (all (with_sha256 ones count) ended.1.lines)
        ≡ map (λ (c : Bytes × AuditEvent). subject c.1) two_calls)
record_all-verify_example =
    record_all-verify ones count two_calls ones-IsDecimal (λ n h. ap some (ones-count n))
      two_calls-ArePlain
