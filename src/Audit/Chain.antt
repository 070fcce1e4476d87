-- ===== src/Audit/Chain.antt =====
-- What a verified audit log is, and what one call of `record` adds to it.
use secure_file_transfer.Base.{
  ℕ, ◌+◌, ◌%◌, ◌^◌, ◌≡◌, refl, sym, ap, ◌∙◌, ◌↔◌, Bool, true, false, ◌&&◌, List, [], ◌∷◌, ◌++◌, inl,
  inr, Bool-cases, arith, Bytes, is_empty, str_eq, str_eq_iff, ◌==◌, ==_iff, returns, throws,
  Exception,
}
use secure_file_transfer.Domain.Records.{AuditEvent}
use secure_file_transfer.Audit.{
  Formats, Log, parse, canonical, verify, verify_from, line_of, genesis, record_event, completed,
}

-- The lines of a log from an expected previous hash and number on: every line that is not empty is
-- read as an event with that number and that previous hash, and its hash is that of its canonical
-- text. The next line is expected to follow it.
pub data Chained (io : Formats) : Bytes → ℕ → List Bytes → Type 0 where
  ended : {prev : Bytes} {n : ℕ} → Chained io prev n []
  blank :
      {prev l : Bytes} {n : ℕ} {ls : List Bytes}
      → is_empty l ≡ true
      → Chained io prev n ls
      → Chained io prev n (l ∷ ls)
  linked :
      {prev l : Bytes} {n : ℕ} {ls : List Bytes}
      → is_empty l ≡ false
      → (parse io l).seq ≡ n
      → (parse io l).prev_hash ≡ prev
      → io.sha256_hex (canonical io (parse io l)) ≡ (parse io l).msg_hash
      → Chained io (parse io l).msg_hash ((n + 1) % 2 ^ 64) ls
      → Chained io prev n (l ∷ ls)

-- The test of one line.
abbrev pub fits : Formats → Bytes → ℕ → Bytes → Bool
fits io prev n l =
    let e = parse io l in
    e.seq == n
    && (str_eq e.prev_hash prev
        && str_eq (io.sha256_hex (canonical io (record e { prev_hash = prev }))) e.msg_hash)

pub verify-blank :
    (io : Formats) (prev : Bytes) (n : ℕ) (l : Bytes) (ls : List Bytes)
    → is_empty l ≡ true
    → verify_from io prev n (l ∷ ls) ≡ verify_from io prev n ls
unfolding verify_from
verify-blank io prev n l ls e = rw e refl

pub verify-event :
    (io : Formats) (prev : Bytes) (n : ℕ) (l : Bytes) (ls : List Bytes)
    → is_empty l ≡ false
    → verify_from io prev n (l ∷ ls)
      ≡ (fits io prev n l && verify_from io (parse io l).msg_hash ((n + 1) % 2 ^ 64) ls)
unfolding verify_from
verify-event io prev n l ls e = ground arith

canonical-own :
    (io : Formats) (e : AuditEvent) (prev : Bytes)
    → e.prev_hash ≡ prev
    → canonical io (record e { prev_hash = prev }) ≡ canonical io e
canonical-own io e prev same = ap (λ h. canonical io (record e { prev_hash = h })) (sym same)

-- The canonical text is that of the event as it was read.
pub fits_iff :
    (io : Formats) (prev : Bytes) (n : ℕ) (l : Bytes)
    → (fits io prev n l ≡ true) ↔ (
        ((parse io l).seq ≡ n)
        × ((parse io l).prev_hash ≡ prev)
        × (io.sha256_hex (canonical io (parse io l)) ≡ (parse io l).msg_hash))
fits_iff io prev n l =
    let e = parse io l in
    let same = str_eq_iff e.prev_hash prev in
    let own = canonical-own io e prev in
    let number = ==_iff e.seq n in
    let hash =
      str_eq_iff (io.sha256_hex (canonical io (record e { prev_hash = prev }))) e.msg_hash in
    ground arith

verify_sound :
    (io : Formats) (prev : Bytes) (n : ℕ) (ls : List Bytes)
    → verify_from io prev n ls ≡ true
    → Chained io prev n ls
verify_sound io prev n [] e = ended
verify_sound io prev n (l ∷ ls) e = elim (Bool-cases (is_empty l)) [
  | inl skipped ↦
      blank skipped (verify_sound io prev n ls (sym (verify-blank io prev n l ls skipped) ∙ e))
  | inr read ↦
      let both = sym (verify-event io prev n l ls read) ∙ e in
      let (seq, prev_hash, hash) = (fits_iff io prev n l).0 (ground arith) in
      linked read seq prev_hash hash
        (verify_sound io (parse io l).msg_hash ((n + 1) % 2 ^ 64) ls (ground arith))
]

verify_complete :
    (io : Formats) {prev : Bytes} {n : ℕ} {ls : List Bytes}
    → Chained io prev n ls
    → verify_from io prev n ls ≡ true
unfolding verify_from
verify_complete io ended = refl
verify_complete io (blank {prev} {l} {n} {ls} e c) =
    verify-blank io prev n l ls e ∙ verify_complete io c
verify_complete io (linked {prev} {l} {n} {ls} e seq prev_hash hash c) =
    let fit = (fits_iff io prev n l).1 (seq, prev_hash, hash) in
    verify-event io prev n l ls e ∙ rw (fit, verify_complete io c) refl

-- `verify` accepts a log exactly if its lines form a chain from the genesis hash and number 1 on.
pub verify-Chained :
    (io : Formats) (ls : List Bytes) → (verify io ls ≡ true) ↔ Chained io genesis 1 ls
unfolding verify
verify-Chained io ls = (verify_sound io genesis 1 ls, verify_complete io)

-- A call of `record` that returns found a verified log and appended one line to it, that of the
-- event with the next number, the hash of the last event, and the hash of its own canonical text. A
-- call that throws changes nothing.
pub record_event-appends :
    (io : Formats) (stamp : Bytes) (e : AuditEvent) (log : Log)
    → ((record_event io stamp e log).0 ≡ returns tt
        → (verify io log.lines ≡ true)
          × ((record_event io stamp e log).1.lines
              ≡ log.lines ++ (line_of io (completed io stamp e log) ∷ []))
          × ((record_event io stamp e log).1.last_hash
              ≡ io.sha256_hex (canonical io (completed io stamp e log)))
          × ((record_event io stamp e log).1.last_seq ≡ (log.last_seq + 1) % 2 ^ 64))
      × ((x : Exception)
          → (record_event io stamp e log).0 ≡ throws x
          → (record_event io stamp e log).1 ≡ log)
unfolding record_event canonical
record_event-appends io stamp e log = (λ h. ground arith, λ x h. ground arith)
