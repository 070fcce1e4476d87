-- ===== src/Audit/Append.antt =====
-- An audit log that follows from its file, and what a call of `record` with plain texts does to it.
use secure_file_transfer.Base.{
  ℕ, ◌+◌, ◌%◌, ◌^◌, ◌≡◌, refl, sym, ap, subst, ◌∙◌, true, false, List, [], ◌∷◌, ◌++◌, Bytes, codes,
  length, is_empty, str_eq, str_ne, arith, Bool-cases, inl, inr, if◌then◌else◌, returns,
}
use secure_file_transfer.Base.Dict.{get}
use secure_file_transfer.Domain.Records.{AuditEvent}
use secure_file_transfer.Audit.{
  Formats, Log, parse, canonical, verify, verify_from, line_of, genesis, corrupted, record_event,
  completed, open_log, opened, last_line, or_genesis, get_plain, number, append_event,
}
use secure_file_transfer.Audit.Chain.{verify-blank, verify-event, fits, fits_iff}
use secure_file_transfer.Audit.Fields.{IsPlain}
use secure_file_transfer.Audit.Lines.{Works, Fits, parse-line_of, read_member, read_seq}

-- The hash and the number that `verify` expects behind these lines.
unfoldable pub tip : Formats → Bytes → ℕ → List Bytes → Bytes × ℕ
tip io prev n [] = (prev, n)
tip io prev n (l ∷ ls) =
    tip io (if is_empty l then prev else (parse io l).msg_hash)
      (if is_empty l then n else (n + 1) % 2 ^ 64) ls

tip-blank :
    (io : Formats) (prev : Bytes) (n : ℕ) (l : Bytes) (ls : List Bytes)
    → is_empty l ≡ true
    → tip io prev n (l ∷ ls) ≡ tip io prev n ls
unfolding tip
tip-blank io prev n l ls e = rw e refl

tip-event :
    (io : Formats) (prev : Bytes) (n : ℕ) (l : Bytes) (ls : List Bytes)
    → is_empty l ≡ false
    → tip io prev n (l ∷ ls) ≡ tip io (parse io l).msg_hash ((n + 1) % 2 ^ 64) ls
unfolding tip
tip-event io prev n l ls e = rw e refl

tip-append :
    (io : Formats) (prev : Bytes) (n : ℕ) (ls : List Bytes) (l : Bytes)
    → is_empty l ≡ false
    → tip io prev n (ls ++ l ∷ []) ≡ ((parse io l).msg_hash, ((tip io prev n ls).1 + 1) % 2 ^ 64)
unfolding tip
tip-append io prev n [] l e = rw e refl
tip-append io prev n (k ∷ ks) l e =
    tip-append io (if is_empty k then prev else (parse io k).msg_hash)
      (if is_empty k then n else (n + 1) % 2 ^ 64) ks l e

verify_from-append :
    (io : Formats) (prev : Bytes) (n : ℕ) (ls : List Bytes) (l : Bytes)
    → is_empty l ≡ false
    → verify_from io prev n ls ≡ true
    → fits io (tip io prev n ls).0 (tip io prev n ls).1 l ≡ true
    → verify_from io prev n (ls ++ l ∷ []) ≡ true
unfolding tip verify_from
verify_from-append io prev n [] l e v fit = verify-event io prev n l [] e ∙ rw fit refl
verify_from-append io prev n (k ∷ ks) l e v fit =
    let fits_at = λ (t : Bytes × ℕ). fits io t.0 t.1 l ≡ true in
    elim (Bool-cases (is_empty k)) [
      | inl skipped ↦
          verify-blank io prev n k (ks ++ l ∷ []) skipped
          ∙ verify_from-append io prev n ks l e (sym (verify-blank io prev n k ks skipped) ∙ v)
              (subst fits_at (tip-blank io prev n k ks skipped) fit)
      | inr read ↦
          let both = sym (verify-event io prev n k ks read) ∙ v in
          let rest =
            verify_from-append io (parse io k).msg_hash ((n + 1) % 2 ^ 64) ks l e (ground arith)
              (subst fits_at (tip-event io prev n k ks read) fit) in
          verify-event io prev n k (ks ++ l ∷ []) read ∙ rw rest (ground arith)
    ]

-- The event, and the time that would be written, are texts that stand in a line as they are.
pub record IsPlainCall (stamp : Bytes) (e : AuditEvent) : Type 0 where
  pub stamp_plain : IsPlain stamp
  pub ts_plain : IsPlain e.ts
  pub actor_plain : IsPlain e.actor
  pub action_plain : IsPlain e.action
  pub file_plain : IsPlain e.file_id
  pub cipher_plain : IsPlain e.cipher_hash

-- What a log knows of its file: that it verifies, what comes next, and what a new object that opens
-- the file would know.
pub record Follows (io : Formats) (log : Log) : Type 0 where
  pub verified : verify io log.lines ≡ true
  pub last : (tip io genesis 1 log.lines).0 ≡ log.last_hash
  pub next : (tip io genesis 1 log.lines).1 ≡ (log.last_seq + 1) % 2 ^ 64
  pub plain_last : IsPlain log.last_hash
  pub sound : str_eq log.last_hash corrupted ≡ false
  pub reopened : open_log io log.lines ≡ log

last_line-append : (k l : Bytes) (ks : List Bytes) → last_line k (ks ++ l ∷ []) ≡ l
last_line-append k l [] = refl
last_line-append k l (j ∷ js) = last_line-append j l js

open_log-append :
    (io : Formats) (ls : List Bytes) (l : Bytes)
    → verify io (ls ++ l ∷ []) ≡ true
    → open_log io (ls ++ l ∷ []) ≡ opened io (ls ++ l ∷ []) l
unfolding open_log
open_log-append io [] l v = rw v refl
open_log-append io (k ∷ ks) l v = rw (v, last_line-append k l ks) refl

-- A hash is neither empty nor the mark of a corrupted file.
hash_sound : (s : Bytes) → length s ≡ 64 → (is_empty s ≡ false) × (str_eq s corrupted ≡ false)
unfolding is_empty
hash_sound [] size = absurd (omega arith)
hash_sound (c ∷ cs) size =
    (refl, str_ne (c ∷ cs) corrupted (λ q. omega (arith, ap (λ (t : Bytes). length t) q)))

module _ (io : Formats) (works : Works io) (stamp : Bytes) (e : AuditEvent) (log : Log)
    (plain : IsPlainCall stamp e) (follows : Follows io log) where
  abbrev pub done : AuditEvent
  done = completed io stamp e log

  written_ts : IsPlain done.ts
  written_ts = elim (Bool-cases (is_empty e.ts)) [
    | inl missing ↦ rw missing plain.stamp_plain
    | inr given ↦ rw given plain.ts_plain
  ]

  done-Fits : Fits done
  done-Fits = record {
    small_seq = omega arith;
    plain_ts = written_ts;
    plain_actor = plain.actor_plain;
    plain_action = plain.action_plain;
    plain_file = plain.file_plain;
    plain_cipher = plain.cipher_plain;
    plain_prev = follows.plain_last;
    plain_hash = works.hash_plain (canonical io (record done { msg_hash = e.msg_hash }));
  }

  pub done-parse : parse io (line_of io done) ≡ done
  done-parse = parse-line_of io works done done-Fits

  line-is_empty : is_empty (line_of io done) ≡ false
  unfolding line_of is_empty
  line-is_empty = refl

  done-fits :
      fits io (tip io genesis 1 log.lines).0 (tip io genesis 1 log.lines).1 (line_of io done) ≡ true
  unfolding canonical
  done-fits =
      rw (follows.last, follows.next)
        ((fits_iff io log.last_hash ((log.last_seq + 1) % 2 ^ 64) (line_of io done)).1
          (rw done-parse (refl, refl, refl)))

  appended-verify : verify io (log.lines ++ line_of io done ∷ []) ≡ true
  unfolding verify
  appended-verify =
      verify_from-append io genesis 1 log.lines (line_of io done) line-is_empty follows.verified
        done-fits

  done-hash : (is_empty done.msg_hash ≡ false) × (str_eq done.msg_hash corrupted ≡ false)
  done-hash =
      hash_sound done.msg_hash
        (works.hash_size (canonical io (record done { msg_hash = e.msg_hash })))

  appended-reopened : open_log io (log.lines ++ line_of io done ∷ []) ≡ append_event io done log
  unfolding get str_eq
  appended-reopened =
      let stored =
        (read_member io works done done-Fits b'm' (codes "sgHash") done.msg_hash (omega arith) refl
          refl (works.hash_plain (canonical io (record done { msg_hash = e.msg_hash })))).1 in
      let hash : or_genesis (get_plain (codes "msgHash") (line_of io done)) ≡ done.msg_hash =
        rw stored (rw done-hash.0 refl) in
      let seq : number (io.stoull (get_plain (codes "seq") (line_of io done))) ≡ done.seq =
        rw ((read_seq io works done done-Fits).1, works.reads_decimal done.seq (omega arith))
          refl in
      open_log-append io log.lines (line_of io done) appended-verify ∙ λ i. record {
        lines = log.lines ++ line_of io done ∷ [];
        last_hash = hash i;
        last_seq = seq i;
      }

  appended-tip :
      tip io genesis 1 (log.lines ++ line_of io done ∷ [])
      ≡ (done.msg_hash, (done.seq + 1) % 2 ^ 64)
  appended-tip =
      tip-append io genesis 1 log.lines (line_of io done) line-is_empty
      ∙ rw (follows.next, done-parse) refl

  pub append_event-Follows : Follows io (append_event io done log)
  append_event-Follows = record {
    verified = appended-verify;
    last = ap (λ (t : Bytes × ℕ). t.0) appended-tip;
    next = ap (λ (t : Bytes × ℕ). t.1) appended-tip;
    plain_last = done-Fits.plain_hash;
    sound = done-hash.1;
    reopened = appended-reopened;
  }

  pub record_event-appended : record_event io stamp e log ≡ (returns tt, append_event io done log)
  unfolding record_event
  record_event-appended = rw (follows.sound, follows.verified) refl

  -- A call of `record` with plain texts on a log that follows from its file returns, and the log
  -- follows from its file again.
  pub record_event-Follows :
      ((record_event io stamp e log).0 ≡ returns tt) × Follows io (record_event io stamp e log).1
  record_event-Follows = rw record_event-appended (refl, append_event-Follows)
