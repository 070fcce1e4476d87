-- ===== src/Audit.antt =====
-- src/infrastructure/hash_chain_file_audit.cpp: `HashChainFileAuditLogger`. The file is the list of
-- its lines; the calls that flush it to the disk are left out, and so is a write that
-- fails, which the code does not notice.
pub mod Chain
pub mod Tamper
pub mod Fields
pub mod Lines
pub mod Append
pub mod Runs
use secure_file_transfer.Base.{
  ℕ, zero, suc, ◌+◌, ◌/◌, ◌%◌, ◌^◌, Bool, true, false, not, ◌&&◌, ◌||◌, List, [], ◌∷◌, ◌++◌, Bytes,
  codes, is_empty, str_eq, length, drop, ltb, ◌==◌, if◌then◌else◌, Option, none, some, Exec, pure,
  raise, lift, gets, ◌>>=◌, ◌>>◌, Outcome, returns, throws, runtime,
}
use secure_file_transfer.Domain.Records.{AuditEvent}
use secure_file_transfer.Domain.Ids.{hex_digit}
use secure_file_transfer.Validator.{starts_with}

-- What the standard library and the hash do: `real_sha256::hex`, `operator<<` of a `uint64_t`, and
-- `std::stoull`, which may throw.
pub record Formats : Type 0 where
  pub sha256_hex : Bytes → Bytes
  pub decimal : ℕ → Bytes
  pub stoull : Bytes → Option ℕ

-- `jsonEscape`, a character at a time
abbrev pub escape_char : ℕ → Bytes
escape_char c =
    if c == 34
    then 92 ∷ (34 ∷ [])
    else if c == 92
    then 92 ∷ (92 ∷ [])
    else if c == 10
    then codes "\\n"
    else if c == 13
    then codes "\\r"
    else if c == 9
    then codes "\\t"
    else if ltb c 32
    then codes "\\u00" ++ (hex_digit (c / 16) ∷ (hex_digit (c % 16) ∷ []))
    else c ∷ []

unfoldable pub json_escape : Bytes → Bytes
json_escape [] = []
json_escape (c ∷ cs) = escape_char c ++ json_escape cs

-- `,"name":"value"`
abbrev pub member : Bytes → Bytes → Bytes
member name value = codes ",\"" ++ (name ++ (codes "\":\"" ++ (json_escape value ++ codes "\"")))

abbrev pub members : Formats → AuditEvent → Bytes
members io e =
    codes "{\"seq\":"
    ++ (io.decimal e.seq
        ++ (member (codes "ts") e.ts
            ++ (member (codes "actor") e.actor
                ++ (member (codes "action") e.action
                    ++ (member (codes "fileId") e.file_id
                        ++ (member (codes "cipherHash") e.cipher_hash
                            ++ member (codes "prevHash") e.prev_hash))))))

unfoldable pub canonical : Formats → AuditEvent → Bytes
canonical io e = members io e ++ codes "}"

-- The line of an event. The hash is not escaped.
unfoldable pub line_of : Formats → AuditEvent → Bytes
line_of io e = members io e ++ (codes ",\"msgHash\":\"" ++ (e.msg_hash ++ codes "\"}"))

-- `l.find(pat)`, then `p += pat.size()`: what follows the first occurrence.
pub after_part : Bytes → Bytes → Option Bytes
after_part pat [] = if is_empty pat then some [] else none
after_part pat (c ∷ cs) =
    let rest = after_part pat cs in
    if starts_with pat (c ∷ cs) then some (drop (length pat) (c ∷ cs)) else rest

-- Up to the closing quote, the first that no backslash precedes.
pub until_quote : ℕ → Bytes → Bytes
until_quote before [] = []
until_quote before (c ∷ cs) =
    let rest = until_quote c cs in if c == 34 && not (before == 92) then [] else c ∷ rest

-- `l.substr(p, l.find(c, p) - p)`, which is all that is left where `c` does not occur.
pub until_char : ℕ → Bytes → Bytes
until_char stop [] = []
until_char stop (c ∷ cs) = let rest = until_char stop cs in if c == stop then [] else c ∷ rest

pub occurs : ℕ → Bytes → Bool
occurs c [] = false
occurs c (x ∷ xs) = x == c || occurs c xs

abbrev until_comma : Bytes → Bytes
until_comma s = if occurs 44 s then until_char 44 s else until_char 125 s

abbrev value_at : Option Bytes → Bytes
value_at none = []
value_at (some []) = until_comma []
value_at (some (c ∷ cs)) = if c == 34 then until_quote 34 cs else until_comma (c ∷ cs)

-- The lambda `get` of `verify` and `getField` of `all`.
unfoldable pub get_field : Bytes → Bytes → Bytes
unfolding after_part until_quote until_char occurs
get_field key line = value_at (after_part (codes "\"" ++ (key ++ codes "\":")) line)

abbrev first_value : Option Bytes → Bytes
first_value none = []
first_value (some []) = until_comma []
first_value (some (c ∷ cs)) = if c == 34 then until_char 34 cs else until_comma (c ∷ cs)

-- The lambda `get` of the constructor, which ends a value at the first quote.
unfoldable pub get_plain : Bytes → Bytes → Bytes
unfolding after_part until_char occurs
get_plain key line = first_value (after_part (codes "\"" ++ (key ++ codes "\":")) line)

abbrev pub number : Option ℕ → ℕ
number none = 0
number (some n) = n

-- The event that a line is read as, with its hash.
unfoldable pub parse : Formats → Bytes → AuditEvent
unfolding get_field
parse io line = record {
  seq = number (io.stoull (get_field (codes "seq") line));
  ts = get_field (codes "ts") line;
  actor = get_field (codes "actor") line;
  action = get_field (codes "action") line;
  file_id = get_field (codes "fileId") line;
  cipher_hash = get_field (codes "cipherHash") line;
  prev_hash = get_field (codes "prevHash") line;
  msg_hash = get_field (codes "msgHash") line;
}

-- `all` reads the same fields, but not the hash of the cipher text.
unfoldable pub all : Formats → List Bytes → List AuditEvent
unfolding parse
all io [] = []
all io (l ∷ ls) = record (parse io l) { cipher_hash = [] } ∷ all io ls

abbrev pub genesis : Bytes
genesis = codes "GENESIS"

abbrev pub corrupted : Bytes
corrupted = codes "CORRUPTED"

-- The loop of `verify`, from an expected previous hash and number on.
unfoldable pub verify_from : Formats → Bytes → ℕ → List Bytes → Bool
unfolding canonical
verify_from io prev expected [] = true
verify_from io prev expected (l ∷ ls) =
    let e = parse io l in
    let skipped = verify_from io prev expected ls in
    let rest = verify_from io e.msg_hash ((expected + 1) % 2 ^ 64) ls in
    if is_empty l
    then skipped
    else if not (e.seq == expected)
    then false
    else if not (str_eq e.prev_hash prev)
    then false
    else if not (str_eq (io.sha256_hex (canonical io (record e { prev_hash = prev }))) e.msg_hash)
    then false
    else rest

unfoldable pub verify : Formats → List Bytes → Bool
verify io ls = verify_from io genesis 1 ls

pub record Log : Type 0 where
  pub lines : List Bytes
  pub last_hash : Bytes
  pub last_seq : ℕ

abbrev last_line : Bytes → List Bytes → Bytes
last_line l [] = l
last_line l (k ∷ ks) = last_line k ks

abbrev or_genesis : Bytes → Bytes
or_genesis h = if is_empty h then genesis else h

abbrev opened : Formats → List Bytes → Bytes → Log
opened io ls last = record {
  lines = ls;
  last_hash = or_genesis (get_plain (codes "msgHash") last);
  last_seq = number (io.stoull (get_plain (codes "seq") last));
}

-- The constructor, over the lines that the file has.
unfoldable pub open_log : Formats → List Bytes → Log
unfolding verify
open_log io [] = record { lines = []; last_hash = genesis; last_seq = 0 }
open_log io (l ∷ ls) =
    if not (verify io (l ∷ ls))
    then record { lines = l ∷ ls; last_hash = corrupted; last_seq = 0 }
    else opened io (l ∷ ls) (last_line l ls)

-- What `record` completes an event to, at the time that `stamp` reads.
abbrev pub completed : Formats → Bytes → AuditEvent → Log → AuditEvent
completed io stamp e log =
    let numbered = record e {
      seq = (log.last_seq + 1) % 2 ^ 64;
      prev_hash = log.last_hash;
      ts = if is_empty e.ts then stamp else e.ts;
    } in
    record numbered { msg_hash = io.sha256_hex (canonical io numbered) }

-- With the dash in UTF-8.
abbrev pub refused : Bytes
refused = codes "audit chain corrupted " ++ (226 ∷ (128 ∷ (148 ∷ codes " refuse to append")))

abbrev pub append_event : Formats → AuditEvent → Log → Log
append_event io e log = record {
  lines = log.lines ++ (line_of io e ∷ []);
  last_hash = e.msg_hash;
  last_seq = e.seq;
}

unfoldable pub record_event : Formats → Bytes → AuditEvent → Exec Log (Unit {0})
unfolding verify
record_event io stamp e log =
    if str_eq log.last_hash corrupted
    then (throws (runtime refused), log)
    else if not (verify io log.lines)
    then (throws (runtime (codes "audit chain verification failed before append")), log)
    else (returns tt, append_event io (completed io stamp e log) log)
