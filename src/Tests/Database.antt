-- ===== src/Tests/Database.antt =====
-- The repositories over a small database of one table, whose first column is its key.
use secure_file_transfer.Base.{
  ℕ, zero, suc, ◌<◌, ◌≡◌, refl, ap, true, false, Bool, ◌||◌, if◌then◌else◌, List, [], ◌∷◌, ◌++◌,
  Bytes, codes, Option, none, some, All, replicate, length, str_eq, returns, throws, validation,
  arith, ◌/◌, ◌%◌, ◌*◌, ◌+◌, ◌-◌, ltb, get_or,
}
use secure_file_transfer.Domain.Ids.{hex_digit}
use secure_file_transfer.Domain.Records.{FileRecord, default_alg}
use secure_file_transfer.Users.{failed_once}
use secure_file_transfer.Sqlite.{
  Sqlite, Value, text_value, int_value, bound_text, c_str, column, Code, step_done, step_constraint,
  text_or, insert, exec,
}
use secure_file_transfer.Sqlite.Insert.{Lawful, insert-commits}
use secure_file_transfer.Sqlite.Files.{Numbers}
use secure_file_transfer.Sqlite.RoundTrip.{NumbersWork, RowFits}
use secure_file_transfer.Sqlite.Users
use secure_file_transfer.Sqlite.Accounts.{record_login_failure-failed_once}
use secure_file_transfer.Tests.Setup.{bob}

abbrev pub Row : Type 0
Row = List Value

pub record Small : Type 0 where
  pub table : List Row
  pub saved : List Row
  pub inside : Bool

has_key : Row → List Row → Bool
has_key values [] = false
has_key values (row ∷ rows) =
    str_eq (text_or [] (column 0 row)) (text_or [] (column 0 values)) || has_key values rows

-- BEGIN outside a transaction, COMMIT and ROLLBACK inside one; anything else of these is an error.
abbrev refusal : Small → Option Bytes × Small
refusal d = (some (codes "no transaction"), d)

abbrev pub run : Bytes → Small → Option Bytes × Small
run sql d =
    if str_eq sql (codes "BEGIN IMMEDIATE;")
    then (if d.inside then refusal d else (none, record d { inside = true }))
    else if str_eq sql (codes "COMMIT;")
    then (if d.inside
        then (none, record { table = d.table; saved = d.table; inside = false })
        else refusal d)
    else if str_eq sql (codes "ROLLBACK;")
    then (if d.inside
        then (none, record { table = d.saved; saved = d.saved; inside = false })
        else refusal d)
    else (none, d)

-- A statement outside a transaction commits what it does.
abbrev pub stepped : Bool → Row → Small → Code × Small
stepped true values d = (step_constraint, d)
stepped false values d =
    let grown = d.table ++ (values ∷ []) in
    (
      step_done,
      record { table = grown; saved = if d.inside then d.saved else grown; inside = d.inside },
    )

abbrev db : Sqlite Small
db = record {
  run_sql = run;
  prepares = λ sql d. true;
  step = λ sql values d. stepped (has_key values d.table) values d;
  changes = λ d. 1;
  rows = λ sql values d. d.table;
}

pub stepped-done :
    (b : Bool) (values : Row) (d : Small)
    → (stepped b values d).0 ≡ step_done
    → (stepped b values d).1.table ≡ d.table ++ values ∷ []
stepped-done true values d e = absurd cc
stepped-done false values d e = refl

pub stepped-saved :
    (b : Bool) (values : Row) (d : Small)
    → d.inside ≡ true
    → ((stepped b values d).1.saved ≡ d.saved) × ((stepped b values d).1.inside ≡ true)
stepped-saved true values d e = (refl, e)
stepped-saved false values d e = (rw e refl, e)

pub stepped-autocommits :
    (b : Bool) (values : Row) (d : Small)
    → d.inside ≡ false
    → (stepped b values d).0 ≡ step_done
    → (stepped b values d).1.saved ≡ (stepped b values d).1.table
stepped-autocommits true values d e done = absurd cc
stepped-autocommits false values d e done = rw e refl

-- What is documented of BEGIN, COMMIT and ROLLBACK.
pub run-begins :
    (d : Small)
    → d.inside ≡ false
    → run (codes "BEGIN IMMEDIATE;") d ≡ (none, record d { inside = true })
unfolding str_eq
run-begins d e = rw e refl

pub run-commits :
    (d : Small)
    → d.inside ≡ true
    → run (codes "COMMIT;") d ≡ (none, record { table = d.table; saved = d.table; inside = false })
unfolding str_eq
run-commits d e = rw e refl

pub run-rolls_back :
    (d : Small)
    → d.inside ≡ true
    → run (codes "ROLLBACK;") d
      ≡ (none, record { table = d.saved; saved = d.saved; inside = false })
unfolding str_eq
run-rolls_back d e = rw e refl

-- Any small database whose statement is refused by some test.
pub tested-Lawful :
    (refuses : Row → Small → Bool) (sql : Bytes) (changes : Small → ℕ)
    (rows : Bytes → List Value → Small → List Row)
    → Lawful
        (record {
          run_sql = run;
          prepares = λ s d. true;
          step = λ s values d. stepped (refuses values d) values d;
          changes = changes;
          rows = rows;
        })
        sql
        (λ d. d.inside)
        (λ d. d.table)
        (λ d. d.saved)
tested-Lawful refuses sql changes rows = record {
  begins = λ d outside e. rw (run-begins d outside) (refl, refl, refl);
  inserts = λ values d. stepped-done (refuses values d) values d;
  keeps_saved = λ values d inside code. stepped-saved (refuses values d) values d inside;
  autocommits = λ values d. stepped-autocommits (refuses values d) values d;
  commits = λ d inside e. rw (run-commits d inside) (refl, refl, refl);
  rolls_back = λ d inside e. rw (run-rolls_back d inside) (refl, refl, refl);
}

small-Lawful : Lawful db (codes "INSERT") (λ d. d.inside) (λ d. d.table) (λ d. d.saved)
small-Lawful =
    tested-Lawful (λ values d. has_key values d.table) (codes "INSERT") (λ d. 1)
      (λ sql values d. d.table)

abbrev first_row : Row
first_row = text_value (codes "k1") ∷ (int_value 1 ∷ [])

abbrev second_row : Row
second_row = text_value (codes "k2") ∷ (int_value 2 ∷ [])

abbrev holding : Small
holding = record { table = first_row ∷ []; saved = first_row ∷ []; inside = false }

inserts : (insert db (codes "INSERT") second_row (codes "taken") holding).0 ≡ returns tt
unfolding insert exec has_key str_eq
inserts = refl

insert-commits_example :
    let d' = (insert db (codes "INSERT") second_row (codes "taken") holding).1 in
    (d'.table ≡ first_row ∷ (second_row ∷ []))
    × (d'.saved ≡ d'.table)
    × (d'.inside ≡ false)
    × ((db.step
          (codes "INSERT")
          second_row
          (db.run_sql (codes "BEGIN IMMEDIATE;") holding).1).1.saved
        ≡ first_row ∷ [])
insert-commits_example =
    insert-commits db (codes "INSERT") (λ d. d.inside) (λ d. d.table) (λ d. d.saved) small-Lawful
      second_row (codes "taken") holding refl inserts

refuses :
    (insert db (codes "INSERT") first_row (codes "taken") holding).0
    ≡ throws (validation (codes "taken"))
unfolding insert exec has_key str_eq
refuses = refl

-- A user with four failures, who fails again.
abbrev accounts : Sqlite Small
accounts = record db {
  step = λ sql values d. (step_done, d);
  rows = λ sql values d. (int_value bob.failed_attempts ∷ (int_value bob.lockout_until ∷ [])) ∷ [];
}

records : (Users.record_login_failure accounts bob.id 10 holding).0 ≡ returns tt
unfolding Users.record_login_failure Users.change exec str_eq
records = refl

record_login_failure-failed_once_example :
    let u' = failed_once 10 bob in
    let written =
      accounts.step Users.set_failures_sql
        (int_value u'.failed_attempts ∷ (int_value u'.lockout_until ∷ (bound_text bob.id ∷ [])))
        (run (codes "BEGIN IMMEDIATE;") holding).1 in
    (written.0 ≡ step_done)
    × (accounts.changes written.1 ≡ 1)
    × ((Users.record_login_failure accounts bob.id 10 holding).1
        ≡ (run (codes "COMMIT;") written.1).1)
record_login_failure-failed_once_example =
    record_login_failure-failed_once accounts bob 10 [] holding refl records

-- Numbers in unary, and hexadecimal digits by their codes.
abbrev digit_value : ℕ → ℕ
digit_value c = if ltb c 58 then c - 48 else c - 87

abbrev pair_value : Bytes → Option ℕ
pair_value [] = none
pair_value (a ∷ rest) = some (digit_value a * 16 + digit_value (get_or rest 0 0))

abbrev pub small_numbers : Numbers
small_numbers = record {
  stoi_hex = pair_value;
  to_string = λ n. replicate n 49;
  stoll = λ s. some (length s);
}

digit-value : (n : ℕ) → n < 16 → digit_value (hex_digit n) ≡ n
unfolding hex_digit
digit-value n h = ground arith

pair-value :
    (b : ℕ) → b < 256 → pair_value (hex_digit (b / 16) ∷ (hex_digit (b % 16) ∷ [])) ≡ some b
pair-value b h =
    rw (digit-value (b / 16) (omega arith), digit-value (b % 16) (omega arith))
      (ap some (omega arith))

ones-text : (n : ℕ) → c_str (replicate n 49) ≡ replicate n 49
unfolding c_str
ones-text zero = refl
ones-text (suc n) = ap (◌∷◌ 49) (ones-text n)

length-ones : (n : ℕ) → length {A = ℕ} (replicate n 49) ≡ n
length-ones zero = refl
length-ones (suc n) = ap suc (length-ones n)

pub small-NumbersWork : NumbersWork small_numbers
small-NumbersWork = record {
  reads_hex = pair-value;
  reads_decimal = λ n h. ap some (length-ones n);
  decimal_text = ones-text;
}

All-below : (n : ℕ) → All (λ b. b < 256) (replicate n 171)
All-below zero = tt
All-below (suc n) = (omega arith, All-below n)

abbrev pub small_file : FileRecord
small_file = record {
  id = codes "f9";
  owner = codes "u1";
  orig_name = codes "b.pdf";
  storage_id = codes "s9";
  size = 2;
  digest = replicate 32 171;
  wrapped = record {
    recipient_id = codes "u2";
    nonce = replicate 12 5;
    bytes = replicate 64 6;
    alg = default_alg;
  };
  recipient = codes "u2";
  upload_id = codes "up9";
  created_at = 10;
}

pub small_file-RowFits : RowFits small_numbers small-NumbersWork small_file
unfolding c_str
small_file-RowFits = record {
  id_text = refl;
  owner_text = refl;
  recipient_text = refl;
  name_text = refl;
  storage_text = refl;
  upload_text = refl;
  digest_size = refl;
  digest_bytes = All-below 32;
  time_fits = omega arith;
  key_recipient = refl;
  key_alg = refl;
}
