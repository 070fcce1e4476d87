-- ===== src/Disk.antt =====
-- src/infrastructure/binary_storage.cpp: `BinaryFileStorage`, over files that are known by their
-- paths. Which call of the file system fails is up to an oracle; a failed write leaves as many bytes
-- as the oracle says. `reason` is the system's text for the error of a call, by the call's number.
-- `history` records every state that the files pass through, the newest first: it is what a process
-- that starts after a crash of this one finds. `fsync` changes no file here, so that what a loss of
-- power leaves is not told. A file that shrinks while it is read is left out. Paths that lead through
-- links or subdirectories to one file are not told apart; the ids that the service draws have no
-- slash.
pub mod Atomic
pub mod Ensures
pub mod Others
pub mod Healthy
pub mod Keeps
pub mod Published
pub mod Refines
pub mod Simulation
pub mod Staging
pub mod Sweep
pub mod Crash
use secure_file_transfer.Base.{
  ℕ, ◌+◌, ◌-◌, Bool, true, false, not, List, [], ◌∷◌, ◌++◌, ◌||◌, Bytes, codes, is_empty, length,
  take, drop, ltb, if◌then◌else◌, Option, none, some, Exec, pure, raise, continue, Outcome, returns,
  throws, Exception, validation, storage, not_found,
}
use secure_file_transfer.Base.Dict.{Dict, get, put, erase, contains, keys}
use secure_file_transfer.Validator.{starts_with, has_part, ends_with}

pub record Disk : Type 0 where
  pub files : Dict Bytes
  pub calls : ℕ
  pub history : List (Dict Bytes)

-- `root_ + "/" + storageId` and `root_ + "/tmp." + storageId + ".part"`
abbrev pub path : Bytes → Bytes → Bytes
path root name = root ++ (codes "/" ++ name)

abbrev pub part_name : Bytes → Bytes
part_name id = codes "tmp." ++ (id ++ codes ".part")

-- What the file system's calls do.
abbrev pub moved : Bytes → Bytes → Option Bytes → Dict Bytes → Dict Bytes
moved from to none m = m
moved from to (some bytes) m = put to bytes (erase from m)

abbrev pub move : Bytes → Bytes → Dict Bytes → Dict Bytes
move from to m = moved from to (get from m) m

abbrev pub content : Option Bytes → Bytes
content none = []
content (some bytes) = bytes

-- The name of a file right below `root`.
abbrev pub entry : Bytes → Bytes → Option Bytes
entry root p =
    let name = drop (length root + 1) p in
    if not (starts_with (path root []) p)
    then none
    else if has_part (codes "/") name
    then none
    else some name

abbrev pub is_part : Option Bytes → Bool
is_part none = false
is_part (some name) = ends_with name (codes ".part")

infixl 10 ◌>>=◌ ◌>>◌
unfoldable pub ◌>>=◌ : {A B : Type 0} → Exec Disk A → (A → Exec Disk B) → Exec Disk B
◌>>=◌ m f d = let (r, d') = m d in continue r f d'

abbrev pub ◌>>◌ : {A B : Type 0} → Exec Disk A → Exec Disk B → Exec Disk B
m >> n = m >>= λ _. n

module _ (oracle : ℕ → Option ℕ) (reason : ℕ → Bytes) where
  abbrev pub advance : Dict Bytes → Disk → Disk
  advance m d = record { files = m; calls = d.calls + 1; history = m ∷ d.history }

  abbrev pub judged :
      Option ℕ → (Dict Bytes → Dict Bytes) → (ℕ → Dict Bytes → Dict Bytes) → Exec Disk Bool
  judged none good bad d = (returns true, advance (good d.files) d)
  judged (some k) good bad d = (returns false, advance (bad k d.files) d)

  -- A call that does `good`, or fails and does `bad`.
  unfoldable pub attempt_call :
      (Dict Bytes → Dict Bytes) → (ℕ → Dict Bytes → Dict Bytes) → Exec Disk Bool
  attempt_call good bad d = judged (oracle d.calls) good bad d

  -- A call that only reads or flushes.
  abbrev pub plain_call : Exec Disk Bool
  plain_call = attempt_call (λ m. m) (λ k m. m)

  -- `fs::remove(p, ec)`
  abbrev pub remove : Bytes → Exec Disk Bool
  remove p = attempt_call (erase p) (λ k m. m)

  -- Writing to a truncated file; a failure leaves some bytes.
  abbrev pub write_out : Bytes → Bytes → Exec Disk Bool
  write_out p bytes = attempt_call (put p bytes) (λ k. put p (take k bytes))

  abbrev pub open_truncated : Bytes → Exec Disk Bool
  open_truncated p = attempt_call (put p []) (λ k m. m)

  -- `fs::exists(p, ec)`, false if the call fails.
  abbrev pub judged_exists : Option ℕ → Bytes → Exec Disk Bool
  judged_exists none p d = (returns (contains p d.files), advance d.files d)
  judged_exists (some k) p d = (returns false, advance d.files d)

  unfoldable pub exists : Bytes → Exec Disk Bool
  exists p d = judged_exists (oracle d.calls) p d

  abbrev pub ensure_root_exists : Exec Disk Bool
  ensure_root_exists = plain_call

  -- `fs::remove(tmp, ec); throw StorageException(message)`
  abbrev pub abandon : Bytes → Bytes → Exec Disk (Unit {0})
  abandon tmp message = do gone ← remove tmp; raise (storage message)

  -- The same, with the system's text for the call just made.
  abbrev pub abandon_for : Bytes → Bytes → Exec Disk (Unit {0})
  abandon_for tmp message d = abandon tmp (message ++ reason d.calls) d

  -- `fsyncFile` under the `try` of `stagedWrite`
  abbrev pub fsync_file : Bytes → Exec Disk (Unit {0})
  fsync_file tmp = do
    opened ← plain_call
    if not opened then abandon tmp (codes "fsync open file failed: " ++ tmp) else do
      synced ← plain_call
      if not synced then abandon_for tmp (codes "fsync file failed: ") else pure tt

  -- `fsyncDir`, which gives up in silence
  abbrev pub fsync_dir : Exec Disk (Unit {0})
  fsync_dir = do
    opened ← plain_call
    usable ← if opened then pure true else plain_call
    if not usable then pure tt else do synced ← plain_call; pure tt

  -- The first half of `stagedWrite`: the bytes go to `tmp`, and are flushed to the disk.
  unfoldable pub stage : Bytes → Bytes → Exec Disk (Unit {0})
  stage tmp bytes = do
    opened ← open_truncated tmp
    if not opened then abandon tmp (codes "open tmp failed: " ++ tmp) else do
      written ← if is_empty bytes then pure true else write_out tmp bytes
      if not written then abandon tmp (codes "write tmp failed: " ++ tmp) else do
        flushed ← write_out tmp bytes
        if not flushed then abandon tmp (codes "flush tmp failed: " ++ tmp) else do
          closed ← write_out tmp bytes
          if not closed then abandon tmp (codes "close tmp failed: " ++ tmp) else fsync_file tmp

  -- The second half: the old blob is removed, and `tmp` is renamed to it.
  unfoldable pub publish : Bytes → Bytes → Exec Disk (Unit {0})
  publish tmp dst = do
    there ← exists dst
    cleared ← if there then remove dst else pure true
    renamed ← attempt_call (move tmp dst) (λ k m. m)
    if not renamed then abandon_for tmp (codes "rename tmp->dst failed: ") else fsync_dir

  unfoldable pub staged_write : Bytes → Bytes → Bytes → Exec Disk (Unit {0})
  unfolding stage publish
  staged_write root id bytes =
      if is_empty id
      then raise (validation (codes "storageId empty"))
      else if has_part (0 ∷ []) id
      then raise (validation (codes "storageId NUL"))
      else if has_part (codes "..") id
      then raise (validation (codes "storageId traversal"))
      else do
        made ← ensure_root_exists
        stage (path root (part_name id)) bytes
        publish (path root (part_name id)) (path root id)

  abbrev pub write : Bytes → Bytes → Bytes → Exec Disk (Unit {0})
  write root k v = staged_write root k v

  unfoldable pub read : Bytes → Bytes → Exec Disk Bytes
  unfolding exists attempt_call
  read root k = if is_empty k then raise (validation (codes "storageId empty")) else do
    there ← exists (path root k)
    if not there then raise (not_found (codes "missing blob: " ++ k)) else do
      opened ← plain_call
      if not opened then raise (storage (codes "open read failed: " ++ path root k)) else do
        sized ← plain_call
        bytes ← λ d. (returns (content (get (path root k) d.files)), d)
        if not sized || is_empty bytes then pure [] else do
          got ← plain_call
          if not got then raise (storage (codes "read failed: " ++ path root k)) else pure bytes

  unfoldable pub remove_staged : Bytes → Bytes → Exec Disk (Unit {0})
  unfolding attempt_call
  remove_staged root id = if is_empty id then pure tt else do
    tmp_gone ← remove (path root (part_name id))
    dst_gone ← remove (path root id)
    pure tt

  -- The loop of `sweepOrphans` over the paths of the files.
  unfoldable pub sweep : Bytes → List Bytes → Exec Disk ℕ
  sweep root [] = pure 0
  sweep root (p ∷ ps) =
      let rest = sweep root ps in
      if not (is_part (entry root p))
      then rest
      else do gone ← remove p; n ← rest; pure (if gone then n + 1 else n)

  -- `fs::exists` of the directory: whether the call succeeds stands for its answer.
  unfoldable pub sweep_orphans : Bytes → Exec Disk ℕ
  unfolding sweep attempt_call
  sweep_orphans root = do
    there ← plain_call
    if not there then pure 0 else do
      n ← λ d. sweep root (keys d.files) d
      done ← if ltb 0 n then fsync_dir else pure tt
      pure n
