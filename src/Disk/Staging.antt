-- ===== src/Disk/Staging.antt =====
-- What `stagedWrite` keeps while it fills the `.part` file, for a property that neither a write to
-- that file nor its removal can break.
use secure_file_transfer.Base.{
  ℕ, true, Bytes, Option, storage, ◌++◌, take, codes, is_empty, not, [],
}
use secure_file_transfer.Base.Dict.{Dict, put, erase}
use secure_file_transfer.Disk.{
  plain_call, remove, write_out, open_truncated, abandon, abandon_for, fsync_file, fsync_dir, stage,
}
use secure_file_transfer.Disk.Keeps.{
  Keeps, Keeps-pure, Keeps-raise, Keeps-bind, Keeps-if, Keeps-attempt_call,
}

module _ (P Q : Dict Bytes → Type 0) (oracle : ℕ → Option ℕ) (reason : ℕ → Bytes)
    (watched : (m : Dict Bytes) → P m → Q m) where
  pub Keeps-plain_call : Keeps P Q (plain_call oracle reason)
  Keeps-plain_call =
      Keeps-attempt_call P Q oracle reason (λ m. m) (λ k m. m) watched (λ m h. h) (λ k m h. h)

  pub Keeps-fsync_dir : Keeps P Q (fsync_dir oracle reason)
  Keeps-fsync_dir = Keeps-bind P Q _ _ Keeps-plain_call (λ opened.
      Keeps-bind P Q _ _ (Keeps-if P Q opened _ _ (Keeps-pure P Q true) Keeps-plain_call) (λ usable.
        Keeps-if P Q (not usable) _ _ (Keeps-pure P Q tt)
          (Keeps-bind P Q _ _ Keeps-plain_call (λ synced. Keeps-pure P Q tt))))

  module _ (tmp : Bytes) (erased : (m : Dict Bytes) → P m → P (erase tmp m)) where
    pub Keeps-remove : Keeps P Q (remove oracle reason tmp)
    Keeps-remove =
        Keeps-attempt_call P Q oracle reason (erase tmp) (λ k m. m) watched erased (λ k m h. h)

    pub Keeps-abandon : (message : Bytes) → Keeps P Q (abandon oracle reason tmp message)
    Keeps-abandon message =
        Keeps-bind P Q _ _ Keeps-remove (λ gone. Keeps-raise P Q _ (storage message))

    pub Keeps-abandon_for : (message : Bytes) → Keeps P Q (abandon_for oracle reason tmp message)
    unfolding Keeps
    Keeps-abandon_for message d = Keeps-abandon (message ++ reason d.calls) d

    pub Keeps-fsync_file : Keeps P Q (fsync_file oracle reason tmp)
    Keeps-fsync_file = Keeps-bind P Q _ _ Keeps-plain_call (λ opened.
        Keeps-if P Q (not opened) _ _ (Keeps-abandon (codes "fsync open file failed: " ++ tmp)) (
          Keeps-bind P Q _ _ Keeps-plain_call (λ synced.
            Keeps-if P Q (not synced) _ _ (Keeps-abandon_for (codes "fsync file failed: "))
              (Keeps-pure P Q tt))))

    module _ (written : (bytes : Bytes) (m : Dict Bytes) → P m → P (put tmp bytes m)) where
      pub Keeps-write_out : (bytes : Bytes) → Keeps P Q (write_out oracle reason tmp bytes)
      Keeps-write_out bytes =
          Keeps-attempt_call P Q oracle reason (put tmp bytes) (λ k. put tmp (take k bytes)) watched
            (written bytes) (λ k. written (take k bytes))

      pub Keeps-open_truncated : Keeps P Q (open_truncated oracle reason tmp)
      Keeps-open_truncated =
          Keeps-attempt_call P Q oracle reason (put tmp []) (λ k m. m) watched (written [])
            (λ k m h. h)

      pub Keeps-stage : (bytes : Bytes) → Keeps P Q (stage oracle reason tmp bytes)
      unfolding stage
      Keeps-stage bytes = Keeps-bind P Q _ _ Keeps-open_truncated (λ opened.
          Keeps-if P Q (not opened) _ _ (Keeps-abandon (codes "open tmp failed: " ++ tmp)) (
            Keeps-bind P Q _ _
              (Keeps-if P Q (is_empty bytes) _ _ (Keeps-pure P Q true) (Keeps-write_out bytes))
              (λ written.
                Keeps-if P Q (not written) _ _ (Keeps-abandon (codes "write tmp failed: " ++ tmp)) (
                  Keeps-bind P Q _ _ (Keeps-write_out bytes) (λ flushed.
                    Keeps-if P Q (not flushed) _ _
                      (Keeps-abandon (codes "flush tmp failed: " ++ tmp))
                      (Keeps-bind P Q _ _ (Keeps-write_out bytes) (λ closed.
                        Keeps-if P Q (not closed) _ _
                          (Keeps-abandon (codes "close tmp failed: " ++ tmp))
                          Keeps-fsync_file)))))))
