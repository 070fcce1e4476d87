-- ===== src/Disk/Published.antt =====
-- Where a staged write ends, and the states that it passes through.
use secure_file_transfer.Base.{
  ℕ, ◌≡◌, refl, sym, Bool, true, false, Bytes, Option, none, some, codes, [], ◌∷◌, ◌++◌, inl, inr,
  is_empty, not, arith, returns, Option-cases, str_eq_iff,
}
use secure_file_transfer.Base.Dict.{Dict, get, erase, get-put_ne, get-erase, get-put_self}
use secure_file_transfer.Validator.{has_part}
use secure_file_transfer.Disk.{
  Disk, path, part_name, move, plain_call, exists, fsync_file, fsync_dir, stage, publish,
  staged_write,
}
use secure_file_transfer.Disk.Keeps.{Keeps}
use secure_file_transfer.Disk.Staging.{Keeps-plain_call, Keeps-fsync_dir}
use secure_file_transfer.Disk.Ensures.{
  Files, Ensures, Keeps-Ensures, Ensures-pure, Ensures-raise, Ensures-run, Ensures-bind, Ensures-if,
  Ensures-then, Ensures-attempt_call, Ensures-abandon, Ensures-abandon_for,
}
use secure_file_transfer.Disk.Crash.{path_ne, erase_ne}

module _ (oracle : ℕ → Option ℕ) (reason : ℕ → Bytes) where
  module _ (tmp bytes : Bytes) where
    abbrev pub Full : Unit {0} → Files
    Full u m = get tmp m ≡ some bytes

    Ensures-fsync_file : Ensures (Full tt) Full (fsync_file oracle reason tmp)
    Ensures-fsync_file =
        let quiet : Keeps (Full tt) (λ m. Unit {0}) (plain_call oracle reason) =
          Keeps-plain_call (Full tt) (λ m. Unit {0}) oracle reason (λ m h. tt) in
        let still : Ensures (Full tt) (λ b. Full tt) (plain_call oracle reason) =
          Keeps-Ensures (Full tt) _ quiet in
        Ensures-bind (Full tt) (λ b. Full tt) Full _ _ still
          (λ opened.
            Ensures-if (not opened) (Full tt) Full _ _
              (λ h.
                Ensures-abandon oracle reason (Full tt) Full tmp
                  (codes "fsync open file failed: " ++ tmp))
              (λ h.
                Ensures-bind (Full tt) (λ b. Full tt) Full _ _ still
                  (λ synced.
                    Ensures-if (not synced) (Full tt) Full _ _
                      (λ h.
                        Ensures-abandon_for oracle reason (Full tt) Full tmp
                          (codes "fsync file failed: "))
                      (λ h. Ensures-pure Full tt))))

    abbrev Closed : Bool → Files
    Closed b m = b ≡ true → get tmp m ≡ some bytes

    after_close :
        (closed : Bool)
        → not closed ≡ false
        → Ensures (Closed closed) Full (fsync_file oracle reason tmp)
    unfolding Ensures
    after_close true h d p = Ensures-fsync_file d (p refl)
    after_close false h d p = absurd cc

    -- A stage that returns has filled the `.part` file.
    pub Ensures-stage : Ensures (λ m. Unit {0}) Full (stage oracle reason tmp bytes)
    unfolding stage
    Ensures-stage = Ensures-then _ Full _ _ (λ opened.
        Ensures-if (not opened) _ Full _ _
          (λ h. Ensures-abandon oracle reason _ Full tmp (codes "open tmp failed: " ++ tmp))
          (λ h. Ensures-then _ Full _ _ (λ written.
            Ensures-if (not written) _ Full _ _
              (λ h. Ensures-abandon oracle reason _ Full tmp (codes "write tmp failed: " ++ tmp))
              (λ h. Ensures-then _ Full _ _ (λ flushed.
                Ensures-if (not flushed) _ Full _ _
                  (λ h.
                    Ensures-abandon oracle reason _ Full tmp (codes "flush tmp failed: " ++ tmp))
                  (λ h.
                    Ensures-bind _ Closed Full _ _
                      (Ensures-attempt_call oracle reason _ Closed _ _
                        (λ m u h. get-put_self tmp bytes m) (λ k m u h. absurd cc))
                      (λ closed.
                        Ensures-if (not closed) _ Full _ _
                          (λ h.
                            Ensures-abandon oracle reason _ Full tmp
                              (codes "close tmp failed: " ++ tmp))
                          (λ h. after_close closed h))))))))

  module _ (tmp dst bytes : Bytes) (apart : ¬ (tmp ≡ dst)) where
    abbrev pub Placed : Unit {0} → Files
    Placed u m = (get dst m ≡ some bytes) × (get tmp m ≡ none)

    abbrev Renamed : Bool → Files
    Renamed b m = b ≡ true → (get dst m ≡ some bytes) × (get tmp m ≡ none)

    move-Placed : (m : Dict Bytes) → get tmp m ≡ some bytes → Placed tt (move tmp dst m)
    move-Placed m full = rw full (
      get-put_self dst bytes (erase tmp m),
      rw (get-put_ne dst tmp bytes (erase tmp m) (λ e. apart (sym e)))
          (ground (arith, get-erase tmp tmp m, str_eq_iff tmp tmp)),
    )

    erase-Full : (m : Dict Bytes) → get tmp m ≡ some bytes → get tmp (erase dst m) ≡ some bytes
    erase-Full m full = rw (erase_ne dst tmp m (λ e. apart (sym e))) full

    Ensures-exists : Ensures (Full tmp bytes tt) (λ b. Full tmp bytes tt) (exists oracle reason dst)
    unfolding Ensures exists
    Ensures-exists d p a e = elim (Option-cases (oracle d.calls)) [
      | inl ok ↦ rw ok p
      | inr (k, failed) ↦ rw failed p
    ]

    after_rename :
        (renamed : Bool)
        → not renamed ≡ false
        → Ensures (Renamed renamed) Placed (fsync_dir oracle reason)
    unfolding Ensures
    after_rename true h d p u e =
        Keeps-Ensures (Placed tt) _
          (Keeps-fsync_dir (Placed tt) (λ m. Unit {0}) oracle reason (λ m h. tt)) d (p refl) u e
    after_rename false h d p u e = absurd cc

    Ensures-publish : Ensures (Full tmp bytes tt) Placed (publish oracle reason tmp dst)
    unfolding publish
    Ensures-publish =
        Ensures-bind _ (λ b. Full tmp bytes tt) Placed _ _ Ensures-exists
          (λ there.
            Ensures-bind _ (λ b. Full tmp bytes tt) Placed _ _
              (Ensures-if there _ (λ b. Full tmp bytes tt) _ _
                (λ h.
                  Ensures-attempt_call oracle reason _ (λ b. Full tmp bytes tt) _ _ erase-Full
                    (λ k m full. full))
                (λ h. Ensures-pure (λ b. Full tmp bytes tt) true))
              (λ cleared.
                Ensures-bind _ Renamed Placed _ _
                  (Ensures-attempt_call oracle reason _ Renamed _ _ (λ m full h. move-Placed m full)
                    (λ k m full h. absurd cc))
                  (λ renamed.
                    Ensures-if (not renamed) _ Placed _ _
                      (λ h.
                        Ensures-abandon_for oracle reason _ Placed tmp
                          (codes "rename tmp->dst failed: "))
                      (λ h. after_rename renamed h))))

  module _ (root id bytes : Bytes) where
    Ensures-staged_write :
        Ensures
          (λ m. Unit {0})
          (Placed (path root (part_name id)) (path root id) bytes (path_ne root id))
          (staged_write oracle reason root id bytes)
    unfolding staged_write
    Ensures-staged_write =
        let tmp = path root (part_name id) in
        let placed = Placed tmp (path root id) bytes (path_ne root id) in
        Ensures-if (is_empty id) _ placed _ _ (λ h. Ensures-raise _ placed _)
          (λ h.
            Ensures-if (has_part (0 ∷ []) id) _ placed _ _ (λ h. Ensures-raise _ placed _)
              (λ h.
                Ensures-if (has_part (codes "..") id) _ placed _ _ (λ h. Ensures-raise _ placed _)
                  (λ h. Ensures-then _ placed _ _ (λ made.
                    Ensures-bind _ (Full tmp bytes) placed _ _ (Ensures-stage tmp bytes)
                      (λ staged. Ensures-publish tmp (path root id) bytes (path_ne root id))))))

    -- A staged write that returns has put the bytes under the name of the blob, and has left no
    -- `.part` file.
    pub staged_write-placed :
        (d : Disk)
        → (staged_write oracle reason root id bytes d).0 ≡ returns tt
        → let m = (staged_write oracle reason root id bytes d).1.files in
          (get (path root id) m ≡ some bytes) × (get (path root (part_name id)) m ≡ none)
    staged_write-placed = λ d e. Ensures-run _ _ _ Ensures-staged_write (λ m. tt) d e
