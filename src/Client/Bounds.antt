-- ===== src/Client/Bounds.antt =====
-- The loops of the client: how many rounds are enough, and where there are never enough.
use secure_file_transfer.Base.{
  ℕ, zero, suc, ◌+◌, ◌-◌, ◌≤◌, ◌<◌, ◌≡◌, refl, true, false, [], Bytes, length, ltb, ltb→lt, le→ltb,
  returns, arith, Bool-cases, inl, inr, str_eq,
}
use Prim.Native.Nat.{min}
use secure_file_transfer.Client.{Host, Client}
use secure_file_transfer.Client.Upload.{upload_chunks, chunk_size}
use secure_file_transfer.Client.Menu.{round, rounds}

module _ {N : Type 0} (h : Host N) where
  -- As many rounds as there are bytes left are enough for the loop over the chunks: with more it does
  -- the same.
  pub upload_chunks-enough :
      (k m : ℕ) (id cipher : Bytes) (offset : ℕ)
      → length cipher - offset ≤ k
      → length cipher - offset ≤ m
      → upload_chunks h k id cipher offset ≡ upload_chunks h m id cipher offset
  unfolding upload_chunks
  upload_chunks-enough zero zero id cipher offset low high = refl
  upload_chunks-enough zero (suc m) id cipher offset low high =
      rw (le→ltb offset (length cipher) (omega arith)) refl
  upload_chunks-enough (suc k) zero id cipher offset low high =
      rw (le→ltb offset (length cipher) (omega arith)) refl
  upload_chunks-enough (suc k) (suc m) id cipher offset low high =
      elim (Bool-cases (ltb offset (length cipher))) [
        | inl more ↦
            let left : offset < length cipher = ltb→lt offset (length cipher) more in
            let n = min chunk_size (length cipher - offset) in
            let rest =
              upload_chunks-enough k m id cipher (offset + n) (omega arith) (omega arith) in
            rw rest refl
        | inr finished ↦ rw finished refl
      ]

  round-idle : (c : Client N) → c.lines ≡ [] → round h c ≡ (returns true, c)
  unfolding round str_eq
  round-idle c none_left = rw none_left refl

  -- At the end of the input the menu goes round for ever: however many rounds it is given, the loop
  -- has not ended, and nothing has changed.
  pub rounds-idle : (k : ℕ) (c : Client N) → c.lines ≡ [] → rounds h k c ≡ (returns false, c)
  unfolding rounds
  rounds-idle zero c none_left = refl
  rounds-idle (suc k) c none_left = rw (round-idle c none_left) (rounds-idle k c none_left)
