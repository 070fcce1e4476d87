-- ===== src/Client/Received.antt =====
-- From what the sender types to what the recipient reads.
use secure_file_transfer.Base.{
  ℕ, ◌+◌, ◌^◌, ◌<◌, ◌≡◌, refl, ap, sym, ◌∙◌, Bool, true, false, List, ◌∷◌, Bytes, codes, is_empty,
  length, returns, arith, some, Outcome, throws, Exception, handled, what, ◌++◌, List, ◌++◌, ◌+◌,
}
use secure_file_transfer.Base.Dict.{get}
use secure_file_transfer.Domain.Records.{UserId}
use secure_file_transfer.Protocol.Uploads.{InitFits}
use secure_file_transfer.Validator.{validate}
use secure_file_transfer.Validator.Accepts.{validate-accepts}
use secure_file_transfer.FakeCrypto.{EncryptOut}
use secure_file_transfer.Wire.Frame.{Fits}
use secure_file_transfer.World.{Platform, World, ticked}
use secure_file_transfer.Transfers.{Upload, upload, fake_header}
use secure_file_transfer.Server.Handlers.{upload_of}
use secure_file_transfer.Crypto.{Openssl, encrypt_for, seal_alg}
use secure_file_transfer.Crypto.Healthy.{Works}
use secure_file_transfer.Crypto.RoundTrip.{Lawful, encrypted, do_encrypt-works}
use secure_file_transfer.Crypto.Checks.{encrypt_for-sizes}
use secure_file_transfer.Client.{Host, Client, is_yes, print_error, ask_yes_no, read_file_bytes}
use secure_file_transfer.Client.Upload.{upload_to, try_upload, on_upload}
use secure_file_transfer.Client.Relay.{Wire, Delivers, connected_to}
use secure_file_transfer.Client.Announced.{length-generate_user_id}
use secure_file_transfer.Client.Submission.{
  announced, init_frame, init_frame-Fits, Accepting, upload_to-upload,
}

seal_alg-named : is_empty seal_alg ≡ false
unfolding is_empty
seal_alg-named = refl

module _ {N : Type 0} (h : Host N) where
  handled-net :
      (r : Outcome (Unit {0})) (text : Exception → Bytes) (c : Client N)
      → (handled r (λ e. print_error (text e)) c).1.net ≡ c.net
  handled-net (returns v) text c = refl
  handled-net (throws e) text c = refl

  -- The connection after an upload that was agreed to is as `upload_to` leaves it.
  on_upload-tries :
      (path recipient answer plain recip_pub : Bytes) (rest : List Bytes) (c : Client N)
      → is_empty c.token ≡ false
      → c.lines ≡ path ∷ (recipient ∷ (answer ∷ rest))
      → is_yes answer ≡ true
      → get path c.files ≡ some plain
      → get recipient c.pub_cache ≡ some recip_pub
      → (on_upload h c).1.net
        ≡ (upload_to h path recipient plain recip_pub (record c { lines = rest })).1.net
  unfolding on_upload try_upload ask_yes_no read_file_bytes
  on_upload-tries path recipient answer plain recip_pub rest c token typed sure file known =
      rw (token, typed)
        (rw sure (rw (file, known) (handled-net _ (λ e. codes "Upload error: " ++ what e) _)))

module _ (ssl : Openssl) (works : Works ssl) (laws : Lawful ssl) where
  made-alg :
      (plain : Bytes) (recipient_id : UserId) (recip_pub : Bytes) (n : ℕ) {enc : EncryptOut}
      → (encrypt_for ssl plain recipient_id recip_pub n).0 ≡ returns enc
      → length recip_pub ≡ 32
      → enc.wrapped.alg ≡ seal_alg
  unfolding encrypt_for
  made-alg plain recipient_id recip_pub n {enc} made size =
      let (k, value) = do_encrypt-works ssl works laws plain recipient_id recip_pub n size in
      let same : encrypted ssl works laws plain recipient_id recip_pub n (n + 1) k ≡ enc = cc in
      sym (ap (λ (o : EncryptOut). o.wrapped.alg) same)

  -- The wire can carry what the client announces for a text of at most 100 MiB.
  announced-Fits :
      {A B T : Type 0} (p : Platform A B T) (cut : Bytes → List Bytes) (delivers : Delivers cut)
      (writable : Bytes → Bool) (filename : Bytes → Bytes) (path recipient plain recip_pub : Bytes)
      (n : ℕ) (c : Client (Wire A B T)) {enc : EncryptOut}
      → (encrypt_for ssl plain recipient recip_pub n).0 ≡ returns enc
      → length recipient < 2 ^ 16
      → length (filename path) < 2 ^ 16
      → length plain < 2 ^ 32
      → let init = announced p cut delivers ssl writable filename path recipient plain enc c in
        InitFits init × Fits (init_frame p cut delivers ssl writable filename init)
  announced-Fits p cut delivers writable filename path recipient plain recip_pub n c {enc} made
        short named room =
      let (cipher, nonce, sealed, digest, rid, size) =
        encrypt_for-sizes ssl laws plain recipient recip_pub n made in
      let alg = made-alg plain recipient recip_pub n made size in
      let init = announced p cut delivers ssl writable filename path recipient plain enc c in
      let id_size = length-generate_user_id c.entropy in
      let fits : InitFits init = record {
        recipient_fits = omega arith;
        name_fits = omega arith;
        upload_fits = omega (arith, id_size);
        size_fits = omega arith;
        digest_fits = digest;
        rid_fits = rw rid (omega arith);
        nonce_fits = omega arith;
        key_fits = omega arith;
        alg_fits = rw alg (omega arith);
        alg_named = rw alg seal_alg-named;
      } in
      (
        fits,
        init_frame-Fits p cut delivers ssl writable filename init fits short named
            (omega (arith, id_size)) (rw rid short) (omega arith) (omega arith)
            (rw alg (omega arith)),
      )

module _ {A B T : Type 0} (p : Platform A B T) (cut : Bytes → List Bytes) (delivers : Delivers cut)
    (ssl : Openssl) (writable : Bytes → Bool) (filename : Bytes → Bytes) where
  -- What the client announces for a path, a recipient and a text, and the server's world once it has
  -- looked at the clock for the announcement and for the commit.
  abbrev pub request : Bytes → Bytes → Bytes → EncryptOut → Client (Wire A B T) → Upload
  request path recipient plain enc c =
      upload_of (announced p cut delivers ssl writable filename path recipient plain enc c)
        enc.cipher

  abbrev pub twice_ticked : Client (Wire A B T) → World A B T
  twice_ticked c = ticked (ticked c.net.live.world)

  -- An upload that a user types and agrees to, of a file that is there, for a recipient whose public
  -- key is known, with a recipient and a name of fewer than 2^16 bytes and a file that the validator
  -- accepts, over a socket that takes every write and delivers the bytes of every frame, in any cuts,
  -- and a session that is valid at the announcement and at the commit, is one call of `upload` on the
  -- server with the text's encryption, by an OpenSSL that works as documented and whose calls succeed.
  -- Every frame, of either side, is encoded, sent as bytes and put together again by `recvFrame`,
  -- which drops what is longer than 4 MiB.
  pub on_upload-upload :
      (path recipient answer plain recip_pub : Bytes) (rest : List Bytes) (c : Client (Wire A B T))
      {enc : EncryptOut}
      → Works ssl
      → Lawful ssl
      → is_empty c.token ≡ false
      → c.lines ≡ path ∷ (recipient ∷ (answer ∷ rest))
      → is_yes answer ≡ true
      → get path c.files ≡ some plain
      → get recipient c.pub_cache ≡ some recip_pub
      → (encrypt_for ssl plain recipient recip_pub c.calls).0 ≡ returns enc
      → length recipient < 2 ^ 16
      → length (filename path) < 2 ^ 16
      → validate p.lexically_normal (filename path) (length plain) fake_header ≡ returns tt
      → Accepting p c.net.live
      → c.net.serving ≡ true
      → (on_upload (connected_to p cut ssl writable filename) c).1.net.live.world
        ≡ (upload p c.net.live.conn.conn_token
            (request path recipient plain enc c)
            (twice_ticked c)).1
  on_upload-upload path recipient answer plain recip_pub rest c {enc} works laws token typed sure
        file known made short named sound accepting on =
      let (named_there, no_nul, no_dots, ends, single, small, magic) =
        (validate-accepts p.lexically_normal (filename path) (length plain) fake_header).0 sound in
      let c' : Client (Wire A B T) = record c { lines = rest } in
      let (fits, frame_fits) =
        announced-Fits ssl works laws p cut delivers writable filename path recipient plain
          recip_pub c.calls c' made short named (omega arith) in
      let sizes = encrypt_for-sizes ssl laws plain recipient recip_pub c.calls made in
      let cipher : length enc.cipher ≡ length plain + 16 = sizes.0 in
      let tried =
        on_upload-tries (connected_to p cut ssl writable filename) path recipient answer plain
          recip_pub rest c token typed sure file known in
      let done =
        upload_to-upload p cut delivers ssl writable filename path recipient plain recip_pub enc c'
          accepting on made fits frame_fits sound (omega arith) in
      ap (λ (w : Wire A B T). w.live.world) tried ∙ done
