-- ===== src/Server/Replies.antt =====
-- Every frame is answered once, under its own request id.
use secure_file_transfer.Base.{
  ℕ, ◌≡◌, refl, Bool, true, false, ◌||◌, List, [], ◌∷◌, arith, Bytes, ◌==◌, ==_iff, if◌then◌else◌,
  Option, none, some, Exec, Outcome, returns, throws, Exception,
}
use secure_file_transfer.Wire.Frame.{
  MsgType, Frame, register_msg, auth_msg, logout_msg, upload_init, upload_data, upload_commit,
  download_req, download_data, list_msg, err_msg,
}
use secure_file_transfer.World.{Platform}
use secure_file_transfer.Auth.{logout}
use secure_file_transfer.Server.{Live, reply}
use secure_file_transfer.Server.Handlers.{
  handle, is_admin_type, on_register, on_auth, on_logout, on_admin, on_upload_init, on_upload_data,
  on_upload_commit, on_download_req,
}

-- The request id of the newest frame that went out, and those before it.
abbrev pub newest : List Frame → Option (ℕ × List Frame)
newest [] = none
newest (f ∷ fs) = some (f.request_id, fs)

module _ {A B T : Type 0} where
  -- A call that returned, and by which one frame more went out: a reply to the frame `f`.
  abbrev pub Answered : Frame → Live A B T → Outcome (Unit {0}) × Live A B T → Type 0
  Answered f s (r, s') = (r ≡ returns tt) × (newest s'.link.sent ≡ some (f.request_id, s.link.sent))

  choose :
      (f : Frame) (s : Live A B T) (b : Bool) (m n : Exec (Live A B T) (Unit {0}))
      → (b ≡ true → Answered f s (m s))
      → Answered f s (n s)
      → Answered f s ((if b then m else n) s)
  choose f s true m n hit miss = hit refl
  choose f s false m n hit miss = miss

  reply-answers :
      (type : MsgType) (f : Frame) (body : Bytes) (s : Live A B T)
      → s.link.breaks s.link.writes ≡ false
      → Answered f s (reply type f body s)
  unfolding reply
  reply-answers type f body s up = (ground arith, ground arith)

module _ {A B T : Type 0} (p : Platform A B T) where
  register-answers :
      (f : Frame) (s : Live A B T)
      → s.link.breaks s.link.writes ≡ false
      → Answered f s (on_register p f s)
  unfolding on_register reply
  register-answers f s up = (ground arith, ground arith)

  auth-answers :
      (f : Frame) (s : Live A B T)
      → s.link.breaks s.link.writes ≡ false
      → Answered f s (on_auth p f s)
  unfolding on_auth reply
  auth-answers f s up = (ground arith, ground arith)

  admin-answers :
      (f : Frame) (s : Live A B T)
      → s.link.breaks s.link.writes ≡ false
      → Answered f s (on_admin p f s)
  unfolding on_admin reply
  admin-answers f s up = (ground arith, ground arith)

  upload_init-answers :
      (f : Frame) (s : Live A B T)
      → s.link.breaks s.link.writes ≡ false
      → Answered f s (on_upload_init p f s)
  unfolding on_upload_init reply
  upload_init-answers f s up = (ground arith, ground arith)

  upload_data-answers :
      (f : Frame) (s : Live A B T)
      → s.link.breaks s.link.writes ≡ false
      → Answered f s (on_upload_data p f s)
  unfolding on_upload_data reply
  upload_data-answers f s up = (ground arith, ground arith)

  upload_commit-answers :
      (f : Frame) (s : Live A B T)
      → s.link.breaks s.link.writes ≡ false
      → Answered f s (on_upload_commit p f s)
  unfolding on_upload_commit reply
  upload_commit-answers f s up = (ground arith, ground arith)

  download_req-answers :
      (f : Frame) (s : Live A B T)
      → s.link.breaks s.link.writes ≡ false
      → Answered f s (on_download_req p f s)
  unfolding on_download_req reply
  download_req-answers f s up = (ground arith, ground arith)

  logout-answers :
      (f : Frame) (s : Live A B T) {r : Bool}
      → s.link.breaks s.link.writes ≡ false
      → (logout p f.body s.world).0 ≡ returns r
      → Answered f s (on_logout p f s)
  unfolding on_logout reply
  logout-answers f s up done = (ground arith, ground arith)

  logout-case :
      (f : Frame) (s : Live A B T)
      → s.link.breaks s.link.writes ≡ false
      → ((f.type ≡ logout_msg) → (r : Bool) × ((logout p f.body s.world).0 ≡ returns r))
      → (f.type == logout_msg) ≡ true
      → Answered f s (on_logout p f s)
  logout-case f s up no_throw is_logout =
      let (r, done) = no_throw ((==_iff f.type logout_msg).0 is_logout) in
      logout-answers f s up done

  -- If the next write to the socket succeeds, a frame is answered once: the handler returns, and
  -- exactly one frame goes out, with the request id of the frame it answers. Only for LOGOUT does
  -- that take a `logout` that does not throw.
  pub handle-Answered :
      (f : Frame) (s : Live A B T)
      → s.link.breaks s.link.writes ≡ false
      → ((f.type ≡ logout_msg) → (r : Bool) × ((logout p f.body s.world).0 ≡ returns r))
      → Answered f s (handle p f s)
  unfolding handle
  handle-Answered f s up no_throw =
      choose f s (f.type == register_msg) _ _ (λ x. register-answers f s up)
        (choose f s (f.type == auth_msg) _ _ (λ x. auth-answers f s up)
          (choose f s (f.type == logout_msg) _ _ (λ x. logout-case f s up no_throw x)
            (choose f s (is_admin_type f.type) _ _ (λ x. admin-answers f s up)
              (choose f s (f.type == upload_init) _ _ (λ x. upload_init-answers f s up)
                (choose f s (f.type == upload_data) _ _ (λ x. upload_data-answers f s up)
                  (choose f s (f.type == upload_commit) _ _ (λ x. upload_commit-answers f s up)
                    (choose f s (f.type == download_req) _ _ (λ x. download_req-answers f s up)
                      (choose f s (f.type == list_msg || f.type == download_data) _ _
                        (λ x. reply-answers list_msg f [] s up)
                        (reply-answers err_msg f [] s up)))))))))

  -- A `logout` that throws, which only the audit log makes it do, ends the connection unanswered.
  pub logout-unanswered :
      (f : Frame) (s : Live A B T) {e : Exception}
      → (logout p f.body s.world).0 ≡ throws e
      → ((on_logout p f s).0 ≡ throws e) × ((on_logout p f s).1.link.sent ≡ s.link.sent)
  unfolding on_logout
  logout-unanswered f s thrown = (ground arith, ground arith)
