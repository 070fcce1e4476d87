-- ===== src/Server/Steadiness.antt =====
-- Uploads and downloads leave the users as they are.
use secure_file_transfer.Base.{◌≡◌, arith}
use secure_file_transfer.Domain.Records.{SessionId, FileId}
use secure_file_transfer.World.{Platform, World}
use secure_file_transfer.Transfers.{Upload, upload, download}

module _ {A B T : Type 0} (p : Platform A B T) where
  pub upload-users :
      (token : SessionId) (up : Upload) (w : World A B T) → (upload p token up w).1.users ≡ w.users
  unfolding upload
  upload-users token up w = ground arith

  pub download-users :
      (token : SessionId) (fid : FileId) (w : World A B T)
      → (download p token fid w).1.users ≡ w.users
  unfolding download
  download-users token fid w = ground arith
