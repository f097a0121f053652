-- ===== src/Storage/Download/Laws.antt =====
-- What a download returns: never a buffer with the wrong checksum, and what was uploaded.
use intelli_store.Prelude.{
  ℕ, String, ◌≡◌, refl, ◌≢◌, inl, inr, Option, some, List, map, arith, eq_iff, Option-cases,
}
use intelli_store.Effects.{ok, err, app_error, integrity_failure, continue, Result-cases}
use intelli_store.Storage.Chunking.{Bytes, concat}
use intelli_store.Storage.Interfaces.{FileDetailResult, VersionDetailResult}
use intelli_store.Storage.Download.{
  DownloadService, DownloadResult, target_version, get_all, deliver, download,
}

-- The result says what the version says of itself, and its bytes have the version's checksum.
pub record IsVerified {W : Type 0} (D : DownloadService W) (file_detail : FileDetailResult)
    (detail : VersionDetailResult) (r : DownloadResult) : Type 0 where
  pub intact : D.sha256 r.buffer ≡ detail.version.checksum
  pub numbered : r.version_number ≡ detail.version.version_number
  pub typed : r.mime_type ≡ detail.version.mime_type
  pub named : r.file_name ≡ file_detail.file.file_name

module _ {W : Type 0} (D : DownloadService W) where
  deliver-IsVerified :
      (file_id : String) (file_detail : FileDetailResult) (detail : VersionDetailResult)
      (buffers : List Bytes) (w : W) {r : DownloadResult}
      → (deliver D file_id file_detail detail buffers w).0 ≡ ok r
      → IsVerified D file_detail detail r
  unfolding deliver
  deliver-IsVerified file_id file_detail detail buffers w h =
      ground (arith, eq_iff (D.sha256 (concat buffers)) detail.version.checksum)

  -- A download that returns has asked the metadata service for the file and for a version of it, and
  -- its buffer has that version's checksum; number, type and name are the ones of the record.
  pub download-IsVerified :
      (token file_id : String) (asked : Option ℕ) (w : W) {r : DownloadResult}
      → (download D token file_id asked w).0 ≡ ok r
      → (file_detail : FileDetailResult) × (detail : VersionDetailResult)
        × ((D.metadata_client.get_file_detail token file_id w).0 ≡ ok file_detail)
        × ((n : ℕ) × (v : W) × (target_version asked file_detail.versions ≡ some n)
            × ((D.metadata_client.get_version_detail token file_id n v).0 ≡ ok detail))
        × IsVerified D file_detail detail r
  unfolding download
  download-IsVerified token file_id asked w =
      elim (Result-cases (D.metadata_client.get_file_detail token file_id w).0) [
        | inr (x, e) ↦ rw (e, continue) (λ h. absurd (cc))
        | inl (file_detail, e) ↦
            rw (e, continue)
              (elim (Option-cases (target_version asked file_detail.versions)) [
                | inl f ↦ rw f (λ h. absurd (cc))
                | inr (n, f) ↦
                    rw f
                      (elim (Result-cases
                        (D.metadata_client.get_version_detail token file_id n
                          (D.metadata_client.get_file_detail token file_id w).1).0) [
                            | inr (x, g) ↦ rw (g, continue) (λ h. absurd (cc))
                            | inl (detail, g) ↦
                                rw (g, continue)
                                  (elim (Result-cases
                                    (get_all D (map (λ c. c.storage_key) detail.chunks)
                                      (D.metadata_client.get_version_detail token file_id n
                                        (D.metadata_client.get_file_detail token file_id
                                          w).1).1).0) [
                                            | inr (x, b) ↦ rw (b, continue) (λ h. absurd (cc))
                                            | inl (buffers, b) ↦
                                                rw (b, continue)
                                                  (λ h. (
                                                    file_detail,
                                                    detail,
                                                    refl,
                                                    (n, _, f, g),
                                                    deliver-IsVerified file_id file_detail detail
                                                        buffers _ h,
                                                  ))
                                          ])
                          ])
              ])
      ]

  -- With a wrong checksum the download fails with status 500 and publishes nothing: the world is
  -- the one after the reads.
  pub deliver_corrupt :
      (file_id : String) (file_detail : FileDetailResult) (detail : VersionDetailResult)
      (buffers : List Bytes) (w : W)
      → D.sha256 (concat buffers) ≢ detail.version.checksum
      → deliver D file_id file_detail detail buffers w
        ≡ (err (app_error (integrity_failure "Reconstructed file failed checksum verification")), w)
  unfolding deliver
  deliver_corrupt file_id file_detail detail buffers w h =
      ground (arith, eq_iff (D.sha256 (concat buffers)) detail.version.checksum)
