-- ===== src/Public/Tests/Delivery.antt =====
-- A site with one file subscription, and the theorem on what it delivers applied.
use sub_manager.Base.{
  ◌≡◌, refl, true, false, none, some, [], ◌∷◌, ◌++◌, Text, codes, text_eq, has_prefix, ◌||◌, find,
  ◌==◌, ◌&&◌, arith,
}
use sub_manager.Helpers.{Client}
use sub_manager.Store.{SubscriptionRow, FileRow, file_subscription, scan_stored_file}
use sub_manager.Store.Valid.{IsValid}
use sub_manager.Storage.{Content, put_blob, open_blob}
use sub_manager.Storage.Places.{place_of}
use sub_manager.Storage.Sound.{put-IsSound}
use sub_manager.Storage.Tests.{
  files_root, files_root-IsRoot, one_digest, some_digest, some_digest-IsDigest, nothing,
  nothing-IsSound,
}
use sub_manager.Uploads.{FileState}
use sub_manager.Uploads.Stored.{InStep}
use sub_manager.Public.{file_sent, public_subscription}
use sub_manager.Public.Delivered.{opens_on, file_delivered}
use sub_manager.Public.Tests.{start, site, home}

abbrev hi_row : FileRow
hi_row = record {
  id = 1;
  md5 = codes "00000000000000000000000000000000";
  sha256 = some_digest;
  size = 2;
  content_type = codes "text/plain";
  storage_key = codes "01/" ++ some_digest;
  original_name = codes "hi.txt";
  download_count = 0;
  last_downloaded_at = none;
  last_downloaded_ip = [];
  created_at = start;
  updated_at = start;
}

abbrev hi_subscription : SubscriptionRow
hi_subscription = record home {
  path = codes "/hi";
  kind = file_subscription;
  file_id = some 1;
  download_name = codes "hi.txt";
}

abbrev hosted : FileState
hosted = record {
  db = record site { subscriptions = hi_subscription ∷ []; files = hi_row ∷ []; last_file = 1 };
  disk = record {
    temps = [];
    blobs = put_blob (place_of files_root some_digest) (104 ∷ 105 ∷ []) nothing;
  };
}

hosted-IsValid : IsValid hosted.db
hosted-IsValid = record {
  subs = record {
    ids = ground arith;
    bound = ground arith;
    paths = ground arith;
    kinds = ground arith;
    counts = ground arith;
  };
  files = record {
    ids = ground arith;
    bound = ground arith;
    digests = ground arith;
    keys = ground arith;
  };
  refs = record { sub_files = ground arith; stat_rows = ground arith; log_rows = ground arith };
  pairs = ground arith;
}

hosted-InStep : InStep files_root one_digest hosted
unfolding sub_manager.Storage.place_eq text_eq
hosted-InStep = record {
  addressed =
      (put-IsSound files_root one_digest [] nothing some_digest (104 ∷ 105 ∷ []) nothing-IsSound
        refl).addressed;
  present = ((some_digest-IsDigest, refl, refl), tt);
}

abbrev client_name : Client → Text
client_name c = codes "client"

hi_found :
    find (λ s. text_eq s.path (codes "/hi") && s.enabled) hosted.db.subscriptions
    ≡ some hi_subscription
unfolding text_eq
hi_found = refl

hi_shown : (text_eq (codes "/hi") (codes "/") || has_prefix (codes "/hi") (codes "/admin")) ≡ false
unfolding text_eq has_prefix
hi_shown = refl

delivered_example :
    (f : FileRow) × (c : Content) × (find (λ r. r.id == 1) hosted.db.files ≡ some f)
    × (open_blob files_root f.storage_key hosted.disk ≡ some c)
    × (one_digest.sha256 c ≡ f.sha256)
    × ((public_subscription client_name
          (opens_on files_root hosted.disk)
          (codes "/hi")
          (codes "9.9.9.9")
          (codes "curl")
          (codes "GET")
          start
          hosted.db).0
        ≡ file_sent (scan_stored_file hosted.db.subscriptions f) (codes "hi.txt") true)
    × (public_subscription client_name
          (opens_on files_root hosted.disk)
          (codes "/hi")
          (codes "9.9.9.9")
          (codes "curl")
          (codes "HEAD")
          start
          hosted.db
        ≡ (
          file_sent (scan_stored_file hosted.db.subscriptions f) (codes "hi.txt") false,
          hosted.db,
        ))
delivered_example =
    file_delivered files_root one_digest client_name (codes "/hi") (codes "9.9.9.9") (codes "curl")
      start hosted hi_subscription 1 files_root-IsRoot hosted-IsValid hosted-InStep hi_shown
      hi_found refl refl (omega arith)
