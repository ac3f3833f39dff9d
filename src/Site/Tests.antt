-- ===== src/Site/Tests.antt =====
-- Visits to a site with one text subscription and an empty files directory, and the theorems applied.
use sub_manager.Base.{
  ◌+◌, ◌*◌, ◌≡◌, refl, true, false, ◌&&◌, ◌||◌, text_eq, List, none, some, [], ◌∷◌, ◌++◌, Text,
  codes, arith,
}
use sub_manager.Helpers.Accepted.{GoodPath, GoodContent}
use sub_manager.Storage.Tests.{
  files_root, files_root-IsRoot, one_digest, some_digest-IsDigest, nothing, nothing-IsSound,
}
use sub_manager.Public.Tests.{start, site, site-IsValid}
use sub_manager.Storage.{no_stage_fault, no_commit_fault}
use sub_manager.Uploads.{FileState, Sending}
use sub_manager.Web.{RawForm}
use sub_manager.Panel.{PageLinks, Request}
use sub_manager.Panel.Safe.{IsSafe}
use sub_manager.ClientIp.{NetipText, ip4}
use sub_manager.Limiter
use sub_manager.Store.{SessionRow}
use sub_manager.Site.{
  Site, World, Sender, Visit, login_visit, admin_visit, public_visit, cleanup_turn, post_panel,
  post_settings, post_logout, files_of, visit_all,
}
use sub_manager.Site.Kept.{visit_all-IsSafe}
use sub_manager.Site.Untouched.{IsUntouched}
use sub_manager.Site.Strangers.{AllStrangers, strangers-IsUntouched}

abbrev some_links : PageLinks
some_links = record {
  subscription_page = λ id message. codes "/admin/subscriptions/1?message=" ++ message;
  file_page = λ id message. codes "/admin/files/1?message=" ++ message;
  logs_page = λ id. codes "/admin/subscriptions/1/logs";
}

abbrev before : FileState
before = record { db = site; disk = record { temps = []; blobs = nothing } }

home_path : GoodPath (codes "/home")
unfolding sub_manager.Helpers.matches_path_pattern sub_manager.Helpers.path_char
    sub_manager.Helpers.is_reserved sub_manager.Base.text_eq sub_manager.Base.to_lower
home_path = (refl, refl)

home_content : GoodContent (codes "proxies")
unfolding sub_manager.Helpers.normalize_content sub_manager.Helpers.replace_cr
    sub_manager.Helpers.replace_crlf sub_manager.Base.trim_space sub_manager.Base.trim_left
    sub_manager.Base.trim_right sub_manager.Base.is_space sub_manager.Base.byte_len
    sub_manager.Base.utf8_width
home_content = (refl, refl, omega arith)

before-IsSafe : IsSafe files_root one_digest before
before-IsSafe = record {
  valid = site-IsValid;
  clean = ((home_path, λ text. home_content), tt);
  in_step = nothing-IsSound;
}

abbrev sent : Sending
sent = record {
  temp = codes "upload-1";
  content = 104 ∷ 105 ∷ [];
  filename = some (codes "hi.txt");
  max_bytes = 1000;
  stage_fault = no_stage_fault;
  commit_fault = no_commit_fault;
}

abbrev form_of : Text → Text → Text → RawForm
form_of path content kind = record {
  name = [];
  path = path;
  content = content;
  kind = kind;
  enabled = codes "1";
}

-- The only address is 9.9.9.9.
abbrev net : NetipText
net = record {
  parse_addr = λ s. some (ip4 0x09090909);
  parse_prefix = λ s. some (record { addr = ip4 0x09090909; bits = 32 });
  parse_addr_port = λ s. some (ip4 0x09090909);
  addr_string = λ a. codes "9.9.9.9";
  prefix_string = λ p. codes "9.9.9.9/32";
}

abbrev world : World
world = record {
  net = net;
  hash = λ t. t;
  matches = text_eq;
  generate = λ t. some t;
  client_name = λ c. codes "client";
  root = files_root;
  facts = one_digest;
  links = some_links;
  session_hours = 12;
}

abbrev open_session : SessionRow
open_session = record {
  token_hash = codes "token";
  csrf_token = codes "csrf";
  version = 5;
  expires_at = start + 1_000_000_000_000_000;
  created_at = start;
}

abbrev running : Site
running = record {
  db = record site { sessions = open_session ∷ [] };
  disk = record { temps = []; blobs = nothing };
  limiter = Limiter.new_login_limiter;
  resolver = record { environment = []; configured = []; trust_all_default = true };
}

running-IsSafe : IsSafe files_root one_digest (files_of running)
running-IsSafe = record {
  valid = record {
    subs = site-IsValid.subs;
    files = site-IsValid.files;
    refs = site-IsValid.refs;
    pairs = site-IsValid.pairs;
  };
  clean = ((home_path, λ text. home_content), tt);
  in_step = nothing-IsSound;
}

abbrev admin : Sender
admin = record { remote_addr = codes "9.9.9.9:1"; header = []; cookie = some (codes "token") }

abbrev nobody : Sender
nobody = record { remote_addr = codes "9.9.9.9:2"; header = []; cookie = none }

-- A file with a subscription, new content, the subscription switched off, its file taken away and
-- deleted, and a fetch, a cleanup and a logout.
abbrev history : List Visit
history =
    admin_visit admin (codes "csrf") start (
      post_panel (
        Request.post_subscription (form_of (codes "/file") [] (codes "file")) (some sent) start
          start))
    ∷ admin_visit admin (codes "csrf") start
        (post_panel (Request.post_batch (codes "1" ∷ []) (codes " new") (start + 2)))
    ∷ public_visit nobody (codes "/file") (codes "curl") (codes "GET") (start + 3)
    ∷ admin_visit admin (codes "csrf") start
        (post_panel (Request.post_toggle (codes "2") (start + 4)))
    ∷ admin_visit admin (codes "csrf") start
        (post_panel (Request.post_detach (codes "2") (start + 5)))
    ∷ admin_visit admin (codes "csrf") start
        (post_panel (Request.post_delete_file (codes "1") false))
    ∷ cleanup_turn (start + 6) (start + 7)
    ∷ admin_visit admin (codes "csrf") start post_logout
    ∷ []

visit_all_example : IsSafe files_root one_digest (files_of (visit_all world history running))
visit_all_example =
    visit_all-IsSafe world history running files_root-IsRoot (λ c. some_digest-IsDigest)
      running-IsSafe

-- A wrong password, a request without a cookie, one with a cookie but a wrong CSRF token, and a fetch.
abbrev attempts : List Visit
attempts =
    login_visit nobody (codes "guess") (some (codes "t")) (some (codes "c")) start start start start
    ∷ admin_visit nobody (codes "csrf") start (post_settings (codes "1") [])
    ∷ admin_visit admin (codes "forged") start (post_panel (Request.post_delete (codes "1")))
    ∷ public_visit nobody (codes "/home") (codes "curl") (codes "GET") start
    ∷ []

attempts_strange : AllStrangers world running attempts
unfolding text_eq
attempts_strange =
    (refl, ((λ token e. absurd (ground arith)), ((λ token e. ground arith), (tt, tt))))

strangers_example : IsUntouched running (visit_all world attempts running)
strangers_example = strangers-IsUntouched world attempts running attempts_strange
