-- ===== src/Paperless/Samples.antt =====
-- A Paperless server with one tag, and a household with one insurance that uses it: data for the tests
-- of the components.
pub mod Facts
use versi_go.Prelude.{
  ℕ, String, codes, Bool, true, false, Option, none, some, List, [], ◌∷◌, ◌==◌, if◌then◌else◌,
}
use versi_go.Config.SyncSchedule.{missing}
use versi_go.Sharing.{kfz}
use versi_go.Paperless.{
  PolicyPaperlessTag, PaperlessTagJob, PolicyDocument, Store, sync_policy, paperless_link,
  sync_active, new_job,
}
use versi_go.Paperless.Client.{Server, Connection, Reply, PaperlessPage}
use versi_go.Paperless.Metadata.{PaperlessTagDocumentEntry, TagDocumentRef, string, other}
use versi_go.Paperless.World.{World}

abbrev pub answer {ℓ} : {A : Type ℓ} → A → Option (Reply A)
answer body = some (record { status = 200; body = some body })

abbrev pub entry : ℕ → String → PaperlessTagDocumentEntry
entry id title = record {
  id = id;
  title = string (codes title);
  created = other;
  mime_type = other;
}

-- Two documents, 7 and 9, on two pages.
abbrev page : ℕ → PaperlessPage
page n =
    if n == 1
    then record { results = entry 7 "Police" ∷ []; next = true }
    else record { results = entry 9 "Rechnung" ∷ []; next = false }

abbrev pub server : Server
server = record {
  get_tag = λ id. answer (record { id = id; name = codes "Kfz" });
  get_documents = λ tag_id n fields. answer (page n);
  get_document = λ document n. answer (record { tags = some (4 ∷ []); content = none });
  post_bulk_edit = λ document tag_id. none;
  patch_document = λ document tags. none;
}

abbrev pub connection : Connection
connection = record {
  paperless_enabled = some true;
  paperless_url = some (codes "http://p/");
  paperless_api_token = some (codes "t");
  server = server;
}

abbrev pub calm : World
calm = record {
  connection = connection;
  now = 1_000_000;
  uuid = λ n. 110 ∷ n ∷ [];
  to_date = λ text. none;
  others = λ m s. s;
  insert_error = λ n. none;
  queue_up = true;
  sync_enabled = none;
  sync_interval_ms = missing;
}

-- The server cannot be reached.
abbrev pub offline : World
offline = record calm {
  connection = record connection { server = record server { get_tag = λ id. none } };
}

-- Insertions fail with an error of the database.
abbrev pub broken : World
broken = record calm { insert_error = λ n. some (codes "timeout") }

abbrev pub remote : List TagDocumentRef
remote =
    record { paperless_id = 7; title = some (codes "Police"); created_at = none; mime_type = none }
    ∷ record {
      paperless_id = 9;
      title = some (codes "Rechnung");
      created_at = none;
      mime_type = none;
    }
    ∷ []

abbrev pub link : String → String → Bool → Bool → PolicyDocument
link id ref manual tagged = record {
  id = codes id;
  policy_id = codes "p";
  storage_type = paperless_link;
  file_name = codes "Mein Name";
  mime_type = none;
  storage_ref = some (codes ref);
  document_date = none;
  archived_at = none;
  link_origin_manual = manual;
  link_origin_tag = tagged;
  tagging_status = none;
  tagging_error_code = none;
}

abbrev pub lost : PolicyDocument
lost = link "a" "5" false true

abbrev pub manual : PolicyDocument
manual = link "b" "7" true false

abbrev pub config : PolicyPaperlessTag
config = record {
  id = codes "c";
  policy_id = codes "p";
  connection_ref = some (codes "http://p");
  paperless_tag_id = 4;
  paperless_tag_name = some (codes "Kfz");
  config_version = 1;
  last_synced_at = some 0;
  sync_status = sync_active;
  sync_error_code = none;
}

abbrev pub job : PaperlessTagJob
job = new_job (codes "j") (codes "p") none sync_policy 1

abbrev pub store : Store
store = record {
  memberships = record { household_id = codes "h"; user_id = codes "u" } ∷ [];
  policies =
      record {
        id = codes "p";
        household_id = codes "h";
        owner_user_id = codes "u";
        policy_type = kfz;
        archived_at = none;
      }
      ∷ [];
  tags = config ∷ [];
  documents = lost ∷ manual ∷ [];
  jobs = job ∷ [];
  audit_events = [];
  queue = [];
}
