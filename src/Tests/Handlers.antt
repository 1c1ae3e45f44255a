-- ===== src/Tests/Handlers.antt =====
-- Requests of two users, on saved pipelines, uploads and results.
use psae_monorepo.Prelude.{
  ℕ, String, false, ◌≡◌, refl, sym, ◌∙◌, ◌↔◌, Option, none, some, List, [], ◌∷◌, Memᴰ, ==_iff, map,
}
use mathlib.Core.List.Memᴰ
use psae_monorepo.Dict
use psae_monorepo.Types.{Pipeline, BlockManifest, BlockKind}
use psae_monorepo.Repositories.Database.{Database}
use psae_monorepo.Repositories.Database.InMemory.{in_memory}
use psae_monorepo.Repositories.Acl.{
  Visibility, Share, same_share, same_id, get_by_id_for_user, create, get_by_id, has_id, permit,
  first, share_of, is_public,
}
use psae_monorepo.Repositories.Acl.Access.{IsKeyed}
use psae_monorepo.Repositories.Acl.Sharing.{IsOwner}
use psae_monorepo.Repositories.Pipelines.{
  SavedPipeline, PipelinePatch, pipeline_columns, PipelineTables,
}
use psae_monorepo.Repositories.DataFiles.{DataFile, data_file_columns, DataFileTables}
use psae_monorepo.Repositories.Runs.{
  RunStatus, Run, RunFile, RunLog, run_columns, same_file, same_log, RunTables, get_file,
}
use psae_monorepo.Repositories.Blocks.{
  CatalogueBlock, same_name, IsUpload, upsert_block, catalogue_row,
}
use psae_monorepo.Repositories.Database.InMemory.{upserted_row}
use psae_monorepo.Api.Submit.{Parsed, malformed, truthy}
use psae_monorepo.Api.Access.{answer, User, same_user, ShareBody, share_handler}
use psae_monorepo.Api.Access.Effect.{share_handler-answer_iff}
use psae_monorepo.Api.Pipelines.{Request, serve, serve_all}
use psae_monorepo.Api.Pipelines.Isolation.{PreservesFor, serve-Preserves, serve_all-rows}
use psae_monorepo.Api.DataFiles.{
  CompleteBody, complete_upload, get_data_file, is_incomplete_upload, is_missing, store_data_file,
  uploaded_row,
}
use psae_monorepo.Api.DataFiles.Uploads.{complete_upload-get_data_file}
use psae_monorepo.Api.Results.{FileDownload, get_run_file, visible_file, download_of}
use psae_monorepo.Api.Results.Visible.{IsVisibleFile, get_run_file-IsVisibleFile}
use psae_monorepo.Api.Results.Zip.{
  ZipEntry, zip_entries, zip_entries_from, entry_name, numbered, decimal, last_dot,
}
use psae_monorepo.Api.Catalogue.{
  UploadBody, upload_block, get_block, read_upload, store_upload, store_reply,
}
use psae_monorepo.Api.Catalogue.Upload.{Carries, upload_block-get_block}

abbrev pipelines_db : Database SavedPipeline (same_id pipeline_columns)
pipelines_db = in_memory (same_id pipeline_columns)

abbrev shares_db : Database Share same_share
shares_db = in_memory same_share

abbrev users_db : Database User same_user
users_db = in_memory same_user

abbrev users : List User
users =
    record { id = "ann"; email = "ann@spade"; role = "admin" }
    ∷ record { id = "bob"; email = "bob@spade"; role = "user" }
    ∷ []

abbrev parse : String → Parsed ℕ
parse text = malformed "unexpected end"

abbrev print : Pipeline ℕ → String
print p = p.name

abbrev uuid : ℕ → String
uuid n = "u"

abbrev saved : SavedPipeline
saved = record {
  id = "p";
  owner_id = "ann";
  name = "Flood";
  description = none;
  version = "1";
  yaml = "";
  visibility = Visibility.public;
  created_at = 1;
  updated_at = 1;
}

abbrev pipelines : PipelineTables pipelines_db shares_db
pipelines = record { rows = saved ∷ []; shares = [] }

abbrev to_bob : ShareBody
to_bob = record { email = some "bob@spade"; permission = none }

-- A body that also names another owner, which the handler does not look at.
abbrev rename : PipelinePatch
rename = record {
  id = none;
  owner_id = some "ann";
  name = some "Mine";
  description = none;
  version = none;
  yaml = none;
  visibility = none;
  created_at = none;
}

share_handler-answer_iff_example :
    ((share_handler pipeline_columns pipelines_db shares_db users_db "Not yours" "ann"
        (some "p")
        to_bob
        users
        pipelines).0
      ≡ answer tt)
    ↔ ((i : String) × (email : String) × (target : User) × (some "p" ≡ some i)
        × (¬ (i ≡ ""))
        × (some "bob@spade" ≡ some email)
        × (¬ (email ≡ ""))
        × Memᴰ target users
        × (target.email ≡ email)
        × IsOwner pipeline_columns pipelines_db shares_db pipelines i "ann")
share_handler-answer_iff_example =
    share_handler-answer_iff pipeline_columns pipelines_db shares_db users_db "Not yours" "ann"
      (some "p") to_bob users pipelines

serve-Preserves_example :
    PreservesFor parse print uuid pipelines_db shares_db users_db "bob" pipelines (
      serve parse print uuid pipelines_db shares_db users_db users "bob"
        (Request.edit (some "p") 2 rename)
        pipelines)
serve-Preserves_example =
    serve-Preserves parse print uuid pipelines_db shares_db users_db users "bob"
      (Request.edit (some "p") 2 rename) pipelines

abbrev requests : List (String × Request parse print uuid pipelines_db shares_db users_db)
requests =
    ("bob", Request.edit (some "p") 2 rename)
    ∷ ("eve", Request.remove (some "p"))
    ∷ ("bob", Request.share (some "p") to_bob)
    ∷ []

abbrev ann : String
ann = "ann"

bob-ne-ann : ¬ ("bob" ≡ ann)
bob-ne-ann e = let t = (==_iff "bob" ann).1 e in cc

eve-ne-ann : ¬ ("eve" ≡ ann)
eve-ne-ann e = let t = (==_iff "eve" ann).1 e in cc

serve_all-rows_example :
    Memᴰ saved
      (serve_all parse print uuid pipelines_db shares_db users_db users requests pipelines).rows
serve_all-rows_example =
    serve_all-rows parse print uuid pipelines_db shares_db users_db users "ann" requests pipelines
      saved (bob-ne-ann, (eve-ne-ann, (bob-ne-ann, tt))) refl (Memᴰ.head refl)

abbrev presign : String → String → String
presign method key = key

abbrev data_files_db : Database DataFile (same_id data_file_columns)
data_files_db = in_memory (same_id data_file_columns)

abbrev no_files : DataFileTables data_files_db shares_db
no_files = record { rows = []; shares = [] }

abbrev completed : CompleteBody
completed = record {
  data_file_id = some "f";
  s3_key = some "data/ann/x/dem.tif";
  name = some "dem.tif";
  mime_type = some "image/tiff";
  size_bytes = 12;
  visibility = none;
}

abbrev uploaded : DataFile
uploaded = record {
  id = "f";
  owner_id = "bob";
  name = "dem.tif";
  size_bytes = 12;
  mime_type = "image/tiff";
  s3_key = "data/ann/x/dem.tif";
  visibility = Visibility.private;
  created_at = 3;
  updated_at = 3;
}

abbrev one_file : DataFileTables data_files_db shares_db
one_file = record { rows = uploaded ∷ []; shares = [] }

handlers : Unit {0}
unfolding complete_upload is_incomplete_upload is_missing truthy store_data_file uploaded_row create
    get_run_file visible_file download_of get_by_id_for_user get_by_id has_id permit first share_of
    is_public get_file upload_block read_upload store_upload store_reply upsert_block catalogue_row
    upserted_row zip_entries zip_entries_from entry_name numbered decimal last_dot Dict.get Dict.set
handlers = tt

complete_upload_run :
    complete_upload presign data_files_db shares_db users_db "bob" 3 completed no_files
    ≡ (answer uploaded, one_file)
unfolding handlers
complete_upload_run = refl

no_files-IsKeyed : IsKeyed data_file_columns data_files_db shares_db no_files
no_files-IsKeyed r s h k e = absurd (Memᴰ.not-nil h)

-- The key is one of another user's objects.
complete_upload-get_data_file_example :
    (get_data_file presign data_files_db shares_db users_db "bob" (some "f") one_file
      ≡ answer (record { row = uploaded; download_url = "data/ann/x/dem.tif" }))
    × (uploaded.owner_id ≡ "bob")
    × (completed.s3_key ≡ some "data/ann/x/dem.tif")
complete_upload-get_data_file_example =
    complete_upload-get_data_file presign data_files_db shares_db users_db "bob" 3 completed
      no_files uploaded one_file no_files-IsKeyed complete_upload_run

abbrev runs_db : Database Run (same_id run_columns)
runs_db = in_memory (same_id run_columns)

abbrev run_files_db : Database RunFile same_file
run_files_db = in_memory same_file

abbrev logs_db : Database RunLog same_log
logs_db = in_memory same_log

abbrev run : Run
run = record {
  id = "r";
  pipeline_id = none;
  owner_id = "ann";
  name = none;
  yaml = "";
  status = RunStatus.succeeded;
  error = none;
  visibility = Visibility.public;
  started_at = some 2;
  finished_at = some 3;
  created_at = 1;
  updated_at = 3;
}

abbrev file_of : String → String → RunFile
file_of id name = record {
  id = id;
  run_id = "r";
  block_id = none;
  name = name;
  mime_type = none;
  size_bytes = none;
  s3_key = id;
  created_at = 2;
}

abbrev runs : RunTables runs_db shares_db run_files_db logs_db
runs = record {
  access = record { rows = run ∷ []; shares = [] };
  files = file_of "k" "map.tif" ∷ [];
  logs = [];
}

runs-IsKeyed : IsKeyed run_columns runs_db shares_db runs.access
runs-IsKeyed r s h k e = Memᴰ.eq_of_singleton h ∙ sym (Memᴰ.eq_of_singleton k)

abbrev decode : String → String
decode s = s

abbrev map_download : FileDownload
map_download = record { url = "k"; name = "map.tif"; mime_type = none; size_bytes = none }

get_run_file_run :
    get_run_file presign decode runs_db shares_db run_files_db logs_db users_db "bob"
      (some "r")
      (some "map.tif")
      runs
    ≡ answer map_download
unfolding handlers
get_run_file_run = refl

get_run_file-IsVisibleFile_example :
    IsVisibleFile presign decode runs_db shares_db run_files_db logs_db users_db "bob" "r" "map.tif"
      runs map_download
get_run_file-IsVisibleFile_example =
    get_run_file-IsVisibleFile presign decode runs_db shares_db run_files_db logs_db users_db "bob"
      "r" "map.tif" runs map_download runs-IsKeyed get_run_file_run

-- The number that tells the second `a.txt` from the first makes it the third file's name.
zip_collision_run :
    map
      (λ (e : ZipEntry). e.name)
      (zip_entries (file_of "1" "a.txt" ∷ file_of "2" "a.txt" ∷ file_of "3" "a_1.txt" ∷ []))
    ≡ "a.txt" ∷ "a_1.txt" ∷ "a_1.txt" ∷ []
unfolding handlers
zip_collision_run = refl

abbrev clip : BlockManifest
clip = record {
  id = "gdal.clip";
  version = "2";
  kind = BlockKind.standard;
  network = false;
  description = none;
  entrypoint = none;
  inputs = [];
  outputs = [];
}

abbrev blocks_db : Database CatalogueBlock same_name
blocks_db = in_memory same_name

abbrev parse_manifest : String → Option BlockManifest
parse_manifest text = some clip

abbrev clip_row : CatalogueBlock
clip_row = record {
  id = "gdal.clip";
  name = "gdal.clip";
  label = "gdal.clip";
  version = "2";
  manifest = clip;
  created_at = 4;
  updated_at = 4;
}

upload_block_run :
    upload_block parse_manifest blocks_db
      (record { id = "ann"; email = "ann@spade"; role = "admin" })
      4
      (UploadBody.yaml_body (some "id: gdal.clip"))
      []
    ≡ (answer clip_row, clip_row ∷ [])
unfolding handlers
upload_block_run = refl

upload_block-get_block_example :
    (◌≡◌ {A = String} "admin" "admin")
    × ((label : String) × (m : BlockManifest) × Carries parse_manifest blocks_db
          (UploadBody.yaml_body (some "id: gdal.clip"))
          label
          m
        × IsUpload blocks_db label m clip_row
        × (get_block parse_manifest blocks_db (some m.id) (clip_row ∷ []) ≡ answer m))
upload_block-get_block_example =
    upload_block-get_block parse_manifest blocks_db
      (record { id = "ann"; email = "ann@spade"; role = "admin" }) 4
      (UploadBody.yaml_body (some "id: gdal.clip")) [] (clip_row ∷ []) clip_row upload_block_run
