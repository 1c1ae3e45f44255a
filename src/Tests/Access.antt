-- ===== src/Tests/Access.antt =====
-- Two saved pipelines of one owner, of which the first is shared with another user.
use psae_monorepo.Prelude.{
  String, true, false, ◌≡◌, refl, sym, ap, ◌∙◌, ◌↔◌, ◌⊎◌, inl, inr, none, some, List, [], ◌∷◌, Memᴰ,
  ==_iff,
}
use mathlib.Core.List.Memᴰ
use psae_monorepo.Types.{BlockManifest, BlockKind}
use psae_monorepo.Repositories.Database.{Database}
use psae_monorepo.Repositories.Database.InMemory.{in_memory}
use psae_monorepo.Repositories.Acl.{
  Visibility, Permission, Share, same_share, same_id, share_of, Tables, list_owned_by, list_public,
  list_shared_with, get_by_id_for_user, create, share, delete, has_id, get_by_id, permit, first,
  is_public, owns, is_empty,
}
use psae_monorepo.Repositories.Acl.Access.{
  IsKeyed, MaySee, get_by_id_for_user_iff, get_by_id_for_user-lists_iff,
}
use psae_monorepo.Repositories.Acl.Sharing.{IsOwner, share_row, share_iff}
use psae_monorepo.Repositories.Acl.Deletion.{delete-effect}
use psae_monorepo.Repositories.Pipelines.{SavedPipeline, PipelinePatch, pipeline_columns}
use psae_monorepo.Repositories.DataFiles.{
  DataFile, data_file_columns, DataFileTables, create_data_file,
}
use psae_monorepo.Repositories.Blocks.{CatalogueBlock, same_name}

abbrev rows_db : Database SavedPipeline (same_id pipeline_columns)
rows_db = in_memory (same_id pipeline_columns)

abbrev shares_db : Database Share same_share
shares_db = in_memory same_share

abbrev ann : String
ann = "ann"

abbrev saved : String → SavedPipeline
saved id = record {
  id = id;
  owner_id = "ann";
  name = "flood";
  description = none;
  version = "1";
  yaml = "";
  visibility = Visibility.private;
  created_at = 1;
  updated_at = 1;
}

abbrev tables : Tables pipeline_columns rows_db shares_db
tables = record {
  rows = saved "p" ∷ saved "q" ∷ [];
  shares = share_row pipeline_columns rows_db shares_db "p" "bob" Permission.view ∷ [];
}

abbrev id_p : String
id_p = "p"

abbrev id_q : String
id_q = "q"

p-ne-q : ¬ (id_p ≡ id_q)
p-ne-q e = let t = (==_iff "p" "q").1 e in cc

tables-IsKeyed : IsKeyed pipeline_columns rows_db shares_db tables
tables-IsKeyed r s h k e = elim (Memᴰ.cases_cons h) [
  | inl a ↦ elim (Memᴰ.cases_cons k) [
    | inl b ↦ a ∙ sym b
    | inr b ↦
        let c = Memᴰ.eq_of_singleton b in
        absurd (p-ne-q (sym (ap (λ x. x.id) a) ∙ e ∙ ap (λ x. x.id) c))
  ]
  | inr a ↦ elim (Memᴰ.cases_cons k) [
    | inl b ↦
        let c = Memᴰ.eq_of_singleton a in
        absurd (p-ne-q (sym (ap (λ x. x.id) b) ∙ sym e ∙ ap (λ x. x.id) c))
    | inr b ↦ Memᴰ.eq_of_singleton a ∙ sym (Memᴰ.eq_of_singleton b)
  ]
]

lookups : Unit {0}
unfolding get_by_id_for_user get_by_id has_id permit share_of first is_public owns is_empty create
lookups = tt

shared_run :
    get_by_id_for_user pipeline_columns rows_db shares_db "p" "bob" tables ≡ some (saved "p")
unfolding lookups
shared_run = refl

stranger_run : get_by_id_for_user pipeline_columns rows_db shares_db "q" "bob" tables ≡ none
unfolding lookups
stranger_run = refl

get_by_id_for_user_iff_example :
    (get_by_id_for_user pipeline_columns rows_db shares_db "p" "bob" tables ≡ some (saved "p")) ↔ (
      Memᴰ (saved "p") tables.rows
      × (id_p ≡ "p")
      × MaySee pipeline_columns rows_db shares_db tables "bob" (saved "p"))
get_by_id_for_user_iff_example =
    get_by_id_for_user_iff pipeline_columns rows_db shares_db tables "p" "bob" (saved "p")
      tables-IsKeyed

get_by_id_for_user-lists_iff_example :
    (get_by_id_for_user pipeline_columns rows_db shares_db "p" "bob" tables ≡ some (saved "p")) ↔ (
      Memᴰ (saved "p") (list_owned_by pipeline_columns rows_db shares_db "bob" tables)
      ⊎ (Memᴰ (saved "p") (list_public pipeline_columns rows_db shares_db tables)
          ⊎ Memᴰ (saved "p") (list_shared_with pipeline_columns rows_db shares_db "bob" tables)))
get_by_id_for_user-lists_iff_example =
    get_by_id_for_user-lists_iff pipeline_columns rows_db shares_db tables "bob" (saved "p")
      tables-IsKeyed (Memᴰ.head refl)

q_there : Memᴰ (saved "q") (saved "p" ∷ saved "q" ∷ [])
q_there = Memᴰ.tail (Memᴰ.head refl)

share_iff_example :
    let out = share pipeline_columns rows_db shares_db "p" "bob" "eve" Permission.view tables in
    ((out.0 ≡ true) ↔ IsOwner pipeline_columns rows_db shares_db tables "p" "bob")
    × (out.1.rows ≡ tables.rows)
    × ((s : Share)
        → Memᴰ s out.1.shares ↔ (
            (IsOwner pipeline_columns rows_db shares_db tables "p" "bob"
              × (s ≡ share_row pipeline_columns rows_db shares_db "p" "eve" Permission.view))
            ⊎ (Memᴰ s tables.shares
                × ¬ (
                    IsOwner pipeline_columns rows_db shares_db tables "p" "bob"
                    × (share_of "p" "eve" s ≡ true)))))
share_iff_example =
    share_iff pipeline_columns rows_db shares_db tables "p" "bob" "eve" Permission.view

delete-effect_example :
    let out = delete pipeline_columns rows_db shares_db "p" "ann" tables in
    ((r : SavedPipeline)
      → Memᴰ r out.1.rows ↔ (Memᴰ r tables.rows × ¬ ((r.id ≡ "p") × (r.owner_id ≡ "ann"))))
    × ((s : Share)
        → Memᴰ s out.1.shares ↔ (
            Memᴰ s tables.shares
            × ¬ (
                (s.resource_id ≡ "p")
                × IsOwner pipeline_columns rows_db shares_db tables "p" "ann")))
delete-effect_example = delete-effect pipeline_columns rows_db shares_db tables "p" "ann"

abbrev created : Tables pipeline_columns rows_db shares_db
created = record tables { rows = saved "r" ∷ tables.rows }

create_run : create pipeline_columns rows_db shares_db (saved "r") tables ≡ some created
unfolding lookups
create_run = refl

abbrev renamed : PipelinePatch
renamed = record {
  id = none;
  owner_id = none;
  name = some "drought";
  description = some none;
  version = none;
  yaml = none;
  visibility = some Visibility.public;
  created_at = none;
}

bob-IsOwner : ¬ IsOwner pipeline_columns rows_db shares_db tables "p" "bob"
bob-IsOwner (r, h, i, o) = elim (Memᴰ.cases_cons h) [
  | inl e ↦ clash (sym (ap (λ x. x.owner_id) e) ∙ o)
  | inr k ↦ clash (sym (ap (λ x. x.owner_id) (Memᴰ.eq_of_singleton k)) ∙ o)
]
  where
    clash : ann ≡ "bob" → ⊥
    clash e = let t = (==_iff ann "bob").1 e in cc

abbrev files_db : Database DataFile (same_id data_file_columns)
files_db = in_memory (same_id data_file_columns)

abbrev elevation : DataFile
elevation = record {
  id = "f";
  owner_id = "ann";
  name = "dem.tif";
  size_bytes = 4096;
  mime_type = "image/tiff";
  s3_key = "ann/dem.tif";
  visibility = Visibility.private;
  created_at = 1;
  updated_at = 1;
}

abbrev no_files : DataFileTables files_db shares_db
no_files = record { rows = []; shares = [] }

abbrev one_file : DataFileTables files_db shares_db
one_file = record { rows = elevation ∷ []; shares = [] }

no_files-IsKeyed : IsKeyed data_file_columns files_db shares_db no_files
no_files-IsKeyed r s h k e = absurd (Memᴰ.not-nil h)

create_data_file_run : create_data_file files_db shares_db elevation no_files ≡ some one_file
unfolding lookups
create_data_file_run = refl

abbrev blocks_db : Database CatalogueBlock same_name
blocks_db = in_memory same_name

abbrev clip : BlockManifest
clip = record {
  id = "gdal.clip";
  version = "2";
  kind = BlockKind.standard;
  network = false;
  description = none;
  entrypoint = none;
  inputs = [];
  outputs = [];
}

abbrev catalogue : List CatalogueBlock
catalogue =
    record {
      id = "gdal.clip";
      name = "gdal.clip";
      label = "Crop";
      version = "1";
      manifest = record clip { version = "1" };
      created_at = 1;
      updated_at = 1;
    }
    ∷ []
