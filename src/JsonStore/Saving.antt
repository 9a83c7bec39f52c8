-- ===== src/JsonStore/Saving.antt =====
-- What a saved file gives back.
use go_permissions.Base.{◌≡◌, ◌≢◌, String, [], map, none, arith, eq_iff, Option-cases, inl, inr}
use go_permissions.Base.Text.{concat}
use go_permissions.Base.Results.{Result, ok, Result-cases}
use go_permissions.JsonStore.{Data, Store, Json, empty_data, clone_data, clone_grant, save, load}
use go_permissions.JsonStore.Files.{FileSystem, content, save_file, load_file}

-- What is relied on of the package os: what is written is read, and a renamed file has the content that it had.
pub record IsFileSystem {F : Type 0} (fs : FileSystem F) : Type 0 where
  pub written :
      (f : F) (path text : String)
      → (fs.write_file f path text).1 ≡ none
      → fs.read_file (fs.write_file f path text).0 path ≡ content text
  pub renamed :
      (f : F) (a b : String)
      → (fs.rename f a b).1 ≡ none
      → fs.read_file (fs.rename f a b).0 b ≡ fs.read_file f a

-- What is relied on of encoding/json: the encoding of a value of `Kept` is not empty and is decoded to that value.
pub record IsJson {D : Type 0} (json : Json D) (Kept : D → Type 0) : Type 0 where
  pub full : (d : D) (text : String) → Kept d → json.marshal d ≡ ok text → text ≢ ""
  pub back :
      (d : D) (text : String) → Kept d → json.marshal d ≡ ok text → json.unmarshal text ≡ ok d

module _ {F : Type 0} (fs : FileSystem F) (good : IsFileSystem fs) where
  -- a Save that succeeds has encoded, and the file has the encoding
  saved :
      (files : F) (path : String) (encoded : Result String) (a b c d : String)
      → (save_file fs files path encoded a b c d).1 ≡ none
      → (text : String) × (encoded ≡ ok text)
        × (fs.read_file (save_file fs files path encoded a b c d).0 path ≡ content text)
  unfolding save_file
  saved files path encoded a b c d h =
      let made = fs.mkdir_all files (fs.dir path) in
      let tmp = concat path ".tmp" in
      elim (Option-cases made.1) [
        | inr (e, failed) ↦ absurd (ground arith)
        | inl made_it ↦ elim (Result-cases encoded) [
          | inr (e, failed) ↦ absurd (ground arith)
          | inl (text, is_text) ↦
              let wrote = fs.write_file made.0 tmp text in
              elim (Option-cases wrote.1) [
                | inr (e, failed) ↦ absurd (ground arith)
                | inl wrote_it ↦ elim (Option-cases (fs.rename wrote.0 tmp path).1) [
                  | inr (e, failed) ↦ absurd (ground arith)
                  | inl moved ↦ (
                    text,
                    is_text,
                    ground (
                      arith,
                      good.renamed wrote.0 tmp path moved,
                      good.written made.0 tmp text wrote_it,
                    ),
                  )
                ]
              ]
        ]
      ]

  loaded :
      {D : Type 0} (files : F) (path text : String) (unmarshal : String → Result D) (empty d : D)
      (a b : String)
      → fs.read_file files path ≡ content text
      → text ≢ ""
      → unmarshal text ≡ ok d
      → load_file fs files path unmarshal empty a b ≡ ok d
  unfolding load_file
  loaded files path text unmarshal empty d a b found full back = ground (arith, eq_iff text "")

  load_lem :
      (json : Json Data) (s : Store F) (d : Data)
      → load_file fs s.files s.path json.unmarshal empty_data "read store file" "decode store file"
        ≡ ok d
      → load fs json s ≡ (record s { contents = d }, none)
  unfolding load
  load_lem json s d e = ground arith

  module _ (json : Json Data) (Kept : Data → Type 0) (faithful : IsJson json Kept) where
    -- Where a Save succeeds, a Load reads back what was in the store, but for two things: no team has members any more, and a
    -- nil map of variables is an empty one. This holds where a written file reads as written and renaming keeps its content,
    -- and where encoding/json gives back the data of this store.
    pub load-save :
        (s : Store F)
        → Kept (clone_data s.contents)
        → (save fs json s).1 ≡ none
        → load fs json (save fs json s).0 ≡ (
          record (save fs json s).0 {
            contents = record s.contents {
              team_membership = [];
              grants = map clone_grant s.contents.grants;
            };
          },
          none,
        )
    unfolding save clone_data
    load-save s kept h =
        let (text, is_text, found) =
          saved s.files s.path (json.marshal (clone_data s.contents)) "create store directory"
            "encode store data" "write temp store file" "replace store file" h in
        load_lem json (save fs json s).0 (clone_data s.contents) (
          loaded (save fs json s).0.files s.path text json.unmarshal empty_data
            (clone_data s.contents) "read store file" "decode store file" found
            (faithful.full (clone_data s.contents) text kept is_text)
            (faithful.back (clone_data s.contents) text kept is_text))
