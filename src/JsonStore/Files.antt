-- ===== src/JsonStore/Files.antt =====
-- Reading and replacing a file, as both types of jsonstore do it (store.go, identity_provider.go).
use go_permissions.Base.{String, Option, none, some, if◌then◌else◌, ◌==◌}
use go_permissions.Base.Text.{concat}
use go_permissions.Base.Results.{Error, Result, ok, err, wrapped}

-- what `os.ReadFile` answers: an error for which `os.IsNotExist` holds, another error, or the content
pub data Content : Type 0 where
  missing : Content
  unread : Error → Content
  content : String → Content

-- The package os, and `filepath.Dir`.
pub record FileSystem (F : Type 0) : Type 0 where
  pub dir : String → String
  pub read_file : F → String → Content
  pub mkdir_all : F → String → F × Option Error
  pub write_file : F → String → String → F × Option Error
  pub rename : F → String → String → F × Option Error

module _ {F D : Type 0} (fs : FileSystem F) (files : F) (path : String) where
  -- Load, but for the write to the state
  unfoldable pub load_file : (String → Result D) → D → String → String → Result D
  load_file unmarshal empty reading decoding = elim (fs.read_file files path) [
    | missing ↦ ok empty
    | unread e ↦ err (wrapped reading e)
    | content text ↦
        if text == ""
        then ok empty
        else elim (unmarshal text) [ err e ↦ err (wrapped decoding e) | ok d ↦ ok d ]
  ]

module _ {F : Type 0} (fs : FileSystem F) (files : F) (path : String) (encoded : Result String)
    (creating encoding writing replacing : String) where
  -- Save, by the encoded data
  unfoldable pub save_file : F × Option Error
  save_file =
      let made = fs.mkdir_all files (fs.dir path) in
      let tmp_path = concat path ".tmp" in
      elim made.1 [
        | some e ↦ (made.0, some (wrapped creating e))
        | none ↦ elim encoded [
          | err e ↦ (made.0, some (wrapped encoding e))
          | ok text ↦
              let written = fs.write_file made.0 tmp_path text in
              let renamed = fs.rename written.0 tmp_path path in
              elim written.1 [
                | some e ↦ (written.0, some (wrapped writing e))
                | none ↦ elim renamed.1 [
                  | some e ↦ (renamed.0, some (wrapped replacing e))
                  | none ↦ (renamed.0, none)
                ]
              ]
        ]
      ]
