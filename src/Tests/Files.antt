-- ===== src/Tests/Files.antt =====
-- The JSON store, with a map as its file system.
use go_permissions.Base.{
  ◌≡◌, ◌↔◌, refl, String, true, List, [], ◌∷◌, Option, none, some, map, arith, ne_of_test,
  contains_string, Option-cases, inl, inr, eq_refl,
}
use go_permissions.Base.Maps.{Map, get, put, get-put}
use go_permissions.Base.Results.{Error, ok, message}
use go_permissions.Types.{principal_user}
use go_permissions.InMemory.Identity.{user_member_kind}
use go_permissions.JsonStore.{Data, Store, Json, empty_data, clone_data, clone_grant, save, load}
use go_permissions.JsonStore.Files.{FileSystem, Content, missing, content}
use go_permissions.JsonStore.Saving.{IsFileSystem, IsJson, load-save}
use go_permissions.JsonStore.Expanding.{transitive_expand}
use go_permissions.JsonStore.Expanding.Reaching.{Heir, transitive_expand-Heir}
use package.go_permissions.Tests.Program.{program}
use package.go_permissions.Tests.Data.{grant_to}

abbrev content_of : Option String → Content
content_of none = missing
content_of (some text) = content text

abbrev renamed_to : Map String → String → Option String → Map String × Option Error
renamed_to f b none = (f, some (message "no such file"))
renamed_to f b (some text) = (put f b text, none)

abbrev disk : FileSystem (Map String)
disk = record {
  dir = λ path. "/";
  read_file = λ f path. content_of (get f path);
  mkdir_all = λ f path. (f, none);
  write_file = λ f path text. (put f path text, none);
  rename = λ f a b. renamed_to f b (get f a);
}

disk-IsFileSystem : IsFileSystem disk
disk-IsFileSystem = record {
  written = λ f path text done. ground (arith, get-put f path path text, eq_refl path);
  renamed = λ f a b done. elim (Option-cases (get f a)) [
    | inl absent ↦ absurd (ground arith)
    | inr (text, there) ↦ ground (arith, get-put f b b text, eq_refl b)
  ];
}

-- ann is in the team dev and has a grant
abbrev saved : Data
saved = record empty_data {
  team_membership = ("dev", record { id = "ann"; kind = user_member_kind } ∷ []) ∷ [];
  grants = grant_to principal_user "ann" "docs.edit" ∷ [];
}

-- a codec of what is saved
abbrev codec : Json Data
codec = record { marshal = λ d. ok "{ann}"; unmarshal = λ text. ok (clone_data saved) }

abbrev Kept : Data → Type 0
Kept d = clone_data saved ≡ d

codec-IsJson : IsJson codec Kept
codec-IsJson = record {
  full = λ d text kept done. rw (← text_is text done) (ne_of_test "{ann}" "" refl);
  back = λ d text kept done. rw kept refl;
}
  where
    text_is : (text : String) → ok "{ann}" ≡ ok text → "{ann}" ≡ text
    text_is text e = ground arith

abbrev file_store : Store (Map String)
file_store = record { path = "perms.json"; contents = saved; files = [] }

load-save_example : load disk codec (save disk codec file_store).0 ≡ (
  record (save disk codec file_store).0 {
    contents = record saved { team_membership = []; grants = map clone_grant saved.grants };
  },
  none,
)
unfolding program
load-save_example = load-save disk disk-IsFileSystem codec Kept codec-IsJson file_store refl refl

-- a lead is an editor by an edge, and an editor a viewer by hand
transitive_expand-Heir_example :
    (out : List String) × (transitive_expand
        ("lead" ∷ [])
        (("lead", "editor" ∷ []) ∷ [])
        (("editor", "viewer" ∷ "lead" ∷ []) ∷ [])
      ≡ some out)
    × ((d : String)
        → (contains_string out d ≡ true)
          ↔ Heir
              (("lead", "editor" ∷ []) ∷ [])
              (("editor", "viewer" ∷ "lead" ∷ []) ∷ [])
              ("lead" ∷ [])
              d)
transitive_expand-Heir_example =
    transitive_expand-Heir (("lead", "editor" ∷ []) ∷ []) (("editor", "viewer" ∷ "lead" ∷ []) ∷ [])
      ("lead" ∷ [])

transitive_expand_test :
    transitive_expand
      ("lead" ∷ [])
      (("lead", "editor" ∷ []) ∷ [])
      (("editor", "viewer" ∷ "lead" ∷ []) ∷ [])
    ≡ some ("lead" ∷ "editor" ∷ "viewer" ∷ [])
unfolding program
transitive_expand_test = refl
