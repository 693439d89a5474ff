-- ===== src/Model/Legacy.antt =====
-- src/model_legacy.rs: the first format of the state file, and its conversion.
use bootupd.Base.{Str, ℕ, ◌≡◌, refl, ap, ◌∙◌, Option, none, some, [], ◌∷◌, arith}
use bootupd.Base.Map.{
  BTreeMap, get, insert, get-nil, get-insert, IsSorted, Above-IsSorted, get_of_Above,
}
use bootupd.Filetree.{FileTree}
use bootupd.Model.{DateTime, ContentMetadata, InstalledContent, SavedState, no_state}

-- `chrono::NaiveDateTime`, counted like `DateTime`.
abbrev pub NaiveDateTime : Type 0
NaiveDateTime = ℕ

pub record ContentMetadata01 : Type 0 where
  pub timestamp : NaiveDateTime
  pub version : Str

pub record InstalledContent01 : Type 0 where
  pub meta : ContentMetadata01
  pub filetree : Option FileTree

pub record SavedState01 : Type 0 where
  pub installed : BTreeMap InstalledContent01
  pub pending : Option (BTreeMap ContentMetadata01)

module _ (and_utc : NaiveDateTime → DateTime) where
  unfoldable pub upconvert_metadata : ContentMetadata01 → ContentMetadata
  upconvert_metadata m = record { timestamp = and_utc m.timestamp; version = m.version }

  unfoldable pub upconvert_content : InstalledContent01 → InstalledContent
  unfolding upconvert_metadata
  upconvert_content c = record {
    meta = upconvert_metadata c.meta;
    filetree = c.filetree;
    adopted_from = none;
  }

  -- The `for` loop of `SavedState01::upconvert`.
  insert_all : BTreeMap InstalledContent01 → BTreeMap InstalledContent → BTreeMap InstalledContent
  insert_all [] r = r
  insert_all ((k, v) ∷ rest) r = insert_all rest (insert r k (upconvert_content v))

  unfoldable pub upconvert : SavedState01 → SavedState
  unfolding insert_all upconvert_content
  upconvert s = record no_state { installed = insert_all s.installed [] }

  abbrev pub converted :
      Option InstalledContent01 → Option InstalledContent → Option InstalledContent
  converted none old = old
  converted (some v) old = some (record {
    meta = record { timestamp = and_utc v.meta.timestamp; version = v.meta.version };
    filetree = v.filetree;
    adopted_from = none;
  })

  get-insert_all :
      (l : BTreeMap InstalledContent01) (r : BTreeMap InstalledContent) (name : Str)
      → IsSorted l
      → get (insert_all l r) name ≡ converted (get l name) (get r name)
  unfolding insert_all upconvert_content get
  get-insert_all [] r name s = refl
  get-insert_all ((k, v) ∷ l) r name s =
      get-insert_all l (insert r k (upconvert_content v)) name (Above-IsSorted k l s)
      ∙ ground (arith, get-insert r k name (upconvert_content v), get_of_Above k l s)

  -- The conversion keeps every installed component, with its version, its files and its date in UTC
  -- and no adopted version, adds none, and drops what was pending.
  pub upconvert_lem :
      (s : SavedState01) (name : Str)
      → IsSorted s.installed
      → (get (upconvert s).installed name ≡ converted (get s.installed name) none)
        × ((upconvert s).pending ≡ none)
        × ((upconvert s).static_configs ≡ none)
  unfolding upconvert
  upconvert_lem s name sorted = (
    get-insert_all s.installed [] name sorted
        ∙ ap (converted (get s.installed name)) (get-nil name),
    refl,
    refl,
  )
