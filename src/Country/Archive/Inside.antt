-- ===== src/Country/Archive/Inside.antt =====
-- Where the files of an archive end up.
use go_run.Prelude.{
  ◌≡◌, ◌⊎◌, String, Bool, true, false, List, [], ◌∷◌, ◌++◌, All, All-append, Bool-cases, inl, inr,
}
use go_run.Strings.{has_prefix}
use go_run.Country.Archive.{
  Entry, EntryKind, directory, regular, special, Op, make_dir, create, Extracted, FileSystem, Step,
  attempt, copied, create_opened, is_directory, zip_entry, tar_kind, tar_entry, is_legal, extract,
  extract_zip, extract_tar_gz,
}
use go_run.Country.Archive.Paths.{join_path, dir_of}
use go_run.Country.Archive.Below.{IsBelow, IsParent, legal_lem}

-- A file is created below `dest`; a directory is made below it, or is the one that `dest` is in.
abbrev pub StaysIn : String → Op → Type 0
StaysIn dest (make_dir path) = IsBelow dest path ⊎ IsParent dest path
StaysIn dest (create path) = IsBelow dest path

module _ (P : Op → Type 0) where
  -- What goes on keeps to the operations that are allowed.
  abbrev Keeps : (List Op → Extracted) → Type 0
  Keeps rest = (done : List Op) → All P done → All P (rest done).0

  attempt-Keeps :
      (fs : FileSystem) (op : Op) (next : List Op → Extracted)
      → P op
      → Keeps next
      → Keeps (attempt fs op next)
  unfolding attempt
  attempt-Keeps fs op next p keep done h = elim (Bool-cases (fs done op)) [
    | inl e ↦ rw e (All-append P done (op ∷ []) h (p, tt))
    | inr e ↦ rw e (keep (done ++ op ∷ []) (All-append P done (op ∷ []) h (p, tt)))
  ]

  copied-Keeps : (e : Entry) (rest : List Op → Extracted) → Keeps rest → Keeps (copied e rest)
  unfolding copied
  copied-Keeps e rest keep done h = elim (Bool-cases e.copies) [
    | inl c ↦ rw c (keep done h)
    | inr c ↦ rw c h
  ]

  -- A step does nothing but operations on the path of its entry.
  abbrev KeepsTo : Step → Type 0
  KeepsTo step =
      (target : String) (e : Entry) (rest : List Op → Extracted)
      → P (make_dir target)
      → P (make_dir (dir_of target))
      → P (create target)
      → Keeps rest
      → Keeps (step target e rest)

  zip_entry-KeepsTo : (fs : FileSystem) → KeepsTo (zip_entry fs)
  unfolding zip_entry create_opened
  zip_entry-KeepsTo fs target e rest d p c keep done h = elim (Bool-cases (is_directory e.kind)) [
    | inl k ↦ rw k (attempt-Keeps fs (make_dir target) rest d keep done h)
    | inr k ↦ rw k (
        attempt-Keeps fs (make_dir (dir_of target)) (create_opened fs target e rest) p opening done
          h)
  ]
    where
      opening : Keeps (create_opened fs target e rest)
      opening now k = elim (Bool-cases e.opens) [
        | inl o ↦
            rw o
              (attempt-Keeps fs (create target) (copied e rest) c (copied-Keeps e rest keep) now k)
        | inr o ↦ rw o k
      ]

  tar_entry-KeepsTo : (fs : FileSystem) → KeepsTo (tar_entry fs)
  unfolding tar_entry tar_kind
  tar_entry-KeepsTo fs target e rest d p c keep = of_kind e.kind
    where
      of_kind : (k : EntryKind) → Keeps (tar_kind fs k target e rest)
      of_kind directory = attempt-Keeps fs (make_dir target) rest d keep
      of_kind regular =
          attempt-Keeps fs (make_dir (dir_of target)) (attempt fs (create target) (copied e rest)) p
            (attempt-Keeps fs (create target) (copied e rest) c (copied-Keeps e rest keep))
      of_kind special = keep

module _ (dest : String) (rooted : has_prefix dest "/" ≡ true) where
  extract-Keeps :
      (step : Step) (broken : Bool) (es : List Entry)
      → KeepsTo (StaysIn dest) step
      → Keeps (StaysIn dest) (extract step dest broken es)
  unfolding extract
  extract-Keeps step broken [] keeps done h = h
  extract-Keeps step broken (e ∷ es) keeps done h =
      let target = join_path dest e.name in
      elim (Bool-cases (is_legal dest target)) [
        | inl legal ↦
            let (below, parent) = legal_lem dest rooted e.name legal in
            rw legal (
              keeps target e (extract step dest broken es) (inl below) parent below
                (extract-Keeps step broken es keeps) done h)
        | inr e ↦ rw e h
      ]

-- If the directory that an archive is unpacked into has an absolute path, then whatever the names of
-- the entries are, whichever operations fail and wherever a tar archive breaks off: each path at
-- which `extractZip` or `extractTarGz` creates a file is, once cleaned, the cleaned path of that
-- directory with names after it, none of them empty, `.` or `..` or with a slash in it. So is each
-- path at which a directory is made, except for the directory that the given one is itself in.
pub extract-StaysIn :
    (fs : FileSystem) (dest : String) (broken : Bool) (es : List Entry)
    → has_prefix dest "/" ≡ true
    → All (StaysIn dest) (extract_zip fs dest es).0
      × All (StaysIn dest) (extract_tar_gz fs dest broken es).0
unfolding extract_zip extract_tar_gz
extract-StaysIn fs dest broken es rooted = (
  extract-Keeps dest rooted (zip_entry fs) false es (zip_entry-KeepsTo (StaysIn dest) fs) [] tt,
  extract-Keeps dest rooted (tar_entry fs) broken es (tar_entry-KeepsTo (StaysIn dest) fs) [] tt,
)
