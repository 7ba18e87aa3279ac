-- ===== src/Ipam/Store.antt =====
-- What the three stores of pkg/network/ipam share: a directory with a lock file and one JSON file,
-- and the value in memory. A JSON text is the value that it stands for, or `{}`, or no JSON of it:
-- `json.Marshal` has no failure on these types, and `json.Unmarshal` gives back what was written.
use tenant_cni.Base.{
  Bool, Error, Option, Result, Text, arith, bad_json, bytes, create_failed, err, false,
  if◌then◌else◌, mkdir_failed, none, ok, read_failed, some, stat_failed, true, write_failed, ◌++◌,
  ◌∷◌, ◌≡◌, ◌≢◌,
}

pub data Doc (D : Type 0) : Type 0 where
  braces : Doc D
  json : D → Doc D
  malformed : Doc D

pub data Contents (D : Type 0) : Type 0 where
  absent : Contents D
  unreadable : Contents D
  holds : Doc D → Contents D

-- What `os.Stat` finds at the directory's path.
pub data Entry : Type 0 where
  missing directory plain_file unstatable : Entry

-- A store's directory and file on the node. `opens` and `writes` say whether the file can be opened
-- for writing and whether a write to it goes through, `lock_error` what `filemutex.New` answers.
pub record Disk (D : Type 0) : Type 0 where
  pub entry : Entry
  pub makes : Bool
  pub lock_error : Option Error
  pub file : Contents D
  pub opens : Bool
  pub writes : Bool

-- `mutex` says whether the embedded `*FileMutex` is there: it is nil after a failed `newFileLock`.
pub record Store (D : Type 0) : Type 0 where
  pub mutex : Bool
  pub directory : Text
  pub value : D
  pub data_file : Text
  pub disk : Disk D

-- `filepath.Join` on names that have no slash and no dots of their own
abbrev pub join : Text → Text → Text
join a b = a ++ (b'/' ∷ b)

module _ {D : Type 0} where
  -- `newFileLock`: the path of the lock file.
  unfoldable pub new_file_lock : Text → Disk D → Result Text
  new_file_lock path disk = elim disk.entry [
    | missing ↦ err stat_failed
    | unstatable ↦ err stat_failed
    | directory ↦ elim disk.lock_error [ none ↦ ok (join path (bytes "lock")) | some e ↦ err e ]
    | plain_file ↦ elim disk.lock_error [ none ↦ ok path | some e ↦ err e ]
  ]

  -- `os.MkdirAll` where the directory does not exist
  unfoldable pub make_directory : Disk D → Option Error × Disk D
  make_directory disk = elim disk.entry [
    | missing ↦
        if disk.makes then (none, record disk { entry = directory }) else (some mkdir_failed, disk)
    | _ ↦ (none, disk)
  ]

  make_directory_there : (d : Disk D) → d.entry ≢ missing → make_directory d ≡ (none, d)
  unfolding make_directory
  make_directory_there d e = ground (arith, e)

  -- The body of `NewNodeStore`, `NewTenantStore` and `NewPodStore`. A lock that cannot be made is
  -- logged, and the store is returned without it.
  unfoldable pub new_store : Text → Text → D → Disk D → Result (Store D) × Disk D
  unfolding make_directory new_file_lock
  new_store dir file empty disk =
      let (failed, made) = make_directory disk in
      elim failed [
        | some e ↦ (err e, made)
        | none ↦ (
          ok (record {
            mutex = elim (new_file_lock dir made) [ ok _ ↦ true | err _ ↦ false ];
            directory = dir;
            value = empty;
            data_file = file;
            disk = made;
          }),
          made,
        )
      ]

  -- The store on a directory that is there.
  abbrev pub opened : Text → Text → D → Disk D → Store D
  opened dir file empty disk = record {
    mutex = elim (new_file_lock dir disk) [ ok _ ↦ true | err _ ↦ false ];
    directory = dir;
    value = empty;
    data_file = file;
    disk = disk;
  }

  pub new_store_there :
      (dir file : Text) (empty : D) (d : Disk D)
      → d.entry ≢ missing
      → new_store dir file empty d ≡ (ok (opened dir file empty d), d)
  unfolding new_store
  new_store_there dir file empty d e = ground (arith, make_directory_there d e)

  -- `os.WriteFile(path, raw, 0644)`, which truncates the file before it writes
  unfoldable pub write_file : Doc D → Disk D → Option Error × Disk D
  write_file doc disk =
      if disk.opens
      then if disk.writes
        then (none, record disk { file = holds doc })
        else (some write_failed, record disk { file = holds malformed })
      else (some create_failed, disk)

  -- `StoreNodeData`, `StoreTenantData`, `StorePodData`
  unfoldable pub store_value : Store D → Option Error × Store D
  unfolding write_file
  store_value s =
      let (failed, written) = write_file (json s.value) s.disk in
      (failed, record s { disk = written })

  -- What a loader makes of the text that it read.
  abbrev decode : D → Doc D → Result D
  decode zero_value braces = ok zero_value
  decode zero_value (json v) = ok v
  decode zero_value malformed = err bad_json

  -- `LoadNodeData`, `LoadTenantData`, `LoadPodData`: a file that is not there is created as `{}`.
  unfoldable pub load_value : D → Store D → Option Error × Store D
  unfolding write_file
  load_value zero_value s = elim s.disk.file [
    | absent ↦
        let (failed, written) = write_file braces s.disk in
        elim failed [
          | none ↦ (none, record s { value = zero_value; disk = written })
          | some e ↦ (some e, record s { disk = written })
        ]
    | unreadable ↦ (some read_failed, s)
    | holds doc ↦ elim (decode zero_value doc) [
      | ok v ↦ (none, record s { value = v })
      | err e ↦ (some e, s)
    ]
  ]
