-- ===== src/FileSnapshot.antt =====
-- file_snapshot.go: the snapshot store on disk. The directory is a list of folders, each with its two
-- files; removing a temporary one does not fail. The checksum, the comparison of names and what fails are parameters. A crash leaves what a failure
-- at the same place leaves.
pub mod Whole
pub mod Reaped
pub mod Newest
pub mod Names
mod Tests
use perf_raft.Prelude.{
  ℕ, zero, suc, ◌+◌, String, Bool, true, false, not, ◌&&◌, ◌||◌, Option, none, some, List, [], ◌∷◌,
  ◌++◌, ltb, ◌==◌, if◌then◌else◌, str_eq, length,
}
use perf_raft.Configuration.{Configuration}
use perf_raft.LogStore.{Bytes}
use perf_raft.Replication.{SnapshotMeta}
use perf_raft.Vote.{bytes_equal}

pub record FileSnapshotMeta : Type 0 where
  pub meta : SnapshotMeta
  pub crc : Bytes

-- An entry of the store's directory; the suffix of a temporary one is not part of its name. A file that
-- cannot be read is nothing.
pub record Folder : Type 0 where
  pub name : String
  pub temporary : Bool
  pub is_dir : Bool
  pub meta_file : Option FileSnapshotMeta
  pub state_file : Option Bytes

abbrev pub Directory : Type 0
Directory = List Folder

pub record FileSnapshotSink : Type 0 where
  pub meta : SnapshotMeta
  pub contents : Bytes
  pub closed : Bool

-- Less of snapMetaSlice; `before` is the order of the names.
abbrev pub less : (String → String → Bool) → FileSnapshotMeta → FileSnapshotMeta → Bool
less before a b =
    if not (a.meta.term == b.meta.term)
    then ltb a.meta.term b.meta.term
    else if not (a.meta.index == b.meta.index)
    then ltb a.meta.index b.meta.index
    else before a.meta.id b.meta.id

-- The sort, from new to old.
unfoldable pub insert_newest :
    (String → String → Bool) → FileSnapshotMeta → List FileSnapshotMeta → List FileSnapshotMeta
insert_newest before m [] = m ∷ []
insert_newest before m (k ∷ ks) =
    let rest = insert_newest before m ks in if less before m k then k ∷ rest else m ∷ k ∷ ks

unfoldable pub sort_newest :
    (String → String → Bool) → List FileSnapshotMeta → List FileSnapshotMeta
unfolding insert_newest
sort_newest before [] = []
sort_newest before (m ∷ ms) = insert_newest before m (sort_newest before ms)

-- What getSnapshots looks at: folders that are not temporary, with metadata of a known version.
unfoldable pub eligible : Directory → List FileSnapshotMeta
eligible [] = []
eligible (f ∷ d) =
    let rest = eligible d in
    if not f.is_dir || f.temporary
    then rest
    else elim f.meta_file [ none ↦ rest | some m ↦ if ltb 1 m.meta.version then rest else m ∷ rest ]

unfoldable pub get_snapshots : (String → String → Bool) → Directory → List FileSnapshotMeta
get_snapshots before d = sort_newest before (eligible d)

-- List: the newest, up to the number that is retained, which is at least 1.
metas : ℕ → List FileSnapshotMeta → List SnapshotMeta
metas zero ms = []
metas (suc k) [] = []
metas (suc k) (m ∷ ms) = m.meta ∷ metas k ms

pub list : (String → String → Bool) → ℕ → Directory → List SnapshotMeta
unfolding metas
list before retain d = metas retain (get_snapshots before d)

-- The folder that is open by this name.
unfoldable pub find_folder : String → Directory → Option Folder
find_folder id [] = none
find_folder id (f ∷ d) =
    let rest = find_folder id d in if not f.temporary && str_eq f.name id then some f else rest

unfoldable pub change_temporary : String → (Folder → Folder) → Directory → Directory
change_temporary name g [] = []
change_temporary name g (f ∷ d) =
    let rest = change_temporary name g d in
    if f.temporary && str_eq f.name name then g f ∷ rest else f ∷ rest

unfoldable pub remove_temporary : String → Directory → Directory
remove_temporary name [] = []
remove_temporary name (f ∷ d) =
    let rest = remove_temporary name d in
    if f.temporary && str_eq f.name name then rest else f ∷ rest

unfoldable pub has_temporary : String → Directory → Bool
has_temporary name [] = false
has_temporary name (f ∷ d) = (f.temporary && str_eq f.name name) || has_temporary name d

-- MkdirAll takes a folder that is there.
unfoldable pub make_folder : String → Directory → Directory
unfolding has_temporary
make_folder name d =
    if has_temporary name d
    then d
    else record {
      name = name;
      temporary = true;
      is_dir = true;
      meta_file = none;
      state_file = none;
    }
      ∷ d

abbrev pub put_meta : String → Option FileSnapshotMeta → Directory → Directory
put_meta name m d = change_temporary name (λ f. record f { meta_file = m }) d

abbrev pub put_state : String → Bytes → Directory → Directory
put_state name b d = change_temporary name (λ f. record f { state_file = some b }) d

-- The rename.
abbrev pub move_in : String → Directory → Directory
move_in name d = change_temporary name (λ f. record f { temporary = false }) d

-- What works while a sink is created.
pub record CreateWorks : Type 0 where
  pub made : Bool
  pub meta_written : Bool
  pub state_created : Bool

-- Create: the sink, if there is no error, and the directory.
unfoldable pub create : SnapshotMeta → CreateWorks → Directory → Option FileSnapshotSink × Directory
unfolding make_folder change_temporary
create meta works d =
    if not (meta.version == 1)
    then (none, d)
    else if not works.made
    then (none, d)
    else if not works.meta_written
    then (none, put_meta meta.id none (make_folder meta.id d))
    else (let made =
          put_meta meta.id (some (record { meta = meta; crc = [] })) (make_folder meta.id d) in
        if not works.state_created then (none, made) else (
          some (record { meta = meta; contents = []; closed = false }),
          put_state meta.id [] made,
        ))

-- Write only fills a buffer; some of what was written may be in the file.
unfoldable pub write : Bytes → FileSnapshotSink → FileSnapshotSink
write b s = record s { contents = s.contents ++ b }

unfoldable pub write_all : List Bytes → FileSnapshotSink → FileSnapshotSink
unfolding write
write_all [] s = s
write_all (b ∷ bs) s = write_all bs (write b s)

-- What works while a sink is closed, and how many old snapshots are removed before that fails.
pub record CloseWorks : Type 0 where
  pub flushed : Bool
  pub meta_written : Bool
  pub moved : Bool
  pub synced : Bool
  pub removed : ℕ

unfoldable pub remove_folder : String → Directory → Directory
remove_folder name [] = []
remove_folder name (f ∷ d) =
    let rest = remove_folder name d in
    if not f.temporary && str_eq f.name name then rest else f ∷ rest

-- The snapshots beyond the first ones.
unfoldable pub beyond : ℕ → List FileSnapshotMeta → List FileSnapshotMeta
beyond zero ms = ms
beyond (suc k) [] = []
beyond (suc k) (m ∷ ms) = beyond k ms

unfoldable pub remove_some : ℕ → List FileSnapshotMeta → Directory → Bool × Directory
unfolding remove_folder
remove_some left [] d = (true, d)
remove_some zero (m ∷ ms) d = (false, d)
remove_some (suc left) (m ∷ ms) d = remove_some left ms (remove_folder m.meta.id d)

module _ (before : String → String → Bool) (retain : ℕ) (crc : Bytes → Bytes) where
  unfoldable pub reap_snapshots : ℕ → Directory → Bool × Directory
  unfolding beyond remove_some get_snapshots
  reap_snapshots removed d = remove_some removed (beyond retain (get_snapshots before d)) d

  -- finalize knows the size and the checksum.
  unfoldable pub final_meta : FileSnapshotSink → FileSnapshotMeta
  final_meta s = record { meta = record s.meta { size = length s.contents }; crc = crc s.contents }

  -- Close up to the reaping: whether there was no error, and the directory.
  unfoldable pub settle : FileSnapshotSink → CloseWorks → Directory → Bool × Directory
  unfolding final_meta change_temporary remove_temporary
  settle s works d =
      let flushed = put_state s.meta.id s.contents d in
      let whole = put_meta s.meta.id (some (final_meta s)) flushed in
      if not works.flushed
      then (false, remove_temporary s.meta.id d)
      else if not works.meta_written
      then (false, put_meta s.meta.id none flushed)
      else if not works.moved
      then (false, whole)
      else (works.synced, move_in s.meta.id whole)

  reap_after : ℕ → Bool × Directory → Bool × Directory
  unfolding reap_snapshots
  reap_after removed (false, d) = (false, d)
  reap_after removed (true, d) = reap_snapshots removed d

  -- The sink knows the final size once it was flushed.
  closed_sink : Bool → FileSnapshotSink → FileSnapshotSink
  closed_sink true s = record s { meta = (final_meta s).meta; closed = true }
  closed_sink false s = record s { closed = true }

  pub close : FileSnapshotSink → CloseWorks → Directory → Bool × FileSnapshotSink × Directory
  unfolding settle reap_after closed_sink
  close s works d =
      let r = reap_after works.removed (settle s works d) in
      if s.closed then (true, s, d) else (r.0, closed_sink works.flushed s, r.1)

  -- Cancel: the temporary folder goes.
  pub cancel : Bool → FileSnapshotSink → Directory → Bool × FileSnapshotSink × Directory
  unfolding remove_temporary closed_sink
  cancel flushed s d =
      if s.closed
      then (true, s, d)
      else if not flushed
      then (false, closed_sink flushed s, d)
      else (true, closed_sink flushed s, remove_temporary s.meta.id d)

  -- Open: the checksum of the state has to be the one in the metadata.
  unfoldable pub open_state : FileSnapshotMeta → Option Bytes → Option (SnapshotMeta × Bytes)
  open_state m none = none
  open_state m (some b) = if bytes_equal m.crc (crc b) then some (m.meta, b) else none

  unfoldable pub open_folder : Option Folder → Option (SnapshotMeta × Bytes)
  unfolding open_state
  open_folder none = none
  open_folder (some f) = elim f.meta_file [ none ↦ none | some m ↦ open_state m f.state_file ]

  unfoldable pub open_id : String → Directory → Option (SnapshotMeta × Bytes)
  unfolding open_folder find_folder
  open_id id d = open_folder (find_folder id d)
