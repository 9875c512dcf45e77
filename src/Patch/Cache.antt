-- ===== src/Patch/Cache.antt =====
-- `PatchCache` of PatchServer/PatchCache.cpp and .h: files in memory, in buffers that are counted.
-- The slots that `new MemState` makes are a heap; `_vecMems` and `_mapFiles` hold addresses in it.
-- The file system, `malloc` and the clock are arguments of each call.
pub mod Content
pub mod Held
pub mod Loads
pub mod Read
pub mod Places
pub mod Outcome
pub mod Unread
pub mod Valid
use tars_framework.Base.{
  ℕ, suc, ◌+◌, ◌-◌, ◌%◌, ◌^◌, Bool, true, false, ◌&&◌, ◌||◌, not, Option, none, some, List, [], ◌∷◌,
  ◌++◌, String, string_key, if◌then◌else◌, leb, ltb, ◌==◌, length, get_elem?, modify, take, drop,
}
use tars_framework.Base.Int.{ℤ, pos, negsuc, eqb_ℤ}
use tars_framework.Base.Map.{Map, find, insert, erase}

pub data FileLoad : Type 0 where
  n_load : FileLoad
  loading : FileLoad
  reload : FileLoad
  loaded : FileLoad

pub record MemState : Type 0 where
  pub file_name : String
  pub file_size : ℕ
  pub file_inode : ℕ
  pub file_time : ℕ
  pub mem_buf : Option (List ℕ)
  pub mem_size : ℕ
  pub mem_count : ℕ
  pub mem_time : ℕ
  pub mem_load : FileLoad

pub record PatchCache : Type 0 where
  pub heap : List MemState
  pub vec_mems : List ℕ
  pub map_files : Map String ℕ
  pub mem_max : ℕ
  pub mem_min : ℕ
  pub mem_num : ℕ

-- What `lstat` tells of a file.
pub record Stat : Type 0 where
  pub size : ℕ
  pub inode : ℕ
  pub mtime : ℕ

-- What `fopen`, `fseek` and `fread` come to; `bytes` is what the file has from its start on.
pub data Reading : Type 0 where
  not_opened : Reading
  not_seeked : Reading
  bytes : List ℕ → Reading
  at_end : Reading
  not_read : Reading

-- What one call of `load` finds: the file, a new buffer (none if `malloc` fails), the time, and
-- the time after which a buffer that nobody holds may be taken.
pub record Surroundings : Type 0 where
  pub stat : Option Stat
  pub reading : Reading
  pub malloc : Option (List ℕ)
  pub now : ℕ
  pub expire_time : ℕ

abbrev pub size_bumem_min : ℕ
size_bumem_min = 1048576

abbrev pub size_bumem_max : ℕ
size_bumem_max = 104857600

unfoldable pub set_mem_option : ℕ → ℕ → ℕ → PatchCache → PatchCache
set_mem_option mem_max mem_min mem_num c = record c {
  mem_max = if ltb size_bumem_max mem_max then size_bumem_max else mem_max;
  mem_min = if ltb mem_min size_bumem_min then size_bumem_min else mem_min;
  mem_num = mem_num;
}

-- The code, and the buffer after the call.
unfoldable pub load_file : Reading → ℕ → List ℕ → ℤ × List ℕ
load_file not_opened size buf = (negsuc 0, buf)
load_file not_seeked size buf = (negsuc 1, buf)
load_file (bytes bs) size buf = elim (take size bs) [
  | [] ↦ (pos 1, buf)
  | b ∷ rest ↦ (pos 0, (b ∷ rest) ++ drop (suc (length rest)) buf)
]
load_file at_end size buf = (pos 1, buf)
load_file not_read size buf = (negsuc 2, buf)

unfoldable pub count_up : ℕ → ℕ
count_up n = (n + 1) % 2 ^ 64

unfoldable pub count_down : ℕ → ℕ
count_down n = (n + 2 ^ 64 - 1) % 2 ^ 64

abbrev pub is_settled : FileLoad → Bool
is_settled n_load = true
is_settled loaded = true
is_settled _ = false

abbrev pub is_loading : FileLoad → Bool
is_loading loading = true
is_loading reload = true
is_loading _ = false

-- A slot that nobody holds and that was not used for a while.
unfoldable pub is_free : ℕ → ℕ → MemState → Bool
is_free now expire_time m =
    is_settled m.mem_load && (m.mem_count == 0) && leb (m.mem_time + expire_time) now

unfoldable pub find_free : ℕ → ℕ → List MemState → List ℕ → Option (ℕ × MemState)
find_free now expire_time heap [] = none
find_free now expire_time heap (a ∷ addresses) =
    let later = find_free now expire_time heap addresses in
    elim (get_elem? heap a) [
      | none ↦ later
      | some m ↦ if is_free now expire_time m then some (a, m) else later
    ]

-- `remove` of one address.
unfoldable pub without : ℕ → List ℕ → List ℕ
without a [] = []
without a (b ∷ bs) = if b == a then without a bs else b ∷ without a bs

-- `insert` of `std::map`, which keeps what is there.
unfoldable pub insert_new : String → ℕ → Map String ℕ → Map String ℕ
insert_new file a m = elim (find file m) [ none ↦ insert file a m | some b ↦ m ]

abbrev pub new_state : Option (List ℕ) → MemState
new_state buf = record {
  file_name = "";
  file_size = 0;
  file_inode = 0;
  file_time = 0;
  mem_buf = buf;
  mem_size = 0;
  mem_count = 0;
  mem_time = 0;
  mem_load = n_load;
}

unfoldable pub claim : ℕ → MemState → MemState
claim mem_max m = record m { mem_count = 0; mem_size = mem_max; mem_load = loading }

-- `__getMem` gives the slot up if it has no buffer.
unfoldable pub checked : ℕ → Option (List ℕ) → PatchCache → Option ℕ × PatchCache
checked a none c = (none, record c { vec_mems = without a c.vec_mems })
checked a (some buf) c = (some a, c)

-- The address of a slot for the file, claimed.
unfoldable pub get_mem : Surroundings → String → PatchCache → Option ℕ × PatchCache
get_mem e file c = elim (find_free e.now e.expire_time c.heap c.vec_mems) [
  | some (a, m) ↦ checked a m.mem_buf (record c {
    heap = modify c.heap a (claim c.mem_max);
    map_files = erase m.file_name c.map_files;
  })
  | none ↦
      if ltb (length c.vec_mems) c.mem_num
      then checked (length c.heap) e.malloc (record c {
        heap = c.heap ++ (claim c.mem_max (new_state e.malloc) ∷ []);
        vec_mems = c.vec_mems ++ (length c.heap ∷ []);
        map_files = insert_new file (length c.heap) c.map_files;
      })
      else (none, c)
]

-- A slot after `__loadFile`, and whether that succeeded.
unfoldable pub read_slot : Surroundings → ℕ → MemState → Bool × MemState
read_slot e size m = elim m.mem_buf [
  | none ↦ (false, record m { mem_time = 0; mem_load = n_load })
  | some buf ↦
      let r = load_file e.reading size buf in
      if eqb_ℤ r.0 (pos 0)
      then (
        true,
        record m {
          mem_buf = some r.1;
          mem_count = count_up m.mem_count;
          mem_time = e.now;
          mem_load = loaded;
        },
      )
      else (false, record m { mem_buf = some r.1; mem_time = 0; mem_load = n_load })
]

-- The end of `load`: the file is read into the slot.
unfoldable pub fill : Surroundings → ℕ → ℕ → PatchCache → Option (ℕ × ℕ) × PatchCache
fill e a size c = elim (get_elem? c.heap a) [
  | none ↦ (none, c)
  | some m ↦
      let r = read_slot e size m in
      (if r.0 then some (a, size) else none, record c { heap = modify c.heap a (λ _. r.1) })
]

-- The slot takes the name and what `lstat` told.
unfoldable pub describe : Stat → MemState → MemState
describe st m = record m { file_size = st.size; file_inode = st.inode; file_time = st.mtime }

unfoldable pub is_same_file : Stat → MemState → Bool
is_same_file st m =
    (m.file_size == st.size) && (m.file_time == st.mtime) && (m.file_inode == st.inode)

-- `load` of a file that has the slot `a`.
unfoldable pub load_again :
    Surroundings → String → Stat → ℕ → MemState → PatchCache → Option (ℕ × ℕ) × PatchCache
load_again e file st a m c =
    if is_loading m.mem_load
    then (none, record c { map_files = erase file c.map_files })
    else if is_same_file st m
    then (
      some (a, m.file_size),
      record c {
        heap =
            modify c.heap a (λ m. record m { mem_time = e.now; mem_count = count_up m.mem_count });
      },
    )
    else fill e a st.size
        (record c { heap = modify c.heap a (λ m. record (describe st m) { mem_load = reload }) })

-- `load` of a file that has no slot, after `__getMem`.
unfoldable pub fill_new :
    Surroundings → String → Stat → Option ℕ × PatchCache → Option (ℕ × ℕ) × PatchCache
fill_new e file st (none, c) = (none, c)
fill_new e file st (some a, c) = fill e a st.size (record c {
  heap = modify c.heap a (λ m. record (describe st m) { file_name = file });
  map_files = insert_new file a c.map_files;
})

unfoldable pub load_new : Surroundings → String → Stat → PatchCache → Option (ℕ × ℕ) × PatchCache
load_new e file st c = fill_new e file st (get_mem e file c)

-- The address and the size of what was loaded; none where the code is -1.
unfoldable pub load : Surroundings → String → PatchCache → Option (ℕ × ℕ) × PatchCache
load e file c = elim e.stat [
  | none ↦ (none, c)
  | some st ↦
      if ltb c.mem_max st.size || ltb st.size c.mem_min
      then (none, c)
      else elim (find file c.map_files) [
        | none ↦ load_new e file st c
        | some a ↦ elim (get_elem? c.heap a) [
          | none ↦ (none, c)
          | some m ↦ load_again e file st a m c
        ]
      ]
]

unfoldable pub release : String → PatchCache → ℤ × PatchCache
release file c = elim (find file c.map_files) [
  | none ↦ (negsuc 0, c)
  | some a ↦ (
    pos 0,
    record c { heap = modify c.heap a (λ m. record m { mem_count = count_down m.mem_count }) },
  )
]
