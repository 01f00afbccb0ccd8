-- ===== src/Ngmap/Host.antt =====
-- What bin/ngmap.py asks of the host: the `bpftool` binary, the monotonic clock, the inter-process
-- lock, the file system and Python's parser of addresses. None of them is code of the repository,
-- so they are a parameter, with what the tool relies on as laws.
use Prim.Native.String.{◌++◌ as ◌<>◌}
use nodeguard.Prelude.{
  ℕ, String, ◌≡◌, ◌≢◌, ◌⊎◌, Bool, true, Option, none, some, List, [], ◌∷◌, ◌++◌,
}
use nodeguard.Net.{Address, Network}

-- The calls of `bpftool(...)`, by their arguments; keys and values are hex tokens.
pub data Call : Type 0 where
  map_lookup : String → List String → Call
  map_dump map_show : String → Call
  map_update : String → List String → List String → Call
  map_delete : String → List String → Call
  map_create : String → List String → Call

join_words : List String → String
join_words [] = ""
join_words (w ∷ []) = w
join_words (w ∷ ws) = w <> " " <> join_words ws

-- `cmd` as a list of arguments, `-j` first where JSON is asked for.
words : Call → List String
words (map_lookup path key) = "-j" ∷ "map" ∷ "lookup" ∷ "pinned" ∷ path ∷ "key" ∷ key
words (map_dump path) = "-j" ∷ "map" ∷ "dump" ∷ "pinned" ∷ path ∷ []
words (map_show path) = "-j" ∷ "map" ∷ "show" ∷ "pinned" ∷ path ∷ []
words (map_update path key value) =
    "map" ∷ "update" ∷ "pinned" ∷ path ∷ "key" ∷ key ++ "value" ∷ value
words (map_delete path key) = "map" ∷ "delete" ∷ "pinned" ∷ path ∷ "key" ∷ key
words (map_create path options) = "map" ∷ "create" ∷ path ∷ options

-- ' '.join(cmd)
pub command_line : Call → String
unfolding join_words words
command_line c = join_words ("/usr/sbin/bpftool" ∷ words c)

-- One object of the array that a dump prints: with "value", with "values" (per CPU), or neither.
pub data Row : Type 0 where
  single : List String → List String → Row
  percpu : List String → List (List String) → Row
  neither : Row

-- What `map show` prints of a map.
pub record MapInfo : Type 0 where
  pub map_type : String
  pub bytes_key : ℕ
  pub bytes_value : ℕ
  pub max_entries : ℕ
  pub flags : ℕ

-- Standard output, parsed if JSON was asked for.
pub data Reply : Type 0 where
  null : Reply
  entry : List String → Reply
  rows : List Row → Reply
  info : MapInfo → Reply
  other : Reply

-- How `subprocess.run` ends. `failed` holds the standard error of a nonzero exit, `timed_out` the limit
-- in seconds (BPFTOOL_TIMEOUT_S) as it is printed, `not_executable` the text of the OSError, and
-- `garbled` is output that is no JSON.
pub data Outcome : Type 0 where
  done : Reply → Outcome
  failed : String → Outcome
  timed_out not_executable : String → Outcome
  garbled : Outcome

pub record Host : Type 1 where
  pub World : Type 0
  pub run : Call → World → Outcome × World
  pub monotonic_ns : World → ℕ × World
  pub path_exists : World → String → Bool
  -- `flock(LOCK_EX)`, which may wait while other processes change the maps, and the close.
  pub lock : World → World
  pub unlock : World → World
  pub ip_network : String → Option Network
  pub ip_address : String → Option Address
  -- `open(path)` and its lines; `none` is FileNotFoundError.
  pub read_lines : World → String → Option (List String)

-- What the pinned maps hold: `holds w path key` is the value of a key, by tokens.
-- The laws are bpftool's documented behaviour, for a process that holds the lock; `lock` has none.
pub record Laws (h : Host) (holds : h.World → String → List String → Option (List String))
    : Type 0 where
  pub lookup_reads :
      (w : h.World) (p p' : String) (k k' : List String)
      → holds (h.run (map_lookup p k) w).1 p' k' ≡ holds w p' k'
  pub lookup_entry :
      (w : h.World) (p : String) (k v : List String)
      → (h.run (map_lookup p k) w).0 ≡ done (entry v)
      → holds w p k ≡ some v
  pub lookup_failed :
      (w : h.World) (p : String) (k : List String) {message : String}
      → (h.run (map_lookup p k) w).0 ≡ failed message
      → h.path_exists (h.run (map_lookup p k) w).1 p ≡ true
      → holds w p k ≡ none
  pub lookup_no_entry :
      (w : h.World) (p : String) (k : List String) {r : Reply}
      → (h.run (map_lookup p k) w).0 ≡ done r
      → ((v : List String) → r ≢ entry v)
      → holds w p k ≡ none
  pub dump_reads :
      (w : h.World) (p p' : String) (k' : List String)
      → holds (h.run (map_dump p) w).1 p' k' ≡ holds w p' k'
  pub clock_reads :
      (w : h.World) (p' : String) (k' : List String)
      → holds (h.monotonic_ns w).1 p' k' ≡ holds w p' k'
  pub update_done :
      (w : h.World) (p : String) (k v : List String) {r : Reply}
      → (h.run (map_update p k v) w).0 ≡ done r
      → holds (h.run (map_update p k v) w).1 p k ≡ some v
  pub update_other :
      (w : h.World) (p p' : String) (k v k' : List String)
      → (p ≢ p') ⊎ (k ≢ k')
      → holds (h.run (map_update p k v) w).1 p' k' ≡ holds w p' k'
  pub delete_done :
      (w : h.World) (p : String) (k : List String) {r : Reply}
      → (h.run (map_delete p k) w).0 ≡ done r
      → holds (h.run (map_delete p k) w).1 p k ≡ none
  pub delete_other :
      (w : h.World) (p p' : String) (k k' : List String)
      → (p ≢ p') ⊎ (k ≢ k')
      → holds (h.run (map_delete p k) w).1 p' k' ≡ holds w p' k'
  pub unlock_keeps :
      (w : h.World) (p' : String) (k' : List String) → holds (h.unlock w) p' k' ≡ holds w p' k'
