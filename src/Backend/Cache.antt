-- ===== src/Backend/Cache.antt =====
-- The cache of the choice: one file in the cache directory, a map from keys to choices. The codec is
-- serde_json's and the digest sha2's, both parameters; what each call of the file system answers is an
-- argument, and so is the file's content, `none` where there is no file that can be read. Bytes are what
-- the codec reads and writes; the program looks at none.
pub mod Laws
use julie_semantic_sidecar.Prelude.{
  ℕ, String, str_eq, Bool, true, false, not, ◌||◌, ◌≡◌, if◌then◌else◌, List, [], ◌∷◌, ◌++◌, Option,
  none, some,
}
use julie_semantic_sidecar.Health.{BackendCapabilities}
use julie_semantic_sidecar.Backend.Selection.{selection}
use julie_semantic_sidecar.Backend.Discovery.{Machine}
use julie_semantic_sidecar.Backend.Runtime.{RuntimeSelection}

pub record RuntimeCachedChoice : Type 0 where
  pub requested : String
  pub resolved : String
  pub degraded_reason : Option String
  pub cuda : Bool
  pub metal : Bool
  pub vulkan : Bool
  pub device : String
  pub device_index : Option ℕ

-- `RuntimeCachedChoice::from_runtime` and `RuntimeCachedChoice::into_runtime`
unfoldable pub from_runtime : RuntimeSelection → RuntimeCachedChoice
from_runtime s = record {
  requested = s.selection.requested;
  resolved = s.selection.resolved;
  degraded_reason = s.selection.degraded_reason;
  cuda = s.capabilities.cuda;
  metal = s.capabilities.metal;
  vulkan = s.capabilities.vulkan;
  device = s.device;
  device_index = s.device_index;
}

unfoldable pub into_runtime : RuntimeCachedChoice → RuntimeSelection
unfolding selection
into_runtime c = record {
  selection = selection c.requested c.resolved c.degraded_reason;
  capabilities = record {
    cpu = true;
    cuda = c.cuda;
    directml = false;
    mps = false;
    metal = c.metal;
    vulkan = c.vulkan;
  };
  device = c.device;
  device_index = c.device_index;
  cache_key = none;
}

-- `BTreeMap<String, RuntimeCachedChoice>`, as far as its keys go.
abbrev pub RuntimeCache : Type 0
RuntimeCache = List (String × RuntimeCachedChoice)

unfoldable pub entry : String → RuntimeCache → Option RuntimeCachedChoice
entry key [] = none
entry key (e ∷ store) = elim (str_eq e.0 key) [ true ↦ some e.1 | false ↦ entry key store ]

unfoldable pub remove_entry : String → RuntimeCache → RuntimeCache
remove_entry key [] = []
remove_entry key (e ∷ store) = elim (str_eq e.0 key) [
  | true ↦ remove_entry key store
  | false ↦ e ∷ remove_entry key store
]

unfoldable pub insert_entry : String → RuntimeCachedChoice → RuntimeCache → RuntimeCache
unfolding remove_entry
insert_entry key choice store = (key, choice) ∷ remove_entry key store

-- serde_json on the cache file, with what the program relies on: what is written is read back.
pub record CacheCodec : Type 1 where
  pub Bytes : Type 0
  pub to_vec : RuntimeCache → Option Bytes
  pub from_slice : Bytes → Option RuntimeCache

abbrev pub IsFaithful : CacheCodec → Type 0
IsFaithful codec =
    (store : RuntimeCache) (raw : codec.Bytes)
    → codec.to_vec store ≡ some raw
    → (read : RuntimeCache) × (codec.from_slice raw ≡ some read)
      × ((key : String) → entry key read ≡ entry key store)

-- Whether each call of `mutate_runtime_cache` on the file system succeeds.
pub record CacheIo : Type 0 where
  pub create_dir_all : Bool
  pub open_lock : Bool
  pub lock : Bool
  pub new_temporary : Bool
  pub write_all : Bool
  pub sync_all : Bool
  pub persist : Bool

module _ (codec : CacheCodec) where
  abbrev parsed : Option RuntimeCache → RuntimeCache
  parsed none = []
  parsed (some store) = store

  unfoldable pub read_runtime_store : Option codec.Bytes → RuntimeCache
  read_runtime_store none = []
  read_runtime_store (some raw) = parsed (codec.from_slice raw)

  unfoldable pub keyed : String → Option RuntimeCachedChoice → Option RuntimeSelection
  unfolding into_runtime
  keyed key none = none
  keyed key (some choice) = some (record (into_runtime choice) { cache_key = some key })

  unfoldable pub read_runtime_cache : Option codec.Bytes → String → Option RuntimeSelection
  unfolding keyed entry read_runtime_store
  read_runtime_cache file key = keyed key (entry key (read_runtime_store file))

  abbrev placed : CacheIo → Option codec.Bytes → Option codec.Bytes → Option codec.Bytes
  placed io none file = file
  placed io (some encoded) file =
      if not io.new_temporary
      then file
      else if not io.write_all || not io.sync_all
      then file
      else if io.persist
      then some encoded
      else file

  -- The file after the call; an early return leaves it.
  unfoldable pub mutate_runtime_cache :
      CacheIo → (RuntimeCache → RuntimeCache) → Option codec.Bytes → Option codec.Bytes
  unfolding read_runtime_store
  mutate_runtime_cache io mutate file =
      if not io.create_dir_all
      then file
      else if not io.open_lock
      then file
      else if not io.lock
      then file
      else placed io (codec.to_vec (mutate (read_runtime_store file))) file

  unfoldable pub write_runtime_cache :
      CacheIo → String → RuntimeSelection → Option codec.Bytes → Option codec.Bytes
  unfolding mutate_runtime_cache from_runtime insert_entry
  write_runtime_cache io key s file =
      mutate_runtime_cache io (λ store. insert_entry key (from_runtime s) store) file

  unfoldable pub invalidate_cached_selection :
      CacheIo → RuntimeSelection → Option codec.Bytes → Option codec.Bytes
  unfolding mutate_runtime_cache remove_entry
  invalidate_cached_selection io s file = elim s.cache_key [
    | none ↦ file
    | some key ↦ mutate_runtime_cache io (λ store. remove_entry key store) file
  ]

pub record SelectionContext : Type 0 where
  pub sidecar_version : String
  pub model_sha256 : String
  pub native_build_identity : String
  pub packaged_backend_identity : String

-- `len().to_le_bytes()` and the bytes of each component, in order, hashed as hexadecimal.
module _ (utf8 : String → List ℕ) (usize_bytes : String → List ℕ) (sha256 : List ℕ → String) where
  abbrev hashed : List String → List ℕ
  hashed [] = []
  hashed (component ∷ components) = usize_bytes component ++ (utf8 component ++ hashed components)

  unfoldable pub runtime_cache_key : SelectionContext → Machine → String
  runtime_cache_key context machine = sha256 (
      hashed (
        context.sidecar_version ∷ context.model_sha256 ∷ context.native_build_identity
        ∷ context.packaged_backend_identity ∷ machine.gpu ∷ machine.driver ∷ []))
