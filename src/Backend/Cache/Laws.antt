-- ===== src/Backend/Cache/Laws.antt =====
-- The cache as a map that outlives a run.
use text.Mathlib.TextEquality.{eq_iff}
use julie_semantic_sidecar.Prelude.{
  ◌&&◌, Bool-cases, String, str_eq, Bool, true, false, not, ◌≡◌, refl, ap, ◌∙◌, ◌⊎◌, inl, inr,
  if◌then◌else◌, [], ◌∷◌, Option, none, some, Option-cases, arith,
}
use julie_semantic_sidecar.Backend.Selection.{cpu, selection}
use julie_semantic_sidecar.Backend.Runtime.{RuntimeSelection}
use julie_semantic_sidecar.Backend.Cache.{
  RuntimeCachedChoice, from_runtime, into_runtime, RuntimeCache, entry, remove_entry, insert_entry,
  CacheCodec, IsFaithful, CacheIo, placed, read_runtime_store, keyed, read_runtime_cache,
  mutate_runtime_cache, write_runtime_cache, invalidate_cached_selection,
}

entry-remove_entry :
    (k j : String) (store : RuntimeCache)
    → entry j (remove_entry k store) ≡ (if str_eq k j then none else entry j store)
unfolding entry remove_entry
entry-remove_entry k j [] = ground arith
entry-remove_entry k j (e ∷ store) =
    ground (arith, eq_iff k j, eq_iff e.0 k, eq_iff e.0 j, entry-remove_entry k j store)

entry-insert_entry :
    (k j : String) (choice : RuntimeCachedChoice) (store : RuntimeCache)
    → entry j (insert_entry k choice store) ≡ (if str_eq k j then some choice else entry j store)
unfolding entry insert_entry
entry-insert_entry k j choice store = ground (arith, eq_iff k j, entry-remove_entry k j store)

-- A call on the file system fails.
abbrev pub IsFailing : CacheIo → Type 0
IsFailing io =
    (io.create_dir_all && io.open_lock && io.lock && io.new_temporary && io.write_all && io.sync_all
      && io.persist)
    ≡ false

module _ (codec : CacheCodec) (faithful : IsFaithful codec) where
  -- What a file says after a change of its store.
  abbrev Holds : (RuntimeCache → RuntimeCache) → Option codec.Bytes → Option codec.Bytes → Type 0
  Holds mutate file file' =
      (key : String)
      → entry key (read_runtime_store codec file')
        ≡ entry key (mutate (read_runtime_store codec file))

  -- The file is left as it is only where a call fails, or the store that is to be written has no text.
  abbrev pub IsUnwritten : CacheIo → RuntimeCache → Option codec.Bytes → Option codec.Bytes → Type 0
  IsUnwritten io store file file' = (IsFailing io ⊎ (codec.to_vec store ≡ none)) × (file' ≡ file)

  placed_failing :
      (io : CacheIo) (encoded file : Option codec.Bytes)
      → (io.new_temporary && io.write_all && io.sync_all && io.persist) ≡ false
      → placed codec io encoded file ≡ file
  placed_failing io none file h = refl
  placed_failing io (some raw) file h = ground arith

  mutate_failing :
      (io : CacheIo) (mutate : RuntimeCache → RuntimeCache) (file : Option codec.Bytes)
      → IsFailing io
      → mutate_runtime_cache codec io mutate file ≡ file
  unfolding mutate_runtime_cache
  mutate_failing io mutate file h =
      elim (Bool-cases (io.new_temporary && io.write_all && io.sync_all && io.persist)) [
        | inl placing ↦ ground arith
        | inr failing ↦
            let kept =
              placed_failing io (codec.to_vec (mutate (read_runtime_store codec file))) file
                failing in
            ground arith
      ]

  mutate_working :
      (io : CacheIo) (mutate : RuntimeCache → RuntimeCache) (file : Option codec.Bytes)
      (raw : codec.Bytes)
      → (io.create_dir_all && io.open_lock && io.lock && io.new_temporary && io.write_all
          && io.sync_all && io.persist)
        ≡ true
      → codec.to_vec (mutate (read_runtime_store codec file)) ≡ some raw
      → mutate_runtime_cache codec io mutate file ≡ some raw
  unfolding mutate_runtime_cache
  mutate_working io mutate file raw h e =
      let dir : io.create_dir_all ≡ true = ground arith in
      let opened : io.open_lock ≡ true = ground arith in
      let locked : io.lock ≡ true = ground arith in
      let new : io.new_temporary ≡ true = ground arith in
      let written : io.write_all ≡ true = ground arith in
      let synced : io.sync_all ≡ true = ground arith in
      let moved : io.persist ≡ true = ground arith in
      rw (mutate_runtime_cache, dir, opened, locked, e, new, written, synced, moved) refl

  mutate_lost :
      (io : CacheIo) (mutate : RuntimeCache → RuntimeCache) (file : Option codec.Bytes)
      → codec.to_vec (mutate (read_runtime_store codec file)) ≡ none
      → mutate_runtime_cache codec io mutate file ≡ file
  unfolding mutate_runtime_cache
  mutate_lost io mutate file lost = let kept = ap (λ o. placed codec io o file) lost in ground arith

  -- A change of the store reaches the file whole, or it is left as it was, for a reason.
  mutate_runtime_cache_lem :
      (io : CacheIo) (mutate : RuntimeCache → RuntimeCache) (file : Option codec.Bytes)
      → let file' = mutate_runtime_cache codec io mutate file in
        IsUnwritten io (mutate (read_runtime_store codec file)) file file' ⊎ Holds mutate file file'
  unfolding read_runtime_store
  mutate_runtime_cache_lem io mutate file =
      elim (Bool-cases (
        io.create_dir_all && io.open_lock && io.lock && io.new_temporary && io.write_all
        && io.sync_all && io.persist)) [
          | inr failing ↦ inl (inl failing, mutate_failing io mutate file failing)
          | inl working ↦
              elim (Option-cases (codec.to_vec (mutate (read_runtime_store codec file)))) [
                | inl lost ↦ inl (inr lost, mutate_lost io mutate file lost)
                | inr (raw, e) ↦
                    let (read, back, same) =
                      faithful (mutate (read_runtime_store codec file)) raw e in
                    inr (λ key. rw (mutate_working io mutate file raw working e, back) (same key))
              ]
        ]

  read_runtime_cache_lem :
      (file : Option codec.Bytes) (key : String)
      → read_runtime_cache codec file key
        ≡ keyed codec key (entry key (read_runtime_store codec file))
  unfolding read_runtime_cache
  read_runtime_cache_lem file key = refl

  -- A choice as it is read back: all that was written, with what follows from it.
  abbrev pub as_cached : String → RuntimeSelection → RuntimeSelection
  as_cached key s = record {
    selection = record s.selection { accelerated = not (str_eq s.selection.resolved cpu) };
    capabilities = record s.capabilities { cpu = true; directml = false; mps = false };
    device = s.device;
    device_index = s.device_index;
    cache_key = some key;
  }

  into-from :
      (key : String) (s : RuntimeSelection)
      → record (into_runtime (from_runtime s)) { cache_key = some key } ≡ as_cached key s
  unfolding into_runtime from_runtime selection
  into-from key s = refl

  keyed_lem :
      (b : Bool) (key : String) (choice : RuntimeCachedChoice) (o : Option RuntimeCachedChoice)
      → keyed codec key (if b then some choice else o) ≡ (
          if b
          then some (record (into_runtime choice) { cache_key = some key })
          else keyed codec key o)
  unfolding keyed
  keyed_lem true key choice o = refl
  keyed_lem false key choice o = refl

  -- Where serde_json reads back what it writes: a choice that is written is what the cache answers for
  -- its key from then on, and for every other key it answers as before. Only where a call of the file
  -- system fails, or serde_json cannot write the store with the choice in it, is the file as it was.
  pub read_runtime_cache-write :
      (io : CacheIo) (key : String) (s : RuntimeSelection) (file : Option codec.Bytes)
      → let file' = write_runtime_cache codec io key s file in
        IsUnwritten io
          (insert_entry key (from_runtime s) (read_runtime_store codec file))
          file
          file'
        ⊎ ((k : String)
            → read_runtime_cache codec file' k
              ≡ (if str_eq key k then some (as_cached k s) else read_runtime_cache codec file k))
  unfolding write_runtime_cache read_runtime_cache keyed
  read_runtime_cache-write io key s file =
      let change = λ (store : RuntimeCache). insert_entry key (from_runtime s) store in
      elim (mutate_runtime_cache_lem io change file) [
        | inl kept ↦ inl kept
        | inr held ↦
            let store = read_runtime_store codec file in
            inr (λ k.
              ap (keyed codec k) (held k ∙ entry-insert_entry key k (from_runtime s) store)
              ∙ keyed_lem (str_eq key k) k (from_runtime s) (entry k store)
              ∙ ap (λ c. if str_eq key k then some c else keyed codec k (entry k store))
                  (into-from k s))
      ]

  -- Where serde_json reads back what it writes: a choice that is invalidated is no longer answered for
  -- its key, and no other one is touched. Only where a call of the file system fails, or serde_json
  -- cannot write the store without the choice, is the file as it was.
  pub read_runtime_cache-invalidate :
      (io : CacheIo) (key : String) (s : RuntimeSelection) (file : Option codec.Bytes)
      → s.cache_key ≡ some key
      → let file' = invalidate_cached_selection codec io s file in
        IsUnwritten io (remove_entry key (read_runtime_store codec file)) file file'
        ⊎ ((k : String)
            → read_runtime_cache codec file' k
              ≡ (if str_eq key k then none else read_runtime_cache codec file k))
  unfolding invalidate_cached_selection read_runtime_cache keyed
  read_runtime_cache-invalidate io key s file e =
      rw (e, invalidate_cached_selection)
        (elim (mutate_runtime_cache_lem io (λ (store : RuntimeCache). remove_entry key store)
          file) [
            | inl kept ↦ inl kept
            | inr held ↦
                let store = read_runtime_store codec file in
                inr (λ k.
                  ap (keyed codec k) (held k ∙ entry-remove_entry key k store)
                  ∙ unkeyed (str_eq key k) k (entry k store))
          ])
    where
      unkeyed :
          (b : Bool) (k : String) (o : Option RuntimeCachedChoice)
          → keyed codec k (if b then none else o) ≡ (if b then none else keyed codec k o)
      unkeyed true k o = refl
      unkeyed false k o = refl
