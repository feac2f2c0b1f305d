-- ===== src/Storage/HardState/Atomic.antt =====
-- `persist` of src/raft_hard_state_store.cpp: a restart finds the old state or the new one, also after
-- a power failure.
use kura_metadata_store.Prelude.{
  ℕ, ◌+◌, ◌^◌, ◌<◌, ◌≤◌, ◌≡◌, ◌≢◌, refl, sym, ◌⊎◌, inl, inr, true, false, Bool-cases, Option, some,
  List, arith, not, ◌==◌, u64_max,
}
use kura_metadata_store.Prelude.Exception.{
  Exception, Result, ok, err, throw_if, storage_error, >>=-eq-ok,
}
use kura_metadata_store.Raft.{PersistRaftHardState, RaftHardStatePersisted}
use kura_metadata_store.Storage.HardState.{DecodedHardState, encode, decode}
use kura_metadata_store.Storage.HardState.RoundTrip.{decode-encode}
use kura_metadata_store.Storage.HardState.Files.{
  unsupported, Outcome, done, failed, FileSystem, IsFileSystem,
}
use kura_metadata_store.Storage.HardState.Persist.{
  RaftHardStateWriteBoundary, HardStateStore, same_state, write_record, after_write, check_persist,
  after_checks, persist_change, persist_checked, persist,
}
use kura_metadata_store.Storage.HardState.Durable.{IsWritten, write_record-IsWritten}
use kura_metadata_store.Storage.HardState.Follows.{
  Stores, StateFits, Follows, Follows-refl, valid-Follows, same-eq,
}

module _ {D : Type 0} (fs : FileSystem D) where
  -- What a store remembers is what a restart would find in its file.
  abbrev pub IsCoherent : HardStateStore D → Type 0
  IsCoherent s =
      (c : Option (List ℕ))
      → fs.found s.disk c
      → Stores s.limits c (record { generation = s.generation; state = s.state })

  -- The end of `persist`, if a restart then finds `c` in the file: either the requested state is
  -- acknowledged, and `c` stands for it and for what the store remembers; or `c` stands for the old
  -- state or the requested one, and the store is as it was or refuses to go on.
  abbrev pub Persisted :
      HardStateStore D
      → PersistRaftHardState
      → Option (List ℕ)
      → HardStateStore D × Result RaftHardStatePersisted
      → Type 0
  Persisted s request c (s', ok r) =
      Stores s'.limits c (record { generation = s'.generation; state = s'.state })
      × (s'.limits ≡ s.limits)
      × (s'.state ≡ request.state)
      × (r.request_id ≡ request.request_id)
      × (r.state ≡ request.state)
      × Follows s.state s'.state
  Persisted s request c (s', err e) =
      ((s' ≡ s) ⊎ (s'.healthy ≡ false))
      × (d : DecodedHardState) × Stores s.limits c d
      × ((d.state ≡ s.state) ⊎ (d.state ≡ request.state))
      × Follows s.state d.state

module _ {D : Type 0} (fs : FileSystem D) (law : IsFileSystem fs)
    (supported : (d : D) → (fs.fsync_directory d).1 ≢ unsupported) where
  -- What a restart finds after the end of `persist`.
  abbrev FoundPersisted :
      HardStateStore D
      → PersistRaftHardState
      → HardStateStore D × Result RaftHardStatePersisted
      → Type 0
  FoundPersisted s request p =
      (c : Option (List ℕ)) → fs.found p.0.disk c → Persisted fs s request c p

  written-either :
      (s : HardStateStore D) (request : PersistRaftHardState) (bytes : List ℕ)
      (s' : HardStateStore D) (e : Exception) (c : Option (List ℕ))
      → IsCoherent fs s
      → decode s.limits bytes ≡ ok (record { generation = s.generation + 1; state = request.state })
      → Follows s.state request.state
      → s'.healthy ≡ false
      → fs.found s.disk c ⊎ (c ≡ some bytes)
      → Persisted fs s request c (s', err e)
  written-either s request bytes s' e c old new follows closed (inl f) = (
    inr closed,
    record { generation = s.generation; state = s.state },
    old c f,
    inl refl,
    Follows-refl s.state,
  )
  written-either s request bytes s' e c old new follows closed (inr f) = (
    inr closed,
    record { generation = s.generation + 1; state = request.state },
    rw f new,
    inr refl,
    follows,
  )

  written-Persisted :
      (s : HardStateStore D) (request : PersistRaftHardState) (bytes : List ℕ) (p : D × Outcome)
      → IsCoherent fs s
      → decode s.limits bytes ≡ ok (record { generation = s.generation + 1; state = request.state })
      → Follows s.state request.state
      → IsWritten fs law supported s.disk bytes p
      → FoundPersisted s request (after_write fs s request p)
  unfolding after_write
  written-Persisted s request bytes (d, done) old new follows (either, h) c f =
      (rw (h refl c f) new, refl, refl, refl, refl, follows)
  written-Persisted s request bytes (d, failed e) old new follows (either, h) c f =
      written-either s request bytes (record s { disk = d; healthy = false }) e c old new follows
        refl (either c f)

  refused-Persisted :
      (s : HardStateStore D) (request : PersistRaftHardState) (e : Exception)
      → IsCoherent fs s
      → FoundPersisted s request (s, err e)
  refused-Persisted s request e old c f = (
    inl refl,
    record { generation = s.generation; state = s.state },
    old c f,
    inl refl,
    Follows-refl s.state,
  )

  -- A request for the state that is stored.
  same-Persisted :
      (s : HardStateStore D) (request : PersistRaftHardState)
      → IsCoherent fs s
      → same_state request.state s.state ≡ true
      → FoundPersisted s request
          (s, ok (record { request_id = request.request_id; state = s.state }))
  same-Persisted s request old same c f = (
    old c f,
    refl,
    sym (same-eq request.state s.state same),
    refl,
    sym (same-eq request.state s.state same),
    Follows-refl s.state,
  )

  change-Persisted :
      (hook : RaftHardStateWriteBoundary → Outcome) (s : HardStateStore D)
      (request : PersistRaftHardState)
      → IsCoherent fs s
      → 48 ≤ s.limits.max_raft_hard_state_bytes
      → s.generation + 1 < 2 ^ 64
      → StateFits request.state
      → Follows s.state request.state
      → (e : Result (List ℕ)) → encode (s.generation + 1) request.state ≡ e
      → FoundPersisted s request (persist_change fs hook s request e)
  unfolding persist_change
  change-Persisted hook s request old room next fits follows (err x) e =
      refused-Persisted s request x old
  change-Persisted hook s request old room next (term, vote) follows (ok bytes) e =
      written-Persisted s request bytes (write_record fs hook bytes s.disk) old
        (decode-encode s.limits (s.generation + 1) request.state bytes room
          (record { generation_fits = next; term_fits = term; vote_fits = vote }) e)
        follows (write_record-IsWritten fs law supported hook bytes s.disk)

  checked-Persisted :
      (hook : RaftHardStateWriteBoundary → Outcome) (s : HardStateStore D)
      (request : PersistRaftHardState)
      → IsCoherent fs s
      → 48 ≤ s.limits.max_raft_hard_state_bytes
      → s.generation < 2 ^ 64
      → StateFits request.state
      → Follows s.state request.state
      → FoundPersisted s request (persist_checked fs hook s request)
  unfolding persist_checked
  checked-Persisted hook s request old room below fits follows =
      elim (Bool-cases (same_state request.state s.state)) [
        | inl same ↦ rw same (same-Persisted s request old same)
        | inr changed ↦ elim (Bool-cases (s.generation == u64_max)) [
          | inl over ↦
              rw (changed, over)
                (refused-Persisted s request
                  (storage_error "Raft hard-state generation would overflow") old)
          | inr fits' ↦
              rw (changed, fits')
                (change-Persisted hook s request old room (ground arith) fits follows _ refl)
        ]
      ]

  check_persist-Follows :
      (s : HardStateStore D) (request : PersistRaftHardState) (u : Unit {0})
      → check_persist fs s request ≡ ok u
      → Follows s.state request.state
  unfolding check_persist
  check_persist-Follows s request u h =
      let (_, _, h1) =
        >>=-eq-ok
          (throw_if (not s.healthy)
            (storage_error "Raft hard-state store must be reopened after a write failure"))
          _ h in
      let (_, _, h2) =
        >>=-eq-ok
          (throw_if (request.request_id == 0)
            (storage_error "Raft hard-state persistence request ID must be nonzero"))
          _ h1 in
      valid-Follows s.state request.state u h2

  checks-Persisted :
      (hook : RaftHardStateWriteBoundary → Outcome) (s : HardStateStore D)
      (request : PersistRaftHardState)
      → IsCoherent fs s
      → 48 ≤ s.limits.max_raft_hard_state_bytes
      → s.generation < 2 ^ 64
      → StateFits request.state
      → (c : Result (Unit {0})) → check_persist fs s request ≡ c
      → FoundPersisted s request (after_checks fs hook s request c)
  unfolding after_checks
  checks-Persisted hook s request old room below fits (err e) h = refused-Persisted s request e old
  checks-Persisted hook s request old room below fits (ok u) h =
      checked-Persisted hook s request old room below fits (check_persist-Follows s request u h)

  -- Whichever call of the file system or of the hook fails, and whether or not the power does after
  -- it: where `persist` returned, a restart finds the requested state in the file, which was the
  -- answer and which the store remembers; where it threw, a restart finds the old state or the
  -- requested one, and the store is as it was or unhealthy. In both cases the state found follows the
  -- one before: the term does not fall, and a vote stays within a term. Before, a restart would find
  -- what the store remembers, the numbers fit 64 bits and the limit a record, and the file system can
  -- synchronise directories.
  pub persist-Persisted :
      (hook : RaftHardStateWriteBoundary → Outcome) (s : HardStateStore D)
      (request : PersistRaftHardState) (c : Option (List ℕ))
      → IsCoherent fs s
      → 48 ≤ s.limits.max_raft_hard_state_bytes
      → s.generation < 2 ^ 64
      → StateFits request.state
      → fs.found (persist fs hook s request).0.disk c
      → Persisted fs s request c (persist fs hook s request)
  unfolding persist
  persist-Persisted hook s request c old room below fits found =
      checks-Persisted hook s request old room below fits (check_persist fs s request) refl c found
